-- ===== src/Cost/Ledger/Charges.antt =====
-- What a successful debit adds to the tenant's balance.
use multi_agent_orchestratio.Base.{
  zero, suc, true, false, some, List, [], ◌∷◌, String, ok, Result-cases, ◌==◌, ◌+++◌, any, ◌≡◌,
  refl, sym, ◌∙◌, Bool-cases, Option-cases, inl, inr, ok_inj, eq_iff, eq_refl, ℕ, arith,
}
use multi_agent_orchestratio.Base.Int.{ℤ, ◌+ℤ◌, ltb_ℤ}
use multi_agent_orchestratio.Base.Dict.{lookup}
use multi_agent_orchestratio.Cost.Ledger.{
  Account, Db, spent_of, has_key, book, parent_idempotency_key, debit_account,
  recursive_check_and_update, insert_entry, debit_transaction, check_and_debit, depth_of,
  estimate_row,
}
use multi_agent_orchestratio.Cost.Ledger.Debits.{to_parent-keeps, insert_entry-eq-ok}
use multi_agent_orchestratio.Cost.Ledger.Bookings.{IsBooked, check_and_debit-IsBooked}

module _ (sha256 : String → String) (amount_micro : ℤ) (period child_key : String) where
  not_seen :
      (t tenant_id : String) (visited : List String)
      → any (λ seen. seen == t) visited ≡ true
      → any (λ seen. seen == tenant_id) visited ≡ false
      → (t == tenant_id) ≡ false
  not_seen t tenant_id visited was new = elim (Bool-cases (t == tenant_id)) [
    | inr other ↦ other
    | inl same ↦
        let e : t ≡ tenant_id = (eq_iff t tenant_id).0 same in
        let again : any (λ seen. seen == tenant_id) visited ≡ true = rw (← e) was in
        cc (sym again ∙ new)
  ]

  -- An account that the walk has passed is not charged again.
  passed-spent :
      (t p : String) (total : ℤ) (depth : ℕ) (visited : List String) (tenant_id : String) (db : Db)
      {after : Db}
      → any (λ seen. seen == t) visited ≡ true
      → recursive_check_and_update sha256 amount_micro period child_key depth visited tenant_id db
        ≡ ok after
      → spent_of db t p ≡ total
      → spent_of after t p ≡ total
  unfolding recursive_check_and_update debit_account book
  passed-spent t p total zero visited tenant_id db was h now = cc
  passed-spent t p total (suc depth) visited tenant_id db was h now =
      elim (Bool-cases (any (λ seen. seen == tenant_id) visited)) [
        | inl again ↦ cc (rw (again, recursive_check_and_update) at h)
        | inr new ↦ elim (Option-cases (lookup tenant_id db.accounts)) [
          | inl unknown ↦ rw (← ok_inj (rw (new, unknown, recursive_check_and_update) at h)) now
          | inr (account, found) ↦
              let debited = rw (new, found, recursive_check_and_update) at h in
              elim (Bool-cases
                (ltb_ℤ account.limit_micro (spent_of db tenant_id period +ℤ amount_micro))) [
                  | inl over ↦ cc (rw (over, debit_account) at debited)
                  | inr within ↦
                      elim (Bool-cases (
                        has_key
                          (parent_idempotency_key sha256 amount_micro period child_key tenant_id)
                          db.ledger)) [
                            | inl done ↦
                                rw (← ok_inj (rw (within, done, debit_account) at debited)) now
                            | inr fresh ↦
                                let other = not_seen t tenant_id visited was new in
                                let passed : any (λ seen. seen == t) (tenant_id ∷ visited) ≡ true =
                                  ground arith in
                                to_parent-keeps (λ d. spent_of d t p ≡ total) _ account.parent_id _
                                  (λ parent d.
                                    passed-spent t p total depth (tenant_id ∷ visited) parent d
                                      passed)
                                  (rw (within, fresh, debit_account) at debited) (rw other now)
                          ]
                ]
        ]
      ]

  -- The key of the row is that of `parent_idempotency_key`, spelt out.
  abbrev pub charge_key : String → String
  charge_key tenant_id =
      "parent:" +++ sha256 (child_key +++ ("|" +++ (tenant_id +++ ("|" +++ period))))

  charged-spent :
      (depth : ℕ) (tenant_id : String) (account : Account) (db : Db) {after : Db}
      → lookup tenant_id db.accounts ≡ some account
      → has_key (charge_key tenant_id) db.ledger ≡ false
      → recursive_check_and_update sha256 amount_micro period child_key (suc depth) [] tenant_id db
        ≡ ok after
      → spent_of after tenant_id period ≡ spent_of db tenant_id period +ℤ amount_micro
  unfolding recursive_check_and_update debit_account book parent_idempotency_key
  charged-spent depth tenant_id account db found fresh h =
      let debited = rw (found, recursive_check_and_update) at h in
      let unbooked : has_key (parent_idempotency_key sha256 amount_micro period child_key tenant_id)
            db.ledger
          ≡ false =
        fresh in
      elim (Bool-cases (ltb_ℤ account.limit_micro (spent_of db tenant_id period +ℤ amount_micro))) [
        | inl over ↦ cc (rw (over, debit_account) at debited)
        | inr within ↦
            to_parent-keeps
              (λ d. spent_of d tenant_id period ≡ spent_of db tenant_id period +ℤ amount_micro) _
              account.parent_id _
              (λ parent d.
                passed-spent tenant_id period _ depth (tenant_id ∷ []) parent d
                  (rw (eq_refl tenant_id) refl))
              (rw (within, unbooked, debit_account) at debited)
              (rw (eq_refl tenant_id, eq_refl period) refl)
      ]

module _ (sha256 : String → String) (current_period : String → String) where
  charges :
      (tenant_id : String) (est_micro : ℤ) (run_id key : String) (db : Db) (account : Account)
      {remaining : ℤ}
      → let period = current_period account.reset_period in
        let (result, after) =
          check_and_debit sha256 current_period tenant_id est_micro run_id key db in
        lookup tenant_id db.accounts ≡ some account
        → has_key key db.ledger ≡ false
        → has_key (charge_key sha256 est_micro period key tenant_id) db.ledger ≡ false
        → result ≡ ok remaining
        → spent_of after tenant_id period ≡ spent_of db tenant_id period +ℤ est_micro
  unfolding check_and_debit debit_transaction
  charges tenant_id est_micro run_id key db account found new fresh h =
      let period = current_period account.reset_period in
      elim (Result-cases
        (recursive_check_and_update sha256 est_micro period key (depth_of db) [] tenant_id db)) [
          | inr (e, failed) ↦ cc (rw (new, found, failed) at h)
          | inl (debited, done) ↦
              elim (Result-cases
                (insert_entry (estimate_row tenant_id est_micro run_id key period) debited)) [
                  | inr (e, failed) ↦ cc (rw (new, found, done, failed) at h)
                  | inl (committed, inserted) ↦
                      rw (new, found, done, inserted, insert_entry-eq-ok _ debited inserted)
                        (charged-spent sha256 est_micro period key _ tenant_id account db found
                          fresh done)
                ]
        ]

  -- Where each balance is the sum of the tenant's parent_debit rows of the period, it still is after
  -- a debit. A debit that returns raises what the tenant has spent in the period by exactly its
  -- amount, if the tenant has an account, and if neither the debit's key is in the ledger nor the key
  -- of the tenant's row, "parent:" with the hash of the debit's key, the tenant and the period.
  pub check_and_debit-charges :
      (tenant_id : String) (est_micro : ℤ) (run_id key : String) (db : Db) (account : Account)
      {remaining : ℤ}
      → let period = current_period account.reset_period in
        let (result, after) =
          check_and_debit sha256 current_period tenant_id est_micro run_id key db in
        IsBooked db
        → lookup tenant_id db.accounts ≡ some account
        → has_key key db.ledger ≡ false
        → has_key (charge_key sha256 est_micro period key tenant_id) db.ledger ≡ false
        → result ≡ ok remaining
        → IsBooked after
          × (spent_of after tenant_id period ≡ spent_of db tenant_id period +ℤ est_micro)
  check_and_debit-charges tenant_id est_micro run_id key db account booked found new fresh h = (
    check_and_debit-IsBooked sha256 current_period tenant_id est_micro run_id key db booked,
    charges tenant_id est_micro run_id key db account found new fresh h,
  )
