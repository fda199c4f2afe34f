-- ===== src/Cost/Ledger/Debits.antt =====
-- What a debit does to the limits, the balances and the ledger.
use multi_agent_orchestratio.Base.{
  ℕ, zero, suc, true, false, Option, none, some, List, [], ◌∷◌, ◌++◌, String, Result, ok, raise,
  bind-eq-ok, ◌==◌, any, ◌≡◌, refl, sym, ◌∙◌, ap, Bool-cases, Option-cases, inl, inr, ok_inj,
  some_inj, eq_iff,
}
use multi_agent_orchestratio.Base.Int.{ℤ, ◌+ℤ◌, ltb_ℤ}
use multi_agent_orchestratio.Base.Dict.{lookup}
use multi_agent_orchestratio.Cost.Ledger.{
  Account, Entry, debit_estimate, Db, spent_of, has_key, book, to_parent, parent_idempotency_key,
  debit_account, recursive_check_and_update, insert_entry, settle, debit_transaction,
  check_and_debit, depth_of, estimate_row,
}

pub to_parent-keeps :
    (P : Db → Type 0) (debit_parent : String → Db → Result Db) (parent : Option String) (db : Db)
    {after : Db}
    → ((p : String) (d : Db) → debit_parent p d ≡ ok after → P d → P after)
    → to_parent debit_parent parent db ≡ ok after
    → P db
    → P after
unfolding to_parent
to_parent-keeps P debit_parent none db above h p = rw (← ok_inj h) p
to_parent-keeps P debit_parent (some parent_id) db above h p = elim (Bool-cases (parent_id == "")) [
  | inl nobody ↦ rw (← ok_inj (rw (nobody, to_parent) at h)) p
  | inr parent ↦ above parent_id db (rw (parent, to_parent) at h) p
]

module _ (sha256 : String → String) (amount_micro : ℤ) (period child_key : String) where
  -- What holds still holds when an account within its limit is debited for the first time.
  abbrev pub SurvivesBooking : (Db → Type 0) → Type 0
  SurvivesBooking P =
      (tenant_id : String) (account : Account) (db : Db)
      → lookup tenant_id db.accounts ≡ some account
      → ltb_ℤ account.limit_micro (spent_of db tenant_id period +ℤ amount_micro) ≡ false
      → P db
      → P (
          book tenant_id amount_micro period
            (parent_idempotency_key sha256 amount_micro period child_key tenant_id) db)

  recursive_check_and_update-keeps :
      (P : Db → Type 0) (depth : ℕ) (visited : List String) (tenant_id : String) (db : Db)
      {after : Db}
      → SurvivesBooking P
      → recursive_check_and_update sha256 amount_micro period child_key depth visited tenant_id db
        ≡ ok after
      → P db
      → P after
  unfolding recursive_check_and_update debit_account
  recursive_check_and_update-keeps P zero visited tenant_id db survives h p = cc
  recursive_check_and_update-keeps P (suc depth) visited tenant_id db survives h p =
      elim (Bool-cases (any (λ seen. seen == tenant_id) visited)) [
        | inl again ↦ cc (rw (again, recursive_check_and_update) at h)
        | inr new ↦ elim (Option-cases (lookup tenant_id db.accounts)) [
          | inl unknown ↦ rw (← ok_inj (rw (new, unknown, recursive_check_and_update) at h)) p
          | inr (account, found) ↦
              let debited = rw (new, found, recursive_check_and_update) at h in
              elim (Bool-cases
                (ltb_ℤ account.limit_micro (spent_of db tenant_id period +ℤ amount_micro))) [
                  | inl over ↦ cc (rw (over, debit_account) at debited)
                  | inr within ↦
                      elim (Bool-cases (
                        has_key
                          (parent_idempotency_key sha256 amount_micro period child_key tenant_id)
                          db.ledger)) [
                            | inl done ↦
                                rw (← ok_inj (rw (within, done, debit_account) at debited)) p
                            | inr fresh ↦
                                to_parent-keeps P _ account.parent_id _
                                  (λ parent d.
                                    recursive_check_and_update-keeps P depth (tenant_id ∷ visited)
                                      parent d survives)
                                  (rw (within, fresh, debit_account) at debited)
                                  (survives tenant_id account db found within p)
                          ]
                ]
        ]
      ]

same_account :
    (t tenant_id : String) (a account : Account) (db : Db)
    → lookup t db.accounts ≡ some a
    → lookup tenant_id db.accounts ≡ some account
    → (t == tenant_id) ≡ true
    → account ≡ a
same_account t tenant_id a account db h found same =
    let e : t ≡ tenant_id = (eq_iff t tenant_id).0 same in
    some_inj (sym found ∙ ap (λ k. lookup k db.accounts) (sym e) ∙ h)

-- Each account's balance is within its limit, in each period.
abbrev pub WithinLimits : Db → Type 0
WithinLimits db =
    (tenant_id : String) (account : Account) (period : String)
    → lookup tenant_id db.accounts ≡ some account
    → ltb_ℤ account.limit_micro (spent_of db tenant_id period) ≡ false

WithinLimits-SurvivesBooking :
    (sha256 : String → String) (amount_micro : ℤ) (period child_key : String)
    → SurvivesBooking sha256 amount_micro period child_key WithinLimits
unfolding book
WithinLimits-SurvivesBooking sha256 amount_micro period child_key tenant_id account db found within
      w t a p h =
    elim (Bool-cases (t == tenant_id)) [
      | inr other ↦ rw other (w t a p h)
      | inl same ↦ elim (Bool-cases (p == period)) [
        | inr other ↦ rw (same, other) (w t a p h)
        | inl now ↦ rw (same, now, ← same_account t tenant_id a account db h found same) within
      ]
    ]

settle-keeps :
    (P : Db → Type 0) (transaction : Result (Option Db)) (db : Db)
    → ((after : Db) → transaction ≡ ok (some after) → P after)
    → P db
    → P (settle transaction db)
settle-keeps P (ok none) db committed p = p
settle-keeps P (ok (some after)) db committed p = committed after refl
settle-keeps P (raise e) db committed p = p

pub insert_entry-eq-ok :
    (entry : Entry) (db : Db) {committed : Option Db}
    → insert_entry entry db ≡ ok committed
    → committed ≡ some (record db { ledger = db.ledger ++ entry ∷ [] })
unfolding insert_entry
insert_entry-eq-ok entry db h = elim (Bool-cases (has_key entry.idempotency_key db.ledger)) [
  | inl taken ↦ cc (rw (taken, insert_entry) at h)
  | inr free ↦ sym (ok_inj (rw (free, insert_entry) at h))
]

module _ (sha256 : String → String) (current_period : String → String) where
  pub check_and_debit-keeps :
      (P : Db → Type 0) (tenant_id : String) (est_micro : ℤ) (run_id key : String) (db : Db)
      → ((period : String) → SurvivesBooking sha256 est_micro period key P)
      → ((entry : Entry) (d : Db)
          → entry.entry_type ≡ debit_estimate
          → P d
          → P (record d { ledger = d.ledger ++ entry ∷ [] }))
      → P db
      → P (check_and_debit sha256 current_period tenant_id est_micro run_id key db).1
  unfolding check_and_debit debit_transaction
  check_and_debit-keeps P tenant_id est_micro run_id key db booked estimated p =
      settle-keeps P (debit_transaction sha256 current_period tenant_id est_micro run_id key db) db
        (λ after h. elim (Bool-cases (has_key key db.ledger)) [
          | inl done ↦ cc (rw (done, debit_transaction) at h)
          | inr new ↦ elim (Option-cases (lookup tenant_id db.accounts)) [
            | inl unknown ↦ cc (rw (new, unknown, debit_transaction) at h)
            | inr (account, found) ↦
                let period = current_period account.reset_period in
                let (debited, checked, inserted) =
                  bind-eq-ok
                    (recursive_check_and_update sha256 est_micro period key (depth_of db) []
                      tenant_id db)
                    (insert_entry (estimate_row tenant_id est_micro run_id key period))
                    (rw (new, found, debit_transaction) at h) in
                let at_end = some_inj (insert_entry-eq-ok _ debited inserted) in
                rw at_end (
                  estimated _ debited refl (
                    recursive_check_and_update-keeps sha256 est_micro period key P (depth_of db) []
                      tenant_id db (booked period) checked p))
          ]
        ])
        p

  -- A debit leaves the balance of every account, the tenant's and its ancestors', within its limit
  -- in every period, where they were before, whatever the debit's outcome.
  pub check_and_debit-WithinLimits :
      (tenant_id : String) (est_micro : ℤ) (run_id key : String) (db : Db)
      → WithinLimits db
      → WithinLimits (check_and_debit sha256 current_period tenant_id est_micro run_id key db).1
  check_and_debit-WithinLimits tenant_id est_micro run_id key db =
      check_and_debit-keeps WithinLimits tenant_id est_micro run_id key db
        (λ period. WithinLimits-SurvivesBooking sha256 est_micro period key) (λ entry d _ w. w)
