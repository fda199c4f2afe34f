-- ===== src/Cost/Ledger/Depth.antt =====
-- How far up the chain of parents a debit or a correction goes: the depth that bounds the walk in
-- the model is never reached, as an account is visited at most once.
use multi_agent_orchestratio.Base.{
  ℕ, zero, suc, false, Option, none, some, List, [], ◌∷◌, String, Result, raise, ◌==◌, ◌≤◌, ◌<◌,
  if◌then◌else◌, any, length, ◌≡◌, ◌≢◌, refl, ◌∙◌, ap, arith, Bool-cases, Option-cases,
  Result-cases, inl, inr, raise_inj, eq_iff, eq_refl, recursion_error,
}
use multi_agent_orchestratio.Base.Int.{ℤ, ltb_ℤ, ◌+ℤ◌}
use multi_agent_orchestratio.Base.Dict.{Dict, lookup}
use multi_agent_orchestratio.Cost.Ledger.{
  Account, Entry, Db, has_key, book, spent_of, to_parent, parent_idempotency_key, debit_account,
  recursive_check_and_update, insert_entry, depth_of, debit_transaction, check_and_debit,
}

unfoldable unvisited : List String → Dict Account → ℕ
unvisited visited [] = 0
unvisited visited ((tenant_id, account) ∷ accounts) =
    let rest = unvisited visited accounts in
    if any (λ seen. seen == tenant_id) visited then rest else suc rest

unvisited-nil : (accounts : Dict Account) → unvisited [] accounts ≡ length accounts
unfolding unvisited
unvisited-nil [] = refl
unvisited-nil ((tenant_id, account) ∷ accounts) = ap suc (unvisited-nil accounts)

unvisited-cons-le :
    (t : String) (visited : List String) (accounts : Dict Account)
    → unvisited (t ∷ visited) accounts ≤ unvisited visited accounts
unfolding unvisited
unvisited-cons-le t visited [] = omega arith
unvisited-cons-le t visited ((k, account) ∷ accounts) =
    let ih = unvisited-cons-le t visited accounts in ground arith

unvisited-cons-lt :
    (t : String) (visited : List String) (accounts : Dict Account) {account : Account}
    → lookup t accounts ≡ some account
    → any (λ seen. seen == t) visited ≡ false
    → unvisited (t ∷ visited) accounts < unvisited visited accounts
unfolding unvisited lookup
unvisited-cons-lt t visited [] h new = cc
unvisited-cons-lt t visited ((k, account) ∷ accounts) h new = elim (Bool-cases (k == t)) [
  | inl here ↦
      let same : k ≡ t = (eq_iff k t).0 here in
      let le = unvisited-cons-le t visited accounts in rw same (rw (eq_refl t, new) (ground arith))
  | inr later ↦
      let ih = unvisited-cons-lt t visited accounts (rw (later, lookup) at h) new in
      elim (Bool-cases (t == k)) [
        | inl same ↦ cc (rw ((eq_iff t k).0 same, eq_refl k) at later)
        | inr _ ↦ ground arith
      ]
]

to_parent-depth :
    (debit_parent : String → Db → Result Db) (parent : Option String) (db : Db)
    → ((p : String) → debit_parent p db ≢ raise recursion_error)
    → to_parent debit_parent parent db ≢ raise recursion_error
unfolding to_parent
to_parent-depth debit_parent none db above h = cc
to_parent-depth debit_parent (some parent_id) db above h = elim (Bool-cases (parent_id == "")) [
  | inl nobody ↦ cc (rw (nobody, to_parent) at h)
  | inr parent ↦ above parent_id (rw (parent, to_parent) at h)
]

module _ (sha256 : String → String) (amount_micro : ℤ) (period child_key : String) where
  recursive_check_and_update-depth :
      (depth : ℕ) (visited : List String) (tenant_id : String) (db : Db)
      → unvisited visited db.accounts < depth
      → recursive_check_and_update sha256 amount_micro period child_key depth visited tenant_id db
        ≢ raise recursion_error
  unfolding recursive_check_and_update debit_account book
  recursive_check_and_update-depth zero visited tenant_id db enough h = omega arith
  recursive_check_and_update-depth (suc depth) visited tenant_id db enough h =
      elim (Bool-cases (any (λ seen. seen == tenant_id) visited)) [
        | inl again ↦ cc (rw (again, recursive_check_and_update) at h)
        | inr new ↦ elim (Option-cases (lookup tenant_id db.accounts)) [
          | inl unknown ↦ cc (rw (new, unknown, recursive_check_and_update) at h)
          | inr (account, found) ↦
              let debited = rw (new, found, recursive_check_and_update) at h in
              let fewer = unvisited-cons-lt tenant_id visited db.accounts found new in
              elim (Bool-cases
                (ltb_ℤ account.limit_micro (spent_of db tenant_id period +ℤ amount_micro))) [
                  | inl over ↦ cc (rw (over, debit_account) at debited)
                  | inr within ↦
                      elim (Bool-cases (
                        has_key
                          (parent_idempotency_key sha256 amount_micro period child_key tenant_id)
                          db.ledger)) [
                            | inl done ↦ cc (rw (within, done, debit_account) at debited)
                            | inr fresh ↦
                                to_parent-depth _ account.parent_id _
                                  (λ parent.
                                    recursive_check_and_update-depth depth (tenant_id ∷ visited)
                                      parent _ (omega arith))
                                  (rw (within, fresh, debit_account) at debited)
                          ]
                ]
        ]
      ]

enough_depth : (db : Db) → unvisited [] db.accounts < depth_of db
enough_depth db = let all = unvisited-nil db.accounts in omega arith

insert_entry-depth : (entry : Entry) (db : Db) → insert_entry entry db ≢ raise recursion_error
unfolding insert_entry
insert_entry-depth entry db h = elim (Bool-cases (has_key entry.idempotency_key db.ledger)) [
  | inl taken ↦ cc (rw (taken, insert_entry) at h)
  | inr free ↦ cc (rw (free, insert_entry) at h)
]

module _ (sha256 : String → String) (current_period : String → String) where
  debit_transaction-depth :
      (tenant_id : String) (est_micro : ℤ) (run_id key : String) (db : Db)
      → debit_transaction sha256 current_period tenant_id est_micro run_id key db
        ≢ raise recursion_error
  unfolding debit_transaction
  debit_transaction-depth tenant_id est_micro run_id key db h =
      elim (Bool-cases (has_key key db.ledger)) [
        | inl done ↦ cc (rw (done, debit_transaction) at h)
        | inr new ↦ elim (Option-cases (lookup tenant_id db.accounts)) [
          | inl unknown ↦ cc (rw (new, unknown, debit_transaction) at h)
          | inr (account, found) ↦
              let period = current_period account.reset_period in
              let debited = rw (new, found, debit_transaction) at h in
              elim (Result-cases (
                recursive_check_and_update sha256 est_micro period key (depth_of db) [] tenant_id
                  db)) [
                    | inl (after, walked) ↦ insert_entry-depth _ after (rw walked at debited)
                    | inr (e, failed) ↦
                        recursive_check_and_update-depth sha256 est_micro period key (depth_of db)
                          [] tenant_id db (enough_depth db)
                          (failed ∙ ap raise (raise_inj (rw failed at debited)))
                  ]
        ]
      ]

  -- The walk from a tenant to its ancestors ends: a debit never runs out of the depth that the
  -- model gives it, one more than the number of accounts, even where the accounts form a cycle.
  pub check_and_debit-terminates :
      (tenant_id : String) (est_micro : ℤ) (run_id key : String) (db : Db)
      → (check_and_debit sha256 current_period tenant_id est_micro run_id key db).0
        ≢ raise recursion_error
  unfolding check_and_debit
  check_and_debit-terminates tenant_id est_micro run_id key db h =
      elim (Result-cases
        (debit_transaction sha256 current_period tenant_id est_micro run_id key db)) [
          | inl (after, committed) ↦ cc (rw committed at h)
          | inr (e, failed) ↦
              debit_transaction-depth tenant_id est_micro run_id key db
                (failed ∙ ap raise (raise_inj (rw failed at h)))
        ]
