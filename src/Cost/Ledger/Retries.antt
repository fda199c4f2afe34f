-- ===== src/Cost/Ledger/Retries.antt =====
-- Debits that are repeated with the same idempotency key.
use multi_agent_orchestratio.Base.{
  true, Option, none, List, [], ◌∷◌, ◌++◌, String, ok, bind-eq-ok, ◌==◌, ◌≡◌, ◌⊎◌, refl, ◌∙◌, ap,
  arith, Bool-cases, Option-cases, Result-cases, inl, inr, ok_inj, eq_refl,
}
use multi_agent_orchestratio.Base.Int.{ℤ}
use multi_agent_orchestratio.Base.Dict.{lookup}
use multi_agent_orchestratio.Cost.Ledger.{
  Entry, Db, has_key, insert_entry, estimate_row, depth_of, settle, outcome,
  recursive_check_and_update, debit_transaction, check_and_debit, get_remaining,
}
use multi_agent_orchestratio.Cost.Ledger.Debits.{insert_entry-eq-ok}

has_key-append :
    (key : String) (ledger : List Entry) (entry : Entry)
    → (entry.idempotency_key == key) ≡ true
    → has_key key (ledger ++ entry ∷ []) ≡ true
has_key-append key [] entry same = rw same refl
has_key-append key (e ∷ ledger) entry same =
    rw (has_key-append key ledger entry same) (ground arith)

module _ (sha256 : String → String) (current_period : String → String) where
  -- What a debit leaves: its key is in the ledger, or the tenant has no account and nothing changed.
  abbrev Recorded : String → String → Db → Type 0
  Recorded tenant_id key db = (has_key key db.ledger ≡ true) ⊎ (lookup tenant_id db.accounts ≡ none)

  debit_transaction-Recorded :
      (tenant_id : String) (est_micro : ℤ) (run_id key : String) (db : Db) {committed : Option Db}
      → debit_transaction sha256 current_period tenant_id est_micro run_id key db ≡ ok committed
      → Recorded tenant_id key (settle (ok committed) db)
  unfolding debit_transaction
  debit_transaction-Recorded tenant_id est_micro run_id key db {committed} h =
      elim (Bool-cases (has_key key db.ledger)) [
        | inl done ↦ rw (← ok_inj (rw (done, debit_transaction) at h)) (inl done)
        | inr new ↦ elim (Option-cases (lookup tenant_id db.accounts)) [
          | inl unknown ↦ rw (← ok_inj (rw (new, unknown, debit_transaction) at h)) (inr unknown)
          | inr (account, found) ↦
              let period = current_period account.reset_period in
              let (debited, checked, inserted) =
                bind-eq-ok
                  (recursive_check_and_update sha256 est_micro period key (depth_of db) [] tenant_id
                    db)
                  (insert_entry (estimate_row tenant_id est_micro run_id key period))
                  (rw (new, found, debit_transaction) at h) in
              rw (insert_entry-eq-ok _ debited inserted) (
                inl (
                  has_key-append key debited.ledger
                    (estimate_row tenant_id est_micro run_id key period) (eq_refl key)))
        ]
      ]

  debit_transaction-again :
      (tenant_id : String) (est_micro : ℤ) (run_id key : String) (db : Db)
      → Recorded tenant_id key db
      → debit_transaction sha256 current_period tenant_id est_micro run_id key db ≡ ok none
  unfolding debit_transaction
  debit_transaction-again tenant_id est_micro run_id key db (inl done) = rw done refl
  debit_transaction-again tenant_id est_micro run_id key db (inr unknown) =
      elim (Bool-cases (has_key key db.ledger)) [
        | inl done ↦ rw done refl
        | inr new ↦ rw (new, unknown) refl
      ]

  check_and_debit-again :
      (tenant_id : String) (est_micro : ℤ) (run_id key : String) (db : Db)
      → Recorded tenant_id key db
      → check_and_debit sha256 current_period tenant_id est_micro run_id key db
        ≡ (ok (get_remaining current_period tenant_id db), db)
  unfolding check_and_debit
  check_and_debit-again tenant_id est_micro run_id key db recorded =
      ap
        (λ transaction.
          let after = settle transaction db in
          (outcome transaction (get_remaining current_period tenant_id after), after))
        (debit_transaction-again tenant_id est_micro run_id key db recorded)

  check_and_debit-Recorded :
      (tenant_id : String) (est_micro : ℤ) (run_id key : String) (db : Db) {remaining : ℤ}
      → let first = check_and_debit sha256 current_period tenant_id est_micro run_id key db in
        first.0 ≡ ok remaining
        → Recorded tenant_id key first.1
          × (get_remaining current_period tenant_id first.1 ≡ remaining)
  unfolding check_and_debit
  check_and_debit-Recorded tenant_id est_micro run_id key db h =
      elim (Result-cases
        (debit_transaction sha256 current_period tenant_id est_micro run_id key db)) [
          | inr (e, failed) ↦ cc (rw failed at h)
          | inl (committed, done) ↦ rw done (
            debit_transaction-Recorded tenant_id est_micro run_id key db done,
            ok_inj (rw done at h),
          )
        ]

  -- A debit that did not raise may be sent again with its key, whatever its amount and run: the
  -- repeat leaves the database as the first debit left it and returns what the first returned.
  pub check_and_debit-idempotent :
      (tenant_id : String) (est_micro again_micro : ℤ) (run_id again_run key : String) (db : Db)
      {remaining : ℤ}
      → let first = check_and_debit sha256 current_period tenant_id est_micro run_id key db in
        first.0 ≡ ok remaining
        → check_and_debit sha256 current_period tenant_id again_micro again_run key first.1
          ≡ (ok remaining, first.1)
  check_and_debit-idempotent tenant_id est_micro again_micro run_id again_run key db h =
      let first = check_and_debit sha256 current_period tenant_id est_micro run_id key db in
      let (recorded, left) = check_and_debit-Recorded tenant_id est_micro run_id key db h in
      check_and_debit-again tenant_id again_micro again_run key first.1 recorded
      ∙ ap (λ remaining. (ok remaining, first.1)) left
