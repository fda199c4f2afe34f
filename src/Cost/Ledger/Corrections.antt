-- ===== src/Cost/Ledger/Corrections.antt =====
-- `adjust_actual` of src/orchestra/cost/persistent_budget.py: an estimate is corrected to what a call
-- really cost.
use multi_agent_orchestratio.Base.{
  ℕ, zero, suc, Bool, true, false, Option, none, some, List, [], ◌∷◌, String, Result, ok, raise,
  bind, ◌==◌, ◌&&◌, if◌then◌else◌, any, cyclic_hierarchy_error, recursion_error,
}
use multi_agent_orchestratio.Base.Int.{ℤ, pos, ◌+ℤ◌, ◌-ℤ◌}
use multi_agent_orchestratio.Base.Dict.{lookup}
use multi_agent_orchestratio.Cost.Ledger.{
  EntryType, debit_estimate, credit_correction, Entry, Db, set_balance, to_parent, or_unchanged,
  settle, insert_entry, depth_of,
}

-- `UPDATE budget_balances`, which leaves a tenant without a row alone.
unfoldable pub add_to_balance : String → String → ℤ → Db → Db
add_to_balance tenant_id period amount_micro db = elim (db.balances tenant_id period) [
  | none ↦ db
  | some spent ↦ record db {
    balances = set_balance tenant_id period (spent +ℤ amount_micro) db.balances;
  }
]

abbrev pub parent_of : String → Db → Option String
parent_of tenant_id db = elim (lookup tenant_id db.accounts) [
  | none ↦ none
  | some account ↦ account.parent_id
]

unfoldable pub recursive_update_balance : ℤ → String → ℕ → List String → String → Db → Result Db
unfolding add_to_balance to_parent
recursive_update_balance amount_micro period zero visited tenant_id db = raise recursion_error
recursive_update_balance amount_micro period (suc depth) visited tenant_id db =
    if any (λ seen. seen == tenant_id) visited
    then raise cyclic_hierarchy_error
    else to_parent (recursive_update_balance amount_micro period depth (tenant_id ∷ visited))
        (parent_of tenant_id db) (add_to_balance tenant_id period amount_micro db)

abbrev pub is_debit_estimate : EntryType → Bool
is_debit_estimate debit_estimate = true
is_debit_estimate _ = false

-- The first estimate of a run and a tenant.
unfoldable pub find_estimate : String → String → List Entry → Option Entry
find_estimate run_id tenant_id [] = none
find_estimate run_id tenant_id (entry ∷ ledger) =
    let later = find_estimate run_id tenant_id ledger in
    let same_run : Bool = elim entry.run_id [ none ↦ false | some run ↦ run == run_id ] in
    if same_run && (entry.tenant_id == tenant_id && is_debit_estimate entry.entry_type)
    then some entry
    else later

unfoldable pub adjust_transaction : String → String → ℤ → String → Db → Result (Option Db)
unfolding find_estimate recursive_update_balance insert_entry
adjust_transaction tenant_id run_id actual_micro key db =
    elim (find_estimate run_id tenant_id db.ledger) [
      | none ↦ ok none
      | some estimate ↦
          let diff_micro = actual_micro -ℤ estimate.amount_micro in
          let correction : Entry = record {
            tenant_id = tenant_id;
            entry_type = credit_correction;
            amount_micro = pos 0 -ℤ diff_micro;
            run_id = some run_id;
            idempotency_key = key;
            period = estimate.period;
          } in
          bind (insert_entry correction db) λ corrected.
            bind
              (recursive_update_balance diff_micro estimate.period (depth_of db) [] tenant_id
                (or_unchanged corrected db))
              λ updated. ok (some updated)
    ]

unfoldable pub adjust_actual : String → String → ℤ → String → Db → Result (Unit {0}) × Db
unfolding adjust_transaction
adjust_actual tenant_id run_id actual_micro key db =
    let transaction = adjust_transaction tenant_id run_id actual_micro key db in
    (bind transaction (λ _. ok tt), settle transaction db)
