-- ===== src/Cost/Ledger.antt =====
-- `PersistentBudgetStore` of src/orchestra/cost/persistent_budget.py. The three tables are a `Db`; a
-- transaction that raises is rolled back. Amounts are in microdollars. The clock and SHA-256 are
-- parameters.
pub mod Corrections
pub mod Debits
pub mod Bookings
pub mod Charges
pub mod Retries
pub mod Depth
use multi_agent_orchestratio.Base.{
  ℕ, zero, suc, Bool, true, false, Option, none, some, List, [], ◌∷◌, ◌++◌, String, Result, ok,
  raise, bind, ◌==◌, ◌&&◌, ◌||◌, if◌then◌else◌, any, ◌+++◌, length, ◌+◌, budget_exceeded_error,
  cyclic_hierarchy_error, recursion_error, integrity_error,
}
use multi_agent_orchestratio.Base.Int.{ℤ, pos, ◌+ℤ◌, ◌-ℤ◌, ltb_ℤ}
use multi_agent_orchestratio.Base.Dict.{Dict, lookup, insert, contains}

pub data EntryType : Type 0 where
  debit_estimate parent_debit credit_correction : EntryType

-- A row of `budget_accounts`.
pub record Account : Type 0 where
  pub parent_id : Option String
  pub limit_micro : ℤ
  pub reset_period : String

-- A row of `budget_ledger`.
pub record Entry : Type 0 where
  pub tenant_id : String
  pub entry_type : EntryType
  pub amount_micro : ℤ
  pub run_id : Option String
  pub idempotency_key : String
  pub period : String

-- `budget_balances` is a function of its primary key.
abbrev pub Balances : Type 0
Balances = String → String → Option ℤ

pub record Db : Type 0 where
  pub accounts : Dict Account
  pub ledger : List Entry
  pub balances : Balances

abbrev pub or_zero : Option ℤ → ℤ
or_zero none = pos 0
or_zero (some amount) = amount

abbrev pub spent_of : Db → String → String → ℤ
spent_of db tenant_id period = or_zero (db.balances tenant_id period)

abbrev pub set_balance : String → String → ℤ → Balances → Balances
set_balance tenant_id period amount balances t p =
    if t == tenant_id && p == period then some amount else balances t p

abbrev pub has_key : String → List Entry → Bool
has_key key ledger = any (λ entry. entry.idempotency_key == key) ledger

-- The foreign key: a parent is an account, or the new one itself.
abbrev pub parent_exists : String → Option String → Dict Account → Bool
parent_exists tenant_id none accounts = true
parent_exists tenant_id (some parent_id) accounts =
    parent_id == tenant_id || contains parent_id accounts

unfoldable pub create_account :
    (String → String) → String → Option String → ℤ → String → Db → Result Db
create_account current_period tenant_id parent_id limit_micro reset_period db =
    let period = current_period reset_period in
    if parent_exists tenant_id parent_id db.accounts
    then ok (record db {
      accounts =
          insert tenant_id
            (record {
              parent_id = parent_id;
              limit_micro = limit_micro;
              reset_period = reset_period;
            })
            db.accounts;
      balances = elim (db.balances tenant_id period) [
        | none ↦ set_balance tenant_id period (pos 0) db.balances
        | some spent ↦ db.balances
      ];
    })
    else raise integrity_error

-- The row of an account that is debited, and its balance.
unfoldable pub book : String → ℤ → String → String → Db → Db
book tenant_id amount_micro period key db = record db {
  ledger =
      db.ledger
      ++ record {
        tenant_id = tenant_id;
        entry_type = parent_debit;
        amount_micro = amount_micro;
        run_id = none;
        idempotency_key = key;
        period = period;
      }
        ∷ [];
  balances =
      set_balance tenant_id period (spent_of db tenant_id period +ℤ amount_micro) db.balances;
}

-- `if parent_id:`.
unfoldable pub to_parent : (String → Db → Result Db) → Option String → Db → Result Db
to_parent debit_parent none db = ok db
to_parent debit_parent (some parent_id) db =
    if parent_id == "" then ok db else debit_parent parent_id db

module _ (sha256 : String → String) (amount_micro : ℤ) (period child_key : String) where
  unfoldable pub parent_idempotency_key : String → String
  parent_idempotency_key parent_id =
      "parent:" +++ sha256 (child_key +++ ("|" +++ (parent_id +++ ("|" +++ period))))

  -- One account of the chain: the check of its limit, its rows, and its parent.
  unfoldable pub debit_account : (String → Db → Result Db) → String → Account → Db → Result Db
  unfolding parent_idempotency_key book to_parent
  debit_account debit_parent tenant_id account db =
      let key = parent_idempotency_key tenant_id in
      if ltb_ℤ account.limit_micro (spent_of db tenant_id period +ℤ amount_micro)
      then raise budget_exceeded_error
      else if has_key key db.ledger
      then ok db
      else to_parent debit_parent account.parent_id (book tenant_id amount_micro period key db)

  unfoldable pub recursive_check_and_update : ℕ → List String → String → Db → Result Db
  unfolding debit_account
  recursive_check_and_update zero visited tenant_id db = raise recursion_error
  recursive_check_and_update (suc depth) visited tenant_id db =
      if any (λ seen. seen == tenant_id) visited
      then raise cyclic_hierarchy_error
      else (elim (lookup tenant_id db.accounts) [
        | none ↦ ok db
        | some account ↦
            debit_account (recursive_check_and_update depth (tenant_id ∷ visited)) tenant_id account
              db
      ])

-- What a tenant has left, at least 0; one without an account has 1,000,000 dollars.
unfoldable pub get_remaining : (String → String) → String → Db → ℤ
get_remaining current_period tenant_id db = elim (lookup tenant_id db.accounts) [
  | none ↦ pos 1000000000000
  | some account ↦
      let left =
        account.limit_micro -ℤ spent_of db tenant_id (current_period account.reset_period) in
      if ltb_ℤ left (pos 0) then pos 0 else left
]

abbrev pub or_unchanged : Option Db → Db → Db
or_unchanged none db = db
or_unchanged (some changed) db = changed

-- What the database holds after a transaction.
abbrev pub settle : Result (Option Db) → Db → Db
settle (ok changed) db = or_unchanged changed db
settle (raise e) db = db

abbrev pub outcome : Result (Option Db) → ℤ → Result ℤ
outcome (ok _) remaining = ok remaining
outcome (raise e) remaining = raise e

-- An `INSERT` into the ledger at the end of a transaction, which its unique key may refuse.
unfoldable pub insert_entry : Entry → Db → Result (Option Db)
insert_entry entry db =
    if has_key entry.idempotency_key db.ledger
    then raise integrity_error
    else ok (some (record db { ledger = db.ledger ++ entry ∷ [] }))

abbrev pub estimate_row : String → ℤ → String → String → String → Entry
estimate_row tenant_id est_micro run_id key period = record {
  tenant_id = tenant_id;
  entry_type = debit_estimate;
  amount_micro = est_micro;
  run_id = some run_id;
  idempotency_key = key;
  period = period;
}

-- One more than the accounts bounds the depth of the chain.
abbrev pub depth_of : Db → ℕ
depth_of db = suc (length db.accounts)

module _ (sha256 : String → String) (current_period : String → String) where
  -- The transaction of `check_and_debit`: none where it is rolled back without an error.
  unfoldable pub debit_transaction : String → ℤ → String → String → Db → Result (Option Db)
  unfolding recursive_check_and_update insert_entry
  debit_transaction tenant_id est_micro run_id key db =
      if has_key key db.ledger then ok none else (elim (lookup tenant_id db.accounts) [
        | none ↦ ok none
        | some account ↦
            let period = current_period account.reset_period in
            bind
              (recursive_check_and_update sha256 est_micro period key (depth_of db) [] tenant_id db)
              λ debited. insert_entry (estimate_row tenant_id est_micro run_id key period) debited
      ])

  unfoldable pub check_and_debit : String → ℤ → String → String → Db → Result ℤ × Db
  unfolding debit_transaction get_remaining
  check_and_debit tenant_id est_micro run_id key db =
      let transaction = debit_transaction tenant_id est_micro run_id key db in
      let after = settle transaction db in
      (outcome transaction (get_remaining current_period tenant_id after), after)

-- `TenantBudgetManager.check_budget`.
unfoldable pub check_budget : (String → String) → String → Db → Bool
unfolding get_remaining
check_budget current_period tenant_id db = ltb_ℤ (pos 0) (get_remaining current_period tenant_id db)
