-- ===== src/Tests/Costs.antt =====
-- A ledger with a team in an organisation, and two accounts that are each other's parent.
use multi_agent_orchestratio.Base.{
  ℕ, true, false, Option, none, some, List, [], ◌∷◌, String, ok, raise, ◌≡◌, ◌≢◌, refl, ◌==◌,
  Bool-cases, inl, inr, recursion_error, cyclic_hierarchy_error, some_inj,
}
use multi_agent_orchestratio.Base.Int.{ℤ, pos}
use multi_agent_orchestratio.Base.Dict.{lookup}
use multi_agent_orchestratio.Cost.Ledger.{Account, Db, check_and_debit, has_key, spent_of}
use multi_agent_orchestratio.Cost.Ledger.Corrections.{adjust_actual}
use multi_agent_orchestratio.Cost.Ledger.Debits.{WithinLimits, check_and_debit-WithinLimits}
use multi_agent_orchestratio.Cost.Ledger.Bookings.{IsBooked}
use multi_agent_orchestratio.Cost.Ledger.Charges.{check_and_debit-charges}
use multi_agent_orchestratio.Cost.Ledger.Retries.{check_and_debit-idempotent}
use multi_agent_orchestratio.Cost.Ledger.Depth.{check_and_debit-terminates}

abbrev sha256 : String → String
sha256 text = text

abbrev month : String → String
month reset_period = "2026-03"

abbrev team : Account
team = record { parent_id = some "org"; limit_micro = pos 50; reset_period = "monthly" }

abbrev org : Account
org = record { parent_id = none; limit_micro = pos 70; reset_period = "monthly" }

abbrev ledger : Db
ledger = record {
  accounts = ("team", team) ∷ ("org", org) ∷ [];
  ledger = [];
  balances = λ tenant_id period. none;
}

abbrev debited : Db
debited = (check_and_debit sha256 month "team" (pos 30) "run" "k1" ledger).1

team_left : (check_and_debit sha256 month "team" (pos 30) "run" "k1" ledger).0 ≡ ok (pos 20)
unfolding check_and_debit lookup multi_agent_orchestratio.Base.Int.◌+ℤ◌
    multi_agent_orchestratio.Base.Int.◌-ℤ◌
team_left = refl

org_charged : spent_of debited "org" "2026-03" ≡ pos 30
unfolding check_and_debit lookup multi_agent_orchestratio.Base.Int.◌+ℤ◌
org_charged = refl

ledger-WithinLimits : WithinLimits ledger
unfolding lookup
ledger-WithinLimits tenant_id account period found = elim (Bool-cases ("team" == tenant_id)) [
  | inl is_team ↦ rw (← some_inj (rw (is_team, lookup) at found)) refl
  | inr not_team ↦ elim (Bool-cases ("org" == tenant_id)) [
    | inl is_org ↦ rw (← some_inj (rw (not_team, is_org, lookup) at found)) refl
    | inr neither ↦ cc (rw (not_team, neither, lookup) at found)
  ]
]

check_and_debit-WithinLimits_example : WithinLimits debited
check_and_debit-WithinLimits_example =
    check_and_debit-WithinLimits sha256 month "team" (pos 30) "run" "k1" ledger ledger-WithinLimits

ledger-IsBooked : IsBooked ledger
unfolding multi_agent_orchestratio.Cost.Ledger.Bookings.booked
ledger-IsBooked tenant_id period = refl

check_and_debit-charges_example : IsBooked debited × (spent_of debited "team" "2026-03" ≡ pos 30)
unfolding lookup multi_agent_orchestratio.Base.Int.◌+ℤ◌
check_and_debit-charges_example =
    check_and_debit-charges sha256 month "team" (pos 30) "run" "k1" ledger team ledger-IsBooked refl
      refl refl team_left

check_and_debit-idempotent_example :
    check_and_debit sha256 month "team" (pos 40) "again" "k1" debited ≡ (ok (pos 20), debited)
check_and_debit-idempotent_example =
    check_and_debit-idempotent sha256 month "team" (pos 30) (pos 40) "run" "again" "k1" ledger
      team_left

abbrev cyclic : Db
cyclic = record ledger {
  accounts = ("team", team) ∷ ("org", record org { parent_id = some "team" }) ∷ [];
}

cycle_found :
    (check_and_debit sha256 month "team" (pos 30) "run" "k1" cyclic).0
    ≡ raise cyclic_hierarchy_error
unfolding check_and_debit lookup multi_agent_orchestratio.Base.Int.◌+ℤ◌
cycle_found = refl

check_and_debit-terminates_example :
    (check_and_debit sha256 month "team" (pos 30) "run" "k1" cyclic).0 ≢ raise recursion_error
check_and_debit-terminates_example =
    check_and_debit-terminates sha256 month "team" (pos 30) "run" "k1" cyclic

-- A correction of the estimate reaches the tenant and its parent.
abbrev corrected : Db
corrected = (adjust_actual "team" "run" (pos 10) "k2" debited).1

team_corrected : spent_of corrected "team" "2026-03" ≡ pos 10
unfolding adjust_actual check_and_debit lookup multi_agent_orchestratio.Base.Int.◌+ℤ◌
    multi_agent_orchestratio.Base.Int.◌-ℤ◌
team_corrected = refl

org_corrected : spent_of corrected "org" "2026-03" ≡ pos 10
unfolding adjust_actual check_and_debit lookup multi_agent_orchestratio.Base.Int.◌+ℤ◌
    multi_agent_orchestratio.Base.Int.◌-ℤ◌
org_corrected = refl
