-- ===== src/Tprm/Policy.antt =====
-- src/orchestra_tprm/agents/policy.py, and `should_run_remediation` of remediation.py, which reads
-- what the policy agent writes. The findings are `Finding` objects; the rows that are written to
-- BigQuery and the headline text are left out.
pub mod Worse
pub mod Skipped
use multi_agent_orchestratio.Base.{
  ℕ, ◌+◌, Bool, true, false, Option, none, some, List, [], ◌∷◌, ◌++◌, String, not, ◌&&◌, ◌||◌, ◌==◌,
  if◌then◌else◌, ltb, any, has_text, truthy, is_some, length,
}
use multi_agent_orchestratio.Base.Dict.{Dict, get_or}
use multi_agent_orchestratio.Base.Int.{ℤ, pos, ◌+ℤ◌, ltb_ℤ}
use multi_agent_orchestratio.Base.Sorting.{sum_by}
use multi_agent_orchestratio.Tprm.Schemas.{
  Severity, low, medium, high, critical, is_critical, is_medium_plus, IcDecision, deal_stopper,
  price_adjustment, spa_protection, post_close_monitoring, Finding, MaScope, Recommendation,
  proceed, reprice, walk, Mitigation, price_chip, indemnity, condition_precedent, post_close,
  Probability, low_probability, medium_probability, high_probability, IcRiskItem, weight_of,
}

-- The YAML file of the policy; the entries under `verdict` with their defaults.
pub record PolicyPack : Type 0 where
  pub weights : Dict ℕ
  pub reject_if_any_critical : Bool
  pub reject_above : ℕ
  pub conditional_above : ℕ

pub data PolicyVerdict : Type 0 where
  approve conditional_approve reject : PolicyVerdict

unfoldable pub ic_to_mitigation : Option IcDecision → Mitigation
ic_to_mitigation none = post_close
ic_to_mitigation (some deal_stopper) = condition_precedent
ic_to_mitigation (some price_adjustment) = price_chip
ic_to_mitigation (some spa_protection) = indemnity
ic_to_mitigation (some post_close_monitoring) = post_close

unfoldable pub severity_to_probability : Severity → Probability
severity_to_probability low = low_probability
severity_to_probability medium = medium_probability
severity_to_probability high = high_probability
severity_to_probability critical = high_probability

-- `_verdict`.
unfoldable pub verdict : PolicyPack → List Finding → ℕ → PolicyVerdict
verdict pack findings score =
    if pack.reject_if_any_critical && any (λ f. is_critical f.severity) findings
    then reject
    else if ltb pack.reject_above score
    then reject
    else if ltb pack.conditional_above score
    then conditional_approve
    else approve

abbrev pub is_deal_stopper : Option IcDecision → Bool
is_deal_stopper (some deal_stopper) = true
is_deal_stopper _ = false

abbrev pub upper_exposure : Finding → ℤ
upper_exposure f = elim f.exposure_usd_range [ none ↦ pos 0 | some range ↦ range.1 ]

unfoldable pub total_upper : List Finding → ℤ
total_upper [] = pos 0
total_upper (f ∷ findings) = upper_exposure f +ℤ total_upper findings

-- `if ma_scope.enterprise_value_usd`: a value of 0 counts as none.
abbrev pub is_zero : ℤ → Bool
is_zero value = not (ltb_ℤ value (pos 0)) && not (ltb_ℤ (pos 0) value)

exceeds : Option ℤ → ℤ → Bool
exceeds none total = false
exceeds (some limit) total = ltb_ℤ limit total

-- The risk register of `_build_ic_memo`: an item for each finding with a decision.
unfoldable pub risk_register : List Finding → List IcRiskItem
unfolding ic_to_mitigation severity_to_probability
risk_register [] = []
risk_register (f ∷ findings) =
    let rest = risk_register findings in
    if is_some f.ic_decision
    then (record {
      finding_id = f.id;
      workstream = elim f.workstream [ none ↦ "unknown" | some name ↦ name ];
      exposure_usd_range = f.exposure_usd_range;
      mitigation = ic_to_mitigation f.ic_decision;
      probability = severity_to_probability f.severity;
    }
        ∷ rest)
    else rest

-- `policy_verdict`: the word of the vendor's verdict or of the recommendation.
pub data Decided : Type 0 where
  vendor_verdict : PolicyVerdict → Decided
  deal_verdict : Recommendation → Decided

-- The part of the state that `__call__` writes.
pub record PolicyUpdate : Type 0 where
  pub risk_score : ℕ
  pub policy_verdict : Decided
  pub memo_recommendation : Recommendation
  pub memo_register : List IcRiskItem

-- What the agent uses of Python: `s.lower()` and `int(x * 0.02)`.
pub record PolicyLibrary : Type 0 where
  pub lower : String → String
  pub two_percent : ℤ → ℤ

module _ (library : PolicyLibrary) where
  -- A deal breaker of the scope that occurs in the summary.
  unfoldable pub breaks_deal : List String → Finding → Bool
  breaks_deal breakers f =
      any
        (λ breaker.
          not (breaker == "") && has_text (library.lower breaker) (library.lower f.summary))
        breakers

  -- `bool(deal_stoppers)`: a finding is tagged, or matches a deal breaker.
  abbrev pub stops_deal : MaScope → Finding → Bool
  stops_deal scope f = is_deal_stopper f.ic_decision || breaks_deal scope.deal_breakers f

  unfoldable pub threshold_of_value : Option ℤ → Option ℤ
  threshold_of_value none = none
  threshold_of_value (some value) = if is_zero value then none else some (library.two_percent value)

  unfoldable pub threshold : MaScope → Option ℤ
  unfolding threshold_of_value
  threshold scope = elim scope.materiality_threshold_usd [
    | some given ↦ some given
    | none ↦ threshold_of_value scope.enterprise_value_usd
  ]

  -- The recommendation of `_build_ic_memo`.
  unfoldable pub recommendation : MaScope → List Finding → Recommendation
  unfolding breaks_deal total_upper threshold exceeds
  recommendation scope findings =
      if any (stops_deal scope) findings
      then walk
      else if exceeds (threshold scope) (total_upper findings)
      then reprice
      else proceed

  -- `__call__`. Without a scope the memo is a placeholder that recommends to proceed.
  unfoldable pub evaluate : PolicyPack → Option MaScope → List Finding → PolicyUpdate
  unfolding verdict recommendation risk_register
  evaluate pack none findings =
      let score = sum_by (weight_of pack.weights) findings in
      record {
        risk_score = score;
        policy_verdict = vendor_verdict (verdict pack findings score);
        memo_recommendation = proceed;
        memo_register = [];
      }
  evaluate pack (some scope) findings = record {
    risk_score = sum_by (weight_of pack.weights) findings;
    policy_verdict = deal_verdict (recommendation scope findings);
    memo_recommendation = recommendation scope findings;
    memo_register = risk_register findings;
  }

-- `verdict in approve_set`.
abbrev pub is_approving : Decided → Bool
is_approving (vendor_verdict approve) = true
is_approving (vendor_verdict _) = false
is_approving (deal_verdict proceed) = true
is_approving (deal_verdict _) = false

abbrev pub is_proceed : Recommendation → Bool
is_proceed proceed = true
is_proceed _ = false

-- `should_run_remediation`, on the state with the findings and the policy's update.
unfoldable pub should_run_remediation : PolicyUpdate → List Finding → Bool
should_run_remediation update findings =
    let has_medium_plus = any (λ f. is_medium_plus f.severity) findings in
    let is_approve = is_approving update.policy_verdict || is_proceed update.memo_recommendation in
    not (is_approve && not has_medium_plus)
