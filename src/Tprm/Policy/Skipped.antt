-- ===== src/Tprm/Policy/Skipped.antt =====
-- When src/orchestra_tprm skips the remediation: the composition of policy.py and remediation.py.
use multi_agent_orchestratio.Base.{false, not, Option, none, some, List, ◌≡◌, arith, any, ◌||◌}
use multi_agent_orchestratio.Tprm.Schemas.{Finding, MaScope, is_medium_plus}
use multi_agent_orchestratio.Tprm.Policy.{
  PolicyPack, PolicyLibrary, evaluate, recommendation, is_proceed, should_run_remediation,
}

-- The remediation that follows the policy runs in a vendor review exactly if a finding is above
-- low, whatever the verdict, a rejection included; in a deal it also runs where the recommendation
-- is not to proceed.
pub should_run_remediation-evaluate :
    (library : PolicyLibrary) (pack : PolicyPack) (scope : Option MaScope) (findings : List Finding)
    → should_run_remediation (evaluate library pack scope findings) findings
      ≡ any (λ f. is_medium_plus f.severity) findings || (elim scope [
        | none ↦ false
        | some deal ↦ not (is_proceed (recommendation library deal findings))
      ])
unfolding should_run_remediation evaluate
should_run_remediation-evaluate library pack none findings = ground arith
should_run_remediation-evaluate library pack (some deal) findings = ground arith
