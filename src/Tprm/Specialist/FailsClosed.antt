-- ===== src/Tprm/Specialist/FailsClosed.antt =====
-- What a failed specialist means for the verdict: base.py and policy.py of src/orchestra_tprm.
use multi_agent_orchestratio.Base.{
  Bool, true, false, List, [], ◌∷◌, String, ◌≡◌, refl, arith, any, Bool-cases, inl, inr, none,
}
use multi_agent_orchestratio.Tprm.Schemas.{is_critical}
use multi_agent_orchestratio.Tprm.Policy.{
  PolicyPack, PolicyLibrary, reject, verdict, evaluate, vendor_verdict,
}
use multi_agent_orchestratio.Tprm.Policy.Worse.{any-append}
use multi_agent_orchestratio.Tprm.Specialist.{
  Emission, emitted, filtered, crashed, Ran, run, safe_specialist, all_findings,
}

abbrev pub has_crashed : Emission → Bool
has_crashed (crashed text) = true
has_crashed _ = false

crashed-critical :
    (name id : String) (outcome : Emission)
    → has_crashed outcome ≡ true
    → any (λ f. is_critical f.severity) (safe_specialist name id (run name id outcome)) ≡ true
unfolding safe_specialist run
crashed-critical name id (emitted findings) crash = cc
crashed-critical name id filtered crash = cc
crashed-critical name id (crashed text) crash = refl

all_findings-critical :
    (specialists : List Ran)
    → any (λ ran. has_crashed ran.outcome) specialists ≡ true
    → any (λ f. is_critical f.severity) (all_findings specialists) ≡ true
unfolding all_findings
all_findings-critical [] crash = cc
all_findings-critical (ran ∷ others) crash =
    let first = safe_specialist ran.name ran.id (run ran.name ran.id ran.outcome) in
    let split = any-append (λ f. is_critical f.severity) first (all_findings others) in
    elim (Bool-cases (has_crashed ran.outcome)) [
      | inl here ↦ let bad = crashed-critical ran.name ran.id ran.outcome here in ground arith
      | inr later ↦ let rest = all_findings-critical others (ground arith) in ground arith
    ]

-- A vendor review in which a specialist raises is rejected, whatever else was found, if the policy
-- rejects critical findings.
pub evaluate-crashed :
    (library : PolicyLibrary) (pack : PolicyPack) (specialists : List Ran)
    → pack.reject_if_any_critical ≡ true
    → any (λ ran. has_crashed ran.outcome) specialists ≡ true
    → (evaluate library pack none (all_findings specialists)).policy_verdict ≡ vendor_verdict reject
unfolding evaluate verdict
evaluate-crashed library pack specialists strict crash =
    let bad = all_findings-critical specialists crash in ground arith
