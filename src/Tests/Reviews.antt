-- ===== src/Tests/Reviews.antt =====
-- A vendor review and a deal on small inputs.
use multi_agent_orchestratio.Base.{
  ℕ, ◌≤◌, true, false, none, some, List, [], ◌∷◌, String, ok, ◌≡◌, refl, arith, raise,
  other_exception,
}
use multi_agent_orchestratio.Base.Dict.{lookup, insert, Dict}
use multi_agent_orchestratio.Base.Int.{pos}
use multi_agent_orchestratio.Core.State.{Schema}
use multi_agent_orchestratio.Tests.Engine.{step}
use multi_agent_orchestratio.Tprm.Schemas.{low, high, critical, Finding}
use multi_agent_orchestratio.Tprm.RiskScore.{RiskScoreAgent, RiskAssessment, RiskVerdict, assess}
use multi_agent_orchestratio.Tprm.RiskScore.Between.{overall-Between}
use multi_agent_orchestratio.Tprm.Policy.{
  PolicyPack, PolicyLibrary, evaluate, vendor_verdict, reject, should_run_remediation,
}
use multi_agent_orchestratio.Tprm.Policy.Worse.{decided_badness, evaluate_mono}
use multi_agent_orchestratio.Tprm.Policy.Skipped.{should_run_remediation-evaluate}
use multi_agent_orchestratio.Tprm.Specialist.{Ran, emitted, crashed, all_findings, plain_finding}
use multi_agent_orchestratio.Tprm.Specialist.FailsClosed.{evaluate-crashed}
use multi_agent_orchestratio.Tprm.DocRouter.{Document, Item, iterable, not_iterable, text, route}
use multi_agent_orchestratio.Tprm.Graph.{ModeConfig, doc, build_graph, build_specialists}
use multi_agent_orchestratio.Tprm.Graph.Pipeline.{pipeline, way_of, build_graph-pipeline}

abbrev weights : Dict ℕ
weights = ("low", 1) ∷ ("medium", 3) ∷ ("high", 7) ∷ ("critical", 15) ∷ []

abbrev risk_agent : RiskScoreAgent
risk_agent = record { weights = weights; green_max = 30; amber_max = 69 }

abbrev late_filing : Finding
late_filing = plain_finding "legal" "filing" low "late filing" "f1"

abbrev open_port : Finding
open_port = plain_finding "security" "port" high "open port" "f2"

abbrev breach : Finding
breach = plain_finding "security" "breach" critical "breach" "f3"

abbrev findings : List Finding
findings = late_filing ∷ open_port ∷ breach ∷ []

abbrev narrate : List Finding → Dict ℕ → String × List String
narrate drivers dimensions = ("risky", "the breach" ∷ [])

abbrev assessment : RiskAssessment
assessment = record {
  overall = 51;
  verdict = RiskVerdict.amber;
  dimensions = ("legal", 7) ∷ ("security", 73) ∷ [];
  top_risk_drivers =
      record {
        dimension = "security";
        finding_id = "f3";
        severity = critical;
        one_liner = "the breach";
      }
      ∷ record {
        dimension = "security";
        finding_id = "f2";
        severity = high;
        one_liner = "open port";
      }
      ∷ record { dimension = "legal"; finding_id = "f1"; severity = low; one_liner = "late filing" }
      ∷ [];
  explanation = "risky";
}

assessed : assess risk_agent (λ f. f.agent) (λ s. s) narrate findings ≡ ok assessment
unfolding assess lookup insert
assessed = refl

overall-Between_example : (7 ≤ 51) × (51 ≤ 73)
overall-Between_example =
    overall-Between risk_agent (λ f. f.agent) (λ s. s) narrate late_filing (open_port ∷ breach ∷ [])
      7 73 assessed (omega arith) (omega arith)

abbrev pack : PolicyPack
pack = record {
  weights = weights;
  reject_if_any_critical = true;
  reject_above = 30;
  conditional_above = 10;
}

abbrev library : PolicyLibrary
library = record { lower = λ s. s; two_percent = λ value. pos 0 }

evaluate_mono_example :
    decided_badness (evaluate library pack none (late_filing ∷ [])).policy_verdict
    ≤ decided_badness (evaluate library pack none (late_filing ∷ breach ∷ [])).policy_verdict
evaluate_mono_example =
    evaluate_mono library pack none (late_filing ∷ []) (breach ∷ []) (omega arith)

-- A vendor with many low findings is rejected, and the remediation is skipped.
abbrev strict_pack : PolicyPack
strict_pack = record {
  weights = weights;
  reject_if_any_critical = true;
  reject_above = 1;
  conditional_above = 0;
}

rejected :
    (evaluate library strict_pack none (late_filing ∷ late_filing ∷ [])).policy_verdict
    ≡ vendor_verdict reject
unfolding evaluate lookup
rejected = refl

skipped :
    should_run_remediation
      (evaluate library strict_pack none (late_filing ∷ late_filing ∷ []))
      (late_filing ∷ late_filing ∷ [])
    ≡ false
unfolding evaluate should_run_remediation lookup
skipped = refl

should_run_remediation-evaluate_example :
    should_run_remediation (evaluate library pack none findings) findings ≡ true
should_run_remediation-evaluate_example = should_run_remediation-evaluate library pack none findings

abbrev ran : List Ran
ran =
    record { name = "LegalAgent"; id = "f1"; outcome = emitted (late_filing ∷ []) }
    ∷ record { name = "CodeAgent"; id = "f4"; outcome = crashed "KeyError: 'repo'" }
    ∷ []

evaluate-crashed_example :
    (evaluate library pack none (all_findings ran)).policy_verdict ≡ vendor_verdict reject
evaluate-crashed_example = evaluate-crashed library pack ran refl refl

abbrev msa : Document
msa = record { path = "a/msa.pdf"; file_name = "msa.pdf"; kind = "contract" }

abbrev to_legal : List Item
to_legal =
    record { doc = "msa.pdf"; specialists = iterable (text "LegalAgent" ∷ text "Nobody" ∷ []) } ∷ []

routed :
    route (msa ∷ []) ("LegalAgent" ∷ "CodeAgent" ∷ []) (some to_legal)
    ≡ ok (("LegalAgent", "msa.pdf" ∷ []) ∷ ("CodeAgent", "msa.pdf" ∷ []) ∷ [])
unfolding route lookup insert
routed = refl

-- A number in place of the list of names is a `TypeError`.
unrouted :
    route
      (msa ∷ [])
      ("LegalAgent" ∷ [])
      (some (record { doc = "msa.pdf"; specialists = not_iterable } ∷ []))
    ≡ raise other_exception
unfolding route lookup
unrouted = refl

abbrev deal : ModeConfig
deal = record {
  specialists = record {
    legal = some "m";
    financial = some "m";
    security = none;
    code = none;
    external = none;
    saas_metrics = none;
    esg = some "m";
  };
  output_kind = doc;
}

abbrev schema : Schema ℕ
schema = record { reducers = []; model_validate = λ state. some state }

build_graph-pipeline_example :
    way_of (build_graph step schema 50 deal)
    ≡ some (pipeline ("legal" ∷ "financial" ∷ "esg" ∷ []) doc)
unfolding build_specialists
build_graph-pipeline_example = build_graph-pipeline step schema 50 deal
