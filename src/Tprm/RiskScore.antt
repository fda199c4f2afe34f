-- ===== src/Tprm/RiskScore.antt =====
-- src/orchestra_tprm/agents/risk_score.py: the score and its parts. The quotient of the code is a
-- float, whose rounding is that of the exact quotient as long as 100 times the weights is below
-- 2 ^ 52. The weights and the thresholds of the YAML file are not negative. The texts that the LLM
-- writes are an argument.
pub mod Rounding
pub mod Between
pub mod Drivers
use multi_agent_orchestratio.Base.{
  ℕ, zero, suc, ◌+◌, ◌-◌, ◌*◌, Bool, true, false, Option, none, some, List, [], ◌∷◌, ◌++◌, String,
  Result, ok, raise, bind, ◌==◌, if◌then◌else◌, ltb, leb, eqb, length, take, map, other_exception,
}
use multi_agent_orchestratio.Base.Dict.{Dict, get_or, insert, lookup}
use multi_agent_orchestratio.Base.Sorting.{sort_descending, sum_by}
use multi_agent_orchestratio.Tprm.Schemas.{Finding, Severity, weight_of}
use Prim.Native.Nat.{◌/◌, ◌%◌, max, min}

pub data RiskVerdict : Type 0 where
  green amber red : RiskVerdict

pub record RiskDriver : Type 0 where
  pub dimension : String
  pub finding_id : String
  pub severity : Severity
  pub one_liner : String

pub record RiskAssessment : Type 0 where
  pub overall : ℕ
  pub verdict : RiskVerdict
  pub dimensions : Dict ℕ
  pub top_risk_drivers : List RiskDriver
  pub explanation : String

pub record RiskScoreAgent : Type 0 where
  pub weights : Dict ℕ
  pub green_max : ℕ
  pub amber_max : ℕ

-- `round(a / b)`: a half goes to the even neighbour.
unfoldable pub round_quotient : ℕ → ℕ → ℕ
round_quotient a b =
    let q = a / b in
    let twice = 2 * (a % b) in
    if ltb twice b then q else if ltb b twice then q + 1 else if eqb (q % 2) 0 then q else q + 1

module _ (agent : RiskScoreAgent) where
  abbrev pub critical_weight : ℕ
  critical_weight = get_or "critical" 15 agent.weights

  abbrev pub weighted : List Finding → ℕ
  weighted = sum_by (weight_of agent.weights)

  -- `_score`; a critical weight of 0 is a division by zero.
  unfoldable pub score : List Finding → Result ℕ
  unfolding round_quotient
  score findings =
      let max_possible = max (length findings) 1 * critical_weight in
      if eqb max_possible 0
      then raise other_exception
      else ok (min 100 (round_quotient (100 * weighted findings) max_possible))

  unfoldable pub verdict : ℕ → RiskVerdict
  verdict overall =
      if leb overall agent.green_max
      then green
      else if leb overall agent.amber_max
      then amber
      else red

  -- `by_agent.setdefault(key, []).append(f)` for each finding.
  unfoldable pub by_dimension :
      (Finding → String) → List Finding → Dict (List Finding) → Dict (List Finding)
  by_dimension dimension [] groups = groups
  by_dimension dimension (f ∷ findings) groups =
      by_dimension dimension findings
        (insert (dimension f) (get_or (dimension f) [] groups ++ f ∷ []) groups)

  unfoldable pub score_groups : Dict (List Finding) → Result (Dict ℕ)
  unfolding score
  score_groups [] = ok []
  score_groups ((key, items) ∷ groups) =
      bind (score items) λ value. bind (score_groups groups) λ scores. ok ((key, value) ∷ scores)

  -- `_dimensions`; `dimension` is the agent's name without "Agent", in lower case.
  unfoldable pub dimensions : (Finding → String) → List Finding → Result (Dict ℕ)
  unfolding by_dimension score_groups
  dimensions dimension findings = score_groups (by_dimension dimension findings [])

  unfoldable pub top_drivers : ℕ → List Finding → List Finding
  unfolding sort_descending
  top_drivers n findings = take n (sort_descending (weight_of agent.weights) findings)

  -- A driver's line: the LLM's, or the finding's summary where that one is missing or empty.
  unfoldable pub describe :
      (Finding → String) → (String → String) → List Finding → List String → List RiskDriver
  describe dimension first_120 [] one_liners = []
  describe dimension first_120 (f ∷ drivers) [] =
      record {
        dimension = dimension f;
        finding_id = f.id;
        severity = f.severity;
        one_liner = first_120 f.summary;
      }
      ∷ describe dimension first_120 drivers []
  describe dimension first_120 (f ∷ drivers) (line ∷ one_liners) =
      record {
        dimension = dimension f;
        finding_id = f.id;
        severity = f.severity;
        one_liner = if line == "" then first_120 f.summary else line;
      }
      ∷ describe dimension first_120 drivers one_liners

  -- `__call__`, where `_narrate` has given the explanation and the lines of the drivers.
  unfoldable pub assess :
      (Finding → String)
      → (String → String)
      → (List Finding → Dict ℕ → String × List String)
      → List Finding
      → Result RiskAssessment
  unfolding score verdict dimensions top_drivers describe
  assess dimension first_120 narrate [] = ok (record {
    overall = 0;
    verdict = green;
    dimensions = [];
    top_risk_drivers = [];
    explanation = "No findings emitted by specialists.";
  })
  assess dimension first_120 narrate (f ∷ findings) = bind (score (f ∷ findings)) λ overall.
      bind (dimensions dimension (f ∷ findings)) λ scores.
        let drivers = top_drivers 3 (f ∷ findings) in
        let (explanation, one_liners) = narrate drivers scores in
        ok (record {
          overall = overall;
          verdict = verdict overall;
          dimensions = scores;
          top_risk_drivers = describe dimension first_120 drivers one_liners;
          explanation = explanation;
        })
