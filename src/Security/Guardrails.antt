-- ===== src/Security/Guardrails.antt =====
-- `GuardrailChain` of src/orchestra/security/guardrails.py. A guardrail is the user's: its check of
-- a text may raise. Metadata and the log are left out.
pub mod Guarded
pub mod Passes
use multi_agent_orchestratio.Base.{
  Bool, true, false, Option, none, some, List, [], ◌∷◌, ◌++◌, String, Result, ok, raise, bind,
  guardrail_error, length, ℕ, if◌then◌else◌,
}

pub data OnFail : Type 0 where
  block fix log retry exception : OnFail

pub record GuardrailViolation : Type 0 where
  pub guardrail : String
  pub message : String

pub record GuardrailResult : Type 0 where
  pub passed : Bool
  pub output : Option String
  pub violation : Option String
  pub violations : List GuardrailViolation

pub record Guardrail : Type 0 where
  pub name : String
  pub on_fail : OnFail
  pub validate : String → Result GuardrailResult

-- `if result.output is not None: current_text = result.output`.
abbrev pub next_text : Option String → String → String
next_text none current_text = current_text
next_text (some output) current_text = output

abbrev pub stopped : String → GuardrailResult → List GuardrailViolation → GuardrailResult
stopped current_text result all_violations = record {
  passed = false;
  output = some current_text;
  violation = result.violation;
  violations = all_violations;
}

-- The action on a failure, and the rest of the chain on a text and the violations so far.
unfoldable pub on_failure :
    (String → List GuardrailViolation → Result GuardrailResult)
    → OnFail
    → GuardrailResult
    → String
    → List GuardrailViolation
    → Result GuardrailResult
on_failure rest block result current_text all = ok (stopped current_text result all)
on_failure rest exception result current_text all = raise guardrail_error
on_failure rest fix result current_text all = rest (next_text result.output current_text) all
on_failure rest retry result current_text all = ok (stopped current_text result all)
on_failure rest log result current_text all = rest current_text all

-- The loop of `run`, from `current_text` and `all_violations`.
unfoldable pub run_from : List Guardrail → String → List GuardrailViolation → Result GuardrailResult
unfolding on_failure
run_from [] current_text all_violations = ok (record {
  passed = true;
  output = some current_text;
  violation = none;
  violations = all_violations;
})
run_from (g ∷ guardrails) current_text all_violations = bind (g.validate current_text) λ result.
    elim result.passed [
      | true ↦ run_from guardrails (next_text result.output current_text) all_violations
      | false ↦
          on_failure (run_from guardrails) g.on_fail result current_text
            (all_violations ++ result.violations)
    ]

unfoldable pub run : List Guardrail → String → Result GuardrailResult
unfolding run_from
run guardrails text = run_from guardrails text []

unfoldable pub add : Guardrail → List Guardrail → List Guardrail
add guardrail guardrails = guardrails ++ guardrail ∷ []
