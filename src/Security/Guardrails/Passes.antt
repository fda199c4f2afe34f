-- ===== src/Security/Guardrails/Passes.antt =====
-- What a text that passes a chain of guardrails went through.
use multi_agent_orchestratio.Base.{
  true, some, List, [], ◌∷◌, ◌++◌, String, ok, bind-eq-ok, ◌≡◌, ◌⊎◌, refl, sym, ap, ◌∙◌, Bool-cases,
  inl, inr, ok_inj,
}
use multi_agent_orchestratio.Security.Guardrails.{
  OnFail, block, fix, log, retry, exception, GuardrailViolation, GuardrailResult, Guardrail,
  next_text, on_failure, run_from,
}

-- The chain turns a text into another. A guardrail that lets the text pass may rewrite it; one that
-- does not only fixes it or logs.
pub data Passes : List Guardrail → String → String → Type 0 where
  end : {text : String} → Passes [] text text
  passed :
      {g : Guardrail} {guardrails : List Guardrail} {text released : String}
      (result : GuardrailResult)
      → g.validate text ≡ ok result
      → result.passed ≡ true
      → Passes guardrails (next_text result.output text) released
      → Passes (g ∷ guardrails) text released
  fixed :
      {g : Guardrail} {guardrails : List Guardrail} {text released : String}
      (result : GuardrailResult)
      → g.validate text ≡ ok result
      → g.on_fail ≡ fix
      → Passes guardrails (next_text result.output text) released
      → Passes (g ∷ guardrails) text released
  logged :
      {g : Guardrail} {guardrails : List Guardrail} {text released : String}
      (result : GuardrailResult)
      → g.validate text ≡ ok result
      → g.on_fail ≡ log
      → Passes guardrails text released
      → Passes (g ∷ guardrails) text released

OnFail-cases :
    (on_fail : OnFail)
    → (on_fail ≡ fix)
      ⊎ ((on_fail ≡ log) ⊎ ((on_fail ≡ exception) ⊎ ((on_fail ≡ block) ⊎ (on_fail ≡ retry))))
OnFail-cases fix = inl refl
OnFail-cases log = inr (inl refl)
OnFail-cases exception = inr (inr (inl refl))
OnFail-cases block = inr (inr (inr (inl refl)))
OnFail-cases retry = inr (inr (inr (inr refl)))

pub run_from-Passes :
    (guardrails : List Guardrail) (text : String) (all : List GuardrailViolation)
    {result : GuardrailResult}
    → run_from guardrails text all ≡ ok result
    → result.passed ≡ true
    → (released : String) × (result.output ≡ some released) × Passes guardrails text released
unfolding run_from on_failure
run_from-Passes [] text all h fine = (text, sym (ap (λ r. r.output) (ok_inj h)), end)
run_from-Passes (g ∷ guardrails) text all {result} h fine =
    let (checked, valid, rest) = bind-eq-ok (g.validate text) _ h in
    elim (Bool-cases checked.passed) [
      | inl ok_now ↦
          let (released, same, passes) =
            run_from-Passes guardrails (next_text checked.output text) all {result = result}
              (rw ok_now at rest) fine in
          (released, same, passed checked valid ok_now passes)
      | inr failed ↦
          let acted = rw failed at rest in
          elim (OnFail-cases g.on_fail) [
            | inl is_fix ↦
                let (released, same, passes) =
                  run_from-Passes guardrails (next_text checked.output text)
                    (all ++ checked.violations) {result = result} (rw is_fix at acted) fine in
                (released, same, fixed checked valid is_fix passes)
            | inr (inl is_log) ↦
                let (released, same, passes) =
                  run_from-Passes guardrails text (all ++ checked.violations) {result = result}
                    (rw is_log at acted) fine in
                (released, same, logged checked valid is_log passes)
            | inr (inr (inl is_exception)) ↦ cc (rw is_exception at acted)
            | inr (inr (inr (inl is_block))) ↦
                cc (ap (λ r. r.passed) (ok_inj (rw is_block at acted)) ∙ fine)
            | inr (inr (inr (inr is_retry))) ↦
                cc (ap (λ r. r.passed) (ok_inj (rw is_retry at acted)) ∙ fine)
          ]
    ]
