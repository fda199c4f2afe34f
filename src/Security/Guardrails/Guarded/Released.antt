-- ===== src/Security/Guardrails/Guarded/Released.antt =====
-- What a guarded agent lets out.
use multi_agent_orchestratio.Base.{
  ℕ, zero, suc, Option, none, some, List, [], String, ◌+++◌, ◌==◌, Error, ◌≡◌, ◌⊎◌, refl, sym, ap,
  ◌∙◌, Bool-cases, Option-cases, Result-cases, inl, inr, eq_iff, some_inj,
}
use multi_agent_orchestratio.Base.Floats.{Floats}
use multi_agent_orchestratio.Core.Agent.{Context, Library}
use multi_agent_orchestratio.Core.Agent.Types.{AgentResult}
use multi_agent_orchestratio.Core.Agent.Messages.{Input}
use multi_agent_orchestratio.Core.Agent.Loop.{Outcome, returned, max_iterations, raised}
use multi_agent_orchestratio.Security.Guardrails.{GuardrailResult, Guardrail, run_from}
use multi_agent_orchestratio.Security.Guardrails
use multi_agent_orchestratio.Security.Guardrails.Passes.{Passes, run_from-Passes}
use multi_agent_orchestratio.Security.Guardrails.Guarded.{
  GuardedAgent, Outside, shown, is_retry, get_chain_blocking_action, with_output, base_run, judge,
  attempt, attempts, on_input, replace_input, extract_input_text, run,
}

-- A text that says that the input or the output was blocked, or one that passed the chain.
pub data IsReleased (chain : List Guardrail) (output : String) : Type 0 where
  input_blocked :
      (violation : Option String)
      → output ≡ "Input blocked by guardrail: " +++ shown violation
      → IsReleased chain output
  output_blocked :
      (violation : Option String)
      → output ≡ "Output blocked by guardrail: " +++ shown violation
      → IsReleased chain output
  released : (text : String) → Passes chain text output → IsReleased chain output

Outcome-cases :
    {F Args S : Type 0} (outcome : Outcome F Args S)
    → ((result : AgentResult F Args S) × (outcome ≡ returned result))
      ⊎ (((result : AgentResult F Args S) × (outcome ≡ max_iterations result))
          ⊎ ((e : Error) × (outcome ≡ raised e)))
Outcome-cases (returned result) = inl (result, refl)
Outcome-cases (max_iterations result) = inr (inl (result, refl))
Outcome-cases (raised e) = inr (inr (e, refl))

returned_inj :
    {F Args S : Type 0} {a b : AgentResult F Args S}
    → ◌≡◌ {A = Outcome F Args S} (returned a) (returned b)
    → a ≡ b
returned_inj {a = a} h = ap (λ o. elim o [ returned r ↦ r | max_iterations r ↦ a | raised e ↦ a ]) h

with_output-output :
    {F Args S : Type 0} (result : AgentResult F Args S) (output : String)
    → (with_output result (some output)).output ≡ output
unfolding with_output
with_output-output result output = elim (Bool-cases (output == result.output)) [
  | inl same ↦ rw (with_output, same) (sym ((eq_iff output result.output).0 same))
  | inr other ↦ rw (with_output, other) refl
]

module _ (𝓕 : Floats) {Args S W : Type 0} (library : Library Args) (guarded : GuardedAgent Args S W)
    (context : Context 𝓕.F Args W) (chain : List Guardrail) where
  -- Each result that is returned is released.
  abbrev Releases : Outcome 𝓕.F Args S → Type 0
  Releases outcome =
      (result : AgentResult 𝓕.F Args S) → outcome ≡ returned result → IsReleased chain result.output

  abbrev State : Type 0
  State = Outside 𝓕 library guarded context

  judge-Releases :
      (again : Option (State → Outcome 𝓕.F Args S × State)) (result : AgentResult 𝓕.F Args S)
      (outside : State)
      → ((next : State → Outcome 𝓕.F Args S × State)
          → again ≡ some next
          → (o : State) → Releases (next o).0)
      → Releases
          (judge 𝓕 library guarded context chain again result outside
            (Guardrails.run chain result.output)).0
  unfolding judge Guardrails.run
  judge-Releases again result outside later final h =
      elim (Result-cases (run_from chain result.output [])) [
        | inr (e, failed) ↦ cc (rw failed at h)
        | inl (verdict, judged) ↦ elim (Bool-cases verdict.passed) [
          | inl passes ↦
              let (text, same, through) =
                run_from-Passes chain result.output [] {result = verdict} judged passes in
              let out = returned_inj (rw (judged, passes) at h) in
              let same_text : final.output ≡ text =
                sym (ap (λ r. r.output) out)
                ∙ (ap (λ o. (with_output result o).output) same ∙ with_output-output result text) in
              released result.output (rw same_text through)
          | inr fails ↦ elim (Option-cases again) [
            | inl last ↦
                output_blocked verdict.violation
                  (sym (ap (λ r. r.output) (returned_inj (rw (judged, fails, last) at h))))
            | inr (next, more) ↦ elim (Bool-cases (is_retry (get_chain_blocking_action chain))) [
              | inl retries ↦ later next more outside final (rw (judged, fails, more, retries) at h)
              | inr stops ↦
                  output_blocked verdict.violation
                    (sym (ap (λ r. r.output) (returned_inj (rw (judged, fails, more, stops) at h))))
            ]
          ]
        ]
      ]

  module _ (guards : guarded.output_guardrails ≡ some chain) where
    attempt-Releases :
        (input : Input Args) (again : Option (State → Outcome 𝓕.F Args S × State)) (outside : State)
        → ((next : State → Outcome 𝓕.F Args S × State)
            → again ≡ some next
            → (o : State) → Releases (next o).0)
        → Releases (attempt 𝓕 library guarded context input again outside).0
    unfolding attempt
    attempt-Releases input again outside later final h =
        let (outcome, after) = base_run 𝓕 library guarded context input outside in
        elim (Outcome-cases outcome) [
          | inl (result, ran) ↦
              judge-Releases again result after later final (rw (attempt, guards, ran) at h)
          | inr (inl (result, ran)) ↦ cc (rw (attempt, guards, ran) at h)
          | inr (inr (e, ran)) ↦ cc (rw (attempt, guards, ran) at h)
        ]

    attempts-Releases :
        (input : Input Args) (left : ℕ) (outside : State)
        → Releases (attempts 𝓕 library guarded context input left outside).0
    unfolding attempts
    attempts-Releases input zero outside = attempt-Releases input none outside (λ next no o. cc)
    attempts-Releases input (suc left) outside =
        attempt-Releases input (some (attempts 𝓕 library guarded context input left)) outside
          (λ next same o. rw (← some_inj same) (attempts-Releases input left o))

    -- With output guardrails, whatever a guarded agent returns says that the input or the output was
    -- blocked, or is a text that the chain of the output guardrails let through: each guardrail in
    -- turn passed it, fixed it, or only logs. This holds for every number of retries.
    pub run-IsReleased :
        (input : Input Args) (outside : State) (result : AgentResult 𝓕.F Args S)
        → (run 𝓕 library guarded context input outside).0 ≡ returned result
        → IsReleased chain result.output
    unfolding run on_input
    run-IsReleased input outside result h = elim (Option-cases guarded.input_guardrails) [
      | inl unchecked ↦
          attempts-Releases input guarded.max_retries outside result (rw unchecked at h)
      | inr (checks, given) ↦
          elim (Result-cases (Guardrails.run checks (extract_input_text input))) [
            | inr (e, failed) ↦ cc (rw (given, failed) at h)
            | inl (verdict, checked) ↦ elim (Bool-cases verdict.passed) [
              | inl passes ↦
                  attempts-Releases (replace_input input verdict.output) guarded.max_retries outside
                    result (rw (given, checked, passes) at h)
              | inr fails ↦
                  input_blocked verdict.violation
                    (sym (ap (λ r. r.output) (returned_inj (rw (given, checked, fails) at h))))
            ]
          ]
    ]
