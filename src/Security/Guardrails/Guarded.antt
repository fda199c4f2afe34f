-- ===== src/Security/Guardrails/Guarded.antt =====
-- `GuardedAgent.run` of src/orchestra/security/guardrails.py, around `BaseAgent.run`.
pub mod Released
use multi_agent_orchestratio.Base.{
  ℕ, zero, suc, Bool, true, false, not, Option, none, some, List, [], ◌∷◌, map, String, ◌+++◌, ◌==◌,
  Result, ok, raise, if◌then◌else◌, select, Error,
}
use multi_agent_orchestratio.Base.Floats.{Floats}
use multi_agent_orchestratio.Cost.Aggregator.{CostAggregator}
use multi_agent_orchestratio.Core.Agent.{Agent, Context, Library}
use multi_agent_orchestratio.Core.Agent.Types.{Message, AgentResult}
use multi_agent_orchestratio.Core.Agent.Messages.{Input, text, messages}
use multi_agent_orchestratio.Core.Agent.Loop.{Outcome, returned, max_iterations, raised}
use multi_agent_orchestratio.Core.Agent.Loop
use multi_agent_orchestratio.Security.Guardrails.{
  OnFail, block, fix, log, retry, exception, GuardrailResult, Guardrail,
}
use multi_agent_orchestratio.Security.Guardrails

-- The agent's own fields, its chains and `max_retries`.
pub record GuardedAgent (Args S W : Type 0) : Type 0 where
  pub base : Agent Args S W
  pub input_guardrails : Option (List Guardrail)
  pub output_guardrails : Option (List Guardrail)
  pub max_retries : ℕ

-- `" ".join(texts)`.
unfoldable pub join_words : List String → String
join_words [] = ""
join_words (word ∷ []) = word
join_words (word ∷ next ∷ words) = word +++ (" " +++ join_words (next ∷ words))

unfoldable pub extract_input_text : {Args : Type 0} → Input Args → String
unfolding join_words
extract_input_text (text input) = input
extract_input_text (messages input) =
    join_words (select (λ content. not (content == "")) (map (λ message. message.content) input))

-- A text input is replaced, messages are not.
abbrev pub replace_input : {Args : Type 0} → Input Args → Option String → Input Args
replace_input (text input) (some output) = text output
replace_input (text input) none = text input
replace_input (messages input) output = messages input

-- A violation in a text.
abbrev pub shown : Option String → String
shown none = "None"
shown (some violation) = violation

abbrev pub is_log : OnFail → Bool
is_log log = true
is_log _ = false

abbrev pub is_retry : OnFail → Bool
is_retry retry = true
is_retry _ = false

-- `_get_chain_blocking_action`: the action of the first guardrail that does not only log.
unfoldable pub get_chain_blocking_action : List Guardrail → OnFail
get_chain_blocking_action [] = block
get_chain_blocking_action (g ∷ guardrails) =
    if is_log g.on_fail then get_chain_blocking_action guardrails else g.on_fail

module _ {F Args S : Type 0} where
  -- `AgentResult(agent_name=..., output=...)`.
  abbrev pub plain_result : String → String → AgentResult F Args S
  plain_result agent_name output = record {
    agent_name = agent_name;
    output = output;
    structured_output = none;
    messages = [];
    tool_calls_made = [];
    token_usage = none;
    partial = false;
  }

  -- The result with the chain's text, where that differs.
  unfoldable pub with_output : AgentResult F Args S → Option String → AgentResult F Args S
  with_output result none = result
  with_output result (some output) =
      if output == result.output then result else record result { output = output; partial = false }

module _ (𝓕 : Floats) {Args S W : Type 0} (library : Library Args) (guarded : GuardedAgent Args S W)
    (context : Context 𝓕.F Args W) where
  -- What outlives a run of the base agent.
  abbrev pub Outside : Type 0
  Outside = Option (CostAggregator 𝓕.F) × W

  -- `base.run(input, context)`.
  unfoldable pub base_run : Input Args → Outside → Outcome 𝓕.F Args S × Outside
  unfolding Loop.run
  base_run input (cost_aggregator, world) =
      let (outcome, s) =
        Loop.run 𝓕 library guarded.base context input false cost_aggregator world in
      (outcome, (s.cost_aggregator, s.world))

  abbrev pub output_blocked : Option String → Outcome 𝓕.F Args S
  output_blocked violation =
      returned
        (plain_result guarded.base.name ("Output blocked by guardrail: " +++ shown violation))

  -- The chain's verdict on a result; `again` is the next attempt, if one is left.
  unfoldable pub judge :
      List Guardrail
      → Option (Outside → Outcome 𝓕.F Args S × Outside)
      → AgentResult 𝓕.F Args S
      → Outside
      → Result GuardrailResult
      → Outcome 𝓕.F Args S × Outside
  unfolding with_output get_chain_blocking_action
  judge chain again result outside (raise e) = (raised e, outside)
  judge chain again result outside (ok output_result) =
      if output_result.passed
      then (returned (with_output result output_result.output), outside)
      else (elim again [
        | none ↦ (output_blocked output_result.violation, outside)
        | some retry_run ↦ elim (is_retry (get_chain_blocking_action chain)) [
          | true ↦ retry_run outside
          | false ↦ (output_blocked output_result.violation, outside)
        ]
      ])

  -- One attempt.
  unfoldable pub attempt :
      Input Args
      → Option (Outside → Outcome 𝓕.F Args S × Outside)
      → Outside
      → Outcome 𝓕.F Args S × Outside
  unfolding base_run judge Guardrails.run
  attempt input again outside =
      let (outcome, after) = base_run input outside in
      elim guarded.output_guardrails [
        | none ↦ (outcome, after)
        | some chain ↦ elim outcome [
          | raised e ↦ (raised e, after)
          | max_iterations result ↦ (max_iterations result, after)
          | returned result ↦ judge chain again result after (Guardrails.run chain result.output)
        ]
      ]

  -- The attempts that are left after the first of them.
  unfoldable pub attempts : Input Args → ℕ → Outside → Outcome 𝓕.F Args S × Outside
  unfolding attempt
  attempts input zero outside = attempt input none outside
  attempts input (suc left) outside = attempt input (some (attempts input left)) outside

  -- What the input chain says: a result without a run, or the input to run on.
  unfoldable pub on_input :
      Input Args → Result GuardrailResult → Outside → Outcome 𝓕.F Args S × Outside
  unfolding attempts
  on_input input (raise e) outside = (raised e, outside)
  on_input input (ok input_result) outside =
      if not input_result.passed
      then (
        returned (
            plain_result guarded.base.name
              ("Input blocked by guardrail: " +++ shown input_result.violation)),
        outside,
      )
      else attempts (replace_input input input_result.output) guarded.max_retries outside

  unfoldable pub run : Input Args → Outside → Outcome 𝓕.F Args S × Outside
  unfolding on_input extract_input_text Guardrails.run
  run input outside = elim guarded.input_guardrails [
    | none ↦ attempts input guarded.max_retries outside
    | some chain ↦ on_input input (Guardrails.run chain (extract_input_text input)) outside
  ]
