-- ===== src/Core/Agent/Events.antt =====
-- The events that an agent emits, and what answering a response keeps of them.
use multi_agent_orchestratio.Base.{
  ℕ, suc, ◌+◌, true, false, Option, some, List, [], ◌∷◌, ◌++◌, ◌≡◌, refl, inl, inr, arith,
  Bool-cases, Option-cases, Result-cases,
}
use multi_agent_orchestratio.Base.Floats.{Floats}
use multi_agent_orchestratio.Cost.Aggregator.{CostAggregator}
use multi_agent_orchestratio.Core.Agent.{Agent, Context, Library, AgentState, emit, observe}
use multi_agent_orchestratio.Core.Agent.Types.{
  ToolCall, ToolResult, AgentEvent, llm_called, tool_called, unauthorized_tool,
}
use multi_agent_orchestratio.Core.Agent.Tools.{
  find_tool, execute_tool, use_tool, replayed, authorized,
}
use multi_agent_orchestratio.Core.Agent.Loop.{record_call}
use multi_agent_orchestratio.Core.Agent.Steps.{KeepsAnswers, emit_live-keeps}

pub zero_right : (a : ℕ) → a + 0 ≡ a
zero_right a = omega arith

module _ {F Args : Type 0} where
  -- The calls of an LLM among the events.
  abbrev pub calls : List (AgentEvent F Args) → ℕ
  calls [] = 0
  calls (llm_called _ _ _ _ _ _ _ _ ∷ events) = suc (calls events)
  calls (tool_called _ _ _ _ _ ∷ events) = calls events
  calls (unauthorized_tool _ _ ∷ events) = calls events

  -- The tokens of those calls.
  abbrev pub tokens : List (AgentEvent F Args) → ℕ
  tokens [] = 0
  tokens (llm_called _ _ _ _ _ input_tokens output_tokens _ ∷ events) =
      input_tokens + output_tokens + tokens events
  tokens (tool_called _ _ _ _ _ ∷ events) = tokens events
  tokens (unauthorized_tool _ _ ∷ events) = tokens events

  pub calls-append : (xs ys : List (AgentEvent F Args)) → calls (xs ++ ys) ≡ calls xs + calls ys
  calls-append [] ys = omega arith
  calls-append (llm_called _ _ _ _ _ _ _ _ ∷ xs) ys = let ih = calls-append xs ys in omega arith
  calls-append (tool_called _ _ _ _ _ ∷ xs) ys = calls-append xs ys
  calls-append (unauthorized_tool _ _ ∷ xs) ys = calls-append xs ys

  pub tokens-append : (xs ys : List (AgentEvent F Args)) → tokens (xs ++ ys) ≡ tokens xs + tokens ys
  tokens-append [] ys = omega arith
  tokens-append (llm_called _ _ _ _ _ i o _ ∷ xs) ys = let ih = tokens-append xs ys in omega arith
  tokens-append (tool_called _ _ _ _ _ ∷ xs) ys = tokens-append xs ys
  tokens-append (unauthorized_tool _ _ ∷ xs) ys = tokens-append xs ys

module _ (𝓕 : Floats) {Args S W : Type 0} (library : Library Args) (agent : Agent Args S W)
    (context : Context 𝓕.F Args W)
    (Q : List (AgentEvent 𝓕.F Args) → Option (CostAggregator 𝓕.F) → Type 0) where
  -- The events other than the calls of an LLM keep Q.
  abbrev pub IsQuiet : Type 0
  IsQuiet =
      (event : AgentEvent 𝓕.F Args) (events : List (AgentEvent 𝓕.F Args))
      (cost_aggregator : Option (CostAggregator 𝓕.F))
      → calls (event ∷ []) ≡ 0
      → Q events cost_aggregator
      → Q (events ++ event ∷ []) (observe 𝓕 event cost_aggregator)

  abbrev pub Observed : AgentState 𝓕.F Args W → Type 0
  Observed s = Q s.emitted s.cost_aggregator

  module _ (quiet : IsQuiet) where
    emit-Observed :
        (event : AgentEvent 𝓕.F Args) (s : AgentState 𝓕.F Args W)
        → calls (event ∷ []) ≡ 0
        → Observed s
        → Observed (emit 𝓕 context event s)
    unfolding emit
    emit-Observed event s none_called q = elim (Bool-cases context.has_event_bus) [
      | inl bus ↦ rw bus (quiet event s.emitted s.cost_aggregator none_called q)
      | inr no_bus ↦ rw no_bus q
    ]

    use_tool-Observed :
        (tool_call : ToolCall Args) (s : AgentState 𝓕.F Args W)
        → Observed s
        → Observed (use_tool 𝓕 library agent context tool_call s).1
    unfolding use_tool
    use_tool-Observed tool_call s q = elim (Option-cases (find_tool tool_call.name agent.tools)) [
      | inl unknown ↦ rw (use_tool, unknown) q
      | inr (tool, found) ↦ rw (use_tool, found) q
    ]

    execute_tool-Observed :
        (tool_call : ToolCall Args) (s : AgentState 𝓕.F Args W)
        → Observed s
        → Observed (execute_tool 𝓕 library agent context tool_call s).1
    unfolding execute_tool
    execute_tool-Observed tool_call s q =
        elim (Option-cases (replayed 𝓕 library agent context tool_call)) [
          | inr (result, found) ↦ rw (execute_tool, found) q
          | inl live ↦ elim (Result-cases (authorized 𝓕 library agent context tool_call.name)) [
            | inr (e, failed) ↦ rw (execute_tool, live, failed) q
            | inl (true, allowed) ↦
                rw (execute_tool, live, allowed) (use_tool-Observed tool_call s q)
            | inl (false, denied) ↦
                rw (execute_tool, live, denied)
                  (emit-Observed (unauthorized_tool agent.name tool_call.name) s refl q)
          ]
        ]

    record_call-Observed :
        (tool_call : ToolCall Args) (result : ToolResult) (s : AgentState 𝓕.F Args W)
        → Observed s
        → Observed (record_call 𝓕 library agent context tool_call result s)
    unfolding record_call
    record_call-Observed tool_call result s q =
        emit_live-keeps 𝓕 library agent context Observed _ _ q (λ _ _.
          quiet
            (tool_called agent.name tool_call.name tool_call.arguments (some result.content)
              result.error)
            s.emitted s.cost_aggregator refl q)

    pub answers-Observed : KeepsAnswers 𝓕 library agent context Observed
    answers-Observed = record {
      asked = λ message s q. q;
      executed = execute_tool-Observed;
      recorded = record_call-Observed;
    }
