-- ===== src/Core/Agent/Authority.antt =====
-- What an agent can do to the outside world.
use multi_agent_orchestratio.Base.{
  Bool, true, false, Option, some, List, String, ◌≡◌, inl, inr, ok, Bool-cases, Option-cases,
  Result-cases,
}
use multi_agent_orchestratio.Base.Floats.{Floats}
use multi_agent_orchestratio.Cost.Aggregator.{CostAggregator}
use multi_agent_orchestratio.Core.Agent.{Tool, Agent, Context, Complete, Library, AgentState, emit}
use multi_agent_orchestratio.Core.Agent.Types.{
  Message, ToolCall, ToolResult, LlmResponse, AgentEvent,
}
use multi_agent_orchestratio.Core.Agent.Tools.{
  find_tool, execute_tool, use_tool, replayed, authorized,
}
use multi_agent_orchestratio.Core.Agent.Messages.{Input}
use multi_agent_orchestratio.Core.Agent.Loop.{count_call, record_call, initial_state, run}
use multi_agent_orchestratio.Core.Agent.Steps.{KeepsAnswers, emit_live-keeps, iterate-keeps}

module _ (𝓕 : Floats) {Args S W : Type 0} (library : Library Args) (agent : Agent Args S W)
    (context : Context 𝓕.F Args W) (P : W → Type 0) where
  -- The tools that the access control list authorises keep P.
  abbrev pub ToolsKeep : Type 0
  ToolsKeep =
      (name : String) (tool : Tool Args W)
      → find_tool name agent.tools ≡ some tool
      → authorized 𝓕 library agent context name ≡ ok true
      → (arguments : Args) (world : W) → P world
      → P (tool.execute arguments world).1

  -- The provider keeps P.
  abbrev pub ProviderKeeps : Type 0
  ProviderKeeps =
      (complete : Complete 𝓕.F Args W)
      → context.provider ≡ some complete
      → (messages : List (Message Args)) (world : W) → P world
      → P (complete messages world).1

  emit-world :
      (event : AgentEvent 𝓕.F Args) (s : AgentState 𝓕.F Args W)
      → P s.world
      → P (emit 𝓕 context event s).world
  unfolding emit
  emit-world event s p = elim (Bool-cases context.has_event_bus) [
    | inl bus ↦ rw bus p
    | inr no_bus ↦ rw no_bus p
  ]

  use_tool-world :
      (tool_call : ToolCall Args) (s : AgentState 𝓕.F Args W)
      → ToolsKeep
      → authorized 𝓕 library agent context tool_call.name ≡ ok true
      → P s.world
      → P (use_tool 𝓕 library agent context tool_call s).1.world
  unfolding use_tool
  use_tool-world tool_call s keep allowed p =
      elim (Option-cases (find_tool tool_call.name agent.tools)) [
        | inl unknown ↦ rw (use_tool, unknown) p
        | inr (tool, found) ↦
            rw (use_tool, found)
              (keep tool_call.name tool found allowed tool_call.arguments s.world p)
      ]

  execute_tool-world :
      (tool_call : ToolCall Args) (s : AgentState 𝓕.F Args W)
      → ToolsKeep
      → P s.world
      → P (execute_tool 𝓕 library agent context tool_call s).1.world
  unfolding execute_tool
  execute_tool-world tool_call s keep p =
      elim (Option-cases (replayed 𝓕 library agent context tool_call)) [
        | inr (result, found) ↦ rw (execute_tool, found) p
        | inl live ↦ elim (Result-cases (authorized 𝓕 library agent context tool_call.name)) [
          | inr (e, failed) ↦ rw (execute_tool, live, failed) p
          | inl (true, allowed) ↦
              rw (execute_tool, live, allowed) (use_tool-world tool_call s keep allowed p)
          | inl (false, denied) ↦ rw (execute_tool, live, denied) (emit-world _ s p)
        ]
      ]

  record_call-world :
      (tool_call : ToolCall Args) (result : ToolResult) (s : AgentState 𝓕.F Args W)
      → P s.world
      → P (record_call 𝓕 library agent context tool_call result s).world
  unfolding record_call
  record_call-world tool_call result s p =
      emit_live-keeps 𝓕 library agent context (λ s. P s.world) _ _ p (λ _ _. p)

  pub count_call-world :
      (response : LlmResponse 𝓕.F Args) (s : AgentState 𝓕.F Args W)
      → P s.world
      → P (count_call 𝓕 library agent context response s).world
  unfolding count_call
  count_call-world response s p =
      emit_live-keeps 𝓕 library agent context (λ s. P s.world) _ _ p (λ _ _. p)

  pub answers-world : ToolsKeep → KeepsAnswers 𝓕 library agent context (λ s. P s.world)
  answers-world tools_keep = record {
    asked = λ message s kept. kept;
    executed = λ tool_call s kept. execute_tool-world tool_call s tools_keep kept;
    recorded = record_call-world;
  }

  -- What holds of the outside world before a run holds after it, however the run ends, if the
  -- provider keeps it and so do the tools that the agent's access control list authorises: a tool
  -- that is not authorised is never executed, whatever the LLM asks for.
  pub run-authority :
      (input : Input Args) (emit_partial : Bool) (cost_aggregator : Option (CostAggregator 𝓕.F))
      (world : W)
      → ProviderKeeps
      → ToolsKeep
      → P world
      → P (run 𝓕 library agent context input emit_partial cost_aggregator world).1.world
  unfolding run initial_state
  run-authority input emit_partial cost_aggregator world provider_keeps tools_keep p =
      elim (Option-cases context.provider) [
        | inl missing ↦ rw missing p
        | inr (complete, given) ↦ rw given (
            iterate-keeps 𝓕 library agent context (λ s. P s.world) (answers-world tools_keep)
              complete
              (λ s _ kept.
                let answered = provider_keeps complete given s.full_messages s.world kept in
                (answered, λ received. count_call-world received _ answered))
              emit_partial agent.max_iterations
              (initial_state 𝓕 library agent context input cost_aggregator world) p)
      ]
