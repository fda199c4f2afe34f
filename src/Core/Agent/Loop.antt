-- ===== src/Core/Agent/Loop.antt =====
-- `BaseAgent.run` of src/orchestra/core/agent.py: the loop of LLM calls and tool calls.
use multi_agent_orchestratio.Base.{
  ℕ, zero, suc, Bool, true, false, Option, none, some, List, [], ◌∷◌, ◌++◌, String, ◌==◌, truthy,
  select, Error, Result, ok, raise, bind, if◌then◌else◌, provider_error,
}
use multi_agent_orchestratio.Base.Floats.{Floats}
use multi_agent_orchestratio.Cost.Budget.{enforce}
use multi_agent_orchestratio.Cost.Aggregator.{CostAggregator, get_totals}
use multi_agent_orchestratio.Core.Agent.{Agent, Context, Complete, Library, AgentState, emit}
use multi_agent_orchestratio.Core.Agent.Types.{
  ToolCall, ToolResult, AgentResult, LlmResponse, AgentEvent, llm_called, tool_called,
}
use multi_agent_orchestratio.Core.Agent.Tools.{or_empty_text, execute_tool}
use multi_agent_orchestratio.Core.Agent.Messages.{
  Input, build_messages, model_name, tool_message, tool_record, assistant_message, is_assistant,
  no_usage, add_usage, usage_or_none,
}

-- How one iteration ends, unless it raises: with a result, or with tool calls that were answered.
pub data Turn (F Args S : Type 0) : Type 0 where
  again : Turn F Args S
  done : AgentResult F Args S → Turn F Args S

-- How a run ends; `MaxIterationsError` carries the partial result.
pub data Outcome (F Args S : Type 0) : Type 0 where
  returned : AgentResult F Args S → Outcome F Args S
  max_iterations : AgentResult F Args S → Outcome F Args S
  raised : Error → Outcome F Args S

module _ (𝓕 : Floats) {Args S W : Type 0} (library : Library Args) (agent : Agent Args S W)
    (context : Context 𝓕.F Args W) where
  -- `not replay` and an event bus.
  abbrev pub emit_live : AgentEvent 𝓕.F Args → AgentState 𝓕.F Args W → AgentState 𝓕.F Args W
  emit_live event s = if context.replay_mode then s else emit 𝓕 context event s

  abbrev pub totals : AgentState 𝓕.F Args W → 𝓕.F × ℕ
  totals s = elim s.cost_aggregator [
    | none ↦ (𝓕.zero, 0)
    | some aggregator ↦ get_totals 𝓕 context.run_id aggregator
  ]

  unfoldable pub check_budget : AgentState 𝓕.F Args W → Result (Unit {0})
  unfolding enforce get_totals
  check_budget s = elim context.budget_policy [
    | none ↦ ok tt
    | some policy ↦
        let (current_cost, current_tokens) = totals s in
        bind (enforce 𝓕 policy current_cost current_tokens) λ _. ok tt
  ]

  abbrev pub llm_event : LlmResponse 𝓕.F Args → AgentEvent 𝓕.F Args
  llm_event response =
      let usage = usage_or_none 𝓕 response.usage in
      llm_called context.run_id agent.name (model_name response.model agent.model) response.content
        response.tool_calls usage.input_tokens usage.output_tokens usage.estimated_cost_usd

  -- The usage of a response and its event.
  unfoldable pub count_call : LlmResponse 𝓕.F Args → AgentState 𝓕.F Args W → AgentState 𝓕.F Args W
  unfolding add_usage emit
  count_call response s =
      emit_live (llm_event response)
        (record s { total_usage = add_usage 𝓕 s.total_usage response.usage })

  abbrev pub tool_event : ToolCall Args → ToolResult → AgentEvent 𝓕.F Args
  tool_event tool_call result =
      tool_called agent.name tool_call.name tool_call.arguments (some result.content) result.error

  -- The record, the message and the event of a call that was executed.
  unfoldable pub record_call :
      ToolCall Args → ToolResult → AgentState 𝓕.F Args W → AgentState 𝓕.F Args W
  unfolding tool_record tool_message emit
  record_call tool_call result s = emit_live (tool_event tool_call result) (record s {
    all_tool_records = s.all_tool_records ++ tool_record tool_call result ∷ [];
    full_messages = s.full_messages ++ tool_message tool_call result ∷ [];
  })

  unfoldable pub execute_tools :
      List (ToolCall Args) → AgentState 𝓕.F Args W → Result (Unit {0}) × AgentState 𝓕.F Args W
  unfolding execute_tool record_call
  execute_tools [] s = (ok tt, s)
  execute_tools (tool_call ∷ tool_calls) s =
      let (result, used) = execute_tool 𝓕 library agent context tool_call s in
      elim result [
        | raise e ↦ (raise e, used)
        | ok result ↦ execute_tools tool_calls (record_call tool_call result used)
      ]

  -- A response with tool calls.
  unfoldable pub answer :
      LlmResponse 𝓕.F Args
      → AgentState 𝓕.F Args W
      → Result (Turn 𝓕.F Args S) × AgentState 𝓕.F Args W
  unfolding assistant_message execute_tools
  answer response s =
      let asked = assistant_message response.content none (some response.tool_calls) in
      let (answered, after) =
        execute_tools response.tool_calls
          (record s { full_messages = s.full_messages ++ asked ∷ [] }) in
      (bind answered (λ _. ok again), after)

  abbrev pub structured : String → Option S
  structured output = elim agent.output_type [
    | none ↦ none
    | some model_validate_json ↦ if output == "" then none else model_validate_json output
  ]

  -- A response without tool calls.
  unfoldable pub final_result :
      LlmResponse 𝓕.F Args → AgentState 𝓕.F Args W → AgentResult 𝓕.F Args S
  unfolding assistant_message
  final_result response s =
      let output = or_empty_text response.content in
      record {
        agent_name = agent.name;
        output = output;
        structured_output = structured output;
        messages = assistant_message response.content (some agent.name) none ∷ [];
        tool_calls_made = s.all_tool_records;
        token_usage = some s.total_usage;
        partial = false;
      }

  unfoldable pub receive :
      Result (LlmResponse 𝓕.F Args)
      → AgentState 𝓕.F Args W
      → Result (Turn 𝓕.F Args S) × AgentState 𝓕.F Args W
  unfolding count_call answer final_result
  receive (raise e) s = (raise e, s)
  receive (ok response) s =
      let counted = count_call response s in
      if truthy response.tool_calls
      then answer response counted
      else (ok (done (final_result response counted)), counted)

  -- One iteration of the loop.
  unfoldable pub iteration :
      Complete 𝓕.F Args W → AgentState 𝓕.F Args W → Result (Turn 𝓕.F Args S) × AgentState 𝓕.F Args W
  unfolding check_budget receive
  iteration complete s = elim (check_budget s) [
    | raise e ↦ (raise e, s)
    | ok _ ↦
        let (response, world) = complete s.full_messages s.world in
        receive response (record s { world = world })
  ]

  unfoldable pub partial_result : AgentState 𝓕.F Args W → AgentResult 𝓕.F Args S
  partial_result s = record {
    agent_name = agent.name;
    output = "";
    structured_output = none;
    messages = select is_assistant s.full_messages;
    tool_calls_made = s.all_tool_records;
    token_usage = some s.total_usage;
    partial = true;
  }

  -- `for _iteration in range(self.max_iterations)`, and what follows the loop.
  unfoldable pub iterate :
      Complete 𝓕.F Args W
      → Bool
      → ℕ
      → AgentState 𝓕.F Args W
      → Outcome 𝓕.F Args S × AgentState 𝓕.F Args W
  unfolding iteration partial_result
  iterate complete emit_partial zero s =
      (if emit_partial then returned (partial_result s) else max_iterations (partial_result s), s)
  iterate complete emit_partial (suc left) s =
      let (turn, after) = iteration complete s in
      elim turn [
        | raise e ↦ (raised e, after)
        | ok turn ↦ elim turn [
          | again ↦ iterate complete emit_partial left after
          | done result ↦ (returned result, after)
        ]
      ]

  unfoldable pub initial_state :
      Input Args → Option (CostAggregator 𝓕.F) → W → AgentState 𝓕.F Args W
  unfolding build_messages
  initial_state input cost_aggregator world = record {
    full_messages = build_messages agent.system_prompt input;
    all_tool_records = [];
    total_usage = no_usage 𝓕;
    emitted = [];
    cost_aggregator = cost_aggregator;
    world = world;
  }

  -- `run`, from what the aggregator holds and the outside world.
  unfoldable pub run :
      Input Args
      → Bool
      → Option (CostAggregator 𝓕.F)
      → W
      → Outcome 𝓕.F Args S × AgentState 𝓕.F Args W
  unfolding iterate initial_state
  run input emit_partial cost_aggregator world =
      let s = initial_state input cost_aggregator world in
      elim context.provider [
        | none ↦ (raised provider_error, s)
        | some complete ↦ iterate complete emit_partial agent.max_iterations s
      ]
