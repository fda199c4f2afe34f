-- ===== src/Core/Agent.antt =====
-- `BaseAgent` of src/orchestra/core/agent.py. The provider, the tools and the structured output's
-- `model_validate_json` are the user's code: they act on an outside world `W`. The agent's state is
-- what `run` accumulates, the events and the aggregator that the event bus feeds.
pub mod Types
pub mod Tools
pub mod Messages
pub mod Loop
pub mod Steps
pub mod Authority
pub mod Events
pub mod Spending
pub mod Bounds
pub mod Answered
use multi_agent_orchestratio.Base.{
  ℕ, Bool, Option, none, some, List, ◌∷◌, [], ◌++◌, String, Result, if◌then◌else◌,
}
use multi_agent_orchestratio.Base.Floats.{Floats}
use multi_agent_orchestratio.Identity.Types.{UcanToken}
use multi_agent_orchestratio.Security.Acl.{ToolAcl, open_acl}
use multi_agent_orchestratio.Cost.Budget.{BudgetPolicy}
use multi_agent_orchestratio.Cost.Aggregator.{CostAggregator, on_llm_called}
use Types.{
  Message, ToolResult, ToolCallRecord, TokenUsage, LlmResponse, AgentEvent, llm_called, tool_called,
  unauthorized_tool,
}

-- How a call of a tool ends: with a result, or with an exception and its text.
pub data Execution : Type 0 where
  returned : ToolResult → Execution
  failed : String → Execution

pub record Tool (Args W : Type 0) : Type 0 where
  pub name : String
  pub execute : Args → W → Execution × W

pub record Agent (Args S W : Type 0) : Type 0 where
  pub name : String
  pub model : Option String
  pub system_prompt : String
  pub tools : List (Tool Args W)
  pub acl : Option ToolAcl
  pub max_iterations : ℕ
  -- `output_type.model_validate_json`, none where it raises.
  pub output_type : Option (String → Option S)

-- `llm.complete`, with the agent's model, tools, temperature and output type.
abbrev pub Complete : Type 0 → Type 0 → Type 0 → Type 0
Complete F Args W = List (Message Args) → W → Result (LlmResponse F Args) × W

pub record Context (F Args W : Type 0) : Type 0 where
  pub provider : Option (Complete F Args W)
  pub run_id : String
  pub replay_mode : Bool
  pub replay_events : List (AgentEvent F Args)
  pub has_event_bus : Bool
  pub budget_policy : Option (BudgetPolicy F)

-- What changes while the agent runs.
pub record AgentState (F Args W : Type 0) : Type 0 where
  pub full_messages : List (Message Args)
  pub all_tool_records : List (ToolCallRecord Args)
  pub total_usage : TokenUsage F
  pub emitted : List (AgentEvent F Args)
  pub cost_aggregator : Option (CostAggregator F)
  pub world : W

-- What the agent uses of Python's library: `fnmatch.fnmatch`, the parser of a serialised token, the
-- clock, the equality of two argument dicts and the text of a list of names.
pub record Library (Args : Type 0) : Type 0 where
  pub fnmatch : String → String → Bool
  pub loads : String → Option UcanToken
  pub past : ℕ → Bool
  pub same_arguments : Args → Args → Bool
  pub show_names : List String → String

-- `self.acl`, which is set to an open list where there is none.
abbrev pub acl_of : {Args S W : Type 0} → Agent Args S W → ToolAcl
acl_of agent = elim agent.acl [ none ↦ open_acl | some acl ↦ acl ]

module _ (𝓕 : Floats) {Args : Type 0} where
  -- `CostAggregator.on_event`, which only counts the calls of an LLM.
  unfoldable pub on_event : AgentEvent 𝓕.F Args → CostAggregator 𝓕.F → CostAggregator 𝓕.F
  unfolding on_llm_called
  on_event (llm_called run_id agent_name model content tool_calls input_tokens output_tokens cost)
        aggregator =
      on_llm_called 𝓕 run_id model agent_name input_tokens output_tokens aggregator
  on_event (tool_called agent_name tool_name arguments result error) aggregator = aggregator
  on_event (unauthorized_tool agent_name tool_name) aggregator = aggregator

  abbrev pub observe :
      AgentEvent 𝓕.F Args → Option (CostAggregator 𝓕.F) → Option (CostAggregator 𝓕.F)
  observe event none = none
  observe event (some aggregator) = some (on_event event aggregator)

  -- `event_bus.emit(event)`, where there is an event bus; the aggregator subscribes to it.
  unfoldable pub emit :
      {W : Type 0}
      → Context 𝓕.F Args W
      → AgentEvent 𝓕.F Args
      → AgentState 𝓕.F Args W
      → AgentState 𝓕.F Args W
  unfolding on_event
  emit context event s =
      if context.has_event_bus
      then record s {
        emitted = s.emitted ++ event ∷ [];
        cost_aggregator = observe event s.cost_aggregator;
      }
      else s
