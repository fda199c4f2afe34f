-- ===== src/Core/Agent/Types.antt =====
-- The message, tool and response types of src/orchestra/core/types.py, and the events of
-- storage/events.py that an agent emits. The arguments of a tool call are a type `Args`, a float
-- is an `F`, and a structured output is an `S`.
use multi_agent_orchestratio.Base.{ℕ, Bool, Option, List, String}

pub data MessageRole : Type 0 where
  system_role user_role assistant_role tool_role : MessageRole

pub record ToolCall (Args : Type 0) : Type 0 where
  pub id : String
  pub name : String
  pub arguments : Args

pub record Message (Args : Type 0) : Type 0 where
  pub role : MessageRole
  pub content : String
  pub name : Option String
  pub tool_call_id : Option String
  pub tool_calls : Option (List (ToolCall Args))

pub record ToolCallRecord (Args : Type 0) : Type 0 where
  pub tool_call : ToolCall Args
  pub result : String
  pub error : Option String

pub record ToolResult : Type 0 where
  pub tool_call_id : String
  pub name : String
  pub content : String
  pub error : Option String

pub record TokenUsage (F : Type 0) : Type 0 where
  pub input_tokens : ℕ
  pub output_tokens : ℕ
  pub total_tokens : ℕ
  pub estimated_cost_usd : F

pub record AgentResult (F Args S : Type 0) : Type 0 where
  pub agent_name : String
  pub output : String
  pub structured_output : Option S
  pub messages : List (Message Args)
  pub tool_calls_made : List (ToolCallRecord Args)
  pub token_usage : Option (TokenUsage F)
  pub partial : Bool

pub record LlmResponse (F Args : Type 0) : Type 0 where
  pub content : Option String
  pub tool_calls : List (ToolCall Args)
  pub usage : Option (TokenUsage F)
  pub model : String

-- The event's own run and sequence number are left out.
pub data AgentEvent (F Args : Type 0) : Type 0 where
  -- run_id, agent_name, model, content, tool_calls, input_tokens, output_tokens, cost_usd
  llm_called :
      String
      → String
      → String
      → Option String
      → List (ToolCall Args)
      → ℕ
      → ℕ
      → F
      → AgentEvent F Args
  -- agent_name, tool_name, arguments, result, error
  tool_called : String → String → Args → Option String → Option String → AgentEvent F Args
  -- agent_name, tool_name
  unauthorized_tool : String → String → AgentEvent F Args
