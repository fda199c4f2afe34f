-- ===== src/Core/Agent/Messages.antt =====
-- The messages, records and totals that `BaseAgent.run` of src/orchestra/core/agent.py builds.
use multi_agent_orchestratio.Base.{
  ◌+◌, Bool, true, false, not, Option, none, some, List, [], ◌∷◌, String, ◌==◌, if◌then◌else◌,
}
use multi_agent_orchestratio.Base.Floats.{Floats}
use multi_agent_orchestratio.Core.Agent.Types.{
  MessageRole, system_role, user_role, assistant_role, tool_role, Message, ToolCall, ToolCallRecord,
  ToolResult, TokenUsage,
}
use multi_agent_orchestratio.Core.Agent.Tools.{or_empty_text}

-- A message of a role with a content only.
abbrev pub plain_message : {Args : Type 0} → MessageRole → String → Message Args
plain_message role content = record {
  role = role;
  content = content;
  name = none;
  tool_call_id = none;
  tool_calls = none;
}

-- The input of a run: a text, or messages.
pub data Input (Args : Type 0) : Type 0 where
  text : String → Input Args
  messages : List (Message Args) → Input Args

unfoldable pub build_messages : {Args : Type 0} → String → Input Args → List (Message Args)
build_messages prompt (text input) =
    plain_message system_role prompt
    ∷ (if input == "" then [] else plain_message user_role input ∷ [])
build_messages prompt (messages input) = plain_message system_role prompt ∷ input

-- `response.model or self.model or "unknown"`.
abbrev pub model_name : String → Option String → String
model_name response_model none = if response_model == "" then "unknown" else response_model
model_name response_model (some model) =
    if not (response_model == "") then response_model else if model == "" then "unknown" else model

-- `tool_result.content or tool_result.error or ""`.
abbrev pub answer_text : ToolResult → String
answer_text result = if result.content == "" then or_empty_text result.error else result.content

unfoldable pub tool_message : {Args : Type 0} → ToolCall Args → ToolResult → Message Args
tool_message tool_call result = record {
  role = tool_role;
  content = answer_text result;
  name = some tool_call.name;
  tool_call_id = some tool_call.id;
  tool_calls = none;
}

unfoldable pub tool_record : {Args : Type 0} → ToolCall Args → ToolResult → ToolCallRecord Args
tool_record tool_call result = record {
  tool_call = tool_call;
  result = result.content;
  error = result.error;
}

unfoldable pub assistant_message :
    {Args : Type 0} → Option String → Option String → Option (List (ToolCall Args)) → Message Args
assistant_message content name tool_calls = record {
  role = assistant_role;
  content = or_empty_text content;
  name = name;
  tool_call_id = none;
  tool_calls = tool_calls;
}

abbrev pub is_assistant : {Args : Type 0} → Message Args → Bool
is_assistant message = elim message.role [
  | system_role ↦ false
  | user_role ↦ false
  | assistant_role ↦ true
  | tool_role ↦ false
]

module _ (𝓕 : Floats) where
  abbrev pub no_usage : TokenUsage 𝓕.F
  no_usage = record {
    input_tokens = 0;
    output_tokens = 0;
    total_tokens = 0;
    estimated_cost_usd = 𝓕.zero;
  }

  unfoldable pub add_usage : TokenUsage 𝓕.F → Option (TokenUsage 𝓕.F) → TokenUsage 𝓕.F
  add_usage total none = total
  add_usage total (some usage) = record {
    input_tokens = total.input_tokens + usage.input_tokens;
    output_tokens = total.output_tokens + usage.output_tokens;
    total_tokens = total.total_tokens + usage.total_tokens;
    estimated_cost_usd = 𝓕.add total.estimated_cost_usd usage.estimated_cost_usd;
  }

  abbrev pub usage_or_none : Option (TokenUsage 𝓕.F) → TokenUsage 𝓕.F
  usage_or_none none = no_usage
  usage_or_none (some usage) = usage
