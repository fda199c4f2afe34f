-- ===== src/Core/Agent/Tools.antt =====
-- `_execute_tool` of src/orchestra/core/agent.py.
use multi_agent_orchestratio.Base.{
  Bool, true, false, Option, none, some, List, [], ◌∷◌, map, String, ◌+++◌, ◌==◌, ◌&&◌, Result, ok,
  raise, if◌then◌else◌,
}
use multi_agent_orchestratio.Base.Floats.{Floats}
use multi_agent_orchestratio.Security.Acl.{is_authorized}
use multi_agent_orchestratio.Core.Agent.{
  Execution, returned, failed, Tool, Agent, Context, Library, AgentState, acl_of, emit,
}
use multi_agent_orchestratio.Core.Agent.Types.{
  ToolCall, ToolResult, AgentEvent, llm_called, tool_called, unauthorized_tool,
}

abbrev pub tool_error : {Args : Type 0} → ToolCall Args → String → ToolResult
tool_error tool_call error = record {
  tool_call_id = tool_call.id;
  name = tool_call.name;
  content = "";
  error = some error;
}

abbrev pub result_of : {Args : Type 0} → ToolCall Args → Execution → ToolResult
result_of tool_call (returned result) = result
result_of tool_call (failed error) = tool_error tool_call error

abbrev pub or_empty_text : Option String → String
or_empty_text none = ""
or_empty_text (some text) = text

-- The first tool of the name.
unfoldable pub find_tool : {Args W : Type 0} → String → List (Tool Args W) → Option (Tool Args W)
find_tool name [] = none
find_tool name (tool ∷ tools) = if tool.name == name then some tool else find_tool name tools

module _ (𝓕 : Floats) {Args : Type 0} (library : Library Args) where
  -- The recorded event of the same call, if there is one.
  unfoldable pub find_replay : ToolCall Args → List (AgentEvent 𝓕.F Args) → Option ToolResult
  find_replay tool_call [] = none
  find_replay tool_call (tool_called agent_name tool_name arguments result error ∷ events) =
      if tool_name == tool_call.name && library.same_arguments arguments tool_call.arguments
      then some (record {
        tool_call_id = tool_call.id;
        name = tool_call.name;
        content = or_empty_text result;
        error = error;
      })
      else find_replay tool_call events
  find_replay tool_call (llm_called _ _ _ _ _ _ _ _ ∷ events) = find_replay tool_call events
  find_replay tool_call (unauthorized_tool _ _ ∷ events) = find_replay tool_call events

  module _ {S W : Type 0} (agent : Agent Args S W) (context : Context 𝓕.F Args W) where
    unfoldable pub replayed : ToolCall Args → Option ToolResult
    unfolding find_replay
    replayed tool_call =
        if context.replay_mode then find_replay tool_call context.replay_events else none

    -- Steps 2 and 3: the lookup and the call.
    unfoldable pub use_tool :
        ToolCall Args → AgentState 𝓕.F Args W → ToolResult × AgentState 𝓕.F Args W
    unfolding find_tool
    use_tool tool_call s = elim (find_tool tool_call.name agent.tools) [
      | none ↦
          let names = library.show_names (map (λ tool. tool.name) agent.tools) in
          (
            tool_error tool_call
                ("Tool '" +++ (tool_call.name +++ ("' not found. Available: " +++ names))),
            s,
          )
      | some tool ↦
          let (execution, world) = tool.execute tool_call.arguments s.world in
          (result_of tool_call execution, record s { world = world })
    ]

    abbrev pub violation_text : String → String
    violation_text tool_name =
        "Security Policy Violation: Agent '"
        +++ (agent.name +++ ("' is not authorized to use tool '" +++ (tool_name +++ "'.")))

    -- Step 1, on what the access control list says.
    unfoldable pub use_if :
        Result Bool
        → ToolCall Args
        → AgentState 𝓕.F Args W
        → Result ToolResult × AgentState 𝓕.F Args W
    unfolding use_tool emit
    use_if (raise e) tool_call s = (raise e, s)
    use_if (ok true) tool_call s = let (result, used) = use_tool tool_call s in (ok result, used)
    use_if (ok false) tool_call s = (
      ok (tool_error tool_call (violation_text tool_call.name)),
      emit 𝓕 context (unauthorized_tool agent.name tool_call.name) s,
    )

    abbrev pub authorized : String → Result Bool
    authorized tool_name =
        is_authorized library.fnmatch library.loads library.past (acl_of agent) tool_name none none
          none

    unfoldable pub execute_tool :
        ToolCall Args → AgentState 𝓕.F Args W → Result ToolResult × AgentState 𝓕.F Args W
    unfolding replayed use_if is_authorized
    execute_tool tool_call s = elim (replayed tool_call) [
      | some result ↦ (ok result, s)
      | none ↦ use_if (authorized tool_call.name) tool_call s
    ]
