-- ===== src/Core/Agent/Answered.antt =====
-- The conversation that `BaseAgent.run` of src/orchestra/core/agent.py passes to its LLM.
use multi_agent_orchestratio.Base.{
  Bool, true, false, Option, none, some, List, [], ◌∷◌, ◌++◌, ◌==◌, truthy, Result, ok, raise, ◌≡◌,
  refl, ◌∙◌, ap, sym, inl, inr, Bool-cases, Option-cases, Result-cases, if◌then◌else◌,
  provider_error, eq_refl, some_inj,
}
use multi_agent_orchestratio.Base.Floats.{Floats}
use multi_agent_orchestratio.Cost.Aggregator.{CostAggregator}
use multi_agent_orchestratio.Core.Agent.{Agent, Context, Complete, Library, AgentState, emit}
use multi_agent_orchestratio.Core.Agent.Types.{
  system_role, user_role, assistant_role, tool_role, Message, ToolCall, ToolResult, LlmResponse,
}
use multi_agent_orchestratio.Core.Agent.Tools.{execute_tool, use_if, use_tool, replayed, find_tool}
use multi_agent_orchestratio.Core.Agent.Messages.{
  Input, build_messages, tool_message, assistant_message,
}
use multi_agent_orchestratio.Core.Agent.Loop.{
  again, check_budget, count_call, record_call, execute_tools, answer, receive, iteration, iterate,
  initial_state, run,
}
use multi_agent_orchestratio.Core.Agent.Steps.{emit_live-keeps, iterate-same}

module _ {Args : Type 0} where
  -- The calls that a message asks for.
  abbrev calls_of : Message Args → List (ToolCall Args)
  calls_of message = elim message.tool_calls [ none ↦ [] | some tool_calls ↦ tool_calls ]

  abbrev is_tool : Message Args → Bool
  is_tool message = elim message.role [
    | system_role ↦ false
    | user_role ↦ false
    | assistant_role ↦ false
    | tool_role ↦ true
  ]

  -- A message of a tool with the ID of the call.
  abbrev answers : ToolCall Args → Message Args → Bool
  answers tool_call message = elim message.tool_call_id [
    | none ↦ false
    | some call_id ↦ if is_tool message then call_id == tool_call.id else false
  ]

  -- The calls that a conversation leaves open, from some open ones; none where a message does not
  -- answer the first open call, or a tool's message answers nothing.
  unfoldable pub open_calls :
      List (ToolCall Args) → List (Message Args) → Option (List (ToolCall Args))
  open_calls tool_calls [] = some tool_calls
  open_calls [] (message ∷ messages) =
      let rest = open_calls (calls_of message) messages in if is_tool message then none else rest
  open_calls (tool_call ∷ tool_calls) (message ∷ messages) =
      let rest = open_calls tool_calls messages in if answers tool_call message then rest else none

  -- Each tool call is answered, in order and at once, and nothing else is.
  abbrev pub is_answered : List (Message Args) → Bool
  is_answered messages = elim (open_calls [] messages) [
    | none ↦ false
    | some [] ↦ true
    | some (_ ∷ _) ↦ false
  ]

  open_calls-snoc :
      (messages : List (Message Args)) (message : Message Args)
      (tool_calls rest : List (ToolCall Args))
      → open_calls tool_calls messages ≡ some rest
      → open_calls tool_calls (messages ++ message ∷ []) ≡ open_calls rest (message ∷ [])
  unfolding open_calls
  open_calls-snoc [] message tool_calls rest h =
      ap (λ open_before. open_calls open_before (message ∷ [])) (some_inj h)
  open_calls-snoc (first ∷ messages) message [] rest h = elim (Bool-cases (is_tool first)) [
    | inl stray ↦ cc (rw (open_calls, stray) at h)
    | inr other ↦
        let later : open_calls (calls_of first) messages ≡ some rest =
          rw (open_calls, other) at h in
        rw (open_calls, other) (open_calls-snoc messages message (calls_of first) rest later)
  ]
  open_calls-snoc (first ∷ messages) message (tool_call ∷ tool_calls) rest h =
      elim (Bool-cases (answers tool_call first)) [
        | inl answered ↦
            let later : open_calls tool_calls messages ≡ some rest =
              rw (open_calls, answered) at h in
            rw (open_calls, answered) (open_calls-snoc messages message tool_calls rest later)
        | inr other ↦ cc (rw (open_calls, other) at h)
      ]

  is_answered→open_calls :
      (messages : List (Message Args))
      → is_answered messages ≡ true
      → open_calls [] messages ≡ some []
  is_answered→open_calls messages h = none_open (open_calls [] messages) refl h
    where
      none_open :
          (left : Option (List (ToolCall Args)))
          → open_calls [] messages ≡ left
          → (elim left [ none ↦ false | some [] ↦ true | some (_ ∷ _) ↦ false ]) ≡ true
          → open_calls [] messages ≡ some []
      none_open none same h = cc
      none_open (some []) same h = same
      none_open (some (c ∷ cs)) same h = cc

module _ (𝓕 : Floats) {Args S W : Type 0} (library : Library Args) (agent : Agent Args S W)
    (context : Context 𝓕.F Args W) where
  -- The provider, if it raises on a conversation with a call that is not answered.
  abbrev pub checked : Complete 𝓕.F Args W → Complete 𝓕.F Args W
  checked complete messages world =
      if is_answered messages then complete messages world else (raise provider_error, world)

  use_tool-full_messages :
      (tool_call : ToolCall Args) (s : AgentState 𝓕.F Args W)
      → (use_tool 𝓕 library agent context tool_call s).1.full_messages ≡ s.full_messages
  unfolding use_tool
  use_tool-full_messages tool_call s = elim (Option-cases (find_tool tool_call.name agent.tools)) [
    | inl unknown ↦ rw (use_tool, unknown) refl
    | inr (tool, found) ↦ rw (use_tool, found) refl
  ]

  use_if-full_messages :
      (allowed : Result Bool) (tool_call : ToolCall Args) (s : AgentState 𝓕.F Args W)
      → (use_if 𝓕 library agent context allowed tool_call s).1.full_messages ≡ s.full_messages
  unfolding use_if emit
  use_if-full_messages (raise e) tool_call s = refl
  use_if-full_messages (ok true) tool_call s = use_tool-full_messages tool_call s
  use_if-full_messages (ok false) tool_call s = elim (Bool-cases context.has_event_bus) [
    | inl bus ↦ rw bus refl
    | inr no_bus ↦ rw no_bus refl
  ]

  execute_tool-full_messages :
      (tool_call : ToolCall Args) (s : AgentState 𝓕.F Args W)
      → (execute_tool 𝓕 library agent context tool_call s).1.full_messages ≡ s.full_messages
  unfolding execute_tool
  execute_tool-full_messages tool_call s =
      elim (Option-cases (replayed 𝓕 library agent context tool_call)) [
        | inr (result, found) ↦ rw (execute_tool, found) refl
        | inl live ↦ rw (execute_tool, live) (use_if-full_messages _ tool_call s)
      ]

  abbrev Leaves : List (ToolCall Args) → AgentState 𝓕.F Args W → Type 0
  Leaves tool_calls s = open_calls [] s.full_messages ≡ some tool_calls

  record_call-Leaves :
      (tool_call : ToolCall Args) (tool_calls : List (ToolCall Args)) (result : ToolResult)
      (s : AgentState 𝓕.F Args W)
      → Leaves (tool_call ∷ tool_calls) s
      → Leaves tool_calls (record_call 𝓕 library agent context tool_call result s)
  unfolding record_call tool_message open_calls
  record_call-Leaves tool_call tool_calls result s h =
      let grown = open_calls-snoc s.full_messages (tool_message tool_call result) [] _ h in
      let answered = grown ∙ rw (eq_refl tool_call.id) refl in
      emit_live-keeps 𝓕 library agent context (Leaves tool_calls) _ _ answered (λ _ _. answered)

  execute_tools-Leaves :
      (tool_calls : List (ToolCall Args)) (s : AgentState 𝓕.F Args W)
      → Leaves tool_calls s
      → (execute_tools 𝓕 library agent context tool_calls s).0 ≡ ok tt
      → Leaves [] (execute_tools 𝓕 library agent context tool_calls s).1
  unfolding execute_tools
  execute_tools-Leaves [] s h finished = h
  execute_tools-Leaves (tool_call ∷ tool_calls) s h finished =
      let used = execute_tool 𝓕 library agent context tool_call s in
      elim (Result-cases used.0) [
        | inr (e, failed) ↦ cc (rw (execute_tools, failed) at finished)
        | inl (value, fine) ↦
            let same = execute_tool-full_messages tool_call s in
            let still : Leaves (tool_call ∷ tool_calls) used.1 = rw same h in
            rw (execute_tools, fine)
              (execute_tools-Leaves tool_calls _
                (record_call-Leaves tool_call tool_calls value used.1 still)
                (rw (execute_tools, fine) at finished))
      ]

  answer-Leaves :
      (response : LlmResponse 𝓕.F Args) (s : AgentState 𝓕.F Args W)
      → Leaves [] s
      → (answer 𝓕 library agent context response s).0 ≡ ok again
      → Leaves [] (answer 𝓕 library agent context response s).1
  unfolding answer assistant_message open_calls
  answer-Leaves response s h going =
      let asked = assistant_message response.content none (some response.tool_calls) in
      let open_now = open_calls-snoc s.full_messages asked [] [] h in
      let pending = record s { full_messages = s.full_messages ++ asked ∷ [] } in
      elim (Result-cases (execute_tools 𝓕 library agent context response.tool_calls pending).0) [
        | inr (e, failed) ↦ cc (rw (answer, failed) at going)
        | inl (value, finished) ↦ execute_tools-Leaves response.tool_calls pending open_now finished
      ]

  count_call-full_messages :
      (response : LlmResponse 𝓕.F Args) (s : AgentState 𝓕.F Args W)
      → (count_call 𝓕 library agent context response s).full_messages ≡ s.full_messages
  unfolding count_call
  count_call-full_messages response s =
      emit_live-keeps 𝓕 library agent context (λ t. t.full_messages ≡ s.full_messages) _ _ refl
        (λ _ _. refl)

  receive-Leaves :
      (response : Result (LlmResponse 𝓕.F Args)) (s : AgentState 𝓕.F Args W)
      → Leaves [] s
      → (receive 𝓕 library agent context response s).0 ≡ ok again
      → Leaves [] (receive 𝓕 library agent context response s).1
  unfolding receive
  receive-Leaves (raise e) s h going = h
  receive-Leaves (ok response) s h going =
      let same = count_call-full_messages response s in
      let counted : Leaves [] (count_call 𝓕 library agent context response s) = rw same h in
      elim (Bool-cases (truthy response.tool_calls)) [
        | inl calls ↦
            rw (receive, calls) (answer-Leaves response _ counted (rw (receive, calls) at going))
        | inr final ↦ rw (receive, final) counted
      ]

  module _ (complete : Complete 𝓕.F Args W) where
    iteration-Leaves :
        (s : AgentState 𝓕.F Args W)
        → Leaves [] s
        → (iteration 𝓕 library agent context complete s).0 ≡ ok again
        → Leaves [] (iteration 𝓕 library agent context complete s).1
    unfolding iteration
    iteration-Leaves s h going = elim (Result-cases (check_budget 𝓕 library agent context s)) [
      | inr (e, refused) ↦ rw (iteration, refused) h
      | inl (granted, within) ↦
          rw (iteration, within) (receive-Leaves _ _ h (rw (iteration, within) at going))
    ]

    iteration-checked :
        (s : AgentState 𝓕.F Args W)
        → Leaves [] s
        → iteration 𝓕 library agent context (checked complete) s
          ≡ iteration 𝓕 library agent context complete s
    unfolding iteration
    iteration-checked s h = elim (Result-cases (check_budget 𝓕 library agent context s)) [
      | inr (e, refused) ↦ rw (iteration, refused) refl
      | inl (granted, within) ↦
          let whole : is_answered s.full_messages ≡ true = rw (is_answered, h) refl in
          let passes : checked complete s.full_messages s.world ≡ complete s.full_messages s.world =
            rw (checked, whole) refl in
          rw (iteration, within)
            (ap
              (λ (answered : Result (LlmResponse 𝓕.F Args) × W).
                receive 𝓕 library agent context answered.0 (record s { world = answered.1 }))
              passes)
    ]

  -- The LLM is only called with a conversation in which each tool call of an assistant's message is
  -- answered at once and in order by one message with its ID, and nothing else by such a message, if
  -- the run's input is such a conversation: the run is that of an LLM that raises on any other.
  pub run-checked :
      (complete : Complete 𝓕.F Args W) (input : Input Args) (emit_partial : Bool)
      (cost_aggregator : Option (CostAggregator 𝓕.F)) (world : W)
      → context.provider ≡ some complete
      → is_answered (build_messages agent.system_prompt input) ≡ true
      → run 𝓕 library agent context input emit_partial cost_aggregator world
        ≡ iterate 𝓕 library agent context
            (checked complete)
            emit_partial
            agent.max_iterations
            (initial_state 𝓕 library agent context input cost_aggregator world)
  unfolding run initial_state
  run-checked complete input emit_partial cost_aggregator world given whole = rw given (
      sym (
        iterate-same 𝓕 library agent context (Leaves []) complete (checked complete)
          (iteration-checked complete) (iteration-Leaves complete) emit_partial agent.max_iterations
          (initial_state 𝓕 library agent context input cost_aggregator world)
          (is_answered→open_calls (build_messages agent.system_prompt input) whole)))
