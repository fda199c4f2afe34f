-- ===== src/Core/Agent/Steps.antt =====
-- What every step of the agent's loop keeps, the whole loop keeps.
use multi_agent_orchestratio.Base.{
  ℕ, zero, suc, Bool, true, false, List, [], ◌∷◌, ◌++◌, truthy, ◌≡◌, refl, ap, inl, inr, Result, ok,
  raise, Bool-cases, Result-cases,
}
use multi_agent_orchestratio.Base.Floats.{Floats}
use multi_agent_orchestratio.Core.Agent.{
  Agent, Context, Complete, Library, AgentState, emit, observe,
}
use multi_agent_orchestratio.Core.Agent.Types.{
  Message, ToolCall, ToolResult, LlmResponse, AgentEvent,
}
use multi_agent_orchestratio.Core.Agent.Tools.{execute_tool}
use multi_agent_orchestratio.Core.Agent.Loop.{
  again, done, returned, raised, Turn, emit_live, check_budget, count_call, record_call,
  execute_tools, answer, receive, iteration, iterate,
}

module _ (𝓕 : Floats) {Args S W : Type 0} (library : Library Args) (agent : Agent Args S W)
    (context : Context 𝓕.F Args W) (P : AgentState 𝓕.F Args W → Type 0) where
  -- The steps of answering a response with tool calls.
  pub record KeepsAnswers : Type 0 where
    pub asked :
        (message : Message Args) (s : AgentState 𝓕.F Args W)
        → P s
        → P (record s { full_messages = s.full_messages ++ message ∷ [] })
    pub executed :
        (tool_call : ToolCall Args) (s : AgentState 𝓕.F Args W)
        → P s
        → P (execute_tool 𝓕 library agent context tool_call s).1
    pub recorded :
        (tool_call : ToolCall Args) (result : ToolResult) (s : AgentState 𝓕.F Args W)
        → P s
        → P (record_call 𝓕 library agent context tool_call result s)

  pub emit_live-keeps :
      (event : AgentEvent 𝓕.F Args) (s : AgentState 𝓕.F Args W)
      → P s
      → (context.replay_mode ≡ false
          → context.has_event_bus ≡ true
          → P (record s {
            emitted = s.emitted ++ event ∷ [];
            cost_aggregator = observe 𝓕 event s.cost_aggregator;
          }))
      → P (emit_live 𝓕 library agent context event s)
  unfolding emit
  emit_live-keeps event s unchanged changed = elim (Bool-cases context.replay_mode) [
    | inl replay ↦ rw replay unchanged
    | inr live ↦ elim (Bool-cases context.has_event_bus) [
      | inl bus ↦ rw (live, bus) (changed live bus)
      | inr no_bus ↦ rw (live, no_bus) unchanged
    ]
  ]

  module _ (keeps : KeepsAnswers) where
    pub execute_tools-keeps :
        (tool_calls : List (ToolCall Args)) (s : AgentState 𝓕.F Args W)
        → P s
        → P (execute_tools 𝓕 library agent context tool_calls s).1
    unfolding execute_tools
    execute_tools-keeps [] s p = p
    execute_tools-keeps (tool_call ∷ tool_calls) s p =
        let (result, used) = execute_tool 𝓕 library agent context tool_call s in
        let after = keeps.executed tool_call s p in
        elim (Result-cases result) [
          | inr (e, failed) ↦ rw (execute_tools, failed) after
          | inl (value, fine) ↦
              rw (execute_tools, fine)
                (execute_tools-keeps tool_calls _ (keeps.recorded tool_call value used after))
        ]

    pub answer-keeps :
        (response : LlmResponse 𝓕.F Args) (s : AgentState 𝓕.F Args W)
        → P s
        → P (answer 𝓕 library agent context response s).1
    unfolding answer
    answer-keeps response s p = execute_tools-keeps response.tool_calls _ (keeps.asked _ s p)

    pub receive-keeps :
        (response : Result (LlmResponse 𝓕.F Args)) (s : AgentState 𝓕.F Args W)
        → P s
        → ((received : LlmResponse 𝓕.F Args) → P (count_call 𝓕 library agent context received s))
        → P (receive 𝓕 library agent context response s).1
    unfolding receive
    receive-keeps (raise e) s p counted = p
    receive-keeps (ok response) s p counted = elim (Bool-cases (truthy response.tool_calls)) [
      | inl calls ↦ rw calls (answer-keeps response _ (counted response))
      | inr final ↦ rw final (counted response)
    ]

    -- The loop, where P survives the calls of the LLM too.
    module _ (complete : Complete 𝓕.F Args W)
        (called : (s : AgentState 𝓕.F Args W)
          → check_budget 𝓕 library agent context s ≡ ok tt
          → P s
          → let (response, world) = complete s.full_messages s.world in
            P (record s { world = world })
            × ((received : LlmResponse 𝓕.F Args)
                → P (
                    count_call 𝓕 library agent context received
                      (record s { world = world })))) where
      pub iteration-keeps :
          (s : AgentState 𝓕.F Args W) → P s → P (iteration 𝓕 library agent context complete s).1
      unfolding iteration
      iteration-keeps s p = elim (Result-cases (check_budget 𝓕 library agent context s)) [
        | inr (e, refused) ↦ rw (iteration, refused) p
        | inl (granted, within) ↦
            let (asked, counted) = called s within p in
            let (response, world) = complete s.full_messages s.world in
            rw (iteration, within)
              (receive-keeps response (record s { world = world }) asked counted)
      ]

      pub iterate-keeps :
          (emit_partial : Bool) (left : ℕ) (s : AgentState 𝓕.F Args W)
          → P s
          → P (iterate 𝓕 library agent context complete emit_partial left s).1
      unfolding iterate
      iterate-keeps emit_partial zero s p = p
      iterate-keeps emit_partial (suc left) s p =
          let (turn, after) = iteration 𝓕 library agent context complete s in
          let kept = iteration-keeps s p in
          elim (Result-cases turn) [
            | inr (e, failed) ↦ rw (iterate, failed) kept
            | inl (again, next) ↦ rw (iterate, next) (iterate-keeps emit_partial left after kept)
            | inl (done result, next) ↦ rw (iterate, next) kept
          ]

module _ (𝓕 : Floats) {Args S W : Type 0} (library : Library Args) (agent : Agent Args S W)
    (context : Context 𝓕.F Args W) (P : AgentState 𝓕.F Args W → Type 0)
    (complete other : Complete 𝓕.F Args W) where
  -- Two providers make the same run where, as long as it goes on, they make the same iterations.
  pub iterate-same :
      ((s : AgentState 𝓕.F Args W)
        → P s
        → iteration 𝓕 library agent context other s ≡ iteration 𝓕 library agent context complete s)
      → ((s : AgentState 𝓕.F Args W)
          → P s
          → (iteration 𝓕 library agent context complete s).0 ≡ ok again
          → P (iteration 𝓕 library agent context complete s).1)
      → (emit_partial : Bool) (left : ℕ) (s : AgentState 𝓕.F Args W) → P s
      → iterate 𝓕 library agent context other emit_partial left s
        ≡ iterate 𝓕 library agent context complete emit_partial left s
  unfolding iterate
  iterate-same same_turn kept emit_partial zero s h = refl
  iterate-same same_turn kept emit_partial (suc left) s h =
      let (turn, after) = iteration 𝓕 library agent context complete s in
      let same = same_turn s h in
      let outcome_is =
        λ (r : Result (Turn 𝓕.F Args S)). (iteration 𝓕 library agent context other s).0 ≡ r in
      elim (Result-cases turn) [
        | inr (e, failed) ↦
            let failed' : outcome_is (raise e) = rw same failed in
            rw (iterate, failed', failed) (ap (λ t. (raised e, t.1)) same)
        | inl (again, next) ↦
            let next' : outcome_is (ok again) = rw same next in
            let later = iterate-same same_turn kept emit_partial left after (kept s h next) in
            rw (iterate, next', next) (rw same later)
        | inl (done result, next) ↦
            let next' : outcome_is (ok (done result)) = rw same next in
            rw (iterate, next', next) (ap (λ t. (returned result, t.1)) same)
      ]
