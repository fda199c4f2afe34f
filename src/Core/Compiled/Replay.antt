-- ===== src/Core/Compiled/Replay.antt =====
-- Replaying the events of a run (`project_state` of storage/store.py) gives the state that the run
-- ended with, for the workflows whose state changes only by node updates into a plain dict.
use multi_agent_orchestratio.Base.{
  ℕ, zero, suc, ◌-◌, Option, none, List, [], ◌∷◌, String, ◌≡◌, ◌≢◌, refl, sym, ◌∙◌, ap, arith, All,
  Bool, false, Result, ok, raise, from_option, graph_compile_error, not, ◌&&◌, ◌==◌,
}
use multi_agent_orchestratio.Base.Dict.{Dict, update, get_or, lookup, insert}
use multi_agent_orchestratio.Core.Edges.{
  Routed, Send, Counters, GraphEdge, direct, conditional, parallel, resolve,
}
use multi_agent_orchestratio.Core.Nodes.{GraphNode, execute_node}
use multi_agent_orchestratio.Core.Compiled.{Values, CompiledGraph, Machine, edge_map}
use multi_agent_orchestratio.Core.Compiled.EdgeMap.{get_or-edge_map, All-select}
use multi_agent_orchestratio.Core.Compiled.Exec.{Exec, gets, lift, return, ◌>>=◌}
use multi_agent_orchestratio.Core.Compiled.Hoare.{
  Yields, Returned, Yields-return, Yields-lift, Yields-if, Yields-modify, Yields-bind, Yields-given,
}
use multi_agent_orchestratio.Core.Compiled.Next.{
  resolve_next, follow, follow_edge, follow_conditional, follow_handoffs, apply_update,
}
use multi_agent_orchestratio.Core.Compiled.Loop.{
  Outcome, done, interrupted_at, leave, go, enter, record_execution, interrupt_before,
  interrupt_after, advance, run_node, visit, turn, loop, finish, try_loop, marked, run_loop, run,
  is_stop, name_of, validate_state, fresh, or_text, or_empty,
}
use multi_agent_orchestratio.Storage.Events.{
  InterruptType, node_started_event, node_completed_event, interrupt_requested_event,
  execution_started_event, execution_completed_event, before, after, completed,
}
use multi_agent_orchestratio.Storage.Store.{Store, project_event, project_state}
use multi_agent_orchestratio.Core.Compiled.Projects.{
  Projects, emit-Yields, checkpoint-Yields, resolve_path-sends, after_condition-Returned, Agrees,
  StepAgrees, lookup-marked,
}

module _ {V : Type 0} where
  -- The edges after which the state is as it was: a plain edge, and a condition that never fans out
  -- by `Send`.
  abbrev pub KeepsState : GraphEdge V → Type 0
  KeepsState (direct edge) = Unit
  KeepsState (conditional edge) =
      (state : Dict V) (counters : Counters) (send : Send V) (sends : List (Send V))
      → (edge.condition state counters).0 ≢ ok (Routed.sends send sends)
  KeepsState (parallel edge) = ⊥

  -- A plain dict as the state, and only such edges.
  pub record IsSequential (graph : CompiledGraph V) : Type 0 where
    pub plain : graph.state_schema ≡ none
    pub edges_keep : All KeepsState graph.edges
    pub no_handoffs : graph.handoff_edges ≡ []

  module _ (values : Values V) (graph : CompiledGraph V) (sequential : IsSequential graph) where
    follow_edge-Yields :
        (edge : GraphEdge V) (state : Dict V)
        → KeepsState edge
        → Yields
            (Projects state)
            (λ next m. (next.1 ≡ state) × Projects state m)
            (follow_edge values graph edge state)
    unfolding follow_edge
    follow_edge-Yields (direct edge) state keeps = Yields-return _ (λ m p. (refl, p))
    follow_edge-Yields (conditional edge) state keeps =
        unfold follow_conditional Projects in
        record {
          at = λ m p.
              let counters = m.context.loop_counters in
              let state_dict = insert "__loop_counters__" (values.of_counters counters) state in
              after_condition-Returned graph _ state _
                (resolve values.dumps edge state_dict counters).0
                (unfold resolve in
                  resolve_path-sends values.dumps edge.path_map
                    (edge.condition state_dict counters).0 (keeps state_dict counters))
                p;
        }
    follow_edge-Yields (parallel edge) state keeps = absurd keeps

    follow-Yields :
        (current : String) (edges : List (GraphEdge V)) (state : Dict V)
        → All KeepsState edges
        → Yields
            (Projects state)
            (λ next m. (next.1 ≡ state) × Projects state m)
            (follow values graph current edges state)
    unfolding follow follow_handoffs
    follow-Yields current [] state keeps =
        rw sequential.no_handoffs (Yields-return _ (λ m p. (refl, p)))
    follow-Yields current (edge ∷ edges) state keeps = follow_edge-Yields edge state keeps.0

    resolve_next-Yields :
        (current : String) (state : Dict V)
        → Yields
            (Projects state)
            (λ next m. (next.1 ≡ state) × Projects state m)
            (resolve_next values graph current state)
    unfolding resolve_next
    resolve_next-Yields current state =
        follow-Yields current (get_or current [] (edge_map graph.edges)) state (
          rw (get_or-edge_map current graph.edges)
            (All-select KeepsState current graph.edges sequential.edges_keep))

    abbrev Ends : Exec V (Outcome V) → Dict V → Type 0
    Ends action state = Yields (Projects state) Agrees action

    apply_update-plain :
        (state node_update : Dict V) {new_state : Dict V}
        → apply_update graph.state_schema state node_update ≡ ok new_state
        → new_state ≡ update state node_update
    unfolding apply_update update
    apply_update-plain state [] h = ground arith
    apply_update-plain state (item ∷ items) h =
        ground (arith, rw (sequential.plain, apply_update) at h)

    run_node-Yields :
        (name : String) (node : GraphNode V) (state : Dict V)
        → Yields
            (Projects state)
            (λ new_state m. Projects new_state m)
            (run_node values graph name node state)
    unfolding run_node record_execution Projects project_event
    run_node-Yields name node state =
        Yields-bind _ _ (emit-Yields (node_started_event name) state) λ _.
          Yields-bind _ _ (Yields-lift (execute_node node state)) λ node_update.
            Yields-bind {Q = λ _ m. Projects state m} _ _
              (Yields-modify (record_execution name) (λ m h. h.1))
              λ _.
                Yields-bind _ _ (Yields-lift (apply_update graph.state_schema state node_update))
                  λ new_state. Yields-given _ λ applied.
                    Yields-bind _ _ (emit-Yields (node_completed_event name node_update) state) λ _.
                      Yields-return new_state
                        (λ m h. h ∙ sym (apply_update-plain state node_update applied))

    interrupt_before-Yields :
        (name : String) (state : Dict V)
        → Yields (Projects state) StepAgrees (interrupt_before values graph name state)
    unfolding interrupt_before project_event Projects
    interrupt_before-Yields name state =
        Yields-bind _ _ (emit-Yields (interrupt_requested_event name before) state) λ _.
          Yields-bind _ _ (checkpoint-Yields name before state state)
            λ _. Yields-return _ (λ m h key other. ap (lookup key) h)

    interrupt_after-Yields :
        (name : String) (state : Dict V)
        → Yields (Projects state) StepAgrees (interrupt_after values graph name state)
    unfolding interrupt_after project_event Projects
    interrupt_after-Yields name state =
        let edges = get_or name [] (edge_map graph.edges) in
        Yields-bind _ _ (resolve_next-Yields name state) λ next. Yields-given _ λ _.
          Yields-bind {Q = λ _ m. Projects state m} _ _ (unfold gets in record { at = λ m h. h })
            λ counters.
              let state_dict = marked values graph edges counters state in
              Yields-bind _ _ (emit-Yields (interrupt_requested_event name after) state) λ _.
                Yields-bind _ _ (checkpoint-Yields (name_of values next.0) after state_dict state)
                  λ _. Yields-return _ (λ m h key other.
                    ap (lookup key) h
                    ∙ sym (lookup-marked values graph edges counters state key other))

    advance-Yields :
        (name : String) (state : Dict V)
        → Yields (Projects state) StepAgrees (advance values graph name state)
    unfolding advance
    advance-Yields name state =
        Yields-bind _ _ (resolve_next-Yields name state) λ next. Yields-return _ (λ m h. rw h.0 h.1)

    visit-Yields :
        (name : String) (node : GraphNode V) (state : Dict V)
        → Yields (Projects state) StepAgrees (visit values graph name node state)
    unfolding visit
    visit-Yields name node state = Yields-bind _ _ (run_node-Yields name node state) λ new_state.
        Yields-if node.interrupt_after _ _ (interrupt_after-Yields name new_state)
          (advance-Yields name new_state)

    turn-Yields :
        (current : Routed V) (state : Dict V) (bypass : Bool)
        → Yields (Projects state) StepAgrees (turn values graph current state bypass)
    unfolding turn Projects enter
    turn-Yields current state bypass =
        let name = name_of values current in
        Yields-bind {Q = λ _ m. Projects state m} _ _ (Yields-modify (enter name) (λ m h. h)) λ _.
          Yields-bind _ _ (Yields-lift (from_option graph_compile_error (lookup name graph.nodes)))
            λ node. Yields-given _ λ _.
              Yields-if (node.interrupt_before && not bypass) _ _
                (interrupt_before-Yields name state) (visit-Yields name node state)

    loop-Yields :
        (n : ℕ) (current : Routed V) (state : Dict V) (bypass : Bool)
        → Ends (loop values graph n current state bypass) state
    unfolding loop lift
    loop-Yields zero current state bypass =
        Yields-if (is_stop current) _ _ (Yields-return (done state) (λ m h. h))
          (record { at = λ m h. tt })
    loop-Yields (suc n) Routed.stop state bypass = Yields-return (done state) (λ m h. h)
    loop-Yields (suc n) current state bypass =
        Yields-bind _ _ (turn-Yields current state bypass) (elim [
          | leave outcome ↦ Yields-return outcome (λ m h. h)
          | go next new_state ↦ loop-Yields n next new_state false
        ])

    finish-Returned :
        (result : Result (Outcome V)) (m : Machine V)
        → Returned Agrees result m
        → Returned Agrees (finish values graph result m).0 (finish values graph result m).1
    unfolding finish project_event
    finish-Returned (ok (done state)) m h =
        (Yields-bind _ _ (emit-Yields (execution_completed_event state completed) state)
            (λ _. Yields-return (done state) (λ m p. p))).at
          m h
    finish-Returned (ok (interrupted_at state _ _ _)) m h = unfold return in h
    finish-Returned (raise e) m h = unfold lift ◌>>=◌ in tt

    run_loop-Yields :
        (current : Routed V) (state : Dict V) (bypass : Bool)
        → Ends (run_loop values graph current state bypass) state
    unfolding run_loop try_loop validate_state
    run_loop-Yields current state bypass =
        Yields-bind _ _ (Yields-lift (validate_state graph.state_schema state)) λ valid.
          Yields-given _ λ accepted.
            let same : state ≡ valid =
              ground (arith, rw (sequential.plain, validate_state) at accepted) in
            record {
              at = λ m h.
                  let left = graph.max_turns - m.context.turn_number in
                  let (result, m') = loop values graph left current valid bypass m in
                  finish-Returned result m'
                    ((loop-Yields left current valid bypass).at m (rw (← same) h));
            }

    run-Agrees :
        (run_id : String) (event_store : Option (Store V)) (start_at : Option String)
        (initial_state : Dict V) {outcome : Outcome V}
        → (run values graph run_id event_store start_at initial_state).0 ≡ ok outcome
        → Agrees outcome (run values graph run_id event_store start_at initial_state).1
    unfolding run Projects project_state project_event
    run-Agrees run_id event_store start_at initial_state {outcome} h =
        let started =
          execution_started_event (or_text graph.name "workflow") initial_state graph.entry_point in
        let start = Routed.text (or_text (or_empty start_at) graph.entry_point) in
        let yields =
          Yields-bind _ _ (emit-Yields started [])
            (λ _. run_loop-Yields start initial_state false) in
        rw h at (yields.at (fresh run_id event_store) refl)

    -- A run with neither a schema, parallel and handoff edges, nor fan-outs by `Send`, that
    -- completes, returns the state that `project_state` rebuilds from its events.
    pub run-project_state :
        (run_id : String) (event_store : Option (Store V)) (start_at : Option String)
        (initial_state : Dict V) {state : Dict V}
        → (run values graph run_id event_store start_at initial_state).0 ≡ ok (done state)
        → project_state (run values graph run_id event_store start_at initial_state).1.emitted []
          ≡ state
    unfolding Projects
    run-project_state run_id event_store start_at initial_state h =
        run-Agrees run_id event_store start_at initial_state h

    -- A run of such a workflow that is interrupted returns a state with the fields that
    -- `project_state` rebuilds from its events, but for the loop counters.
    pub lookup-project_state :
        (run_id : String) (event_store : Option (Store V)) (start_at : Option String)
        (initial_state : Dict V) {state : Dict V} {node_id : String} {kind : InterruptType}
        {next : Option String} (key : String)
        → (run values graph run_id event_store start_at initial_state).0
          ≡ ok (interrupted_at state node_id kind next)
        → ("__loop_counters__" == key) ≡ false
        → lookup key (
            project_state (run values graph run_id event_store start_at initial_state).1.emitted [])
          ≡ lookup key state
    lookup-project_state run_id event_store start_at initial_state key h other =
        run-Agrees run_id event_store start_at initial_state h key other
