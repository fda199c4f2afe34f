-- ===== src/Core/Compiled/Next.antt =====
-- `_resolve_next`, `_execute_parallel` and `_execute_sends` of src/orchestra/core/compiled.py.
use multi_agent_orchestratio.Base.{
  Option, none, some, List, [], ◌∷◌, String, Result, ok, raise, bind, from_option, Bool, ◌==◌,
  if◌then◌else◌, key_error, agent_error,
}
use multi_agent_orchestratio.Base.Dict.{Dict, lookup, insert, update, get_or}
use multi_agent_orchestratio.Core.State.{Schema, apply_state_update, merge_parallel_updates}
use multi_agent_orchestratio.Core.Edges.{
  Send, Target, Routed, as_routed, GraphEdge, direct, conditional, parallel, ConditionalEdge,
  ParallelEdge, HandoffEdge, resolve,
}
use multi_agent_orchestratio.Core.Nodes.{GraphNode, execute_node}
use multi_agent_orchestratio.Core.Distill.{distill_context}
use multi_agent_orchestratio.Core.Compiled.{Values, CompiledGraph, edge_map}
use multi_agent_orchestratio.Core.Compiled.Exec.{Exec, return, lift, emit, ◌>>=◌, ◌>>◌}
use multi_agent_orchestratio.Storage.Events.{handoff_initiated_event}

module _ {V : Type 0} where
  -- The coroutines are built first, and a missing node is a `KeyError`; `gather` then runs each.
  unfoldable pub gather :
      Dict (GraphNode V) → List (String × Dict V) → Result (List (Result (Dict V)))
  unfolding execute_node
  gather nodes [] = ok []
  gather nodes ((name, state) ∷ tasks) =
      bind (from_option key_error (lookup name nodes))
        λ node. bind (gather nodes tasks) λ results. ok (execute_node node state ∷ results)

  -- `if errors: raise AgentError(...)`, and the updates otherwise.
  unfoldable pub updates_of : List (Result (Dict V)) → Result (List (Dict V))
  updates_of [] = ok []
  updates_of (raise e ∷ results) = raise agent_error
  updates_of (ok update ∷ results) = bind (updates_of results) (λ updates. ok (update ∷ updates))

  -- Without a schema the updates go into a copy of the dict.
  unfoldable pub update_all : Dict V → List (Dict V) → Dict V
  update_all state [] = state
  update_all state (u ∷ updates) = update_all (update state u) updates

  unfoldable pub merge_updates : Option (Schema V) → Dict V → List (Dict V) → Result (Dict V)
  unfolding update_all
  merge_updates none state updates = ok (update_all state updates)
  merge_updates (some schema) state updates = merge_parallel_updates schema state updates

  unfoldable pub execute_tasks : CompiledGraph V → Dict V → List (String × Dict V) → Result (Dict V)
  unfolding gather updates_of merge_updates
  execute_tasks graph state tasks =
      bind (gather graph.nodes tasks) λ results.
        bind (updates_of results) λ updates. merge_updates graph.state_schema state updates

  -- Each target of a parallel edge gets a copy of the state.
  unfoldable pub parallel_tasks : Dict V → List String → List (String × Dict V)
  parallel_tasks state_dict [] = []
  parallel_tasks state_dict (target ∷ targets) =
      (target, state_dict) ∷ parallel_tasks state_dict targets

  -- Each `Send` adds its own slice to the copy.
  unfoldable pub send_tasks : Dict V → List (Send V) → List (String × Dict V)
  send_tasks state_dict [] = []
  send_tasks state_dict (send ∷ sends) =
      (send.node, update state_dict send.state) ∷ send_tasks state_dict sends

  unfoldable pub execute_parallel : CompiledGraph V → ParallelEdge → Dict V → Result (Dict V)
  unfolding execute_tasks parallel_tasks
  execute_parallel graph edge state = execute_tasks graph state (parallel_tasks state edge.targets)

  unfoldable pub execute_sends : CompiledGraph V → List (Send V) → Dict V → Dict V → Result (Dict V)
  unfolding execute_tasks send_tasks
  execute_sends graph sends state_dict state =
      execute_tasks graph state (send_tasks state_dict sends)

  -- `if update:` the state takes it, by the reducers where there is a schema.
  unfoldable pub apply_update : Option (Schema V) → Dict V → Dict V → Result (Dict V)
  apply_update schema state [] = ok state
  apply_update none state (item ∷ items) = ok (update state (item ∷ items))
  apply_update (some schema) state (item ∷ items) = apply_state_update schema state (item ∷ items)

  unfoldable pub after_condition :
      CompiledGraph V → Dict V → Dict V → Routed V → Result (Routed V × Dict V)
  unfolding execute_sends
  after_condition graph state_dict state (Routed.sends send sends) =
      bind (execute_sends graph (send ∷ sends) state_dict state)
        (λ new_state. ok (Routed.stop, new_state))
  after_condition graph state_dict state result = ok (result, state)

  abbrev pub join_of : Option Target → Routed V
  join_of none = Routed.stop
  join_of (some target) = as_routed target

module _ {V : Type 0} (values : Values V) (graph : CompiledGraph V) where
  -- The condition reads the state with the counters in it, and its writes to them stay.
  unfoldable pub follow_conditional : ConditionalEdge V → Dict V → Exec V (Routed V × Dict V)
  unfolding resolve after_condition
  follow_conditional edge state m =
      let counters = m.context.loop_counters in
      let state_dict = insert "__loop_counters__" (values.of_counters counters) state in
      let (result, counters') = resolve values.dumps edge state_dict counters in
      let seen = insert "__loop_counters__" (values.of_counters counters') state_dict in
      (
        bind result (after_condition graph seen state),
        record m { context = record m.context { loop_counters = counters' } },
      )

  unfoldable pub follow_edge : GraphEdge V → Dict V → Exec V (Routed V × Dict V)
  unfolding follow_conditional execute_parallel
  follow_edge (direct edge) state = return (as_routed edge.target, state)
  follow_edge (conditional edge) state = follow_conditional edge state
  follow_edge (parallel edge) state = do
    new_state ← lift (execute_parallel graph edge state)
    return (join_of edge.join_node, new_state)

  abbrev pub condition_holds : HandoffEdge V → Dict V → Bool
  condition_holds edge state = elim edge.condition [ none ↦ Bool.true | some test ↦ test state ]

  -- The history that a handoff passes on.
  unfoldable pub history_of : HandoffEdge V → Dict V → List V
  history_of edge state =
      let messages = values.as_messages (lookup "messages" state) in
      if edge.distill then distill_context values.message_ops 500 3 messages else messages

  -- Without a schema the state is copied, and the update is never empty.
  unfoldable pub hand_off : HandoffEdge V → Dict V → Exec V (Routed V × Dict V)
  unfolding history_of apply_update
  hand_off edge state = do
    emit (handoff_initiated_event edge.source edge.target)
    let history = history_of edge state
    let payload = values.handoff_payload edge history
    new_state ← lift (
        apply_update graph.state_schema state
          (("handoff_payload", payload) ∷ ("messages", values.of_messages history) ∷ []))
    return (Routed.text edge.target, new_state)

  unfoldable pub follow_handoffs :
      String → List (HandoffEdge V) → Dict V → Exec V (Routed V × Dict V)
  unfolding hand_off
  follow_handoffs current [] state = return (Routed.stop, state)
  follow_handoffs current (edge ∷ edges) state =
      let later = follow_handoffs current edges state in
      if edge.source == current
      then (if condition_holds edge state then hand_off edge state else later)
      else later

  -- The first edge of the node decides; the handoff edges are tried where it has none.
  unfoldable pub follow : String → List (GraphEdge V) → Dict V → Exec V (Routed V × Dict V)
  unfolding follow_edge follow_handoffs
  follow current [] state = follow_handoffs current graph.handoff_edges state
  follow current (edge ∷ edges) state = follow_edge edge state

  unfoldable pub resolve_next : String → Dict V → Exec V (Routed V × Dict V)
  unfolding follow
  resolve_next current state = follow current (get_or current [] (edge_map graph.edges)) state
