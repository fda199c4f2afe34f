-- ===== src/Core/Compiled/Bounds.antt =====
-- How many turns a run takes.
use multi_agent_orchestratio.Base.{
  ℕ, zero, suc, ◌+◌, ◌-◌, ◌≤◌, Option, [], ◌∷◌, String, ◌≡◌, refl, Bool, false, arith, length,
  length-append, raise, not, ◌&&◌, max_iterations_error, from_option, graph_compile_error,
}
use multi_agent_orchestratio.Base.Dict.{Dict, lookup}
use multi_agent_orchestratio.Storage.Store.{Store}
use multi_agent_orchestratio.Core.Nodes.{GraphNode, execute_node}
use multi_agent_orchestratio.Core.Edges.{Routed}
use multi_agent_orchestratio.Core.Compiled.{Values, CompiledGraph, Machine}
use multi_agent_orchestratio.Core.Compiled.Exec.{Exec, emit, modify, return, ◌>>=◌}
use multi_agent_orchestratio.Core.Compiled.Walk.{
  Respects, interrupt_before-Moves, interrupt_after-Moves, advance-Moves, finish-Moves,
}
use multi_agent_orchestratio.Core.Compiled.Rules.{
  Moves, IsPreorder, Moves-return, Moves-lift, Moves-then, Moves-if,
}
use multi_agent_orchestratio.Core.Compiled.Next.{apply_update}
use multi_agent_orchestratio.Core.Compiled.Loop.{
  leave, go, turn, visit, run_node, checkpoint, enter, record_execution, loop, try_loop, run_loop,
  run, done, is_stop, name_of, fresh, validate_state, or_text, or_empty,
}
use multi_agent_orchestratio.Storage.Events.{
  Body, InterruptType, node_started_event, node_completed_event, execution_started_event,
}

module _ {V : Type 0} where
  -- At most `turns` more turns and `visits` more executions.
  Spends : ℕ → ℕ → Machine V → Machine V → Type 0
  Spends turns visits m m' =
      (m'.context.turn_number ≤ m.context.turn_number + turns)
      × (length m'.context.node_execution_order ≤ length m.context.node_execution_order + visits)

  abbrev Quiet : Machine V → Machine V → Type 0
  Quiet m m' = Spends 0 0 m m'

  Spends-then :
      {A B : Type 0} (a b c d : ℕ) (action : Exec V A) (f : A → Exec V B)
      → Moves (Spends a b) action
      → ((x : A) → Moves (Spends c d) (f x))
      → Moves (Spends (a + c) (b + d)) (action >>= f)
  unfolding Spends
  Spends-then a b c d action f first steps =
      Moves-then {R = Spends a b} {S = Spends c d} {T = Spends (a + c) (b + d)} action f
        (λ l m n p q. omega arith) (λ l m p. omega arith) first steps

  weaken :
      {A : Type 0} (a b c d : ℕ) (action : Exec V A)
      → a ≤ c
      → b ≤ d
      → Moves (Spends a b) action
      → Moves (Spends c d) action
  unfolding Spends
  weaken a b c d action p q h = record { at = λ m. omega (arith, h.at m) }

  executed : (name : String) (m : Machine V) → Spends 0 1 m (record_execution name m)
  unfolding Spends record_execution
  executed name m = omega (arith, length-append m.context.node_execution_order (name ∷ []))

  Quiet-pre : IsPreorder Quiet
  unfolding Spends
  Quiet-pre = record { same = λ m. omega arith; compose = λ l m n p q. omega arith }

  emit-Quiet : (body : Body V) → Moves Quiet (emit body)
  unfolding Spends emit
  emit-Quiet body = record { at = λ m. omega arith }

  checkpoint-Quiet :
      (name : String) (kind : InterruptType) (state : Dict V)
      → Moves Quiet (checkpoint name kind state)
  unfolding Spends checkpoint ◌>>=◌
  checkpoint-Quiet name kind state = record { at = λ m. omega arith }

  modify-Spends :
      (turns visits : ℕ) (f : Machine V → Machine V)
      → ((m : Machine V) → Spends turns visits m (f m))
      → Moves (Spends turns visits) (modify f)
  unfolding modify
  modify-Spends turns visits f h = record { at = h }

  Quiet-respected : Respects Quiet
  unfolding Spends
  Quiet-respected = record {
    pre = Quiet-pre;
    emitting = emit-Quiet;
    saving = checkpoint-Quiet;
    counting = λ m counters. omega arith;
  }

  module _ (values : Values V) (graph : CompiledGraph V) where
    run_node-Spends :
        (name : String) (node : GraphNode V) (state : Dict V)
        → Moves (Spends 0 1) (run_node values graph name node state)
    unfolding run_node
    run_node-Spends name node state =
        Spends-then 0 0 0 1 _ _ (emit-Quiet (node_started_event name)) λ _.
          Spends-then 0 0 0 1 _ _ (Moves-lift Quiet-pre (execute_node node state)) λ node_update.
            Spends-then 0 1 0 0 _ _ (modify-Spends 0 1 (record_execution name) (executed name)) λ _.
              Spends-then 0 0 0 0 _ _
                (Moves-lift Quiet-pre (apply_update graph.state_schema state node_update))
                λ new_state.
                  Spends-then 0 0 0 0 _ _ (emit-Quiet (node_completed_event name node_update))
                    λ _. Moves-return Quiet-pre new_state

    visit-Spends :
        (name : String) (node : GraphNode V) (state : Dict V)
        → Moves (Spends 0 1) (visit values graph name node state)
    unfolding visit
    visit-Spends name node state =
        Spends-then 0 1 0 0 _ _ (run_node-Spends name node state) λ new_state.
          Moves-if node.interrupt_after _ _
            (interrupt_after-Moves Quiet-respected values graph name new_state)
            (advance-Moves Quiet-respected values graph name new_state)

    entered : (name : String) (m : Machine V) → Spends 1 0 m (enter name m)
    unfolding Spends enter
    entered name m = omega arith

    turn-Spends :
        (current : Routed V) (state : Dict V) (bypass : Bool)
        → Moves (Spends 1 1) (turn values graph current state bypass)
    unfolding turn
    turn-Spends current state bypass =
        let name = name_of values current in
        Spends-then 1 0 0 1 _ _ (modify-Spends 1 0 (enter name) (entered name)) λ _.
          Spends-then 0 0 0 1 _ _
            (Moves-lift Quiet-pre (from_option graph_compile_error (lookup name graph.nodes)))
            λ node.
              Moves-if (node.interrupt_before && not bypass) _ _
                (weaken 0 0 0 1 _ (omega arith) (omega arith)
                  (interrupt_before-Moves Quiet-respected values graph name state))
                (visit-Spends name node state)

    loop-Spends :
        (n : ℕ) (current : Routed V) (state : Dict V) (bypass : Bool)
        → Moves (Spends n n) (loop values graph n current state bypass)
    unfolding loop
    loop-Spends zero current state bypass =
        Moves-if (is_stop current) _ _ (Moves-return Quiet-pre (done state))
          (Moves-lift Quiet-pre (raise max_iterations_error))
    loop-Spends (suc n) Routed.stop state bypass =
        weaken 0 0 (suc n) (suc n) (return (done state)) (omega arith) (omega arith)
          (Moves-return Quiet-pre (done state))
    loop-Spends (suc n) current state bypass =
        weaken (1 + n) (1 + n) (suc n) (suc n) _ (omega arith) (omega arith) (
          Spends-then 1 1 n n _ _ (turn-Spends current state bypass) (elim [
            | leave outcome ↦
                weaken 0 0 n n (return outcome) (omega arith) (omega arith)
                  (Moves-return Quiet-pre outcome)
            | go next new_state ↦ loop-Spends n next new_state false
          ]))

    -- The loop starts with the turns that `max_turns` leaves, so a run of the loop whose context has
    -- not passed `max_turns` does not pass it, however it ends, and executes at most as many nodes.
    pub try_loop-turns :
        (current : Routed V) (state : Dict V) (bypass : Bool) (m : Machine V)
        → m.context.turn_number ≤ graph.max_turns
        → let m' = (try_loop values graph current state bypass m).1 in
          (m'.context.turn_number ≤ graph.max_turns)
          × (length m'.context.node_execution_order
              ≤ length m.context.node_execution_order + (graph.max_turns - m.context.turn_number))
    unfolding try_loop Spends
    try_loop-turns current state bypass m h =
        let left = graph.max_turns - m.context.turn_number in
        let (result, m') = loop values graph left current state bypass m in
        omega (
          arith,
          (loop-Spends left current state bypass).at m,
          (finish-Moves Quiet-respected values graph result).at m',
        )

    -- From turn 0 the bounds of the graph hold.
    Limited : Machine V → Machine V → Type 0
    Limited m m' = m.context.turn_number ≡ 0 → Spends graph.max_turns graph.max_turns m m'

    Limited-after :
        {A B : Type 0} (action : Exec V A) (f : A → Exec V B)
        → Moves Quiet action
        → ((a : A) → Moves Limited (f a))
        → Moves Limited (action >>= f)
    unfolding Limited Spends
    Limited-after action f first steps =
        Moves-then {R = Quiet} {S = Limited} {T = Limited} action f
          (λ l m n p q z. omega (arith, q (omega arith))) (λ l m p z. omega arith) first steps

    try_loop-Limited :
        (current : Routed V) (state : Dict V) (bypass : Bool)
        → Moves Limited (try_loop values graph current state bypass)
    unfolding Limited Spends
    try_loop-Limited current state bypass = record {
      at = λ m z. omega (arith, try_loop-turns current state bypass m (omega arith));
    }

    run_loop-Limited :
        (current : Routed V) (state : Dict V) (bypass : Bool)
        → Moves Limited (run_loop values graph current state bypass)
    unfolding run_loop
    run_loop-Limited current state bypass =
        Limited-after _ _ (Moves-lift Quiet-pre (validate_state graph.state_schema state))
          λ valid. try_loop-Limited current valid bypass

    -- A run takes at most `max_turns` turns, and its execution order, which has neither the targets of
    -- a parallel edge nor those of a Send, has at most `max_turns` nodes, whatever the nodes,
    -- conditions and reducers do and however it ends.
    pub run-turns :
        (run_id : String) (event_store : Option (Store V)) (start_at : Option String)
        (initial_state : Dict V)
        → let m = (run values graph run_id event_store start_at initial_state).1 in
          (m.context.turn_number ≤ graph.max_turns)
          × (length m.context.node_execution_order ≤ graph.max_turns)
    unfolding run Limited Spends
    run-turns run_id event_store start_at initial_state =
        let started =
          execution_started_event (or_text graph.name "workflow") initial_state graph.entry_point in
        let start = Routed.text (or_text (or_empty start_at) graph.entry_point) in
        let limited =
          Limited-after (emit started) _ (emit-Quiet started)
            (λ _. run_loop-Limited start initial_state false) in
        omega (arith, limited.at (fresh run_id event_store) refl)
