-- ===== src/Core/Compiled/Walk.antt =====
-- What every relation that respects the steps of the bus, the store and the counters gives of
-- the engine's actions: one walk through the code for all such relations.
use multi_agent_orchestratio.Base.{
  ℕ, Bool, false, zero, suc, ◌-◌, List, [], ◌∷◌, String, Result, ok, raise, ◌==◌, ◌&&◌, not,
  from_option, graph_compile_error, max_iterations_error,
}
use multi_agent_orchestratio.Base.Dict.{Dict, get_or, insert, lookup}
use multi_agent_orchestratio.Core.Edges.{
  Counters, GraphEdge, direct, conditional, parallel, ConditionalEdge, HandoffEdge, Routed, resolve,
}
use multi_agent_orchestratio.Core.Nodes.{GraphNode, execute_node}
use multi_agent_orchestratio.Core.Compiled.{Values, CompiledGraph, Machine, edge_map}
use multi_agent_orchestratio.Core.Compiled.Exec.{emit, modify}
use multi_agent_orchestratio.Core.Compiled.Rules.{
  Moves, IsPreorder, Moves-return, Moves-lift, Moves-bind, Moves-if, moves_rules,
}
use multi_agent_orchestratio.Core.Compiled.Next.{
  resolve_next, follow, follow_edge, follow_conditional, follow_handoffs, hand_off, condition_holds,
  apply_update,
}
use multi_agent_orchestratio.Core.Compiled.Loop.{
  Outcome, done, interrupted_at, leave, go, enter, record_execution, checkpoint, interrupt_before,
  interrupt_after, advance, run_node, visit, turn, loop, finish, try_loop, run_loop, is_stop,
  name_of, validate_state,
}
use multi_agent_orchestratio.Storage.Events.{
  Body, InterruptType, node_started_event, node_completed_event,
}

pub record Respects {V : Type 0} (R : Machine V → Machine V → Type 0) : Type 0 where
  pub pre : IsPreorder R
  pub emitting : (body : Body V) → Moves R (emit body)
  pub saving :
      (name : String) (kind : InterruptType) (state : Dict V) → Moves R (checkpoint name kind state)
  pub counting :
      (m : Machine V) (counters : Counters)
      → R m (record m { context = record m.context { loop_counters = counters } })

module _ {V : Type 0} {R : Machine V → Machine V → Type 0} (respects : Respects R)
    (values : Values V) (graph : CompiledGraph V) where
  hand_off-Moves :
      (edge : HandoffEdge V) (state : Dict V) → Moves R (hand_off values graph edge state)
  unfolding hand_off
  hand_off-Moves edge state = search (moves_rules, respects.emitting, respects.pre)

  follow_handoffs-Moves :
      (current : String) (edges : List (HandoffEdge V)) (state : Dict V)
      → Moves R (follow_handoffs values graph current edges state)
  unfolding follow_handoffs
  follow_handoffs-Moves current [] state = search (moves_rules, respects.pre)
  follow_handoffs-Moves current (edge ∷ edges) state =
      let later = follow_handoffs-Moves current edges state in
      Moves-if (edge.source == current) _ _
        (Moves-if (condition_holds values graph edge state) _ _ (hand_off-Moves edge state) later)
        later

  follow_conditional-Moves :
      (edge : ConditionalEdge V) (state : Dict V)
      → Moves R (follow_conditional values graph edge state)
  unfolding follow_conditional
  follow_conditional-Moves edge state = record {
    at = λ m.
        respects.counting m
          (resolve values.dumps edge
            (insert "__loop_counters__" (values.of_counters m.context.loop_counters) state)
            m.context.loop_counters).1;
  }

  follow_edge-Moves :
      (edge : GraphEdge V) (state : Dict V) → Moves R (follow_edge values graph edge state)
  unfolding follow_edge
  follow_edge-Moves (direct edge) state = Moves-return respects.pre _
  follow_edge-Moves (conditional edge) state = follow_conditional-Moves edge state
  follow_edge-Moves (parallel edge) state = search (moves_rules, respects.pre)

  follow-Moves :
      (current : String) (edges : List (GraphEdge V)) (state : Dict V)
      → Moves R (follow values graph current edges state)
  unfolding follow
  follow-Moves current [] state = follow_handoffs-Moves current graph.handoff_edges state
  follow-Moves current (edge ∷ edges) state = follow_edge-Moves edge state

  resolve_next-Moves :
      (current : String) (state : Dict V) → Moves R (resolve_next values graph current state)
  unfolding resolve_next
  resolve_next-Moves current state =
      follow-Moves current (get_or current [] (edge_map graph.edges)) state

  pub interrupt_before-Moves :
      (name : String) (state : Dict V) → Moves R (interrupt_before values graph name state)
  unfolding interrupt_before
  interrupt_before-Moves name state =
      search (moves_rules, respects.pre, respects.emitting, respects.saving)

  pub interrupt_after-Moves :
      (name : String) (state : Dict V) → Moves R (interrupt_after values graph name state)
  unfolding interrupt_after
  interrupt_after-Moves name state =
      search (moves_rules, respects.pre, respects.emitting, respects.saving, resolve_next-Moves)

  pub advance-Moves : (name : String) (state : Dict V) → Moves R (advance values graph name state)
  unfolding advance
  advance-Moves name state = search (moves_rules, respects.pre, resolve_next-Moves)

  pub finish-Moves : (result : Result (Outcome V)) → Moves R (finish values graph result)
  unfolding finish
  finish-Moves (ok (done state)) = search (moves_rules, respects.pre, respects.emitting)
  finish-Moves (ok (interrupted_at state node kind next)) = search (moves_rules, respects.pre)
  finish-Moves (raise e) = search (moves_rules, respects.pre, respects.emitting)

-- The relation also holds of the steps that count a turn and record an execution.
pub record RespectsTurns {V : Type 0} (R : Machine V → Machine V → Type 0) : Type 0 where
  pub steps : Respects R
  pub entering : (name : String) (m : Machine V) → R m (enter name m)
  pub executing : (name : String) (m : Machine V) → R m (record_execution name m)

module _ {V : Type 0} {R : Machine V → Machine V → Type 0} (turns : RespectsTurns R)
    (values : Values V) (graph : CompiledGraph V) where
  modify-Moves : (f : Machine V → Machine V) → ((m : Machine V) → R m (f m)) → Moves R (modify f)
  unfolding modify
  modify-Moves f h = record { at = h }

  run_node-Moves :
      (name : String) (node : GraphNode V) (state : Dict V)
      → Moves R (run_node values graph name node state)
  unfolding run_node
  run_node-Moves name node state =
      let pre = turns.steps.pre in
      Moves-bind pre _ _ (turns.steps.emitting (node_started_event name)) λ _.
        Moves-bind pre _ _ (Moves-lift pre (execute_node node state)) λ node_update.
          Moves-bind pre _ _ (modify-Moves (record_execution name) (turns.executing name)) λ _.
            Moves-bind pre _ _ (Moves-lift pre (apply_update graph.state_schema state node_update))
              λ new_state.
                Moves-bind pre _ _ (turns.steps.emitting (node_completed_event name node_update))
                  λ _. Moves-return pre new_state

  visit-Moves :
      (name : String) (node : GraphNode V) (state : Dict V)
      → Moves R (visit values graph name node state)
  unfolding visit
  visit-Moves name node state =
      Moves-bind turns.steps.pre _ _ (run_node-Moves name node state) λ new_state.
        Moves-if node.interrupt_after _ _
          (interrupt_after-Moves turns.steps values graph name new_state)
          (advance-Moves turns.steps values graph name new_state)

  turn-Moves :
      (current : Routed V) (state : Dict V) (bypass : Bool)
      → Moves R (turn values graph current state bypass)
  unfolding turn
  turn-Moves current state bypass =
      let name = name_of values current in
      Moves-bind turns.steps.pre _ _ (modify-Moves (enter name) (turns.entering name)) λ _.
        Moves-bind turns.steps.pre _ _
          (Moves-lift turns.steps.pre (from_option graph_compile_error (lookup name graph.nodes)))
          λ node.
            Moves-if (node.interrupt_before && not bypass) _ _
              (interrupt_before-Moves turns.steps values graph name state)
              (visit-Moves name node state)

  loop-Moves :
      (n : ℕ) (current : Routed V) (state : Dict V) (bypass : Bool)
      → Moves R (loop values graph n current state bypass)
  unfolding loop
  loop-Moves zero current state bypass =
      Moves-if (is_stop current) _ _ (Moves-return turns.steps.pre (done state))
        (Moves-lift turns.steps.pre (raise max_iterations_error))
  loop-Moves (suc n) Routed.stop state bypass = Moves-return turns.steps.pre (done state)
  loop-Moves (suc n) current state bypass =
      Moves-bind turns.steps.pre _ _ (turn-Moves current state bypass) (elim [
        | leave outcome ↦ Moves-return turns.steps.pre outcome
        | go next new_state ↦ loop-Moves n next new_state false
      ])

  try_loop-Moves :
      (current : Routed V) (state : Dict V) (bypass : Bool)
      → Moves R (try_loop values graph current state bypass)
  unfolding try_loop
  try_loop-Moves current state bypass = record {
    at = λ m.
        let left = graph.max_turns - m.context.turn_number in
        let (result, m') = loop values graph left current state bypass m in
        turns.steps.pre.compose m m' (finish values graph result m').1
          ((loop-Moves left current state bypass).at m)
          ((finish-Moves turns.steps values graph result).at m');
  }

  pub run_loop-Moves :
      (current : Routed V) (state : Dict V) (bypass : Bool)
      → Moves R (run_loop values graph current state bypass)
  unfolding run_loop
  run_loop-Moves current state bypass =
      Moves-bind turns.steps.pre _ _
        (Moves-lift turns.steps.pre (validate_state graph.state_schema state))
        λ valid. try_loop-Moves current valid bypass
