-- ===== src/Core/Compiled/Loop.antt =====
-- `_run_loop`, `run` and `resume` of src/orchestra/core/compiled.py. The state of a run with a schema
-- is the data of its `WorkflowState`. The while loop recurs on the turns that are left, which is
-- `max_turns` less the turn number. The environment's trace renderers, OTel and cost subscribers only
-- observe and are left out; a store with no `update_run_status` is meant, whose `AttributeError`
-- the code swallows.
use multi_agent_orchestratio.Base.{
  ℕ, zero, suc, ◌+◌, ◌-◌, Option, none, some, List, [], ◌∷◌, ◌++◌, String, Result, ok, raise,
  from_option, Bool, true, false, not, ◌&&◌, ◌==◌, if◌then◌else◌, graph_compile_error,
  max_iterations_error, validation_error, agent_error,
}
use multi_agent_orchestratio.Base.Dict.{Dict, lookup, get_or, insert, update}
use multi_agent_orchestratio.Core.State.{Schema}
use multi_agent_orchestratio.Core.Edges.{Routed, Counters, GraphEdge, conditional}
use multi_agent_orchestratio.Core.Nodes.{GraphNode, execute_node}
use multi_agent_orchestratio.Core.Compiled.{Values, CompiledGraph, Machine, edge_map}
use multi_agent_orchestratio.Core.Compiled.Exec.{
  Exec, return, lift, gets, modify, next_sequence, emit, save_checkpoint, ◌>>=◌, ◌>>◌,
}
use multi_agent_orchestratio.Core.Compiled.Next.{resolve_next, apply_update}
use multi_agent_orchestratio.Storage.Events.{
  Checkpoint, InterruptType, before, after, completed, failed, execution_started_event,
  execution_completed_event, node_started_event, node_completed_event, error_occurred_event,
  interrupt_requested_event, interrupt_resumed_event,
}
use multi_agent_orchestratio.Storage.Store.{Store, set_sequence, get_latest_checkpoint}

-- What `_run_loop` returns: the final state, or the state with the metadata of an interrupt.
pub data Outcome (V : Type 0) : Type 0 where
  done : Dict V → Outcome V
  -- state, interrupted_at, interrupt_type, next_node
  interrupted_at : Dict V → String → InterruptType → Option String → Outcome V

-- `a or b` on texts, where None is as good as "".
abbrev pub or_text : String → String → String
or_text a b = if a == "" then b else a

abbrev pub or_empty : Option String → String
or_empty none = ""
or_empty (some a) = a

-- One round of the loop returns from it, or goes on with a node and a state.
pub data Step (V : Type 0) : Type 0 where
  leave : Outcome V → Step V
  go : Routed V → Dict V → Step V

abbrev pub is_before : InterruptType → Bool
is_before before = true
is_before after = false

module _ {V : Type 0} where
  -- `str(current_node_id)`.
  abbrev pub name_of : Values V → Routed V → String
  name_of values (Routed.text name) = name
  name_of values Routed.stop = "END"
  name_of values (Routed.scalar value) = values.show value
  name_of values (Routed.sends send sends) = values.show_sends (send ∷ sends)
  name_of values (Routed.other value) = values.show value

  abbrev pub is_stop : Routed V → Bool
  is_stop Routed.stop = true
  is_stop _ = false

  unfoldable pub enter : String → Machine V → Machine V
  enter name m = record m {
    context = record m.context { turn_number = m.context.turn_number + 1; node_id = name };
  }

  unfoldable pub record_execution : String → Machine V → Machine V
  record_execution name m = record m {
    context = record m.context {
      node_execution_order = m.context.node_execution_order ++ name ∷ [];
    };
  }

  -- `Checkpoint.create(...)` at the next sequence number, and its save.
  unfoldable pub checkpoint : String → InterruptType → Dict V → Exec V Unit
  unfolding save_checkpoint next_sequence
  checkpoint node_id interrupt_type state = do
    sequence_number ← next_sequence
    context ← gets (λ m. m.context)
    save_checkpoint (record {
      run_id = context.run_id;
      sequence_number = sequence_number;
      node_id = node_id;
      interrupt_type = interrupt_type;
      state = state;
      loop_counters = context.loop_counters;
      node_execution_order = context.node_execution_order;
    })

  unfoldable pub validate_state : Option (Schema V) → Dict V → Result (Dict V)
  validate_state none state = ok state
  validate_state (some schema) state = from_option validation_error (schema.model_validate state)

  abbrev pub fresh : String → Option (Store V) → Machine V
  fresh run_id event_store = record {
    context = record {
      run_id = run_id;
      turn_number = 0;
      node_id = "";
      loop_counters = [];
      node_execution_order = [];
    };
    sequence_counters = [];
    emitted = [];
    event_store = event_store;
  }

  -- The context and the bus that `resume` builds from a checkpoint.
  unfoldable pub restored : Checkpoint V → Store V → Machine V
  restored saved event_store = record {
    context = record {
      run_id = saved.run_id;
      turn_number = 0;
      node_id = "";
      loop_counters = saved.loop_counters;
      node_execution_order = saved.node_execution_order;
    };
    sequence_counters = set_sequence saved.run_id saved.sequence_number [];
    emitted = [];
    event_store = some event_store;
  }

module _ {V : Type 0} (values : Values V) (graph : CompiledGraph V) where
  unfoldable pub interrupt_before : String → Dict V → Exec V (Step V)
  unfolding checkpoint emit
  interrupt_before name state = do
    emit (interrupt_requested_event name before)
    checkpoint name before state
    return (leave (interrupted_at state name before none))

  -- What `_resolve_next` leaves in the dict that it is given: a conditional edge writes the counters
  -- into it.
  unfoldable pub marked : List (GraphEdge V) → Counters → Dict V → Dict V
  marked (conditional edge ∷ edges) counters state_dict =
      insert "__loop_counters__" (values.of_counters counters) state_dict
  marked _ counters state_dict = state_dict

  -- The next node is resolved before the interrupt; the state that it gives is dropped.
  unfoldable pub interrupt_after : String → Dict V → Exec V (Step V)
  unfolding checkpoint emit resolve_next marked
  interrupt_after name state = do
    next ← resolve_next values graph name state
    counters ← gets (λ m. m.context.loop_counters)
    let state_dict = marked (get_or name [] (edge_map graph.edges)) counters state
    emit (interrupt_requested_event name after)
    checkpoint (name_of values next.0) after state_dict
    return (leave (interrupted_at state_dict name after (some (name_of values next.0))))

  unfoldable pub advance : String → Dict V → Exec V (Step V)
  unfolding resolve_next
  advance name state = do next ← resolve_next values graph name state; return (go next.0 next.1)

  -- From NodeStarted to NodeCompleted.
  unfoldable pub run_node : String → GraphNode V → Dict V → Exec V (Dict V)
  unfolding emit execute_node apply_update record_execution
  run_node name node state = do
    emit (node_started_event name)
    node_update ← lift (execute_node node state)
    modify (record_execution name)
    new_state ← lift (apply_update graph.state_schema state node_update)
    emit (node_completed_event name node_update)
    return new_state

  unfoldable pub visit : String → GraphNode V → Dict V → Exec V (Step V)
  unfolding run_node interrupt_after advance
  visit name node state = do
    new_state ← run_node name node state
    if node.interrupt_after then interrupt_after name new_state else advance name new_state

  -- The body of the while loop.
  unfoldable pub turn : Routed V → Dict V → Bool → Exec V (Step V)
  unfolding enter visit interrupt_before
  turn current state bypass = do
    let name = name_of values current
    modify (enter name)
    node ← lift (from_option graph_compile_error (lookup name graph.nodes))
    if node.interrupt_before && not bypass
        then interrupt_before name state
        else visit name node state

  -- The while loop, with the test that follows it.
  unfoldable pub loop : ℕ → Routed V → Dict V → Bool → Exec V (Outcome V)
  loop zero current state bypass =
      if is_stop current then return (done state) else lift (raise max_iterations_error)
  loop (suc turns_left) current state bypass = elim (is_stop current) [
    | true ↦ return (done state)
    | false ↦ turn current state bypass >>= λ step. elim step [
      | leave outcome ↦ return outcome
      | go next new_state ↦ loop turns_left next new_state false
    ]
  ]

  -- What follows the try block: the final events, for each way that the loop ends.
  unfoldable pub finish : Result (Outcome V) → Exec V (Outcome V)
  unfolding emit
  finish (ok (done state)) = do
    emit (execution_completed_event state completed)
    return (done state)
  finish (ok (interrupted_at state node kind next)) = return (interrupted_at state node kind next)
  finish (raise e) = do
    node_id ← gets (λ m. m.context.node_id)
    emit (error_occurred_event node_id e)
    emit (execution_completed_event [] failed)
    lift (raise e)

  unfoldable pub try_loop : Routed V → Dict V → Bool → Exec V (Outcome V)
  unfolding finish
  try_loop current state bypass m =
      let (result, m') = loop (graph.max_turns - m.context.turn_number) current state bypass m in
      finish result m'

  -- A state that the schema refuses raises before the try block.
  unfoldable pub run_loop : Routed V → Dict V → Bool → Exec V (Outcome V)
  unfolding try_loop validate_state
  run_loop current state_dict bypass = do
    state ← lift (validate_state graph.state_schema state_dict)
    try_loop current state bypass

  -- `run` with a run ID and a store given, from a fresh context.
  unfoldable pub run :
      String → Option (Store V) → Option String → Dict V → Result (Outcome V) × Machine V
  unfolding run_loop emit
  run run_id event_store start_at initial_state =
      (do
        emit (
            execution_started_event (or_text graph.name "workflow") initial_state graph.entry_point)
        run_loop (Routed.text (or_text (or_empty start_at) graph.entry_point)) initial_state false)
        (fresh run_id event_store)

  unfoldable pub resume_from : Checkpoint V → Dict V → Exec V (Outcome V)
  unfolding run_loop emit
  resume_from saved state_updates = do
    emit (interrupt_resumed_event saved.node_id state_updates)
    run_loop (Routed.text saved.node_id) (update saved.state state_updates)
        (is_before saved.interrupt_type)

  -- A run with no checkpoint is refused before any event.
  unfoldable pub resume : String → Dict V → Store V → Result (Result (Outcome V) × Machine V)
  unfolding resume_from restored
  resume run_id state_updates event_store = elim (get_latest_checkpoint run_id event_store) [
    | none ↦ raise agent_error
    | some saved ↦ ok (resume_from saved state_updates (restored saved event_store))
  ]
