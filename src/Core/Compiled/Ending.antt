-- ===== src/Core/Compiled/Ending.antt =====
-- The last event of a run tells how it ended.
use multi_agent_orchestratio.Base.{
  ℕ, zero, suc, ◌-◌, Bool, false, not, ◌&&◌, Option, none, some, List, [], ◌∷◌, ◌++◌, String,
  Result, ok, raise, last, from_option, graph_compile_error, ◌≡◌, refl, ap,
}
use multi_agent_orchestratio.Base.Dict.{Dict, lookup}
use multi_agent_orchestratio.Core.Edges.{Routed}
use multi_agent_orchestratio.Core.Nodes.{GraphNode}
use multi_agent_orchestratio.Core.Compiled.{Values, CompiledGraph, Machine}
use multi_agent_orchestratio.Core.Compiled.Exec.{Exec, emit, gets, lift, return, modify, ◌>>=◌}
use multi_agent_orchestratio.Core.Compiled.Hoare.{
  Yields, Returned, Yields-return, Yields-if, Yields-bind,
}
use multi_agent_orchestratio.Core.Compiled.Next.{resolve_next}
use multi_agent_orchestratio.Core.Compiled.Loop.{
  Outcome, done, interrupted_at, Step, leave, go, enter, checkpoint, interrupt_before,
  interrupt_after, advance, run_node, visit, turn, loop, finish, try_loop, is_stop, name_of,
}
use multi_agent_orchestratio.Storage.Events.{
  Event, Body, InterruptType, interrupt_requested_event, execution_completed_event, before, after,
  completed, failed,
}

module _ {V : Type 0} where
  abbrev pub body_of : Option (Event V) → Option (Body V)
  body_of none = none
  body_of (some event) = some event.body

  -- The body of the last event that was dispatched.
  abbrev pub last_body : Machine V → Option (Body V)
  last_body m = body_of (last m.emitted)

  -- The event that tells of a result.
  abbrev pub ending : Result (Outcome V) → Body V
  ending (ok (done state)) = execution_completed_event state completed
  ending (ok (interrupted_at _ name kind _)) = interrupt_requested_event name kind
  ending (raise _) = execution_completed_event [] failed

  last-append :
      (events : List (Event V)) (event : Event V) → last (events ++ event ∷ []) ≡ some event
  last-append [] event = refl
  last-append (first ∷ []) event = refl
  last-append (first ∷ second ∷ events) event = last-append (second ∷ events) event

  abbrev Anywhere : Machine V → Type 0
  Anywhere m = Unit

  abbrev LastIs : Body V → Machine V → Type 0
  LastIs body m = last_body m ≡ some body

  emit-LastIs : (body : Body V) → Yields Anywhere (λ _ m. LastIs body m) (emit body)
  unfolding emit
  emit-LastIs body = record { at = λ m h. ap body_of (last-append m.emitted _) }

  checkpoint-LastIs :
      (body : Body V) (name : String) (kind : InterruptType) (state : Dict V)
      → Yields (LastIs body) (λ _ m. LastIs body m) (checkpoint name kind state)
  unfolding checkpoint ◌>>=◌
  checkpoint-LastIs body name kind state = record { at = λ m h. h }

  -- An interrupt is announced; nothing is said of the other ways to end or go on.
  abbrev Announced : Outcome V → Machine V → Type 0
  Announced (done _) m = Unit
  Announced (interrupted_at _ name kind _) m = LastIs (interrupt_requested_event name kind) m

  abbrev StepAnnounced : Step V → Machine V → Type 0
  StepAnnounced (leave outcome) m = Announced outcome m
  StepAnnounced (go _ _) m = Unit

  -- Nothing is claimed of what an action returns.
  any_way : {A : Type 0} (action : Exec V A) → Yields Anywhere (λ _ m. Anywhere m) action
  any_way action = record { at = λ m h. returned (action m).0 (action m).1 }
    where
      returned : {A : Type 0} (r : Result A) (m : Machine V) → Returned (λ _ m. Anywhere m) r m
      returned (ok a) m = tt
      returned (raise e) m = tt

  module _ (values : Values V) (graph : CompiledGraph V) where
    interrupt_before-Announced :
        (name : String) (state : Dict V)
        → Yields Anywhere StepAnnounced (interrupt_before values graph name state)
    unfolding interrupt_before
    interrupt_before-Announced name state =
        Yields-bind _ _ (emit-LastIs (interrupt_requested_event name before)) λ _.
          Yields-bind _ _ (checkpoint-LastIs _ name before state) λ _. Yields-return _ (λ m h. h)

    interrupt_after-Announced :
        (name : String) (state : Dict V)
        → Yields Anywhere StepAnnounced (interrupt_after values graph name state)
    unfolding interrupt_after
    interrupt_after-Announced name state =
        Yields-bind _ _ (any_way (resolve_next values graph name state)) λ next.
          Yields-bind _ _ (any_way (gets (λ m. m.context.loop_counters))) λ counters.
            Yields-bind _ _ (emit-LastIs (interrupt_requested_event name after)) λ _.
              Yields-bind _ _ (checkpoint-LastIs _ (name_of values next.0) after _)
                λ _. Yields-return _ (λ m h. h)

    visit-Announced :
        (name : String) (node : GraphNode V) (state : Dict V)
        → Yields Anywhere StepAnnounced (visit values graph name node state)
    unfolding visit advance
    visit-Announced name node state =
        Yields-bind _ _ (any_way (run_node values graph name node state)) λ new_state.
          Yields-if node.interrupt_after _ _ (interrupt_after-Announced name new_state) (
            Yields-bind _ _ (any_way (resolve_next values graph name new_state))
              λ next. Yields-return _ (λ m h. tt))

    turn-Announced :
        (current : Routed V) (state : Dict V) (bypass : Bool)
        → Yields Anywhere StepAnnounced (turn values graph current state bypass)
    unfolding turn
    turn-Announced current state bypass =
        let name = name_of values current in
        Yields-bind _ _ (any_way (modify (enter name))) λ _.
          Yields-bind _ _
            (any_way (lift (from_option graph_compile_error (lookup name graph.nodes))))
            λ node.
              Yields-if (node.interrupt_before && not bypass) _ _
                (interrupt_before-Announced name state) (visit-Announced name node state)

    loop-Announced :
        (n : ℕ) (current : Routed V) (state : Dict V) (bypass : Bool)
        → Yields Anywhere Announced (loop values graph n current state bypass)
    unfolding loop lift
    loop-Announced zero current state bypass =
        Yields-if (is_stop current) _ _ (Yields-return (done state) (λ m h. tt))
          (record { at = λ m h. tt })
    loop-Announced (suc n) Routed.stop state bypass = Yields-return (done state) (λ m h. tt)
    loop-Announced (suc n) current state bypass =
        Yields-bind _ _ (turn-Announced current state bypass) (elim [
          | leave outcome ↦ Yields-return outcome (λ m h. h)
          | go next new_state ↦ loop-Announced n next new_state false
        ])

    finish-ending :
        (result : Result (Outcome V)) (m : Machine V)
        → Returned Announced result m
        → LastIs (ending (finish values graph result m).0) (finish values graph result m).1
    unfolding finish emit gets lift return ◌>>=◌
    finish-ending (ok (done state)) m h = ap body_of (last-append m.emitted _)
    finish-ending (ok (interrupted_at _ _ _ _)) m h = h
    finish-ending (raise e) m h = ap body_of (last-append (m.emitted ++ _ ∷ []) _)

    -- However the loop ends, the last event dispatched tells how: that the execution completed with
    -- the returned state, that it failed, or that the interrupt was requested which is returned.
    pub try_loop-ending :
        (current : Routed V) (state : Dict V) (bypass : Bool) (m : Machine V)
        → last_body (try_loop values graph current state bypass m).1
          ≡ some (ending (try_loop values graph current state bypass m).0)
    unfolding try_loop
    try_loop-ending current state bypass m =
        let left = graph.max_turns - m.context.turn_number in
        let (result, m') = loop values graph left current state bypass m in
        finish-ending result m' ((loop-Announced left current state bypass).at m tt)
