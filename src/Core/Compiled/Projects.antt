-- ===== src/Core/Compiled/Projects.antt =====
-- That the events so far replay to a state, for the actions that the turns are built from.
use multi_agent_orchestratio.Base.{
  Option, List, [], ◌∷◌, ◌++◌, String, ◌≡◌, ◌≢◌, refl, ◌∙◌, ap, arith, Bool, false, Result, ok,
  raise, bind, ◌==◌,
}
use multi_agent_orchestratio.Base.Dict.{Dict, lookup, lookup-insert_ne}
use multi_agent_orchestratio.Core.Edges.{
  Routed, Send, Counters, GraphEdge, direct, conditional, parallel, Target, resolve_path,
}
use multi_agent_orchestratio.Core.Compiled.{Values, CompiledGraph, Machine}
use multi_agent_orchestratio.Core.Compiled.Exec.{emit, ◌>>=◌}
use multi_agent_orchestratio.Core.Compiled.Hoare.{Yields, Returned}
use multi_agent_orchestratio.Core.Compiled.Next.{after_condition}
use multi_agent_orchestratio.Core.Compiled.Loop.{
  Outcome, done, interrupted_at, Step, leave, go, checkpoint, marked,
}
use multi_agent_orchestratio.Storage.Events.{Event, Body, InterruptType}
use multi_agent_orchestratio.Storage.Store.{project_event, project_from, project_state}

module _ {V : Type 0} where
  -- The events so far replay to the state.
  unfoldable pub Projects : Dict V → Machine V → Type 0
  Projects state m = project_state m.emitted [] ≡ state

  pub project_from-append :
      (given : Bool) (state : Dict V) (events : List (Event V)) (event : Event V)
      → project_from given state (events ++ event ∷ [])
        ≡ project_event given (project_from given state events) event.body
  unfolding project_from
  project_from-append given state [] event = refl
  project_from-append given state (first ∷ events) event =
      project_from-append given (project_event given state first.body) events event

  pub emit-Yields :
      (body : Body V) (state : Dict V)
      → Yields (Projects state) (λ _ m. Projects (project_event false state body) m) (emit body)
  unfolding Projects emit project_state
  emit-Yields body state = record {
    at = λ m h. project_from-append false [] m.emitted _ ∙ ap (λ s. project_event false s body) h;
  }

  pub checkpoint-Yields :
      (name : String) (kind : InterruptType) (saved state : Dict V)
      → Yields (Projects state) (λ _ m. Projects state m) (checkpoint name kind saved)
  unfolding Projects checkpoint ◌>>=◌
  checkpoint-Yields name kind saved state = record { at = λ m h. h }

  -- A path map does not make a fan-out.
  pub resolve_path-sends :
      (dumps : V → String) (path_map : Option (Dict Target)) (r : Result (Routed V))
      → ((send : Send V) (sends : List (Send V)) → r ≢ ok (Routed.sends send sends))
      → (send : Send V) (sends : List (Send V))
      → bind r (resolve_path dumps path_map) ≢ ok (Routed.sends send sends)
  unfolding resolve_path
  resolve_path-sends dumps path_map r h send sends = ground (arith, h send sends)

  pub after_condition-Returned :
      (graph : CompiledGraph V) (seen state : Dict V) (m : Machine V) (r : Result (Routed V))
      → ((send : Send V) (sends : List (Send V)) → r ≢ ok (Routed.sends send sends))
      → Projects state m
      → Returned
          (λ next m. (next.1 ≡ state) × Projects state m)
          (bind r (after_condition graph seen state))
          m
  unfolding after_condition
  after_condition-Returned graph seen state m (raise e) h p = tt
  after_condition-Returned graph seen state m (ok (Routed.sends send sends)) h p =
      absurd (h send sends refl)
  after_condition-Returned graph seen state m (ok _) h p = (refl, p)

  -- The events replay to what the loop returns; the state of an interrupt may have the loop counters
  -- besides.
  abbrev pub Agrees : Outcome V → Machine V → Type 0
  Agrees (done state) m = Projects state m
  Agrees (interrupted_at state _ _ _) m =
      (key : String)
      → ("__loop_counters__" == key) ≡ false
      → lookup key (project_state m.emitted []) ≡ lookup key state

  abbrev pub StepAgrees : Step V → Machine V → Type 0
  StepAgrees (leave outcome) m = Agrees outcome m
  StepAgrees (go _ state) m = Projects state m

  pub lookup-marked :
      (values : Values V) (graph : CompiledGraph V) (edges : List (GraphEdge V))
      (counters : Counters) (state : Dict V) (key : String)
      → ("__loop_counters__" == key) ≡ false
      → lookup key (marked values graph edges counters state) ≡ lookup key state
  unfolding marked
  lookup-marked values graph [] counters state key h = refl
  lookup-marked values graph (direct edge ∷ edges) counters state key h = refl
  lookup-marked values graph (parallel edge ∷ edges) counters state key h = refl
  lookup-marked values graph (conditional edge ∷ edges) counters state key h =
      lookup-insert_ne "__loop_counters__" key (values.of_counters counters) state h
