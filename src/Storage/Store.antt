-- ===== src/Storage/Store.antt =====
-- src/orchestra/storage/store.py: the in-memory event store, the sequence counters of the bus,
-- and `project_state`.
use mathlib.Core.Logic.{ite}
use multi_agent_orchestratio.Base.{
  ℕ, ◌+◌, Bool, true, false, Option, none, some, List, [], ◌∷◌, ◌++◌, String, if◌then◌else◌, ltb,
  select, any, last, truthy,
}
use multi_agent_orchestratio.Base.Dict.{Dict, lookup, insert, update, get_or}
use multi_agent_orchestratio.Storage.Events.{
  Event, EventType, EventType-discrete, Body, execution_started_event, execution_completed_event,
  node_completed_event, state_updated_event, checkpoint_created_event, Checkpoint, Status, running,
  completed, type_of,
}

-- `next_sequence`: the counter of a run starts at -1.
unfoldable pub next_sequence : String → Dict ℕ → ℕ × Dict ℕ
next_sequence run_id counters =
    let seq : ℕ = elim (lookup run_id counters) [ none ↦ 0 | some last ↦ last + 1 ] in
    (seq, insert run_id seq counters)

-- `set_sequence`.
unfoldable pub set_sequence : String → ℕ → Dict ℕ → Dict ℕ
set_sequence run_id seq counters = insert run_id seq counters

-- The metadata of a run; a field that was not set is `none`.
pub record RunMeta : Type 0 where
  pub workflow_name : Option String
  pub status : Option Status

pub record Store (V : Type 0) : Type 0 where
  pub events : Dict (List (Event V))
  pub checkpoints : Dict (List (Checkpoint V))
  pub run_meta : Dict RunMeta

abbrev pub empty_meta : RunMeta
empty_meta = record { workflow_name = none; status = none }

module _ {V : Type 0} where
  abbrev pub empty_store : Store V
  empty_store = record { events = []; checkpoints = []; run_meta = [] }

  -- The lifecycle branch of `append`: any `ExecutionCompleted` marks the run completed.
  unfoldable pub track : String → Body V → Dict RunMeta → Dict RunMeta
  track run_id (execution_started_event workflow_name _ _) run_meta =
      insert run_id (record { workflow_name = some workflow_name; status = some running }) run_meta
  track run_id (execution_completed_event _ _) run_meta =
      insert run_id (record (get_or run_id empty_meta run_meta) { status = some completed })
        run_meta
  track run_id _ run_meta = run_meta

  unfoldable pub append : Event V → Store V → Store V
  unfolding track
  append event store = record store {
    events = insert event.run_id (get_or event.run_id [] store.events ++ event ∷ []) store.events;
    run_meta = track event.run_id event.body store.run_meta;
  }

  -- `get_events`, with its two filters; an empty list of types filters nothing.
  unfoldable pub get_events : String → Option ℕ → List EventType → Store V → List (Event V)
  get_events run_id after_sequence event_types store =
      let events = get_or run_id [] store.events in
      let later : List (Event V) = elim after_sequence [
        | none ↦ events
        | some last ↦ select (λ e. ltb last e.sequence) events
      ] in
      elim event_types [
        | [] ↦ later
        | kind ∷ kinds ↦
            select
              (λ e.
                any (λ k. ite (EventType-discrete k (type_of e.body)) true false) (kind ∷ kinds))
              later
      ]

  unfoldable pub get_latest_checkpoint : String → Store V → Option (Checkpoint V)
  get_latest_checkpoint run_id store = last (get_or run_id [] store.checkpoints)

  unfoldable pub save_checkpoint : Checkpoint V → Store V → Store V
  save_checkpoint checkpoint store = record store {
    checkpoints =
        insert checkpoint.run_id (get_or checkpoint.run_id [] store.checkpoints ++ checkpoint ∷ [])
          store.checkpoints;
  }

  -- One round of the loop of `project_state`; `given` says that a nonempty `initial_state` was
  -- passed.
  unfoldable pub project_event : Bool → Dict V → Body V → Dict V
  project_event given state (execution_started_event _ initial_state _) =
      if given then state else initial_state
  project_event given state (checkpoint_created_event _ state_snapshot) = state_snapshot
  project_event given state (node_completed_event _ state_update) = update state state_update
  project_event given state (state_updated_event _ field_updates resulting_state) =
      if truthy resulting_state then resulting_state else update state field_updates
  project_event given state _ = state

  unfoldable pub project_from : Bool → Dict V → List (Event V) → Dict V
  unfolding project_event
  project_from given state [] = state
  project_from given state (event ∷ events) =
      project_from given (project_event given state event.body) events

  unfoldable pub project_state : List (Event V) → Dict V → Dict V
  unfolding project_from
  project_state events initial_state = project_from (truthy initial_state) initial_state events
