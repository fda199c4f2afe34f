-- ===== src/Core/Compiled/Log.antt =====
-- The events of a run: their sequence numbers, and the store that subscribes to them.
use multi_agent_orchestratio.Base.{
  ℕ, Bool, suc, ◌+◌, ◌≤◌, Option, none, some, List, [], ◌∷◌, ◌++◌, String, ◌≡◌, refl, ◌∙◌, ap,
  arith, All, All-append,
}
use mathlib.Core.List.{append_assoc, append-nil}
use multi_agent_orchestratio.Base.Dict.{
  Dict, lookup, get_or, lookup-insert_self, get_or-insert_self,
}
use multi_agent_orchestratio.Core.Edges.{Routed}
use multi_agent_orchestratio.Core.Compiled.{Values, CompiledGraph, Machine}
use multi_agent_orchestratio.Core.Compiled.Exec.{emit, with_store, ◌>>=◌, ◌>>◌}
use multi_agent_orchestratio.Core.Compiled.Rules.{Moves, Moves-bind}
use multi_agent_orchestratio.Core.Compiled.Walk.{RespectsTurns, run_loop-Moves}
use multi_agent_orchestratio.Core.Compiled.Loop.{
  enter, record_execution, checkpoint, run_loop, run, resume_from, restored, fresh,
}
use multi_agent_orchestratio.Storage.Events.{Event, Body, Checkpoint, InterruptType}
use multi_agent_orchestratio.Storage.Store
use multi_agent_orchestratio.Storage.Store.{Store, append}

-- The number that `next_sequence` gives next.
abbrev pub next_of : String → Dict ℕ → ℕ
next_of run_id counters = elim (lookup run_id counters) [ none ↦ 0 | some last ↦ last + 1 ]

next_of-next_sequence :
    (run_id : String) (counters : Dict ℕ)
    → next_of run_id (Store.next_sequence run_id counters).1 ≡ suc (next_of run_id counters)
unfolding Store.next_sequence
next_of-next_sequence run_id counters =
    rw (lookup-insert_self run_id (next_of run_id counters) counters, next_of) (omega arith)

module _ {V : Type 0} where
  -- The sequence numbers rise strictly, from `low` on and below `high`.
  abbrev pub Rising : ℕ → List (Event V) → ℕ → Type 0
  Rising low [] high = low ≤ high
  Rising low (event ∷ events) high =
      (low ≤ event.sequence) × Rising (suc event.sequence) events high

  Rising-append :
      (low high : ℕ) (events : List (Event V)) (event : Event V)
      → event.sequence ≡ high
      → Rising low events high
      → Rising low (events ++ event ∷ []) (suc high)
  Rising-append low high [] event e h = omega arith
  Rising-append low high (first ∷ events) event e h =
      (h.0, Rising-append (suc first.sequence) high events event e h.1)

  Rising-wider :
      (low high high' : ℕ) (events : List (Event V))
      → high ≤ high'
      → Rising low events high
      → Rising low events high'
  Rising-wider low high high' [] le h = omega arith
  Rising-wider low high high' (first ∷ events) le h =
      (h.0, Rising-wider (suc first.sequence) high high' events le h.1)

  -- What a store, if there is one, has of a run.
  abbrev pub Stores : String → List (Event V) → Option (Store V) → Type 0
  Stores run_id events none = Unit
  Stores run_id events (some store) = get_or run_id [] store.events ≡ events

  -- The events that a run has dispatched are its own, their numbers rise from `low` on and stay
  -- below the next one, and the store has them, in order, behind what it had `before`.
  pub record IsLogged (run_id : String) (low : ℕ) (earlier : List (Event V)) (m : Machine V)
      : Type 0 where
    pub own : m.context.run_id ≡ run_id
    pub rising : Rising low m.emitted (next_of run_id m.sequence_counters)
    pub owned : All (λ (e : Event V). e.run_id ≡ run_id) m.emitted
    pub stored : Stores run_id (earlier ++ m.emitted) m.event_store

  module _ (run_id : String) (low : ℕ) (earlier : List (Event V)) where
    Keeps : Machine V → Machine V → Type 0
    Keeps m m' = IsLogged run_id low earlier m → IsLogged run_id low earlier m'

    Stores-append :
        (event : Event V) (events : List (Event V)) (store : Option (Store V))
        → event.run_id ≡ run_id
        → Stores run_id (earlier ++ events) store
        → Stores run_id (earlier ++ (events ++ event ∷ [])) (with_store (append event) store)
    unfolding append
    Stores-append event events none e h = tt
    Stores-append event events (some store) e h = simp e (
        get_or-insert_self run_id [] (get_or run_id [] store.events ++ event ∷ []) store.events
        ∙ ap (λ es. es ++ event ∷ []) h
        ∙ append_assoc earlier events (event ∷ []))

    Stores-save_checkpoint :
        (saved : Checkpoint V) (events : List (Event V)) (store : Option (Store V))
        → Stores run_id events store
        → Stores run_id events (with_store (Store.save_checkpoint saved) store)
    unfolding Store.save_checkpoint
    Stores-save_checkpoint saved events none h = tt
    Stores-save_checkpoint saved events (some store) h = h

    emit-Keeps : (body : Body V) → Moves Keeps (emit body)
    unfolding Keeps emit
    emit-Keeps body = record {
      at = λ m h.
          let event : Event V = record {
            run_id = m.context.run_id;
            sequence = (Store.next_sequence m.context.run_id m.sequence_counters).0;
            body = body;
          } in
          record {
            own = h.own;
            rising = rw h.own (
                rw (next_of-next_sequence run_id m.sequence_counters) (
                  Rising-append low (next_of run_id m.sequence_counters) m.emitted
                    (record event {
                      run_id = run_id;
                      sequence = (Store.next_sequence run_id m.sequence_counters).0;
                    })
                    (unfold Store.next_sequence in refl) h.rising));
            owned = All-append _ m.emitted (event ∷ []) h.owned (h.own, tt);
            stored = Stores-append event m.emitted m.event_store h.own h.stored;
          };
    }

    saving-Keeps :
        (name : String) (kind : InterruptType) (state : Dict V)
        → Moves Keeps (checkpoint name kind state)
    unfolding Keeps checkpoint ◌>>=◌
    saving-Keeps name kind state = record {
      at = λ m h. record {
        own = h.own;
        rising = rw h.own (
            rw (next_of-next_sequence run_id m.sequence_counters) (
              Rising-wider low (next_of run_id m.sequence_counters)
                (suc (next_of run_id m.sequence_counters)) m.emitted (omega arith) h.rising));
        owned = h.owned;
        stored = Stores-save_checkpoint _ (earlier ++ m.emitted) m.event_store h.stored;
      };
    }

    logged : RespectsTurns Keeps
    unfolding Keeps enter record_execution
    logged = record {
      steps = record {
        pre = record { same = λ m h. h; compose = λ l m n p q h. q (p h) };
        emitting = emit-Keeps;
        saving = saving-Keeps;
        counting = λ m counters h. record {
          own = h.own;
          rising = h.rising;
          owned = h.owned;
          stored = h.stored;
        };
      };
      entering =
          λ name m h. record { own = h.own; rising = h.rising; owned = h.owned; stored = h.stored };
      executing =
          λ name m h. record { own = h.own; rising = h.rising; owned = h.owned; stored = h.stored };
    }

    run_loop-IsLogged :
        (values : Values V) (graph : CompiledGraph V) (body : Body V) (current : Routed V)
        (state : Dict V) (bypass : Bool) (m : Machine V)
        → IsLogged run_id low earlier m
        → IsLogged run_id low earlier
            ((emit body >> run_loop values graph current state bypass) m).1
    unfolding Keeps
    run_loop-IsLogged values graph body current state bypass m h =
        (Moves-bind logged.steps.pre (emit body) _ (emit-Keeps body)
            (λ _. run_loop-Moves logged values graph current state bypass)).at
          m h

  -- The events of a run that starts on a store have the run's ID and strictly rising sequence
  -- numbers, and the store holds them in the order in which they were dispatched, behind the events
  -- that it had of that run before. This holds however the run ends.
  pub run-IsLogged :
      (values : Values V) (graph : CompiledGraph V) (run_id : String)
      (event_store : Option (Store V)) (start_at : Option String) (initial_state : Dict V)
      (earlier : List (Event V))
      → Stores run_id earlier event_store
      → IsLogged run_id 0 earlier (run values graph run_id event_store start_at initial_state).1
  unfolding run lookup
  run-IsLogged values graph run_id event_store start_at initial_state earlier h =
      run_loop-IsLogged run_id 0 earlier values graph _ _ _ _ (fresh run_id event_store) (record {
        own = refl;
        rising = omega arith;
        owned = tt;
        stored = rw (append-nil earlier) h;
      })

  -- The events of a resumed run have sequence numbers that rise strictly from behind the
  -- checkpoint's, and are stored behind the earlier events of the run.
  pub resume_from-IsLogged :
      (values : Values V) (graph : CompiledGraph V) (saved : Checkpoint V) (state_updates : Dict V)
      (store : Store V) (earlier : List (Event V))
      → get_or saved.run_id [] store.events ≡ earlier
      → IsLogged saved.run_id
          (suc saved.sequence_number)
          earlier
          (resume_from values graph saved state_updates (restored saved store)).1
  unfolding resume_from restored Store.set_sequence
  resume_from-IsLogged values graph saved state_updates store earlier h =
      run_loop-IsLogged saved.run_id (suc saved.sequence_number) earlier values graph _ _ _ _
        (restored saved store)
        (record {
          own = refl;
          rising =
              rw (lookup-insert_self saved.run_id saved.sequence_number [], next_of) (omega arith);
          owned = tt;
          stored = rw (append-nil earlier) h;
        })
