-- ===== src/Core/Compiled/Exec.antt =====
-- Actions on the state of a run that may raise; what was written before a raise stays written.
use multi_agent_orchestratio.Base.{ℕ, Option, none, some, [], ◌∷◌, ◌++◌, Result, ok, raise}
use multi_agent_orchestratio.Core.Compiled.{Machine}
use multi_agent_orchestratio.Storage.Events.{Event, Body, Checkpoint}
use multi_agent_orchestratio.Storage.Store

abbrev pub Exec : Type 0 → Type 0 → Type 0
Exec V A = Machine V → Result A × Machine V

module _ {V A : Type 0} where
  unfoldable pub return : A → Exec V A
  return a m = (ok a, m)

  -- A result that is computed from the state and changes nothing.
  unfoldable pub lift : Result A → Exec V A
  lift r m = (r, m)

  unfoldable pub gets : (Machine V → A) → Exec V A
  gets f m = (ok (f m), m)

module _ {V A B : Type 0} where
  abbrev pub continue : Result A → (A → Exec V B) → Exec V B
  continue (ok a) f m = f a m
  continue (raise e) f m = (raise e, m)

  infixl 5 ◌>>=◌ ◌>>◌
  unfoldable pub ◌>>=◌ : Exec V A → (A → Exec V B) → Exec V B
  unfolding return lift gets
  ◌>>=◌ action f m = let (r, m') = action m in continue r f m'

  abbrev pub ◌>>◌ : Exec V A → Exec V B → Exec V B
  action >> next = action >>= λ _. next

module _ {V : Type 0} where
  unfoldable pub modify : (Machine V → Machine V) → Exec V Unit
  modify f m = (ok tt, f m)

  abbrev pub with_store :
      (Store.Store V → Store.Store V) → Option (Store.Store V) → Option (Store.Store V)
  with_store f none = none
  with_store f (some store) = some (f store)

  -- `event_bus.next_sequence(run_id)`.
  unfoldable pub next_sequence : Exec V ℕ
  next_sequence m =
      let (seq, counters) = Store.next_sequence m.context.run_id m.sequence_counters in
      (ok seq, record m { sequence_counters = counters })

  -- `event_bus.emit(Body(run_id=..., sequence=event_bus.next_sequence(...), ...))`.
  unfoldable pub emit : Body V → Exec V Unit
  emit body m =
      let (seq, counters) = Store.next_sequence m.context.run_id m.sequence_counters in
      let event : Event V = record { run_id = m.context.run_id; sequence = seq; body = body } in
      (
        ok tt,
        record m {
          sequence_counters = counters;
          emitted = m.emitted ++ event ∷ [];
          event_store = with_store (Store.append event) m.event_store;
        },
      )

  -- `if event_store: await event_store.save_checkpoint(checkpoint)`.
  unfoldable pub save_checkpoint : Checkpoint V → Exec V Unit
  save_checkpoint checkpoint m = (
    ok tt,
    record m { event_store = with_store (Store.save_checkpoint checkpoint) m.event_store },
  )
