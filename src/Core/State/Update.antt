-- ===== src/Core/State/Update.antt =====
-- What `apply_state_update` does to each field.
use multi_agent_orchestratio.Base.{
  Error, ◌⊎◌, inl, inr, state_validation_error, reducer_error, raise, Option, none, some, [], ◌∷◌,
  String, ◌≡◌, Option-cases,
}
use multi_agent_orchestratio.Base.Dict.{Dict, lookup, insert}
use multi_agent_orchestratio.Core.State.{Schema, reduce, apply_items}

module _ {V : Type 0} where
  -- The value that a write leaves in a field: the new one, or what the reducer makes of the one that
  -- is there and the new one, in this order.
  abbrev pub written : Option (V → V → Option V) → V → V → Option V
  written none existing new = some new
  written (some reducer) existing new = reducer existing new

  -- The value of one field after one update: an absent key is left as it is.
  unfoldable pub updated : Dict (V → V → Option V) → String → Option V → Option V → Option V
  updated reducers key old none = old
  updated reducers key none (some new) = none
  updated reducers key (some existing) (some new) = written (lookup key reducers) existing new

  abbrev or_new : Dict (V → V → Option V) → String → Option V → Option V → Option V → Option V
  or_new reducers key old fresh none = fresh
  or_new reducers key old fresh (some new) = updated reducers key old (some new)

  -- Only the two state errors leave the loop.
  apply_items_errors :
      (reducers : Dict (V → V → Option V)) (state new_data update : Dict V) {e : Error}
      → apply_items reducers state new_data update ≡ raise e
      → (e ≡ state_validation_error) ⊎ (e ≡ reducer_error)
  unfolding apply_items
  apply_items_errors reducers state new_data [] h = cc
  apply_items_errors reducers state new_data ((k, v) ∷ items) h =
      elim (Option-cases (lookup k state)) [
        | inl missing ↦ inl (cc (rw (missing, apply_items) at h))
        | inr (existing, found) ↦ elim (Option-cases (reduce reducers k existing v)) [
          | inl failed ↦ inr (cc (rw (found, failed, apply_items) at h))
          | inr (merged, reduced) ↦
              apply_items_errors reducers state (insert k merged new_data) items
                (rw (found, reduced, apply_items) at h)
        ]
      ]

  -- Each field is validated on its own: a value that is there is taken, as it is or coerced to the
  -- field's type. Other keys may come in with their defaults.
  abbrev pub ValidatesBy : Schema V → (String → V → V) → Type 0
  ValidatesBy schema coerce =
      (d d' : Dict V) (key : String) (v : V)
      → schema.model_validate d ≡ some d'
      → lookup key d ≡ some v
      → lookup key d' ≡ some (coerce key v)
