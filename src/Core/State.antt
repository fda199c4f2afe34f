-- ===== src/Core/State.antt =====
-- src/orchestra/core/state.py: the state engine with its reducers. A `WorkflowState` instance is
-- the dict that its `model_dump` gives. The values are any type `V`; what pydantic does is the
-- field `model_validate`, with `none` where it raises.
pub mod Update
pub mod Merge
use multi_agent_orchestratio.Base.{
  Option, none, some, List, [], ◌∷◌, String, Result, ok, raise, bind, from_option,
  state_validation_error, reducer_error,
}
use multi_agent_orchestratio.Base.Dict.{Dict, lookup, insert}

-- A reducer that raises gives `none`.
pub record Schema (V : Type 0) : Type 0 where
  pub reducers : Dict (V → V → Option V)
  pub model_validate : Dict V → Option (Dict V)

module _ {V : Type 0} where
  -- The branch of the loop body for a field that exists: its reducer, or last write wins.
  unfoldable pub reduce : Dict (V → V → Option V) → String → V → V → Option V
  reduce reducers key existing new = elim (lookup key reducers) [
    | none ↦ some new
    | some reducer ↦ reducer existing new
  ]

  -- The loop of `apply_state_update`: it reads `current_data` and writes `new_data`.
  unfoldable pub apply_items : Dict (V → V → Option V) → Dict V → Dict V → Dict V → Result (Dict V)
  apply_items reducers current_data new_data [] = ok new_data
  apply_items reducers current_data new_data ((key, value) ∷ items) =
      elim (lookup key current_data) [
        | none ↦ raise state_validation_error
        | some existing ↦ elim (reduce reducers key existing value) [
          | none ↦ raise reducer_error
          | some merged ↦ apply_items reducers current_data (insert key merged new_data) items
        ]
      ]

  unfoldable pub apply_state_update : Schema V → Dict V → Dict V → Result (Dict V)
  apply_state_update schema state update =
      bind (apply_items schema.reducers state state update)
        (λ new_data. from_option state_validation_error (schema.model_validate new_data))

  unfoldable pub merge_parallel_updates : Schema V → Dict V → List (Dict V) → Result (Dict V)
  merge_parallel_updates schema state [] = ok state
  merge_parallel_updates schema state (update ∷ updates) =
      bind (apply_state_update schema state update)
        (λ result. merge_parallel_updates schema result updates)
