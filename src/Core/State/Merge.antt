-- ===== src/Core/State/Merge.antt =====
-- What `merge_parallel_updates` makes of the updates of the branches of a fan-out.
use multi_agent_orchestratio.Base.{Option, none, some, List, [], ◌∷◌, String}
use multi_agent_orchestratio.Base.Dict.{Dict, lookup}
use multi_agent_orchestratio.Core.State.Update.{updated}

module _ {V : Type 0} where
  -- One field through a list of updates, in their order, and through the validation after each.
  unfoldable pub fold_field :
      Dict (V → V → Option V) → (String → V → V) → String → V → List (Dict V) → Option V
  fold_field reducers coerce key old [] = some old
  fold_field reducers coerce key old (update ∷ updates) =
      elim (updated reducers key (some old) (lookup key update)) [
        | none ↦ none
        | some value ↦ fold_field reducers coerce key (coerce key value) updates
      ]
