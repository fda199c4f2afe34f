-- ===== src/Core/Graph/Loops.antt =====
-- How often a loop node is repeated.
use multi_agent_orchestratio.Base.{
  ℕ, suc, ◌+◌, ◌<◌, Bool, List, [], ◌∷◌, String, ok, ◌≡◌, arith, length, Bool-cases, inl, inr, leb,
}
use multi_agent_orchestratio.Base.Dict.{Dict, get_or, get_or-insert_self}
use multi_agent_orchestratio.Core.Edges.{Routed, Counters}
use multi_agent_orchestratio.Core.Graph.{loop_condition}

module _ {V : Type 0} (loop_id node_id : String) (max_iterations : ℕ)
    (condition : Dict V → Bool) where
  -- In each of these states, one after the other, the loop goes on.
  unfoldable pub Repeats : List (Dict V) → Counters → Type 0
  Repeats [] counters = Unit
  Repeats (state ∷ states) counters =
      let (result, counters') =
        loop_condition loop_id node_id max_iterations condition state counters in
      (result ≡ ok (Routed.text node_id)) × Repeats states counters'

  goes_on :
      (state : Dict V) (counters : Counters)
      → (loop_condition loop_id node_id max_iterations condition state counters).0
        ≡ ok (Routed.text node_id)
      → (get_or loop_id 0 counters + 1 < max_iterations)
        × (get_or loop_id 0
              (loop_condition loop_id node_id max_iterations condition state counters).1
            ≡ get_or loop_id 0 counters + 1)
  unfolding loop_condition
  goes_on state counters h =
      let count = get_or loop_id 0 counters + 1 in
      elim (Bool-cases (leb max_iterations count)) [
        | inl full ↦ cc (rw (full, loop_condition) at h)
        | inr room ↦ elim (Bool-cases (condition state)) [
          | inr ends ↦ cc (rw (room, ends, loop_condition) at h)
          | inl again ↦
              rw (room, again, loop_condition)
                (ground (arith, room), get_or-insert_self loop_id 0 count counters)
        ]
      ]

  -- A loop goes on at most so often in a row, whatever its condition says: with the rounds counted
  -- before, it stays below `max_iterations`.
  pub Repeats-length :
      (state : Dict V) (states : List (Dict V)) (counters : Counters)
      → Repeats (state ∷ states) counters
      → get_or loop_id 0 counters + suc (length states) < max_iterations
  unfolding Repeats
  Repeats-length state [] counters h = omega (arith, (goes_on state counters h.0).0)
  Repeats-length state (next ∷ states) counters h =
      let counters' = (loop_condition loop_id node_id max_iterations condition state counters).1 in
      omega (arith, (goes_on state counters h.0).1, Repeats-length next states counters' h.1)
