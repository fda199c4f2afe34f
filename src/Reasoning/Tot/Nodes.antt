-- ===== src/Reasoning/Tot/Nodes.antt =====
-- What holds of the node that a search of src/orchestra/reasoning/tot.py returns.
use multi_agent_orchestratio.Base.{
  ℕ, suc, ◌+◌, ◌≤◌, ◌<◌, Bool, true, false, Option, none, some, List, [], ◌∷◌, ◌++◌, String, Result,
  ok, raise, ◌≡◌, refl, ap, inl, inr, arith, length, length-append, map, All, All-append, has_text,
  Bool-cases, ltb, ltb→lt,
}
use multi_agent_orchestratio.Base.Floats.{Floats}
use multi_agent_orchestratio.Core.Agent.Types.{TokenUsage, LlmResponse}
use multi_agent_orchestratio.Core.Agent.Messages.{add_usage}
use multi_agent_orchestratio.Reasoning.Tot.{
  ThoughtNode, root, chain, child_of, TextMethods, Request, final_prefix, impossible_threshold,
  evaluate_thought,
}
use multi_agent_orchestratio.Reasoning.Tot.Search.{
  collect, score, score_children, place_by, place, Level, better, Evaluation, Thoughts,
}

-- The thoughts from the problem down to the node are as many as its depth and one.
pub record IsPath (problem : String) (node : ThoughtNode) : Type 0 where
  pub from_problem : (rest : List String) × (chain node ≡ problem ∷ rest)
  pub counted : length (chain node) ≡ node.depth + 1

abbrev pub IsPromising : ThoughtNode → Type 0
IsPromising node = impossible_threshold < node.value

-- A path of at most the depth, whose last thought was not judged to be impossible.
pub record IsGood (problem : String) (max_depth : ℕ) (node : ThoughtNode) : Type 0 where
  pub path : IsPath problem node
  pub promising : IsPromising node
  pub shallow : node.depth ≤ max_depth

pub root-IsPath : (problem : String) → IsPath problem (root problem)
unfolding chain
root-IsPath problem = record { from_problem = ([], refl); counted = omega arith }

child_of-IsPath :
    (problem : String) (node : ThoughtNode) (thought : String)
    → IsPath problem node
    → IsPath problem (child_of (suc node.depth) node thought)
unfolding chain
child_of-IsPath problem node thought path = record {
  from_problem = (
    path.from_problem.0 ++ thought ∷ [],
    ap (λ above. above ++ thought ∷ []) path.from_problem.1,
  );
  counted =
      let longer = length-append (chain node) (thought ∷ []) in
      let before = path.counted in omega arith;
}

module _ (problem : String) where
  pub children-All :
      (P : ThoughtNode → Type 0) (depth : ℕ) (node : ThoughtNode) (thoughts : List String)
      → ((thought : String) → P (child_of depth node thought))
      → All P (map (child_of depth node) thoughts)
  children-All P depth node [] good = tt
  children-All P depth node (t ∷ thoughts) good = (good t, children-All P depth node thoughts good)

  -- A path to a node at the depth.
  abbrev pub IsAt : ℕ → ThoughtNode → Type 0
  IsAt depth node = IsPath problem node × (node.depth ≡ depth)

  -- A node of a level that the search goes on with.
  abbrev pub IsOpen : ℕ → ThoughtNode → Type 0
  IsOpen depth node = IsAt depth node × IsPromising node

  revalued :
      (depth v : ℕ) (node : ThoughtNode) → IsAt depth node → IsAt depth (record node { value = v })
  unfolding chain
  revalued depth v node (path, at) =
      (record { from_problem = path.from_problem; counted = path.counted }, at)

  pub marked :
      (depth : ℕ) (node : ThoughtNode)
      → IsAt depth node
      → IsAt depth (record node { is_terminal = true })
  unfolding chain
  marked depth node (path, at) =
      (record { from_problem = path.from_problem; counted = path.counted }, at)

  abbrev pub IsFresh : ℕ → ThoughtNode → Type 0
  IsFresh depth node = IsAt depth node × (node.is_terminal ≡ false)

  pub IsFresh-child :
      (depth : ℕ) (node : ThoughtNode) (thought : String)
      → IsAt depth node
      → IsFresh (suc depth) (child_of (suc depth) node thought)
  IsFresh-child depth node thought at =
      let same : suc node.depth ≡ suc depth = ap suc at.1 in
      ((rw (← at.1) (child_of-IsPath problem node thought at.0), refl), refl)

  abbrev pub OnOption : (ThoughtNode → Type 0) → Option ThoughtNode → Type 0
  OnOption P none = Unit
  OnOption P (some node) = P node

  pub better-On :
      (P : ThoughtNode → Type 0) (best : Option ThoughtNode) (node : ThoughtNode)
      → OnOption P best
      → P node
      → OnOption P (better best node)
  unfolding better
  better-On P none node old new = new
  better-On P (some best) node old new = elim (Bool-cases (ltb best.value node.value)) [
    | inl gt ↦ rw gt new
    | inr le ↦ rw le old
  ]

  module _ (𝓕 : Floats) where
    -- A terminal thought is promising.
    abbrev pub IsRated : ℕ → Evaluation 𝓕 → Type 0
    IsRated depth (raise e, node) = IsFresh depth node
    IsRated depth (ok (value, used), node) =
        IsAt depth node × (node.is_terminal ≡ true → impossible_threshold < value)

    module _ (Best : ThoughtNode → Type 0) (depth : ℕ)
        (best_of : (node : ThoughtNode) → IsOpen depth node → Best node) where
      abbrev pub IsSound : Level 𝓕 → Type 0
      IsSound level = OnOption Best level.best_terminal × All (IsOpen depth) level.scored

      place_by-IsSound :
          (terminal : Bool) (node : ThoughtNode) (level : Level 𝓕)
          → IsAt depth node
          → (terminal ≡ true → IsPromising node)
          → IsSound level
          → IsSound (place_by 𝓕 terminal node level)
      unfolding place_by
      place_by-IsSound true node level at final (best, scored) =
          (better-On Best level.best_terminal node best (best_of node (at, final refl)), scored)
      place_by-IsSound false node level at final (best, scored) =
          elim (Bool-cases (ltb impossible_threshold node.value)) [
            | inl gt ↦ rw gt (
              best,
              All-append (IsOpen depth) level.scored (node ∷ []) scored
                  ((at, ltb→lt _ node.value gt), tt),
            )
            | inr le ↦ rw le (best, scored)
          ]

      place-IsSound :
          (node : ThoughtNode) (level : Level 𝓕)
          → IsAt depth node
          → (node.is_terminal ≡ true → IsPromising node)
          → IsSound level
          → IsSound (place 𝓕 node level)
      unfolding place
      place-IsSound node level = place_by-IsSound node.is_terminal node level

      pub score-IsSound :
          (results : List (Evaluation 𝓕)) (level : Level 𝓕)
          → All (IsRated depth) results
          → IsSound level
          → IsSound (score 𝓕 results level)
      unfolding score
      score-IsSound [] level rated sound = sound
      score-IsSound ((raise e, node) ∷ results) level rated sound =
          score-IsSound results _ rated.1 (
            place-IsSound (record node { value = 5 }) level (revalued depth 5 node rated.0.0)
              (λ _. omega arith) sound)
      score-IsSound ((ok (value, used), node) ∷ results) level rated sound =
          score-IsSound results _ rated.1 (
            place-IsSound (record node { value = value }) _ (revalued depth value node rated.0.0)
              rated.0.1 sound)

      pub score_children-IsSound :
          (results : List (Evaluation 𝓕)) (level : Level 𝓕)
          → All (IsRated depth) results
          → IsSound level
          → IsSound (score_children 𝓕 results level)
      unfolding score_children
      score_children-IsSound [] level rated sound = sound
      score_children-IsSound ((raise e, node) ∷ results) level rated sound =
          score_children-IsSound results _ rated.1 (
            sound.0,
            All-append (IsOpen depth) level.scored _ sound.1
                ((revalued depth 5 node rated.0.0, omega arith), tt),
          )
      score_children-IsSound ((ok (value, used), node) ∷ results) level rated sound =
          score_children-IsSound results _ rated.1 (
            place-IsSound (record node { value = value }) _ (revalued depth value node rated.0.0)
              rated.0.1 sound)

    pub collect-IsFresh :
        (depth : ℕ) (nodes : List ThoughtNode) (results : List (Thoughts 𝓕))
        (usage : TokenUsage 𝓕.F)
        → All (IsAt depth) nodes
        → All (IsFresh (suc depth)) (collect 𝓕 (suc depth) nodes results usage).0
    unfolding collect
    collect-IsFresh depth [] results usage at = tt
    collect-IsFresh depth (node ∷ nodes) [] usage at = tt
    collect-IsFresh depth (node ∷ nodes) (raise e ∷ results) usage at =
        collect-IsFresh depth nodes results usage at.1
    collect-IsFresh depth (node ∷ nodes) (ok (thoughts, used) ∷ results) usage at =
        All-append (IsFresh (suc depth)) (map (child_of (suc depth) node) thoughts) _
          (children-All (IsFresh (suc depth)) (suc depth) node thoughts
            (λ t. IsFresh-child depth node t at.0))
          (collect-IsFresh depth nodes results (add_usage 𝓕 usage (some used)) at.1)

    module _ {Args W : Type 0} (methods : TextMethods)
        (complete : Request → W → Result (LlmResponse 𝓕.F Args) × W) where
      read_value-IsRated :
          (depth : ℕ) (node : ThoughtNode) (value : Result (ℕ × TokenUsage 𝓕.F))
          → IsFresh depth node
          → IsRated depth (value, node)
      read_value-IsRated depth node (raise e) fresh = fresh
      read_value-IsRated depth node (ok (value, used)) fresh = (fresh.0, λ terminal. absurd (cc))

      pub evaluate_thought-IsRated :
          (depth : ℕ) (node : ThoughtNode) (world : W)
          → IsFresh depth node
          → IsRated depth (evaluate_thought 𝓕 methods complete problem node world).0
      unfolding evaluate_thought
      evaluate_thought-IsRated depth node world fresh =
          elim (Bool-cases (has_text final_prefix node.thought)) [
            | inl final ↦ rw final (marked depth node fresh.0, λ _. omega arith)
            | inr open_end ↦ rw open_end (read_value-IsRated depth node _ fresh)
          ]
