-- ===== src/Reasoning/Tot/Found.antt =====
-- Which node the searches of src/orchestra/reasoning/tot.py return.
use multi_agent_orchestratio.Base.{
  ℕ, zero, suc, ◌+◌, ◌≤◌, Option, none, some, List, [], ◌∷◌, String, Result, refl, arith, All,
  All-mono, take-All,
}
use multi_agent_orchestratio.Base.Floats.{Floats}
use multi_agent_orchestratio.Base.Sorting.{sort_descending-All, max_by-All}
use multi_agent_orchestratio.Core.Agent.Types.{TokenUsage, LlmResponse}
use multi_agent_orchestratio.Core.Agent.Messages.{no_usage}
use multi_agent_orchestratio.Reasoning.Tot.{ThoughtNode, root, TextMethods, Request, TotAgent}
use multi_agent_orchestratio.Reasoning.Tot.Search.{
  Level, expand, search_levels, bfs, Found, choose, end_level, best_leaf,
}
use multi_agent_orchestratio.Reasoning.Tot.Results.{gather_all-All}
use multi_agent_orchestratio.Reasoning.Tot.Nodes.{
  IsGood, root-IsPath, IsAt, IsOpen, IsFresh, OnOption, IsSound, score-IsSound, collect-IsFresh,
  evaluate_thought-IsRated, IsRated, marked,
}

module _ (𝓕 : Floats) {Args W : Type 0} (methods : TextMethods)
    (complete : Request → W → Result (LlmResponse 𝓕.F Args) × W) (agent : TotAgent)
    (problem : String) where
  abbrev LevelSound : ℕ → Level 𝓕 → Type 0
  LevelSound depth = IsSound problem 𝓕 (IsOpen problem depth) depth (λ _ h. h)

  expand-IsSound :
      (depth : ℕ) (frontier : List ThoughtNode) (usage : TokenUsage 𝓕.F) (world : W)
      → All (IsOpen problem depth) frontier
      → LevelSound
          (suc depth)
          (expand 𝓕 methods complete agent problem (suc depth) frontier usage world).0.1
  unfolding expand
  expand-IsSound depth frontier usage world good =
      score-IsSound problem 𝓕 (IsOpen problem (suc depth)) (suc depth) (λ _ h. h) _ _
        (gather_all-All _ (IsRated problem 𝓕 (suc depth)) (IsFresh problem (suc depth))
          (λ node at fresh.
            evaluate_thought-IsRated problem 𝓕 methods complete (suc depth) node at fresh)
          _ _
          (collect-IsFresh problem 𝓕 depth frontier _ usage
            (All-mono (IsOpen problem depth) (IsAt problem depth) (λ n h. h.0) frontier good)))
        (tt, tt)

  best_leaf-On :
      (depth : ℕ) (frontier : List ThoughtNode)
      → All (IsOpen problem depth) frontier
      → OnOption problem (IsOpen problem depth) (best_leaf frontier)
  unfolding best_leaf
  best_leaf-On depth [] good = tt
  best_leaf-On depth (leaf ∷ leaves) good =
      let best = max_by-All (λ n. n.value) (IsOpen problem depth) leaf leaves good.0 good.1 in
      (marked problem depth _ best.0, best.1)

  -- A node that the search may return, with the depth that it may have.
  abbrev IsAnswer : Option ThoughtNode → Type 0
  IsAnswer = OnOption problem (IsGood problem agent.tot_max_depth)

  good_of :
      (depth : ℕ) (found : Option ThoughtNode)
      → depth ≤ agent.tot_max_depth
      → OnOption problem (IsOpen problem depth) found
      → IsAnswer found
  good_of depth none le open_node = tt
  good_of depth (some node) le open_node =
      let at = open_node.0.1 in
      record { path = open_node.0.0; promising = open_node.1; shallow = omega arith }

  choose-IsAnswer :
      (depth : ℕ) (next : List ThoughtNode → TokenUsage 𝓕.F → W → Found 𝓕 × W)
      (best : Option ThoughtNode) (frontier : List ThoughtNode) (usage : TokenUsage 𝓕.F) (world : W)
      → depth ≤ agent.tot_max_depth
      → OnOption problem (IsOpen problem depth) best
      → IsAnswer (next frontier usage world).0.0
      → IsAnswer (choose 𝓕 methods complete agent problem next best frontier usage world).0.0
  unfolding choose
  choose-IsAnswer depth next (some best) frontier usage world le good later =
      good_of depth (some best) le good
  choose-IsAnswer depth next none [] usage world le good later = tt
  choose-IsAnswer depth next none (node ∷ nodes) usage world le good later = later

  end_level-IsAnswer :
      (depth : ℕ) (next : List ThoughtNode → TokenUsage 𝓕.F → W → Found 𝓕 × W)
      (frontier : List ThoughtNode) (expanded : (List ThoughtNode × Level 𝓕) × W)
      → suc depth ≤ agent.tot_max_depth
      → All (IsOpen problem depth) frontier
      → LevelSound (suc depth) expanded.0.1
      → ((nodes : List ThoughtNode) (usage : TokenUsage 𝓕.F)
          → All (IsOpen problem (suc depth)) nodes
          → IsAnswer (next nodes usage expanded.1).0.0)
      → IsAnswer (end_level 𝓕 methods complete agent problem next frontier expanded).0.0
  unfolding end_level
  end_level-IsAnswer depth next frontier (([], level), world) le good sound later =
      good_of depth (best_leaf frontier) (omega arith) (best_leaf-On depth frontier good)
  end_level-IsAnswer depth next frontier ((_ ∷ _, level), world) le good sound later =
      choose-IsAnswer (suc depth) next level.best_terminal _ level.usage world le sound.0 (
        later _ level.usage (
          take-All _ agent.tot_beam _
            (sort_descending-All (λ n. n.value) (IsOpen problem (suc depth)) level.scored sound.1)))

  search_levels-IsAnswer :
      (left depth : ℕ) (frontier : List ThoughtNode) (usage : TokenUsage 𝓕.F) (world : W)
      → depth + left ≤ agent.tot_max_depth
      → All (IsOpen problem depth) frontier
      → IsAnswer
          (search_levels 𝓕 methods complete agent problem left (suc depth) frontier usage world).0.0
  unfolding search_levels
  search_levels-IsAnswer zero depth frontier usage world le good =
      good_of depth (best_leaf frontier) (omega arith) (best_leaf-On depth frontier good)
  search_levels-IsAnswer (suc left) depth frontier usage world le good =
      end_level-IsAnswer depth
        (search_levels 𝓕 methods complete agent problem left (suc (suc depth))) frontier
        (expand 𝓕 methods complete agent problem (suc depth) frontier usage world) (omega arith)
        good (expand-IsSound depth frontier usage world good)
        (λ nodes used open_nodes.
          search_levels-IsAnswer left (suc depth) nodes used _ (omega arith) open_nodes)

  -- The node that the breadth first search returns, if any, ends a path of thoughts from the
  -- problem with one thought for each step of its depth, lies no deeper than max_depth, and was
  -- not judged to be impossible.
  pub bfs-IsGood : (world : W) → IsAnswer (bfs 𝓕 methods complete agent problem world).0.0
  unfolding bfs
  bfs-IsGood world =
      search_levels-IsAnswer agent.tot_max_depth 0 (root problem ∷ []) (no_usage 𝓕) world
        (omega arith) (((root-IsPath problem, refl), omega arith), tt)
