-- ===== src/Reasoning/Tot/Ends.antt =====
-- That the depth first search of src/orchestra/reasoning/tot.py ends, and with which node.
use multi_agent_orchestratio.Base.{
  ℕ, zero, suc, ◌+◌, ◌-◌, ◌*◌, ◌≤◌, Bool, true, false, Option, none, some, List, [], ◌∷◌, ◌++◌,
  String, Result, ok, raise, ◌≡◌, refl, ap, inl, inr, arith, map, length, length-append, All,
  All-mono, Bool-cases, leb, ◌||◌, ltb,
}
use multi_agent_orchestratio.Base.Floats.{Floats}
use multi_agent_orchestratio.Base.Numbers.{mul_mono_left}
use multi_agent_orchestratio.Base.Sorting.{
  sort_ascending, sort_ascending-All, sort_ascending-sum, sum_by,
}
use multi_agent_orchestratio.Core.Agent.Types.{TokenUsage, LlmResponse}
use multi_agent_orchestratio.Core.Agent.Messages.{no_usage, add_usage}
use multi_agent_orchestratio.Reasoning.Tot.{
  ThoughtNode, root, child_of, TextMethods, Request, TotAgent, evaluate_thought,
  impossible_threshold,
}
use multi_agent_orchestratio.Reasoning.Tot.Search.{
  gather_all, Level, better, push_all, grow, branch, end_branch, after_branch, search_stack, dfs,
  Search, Evaluation, Thoughts, place_by, place, score_children,
}
use multi_agent_orchestratio.Reasoning.Tot.Results.{
  gather_all-All, length-map, IsShort, generate_thoughts-IsShort,
}
use multi_agent_orchestratio.Reasoning.Tot.Nodes.{
  IsPath, IsGood, root-IsPath, IsOpen, IsFresh, OnOption, better-On, score_children-IsSound,
  children-All, IsFresh-child, evaluate_thought-IsRated, IsRated, marked,
}

-- The nodes of a tree with `k` children at each node and `r` levels below the root.
unfoldable pub tree_size : ℕ → ℕ → ℕ
tree_size k zero = 1
tree_size k (suc r) = 1 + k * tree_size k r

tree_size_pos : (k r : ℕ) → 1 ≤ tree_size k r
unfolding tree_size
tree_size_pos k zero = omega arith
tree_size_pos k (suc r) = omega arith

-- The size of the tree below a node that is not at the greatest depth.
tree_size_step :
    (k m d : ℕ) → leb m d ≡ false → tree_size k (m - d) ≡ 1 + k * tree_size k (m - suc d)
unfolding tree_size
tree_size_step k m d below = let e : m - d ≡ suc (m - suc d) = ground arith in rw e refl

length-gather_all :
    {A B W : Type 0} (task : A → W → B × W) (xs : List A) (world : W)
    → length (gather_all task xs world).0 ≡ length xs
unfolding gather_all
length-gather_all task [] world = omega arith
length-gather_all task (x ∷ xs) world = omega (arith, length-gather_all task xs (task x world).1)

module _ {A : Type 0} where
  push_all-sum :
      (f : A → ℕ) (xs stack : List A) → sum_by f (push_all xs stack) ≡ sum_by f xs + sum_by f stack
  unfolding push_all
  push_all-sum f [] stack = omega arith
  push_all-sum f (x ∷ xs) stack = omega (arith, push_all-sum f xs (x ∷ stack))

  push_all-All :
      (P : A → Type 0) (xs stack : List A) → All P xs → All P stack → All P (push_all xs stack)
  unfolding push_all
  push_all-All P [] stack good rest = rest
  push_all-All P (x ∷ xs) stack good rest = push_all-All P xs (x ∷ stack) good.1 (good.0, rest)

  sum_by-le :
      (f : A → ℕ) (bound : ℕ) (xs : List A)
      → All (λ x. f x ≤ bound) xs
      → sum_by f xs ≤ length xs * bound
  sum_by-le f bound [] below = omega arith
  sum_by-le f bound (x ∷ xs) below =
      let ih = sum_by-le f bound xs below.1 in let here = below.0 in grind arith

module _ (𝓕 : Floats) where
  length-place_by :
      (terminal : Bool) (node : ThoughtNode) (level : Level 𝓕)
      → length (place_by 𝓕 terminal node level).scored ≤ suc (length level.scored)
  unfolding place_by
  length-place_by true node level = omega arith
  length-place_by false node level = elim (Bool-cases (ltb impossible_threshold node.value)) [
    | inl gt ↦ rw gt (omega (arith, length-append level.scored (node ∷ [])))
    | inr le ↦ rw le (omega arith)
  ]

  length-score_children :
      (results : List (Evaluation 𝓕)) (level : Level 𝓕)
      → length (score_children 𝓕 results level).scored ≤ length level.scored + length results
  unfolding score_children place
  length-score_children [] level = omega arith
  length-score_children ((raise e, node) ∷ results) level =
      let next = record level { scored = level.scored ++ record node { value = 5 } ∷ [] } in
      omega (
        arith,
        length-score_children results next,
        length-append level.scored (record node { value = 5 } ∷ []),
      )
  length-score_children ((ok (value, used), node) ∷ results) level =
      let before = record level { usage = add_usage 𝓕 level.usage (some used) } in
      let rated = record node { value = value } in
      omega (
        arith,
        length-score_children results (place 𝓕 rated before),
        length-place_by rated.is_terminal rated before,
      )

module _ (𝓕 : Floats) {Args W : Type 0} (methods : TextMethods)
    (complete : Request → W → Result (LlmResponse 𝓕.F Args) × W) (agent : TotAgent)
    (problem : String) where
  -- The search has returned: with an exception of the LLM, or with an answer or none.
  abbrev pub Ends : Search 𝓕 methods complete agent problem → Type 0
  Ends none = ⊥
  Ends (some (raise e, world)) = Unit
  Ends (some (ok (found, usage), world)) =
      OnOption problem (IsGood problem agent.tot_max_depth) found

  abbrev work : List ThoughtNode → ℕ
  work = sum_by (λ n. tree_size agent.tot_breadth (agent.tot_max_depth - n.depth))

  abbrev Branched : ThoughtNode → Result (Level 𝓕) × W → Type 0
  Branched node (raise e, world) = Unit
  Branched node (ok level, world) =
      OnOption problem (IsGood problem agent.tot_max_depth) level.best_terminal
      × All (IsOpen problem (suc node.depth)) level.scored
      × (length level.scored ≤ agent.tot_breadth)

  IsGood-at :
      (depth : ℕ)
      → depth ≤ agent.tot_max_depth
      → (node : ThoughtNode) → IsOpen problem depth node
      → IsGood problem agent.tot_max_depth node
  IsGood-at depth le node h =
      let at = h.0.1 in record { path = h.0.0; promising = h.1; shallow = omega arith }

  grow-Branched :
      (best : Option ThoughtNode) (node : ThoughtNode) (usage : TokenUsage 𝓕.F)
      (generated : Thoughts 𝓕 × W)
      → suc node.depth ≤ agent.tot_max_depth
      → OnOption problem (IsGood problem agent.tot_max_depth) best
      → IsPath problem node
      → IsShort 𝓕 agent.tot_breadth generated.0
      → Branched node (grow 𝓕 methods complete agent problem best node usage generated)
  unfolding grow
  grow-Branched best node usage (raise e, world) inner found path short = tt
  grow-Branched best node usage (ok (thoughts, used), world) inner found path short =
      let depth = suc node.depth in
      let children = map (child_of depth node) thoughts in
      let evaluate = evaluate_thought 𝓕 methods complete problem in
      let (evaluated, after) = gather_all evaluate children world in
      let level : Level 𝓕 = record {
        best_terminal = best;
        scored = [];
        usage = add_usage 𝓕 usage (some used);
      } in
      let rated =
        gather_all-All evaluate (IsRated problem 𝓕 depth) (IsFresh problem depth)
          (evaluate_thought-IsRated problem 𝓕 methods complete depth) children world
          (children-All problem (IsFresh problem depth) depth node thoughts
            (λ t. IsFresh-child problem node.depth node t (path, refl))) in
      let as_many = length-gather_all evaluate children world in
      let mapped = length-map (child_of depth node) thoughts in
      let few = length-score_children 𝓕 evaluated level in
      let sound =
        score_children-IsSound problem 𝓕 (IsGood problem agent.tot_max_depth) depth
          (IsGood-at depth inner) evaluated level rated (found, tt) in
      (sound.0, sound.1, omega arith)

  IsGood-children :
      (depth : ℕ) (nodes : List ThoughtNode)
      → depth ≤ agent.tot_max_depth
      → All (IsOpen problem depth) nodes
      → All (IsGood problem agent.tot_max_depth) nodes
  IsGood-children depth nodes le =
      All-mono (IsOpen problem depth) (IsGood problem agent.tot_max_depth) (IsGood-at depth le)
        nodes

  work_below :
      (depth : ℕ) (nodes : List ThoughtNode)
      → All (IsOpen problem depth) nodes
      → work nodes ≤ length nodes * tree_size agent.tot_breadth (agent.tot_max_depth - depth)
  work_below depth nodes good = sum_by-le _ _ nodes (
      All-mono (IsOpen problem depth)
        (λ n.
          tree_size agent.tot_breadth (agent.tot_max_depth - n.depth)
          ≤ tree_size agent.tot_breadth (agent.tot_max_depth - depth))
        (λ n h. rw h.0.1 (omega arith)) nodes good)

  end_branch-Ends :
      (fuel : ℕ) (stack : List ThoughtNode)
      (next : List ThoughtNode → TokenUsage 𝓕.F → W → Search 𝓕 methods complete agent problem)
      (best : Option ThoughtNode) (level : Level 𝓕) (world : W)
      → OnOption problem (IsGood problem agent.tot_max_depth) best
      → work (push_all (sort_ascending (λ n. n.value) level.scored) stack) ≤ fuel
      → All
          (IsGood problem agent.tot_max_depth)
          (push_all (sort_ascending (λ n. n.value) level.scored) stack)
      → ((nodes : List ThoughtNode) (usage : TokenUsage 𝓕.F) (world : W)
          → work nodes ≤ fuel
          → All (IsGood problem agent.tot_max_depth) nodes
          → Ends (next nodes usage world))
      → Ends (end_branch 𝓕 methods complete agent problem next stack best level world)
  unfolding end_branch
  end_branch-Ends fuel stack next (some best) level world found enough good later = found
  end_branch-Ends fuel stack next none level world found enough good later =
      later _ level.usage world enough good

  after_branch-Ends :
      (fuel : ℕ) (node : ThoughtNode) (stack : List ThoughtNode)
      (next : List ThoughtNode → TokenUsage 𝓕.F → W → Search 𝓕 methods complete agent problem)
      (branched : Result (Level 𝓕) × W)
      → leb agent.tot_max_depth node.depth ≡ false
      → work (node ∷ stack) ≤ suc fuel
      → All (IsGood problem agent.tot_max_depth) stack
      → Branched node branched
      → ((nodes : List ThoughtNode) (usage : TokenUsage 𝓕.F) (world : W)
          → work nodes ≤ fuel
          → All (IsGood problem agent.tot_max_depth) nodes
          → Ends (next nodes usage world))
      → Ends (after_branch 𝓕 methods complete agent problem next stack branched)
  unfolding after_branch
  after_branch-Ends fuel node stack next (raise e, world) inner enough good sound later = tt
  after_branch-Ends fuel node stack next (ok level, world) inner enough good sound later =
      let depth = suc node.depth in
      let below : depth ≤ agent.tot_max_depth = ground arith in
      let (found, open_nodes, few) = sound in
      let sorted = sort_ascending (λ n. n.value) level.scored in
      let in_order =
        sort_ascending-All (λ n. n.value) (IsOpen problem depth) level.scored open_nodes in
      end_branch-Ends fuel stack next level.best_terminal level world found
        (let k = agent.tot_breadth in
          let size = tree_size k (agent.tot_max_depth - depth) in
          let split = tree_size_step k agent.tot_max_depth node.depth inner in
          let pushed =
            push_all-sum (λ n. tree_size k (agent.tot_max_depth - n.depth)) sorted stack in
          let same =
            sort_ascending-sum (λ n. n.value) (λ n. tree_size k (agent.tot_max_depth - n.depth))
              level.scored in
          let small = work_below depth level.scored open_nodes in
          let fits = mul_mono_left (length level.scored) k size few in omega arith)
        (push_all-All (IsGood problem agent.tot_max_depth) sorted stack
          (IsGood-children depth sorted below in_order) good)
        later

  marked-IsGood :
      (node : ThoughtNode)
      → IsGood problem agent.tot_max_depth node
      → IsGood problem agent.tot_max_depth (record node { is_terminal = true })
  marked-IsGood node good =
      let (path, _) = marked problem node.depth node (good.path, refl) in
      record { path = path; promising = good.promising; shallow = good.shallow }

  branch-Branched :
      (best : Option ThoughtNode) (node : ThoughtNode) (usage : TokenUsage 𝓕.F) (world : W)
      → suc node.depth ≤ agent.tot_max_depth
      → OnOption problem (IsGood problem agent.tot_max_depth) best
      → IsPath problem node
      → Branched node (branch 𝓕 methods complete agent problem best node usage world)
  unfolding branch
  branch-Branched best node usage world inner found path =
      grow-Branched best node usage _ inner found path
        (generate_thoughts-IsShort 𝓕 methods complete agent.tot_breadth problem node world)

  search_stack-Ends :
      (fuel : ℕ) (best : Option ThoughtNode) (stack : List ThoughtNode) (usage : TokenUsage 𝓕.F)
      (world : W)
      → work stack ≤ fuel
      → OnOption problem (IsGood problem agent.tot_max_depth) best
      → All (IsGood problem agent.tot_max_depth) stack
      → Ends (search_stack 𝓕 methods complete agent problem fuel best stack usage world)
  unfolding search_stack
  search_stack-Ends zero best [] usage world enough found good = found
  search_stack-Ends (suc fuel) best [] usage world enough found good = found
  search_stack-Ends zero best (node ∷ stack) usage world enough found good =
      absurd (omega (arith, tree_size_pos agent.tot_breadth (agent.tot_max_depth - node.depth)))
  search_stack-Ends (suc fuel) best (node ∷ stack) usage world enough found good =
      elim (Bool-cases (leb agent.tot_max_depth node.depth || node.is_terminal)) [
        | inl leaf ↦
            let here = tree_size_pos agent.tot_breadth (agent.tot_max_depth - node.depth) in
            rw (search_stack, leaf)
              (search_stack-Ends fuel (better best (record node { is_terminal = true })) stack usage
                world (omega arith)
                (better-On problem (IsGood problem agent.tot_max_depth) best
                  (record node { is_terminal = true }) found (marked-IsGood node good.0))
                good.1)
        | inr inner ↦
            let below : leb agent.tot_max_depth node.depth ≡ false = ground arith in
            rw (search_stack, inner)
              (after_branch-Ends fuel node stack
                (search_stack 𝓕 methods complete agent problem fuel none)
                (branch 𝓕 methods complete agent problem best node usage world) below enough good.1
                (branch-Branched best node usage world (ground arith) found good.0.path)
                (λ nodes used at fits open_nodes.
                  search_stack-Ends fuel none nodes used at fits tt open_nodes))
      ]

  -- With fuel for each node of the full tree the depth first search ends: by an exception of the
  -- LLM, with no node, or with a node that ends a path of thoughts from the problem, lies no
  -- deeper than max_depth, and was not judged to be impossible.
  pub dfs-Ends :
      (fuel : ℕ) (world : W)
      → tree_size agent.tot_breadth agent.tot_max_depth ≤ fuel
      → Ends (dfs 𝓕 methods complete agent problem fuel world)
  unfolding dfs
  dfs-Ends fuel world enough =
      let zero_depth : agent.tot_max_depth - 0 ≡ agent.tot_max_depth = omega arith in
      let whole = ap (tree_size agent.tot_breadth) zero_depth in
      search_stack-Ends fuel none (root problem ∷ []) (no_usage 𝓕) world (omega arith) tt
        (record { path = root-IsPath problem; promising = omega arith; shallow = omega arith }, tt)
