-- ===== src/Reasoning/Tot/Search.antt =====
-- The two searches of src/orchestra/reasoning/tot.py and `run`. The tasks of a `gather` run one
-- after the other in the model; no task reads what another one writes.
use multi_agent_orchestratio.Base.{
  ℕ, zero, suc, Bool, true, false, Option, none, some, List, [], ◌∷◌, ◌++◌, String, Result, ok,
  raise, ◌||◌, if◌then◌else◌, ltb, leb, take, map,
}
use multi_agent_orchestratio.Base.Floats.{Floats}
use multi_agent_orchestratio.Base.Sorting.{sort_ascending, sort_descending, max_by}
use multi_agent_orchestratio.Core.Agent.Types.{TokenUsage, LlmResponse}
use multi_agent_orchestratio.Core.Agent.Messages.{no_usage, add_usage}
use multi_agent_orchestratio.Reasoning.Tot.{
  ThoughtNode, child_of, root, chain, impossible_threshold, TextMethods, Request, TotAgent,
  generate_thoughts, evaluate_thought, final_answer,
}

-- `asyncio.gather` of one task for each element.
unfoldable pub gather_all : {A B W : Type 0} → (A → W → B × W) → List A → W → List B × W
gather_all task [] world = ([], world)
gather_all task (x ∷ xs) world =
    let (y, after) = task x world in let (ys, last) = gather_all task xs after in (y ∷ ys, last)

-- `node.value > best_terminal.value`, or there is none yet.
unfoldable pub better : Option ThoughtNode → ThoughtNode → Option ThoughtNode
better none node = some node
better (some best) node = if ltb best.value node.value then some node else some best

-- `max(all_leaves, key=...)`, marked as terminal.
unfoldable pub best_leaf : List ThoughtNode → Option ThoughtNode
unfolding max_by
best_leaf [] = none
best_leaf (leaf ∷ leaves) = some (record (max_by (λ n. n.value) leaf leaves) { is_terminal = true })

-- `stack.extend`: the head of the list is the top of the stack.
unfoldable pub push_all : {A : Type 0} → List A → List A → List A
push_all [] stack = stack
push_all (x ∷ xs) stack = push_all xs (x ∷ stack)

pub data ToTSearchStrategy : Type 0 where
  breadth_first depth_first : ToTSearchStrategy

module _ (𝓕 : Floats) where
  abbrev pub Thoughts : Type 0
  Thoughts = Result (List String × TokenUsage 𝓕.F)

  abbrev pub Evaluation : Type 0
  Evaluation = Result (ℕ × TokenUsage 𝓕.F) × ThoughtNode

  -- The nodes for the generated thoughts of a level, and the usage; a failed call has none.
  unfoldable pub collect :
      ℕ → List ThoughtNode → List Thoughts → TokenUsage 𝓕.F → List ThoughtNode × TokenUsage 𝓕.F
  collect depth (node ∷ nodes) (ok (thoughts, used) ∷ results) usage =
      let (candidates, total) = collect depth nodes results (add_usage 𝓕 usage (some used)) in
      (map (child_of depth node) thoughts ++ candidates, total)
  collect depth (node ∷ nodes) (raise e ∷ results) usage = collect depth nodes results usage
  collect depth _ _ usage = ([], usage)

  -- What the scoring of a level gathers.
  pub record Level : Type 0 where
    pub best_terminal : Option ThoughtNode
    pub scored : List ThoughtNode
    pub usage : TokenUsage 𝓕.F

  -- A node with its value: the best terminal one, a survivor, or pruned.
  unfoldable pub place_by : Bool → ThoughtNode → Level → Level
  unfolding better
  place_by true node level = record level { best_terminal = better level.best_terminal node }
  place_by false node level =
      if ltb impossible_threshold node.value
      then record level { scored = level.scored ++ node ∷ [] }
      else level

  unfoldable pub place : ThoughtNode → Level → Level
  unfolding place_by
  place node level = place_by node.is_terminal node level

  unfoldable pub score : List Evaluation → Level → Level
  unfolding place
  score [] level = level
  score ((raise e, node) ∷ results) level = score results (place (record node { value = 5 }) level)
  score ((ok (value, used), node) ∷ results) level = score results (
      place (record node { value = value })
        (record level { usage = add_usage 𝓕 level.usage (some used) }))

  -- Depth first, a failed evaluation keeps the child without a further test.
  unfoldable pub score_children : List Evaluation → Level → Level
  unfolding place
  score_children [] level = level
  score_children ((raise e, node) ∷ results) level =
      score_children results
        (record level { scored = level.scored ++ record node { value = 5 } ∷ [] })
  score_children ((ok (value, used), node) ∷ results) level = score_children results (
      place (record node { value = value })
        (record level { usage = add_usage 𝓕 level.usage (some used) }))

  pub record ToTResult : Type 0 where
    pub output : String
    pub thought_chain : List String
    pub tot_strategy : ToTSearchStrategy
    pub token_usage : TokenUsage 𝓕.F

  -- What a search returns.
  abbrev pub Found : Type 0
  Found = Option ThoughtNode × TokenUsage 𝓕.F

module _ (𝓕 : Floats) {Args W : Type 0} (methods : TextMethods)
    (complete : Request → W → Result (LlmResponse 𝓕.F Args) × W) (agent : TotAgent)
    (problem : String) where
  -- One level of `_bfs`: its candidates, and what their scoring gathers.
  unfoldable pub expand :
      ℕ → List ThoughtNode → TokenUsage 𝓕.F → W → (List ThoughtNode × Level 𝓕) × W
  unfolding gather_all collect score generate_thoughts evaluate_thought
  expand depth frontier usage world =
      let (generated, after) =
        gather_all (generate_thoughts 𝓕 methods complete agent.tot_breadth problem) frontier
          world in
      let (candidates, total) = collect 𝓕 depth frontier generated usage in
      let (evaluated, last) =
        gather_all (evaluate_thought 𝓕 methods complete problem) candidates after in
      let level = score 𝓕 evaluated (record { best_terminal = none; scored = []; usage = total }) in
      ((candidates, level), last)

  abbrev pub survivors : Level 𝓕 → List ThoughtNode
  survivors level = take agent.tot_beam (sort_descending (λ n. n.value) level.scored)

  -- The end of a level: a terminal node ends the search, and so does a level with no survivor.
  unfoldable pub choose :
      (List ThoughtNode → TokenUsage 𝓕.F → W → Found 𝓕 × W)
      → Option ThoughtNode
      → List ThoughtNode
      → TokenUsage 𝓕.F
      → W
      → Found 𝓕 × W
  choose next (some best) frontier usage world = ((some best, usage), world)
  choose next none [] usage world = ((none, usage), world)
  choose next none (node ∷ nodes) usage world = next (node ∷ nodes) usage world

  unfoldable pub end_level :
      (List ThoughtNode → TokenUsage 𝓕.F → W → Found 𝓕 × W)
      → List ThoughtNode
      → (List ThoughtNode × Level 𝓕) × W
      → Found 𝓕 × W
  unfolding choose best_leaf sort_descending
  end_level next frontier (([], level), world) = ((best_leaf frontier, level.usage), world)
  end_level next frontier ((_ ∷ _, level), world) =
      choose next level.best_terminal (survivors level) level.usage world

  -- The `for` loop of `_bfs` and what it returns, with the levels that are left.
  unfoldable pub search_levels : ℕ → ℕ → List ThoughtNode → TokenUsage 𝓕.F → W → Found 𝓕 × W
  unfolding expand best_leaf end_level
  search_levels zero depth frontier usage world = ((best_leaf frontier, usage), world)
  search_levels (suc left) depth frontier usage world =
      end_level (search_levels left (suc depth)) frontier (expand depth frontier usage world)

  unfoldable pub bfs : W → Found 𝓕 × W
  unfolding search_levels
  bfs world = search_levels agent.tot_max_depth 1 (root problem ∷ []) (no_usage 𝓕) world

  unfoldable pub grow :
      Option ThoughtNode → ThoughtNode → TokenUsage 𝓕.F → Thoughts 𝓕 × W → Result (Level 𝓕) × W
  unfolding gather_all score_children evaluate_thought
  grow best node usage (raise e, world) = (raise e, world)
  grow best node usage (ok (thoughts, used), world) =
      let (evaluated, after) =
        gather_all (evaluate_thought 𝓕 methods complete problem)
          (map (child_of (suc node.depth) node) thoughts) world in
      let level : Level 𝓕 = record {
        best_terminal = best;
        scored = [];
        usage = add_usage 𝓕 usage (some used);
      } in
      (ok (score_children 𝓕 evaluated level), after)

  -- The children of a node and what their scoring gathers; a failed generation is raised.
  unfoldable pub branch :
      Option ThoughtNode → ThoughtNode → TokenUsage 𝓕.F → W → Result (Level 𝓕) × W
  unfolding grow generate_thoughts
  branch best node usage world =
      grow best node usage
        (generate_thoughts 𝓕 methods complete agent.tot_breadth problem node world)

  abbrev pub Search : Type 0
  Search = Option (Result (Found 𝓕) × W)

  unfoldable pub end_branch :
      (List ThoughtNode → TokenUsage 𝓕.F → W → Search)
      → List ThoughtNode
      → Option ThoughtNode
      → Level 𝓕
      → W
      → Search
  unfolding push_all sort_ascending
  end_branch next stack (some found) level world = some (ok (some found, level.usage), world)
  end_branch next stack none level world =
      next (push_all (sort_ascending (λ n. n.value) level.scored) stack) level.usage world

  -- What follows a branch: the first terminal node ends the search.
  unfoldable pub after_branch :
      (List ThoughtNode → TokenUsage 𝓕.F → W → Search)
      → List ThoughtNode
      → Result (Level 𝓕) × W
      → Search
  unfolding end_branch
  after_branch next stack (raise e, world) = some (raise e, world)
  after_branch next stack (ok level, world) = end_branch next stack level.best_terminal level world

  -- The `while` loop of `_dfs`, with fuel for its rounds; none is out of fuel.
  unfoldable pub search_stack :
      ℕ → Option ThoughtNode → List ThoughtNode → TokenUsage 𝓕.F → W → Search
  unfolding branch better after_branch
  search_stack fuel best [] usage world = some (ok (best, usage), world)
  search_stack zero best (node ∷ stack) usage world = none
  search_stack (suc fuel) best (node ∷ stack) usage world =
      elim (leb agent.tot_max_depth node.depth || node.is_terminal) [
        | true ↦
            search_stack fuel (better best (record node { is_terminal = true })) stack usage world
        | false ↦ after_branch (search_stack fuel none) stack (branch best node usage world)
      ]

  unfoldable pub dfs : ℕ → W → Search
  unfolding search_stack
  dfs fuel world = search_stack fuel none (root problem ∷ []) (no_usage 𝓕) world

  abbrev pub exhausted : String
  exhausted = "Tree of Thoughts search exhausted without finding a solution."

  unfoldable pub result_of : ToTSearchStrategy → Found 𝓕 → ToTResult 𝓕
  unfolding final_answer chain
  result_of strategy (none, usage) = record {
    output = exhausted;
    thought_chain = [];
    tot_strategy = strategy;
    token_usage = usage;
  }
  result_of strategy (some node, usage) = record {
    output = final_answer methods node;
    thought_chain = chain node;
    tot_strategy = strategy;
    token_usage = usage;
  }

  -- `run`, with an LLM; `fuel` is for the rounds of the depth first search.
  unfoldable pub run : ToTSearchStrategy → ℕ → W → Option (Result (ToTResult 𝓕) × W)
  unfolding bfs dfs result_of
  run breadth_first fuel world =
      let (found, after) = bfs world in some (ok (result_of breadth_first found), after)
  run depth_first fuel world = elim (dfs fuel world) [
    | none ↦ none
    | some (ok found, after) ↦ some (ok (result_of depth_first found), after)
    | some (raise e, after) ↦ some (raise e, after)
  ]
