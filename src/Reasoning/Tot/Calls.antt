-- ===== src/Reasoning/Tot/Calls.antt =====
-- How many calls of the LLM the breadth first search of src/orchestra/reasoning/tot.py makes.
use multi_agent_orchestratio.Base.{
  ℕ, zero, suc, ◌+◌, ◌*◌, ◌≤◌, Option, none, some, List, [], ◌∷◌, String, Result, inl, inr, arith,
  length, length-take-le, has_text, Bool-cases,
}
use multi_agent_orchestratio.Base.Floats.{Floats}
use multi_agent_orchestratio.Base.Numbers.{mul_suc_left, mul_mono_left}
use multi_agent_orchestratio.Core.Agent.Types.{TokenUsage, LlmResponse}
use multi_agent_orchestratio.Core.Agent.Messages.{no_usage}
use multi_agent_orchestratio.Reasoning.Tot.{
  ThoughtNode, root, TextMethods, Request, TotAgent, final_prefix, generate_thoughts,
  evaluate_thought,
}
use multi_agent_orchestratio.Reasoning.Tot.Search.{
  gather_all, collect, Level, expand, survivors, search_levels, bfs, Found, choose, end_level,
}
use multi_agent_orchestratio.Reasoning.Tot.Results.{
  gather_all-calls, gather_all-All, length-collect, IsShort, generate_thoughts-IsShort,
  All-anything,
}

module _ (𝓕 : Floats) {Args W : Type 0} (methods : TextMethods)
    (complete : Request → W → Result (LlmResponse 𝓕.F Args) × W) (agent : TotAgent)
    (problem : String) (count : W → ℕ) where
  -- The count goes up by at most one with a call of the LLM.
  abbrev pub CountsCalls : Type 0
  CountsCalls =
      (request : Request) (world : W) → count (complete request world).1 ≤ suc (count world)

  module _ (counts : CountsCalls) where
    generate_thoughts-calls :
        (node : ThoughtNode) (world : W)
        → count (generate_thoughts 𝓕 methods complete agent.tot_breadth problem node world).1
          ≤ suc (count world)
    unfolding generate_thoughts
    generate_thoughts-calls node world = counts _ world

    evaluate_thought-calls :
        (node : ThoughtNode) (world : W)
        → count (evaluate_thought 𝓕 methods complete problem node world).1 ≤ suc (count world)
    unfolding evaluate_thought
    evaluate_thought-calls node world = elim (Bool-cases (has_text final_prefix node.thought)) [
      | inl final ↦ rw final (omega arith)
      | inr open_end ↦ rw open_end (counts _ world)
    ]

    -- A call to generate for each node of the frontier, and one to evaluate for each candidate.
    expand-calls :
        (depth : ℕ) (frontier : List ThoughtNode) (usage : TokenUsage 𝓕.F) (world : W)
        → count (expand 𝓕 methods complete agent problem depth frontier usage world).1
          ≤ count world + (length frontier + length frontier * agent.tot_breadth)
    unfolding expand
    expand-calls depth frontier usage world =
        let k = agent.tot_breadth in
        let generate = generate_thoughts 𝓕 methods complete k problem in
        let (generated, after) = gather_all generate frontier world in
        let candidates = (collect 𝓕 depth frontier generated usage).0 in
        let short =
          gather_all-All generate (IsShort 𝓕 k) (λ _. Unit)
            (λ node at _. generate_thoughts-IsShort 𝓕 methods complete k problem node at) frontier
            world (All-anything frontier) in
        let few = length-collect 𝓕 k depth frontier generated usage short in
        let asked = gather_all-calls generate count generate_thoughts-calls frontier world in
        let rated =
          gather_all-calls (evaluate_thought 𝓕 methods complete problem) count
            evaluate_thought-calls candidates after in
        omega arith

    choose-calls :
        (bound : ℕ) (next : List ThoughtNode → TokenUsage 𝓕.F → W → Found 𝓕 × W)
        (best : Option ThoughtNode) (frontier : List ThoughtNode) (usage : TokenUsage 𝓕.F)
        (world : W)
        → count world ≤ bound
        → (length frontier ≤ agent.tot_beam → count (next frontier usage world).1 ≤ bound)
        → length frontier ≤ agent.tot_beam
        → count (choose 𝓕 methods complete agent problem next best frontier usage world).1 ≤ bound
    unfolding choose
    choose-calls bound next (some best) frontier usage world now later fits = now
    choose-calls bound next none [] usage world now later fits = now
    choose-calls bound next none (node ∷ nodes) usage world now later fits = later fits

    end_level-calls :
        (bound : ℕ) (next : List ThoughtNode → TokenUsage 𝓕.F → W → Found 𝓕 × W)
        (frontier : List ThoughtNode) (expanded : (List ThoughtNode × Level 𝓕) × W)
        → count expanded.1 ≤ bound
        → ((nodes : List ThoughtNode) (usage : TokenUsage 𝓕.F)
            → length nodes ≤ agent.tot_beam
            → count (next nodes usage expanded.1).1 ≤ bound)
        → count (end_level 𝓕 methods complete agent problem next frontier expanded).1 ≤ bound
    unfolding end_level
    end_level-calls bound next frontier (([], level), world) now later = now
    end_level-calls bound next frontier ((_ ∷ _, level), world) now later =
        choose-calls bound next level.best_terminal
          (survivors 𝓕 methods complete agent problem level) level.usage world now (later _ _)
          (length-take-le agent.tot_beam _)

    search_levels-calls :
        (beam left depth : ℕ) (frontier : List ThoughtNode) (usage : TokenUsage 𝓕.F) (world : W)
        → length frontier ≤ beam
        → agent.tot_beam ≤ beam
        → count (search_levels 𝓕 methods complete agent problem left depth frontier usage world).1
          ≤ count world + left * (beam + beam * agent.tot_breadth)
    unfolding search_levels
    search_levels-calls beam zero depth frontier usage world fits wide = omega arith
    search_levels-calls beam (suc left) depth frontier usage world fits wide =
        let called = expand-calls depth frontier usage world in
        let k = agent.tot_breadth in
        let level = beam + beam * k in
        let later = mul_suc_left left level in
        let width = mul_mono_left (length frontier) beam k fits in
        let expanded = expand 𝓕 methods complete agent problem depth frontier usage world in
        end_level-calls (count world + suc left * level)
          (search_levels 𝓕 methods complete agent problem left (suc depth)) frontier expanded
          (omega arith)
          (λ nodes used few.
            let rest =
              search_levels-calls beam left (suc depth) nodes used expanded.1 (omega arith) wide in
            omega arith)

  -- The breadth first search makes at most max_depth times (beam + beam * breadth) calls of the
  -- LLM, where beam is the beam width or 1, if that is greater.
  pub bfs-calls :
      (beam : ℕ) (world : W)
      → CountsCalls
      → 1 ≤ beam
      → agent.tot_beam ≤ beam
      → count (bfs 𝓕 methods complete agent problem world).1
        ≤ count world + agent.tot_max_depth * (beam + beam * agent.tot_breadth)
  unfolding bfs
  bfs-calls beam world counts one width =
      search_levels-calls counts beam agent.tot_max_depth 1 (root problem ∷ []) (no_usage 𝓕) world
        (omega arith) width
