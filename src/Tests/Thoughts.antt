-- ===== src/Tests/Thoughts.antt =====
-- A tree of thoughts whose LLM proposes two steps at first and then one final answer. The outside
-- world counts the calls.
use multi_agent_orchestratio.Base.{
  ℕ, suc, ◌+◌, ◌*◌, ◌≤◌, false, none, some, [], ◌∷◌, String, ok, Result, ◌≡◌, refl, arith, ltb,
  if◌then◌else◌, ◌==◌,
}
use multi_agent_orchestratio.Core.Agent.Types.{LlmResponse}
use multi_agent_orchestratio.Core.Agent.Messages.{add_usage}
use multi_agent_orchestratio.Reasoning.Tot.{Request, generate, evaluate, TextMethods, TotAgent}
use multi_agent_orchestratio.Reasoning.Tot.Search.{bfs, dfs, run, breadth_first, depth_first}
use multi_agent_orchestratio.Reasoning.Tot.Nodes.{OnOption, IsGood}
use multi_agent_orchestratio.Reasoning.Tot.Calls.{bfs-calls}
use multi_agent_orchestratio.Reasoning.Tot.Found.{bfs-IsGood}
use multi_agent_orchestratio.Reasoning.Tot.Ends.{Ends, tree_size, dfs-Ends}
use multi_agent_orchestratio.Tests.Agents.{cents}

abbrev one_line : TextMethods
one_line = record {
  splitlines = λ s. if s == "two" then "first" ∷ "second" ∷ "first" ∷ [] else s ∷ [];
  strip = λ s. s;
  lower = λ s. s;
  begins_with_digit = λ s. false;
  first_four = λ s. s;
}

abbrev says : String → LlmResponse ℕ ℕ
says text = record { content = some text; tool_calls = []; usage = none; model = "m" }

abbrev answer_to : Request → ℕ → LlmResponse ℕ ℕ
answer_to (generate problem above k) calls =
    if ltb calls 1 then says "two" else says "FINAL ANSWER: 42"
answer_to (evaluate problem above thought) calls =
    if thought == "first" then says "impossible" else says "sure"

abbrev llm : Request → ℕ → Result (LlmResponse ℕ ℕ) × ℕ
llm request calls = (ok (answer_to request calls), suc calls)

abbrev planner : TotAgent
planner = record { tot_breadth = 3; tot_beam = 2; tot_max_depth = 4 }

-- One generation, two evaluations, and one generation of the final answer.
searched_breadth_first :
    run cents one_line llm planner "why" breadth_first 0 0
    ≡ some (
      ok (record {
        output = " 42";
        thought_chain = "why" ∷ "second" ∷ "FINAL ANSWER: 42" ∷ [];
        tot_strategy = breadth_first;
        token_usage = record {
          input_tokens = 0;
          output_tokens = 0;
          total_tokens = 0;
          estimated_cost_usd = 0;
        };
      }),
      4,
    )
unfolding run bfs add_usage
searched_breadth_first = refl

searched_depth_first :
    run cents one_line llm planner "why" depth_first 3 0
    ≡ some (
      ok (record {
        output = " 42";
        thought_chain = "why" ∷ "second" ∷ "FINAL ANSWER: 42" ∷ [];
        tot_strategy = depth_first;
        token_usage = record {
          input_tokens = 0;
          output_tokens = 0;
          total_tokens = 0;
          estimated_cost_usd = 0;
        };
      }),
      4,
    )
unfolding run dfs add_usage
searched_depth_first = refl

bfs-calls_example : (bfs cents one_line llm planner "why" 0).1 ≤ 0 + 4 * (2 + 2 * 3)
bfs-calls_example =
    bfs-calls cents one_line llm planner "why" (λ calls. calls) 2 0 (λ request calls. omega arith)
      (omega arith) (omega arith)

bfs-IsGood_example : OnOption "why" (IsGood "why" 4) (bfs cents one_line llm planner "why" 0).0.0
bfs-IsGood_example = bfs-IsGood cents one_line llm planner "why" 0

dfs-Ends_example :
    Ends cents one_line llm planner "why" (dfs cents one_line llm planner "why" 201 0)
unfolding tree_size
dfs-Ends_example = dfs-Ends cents one_line llm planner "why" 201 0 (omega arith)
