-- ===== src/Tests/Builder.antt =====
-- A workflow built with the fluent API, with a branch, and compiled.
use multi_agent_orchestratio.Base.{
  ℕ, ◌+◌, ◌<◌, Bool, true, false, Option, none, some, List, [], ◌∷◌, String, Result, ok, raise,
  bind, ◌≡◌, ◌≢◌, refl, All, is_ok,
}
use multi_agent_orchestratio.Base.Dict.{Dict, contains, lookup, get_or}
use multi_agent_orchestratio.Core.Edges.{Routed, Target, GraphEdge, direct, conditional}
use multi_agent_orchestratio.Core.Compiled.{CompiledGraph}
use multi_agent_orchestratio.Core.Compiled.Loop.{fresh}
use multi_agent_orchestratio.Core.Compiled.Next.{resolve_next}
use multi_agent_orchestratio.Core.Graph.{
  WorkflowGraph, empty, then_node, add_conditional_edge, compile,
}
use multi_agent_orchestratio.Core.Graph.Reach.{IsKnown, IsRouted, Given, resolve_next-IsKnown}
use multi_agent_orchestratio.Core.Graph.Fluent.{BranchTarget, to_end, to_agent}
use multi_agent_orchestratio.Core.Graph.Fluent.Scripts.{
  FluentCall, then_call, parallel_call, join_call, branch_call, if_then_call, loop_call, ByAgents,
  perform_all, perform_all-compile,
}
use multi_agent_orchestratio.Tests.Engine.{values, step, initial}

abbrev path_map : Dict Target
path_map = ("again", Target.node "draft") ∷ ("stop", Target.end) ∷ []

abbrev edges : List (GraphEdge ℕ)
edges =
    direct (record { source = "draft"; target = Target.node "review" })
    ∷ conditional (record {
      source = "review";
      condition = λ state counters. (ok (Routed.text "again"), counters);
      path_map = some path_map;
    })
    ∷ []

abbrev builder : WorkflowGraph ℕ
builder = record {
  state_schema = none;
  name = "branch";
  nodes = ("draft", step "draft") ∷ ("review", step "review") ∷ [];
  edges = edges;
  handoff_edges = [];
  entry_point = some "draft";
  last_node = some "review";
  parallel_nodes = none;
}

built :
    bind (then_node "draft" (step "draft") (empty none "branch")) (λ one.
      bind (then_node "review" (step "review") one) λ two. ok (
        add_conditional_edge "review"
          (λ state counters. (ok (Routed.text "again"), counters))
          (some path_map)
          two))
    ≡ ok builder
unfolding then_node lookup empty multi_agent_orchestratio.Base.Dict.insert add_conditional_edge
built = refl

abbrev graph : CompiledGraph ℕ
graph = record {
  nodes = builder.nodes;
  edges = edges;
  entry_point = "draft";
  state_schema = none;
  max_turns = 50;
  name = "branch";
  handoff_edges = [];
}

compiled : compile 50 builder ≡ ok (graph, builder)
unfolding compile lookup
compiled = refl

review_is_node : contains "review" builder.nodes ≡ true
unfolding lookup
review_is_node = refl

routed : All (IsRouted graph) edges
routed = (tt, ((refl, λ state counters v h. cc), tt))

resolve_next-IsKnown_example :
    Given
      (λ next. IsKnown graph next.0)
      (resolve_next values graph "review" initial (fresh "run-1" none)).0
resolve_next-IsKnown_example =
    resolve_next-IsKnown values 50 builder "review" initial (fresh "run-1" none) review_is_node
      compiled routed refl

-- A plan, two searches at once, their summary, rounds of review, and a publication or nothing.
abbrev script : List (FluentCall ℕ)
script =
    then_call ("plan", step "plan")
    ∷ parallel_call (λ name i. "web_1") (("web", step "web") ∷ ("web", step "files") ∷ [])
    ∷ join_call ("sum", step "sum")
    ∷ loop_call "__loop_review" ("review", step "review") 3 (λ state. true)
    ∷ branch_call (λ state counters. (ok (Routed.text "good"), counters))
        (("good", to_agent ("publish", step "publish")) ∷ ("bad", to_end) ∷ [])
    ∷ []

abbrev script_result : Result (WorkflowGraph ℕ)
script_result = perform_all script (empty none "script")

abbrev graph_or : WorkflowGraph ℕ → Result (WorkflowGraph ℕ) → WorkflowGraph ℕ
graph_or default (ok given) = given
graph_or default (raise _) = default

abbrev scripted : WorkflowGraph ℕ
scripted = graph_or builder script_result

scripted_ok : script_result ≡ ok scripted
unfolding perform_all multi_agent_orchestratio.Core.Graph.Fluent.Scripts.perform then_node lookup
    empty multi_agent_orchestratio.Base.Dict.insert add_conditional_edge
    multi_agent_orchestratio.Core.Graph.Fluent.parallel_group
    multi_agent_orchestratio.Core.Graph.Fluent.join multi_agent_orchestratio.Core.Graph.loop_node
    multi_agent_orchestratio.Core.Graph.Fluent.branch
scripted_ok = refl

script_entry : scripted.entry_point ≡ some "plan"
unfolding perform_all multi_agent_orchestratio.Core.Graph.Fluent.Scripts.perform then_node lookup
    empty multi_agent_orchestratio.Base.Dict.insert add_conditional_edge
    multi_agent_orchestratio.Core.Graph.Fluent.parallel_group
    multi_agent_orchestratio.Core.Graph.Fluent.join multi_agent_orchestratio.Core.Graph.loop_node
    multi_agent_orchestratio.Core.Graph.Fluent.branch
script_entry = refl

script-ByAgents : All ByAgents script
script-ByAgents = (tt, (tt, (tt, (tt, ((tt, (tt, tt)), tt)))))

perform_all-compile_example : is_ok (compile 50 scripted) ≡ true
perform_all-compile_example =
    perform_all-compile none "script" "plan" 50 script script-ByAgents scripted_ok script_entry refl
