-- ===== src/Core/Graph/Fluent/Groups.antt =====
-- That `then` and `parallel` of src/orchestra/core/graph.py keep a builder well built.
use multi_agent_orchestratio.Base.{
  ℕ, suc, true, Option, none, some, List, [], ◌∷◌, String, ok, bind-eq-ok, ok_inj, if◌then◌else◌,
  all, All-append, ◌≡◌, refl, ◌∙◌, arith,
}
use mathlib.Core.Path.{subst}
use multi_agent_orchestratio.Base.Dict.{Dict, contains}
use multi_agent_orchestratio.Core.Edges.{Target, GraphEdge, direct, parallel}
use multi_agent_orchestratio.Core.Nodes.{GraphNode}
use multi_agent_orchestratio.Core.Graph.{
  WorkflowGraph, add_node, add_edge, add_graph_edge, add_parallel, connect_last, then_node,
  edge_is_valid, is_target,
}
use multi_agent_orchestratio.Core.Graph.Fluent.{
  Named, add_group, fan_out, start_group, parallel_group,
}
use multi_agent_orchestratio.Core.Graph.Fluent.WellBuilt.{
  AllNodes, OnNodes, IsNode, IsWellBuilt, Grown, add_node-Grown,
}

module _ {V : Type 0} where
  pub same_Grown : (graph : WorkflowGraph V) → IsWellBuilt graph → Grown graph graph
  same_Grown graph built = record { well_built = built; more = λ name h. h; same_last = refl }

  pub then_Grown : (a b c : WorkflowGraph V) → Grown a b → Grown b c → Grown a c
  then_Grown a b c ab bc = record {
    well_built = bc.well_built;
    more = λ name h. bc.more name (ab.more name h);
    same_last = bc.same_last ∙ ab.same_last;
  }

  pub with_edge :
      (edge : GraphEdge V) (graph : WorkflowGraph V)
      → IsWellBuilt graph
      → edge_is_valid graph.nodes edge ≡ true
      → IsWellBuilt (add_graph_edge edge graph)
  unfolding add_graph_edge
  with_edge edge graph built valid = record {
    edges_valid = All-append _ graph.edges (edge ∷ []) built.edges_valid (valid, tt);
    last_is_node = built.last_is_node;
    group_is_there = built.group_is_there;
    entry_is_node = built.entry_is_node;
  }

  pub with_last :
      (last : Option String) (graph : WorkflowGraph V)
      → IsWellBuilt graph
      → IsNode graph.nodes last
      → IsWellBuilt (record graph { last_node = last })
  with_last last graph built is_node = record {
    edges_valid = built.edges_valid;
    last_is_node = is_node;
    group_is_there = built.group_is_there;
    entry_is_node = built.entry_is_node;
  }

  pub connect_last-built :
      (last : Option String) (target : Target) (graph : WorkflowGraph V)
      → IsWellBuilt graph
      → IsNode graph.nodes last
      → is_target graph.nodes target ≡ true
      → IsWellBuilt (connect_last last target graph)
        × ((connect_last last target graph).nodes ≡ graph.nodes)
  unfolding connect_last add_edge
  connect_last-built none target graph built is_node there = (built, refl)
  connect_last-built (some source) target graph built is_node there = (
    with_edge (direct (record { source = source; target = target })) graph built
        (unfold edge_is_valid in ground arith),
    unfold add_graph_edge in refl,
  )

  pub then_node-built :
      (node_id : String) (node : GraphNode V) (graph : WorkflowGraph V) {after : WorkflowGraph V}
      → IsWellBuilt graph
      → then_node node_id node graph ≡ ok after
      → IsWellBuilt after
  unfolding then_node
  then_node-built node_id node graph {after} built h =
      let (added, adding, made) = bind-eq-ok (add_node node_id node graph) _ h in
      let (grown, there) = add_node-Grown node_id node graph built adding in
      let (connected, same) =
        connect_last-built added.last_node (Target.node node_id) added grown.well_built
          grown.well_built.last_is_node there in
      subst IsWellBuilt (ok_inj made) (with_last (some node_id) _ connected (rw same there))

  add_group-built :
      (numbered : String → ℕ → String) (i : ℕ) (items : List (Named V)) (graph : WorkflowGraph V)
      {names : List String} {after : WorkflowGraph V}
      → IsWellBuilt graph
      → add_group numbered i items graph ≡ ok (names, after)
      → Grown graph after × AllNodes after.nodes names
  unfolding add_group
  add_group-built numbered i [] graph {names} {after} built h =
      let e = ok_inj h in
      subst (λ (p : List String × WorkflowGraph V). Grown graph p.1 × AllNodes p.1.nodes p.0) e
        (same_Grown graph built, tt)
  add_group-built numbered i ((name, node) ∷ items) graph {names} {after} built h =
      let node_id = if contains name graph.nodes then numbered name i else name in
      let (added, adding, rest) = bind-eq-ok (add_node node_id node graph) _ h in
      let (others, grouped, made) = bind-eq-ok (add_group numbered (suc i) items added) _ rest in
      let (grown, there) = add_node-Grown node_id node graph built adding in
      let (later, all_there) =
        add_group-built numbered (suc i) items added grown.well_built grouped in
      subst (λ (p : List String × WorkflowGraph V). Grown graph p.1 × AllNodes p.1.nodes p.0)
        (ok_inj made)
        (then_Grown graph added others.1 grown later, (later.more node_id there, all_there))

  pub all_of_AllNodes :
      (nodes : Dict (GraphNode V)) (names : List String)
      → AllNodes nodes names
      → all (λ name. contains name nodes) names ≡ true
  all_of_AllNodes nodes [] there = refl
  all_of_AllNodes nodes (name ∷ names) there =
      let rest = all_of_AllNodes nodes names there.1 in let here = there.0 in ground arith

  with_group :
      (group : Option (List String)) (graph : WorkflowGraph V)
      → IsWellBuilt graph
      → OnNodes graph.nodes group
      → IsWellBuilt (record graph { parallel_nodes = group; last_node = none })
  with_group group graph built there = record {
    edges_valid = built.edges_valid;
    last_is_node = tt;
    group_is_there = there;
    entry_is_node = built.entry_is_node;
  }

  fan_out-built :
      (last : Option String) (names : List String) (graph : WorkflowGraph V)
      → IsWellBuilt graph
      → IsNode graph.nodes last
      → AllNodes graph.nodes names
      → IsWellBuilt (fan_out last names graph) × ((fan_out last names graph).nodes ≡ graph.nodes)
  unfolding fan_out add_parallel
  fan_out-built none names graph built is_node there = (built, refl)
  fan_out-built (some source) names graph built is_node there =
      let all_there = all_of_AllNodes graph.nodes names there in
      (
        with_edge (parallel (record { source = source; targets = names; join_node = none })) graph
            built (unfold edge_is_valid in ground arith),
        unfold add_graph_edge in refl,
      )

  start_group-built :
      (group : Option (List String)) (names : List String) (graph : WorkflowGraph V)
      {after : WorkflowGraph V}
      → IsWellBuilt graph
      → AllNodes graph.nodes names
      → start_group group names graph ≡ ok after
      → IsWellBuilt after
  unfolding start_group
  start_group-built (some open_group) names graph built there h = cc
  start_group-built none names graph built there h =
      let (fanned, same) =
        fan_out-built graph.last_node names graph built built.last_is_node there in
      subst IsWellBuilt (ok_inj h) (with_group (some names) _ fanned (rw same there))

  pub parallel_group-built :
      (numbered : String → ℕ → String) (items : List (Named V)) (graph : WorkflowGraph V)
      {after : WorkflowGraph V}
      → IsWellBuilt graph
      → parallel_group numbered items graph ≡ ok after
      → IsWellBuilt after
  unfolding parallel_group
  parallel_group-built numbered items graph built h =
      let (added, grouping, started) = bind-eq-ok (add_group numbered 0 items graph) _ h in
      let (grown, there) = add_group-built numbered 0 items graph built grouping in
      start_group-built added.1.parallel_nodes added.0 added.1 grown.well_built there started
