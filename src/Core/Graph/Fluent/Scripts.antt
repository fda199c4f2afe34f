-- ===== src/Core/Graph/Fluent/Scripts.antt =====
-- Workflows that are built with the fluent API of src/orchestra/core/graph.py alone.
use multi_agent_orchestratio.Base.{
  ℕ, Bool, true, false, Option, none, some, List, [], ◌∷◌, String, Result, ok, bind, bind-eq-ok,
  ok_inj, ◌==◌, all, All, ◌≡◌, refl, arith, Bool-cases, inl, inr, truthy, is_ok,
}
use mathlib.Core.Path.{subst}
use multi_agent_orchestratio.Base.Dict.{Dict, contains, lookup}
use multi_agent_orchestratio.Core.State.{Schema}
use multi_agent_orchestratio.Core.Edges.{Target, conditional, Condition}
use multi_agent_orchestratio.Core.Nodes.{GraphNode}
use multi_agent_orchestratio.Core.Graph.{
  WorkflowGraph, empty, add_missing, connect_last, then_node, loop_node, loop_condition, other_last,
  edge_is_valid, compile, validate,
}
use multi_agent_orchestratio.Core.Graph.Fluent.{
  Named, parallel_group, join, BranchTarget, branch, if_then,
}
use multi_agent_orchestratio.Core.Graph.Fluent.WellBuilt.{IsNode, IsWellBuilt}
use multi_agent_orchestratio.Core.Graph.Fluent.Groups.{
  with_edge, with_last, connect_last-built, then_node-built, parallel_group-built,
}
use multi_agent_orchestratio.Core.Graph.Fluent.Branches.{
  HasNode, join_group-built, add_missing-Grown, branch_from-built, if_then-built,
}

-- A call of the fluent API.
pub data FluentCall (V : Type 0) : Type 0 where
  then_call : Named V → FluentCall V
  parallel_call : (String → ℕ → String) → List (Named V) → FluentCall V
  join_call : Named V → FluentCall V
  branch_call : Condition V → Dict (BranchTarget V) → FluentCall V
  if_then_call : (Dict V → Bool) → Named V → Option (Named V) → FluentCall V
  -- loop_id, the node, max_iterations, condition
  loop_call : String → Named V → ℕ → (Dict V → Bool) → FluentCall V

all_of_All : {A : Type 0} (p : A → Bool) (xs : List A) → All (λ x. p x ≡ true) xs → all p xs ≡ true
all_of_All p [] good = refl
all_of_All p (x ∷ xs) good = let rest = all_of_All p xs good.1 in let here = good.0 in ground arith

module _ {V : Type 0} where
  other_last-IsNode :
      (node_id : String) (last : Option String) (nodes : Dict (GraphNode V))
      → IsNode nodes last
      → IsNode nodes (other_last node_id last)
  other_last-IsNode node_id none nodes there = tt
  other_last-IsNode node_id (some last) nodes there = elim (Bool-cases (last == node_id)) [
    | inl own ↦ rw own tt
    | inr other ↦ rw other there
  ]

  loop_node-built :
      (loop_id node_id : String) (node : GraphNode V) (max_iterations : ℕ)
      (condition : Dict V → Bool) (graph : WorkflowGraph V) {after : WorkflowGraph V}
      → IsWellBuilt graph
      → loop_node loop_id node_id node max_iterations condition graph ≡ ok after
      → IsWellBuilt after
  unfolding loop_node
  loop_node-built loop_id node_id node max_iterations condition graph built h =
      let (added, adding, made) = bind-eq-ok (add_missing (node_id, node) graph) _ h in
      let (grown, there) = add_missing-Grown (node_id, node) graph built adding in
      let last = other_last node_id added.last_node in
      let (connected, same) =
        connect_last-built last (Target.node node_id) added grown.well_built
          (other_last-IsNode node_id added.last_node added.nodes grown.well_built.last_is_node)
          there in
      let here : contains node_id (connect_last last (Target.node node_id) added).nodes ≡ true =
        rw same there in
      subst IsWellBuilt (ok_inj made) (
        with_last (some node_id) _
          (with_edge
            (conditional (record {
              source = node_id;
              condition = loop_condition loop_id node_id max_iterations condition;
              path_map = none;
            }))
            (connect_last last (Target.node node_id) added) connected
            (unfold edge_is_valid in ground arith))
          here)

  unfoldable pub perform : FluentCall V → WorkflowGraph V → Result (WorkflowGraph V)
  perform (then_call item) graph = then_node item.0 item.1 graph
  perform (parallel_call numbered items) graph = parallel_group numbered items graph
  perform (join_call item) graph = join item graph
  perform (branch_call condition path_map) graph = branch condition path_map graph
  perform (if_then_call condition then_item else_item) graph =
      if_then condition then_item else_item graph
  perform (loop_call loop_id item max_iterations condition) graph =
      loop_node loop_id item.0 item.1 max_iterations condition graph

  -- The targets of a branch are given as agents, or are END.
  abbrev pub ByAgents : FluentCall V → Type 0
  ByAgents (branch_call condition path_map) = All (λ entry. HasNode entry.1) path_map
  ByAgents _ = Unit

  perform-built :
      (call : FluentCall V) (graph : WorkflowGraph V) {after : WorkflowGraph V}
      → ByAgents call
      → IsWellBuilt graph
      → perform call graph ≡ ok after
      → IsWellBuilt after
  unfolding perform join branch
  perform-built (then_call item) graph agents built h = then_node-built item.0 item.1 graph built h
  perform-built (parallel_call numbered items) graph agents built h =
      parallel_group-built numbered items graph built h
  perform-built (join_call item) graph agents built h =
      join_group-built graph.parallel_nodes item graph built h
  perform-built (branch_call condition path_map) graph agents built h =
      branch_from-built graph.last_node condition path_map graph agents built built.last_is_node h
  perform-built (if_then_call condition then_item else_item) graph agents built h =
      if_then-built condition then_item else_item graph built h
  perform-built (loop_call loop_id item max_iterations condition) graph agents built h =
      loop_node-built loop_id item.0 item.1 max_iterations condition graph built h

  unfoldable pub perform_all : List (FluentCall V) → WorkflowGraph V → Result (WorkflowGraph V)
  unfolding perform
  perform_all [] graph = ok graph
  perform_all (call ∷ calls) graph = bind (perform call graph) (perform_all calls)

  perform_all-built :
      (calls : List (FluentCall V)) (graph : WorkflowGraph V) {after : WorkflowGraph V}
      → All ByAgents calls
      → IsWellBuilt graph
      → perform_all calls graph ≡ ok after
      → IsWellBuilt after
  unfolding perform_all
  perform_all-built [] graph agents built h = subst IsWellBuilt (ok_inj h) built
  perform_all-built (call ∷ calls) graph agents built h =
      let (next, first, rest) = bind-eq-ok (perform call graph) _ h in
      perform_all-built calls next agents.1 (perform-built call graph agents.0 built first) rest

  truthy_of_contains :
      (name : String) (nodes : Dict (GraphNode V))
      → contains name nodes ≡ true
      → truthy nodes ≡ true
  unfolding lookup
  truthy_of_contains name [] there = there
  truthy_of_contains name (node ∷ nodes) there = refl

  compile_built :
      (max_turns : ℕ) (entry : String) (graph : WorkflowGraph V)
      → IsWellBuilt graph
      → graph.entry_point ≡ some entry
      → (entry == "") ≡ false
      → is_ok (compile max_turns graph) ≡ true
  unfolding compile validate
  compile_built max_turns entry graph built starts named =
      let entry_there : contains entry graph.nodes ≡ true = rw starts at built.entry_is_node in
      let some_node = truthy_of_contains entry graph.nodes entry_there in
      let valid = all_of_All (edge_is_valid graph.nodes) graph.edges built.edges_valid in
      rw (some_node, starts, named, entry_there, valid, validate) refl

  -- A workflow that the fluent API builds without an error, whose branches lead to agents or END,
  -- compiles if it has a node and its first node's name is not empty.
  pub perform_all-compile :
      (state_schema : Option (Schema V)) (name entry : String) (max_turns : ℕ)
      (calls : List (FluentCall V)) {graph : WorkflowGraph V}
      → All ByAgents calls
      → perform_all calls (empty state_schema name) ≡ ok graph
      → graph.entry_point ≡ some entry
      → (entry == "") ≡ false
      → is_ok (compile max_turns graph) ≡ true
  unfolding empty
  perform_all-compile state_schema name entry max_turns calls {graph} agents made starts named =
      compile_built max_turns entry graph
        (perform_all-built calls (empty state_schema name) agents
          (record { edges_valid = tt; last_is_node = tt; group_is_there = tt; entry_is_node = tt })
          made)
        starts named
