-- ===== src/Core/Graph/Fluent.antt =====
-- The rest of the fluent API of src/orchestra/core/graph.py: parallel, join, branch and if_then. An
-- agent or function comes as a node with its name, as `_wrap_as_node` and `_get_node_name` give it.
pub mod WellBuilt
pub mod Groups
pub mod Branches
pub mod Scripts
use multi_agent_orchestratio.Base.{
  ℕ, suc, Bool, true, false, Option, none, some, List, [], ◌∷◌, ◌++◌, String, Result, ok, raise,
  bind, ◌==◌, ◌&&◌, if◌then◌else◌, graph_compile_error,
}
use multi_agent_orchestratio.Base.Dict.{Dict, contains, insert}
use multi_agent_orchestratio.Core.Edges.{
  Target, Routed, GraphEdge, direct, conditional, parallel, ParallelEdge, Condition,
}
use multi_agent_orchestratio.Core.Nodes.{GraphNode}
use multi_agent_orchestratio.Core.Graph.{
  WorkflowGraph, add_node, add_missing, add_conditional_edge, add_parallel,
}

abbrev pub Named : Type 0 → Type 0
Named V = String × GraphNode V

unfoldable pub same_targets : List String → List String → Bool
same_targets [] [] = true
same_targets (x ∷ xs) (y ∷ ys) = x == y && same_targets xs ys
same_targets _ _ = false

-- `edge.targets == self._parallel_nodes and edge.join_node is None`.
awaits : List String → ParallelEdge → Bool
unfolding same_targets
awaits group edge = elim edge.join_node [ none ↦ same_targets edge.targets group | some _ ↦ false ]

-- A value of the path map: END, the name of a node, or an agent.
pub data BranchTarget (V : Type 0) : Type 0 where
  to_end : BranchTarget V
  to_name : String → BranchTarget V
  to_agent : Named V → BranchTarget V

module _ {V : Type 0} where
  -- The loop of `parallel`, from the index on; a name that is taken gets the index, by `numbered`.
  unfoldable pub add_group :
      (String → ℕ → String)
      → ℕ
      → List (Named V)
      → WorkflowGraph V
      → Result (List String × WorkflowGraph V)
  unfolding add_node
  add_group numbered i [] graph = ok ([], graph)
  add_group numbered i ((name, node) ∷ items) graph =
      let node_id = if contains name graph.nodes then numbered name i else name in
      bind (add_node node_id node graph)
        λ added. bind (add_group numbered (suc i) items added) λ rest. ok (node_id ∷ rest.0, rest.1)

  -- `if self._last_node is not None`: the fan-out edge, without its join node yet.
  fan_out : Option String → List String → WorkflowGraph V → WorkflowGraph V
  unfolding add_parallel
  fan_out none names graph = graph
  fan_out (some source) names graph = add_parallel source names none graph

  start_group : Option (List String) → List String → WorkflowGraph V → Result (WorkflowGraph V)
  unfolding fan_out
  start_group (some open_group) names graph = raise graph_compile_error
  start_group none names graph = ok (record (fan_out graph.last_node names graph) {
    parallel_nodes = some names;
    last_node = none;
  })

  unfoldable pub parallel_group :
      (String → ℕ → String) → List (Named V) → WorkflowGraph V → Result (WorkflowGraph V)
  unfolding add_group start_group
  parallel_group numbered items graph =
      bind (add_group numbered 0 items graph)
        λ added. start_group added.1.parallel_nodes added.0 added.1

  -- The first parallel edge of the group gets the join node.
  unfoldable pub set_join : List String → String → List (GraphEdge V) → List (GraphEdge V)
  unfolding awaits
  set_join group node_id [] = []
  set_join group node_id (parallel edge ∷ edges) =
      if awaits group edge
      then parallel (record edge { join_node = some (Target.node node_id) }) ∷ edges
      else parallel edge ∷ set_join group node_id edges
  set_join group node_id (direct edge ∷ edges) = direct edge ∷ set_join group node_id edges
  set_join group node_id (conditional edge ∷ edges) =
      conditional edge ∷ set_join group node_id edges

  unfoldable pub join_group :
      Option (List String) → Named V → WorkflowGraph V → Result (WorkflowGraph V)
  unfolding add_node set_join
  join_group none (node_id, node) graph = raise graph_compile_error
  join_group (some group) (node_id, node) graph = bind (add_node node_id node graph) λ added.
      ok (record added {
        edges = set_join group node_id added.edges;
        parallel_nodes = none;
        last_node = some node_id;
      })

  unfoldable pub join : Named V → WorkflowGraph V → Result (WorkflowGraph V)
  unfolding join_group
  join item graph = join_group graph.parallel_nodes item graph

  add_target : BranchTarget V → WorkflowGraph V → Result (Target × WorkflowGraph V)
  unfolding add_missing
  add_target to_end graph = ok (Target.end, graph)
  add_target (to_name name) graph = ok (Target.node name, graph)
  add_target (to_agent item) graph =
      bind (add_missing item graph) λ added. ok (Target.node item.0, added)

  -- The loop of `branch`: `resolved_map`, and the graph with the new nodes.
  unfoldable pub resolve_map :
      Dict (BranchTarget V) → WorkflowGraph V → Result (Dict Target × WorkflowGraph V)
  unfolding add_target
  resolve_map [] graph = ok ([], graph)
  resolve_map ((key, target) ∷ path_map) graph = bind (add_target target graph) λ resolved.
      bind (resolve_map path_map resolved.1) λ rest. ok ((key, resolved.0) ∷ rest.0, rest.1)

  unfoldable pub branch_from :
      Option String
      → Condition V
      → Dict (BranchTarget V)
      → WorkflowGraph V
      → Result (WorkflowGraph V)
  unfolding resolve_map add_conditional_edge
  branch_from none condition path_map graph = raise graph_compile_error
  branch_from (some source) condition path_map graph = bind (resolve_map path_map graph) λ resolved.
      ok (record (add_conditional_edge source condition (some resolved.0) resolved.1) {
        last_node = none;
      })

  unfoldable pub branch :
      Condition V → Dict (BranchTarget V) → WorkflowGraph V → Result (WorkflowGraph V)
  unfolding branch_from
  branch condition path_map graph = branch_from graph.last_node condition path_map graph

  -- `_condition_wrapper`.
  abbrev pub then_or_else : (Dict V → Bool) → Condition V
  then_or_else condition state counters =
      (ok (Routed.text (if condition state then "__then__" else "__else__")), counters)

  add_else : Option (Named V) → WorkflowGraph V → Result (Target × WorkflowGraph V)
  unfolding add_missing
  add_else none graph = ok (Target.end, graph)
  add_else (some item) graph = bind (add_missing item graph) λ added. ok (Target.node item.0, added)

  connect_branches : Option String → Condition V → Dict Target → WorkflowGraph V → WorkflowGraph V
  unfolding add_conditional_edge
  connect_branches none condition path_map graph = graph
  connect_branches (some source) condition path_map graph =
      add_conditional_edge source condition (some path_map) graph

  unfoldable pub if_then :
      (Dict V → Bool) → Named V → Option (Named V) → WorkflowGraph V → Result (WorkflowGraph V)
  unfolding add_missing add_else connect_branches
  if_then condition then_item else_item graph = bind (add_missing then_item graph) λ added.
      bind (add_else else_item added) λ other.
        let path_map = ("__then__", Target.node then_item.0) ∷ ("__else__", other.0) ∷ [] in
        ok (record (connect_branches other.1.last_node (then_or_else condition) path_map other.1) {
          last_node = none;
        })
