-- ===== src/Core/Graph.antt =====
-- src/orchestra/core/graph.py: the builder of a workflow and its validation. A node comes wrapped
-- and named, as `_wrap_as_node` and `_get_node_name` give it. A name is a text, which is never the
-- sentinel END.
pub mod Closed
pub mod Reach
pub mod Loops
pub mod Fluent
use multi_agent_orchestratio.Base.{
  ℕ, ◌+◌, leb, Bool, true, false, Option, none, some, List, [], ◌∷◌, ◌++◌, String, Result, ok,
  raise, bind, ◌==◌, ◌&&◌, ◌||◌, if◌then◌else◌, any, all, truthy, is_some, graph_compile_error,
}
use multi_agent_orchestratio.Base.Dict.{Dict, contains, insert, get_or, erase}
use multi_agent_orchestratio.Core.State.{Schema}
use multi_agent_orchestratio.Core.Edges.{
  Target, Routed, GraphEdge, direct, conditional, parallel, Edge, Condition, HandoffEdge,
}
use multi_agent_orchestratio.Core.Nodes.{GraphNode}
use multi_agent_orchestratio.Core.Compiled.{CompiledGraph, source_of}

pub record WorkflowGraph (V : Type 0) : Type 0 where
  pub state_schema : Option (Schema V)
  pub name : String
  pub nodes : Dict (GraphNode V)
  pub edges : List (GraphEdge V)
  pub handoff_edges : List (HandoffEdge V)
  pub entry_point : Option String
  pub last_node : Option String
  pub parallel_nodes : Option (List String)

-- Where the two agree on what is not there.
abbrev pub or_none : {A : Type 0} → Option A → A → Option A
or_none none a = some a
or_none (some b) a = some b

-- `self._entry_point or ""`.
abbrev pub entry_of : Option String → String
entry_of none = ""
entry_of (some name) = name

-- The last node, unless it is the loop's own.
abbrev pub other_last : String → Option String → Option String
other_last node_id none = none
other_last node_id (some last) = if last == node_id then none else some last

module _ {V : Type 0} where
  -- `__init__`.
  unfoldable pub empty : Option (Schema V) → String → WorkflowGraph V
  empty state_schema name = record {
    state_schema = state_schema;
    name = name;
    nodes = [];
    edges = [];
    handoff_edges = [];
    entry_point = none;
    last_node = none;
    parallel_nodes = none;
  }

  unfoldable pub add_node : String → GraphNode V → WorkflowGraph V → Result (WorkflowGraph V)
  add_node node_id node graph =
      if node_id == "__start__" || contains node_id graph.nodes
      then raise graph_compile_error
      else ok (record graph {
        nodes = insert node_id node graph.nodes;
        entry_point = or_none graph.entry_point node_id;
      })

  -- `if node_id not in self._nodes: self.add_node(node_id, target)`.
  unfoldable pub add_missing : String × GraphNode V → WorkflowGraph V → Result (WorkflowGraph V)
  add_missing (node_id, node) graph =
      if contains node_id graph.nodes then ok graph else add_node node_id node graph

  unfoldable pub add_graph_edge : GraphEdge V → WorkflowGraph V → WorkflowGraph V
  add_graph_edge edge graph = record graph { edges = graph.edges ++ edge ∷ [] }

  unfoldable pub add_edge : String → Target → WorkflowGraph V → WorkflowGraph V
  unfolding add_graph_edge
  add_edge source target graph =
      add_graph_edge (direct (record { source = source; target = target })) graph

  unfoldable pub add_conditional_edge :
      String → Condition V → Option (Dict Target) → WorkflowGraph V → WorkflowGraph V
  unfolding add_graph_edge
  add_conditional_edge source condition path_map graph =
      add_graph_edge
        (conditional (record { source = source; condition = condition; path_map = path_map })) graph

  unfoldable pub add_parallel :
      String → List String → Option Target → WorkflowGraph V → WorkflowGraph V
  unfolding add_graph_edge
  add_parallel source targets join_node graph =
      add_graph_edge
        (parallel (record { source = source; targets = targets; join_node = join_node })) graph

  unfoldable pub add_handoff : HandoffEdge V → WorkflowGraph V → WorkflowGraph V
  add_handoff edge graph = record graph { handoff_edges = graph.handoff_edges ++ edge ∷ [] }

  unfoldable pub set_entry_point : String → WorkflowGraph V → WorkflowGraph V
  set_entry_point node_id graph = record graph { entry_point = some node_id }

  -- `if self._last_node is not None: self.add_edge(self._last_node, target)`.
  unfoldable pub connect_last : Option String → Target → WorkflowGraph V → WorkflowGraph V
  unfolding add_edge
  connect_last none target graph = graph
  connect_last (some source) target graph = add_edge source target graph

  -- `then`, and `subgraph` with its node.
  unfoldable pub then_node : String → GraphNode V → WorkflowGraph V → Result (WorkflowGraph V)
  unfolding add_node connect_last
  then_node node_id node graph = bind (add_node node_id node graph) λ added.
      ok (record (connect_last added.last_node (Target.node node_id) added) {
        last_node = some node_id;
      })

  -- The condition of a loop node: it counts the rounds in the run's counters.
  unfoldable pub loop_condition : String → String → ℕ → (Dict V → Bool) → Condition V
  loop_condition loop_id node_id max_iterations condition state counters =
      let count = get_or loop_id 0 counters + 1 in
      let counted = insert loop_id count counters in
      if leb max_iterations count
      then (ok Routed.stop, erase loop_id counted)
      else if condition state
      then (ok (Routed.text node_id), counted)
      else (ok Routed.stop, erase loop_id counted)

  -- `loop`, with `loop_id` the text `__loop_{node_id}`.
  unfoldable pub loop_node :
      String
      → String
      → GraphNode V
      → ℕ
      → (Dict V → Bool)
      → WorkflowGraph V
      → Result (WorkflowGraph V)
  unfolding add_missing connect_last add_conditional_edge
  loop_node loop_id node_id node max_iterations condition graph =
      bind (add_missing (node_id, node) graph) λ graph'.
        let connected =
          connect_last (other_last node_id graph'.last_node) (Target.node node_id) graph' in
        let looped =
          add_conditional_edge node_id (loop_condition loop_id node_id max_iterations condition)
            none connected in
        ok (record looped { last_node = some node_id })

  -- `target in valid_targets`.
  abbrev pub is_target : Dict (GraphNode V) → Target → Bool
  is_target nodes (Target.node name) = contains name nodes
  is_target nodes Target.end = true

  unfoldable pub all_targets : Dict (GraphNode V) → Dict Target → Bool
  all_targets nodes [] = true
  all_targets nodes ((key, target) ∷ path_map) =
      is_target nodes target && all_targets nodes path_map

  unfoldable pub edge_is_valid : Dict (GraphNode V) → GraphEdge V → Bool
  unfolding all_targets
  edge_is_valid nodes (direct edge) = contains edge.source nodes && is_target nodes edge.target
  edge_is_valid nodes (conditional edge) =
      contains edge.source nodes
      && (elim edge.path_map [ none ↦ true | some path_map ↦ all_targets nodes path_map ])
  edge_is_valid nodes (parallel edge) =
      contains edge.source nodes && all (λ target. contains target nodes) edge.targets

  -- `_entry_point` is there and names a node.
  abbrev pub entry_is_valid : Dict (GraphNode V) → Option String → Bool
  entry_is_valid nodes none = false
  entry_is_valid nodes (some name) = if name == "" then false else contains name nodes

  unfoldable pub validate : WorkflowGraph V → Result (Unit {0})
  unfolding edge_is_valid
  validate graph =
      if truthy graph.nodes
        && entry_is_valid graph.nodes graph.entry_point
        && all (edge_is_valid graph.nodes) graph.edges
      then ok tt
      else raise graph_compile_error

  abbrev pub has_outgoing : String → List (GraphEdge V) → Bool
  has_outgoing source edges = any (λ edge. source_of edge == source) edges

  -- The edge to END from a last node that has no outgoing edge.
  unfoldable pub close_last : Option String → WorkflowGraph V → WorkflowGraph V
  unfolding add_edge
  close_last none graph = graph
  close_last (some source) graph =
      if has_outgoing source graph.edges then graph else add_edge source Target.end graph

  -- The compiled graph, and the builder with the edge that the compilation adds to it.
  unfoldable pub compile : ℕ → WorkflowGraph V → Result (CompiledGraph V × WorkflowGraph V)
  unfolding validate close_last
  compile max_turns graph = bind (validate graph) λ _.
      let closed = close_last graph.last_node graph in
      ok (
        record {
          nodes = closed.nodes;
          edges = closed.edges;
          entry_point = entry_of closed.entry_point;
          state_schema = closed.state_schema;
          max_turns = max_turns;
          name = closed.name;
          handoff_edges = closed.handoff_edges;
        },
        closed,
      )
