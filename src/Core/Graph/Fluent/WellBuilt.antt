-- ===== src/Core/Graph/Fluent/WellBuilt.antt =====
-- What the builder of src/orchestra/core/graph.py keeps true between its calls.
use multi_agent_orchestratio.Base.{
  true, Option, none, some, List, [], ◌∷◌, String, ok, ok_inj, ◌==◌, ◌||◌, all, All, All-mono, ◌≡◌,
  refl, arith, Bool-cases, Option-cases, inl, inr, eq_refl,
}
use mathlib.Core.Path.{subst}
use multi_agent_orchestratio.Base.Dict.{Dict, contains, insert, contains-insert}
use multi_agent_orchestratio.Core.Edges.{Target, GraphEdge, direct, conditional, parallel}
use multi_agent_orchestratio.Core.Nodes.{GraphNode}
use multi_agent_orchestratio.Core.Graph.{
  WorkflowGraph, add_node, or_none, edge_is_valid, is_target, all_targets,
}

module _ {V : Type 0} where
  abbrev pub Extends : Dict (GraphNode V) → Dict (GraphNode V) → Type 0
  Extends old new = (name : String) → contains name old ≡ true → contains name new ≡ true

  is_target_mono :
      (old new : Dict (GraphNode V)) (target : Target)
      → Extends old new
      → is_target old target ≡ true
      → is_target new target ≡ true
  is_target_mono old new (Target.node name) more h = more name h
  is_target_mono old new Target.end more h = refl

  all_targets_mono :
      (old new : Dict (GraphNode V)) (path_map : Dict Target)
      → Extends old new
      → all_targets old path_map ≡ true
      → all_targets new path_map ≡ true
  unfolding all_targets
  all_targets_mono old new [] more h = refl
  all_targets_mono old new ((key, target) ∷ path_map) more h =
      let here = is_target_mono old new target more in
      let rest = all_targets_mono old new path_map more in ground arith

  all_nodes_mono :
      (old new : Dict (GraphNode V)) (names : List String)
      → Extends old new
      → all (λ name. contains name old) names ≡ true
      → all (λ name. contains name new) names ≡ true
  all_nodes_mono old new [] more h = refl
  all_nodes_mono old new (name ∷ names) more h =
      let here = more name in let rest = all_nodes_mono old new names more in ground arith

  pub edge_is_valid_mono :
      (old new : Dict (GraphNode V)) (edge : GraphEdge V)
      → Extends old new
      → edge_is_valid old edge ≡ true
      → edge_is_valid new edge ≡ true
  unfolding edge_is_valid
  edge_is_valid_mono old new (direct edge) more h =
      let here = more edge.source in
      let there = is_target_mono old new edge.target more in ground arith
  edge_is_valid_mono old new (conditional edge) more h =
      let here = more edge.source in
      elim (Option-cases edge.path_map) [
        | inl open_map ↦ ground arith
        | inr (path_map, given) ↦ let there = all_targets_mono old new path_map more in ground arith
      ]
  edge_is_valid_mono old new (parallel edge) more h =
      let here = more edge.source in
      let there = all_nodes_mono old new edge.targets more in ground arith

  abbrev pub AllNodes : Dict (GraphNode V) → List String → Type 0
  AllNodes nodes names = All (λ name. contains name nodes ≡ true) names

  abbrev pub OnNodes : Dict (GraphNode V) → Option (List String) → Type 0
  OnNodes nodes none = Unit
  OnNodes nodes (some names) = AllNodes nodes names

  abbrev pub IsNode : Dict (GraphNode V) → Option String → Type 0
  IsNode nodes none = Unit
  IsNode nodes (some name) = contains name nodes ≡ true

  abbrev pub ValidIn : Dict (GraphNode V) → List (GraphEdge V) → Type 0
  ValidIn nodes edges = All (λ edge. edge_is_valid nodes edge ≡ true) edges

  -- The edges, the last node, the open group and the entry point are all about nodes of the graph.
  pub record IsWellBuilt (graph : WorkflowGraph V) : Type 0 where
    pub edges_valid : ValidIn graph.nodes graph.edges
    pub last_is_node : IsNode graph.nodes graph.last_node
    pub group_is_there : OnNodes graph.nodes graph.parallel_nodes
    pub entry_is_node : IsNode graph.nodes graph.entry_point

  IsNode-mono :
      (old new : Dict (GraphNode V)) (name : Option String)
      → Extends old new
      → IsNode old name
      → IsNode new name
  IsNode-mono old new none more h = tt
  IsNode-mono old new (some name) more h = more name h

  OnNodes-mono :
      (old new : Dict (GraphNode V)) (group : Option (List String))
      → Extends old new
      → OnNodes old group
      → OnNodes new group
  OnNodes-mono old new none more h = tt
  OnNodes-mono old new (some names) more h = All-mono _ _ more names h

  pub ValidIn-mono :
      (old new : Dict (GraphNode V)) (edges : List (GraphEdge V))
      → Extends old new
      → ValidIn old edges
      → ValidIn new edges
  ValidIn-mono old new edges more =
      All-mono _ _ (λ edge. edge_is_valid_mono old new edge more) edges

  -- What a call that may add nodes gives: a well-built graph that has the old nodes.
  pub record Grown (before after : WorkflowGraph V) : Type 0 where
    pub well_built : IsWellBuilt after
    pub more : Extends before.nodes after.nodes
    pub same_last : after.last_node ≡ before.last_node

  insert-Extends :
      (node_id : String) (node : GraphNode V) (nodes : Dict (GraphNode V))
      → Extends nodes (insert node_id node nodes)
  insert-Extends node_id node nodes name h =
      let e = contains-insert node_id name node nodes in ground arith

  insert_self :
      (node_id : String) (node : GraphNode V) (nodes : Dict (GraphNode V))
      → contains node_id (insert node_id node nodes) ≡ true
  insert_self node_id node nodes =
      let e = contains-insert node_id node_id node nodes in
      let same = eq_refl node_id in ground arith

  entry_added :
      (entry : Option String) (node_id : String) (node : GraphNode V) (nodes : Dict (GraphNode V))
      → IsNode nodes entry
      → IsNode (insert node_id node nodes) (or_none entry node_id)
  entry_added none node_id node nodes h = insert_self node_id node nodes
  entry_added (some name) node_id node nodes h = insert-Extends node_id node nodes name h

  abbrev with_node : String → GraphNode V → WorkflowGraph V → WorkflowGraph V
  with_node node_id node graph = record graph {
    nodes = insert node_id node graph.nodes;
    entry_point = or_none graph.entry_point node_id;
  }

  with_node-Grown :
      (node_id : String) (node : GraphNode V) (graph : WorkflowGraph V)
      → IsWellBuilt graph
      → Grown graph (with_node node_id node graph)
  with_node-Grown node_id node graph built =
      let nodes = insert node_id node graph.nodes in
      let more = insert-Extends node_id node graph.nodes in
      record {
        well_built = record {
          edges_valid = ValidIn-mono graph.nodes nodes graph.edges more built.edges_valid;
          last_is_node = IsNode-mono graph.nodes nodes graph.last_node more built.last_is_node;
          group_is_there =
              OnNodes-mono graph.nodes nodes graph.parallel_nodes more built.group_is_there;
          entry_is_node =
              entry_added graph.entry_point node_id node graph.nodes built.entry_is_node;
        };
        more = more;
        same_last = refl;
      }

  -- A node that is added is there, and all else stays well built.
  pub add_node-Grown :
      (node_id : String) (node : GraphNode V) (graph : WorkflowGraph V) {added : WorkflowGraph V}
      → IsWellBuilt graph
      → add_node node_id node graph ≡ ok added
      → Grown graph added × (contains node_id added.nodes ≡ true)
  unfolding add_node
  add_node-Grown node_id node graph {added} built h =
      elim (Bool-cases (node_id == "__start__" || contains node_id graph.nodes)) [
        | inl refused ↦ cc (rw (refused, add_node) at h)
        | inr taken ↦
            let e = ok_inj (rw (taken, add_node) at h) in
            subst (λ g. Grown graph g × (contains node_id g.nodes ≡ true)) e
              (with_node-Grown node_id node graph built, insert_self node_id node graph.nodes)
      ]
