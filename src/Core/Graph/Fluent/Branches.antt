-- ===== src/Core/Graph/Fluent/Branches.antt =====
-- That `join`, `branch` and `if_then` of src/orchestra/core/graph.py keep a builder well built.
use multi_agent_orchestratio.Base.{
  Bool, true, Option, none, some, List, [], ◌∷◌, String, ok, bind-eq-ok, ok_inj, All, ◌≡◌, refl,
  arith, Bool-cases, inl, inr,
}
use mathlib.Core.Path.{subst}
use multi_agent_orchestratio.Base.Dict.{Dict, contains}
use multi_agent_orchestratio.Core.Edges.{
  Target, GraphEdge, direct, conditional, parallel, Condition,
}
use multi_agent_orchestratio.Core.Nodes.{GraphNode}
use multi_agent_orchestratio.Core.Graph.{
  WorkflowGraph, add_node, add_missing, add_conditional_edge, edge_is_valid, is_target, all_targets,
}
use multi_agent_orchestratio.Core.Graph.Fluent.{
  Named, awaits, set_join, join_group, BranchTarget, to_end, to_name, to_agent, add_target,
  resolve_map, branch_from, then_or_else, add_else, connect_branches, if_then,
}
use multi_agent_orchestratio.Core.Graph.Fluent.WellBuilt.{
  Extends, IsNode, ValidIn, IsWellBuilt, Grown, add_node-Grown,
}
use multi_agent_orchestratio.Core.Graph.Fluent.Groups.{same_Grown, then_Grown, with_edge, with_last}

module _ {V : Type 0} where
  set_join-valid :
      (nodes : Dict (GraphNode V)) (group : List String) (node_id : String)
      (edges : List (GraphEdge V))
      → ValidIn nodes edges
      → ValidIn nodes (set_join group node_id edges)
  unfolding set_join
  set_join-valid nodes group node_id [] valid = tt
  set_join-valid nodes group node_id (parallel edge ∷ edges) valid =
      elim (Bool-cases (awaits group edge)) [
        | inl mine ↦ rw mine (unfold edge_is_valid in (valid.0, valid.1))
        | inr other ↦ rw other (valid.0, set_join-valid nodes group node_id edges valid.1)
      ]
  set_join-valid nodes group node_id (direct edge ∷ edges) valid =
      (valid.0, set_join-valid nodes group node_id edges valid.1)
  set_join-valid nodes group node_id (conditional edge ∷ edges) valid =
      (valid.0, set_join-valid nodes group node_id edges valid.1)

  pub join_group-built :
      (group : Option (List String)) (item : Named V) (graph : WorkflowGraph V)
      {after : WorkflowGraph V}
      → IsWellBuilt graph
      → join_group group item graph ≡ ok after
      → IsWellBuilt after
  unfolding join_group
  join_group-built none (node_id, node) graph built h = cc
  join_group-built (some group) (node_id, node) graph built h =
      let (added, adding, made) = bind-eq-ok (add_node node_id node graph) _ h in
      let (grown, there) = add_node-Grown node_id node graph built adding in
      let kept = grown.well_built in
      subst IsWellBuilt (ok_inj made) (record {
        edges_valid = set_join-valid added.nodes group node_id added.edges kept.edges_valid;
        last_is_node = there;
        group_is_there = tt;
        entry_is_node = kept.entry_is_node;
      })

  pub add_missing-Grown :
      (item : Named V) (graph : WorkflowGraph V) {after : WorkflowGraph V}
      → IsWellBuilt graph
      → add_missing item graph ≡ ok after
      → Grown graph after × (contains item.0 after.nodes ≡ true)
  unfolding add_missing
  add_missing-Grown (node_id, node) graph {after} built h =
      elim (Bool-cases (contains node_id graph.nodes)) [
        | inl there ↦
            let e = ok_inj (rw (there, add_missing) at h) in
            subst (λ g. Grown graph g × (contains node_id g.nodes ≡ true)) e
              (same_Grown graph built, there)
        | inr missing ↦ add_node-Grown node_id node graph built (rw (missing, add_missing) at h)
      ]

  -- A target that is no bare name.
  abbrev pub HasNode : BranchTarget V → Type 0
  HasNode to_end = Unit
  HasNode (to_name name) = ⊥
  HasNode (to_agent item) = Unit

  TargetIn : Dict (GraphNode V) → Target → Type 0
  TargetIn nodes target = is_target nodes target ≡ true

  add_target-Grown :
      (target : BranchTarget V) (graph : WorkflowGraph V) {resolved : Target}
      {after : WorkflowGraph V}
      → HasNode target
      → IsWellBuilt graph
      → add_target target graph ≡ ok (resolved, after)
      → Grown graph after × (is_target after.nodes resolved ≡ true)
  unfolding add_target
  add_target-Grown to_end graph agent built h =
      subst (λ (p : Target × WorkflowGraph V). Grown graph p.1 × (is_target p.1.nodes p.0 ≡ true))
        (ok_inj h) (same_Grown graph built, refl)
  add_target-Grown (to_name name) graph agent built h = absurd agent
  add_target-Grown (to_agent item) graph agent built h =
      let (added, adding, made) = bind-eq-ok (add_missing item graph) _ h in
      subst (λ (p : Target × WorkflowGraph V). Grown graph p.1 × (is_target p.1.nodes p.0 ≡ true))
        (ok_inj made) (add_missing-Grown item graph built adding)

  Extends-target :
      (old new : Dict (GraphNode V)) (target : Target)
      → Extends old new
      → is_target old target ≡ true
      → is_target new target ≡ true
  Extends-target old new (Target.node name) more h = more name h
  Extends-target old new Target.end more h = refl

  resolve_map-Grown :
      (path_map : Dict (BranchTarget V)) (graph : WorkflowGraph V) {resolved : Dict Target}
      {after : WorkflowGraph V}
      → All (λ entry. HasNode entry.1) path_map
      → IsWellBuilt graph
      → resolve_map path_map graph ≡ ok (resolved, after)
      → Grown graph after × (all_targets after.nodes resolved ≡ true)
  unfolding resolve_map all_targets
  resolve_map-Grown [] graph agents built h =
      subst
        (λ (p : Dict Target × WorkflowGraph V).
          Grown graph p.1 × (all_targets p.1.nodes p.0 ≡ true))
        (ok_inj h) (same_Grown graph built, refl)
  resolve_map-Grown ((key, target) ∷ path_map) graph agents built h =
      let (first, adding, rest) = bind-eq-ok (add_target target graph) _ h in
      let (others, resolving, made) = bind-eq-ok (resolve_map path_map first.1) _ rest in
      let (grown, there) = add_target-Grown target graph agents.0 built adding in
      let (later, all_there) =
        resolve_map-Grown path_map first.1 agents.1 grown.well_built resolving in
      let here = Extends-target first.1.nodes others.1.nodes first.0 later.more there in
      subst
        (λ (p : Dict Target × WorkflowGraph V).
          Grown graph p.1 × (all_targets p.1.nodes p.0 ≡ true))
        (ok_inj made) (then_Grown graph first.1 others.1 grown later, ground arith)

  connect_branches-built :
      (last : Option String) (condition : Condition V) (path_map : Dict Target)
      (graph : WorkflowGraph V)
      → IsWellBuilt graph
      → IsNode graph.nodes last
      → all_targets graph.nodes path_map ≡ true
      → IsWellBuilt (record (connect_branches last condition path_map graph) { last_node = none })
  unfolding connect_branches add_conditional_edge
  connect_branches-built none condition path_map graph built is_node there =
      with_last none graph built tt
  connect_branches-built (some source) condition path_map graph built is_node there =
      with_last none _
        (with_edge
          (conditional
            (record { source = source; condition = condition; path_map = some path_map }))
          graph built (unfold edge_is_valid in ground arith))
        tt

  pub branch_from-built :
      (last : Option String) (condition : Condition V) (path_map : Dict (BranchTarget V))
      (graph : WorkflowGraph V) {after : WorkflowGraph V}
      → All (λ entry. HasNode entry.1) path_map
      → IsWellBuilt graph
      → IsNode graph.nodes last
      → branch_from last condition path_map graph ≡ ok after
      → IsWellBuilt after
  unfolding branch_from
  branch_from-built none condition path_map graph agents built is_node h = cc
  branch_from-built (some source) condition path_map graph agents built is_node h =
      let (resolved, resolving, made) = bind-eq-ok (resolve_map path_map graph) _ h in
      let (grown, there) = resolve_map-Grown path_map graph agents built resolving in
      subst IsWellBuilt (ok_inj made) (
        unfold connect_branches in
        connect_branches-built (some source) condition resolved.0 resolved.1 grown.well_built
          (grown.more source is_node) there)

  add_else-Grown :
      (item : Option (Named V)) (graph : WorkflowGraph V) {resolved : Target}
      {after : WorkflowGraph V}
      → IsWellBuilt graph
      → add_else item graph ≡ ok (resolved, after)
      → Grown graph after × (is_target after.nodes resolved ≡ true)
  unfolding add_else
  add_else-Grown none graph built h =
      subst (λ (p : Target × WorkflowGraph V). Grown graph p.1 × (is_target p.1.nodes p.0 ≡ true))
        (ok_inj h) (same_Grown graph built, refl)
  add_else-Grown (some item) graph built h =
      let (added, adding, made) = bind-eq-ok (add_missing item graph) _ h in
      subst (λ (p : Target × WorkflowGraph V). Grown graph p.1 × (is_target p.1.nodes p.0 ≡ true))
        (ok_inj made) (add_missing-Grown item graph built adding)

  pub if_then-built :
      (condition : Dict V → Bool) (then_item : Named V) (else_item : Option (Named V))
      (graph : WorkflowGraph V) {after : WorkflowGraph V}
      → IsWellBuilt graph
      → if_then condition then_item else_item graph ≡ ok after
      → IsWellBuilt after
  unfolding if_then
  if_then-built condition then_item else_item graph built h =
      let (added, adding, rest) = bind-eq-ok (add_missing then_item graph) _ h in
      let (other, elsing, made) = bind-eq-ok (add_else else_item added) _ rest in
      let (grown, there) = add_missing-Grown then_item graph built adding in
      let (later, other_there) = add_else-Grown else_item added grown.well_built elsing in
      let first = later.more then_item.0 there in
      subst IsWellBuilt (ok_inj made) (
        connect_branches-built other.1.last_node (then_or_else condition) _ other.1 later.well_built
          later.well_built.last_is_node (unfold all_targets in ground arith))
