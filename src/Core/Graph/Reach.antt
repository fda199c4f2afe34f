-- ===== src/Core/Graph/Reach.antt =====
-- Where a run goes from a node of a compiled graph.
use multi_agent_orchestratio.Base.{
  ℕ, Bool, true, false, Option, none, some, List, [], ◌∷◌, String, Result, ok, raise, bind, ◌&&◌,
  is_some, All, ◌≡◌, ◌≢◌, refl, arith, Option-cases, inl, inr,
}
use multi_agent_orchestratio.Base.Dict.{Dict, contains, lookup, insert}
use multi_agent_orchestratio.Core.Edges.{
  Target, Routed, as_routed, Counters, GraphEdge, direct, conditional, parallel, resolve_path,
  coerce_path_key, mapped, resolve,
}
use multi_agent_orchestratio.Core.Nodes.{GraphNode}
use multi_agent_orchestratio.Core.Compiled.{Values, CompiledGraph, Machine}
use multi_agent_orchestratio.Core.Compiled.EdgeMap.{get_or-edge_map, All-select}
use multi_agent_orchestratio.Core.Compiled.Next.{
  after_condition, execute_sends, follow_conditional, follow_edge, follow, follow_handoffs,
  execute_parallel, resolve_next, join_of,
}
use multi_agent_orchestratio.Core.Compiled.Exec.{Exec, return, lift, ◌>>=◌}
use multi_agent_orchestratio.Core.Graph.{
  WorkflowGraph, is_target, all_targets, edge_is_valid, compile,
}
use multi_agent_orchestratio.Core.Graph.Closed.{LastIsNode, compile-EdgesValid}

-- Nothing is claimed where an error is raised.
abbrev pub Given : {A : Type 0} → (A → Type 0) → Result A → Type 0
Given P (ok a) = P a
Given P (raise e) = Unit

Given-bind :
    {A B : Type 0} (P : A → Type 0) (Q : B → Type 0) (r : Result A) (f : A → Result B)
    → Given P r
    → ((a : A) → P a → Given Q (f a))
    → Given Q (bind r f)
Given-bind P Q (ok a) f h steps = steps a h
Given-bind P Q (raise e) f h steps = tt

Given-all :
    {A B : Type 0} (Q : B → Type 0) (r : Result A) (f : A → Result B)
    → ((a : A) → Given Q (f a))
    → Given Q (bind r f)
Given-all Q (ok a) f steps = steps a
Given-all Q (raise e) f steps = tt

and_right : (a b : Bool) → (a && b) ≡ true → b ≡ true
and_right true b h = h
and_right false b h = cc

module _ {V : Type 0} where
  -- What the engine can go on with: a node of the graph, or END.
  abbrev pub IsKnown : CompiledGraph V → Routed V → Type 0
  IsKnown graph (Routed.text name) = contains name graph.nodes ≡ true
  IsKnown graph Routed.stop = Unit
  IsKnown graph _ = ⊥

  abbrev pub JoinIsNode : CompiledGraph V → Option Target → Type 0
  JoinIsNode graph none = Unit
  JoinIsNode graph (some join) = is_target graph.nodes join ≡ true

  -- What the validation does not look at: a conditional edge has a path map and its condition
  -- returns no object but END and sends, and a join node is a node.
  abbrev pub IsRouted : CompiledGraph V → GraphEdge V → Type 0
  IsRouted graph (direct edge) = Unit
  IsRouted graph (conditional edge) =
      (is_some edge.path_map ≡ true)
      × ((state : Dict V) (counters : Counters) (v : V)
          → (edge.condition state counters).0 ≢ ok (Routed.other v))
  IsRouted graph (parallel edge) = JoinIsNode graph edge.join_node

  target-IsKnown :
      (graph : CompiledGraph V) (target : Target)
      → is_target graph.nodes target ≡ true
      → IsKnown graph (as_routed target)
  target-IsKnown graph (Target.node name) h = h
  target-IsKnown graph Target.end h = tt

  -- A node of the graph, END, or a fan-out.
  abbrev IsRoute : CompiledGraph V → Routed V → Type 0
  IsRoute graph (Routed.sends _ _) = Unit
  IsRoute graph result = IsKnown graph result

  target-IsRoute :
      (graph : CompiledGraph V) (target : Target)
      → is_target graph.nodes target ≡ true
      → IsRoute graph (as_routed target)
  target-IsRoute graph (Target.node name) h = h
  target-IsRoute graph Target.end h = tt

  lookup-all_targets :
      (nodes : Dict (GraphNode V)) (path_map : Dict Target) (key : String) {target : Target}
      → all_targets nodes path_map ≡ true
      → lookup key path_map ≡ some target
      → is_target nodes target ≡ true
  unfolding all_targets lookup
  lookup-all_targets nodes [] key h found = cc
  lookup-all_targets nodes ((k, t) ∷ path_map) key {target} h found =
      ground (arith, lookup-all_targets nodes path_map key {target = target})

  looked_up :
      (graph : CompiledGraph V) (path_map : Dict Target) (key : String) (result : Routed V)
      → all_targets graph.nodes path_map ≡ true
      → Given (IsRoute graph) (mapped path_map (some key) result)
  unfolding mapped
  looked_up graph path_map key result valid = elim (Option-cases (lookup key path_map)) [
    | inl missing ↦ rw (missing, Given, mapped) tt
    | inr (target, found) ↦
        rw (found, Given, mapped)
          (target-IsRoute graph target (lookup-all_targets graph.nodes path_map key valid found))
  ]

  resolve_path-IsRoute :
      (values : Values V) (graph : CompiledGraph V) (path_map : Dict Target) (r : Result (Routed V))
      → all_targets graph.nodes path_map ≡ true
      → ((v : V) → r ≢ ok (Routed.other v))
      → Given (IsRoute graph) (bind r (resolve_path values.dumps (some path_map)))
  unfolding resolve_path coerce_path_key
  resolve_path-IsRoute values graph path_map (raise e) valid no_other = tt
  resolve_path-IsRoute values graph path_map (ok (Routed.text name)) valid no_other =
      looked_up graph path_map name (Routed.text name) valid
  resolve_path-IsRoute values graph path_map (ok (Routed.scalar v)) valid no_other =
      looked_up graph path_map (values.dumps v) (Routed.scalar v) valid
  resolve_path-IsRoute values graph path_map (ok Routed.stop) valid no_other = unfold mapped in tt
  resolve_path-IsRoute values graph path_map (ok (Routed.sends send sends)) valid no_other =
      unfold mapped in tt
  resolve_path-IsRoute values graph path_map (ok (Routed.other v)) valid no_other =
      absurd (no_other v refl)

  after_condition-IsKnown :
      (graph : CompiledGraph V) (seen state : Dict V) (result : Routed V)
      → IsRoute graph result
      → Given (λ next. IsKnown graph next.0) (after_condition graph seen state result)
  unfolding after_condition
  after_condition-IsKnown graph seen state (Routed.sends send sends) h =
      Given-all (λ next. IsKnown graph next.0) (execute_sends graph (send ∷ sends) seen state) _
        (λ new_state. tt)
  after_condition-IsKnown graph seen state (Routed.text name) h = h
  after_condition-IsKnown graph seen state Routed.stop h = tt
  after_condition-IsKnown graph seen state (Routed.scalar v) h = absurd h
  after_condition-IsKnown graph seen state (Routed.other v) h = absurd h

  conditional-IsRoute :
      (values : Values V) (graph : CompiledGraph V) (path_map : Option (Dict Target)) (b : Bool)
      (r : Result (Routed V))
      → (b && (elim path_map [ none ↦ true | some targets ↦ all_targets graph.nodes targets ]))
        ≡ true
      → is_some path_map ≡ true
      → ((v : V) → r ≢ ok (Routed.other v))
      → Given (IsRoute graph) (bind r (resolve_path values.dumps path_map))
  conditional-IsRoute values graph none b r valid mapping no_other = cc
  conditional-IsRoute values graph (some targets) b r valid mapping no_other =
      resolve_path-IsRoute values graph targets r (and_right b _ valid) no_other

  join-IsKnown :
      (graph : CompiledGraph V) (join_node : Option Target)
      → JoinIsNode graph join_node
      → IsKnown graph (join_of join_node)
  join-IsKnown graph none h = tt
  join-IsKnown graph (some join) h = target-IsKnown graph join h

  Given-lift :
      {A B : Type 0} (Q : B → Type 0) (r : Result A) (f : A → Exec V B) (m : Machine V)
      → ((a : A) → Given Q (f a m).0)
      → Given Q ((lift r >>= f) m).0
  unfolding lift ◌>>=◌
  Given-lift Q (ok a) f m steps = steps a
  Given-lift Q (raise e) f m steps = tt

  follow_edge-IsKnown :
      (values : Values V) (graph : CompiledGraph V) (edge : GraphEdge V) (state : Dict V)
      (m : Machine V)
      → edge_is_valid graph.nodes edge ≡ true
      → IsRouted graph edge
      → Given (λ next. IsKnown graph next.0) (follow_edge values graph edge state m).0
  unfolding follow_edge edge_is_valid follow_conditional resolve return
  follow_edge-IsKnown values graph (direct edge) state m valid routed =
      target-IsKnown graph edge.target (and_right _ _ valid)
  follow_edge-IsKnown values graph (conditional edge) state m valid routed =
      let counters = m.context.loop_counters in
      let state_dict = insert "__loop_counters__" (values.of_counters counters) state in
      Given-bind (IsRoute graph) (λ next. IsKnown graph next.0) _ _
        (conditional-IsRoute values graph edge.path_map (contains edge.source graph.nodes)
          (edge.condition state_dict counters).0 valid routed.0 (routed.1 state_dict counters))
        (λ result h. after_condition-IsKnown graph _ state result h)
  follow_edge-IsKnown values graph (parallel edge) state m valid routed =
      Given-lift (λ next. IsKnown graph next.0) (execute_parallel graph edge state) _ m
        (λ new_state. join-IsKnown graph edge.join_node routed)

  follow-IsKnown :
      (values : Values V) (graph : CompiledGraph V) (current : String) (edges : List (GraphEdge V))
      (state : Dict V) (m : Machine V)
      → graph.handoff_edges ≡ []
      → All (λ edge. edge_is_valid graph.nodes edge ≡ true) edges
      → All (IsRouted graph) edges
      → Given (λ next. IsKnown graph next.0) (follow values graph current edges state m).0
  unfolding follow follow_handoffs return
  follow-IsKnown values graph current [] state m no_handoffs valid routed = rw no_handoffs tt
  follow-IsKnown values graph current (edge ∷ edges) state m no_handoffs valid routed =
      follow_edge-IsKnown values graph edge state m valid.0 routed.0

  -- From each node of a compiled graph without handoffs the engine goes on to one of its nodes or to
  -- END, if it goes on, provided that the builder's last node is one of its nodes, that each
  -- conditional edge has a path map and a condition that returns no object but END and sends, and
  -- that each join node is a node.
  pub resolve_next-IsKnown :
      (values : Values V) (max_turns : ℕ) (builder : WorkflowGraph V) {graph : CompiledGraph V}
      {closed : WorkflowGraph V} (current : String) (state : Dict V) (m : Machine V)
      → LastIsNode builder.last_node builder.nodes
      → compile max_turns builder ≡ ok (graph, closed)
      → All (IsRouted graph) graph.edges
      → graph.handoff_edges ≡ []
      → Given (λ next. IsKnown graph next.0) (resolve_next values graph current state m).0
  unfolding resolve_next
  resolve_next-IsKnown values max_turns builder {graph} current state m last compiled routed
        no_handoffs =
      let valid = (compile-EdgesValid max_turns builder last compiled).0 in
      rw (get_or-edge_map current graph.edges) (
        follow-IsKnown values graph current _ state m no_handoffs
          (All-select (λ edge. edge_is_valid graph.nodes edge ≡ true) current graph.edges valid)
          (All-select (IsRouted graph) current graph.edges routed))
