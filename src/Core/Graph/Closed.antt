-- ===== src/Core/Graph/Closed.antt =====
-- What a compiled graph guarantees: its edges lead to its nodes.
use multi_agent_orchestratio.Base.{
  ℕ, Bool, true, Option, none, some, List, [], ◌∷◌, ◌++◌, String, ok, raise, bind-eq-ok, ◌==◌, all,
  truthy, All, ◌≡◌, refl, ap, Bool-cases, inl, inr,
}
use multi_agent_orchestratio.Base.Dict.{Dict, contains}
use multi_agent_orchestratio.Core.Edges.{GraphEdge}
use multi_agent_orchestratio.Core.Nodes.{GraphNode}
use multi_agent_orchestratio.Core.Compiled.{CompiledGraph}
use multi_agent_orchestratio.Core.Graph.{
  WorkflowGraph, edge_is_valid, validate, close_last, compile, has_outgoing, entry_of,
  entry_is_valid, add_edge,
}

module _ {V : Type 0} where
  -- Every edge of the compiled graph passes the test of the validation.
  abbrev pub EdgesValid : CompiledGraph V → Type 0
  EdgesValid graph = All (λ edge. edge_is_valid graph.nodes edge ≡ true) graph.edges

  all-All :
      (p : GraphEdge V → Bool) (edges : List (GraphEdge V))
      → all p edges ≡ true
      → All (λ e. p e ≡ true) edges
  all-All p [] h = tt
  all-All p (edge ∷ edges) h = elim (Bool-cases (p edge)) [
    | inl good ↦ (good, all-All p edges (rw good at h))
    | inr bad ↦ cc (rw bad at h)
  ]

  -- The last node of the builder, if there is one, is a node.
  abbrev pub LastIsNode : Option String → Dict (GraphNode V) → Type 0
  LastIsNode none nodes = Unit
  LastIsNode (some last) nodes = contains last nodes ≡ true

  All-snoc :
      (P : GraphEdge V → Type 0) (edges : List (GraphEdge V)) (edge : GraphEdge V)
      → All P edges
      → P edge
      → All P (edges ++ edge ∷ [])
  All-snoc P [] edge h k = (k, tt)
  All-snoc P (first ∷ edges) edge h k = (h.0, All-snoc P edges edge h.1 k)

  close_last-valid :
      (last : Option String) (builder : WorkflowGraph V)
      → LastIsNode last builder.nodes
      → All (λ edge. edge_is_valid builder.nodes edge ≡ true) builder.edges
      → All (λ edge. edge_is_valid builder.nodes edge ≡ true) (close_last last builder).edges
        × (((close_last last builder).nodes ≡ builder.nodes)
            × ((close_last last builder).entry_point ≡ builder.entry_point))
  unfolding close_last
  close_last-valid none builder last h = (h, (refl, refl))
  close_last-valid (some source) builder last h =
      elim (Bool-cases (has_outgoing source builder.edges)) [
        | inl outgoing ↦ rw (outgoing, close_last) (h, (refl, refl))
        | inr closing ↦
            rw (closing, close_last)
              (unfold add_edge edge_is_valid in
                (
                  All-snoc (λ edge. edge_is_valid builder.nodes edge ≡ true) builder.edges _ h
                      (rw last refl),
                  (refl, refl),
                ))
      ]

  entry_is_valid-contains :
      (nodes : Dict (GraphNode V)) (entry : Option String)
      → entry_is_valid nodes entry ≡ true
      → contains (entry_of entry) nodes ≡ true
  entry_is_valid-contains nodes none h = cc
  entry_is_valid-contains nodes (some name) h = elim (Bool-cases (name == "")) [
    | inl no_name ↦ cc (rw no_name at h)
    | inr named ↦ rw named at h
  ]

  validated :
      (builder : WorkflowGraph V) {u : Unit {0}}
      → validate builder ≡ ok u
      → All (λ edge. edge_is_valid builder.nodes edge ≡ true) builder.edges
        × (contains (entry_of builder.entry_point) builder.nodes ≡ true)
  unfolding validate
  validated builder h = elim (Bool-cases (truthy builder.nodes)) [
    | inr bad ↦ cc (rw (bad, validate) at h)
    | inl nodes ↦ elim (Bool-cases (entry_is_valid builder.nodes builder.entry_point)) [
      | inr bad ↦ cc (rw (nodes, bad, validate) at h)
      | inl entry ↦ elim (Bool-cases (all (edge_is_valid builder.nodes) builder.edges)) [
        | inr bad ↦ cc (rw (nodes, entry, bad, validate) at h)
        | inl edges ↦ (
          all-All (edge_is_valid builder.nodes) builder.edges edges,
          entry_is_valid-contains builder.nodes builder.entry_point entry,
        )
      ]
    ]
  ]

  -- A compiled graph begins at one of its nodes, and each of its edges starts at a node and leads to
  -- nodes or END: the target of a plain edge, the values of a path map, and the targets of a fan-out.
  pub compile-EdgesValid :
      (max_turns : ℕ) (builder : WorkflowGraph V) {graph : CompiledGraph V}
      {closed : WorkflowGraph V}
      → LastIsNode builder.last_node builder.nodes
      → compile max_turns builder ≡ ok (graph, closed)
      → EdgesValid graph × (contains graph.entry_point graph.nodes ≡ true)
  unfolding compile
  compile-EdgesValid max_turns builder {graph} {closed} last h =
      let (u, valid, made) = bind-eq-ok (validate builder) _ h in
      let (edges, entry) = validated builder valid in
      let (kept, (nodes_same, entry_same)) =
        close_last-valid builder.last_node builder last edges in
      let same = ap (λ r. elim r [ ok both ↦ both.0 | raise e ↦ graph ]) made in
      rw (← same) (rw (nodes_same, entry_same) (kept, entry))
