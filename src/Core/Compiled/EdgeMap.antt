-- ===== src/Core/Compiled/EdgeMap.antt =====
-- The edge lookup that the constructor of `CompiledGraph` computes.
use mathlib.Core.List.{append_assoc, append-nil}
use multi_agent_orchestratio.Base.{
  List, [], true, false, ◌∷◌, ◌++◌, String, ◌≡◌, refl, sym, ◌∙◌, ap, arith, ◌==◌, if◌then◌else◌,
  eq_iff, select, All, Bool-cases, inl, inr,
}
use multi_agent_orchestratio.Base.Dict.{Dict, lookup, get_or, insert, lookup-insert}
use multi_agent_orchestratio.Core.Edges.{GraphEdge}
use multi_agent_orchestratio.Core.Compiled.{source_of, add_to_edge_map, edge_map}

module _ {V : Type 0} where
  get_or-insert :
      (k j : String) (v : List (GraphEdge V)) (d : Dict (List (GraphEdge V)))
      → get_or j [] (insert k v d) ≡ (if k == j then v else get_or j [] d)
  get_or-insert k j v d = rw (lookup-insert k j v d, get_or) (ground arith)

  add_same :
      (k j : String) (edge : GraphEdge V) (d : Dict (List (GraphEdge V)))
      → (k == j) ≡ true
      → get_or j [] (insert k (get_or k [] d ++ edge ∷ []) d) ≡ get_or j [] d ++ edge ∷ []
  add_same k j edge d same =
      get_or-insert k j (get_or k [] d ++ edge ∷ []) d
      ∙ (rw same (ap (λ i. get_or i [] d ++ edge ∷ []) ((eq_iff k j).0 same)))

  add_other :
      (k j : String) (edge : GraphEdge V) (d : Dict (List (GraphEdge V)))
      → (k == j) ≡ false
      → get_or j [] (insert k (get_or k [] d ++ edge ∷ []) d) ≡ get_or j [] d
  add_other k j edge d other = get_or-insert k j (get_or k [] d ++ edge ∷ []) d ∙ (rw other refl)

  get_or-add_to_edge_map :
      (source : String) (found : Dict (List (GraphEdge V))) (edges : List (GraphEdge V))
      → get_or source [] (add_to_edge_map found edges)
        ≡ get_or source [] found ++ select (λ edge. source_of edge == source) edges
  unfolding add_to_edge_map
  get_or-add_to_edge_map source found [] = sym (append-nil (get_or source [] found))
  get_or-add_to_edge_map source found (edge ∷ edges) =
      let from = source_of edge in
      let found' = insert (source_of edge) (get_or (source_of edge) [] found ++ edge ∷ []) found in
      elim (Bool-cases (from == source)) [
        | inl same ↦
            get_or-add_to_edge_map source found' edges
            ∙ (rw (same, select)
                (ap (λ es. es ++ select (λ e. source_of e == source) edges)
                    (add_same from source edge found same)
                  ∙ append_assoc (get_or source [] found) (edge ∷ []) _))
        | inr other ↦
            get_or-add_to_edge_map source found' edges
            ∙ (rw (other, select)
                (ap (λ es. es ++ select (λ e. source_of e == source) edges)
                  (add_other from source edge found other)))
      ]

  -- The edges that the engine follows from a node are those with that source, in the order in
  -- which they were added.
  pub get_or-edge_map :
      (source : String) (edges : List (GraphEdge V))
      → get_or source [] (edge_map edges) ≡ select (λ edge. source_of edge == source) edges
  unfolding edge_map lookup
  get_or-edge_map source edges = get_or-add_to_edge_map source [] edges

  pub All-select :
      (P : GraphEdge V → Type 0) (source : String) (edges : List (GraphEdge V))
      → All P edges
      → All P (select (λ edge. source_of edge == source) edges)
  All-select P source [] h = tt
  All-select P source (edge ∷ edges) h =
      let rest = All-select P source edges h.1 in
      elim (Bool-cases (source_of edge == source)) [
        | inl same ↦ rw (same, select) (h.0, rest)
        | inr other ↦ rw (other, select) rest
      ]
