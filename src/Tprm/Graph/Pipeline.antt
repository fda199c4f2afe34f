-- ===== src/Tprm/Graph/Pipeline.antt =====
-- The way of a review through the graph of src/orchestra_tprm/graph.py.
use multi_agent_orchestratio.Base.{
  ℕ, zero, suc, Bool, true, false, ◌&&◌, ◌==◌, Option, none, some, List, [], ◌∷◌, ◌++◌, String,
  Result, ok, raise, ◌≡◌, refl, ap, arith, eq_iff,
}
use multi_agent_orchestratio.Base.Dict.{lookup, insert}
use multi_agent_orchestratio.Core.State.{Schema}
use multi_agent_orchestratio.Core.Edges.{GraphEdge, direct, conditional, parallel, Target}
use multi_agent_orchestratio.Core.Nodes.{GraphNode}
use multi_agent_orchestratio.Core.Compiled.{CompiledGraph, source_of}
use multi_agent_orchestratio.Core.Graph.{WorkflowGraph}
use multi_agent_orchestratio.Tprm.Graph.{
  OutputKind, sheet, doc, ModeConfig, Choice, choice_of, build_specialists, build, build_graph,
}

-- A step on the way: one node, or nodes side by side.
pub data Step : Type 0 where
  alone : String → Step
  together : List String → Step

module _ {V : Type 0} where
  -- The steps of an edge, and where it leads on.
  behind : GraphEdge V → List Step × Option Target
  behind (direct edge) = ([], some edge.target)
  behind (conditional edge) = ([], none)
  behind (parallel edge) = (together edge.targets ∷ [], edge.join_node)

  first_from : String → List (GraphEdge V) → List Step × Option Target
  unfolding behind
  first_from source [] = ([], none)
  first_from source (edge ∷ edges) = elim (source_of edge == source) [
    | true ↦ behind edge
    | false ↦ first_from source edges
  ]

  -- The way along the edges from a target to END, which a dead end or a lack of fuel has not.
  way : ℕ → List (GraphEdge V) → Option Target → Option (List Step)
  unfolding first_from
  way fuel edges none = none
  way fuel edges (some Target.end) = some []
  way zero edges (some (Target.node name)) = none
  way (suc fuel) edges (some (Target.node name)) =
      let (steps, next) = first_from name edges in
      elim (way fuel edges next) [ none ↦ none | some rest ↦ some (alone name ∷ steps ++ rest) ]

  pub way_of : Result (CompiledGraph V × WorkflowGraph V) → Option (List Step)
  unfolding way
  way_of (raise e) = none
  way_of (ok (graph, closed)) = way 12 graph.edges (some (Target.node graph.entry_point))

-- The pipeline of a review: a deal has the gate before the router and the planner at the end.
abbrev pub pipeline : List String → OutputKind → List Step
pipeline specialists sheet =
    alone "bootstrap"
    ∷ alone "intake"
    ∷ alone "router"
    ∷ together specialists
    ∷ alone "risk_score"
    ∷ alone "policy"
    ∷ alone "remediation"
    ∷ alone "coordinator"
    ∷ []
pipeline specialists doc =
    alone "bootstrap"
    ∷ alone "intake"
    ∷ alone "vdr_gate"
    ∷ alone "router"
    ∷ together specialists
    ∷ alone "risk_score"
    ∷ alone "policy"
    ∷ alone "remediation"
    ∷ alone "coordinator"
    ∷ alone "pmi_planner"
    ∷ []

same_names : List String → List String → Bool
same_names [] [] = true
same_names (x ∷ xs) (y ∷ ys) = x == y && same_names xs ys
same_names _ _ = false

same_names→eq : (xs ys : List String) → same_names xs ys ≡ true → xs ≡ ys
unfolding same_names
same_names→eq [] [] h = refl
same_names→eq (x ∷ xs) [] h = cc
same_names→eq [] (y ∷ ys) h = cc
same_names→eq (x ∷ xs) (y ∷ ys) h = let rest = same_names→eq xs ys in ground (arith, eq_iff x y)

same_way : List Step → List Step → Bool
unfolding same_names
same_way [] [] = true
same_way (alone x ∷ xs) (alone y ∷ ys) = x == y && same_way xs ys
same_way (together x ∷ xs) (together y ∷ ys) = same_names x y && same_way xs ys
same_way _ _ = false

same_way→eq : (xs ys : List Step) → same_way xs ys ≡ true → xs ≡ ys
unfolding same_way
same_way→eq [] [] h = refl
same_way→eq [] (y ∷ ys) h = cc
same_way→eq (alone x ∷ xs) [] h = cc
same_way→eq (together x ∷ xs) [] h = cc
same_way→eq (alone x ∷ xs) (together y ∷ ys) h = cc
same_way→eq (together x ∷ xs) (alone y ∷ ys) h = cc
same_way→eq (alone x ∷ xs) (alone y ∷ ys) h =
    let rest = same_way→eq xs ys in ground (arith, eq_iff x y)
same_way→eq (together x ∷ xs) (together y ∷ ys) h =
    let names = same_names→eq x y in let rest = same_way→eq xs ys in ground arith

both : (Bool → Bool) → Bool
both p = p true && p false

both_sound : (p : Bool → Bool) → both p ≡ true → (b : Bool) → p b ≡ true
unfolding both
both_sound p h true = ground arith
both_sound p h false = ground arith

is_way : Option (List Step) → List Step → Bool
unfolding same_way
is_way none expected = false
is_way (some steps) expected = same_way steps expected

is_way→eq :
    (found : Option (List Step)) (expected : List Step)
    → is_way found expected ≡ true
    → found ≡ some expected
unfolding is_way
is_way→eq none expected h = cc
is_way→eq (some steps) expected h = ap some (same_way→eq steps expected h)

abbrev choice : Bool → Bool → Bool → Bool → Bool → Bool → Bool → Choice
choice legal security external code financial saas_metrics esg = record {
  legal = legal;
  security = security;
  external = external;
  code = code;
  financial = financial;
  saas_metrics = saas_metrics;
  esg = esg;
}

module _ {V : Type 0} (shim : String → GraphNode V) (state_schema : Schema V) (max_turns : ℕ) where
  built_right : OutputKind → Choice → Bool
  unfolding is_way way_of build build_specialists
  built_right kind chosen =
      let specialists = build_specialists chosen in
      is_way (way_of (build shim state_schema max_turns specialists kind))
        (pipeline specialists kind)

  -- Every choice of the specialists, by evaluation.
  all_choices : OutputKind → Bool
  unfolding built_right
  all_choices kind = both λ a.
      both λ b.
        both λ c. both λ d. both λ e. both λ f. both λ g. built_right kind (choice a b c d e f g)

  all_choices_hold : (kind : OutputKind) → all_choices kind ≡ true
  unfolding all_choices both lookup insert
  all_choices_hold sheet = refl
  all_choices_hold doc = refl

  built_right_each : (kind : OutputKind) (chosen : Choice) → built_right kind chosen ≡ true
  unfolding all_choices
  built_right_each kind chosen =
      both_sound _
        (both_sound _
          (both_sound _
            (both_sound _
              (both_sound _
                (both_sound _ (both_sound _ (all_choices_hold kind) chosen.legal) chosen.security)
                chosen.external)
              chosen.code)
            chosen.financial)
          chosen.saas_metrics)
        chosen.esg

  -- Whatever specialists a mode runs, its graph compiles, and the way along its edges from the entry
  -- point to END is the pipeline of the mode: every node once and in order, with all active
  -- specialists side by side between the router and the risk score.
  pub build_graph-pipeline :
      (cfg : ModeConfig)
      → way_of (build_graph shim state_schema max_turns cfg)
        ≡ some (pipeline (build_specialists (choice_of cfg.specialists)) cfg.output_kind)
  unfolding build_graph built_right
  build_graph-pipeline cfg =
      is_way→eq _ _ (built_right_each cfg.output_kind (choice_of cfg.specialists))
