-- ===== src/Tprm/Graph.antt =====
-- `_build_specialists` and `build_graph` of src/orchestra_tprm/graph.py, which builds the review's
-- workflow by the builder of orchestra/core/graph.py. What a node does is its shim, an argument.
pub mod Pipeline
use multi_agent_orchestratio.Base.{
  ℕ, Bool, true, false, Option, none, some, List, [], ◌∷◌, ◌++◌, String, Result, ok, bind, not,
  ◌==◌, if◌then◌else◌,
}
use multi_agent_orchestratio.Core.State.{Schema}
use multi_agent_orchestratio.Core.Edges.{Target}
use multi_agent_orchestratio.Core.Nodes.{GraphNode}
use multi_agent_orchestratio.Core.Compiled.{CompiledGraph}
use multi_agent_orchestratio.Core.Graph.{
  WorkflowGraph, empty, add_node, add_edge, add_parallel, set_entry_point, compile,
}

pub data OutputKind : Type 0 where
  sheet doc : OutputKind

-- The model of each specialist; `None` and "" leave it out.
pub record SpecialistModels : Type 0 where
  pub legal : Option String
  pub financial : Option String
  pub security : Option String
  pub code : Option String
  pub external : Option String
  pub saas_metrics : Option String
  pub esg : Option String

pub record ModeConfig : Type 0 where
  pub specialists : SpecialistModels
  pub output_kind : OutputKind

-- `if spec.legal`.
abbrev pub is_given : Option String → Bool
is_given none = false
is_given (some model) = not (model == "")

-- Which specialists run. The modules of all of them are there, so none of their classes is None.
pub record Choice : Type 0 where
  pub legal : Bool
  pub security : Bool
  pub external : Bool
  pub code : Bool
  pub financial : Bool
  pub saas_metrics : Bool
  pub esg : Bool

abbrev pub choice_of : SpecialistModels → Choice
choice_of spec = record {
  legal = is_given spec.legal;
  security = is_given spec.security;
  external = is_given spec.external;
  code = is_given spec.code;
  financial = is_given spec.financial;
  saas_metrics = is_given spec.saas_metrics;
  esg = is_given spec.esg;
}

abbrev pub keep_if : Bool → String → List String → List String
keep_if true name names = name ∷ names
keep_if false name names = names

-- `_build_specialists`: the keys of the active ones, in order.
unfoldable pub build_specialists : Choice → List String
build_specialists choice = keep_if choice.legal "legal" (
    keep_if choice.security "security" (
      keep_if choice.external "external" (
        keep_if choice.code "code" (
          keep_if choice.financial "financial"
            (keep_if choice.saas_metrics "saas_metrics" (keep_if choice.esg "esg" []))))))

module _ {V : Type 0} (shim : String → GraphNode V) where
  -- `g.add_node(name, AgentNode(...))` for each name.
  unfoldable pub add_shims : List String → WorkflowGraph V → Result (WorkflowGraph V)
  unfolding add_node
  add_shims [] graph = ok graph
  add_shims (name ∷ names) graph = bind (add_node name (shim name) graph) (add_shims names)

  -- The edges from intake to the router, and the gate of a deal.
  wire_router : OutputKind → WorkflowGraph V → Result (WorkflowGraph V)
  unfolding add_node add_edge
  wire_router doc graph = bind (add_node "vdr_gate" (shim "vdr_gate") graph) λ gated. ok (
      add_edge "vdr_gate" (Target.node "router") (add_edge "intake" (Target.node "vdr_gate") gated))
  wire_router sheet graph = ok (add_edge "intake" (Target.node "router") graph)

  wire_end : OutputKind → WorkflowGraph V → Result (WorkflowGraph V)
  unfolding add_node add_edge
  wire_end doc graph = bind (add_node "pmi_planner" (shim "pmi_planner") graph) λ planned. ok (
      add_edge "pmi_planner" Target.end
        (add_edge "coordinator" (Target.node "pmi_planner") planned))
  wire_end sheet graph = ok (add_edge "coordinator" Target.end graph)

  -- The edges from the router over the specialists to the coordinator.
  wire_review : List String → WorkflowGraph V → WorkflowGraph V
  unfolding add_edge add_parallel
  wire_review specialists graph = add_edge "remediation" (Target.node "coordinator") (
      add_edge "policy" (Target.node "remediation") (
        add_edge "risk_score" (Target.node "policy")
          (add_parallel "router" specialists (some (Target.node "risk_score")) graph)))

  unfoldable pub build :
      Schema V → ℕ → List String → OutputKind → Result (CompiledGraph V × WorkflowGraph V)
  unfolding add_shims wire_router wire_review wire_end set_entry_point add_edge compile empty
  build state_schema max_turns specialists output_kind =
      bind
        (add_shims ("bootstrap" ∷ "intake" ∷ "router" ∷ specialists) (empty (some state_schema) ""))
        λ early.
          bind (add_shims ("risk_score" ∷ "policy" ∷ "remediation" ∷ "coordinator" ∷ []) early)
            λ nodes.
              bind
                (wire_router output_kind
                  (add_edge "bootstrap" (Target.node "intake") (set_entry_point "bootstrap" nodes)))
                λ routed.
                  bind (wire_end output_kind (wire_review specialists routed)) (compile max_turns)

  unfoldable pub build_graph :
      Schema V → ℕ → ModeConfig → Result (CompiledGraph V × WorkflowGraph V)
  unfolding build build_specialists
  build_graph state_schema max_turns cfg =
      build state_schema max_turns (build_specialists (choice_of cfg.specialists)) cfg.output_kind
