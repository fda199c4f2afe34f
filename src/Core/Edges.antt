-- ===== src/Core/Edges.antt =====
-- src/orchestra/core/edges.py, with `Send` and `END` of core/types.py and `HandoffEdge` of
-- core/handoff.py. A condition is user code: it reads the state, reads and writes the loop counters
-- that the engine puts into the state, and may raise.
use multi_agent_orchestratio.Base.{
  ℕ, Bool, Option, none, some, List, String, Result, ok, raise, bind, graph_compile_error,
}
use multi_agent_orchestratio.Base.Dict.{Dict, lookup}

-- A dynamic fan-out target with its slice of state.
pub record Send (V : Type 0) : Type 0 where
  pub node : String
  pub state : Dict V

-- A node ID, or the sentinel END.
pub data Target : Type 0 where
  node : String → Target
  end : Target

-- What a condition may return. `scalar` is a bool, None, an int or a float, `sends` a list that
-- begins with a `Send`, and `other` any other object.
pub data Routed (V : Type 0) : Type 0 where
  text : String → Routed V
  stop : Routed V
  scalar : V → Routed V
  sends : Send V → List (Send V) → Routed V
  other : V → Routed V

abbrev pub as_routed : {V : Type 0} → Target → Routed V
as_routed (Target.node name) = Routed.text name
as_routed Target.end = Routed.stop

abbrev pub Counters : Type 0
Counters = Dict ℕ

abbrev pub Condition : Type 0 → Type 0
Condition V = Dict V → Counters → Result (Routed V) × Counters

pub record Edge : Type 0 where
  pub source : String
  pub target : Target

pub record ConditionalEdge (V : Type 0) : Type 0 where
  pub source : String
  pub condition : Condition V
  pub path_map : Option (Dict Target)

pub record ParallelEdge : Type 0 where
  pub source : String
  pub targets : List String
  pub join_node : Option Target

pub data GraphEdge (V : Type 0) : Type 0 where
  direct : Edge → GraphEdge V
  conditional : ConditionalEdge V → GraphEdge V
  parallel : ParallelEdge → GraphEdge V

pub record HandoffEdge (V : Type 0) : Type 0 where
  pub source : String
  pub target : String
  pub condition : Option (Dict V → Bool)
  pub distill : Bool

-- `_coerce_path_key`: the key under which a result is looked up, with `dumps` the `json.dumps` of
-- a scalar; `none` for what passes through unchanged.
unfoldable pub coerce_path_key : {V : Type 0} → (V → String) → Routed V → Option String
coerce_path_key dumps (Routed.text value) = some value
coerce_path_key dumps (Routed.scalar value) = some (dumps value)
coerce_path_key dumps _ = none

unfoldable pub mapped : {V : Type 0} → Dict Target → Option String → Routed V → Result (Routed V)
mapped path_map none result = ok result
mapped path_map (some key) result = elim (lookup key path_map) [
  | none ↦ raise graph_compile_error
  | some target ↦ ok (as_routed target)
]

unfoldable pub resolve_path :
    {V : Type 0} → (V → String) → Option (Dict Target) → Routed V → Result (Routed V)
unfolding coerce_path_key mapped
resolve_path dumps none result = ok result
resolve_path dumps (some path_map) result = mapped path_map (coerce_path_key dumps result) result

-- `ConditionalEdge.resolve`, with the counters that the condition leaves.
unfoldable pub resolve :
    {V : Type 0}
    → (V → String)
    → ConditionalEdge V
    → Dict V
    → Counters
    → Result (Routed V) × Counters
unfolding resolve_path
resolve dumps edge state counters =
    let (result, counters') = edge.condition state counters in
    (bind result (resolve_path dumps edge.path_map), counters')
