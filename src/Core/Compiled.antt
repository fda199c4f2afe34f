-- ===== src/Core/Compiled.antt =====
-- src/orchestra/core/compiled.py: the compiled graph, and the state that a run threads through.
-- The event bus of a run is its sequence counters and the list of events that it has dispatched;
-- its one subscriber that matters to the run is the store's `append`.
pub mod Exec
pub mod Next
pub mod Loop
mod Rules
mod Walk
pub mod Bounds
pub mod Log
pub mod EdgeMap
mod Hoare
mod Projects
pub mod Replay
pub mod Ending
use multi_agent_orchestratio.Base.{
  ℕ, Option, none, some, List, [], ◌∷◌, ◌++◌, String, ◌==◌, ◌≡◌, if◌then◌else◌, arith, eq_iff,
}
use multi_agent_orchestratio.Base.Dict.{Dict, lookup, insert, get_or, lookup-insert}
use multi_agent_orchestratio.Core.State.{Schema}
use multi_agent_orchestratio.Core.Edges.{
  Send, GraphEdge, direct, conditional, parallel, HandoffEdge, Counters,
}
use multi_agent_orchestratio.Core.Distill.{MessageOps}
use multi_agent_orchestratio.Core.Nodes.{GraphNode}
use multi_agent_orchestratio.Storage.Events.{Event}
use multi_agent_orchestratio.Storage.Store.{Store}

-- What the engine uses of Python's values: `json.dumps`, `str`, the values that it builds itself,
-- and the conversation that a handoff passes on.
pub record Values (V : Type 0) : Type 0 where
  pub dumps : V → String
  pub show : V → String
  pub show_sends : List (Send V) → String
  pub of_counters : Counters → V
  -- `state_dict.get("messages", [])`, and `list(distilled_history)`.
  pub as_messages : Option V → List V
  pub of_messages : List V → V
  pub message_ops : MessageOps V
  -- edge, conversation_history
  pub handoff_payload : HandoffEdge V → List V → V

pub record CompiledGraph (V : Type 0) : Type 0 where
  pub nodes : Dict (GraphNode V)
  pub edges : List (GraphEdge V)
  pub entry_point : String
  pub state_schema : Option (Schema V)
  pub max_turns : ℕ
  pub name : String
  pub handoff_edges : List (HandoffEdge V)

-- The fields of `ExecutionContext` that the engine writes.
pub record Context : Type 0 where
  pub run_id : String
  pub turn_number : ℕ
  pub node_id : String
  pub loop_counters : Counters
  pub node_execution_order : List String

pub record Machine (V : Type 0) : Type 0 where
  pub context : Context
  pub sequence_counters : Dict ℕ
  pub emitted : List (Event V)
  pub event_store : Option (Store V)

abbrev pub source_of : {V : Type 0} → GraphEdge V → String
source_of (direct edge) = edge.source
source_of (conditional edge) = edge.source
source_of (parallel edge) = edge.source

-- `self._edge_map.setdefault(source, []).append(edge)`, for each edge.
add_to_edge_map :
    {V : Type 0} → Dict (List (GraphEdge V)) → List (GraphEdge V) → Dict (List (GraphEdge V))
add_to_edge_map edge_map [] = edge_map
add_to_edge_map edge_map (edge ∷ edges) =
    add_to_edge_map
      (insert (source_of edge) (get_or (source_of edge) [] edge_map ++ edge ∷ []) edge_map) edges

unfoldable pub edge_map : {V : Type 0} → List (GraphEdge V) → Dict (List (GraphEdge V))
unfolding add_to_edge_map
edge_map edges = add_to_edge_map [] edges
