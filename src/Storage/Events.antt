-- ===== src/Storage/Events.antt =====
-- src/orchestra/storage/events.py and checkpoint.py. Generated IDs, timestamps, durations and the
-- token and cost totals are left out; the events that only observers read are `observed`.
use multi_agent_orchestratio.Base.{ℕ, String, List, Error}
use multi_agent_orchestratio.Base.Dict.{Dict}

pub data InterruptType : Type 0 where
  before after : InterruptType

-- The `status` of `ExecutionCompleted`, of a run's metadata and of `WorkflowStatus`.
pub data Status : Type 0 where
  running completed failed interrupted : Status

pub data EventType : Type 0 where
  execution_started execution_completed fork_created node_started node_completed : EventType
  state_updated error_occurred interrupt_requested interrupt_resumed : EventType
  checkpoint_created handoff_initiated : EventType
  llm_called tool_called edge_traversed parallel_started parallel_completed : EventType
  security_violation restricted_mode_entered input_rejected output_rejected : EventType
  handoff_completed : EventType

pub EventType-discrete : Discrete EventType
EventType-discrete = hlevel

pub data Body (V : Type 0) : Type 0 where
  -- workflow_name, initial_state, entry_point
  execution_started_event : String → Dict V → String → Body V
  -- final_state, status
  execution_completed_event : Dict V → Status → Body V
  -- parent_run_id, fork_point_sequence, new_run_id
  fork_created_event : String → ℕ → String → Body V
  -- node_id
  node_started_event : String → Body V
  -- node_id, state_update
  node_completed_event : String → Dict V → Body V
  -- node_id, field_updates, resulting_state
  state_updated_event : String → Dict V → Dict V → Body V
  -- node_id, error_type
  error_occurred_event : String → Error → Body V
  interrupt_requested_event : String → InterruptType → Body V
  -- node_id, state_modifications
  interrupt_resumed_event : String → Dict V → Body V
  -- node_id, state_snapshot
  checkpoint_created_event : String → Dict V → Body V
  -- from_agent, to_agent
  handoff_initiated_event : String → String → Body V
  observed : EventType → Body V

pub record Event (V : Type 0) : Type 0 where
  pub run_id : String
  pub sequence : ℕ
  pub body : Body V

abbrev pub type_of : {V : Type 0} → Body V → EventType
type_of (execution_started_event _ _ _) = execution_started
type_of (execution_completed_event _ _) = execution_completed
type_of (fork_created_event _ _ _) = fork_created
type_of (node_started_event _) = node_started
type_of (node_completed_event _ _) = node_completed
type_of (state_updated_event _ _ _) = state_updated
type_of (error_occurred_event _ _) = error_occurred
type_of (interrupt_requested_event _ _) = interrupt_requested
type_of (interrupt_resumed_event _ _) = interrupt_resumed
type_of (checkpoint_created_event _ _) = checkpoint_created
type_of (handoff_initiated_event _ _) = handoff_initiated
type_of (observed kind) = kind

pub record Checkpoint (V : Type 0) : Type 0 where
  pub run_id : String
  pub sequence_number : ℕ
  pub node_id : String
  pub interrupt_type : InterruptType
  pub state : Dict V
  pub loop_counters : Dict ℕ
  pub node_execution_order : List String
