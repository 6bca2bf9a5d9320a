-- ===== src/Types.antt =====
-- types.go: the rows of the five tables, and the values that the engine marshals into them.
use sqlite_durable_workflow.Common.{String, ℕ, ℤ, Bool, Option}

-- The constants StatusQueued to StatusFailed.
pub data Status : Type 0 where
  queued running waiting completed failed : Status

-- The literals 'RUNNING', 'COMPLETED' and 'FAILED' of workflow_steps.status.
pub data StepStatus : Type 0 where
  running completed failed : StepStatus

-- The constants EventWorkflowCreated to EventWorkflowFailed.
pub data EventType : Type 0 where
  workflow_created workflow_started step_started step_completed step_failed : EventType
  signal_received timer_fired workflow_completed workflow_failed : EventType

pub record Workflow : Type 0 where
  pub workflow_id : String
  pub workflow_type : String
  pub status : Status
  pub current_step : ℕ
  pub lease_owner : Option String
  pub lease_expires_at : Option ℤ
  pub created_at : ℤ
  pub updated_at : ℤ
  pub completed_at : Option ℤ
  pub version : ℕ

pub record WorkflowEvent : Type 0 where
  pub event_id : ℕ
  pub workflow_id : String
  pub event_type : EventType
  pub payload_json : Option String
  pub sequence_number : ℕ
  pub created_at : ℤ

pub record WorkflowStep : Type 0 where
  pub workflow_id : String
  pub step_number : ℤ
  pub status : StepStatus
  pub input_json : Option String
  pub output_json : Option String
  pub started_at : Option ℤ
  pub completed_at : Option ℤ

pub record Signal : Type 0 where
  pub signal_id : ℕ
  pub workflow_id : String
  pub signal_type : String
  pub payload_json : Option String
  pub consumed : Bool
  pub created_at : ℤ

pub record Timer : Type 0 where
  pub timer_id : ℕ
  pub workflow_id : String
  pub wake_at : ℤ
  pub fired : Bool

-- A Go value behind `interface{}`: nil, the kinds that the engine builds itself, and any other
-- value of a caller, which the engine only passes on.
mutual
  pub data Value : Type 0 where
    nil : Value
    int : ℤ → Value
    text : String → Value
    object : Fields → Value
    other : ℕ → Value

  pub data Fields : Type 0 where
    end : Fields
    field : String → Value → Fields → Fields
