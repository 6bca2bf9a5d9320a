-- ===== src/Server/Bodies.antt =====
-- cmd/server/main.go: the bodies of requests, and their decoding.
use sqlite_durable_workflow.Common.{String, ℤ, Option}
use sqlite_durable_workflow.Types.{Value}

pub record CreateWorkflowReq : Type 0 where
  pub workflow_id : String
  pub workflow_type : String

pub record WorkerReq : Type 0 where
  pub worker_id : String

-- The duration is in seconds; 0 where the body leaves it out.
pub record AcquireReq : Type 0 where
  pub worker_id : String
  pub lease_duration : ℤ

pub record RenewReq : Type 0 where
  pub worker_id : String
  pub lease_duration : ℤ

pub record StepReq : Type 0 where
  pub workflow_id : String
  pub worker_id : String
  pub step_number : ℤ
  pub input : Value

pub record CompleteStepReq : Type 0 where
  pub workflow_id : String
  pub worker_id : String
  pub step_number : ℤ
  pub input : Value
  pub output : Value

pub record FailStepReq : Type 0 where
  pub workflow_id : String
  pub worker_id : String
  pub step_number : ℤ
  pub input : Value
  pub error : String

pub record SignalReq : Type 0 where
  pub workflow_id : String
  pub signal_type : String
  pub payload : Value

pub record TimerReq : Type 0 where
  pub workflow_id : String
  pub wake_at_epoch : ℤ

pub record RetryReq : Type 0 where
  pub workflow_id : String
  pub worker_id : String
  pub step_number : ℤ
  pub retry_count : ℤ
  pub max_retries : ℤ
  pub policy : String
  pub base_secs : ℤ
  pub max_secs : ℤ

-- `json.NewDecoder(r.Body).Decode` into each of them; `none` is an error.
pub record Decoder : Type 0 where
  pub create_workflow_req : String → Option CreateWorkflowReq
  pub worker_req : String → Option WorkerReq
  pub acquire_req : String → Option AcquireReq
  pub renew_req : String → Option RenewReq
  pub step_req : String → Option StepReq
  pub complete_step_req : String → Option CompleteStepReq
  pub fail_step_req : String → Option FailStepReq
  pub signal_req : String → Option SignalReq
  pub timer_req : String → Option TimerReq
  pub retry_req : String → Option RetryReq
