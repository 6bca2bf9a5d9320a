-- ===== src/Server/Handlers.antt =====
-- cmd/server/main.go: the handlers that change the database.
use sqlite_durable_workflow.Common.{String, ℤ, pos, ◌*ℤ◌, int64, ltb_ℤ, ◌==◌, if◌then◌else◌}
use sqlite_durable_workflow.Store.Platform.{Platform}
use sqlite_durable_workflow.Workflow.{
  create_workflow, acquire_lease, renew_lease, release_lease, complete_workflow, fail_workflow,
  mark_waiting,
}
use sqlite_durable_workflow.Step.{start_step, complete_step, fail_step}
use sqlite_durable_workflow.Signal.{send_signal, consume_signal}
use sqlite_durable_workflow.Timer.{create_timer}
use sqlite_durable_workflow.Retry.{
  RetryPolicy, fixed_backoff, linear_backoff, exponential_backoff, RetryConfig, retry_step,
}
use sqlite_durable_workflow.Server.Bodies.{RetryReq, Decoder}
use sqlite_durable_workflow.Server.Replies.{
  workflow, signal, timer, retry_scheduled, Handler, answer, decoded, acknowledged, acquired_reply,
  consumed_reply,
}

-- `time.Duration(req.LeaseDuration) * time.Second` where that is positive, and the server's own
-- duration where it is not.
unfoldable pub duration_of : ℤ → ℤ → ℤ
unfolding int64 ◌*ℤ◌
duration_of own seconds = if ltb_ℤ (pos 0) seconds then int64 (seconds *ℤ pos 1000000000) else own

unfoldable pub policy_of : String → ℤ → ℤ → RetryPolicy
policy_of name base cap =
    if name == "linear"
    then linear_backoff base
    else (if name == "exponential" then exponential_backoff base cap else fixed_backoff base)

abbrev pub config_of : RetryReq → RetryConfig
config_of req = record {
  max_retries = req.max_retries;
  policy = policy_of req.policy req.base_secs req.max_secs;
}

-- `own` is the server's lease duration, `now` the clock's reading and `later` the second one that
-- RetryStep makes; `id` is the path's and `body` the request's.
module _ (p : Platform) (c : Decoder) (own now later : ℤ) (id body : String) where
  abbrev pub create_workflow_handler : Handler p.Float
  create_workflow_handler =
      decoded (c.create_workflow_req body)
        λ req. answer 500 workflow (create_workflow now req.workflow_id req.workflow_type)

  abbrev pub complete_workflow_handler : Handler p.Float
  complete_workflow_handler =
      decoded (c.worker_req body)
        λ req. answer 409 acknowledged (complete_workflow now id req.worker_id)

  abbrev pub fail_workflow_handler : Handler p.Float
  fail_workflow_handler =
      decoded (c.worker_req body)
        λ req. answer 409 acknowledged (fail_workflow now id req.worker_id)

  abbrev pub mark_waiting_handler : Handler p.Float
  mark_waiting_handler =
      decoded (c.worker_req body) λ req. answer 409 acknowledged (mark_waiting now id req.worker_id)

  abbrev pub acquire_lease_handler : Handler p.Float
  acquire_lease_handler = decoded (c.acquire_req body) λ req.
      answer 500 acquired_reply
        (acquire_lease p now req.worker_id (duration_of own req.lease_duration))

  abbrev pub renew_lease_handler : Handler p.Float
  renew_lease_handler = decoded (c.renew_req body) λ req.
      answer 409 acknowledged
        (renew_lease p now id req.worker_id (duration_of own req.lease_duration))

  abbrev pub release_lease_handler : Handler p.Float
  release_lease_handler =
      decoded (c.worker_req body)
        λ req. answer 409 acknowledged (release_lease now id req.worker_id)

  abbrev pub start_step_handler : Handler p.Float
  start_step_handler = decoded (c.step_req body) λ req.
      answer 409 acknowledged
        (start_step p now req.workflow_id req.worker_id req.step_number req.input)

  abbrev pub complete_step_handler : Handler p.Float
  complete_step_handler = decoded (c.complete_step_req body) λ req.
      answer 409 acknowledged
        (complete_step p now req.workflow_id req.worker_id req.step_number req.input req.output)

  abbrev pub fail_step_handler : Handler p.Float
  fail_step_handler = decoded (c.fail_step_req body) λ req.
      answer 409 acknowledged
        (fail_step p now req.workflow_id req.worker_id req.step_number req.input req.error)

  abbrev pub send_signal_handler : Handler p.Float
  send_signal_handler =
      decoded (c.signal_req body)
        λ req. answer 500 signal (send_signal p now req.workflow_id req.signal_type req.payload)

  abbrev pub consume_signal_handler : Handler p.Float
  consume_signal_handler = answer 500 consumed_reply (consume_signal p id)

  -- `time.Unix(req.WakeAtEpoch, 0)`, of which `CreateTimer` takes the seconds again.
  abbrev pub create_timer_handler : Handler p.Float
  create_timer_handler =
      decoded (c.timer_req body)
        λ req. answer 500 timer (create_timer req.workflow_id req.wake_at_epoch)

  abbrev pub retry_step_handler : Handler p.Float
  retry_step_handler = decoded (c.retry_req body) λ req. answer 500 retry_scheduled (
      retry_step now later req.workflow_id req.worker_id req.step_number req.retry_count
        (config_of req))
