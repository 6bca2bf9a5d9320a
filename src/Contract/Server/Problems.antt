-- ===== src/Contract/Server/Problems.antt =====
-- cmd/server/main.go: what a request that is answered with an error has written.
use sqlite_durable_workflow.Common.{String, ℕ, ℤ, ◌≡◌, ◌≢◌, refl, ap, arith, inl, inr}
use sqlite_durable_workflow.Store.Db.{Db}
use sqlite_durable_workflow.Store.Session.{Session, quiet}
use sqlite_durable_workflow.Store.Lookup.{Unique}
use sqlite_durable_workflow.Workflow.{
  create_workflow, acquire_lease, renew_lease, release_lease, complete_workflow, fail_workflow,
  mark_waiting,
}
use sqlite_durable_workflow.Step.{start_step, complete_step, fail_step}
use sqlite_durable_workflow.Signal.{send_signal, consume_signal}
use sqlite_durable_workflow.Timer.{create_timer}
use sqlite_durable_workflow.Section.{
  Section, create, acquire, renew, release, complete, fail, wait, send, consume, add_timer, perform,
}
use sqlite_durable_workflow.Invariant.{IsWellFormed}
use sqlite_durable_workflow.Server.Replies.{
  workflow, signal, timer, acknowledged, acquired_reply, consumed_reply, Problem, Response, json,
  problem,
}
use sqlite_durable_workflow.Server.Handlers.{duration_of}
use sqlite_durable_workflow.Server.Routes.{
  Match, found, wrong_method, no_route, reading, writing, Writer, routes, match_route,
}
use sqlite_durable_workflow.Server.Serve.{Server, HttpRequest, write, dispatch, mux, serve_http}
use sqlite_durable_workflow.Contract.Errors.{Intact-perform}
use sqlite_durable_workflow.Contract.Server.Reads.{read_lem}
use sqlite_durable_workflow.Contract.Server.Guard.{serve_http-cases}
use sqlite_durable_workflow.Contract.Server.Untouched.{
  Untouched, Untouched-same, Untouched-answer, Untouched-decoded, Intact-unvoided,
  Intact-start_step, Intact-fail_step,
}

module _ (v : Server) (now later : ℤ) (d : Db) (u : Unique d.workflows) where
  write-Untouched :
      (w : Writer) (id body : String)
      → w ≢ Writer.retry_step
      → Untouched d (write v now later w id body (quiet d))
  unfolding write perform
  write-Untouched Writer.create_workflow id body h =
      Untouched-decoded d (v.decoder.create_workflow_req body) _ λ req.
        Untouched-answer d 500 workflow (create_workflow now req.workflow_id req.workflow_type) (
          Intact-unvoided d (create_workflow now req.workflow_id req.workflow_type)
            (Intact-perform v.platform d (create now req.workflow_id req.workflow_type) u))
  write-Untouched Writer.complete_workflow id body h =
      Untouched-decoded d (v.decoder.worker_req body) _ λ req.
        Untouched-answer d 409 acknowledged (complete_workflow now id req.worker_id)
          (Intact-perform v.platform d (complete now id req.worker_id) u)
  write-Untouched Writer.fail_workflow id body h =
      Untouched-decoded d (v.decoder.worker_req body) _ λ req.
        Untouched-answer d 409 acknowledged (fail_workflow now id req.worker_id)
          (Intact-perform v.platform d (fail now id req.worker_id) u)
  write-Untouched Writer.mark_waiting id body h =
      Untouched-decoded d (v.decoder.worker_req body) _ λ req.
        Untouched-answer d 409 acknowledged (mark_waiting now id req.worker_id)
          (Intact-perform v.platform d (wait now id req.worker_id) u)
  write-Untouched Writer.acquire_lease id body h =
      Untouched-decoded d (v.decoder.acquire_req body) _ λ req.
        Untouched-answer d 500 acquired_reply
          (acquire_lease v.platform now req.worker_id
            (duration_of v.own_duration req.lease_duration))
          (Intact-unvoided d
            (acquire_lease v.platform now req.worker_id
              (duration_of v.own_duration req.lease_duration))
            (Intact-perform v.platform d
              (acquire now req.worker_id (duration_of v.own_duration req.lease_duration)) u))
  write-Untouched Writer.renew_lease id body h =
      Untouched-decoded d (v.decoder.renew_req body) _ λ req.
        Untouched-answer d 409 acknowledged
          (renew_lease v.platform now id req.worker_id
            (duration_of v.own_duration req.lease_duration))
          (Intact-perform v.platform d
            (renew now id req.worker_id (duration_of v.own_duration req.lease_duration)) u)
  write-Untouched Writer.release_lease id body h =
      Untouched-decoded d (v.decoder.worker_req body) _ λ req.
        Untouched-answer d 409 acknowledged (release_lease now id req.worker_id)
          (Intact-perform v.platform d (release now id req.worker_id) u)
  write-Untouched Writer.start_step id body h =
      Untouched-decoded d (v.decoder.step_req body) _ λ req.
        Untouched-answer d 409 acknowledged
          (start_step v.platform now req.workflow_id req.worker_id req.step_number req.input)
          (Intact-start_step v.platform now req.workflow_id req.worker_id d req.step_number
            req.input)
  write-Untouched Writer.complete_step id body h =
      Untouched-decoded d (v.decoder.complete_step_req body) _ λ req.
        Untouched-answer d 409 acknowledged
          (complete_step v.platform now req.workflow_id req.worker_id req.step_number req.input
            req.output)
          (Intact-perform v.platform d
            (Section.complete_step now req.workflow_id req.worker_id req.step_number req.input
              req.output)
            u)
  write-Untouched Writer.fail_step id body h =
      Untouched-decoded d (v.decoder.fail_step_req body) _ λ req.
        Untouched-answer d 409 acknowledged
          (fail_step v.platform now req.workflow_id req.worker_id req.step_number req.input
            req.error)
          (Intact-fail_step v.platform now req.workflow_id req.worker_id d req.step_number req.input
            req.error)
  write-Untouched Writer.send_signal id body h =
      Untouched-decoded d (v.decoder.signal_req body) _ λ req.
        Untouched-answer d 500 signal
          (send_signal v.platform now req.workflow_id req.signal_type req.payload)
          (Intact-unvoided d
            (send_signal v.platform now req.workflow_id req.signal_type req.payload)
            (Intact-perform v.platform d (send now req.workflow_id req.signal_type req.payload) u))
  write-Untouched Writer.consume_signal id body h =
      Untouched-answer d 500 consumed_reply (consume_signal v.platform id) (
        Intact-unvoided d (consume_signal v.platform id)
          (Intact-perform v.platform d (consume id) u))
  write-Untouched Writer.create_timer id body h =
      Untouched-decoded d (v.decoder.timer_req body) _ λ req.
        Untouched-answer d 500 timer (create_timer req.workflow_id req.wake_at_epoch) (
          Intact-unvoided d (create_timer req.workflow_id req.wake_at_epoch)
            (Intact-perform v.platform d (add_timer req.workflow_id req.wake_at_epoch) u))
  write-Untouched Writer.retry_step id body h = elim (h refl) [ ]

  dispatch-Untouched :
      (r : HttpRequest) (m : Match)
      → ((id : String) → m ≢ found (writing Writer.retry_step) id)
      → Untouched d (dispatch v now later r m (quiet d))
  dispatch-Untouched r (found (reading e) id) h =
      Untouched-same d _ (read_lem v d e id r.unconsumed)
  dispatch-Untouched r (found (writing w) id) h =
      write-Untouched w id r.body λ e. h id (ap (λ x. found (writing x) id) e)
  dispatch-Untouched r wrong_method h = refl
  dispatch-Untouched r no_route h = refl

  serve_http-Untouched :
      (r : HttpRequest)
      → ((id : String) → match_route routes r.method r.path ≢ found (writing Writer.retry_step) id)
      → Untouched d (serve_http v now later r (quiet d))
  unfolding mux
  serve_http-Untouched r h = elim (serve_http-cases v now later r (quiet d)) [
    | inl k ↦ rw k (dispatch-Untouched r (match_route routes r.method r.path) h)
    | inr k ↦ rw k refl
  ]

Untouched-problem :
    {F : Type 0} (d : Db) (t : Response F × Session) (code : ℕ) (p : Problem)
    → Untouched d t
    → t.0 ≡ problem code p
    → t.1 ≡ quiet d
Untouched-problem d (problem code' p', s) code p h k = h
Untouched-problem d (json r, s) code p h k = ground arith

-- On well-formed tables, when the driver refuses nothing: a request that is answered with an error,
-- whatever its code, has written nothing, unless it is routed to RetryStep, whose timer may stay.
pub problem_writes_nothing :
    (v : Server) (now later : ℤ) (r : HttpRequest) (d : Db) (code : ℕ) (p : Problem)
    → IsWellFormed d
    → ((id : String) → match_route routes r.method r.path ≢ found (writing Writer.retry_step) id)
    → (serve_http v now later r (quiet d)).0 ≡ problem code p
    → (serve_http v now later r (quiet d)).1 ≡ quiet d
problem_writes_nothing v now later r d code p wf h k =
    Untouched-problem d _ code p (serve_http-Untouched v now later d wf.unique r h) k
