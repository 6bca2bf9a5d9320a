-- ===== src/Section.antt =====
-- The engine's functions cut where another goroutine may come in between: each case is one
-- statement or one transaction. `StartStep` and `FailStep` check the lease before theirs,
-- `RetryStep` is `add_timer` and `wait`, and a tick of the scheduler is `fire` and `expire`.
-- `CreateWorkflow` and `AcquireLease` read the row once more after their commit; that read, which
-- bears on nothing but their result, is left in their case.
pub mod Atomicity
use sqlite_durable_workflow.Common.{String, ℕ, ℤ, ⊤, Bool, List, [], ◌∷◌}
use sqlite_durable_workflow.Types.{Value}
use sqlite_durable_workflow.Store.Session.{M, Session, Result, ok, err}
use sqlite_durable_workflow.Store.Platform.{Platform}
use sqlite_durable_workflow.Workflow.{
  create_workflow, acquire_lease, renew_lease, release_lease, complete_workflow, fail_workflow,
  mark_waiting,
}
use sqlite_durable_workflow.Step
use sqlite_durable_workflow.Step.{start_step_tx, fail_step_tx}
use sqlite_durable_workflow.Signal.{send_signal, consume_signal}
use sqlite_durable_workflow.Timer.{create_timer, fire_expired_timers, expire_leases}

pub data Section : Type 0 where
  create : ℤ → String → String → Section
  acquire : ℤ → String → ℤ → Section
  renew : ℤ → String → String → ℤ → Section
  release : ℤ → String → String → Section
  complete : ℤ → String → String → Section
  fail : ℤ → String → String → Section
  wait : ℤ → String → String → Section
  start_step : ℤ → String → ℤ → Value → Section
  complete_step : ℤ → String → String → ℤ → Value → Value → Section
  fail_step : ℤ → String → ℤ → Value → String → Section
  send : ℤ → String → String → Value → Section
  consume : String → Section
  add_timer : String → ℤ → Section
  fire : ℤ → Section
  expire : ℤ → Section

-- A call whose result is dropped; an error stays.
abbrev pub voided : {A : Type 0} → Result A → Result ⊤
voided (ok a) = ok tt
voided (err e) = err e

abbrev pub void : {A : Type 0} → M A → M ⊤
void m s = (voided (m s).0, (m s).1)

unfoldable pub perform : Platform → Section → M ⊤
perform p (create now id workflow_type) = void (create_workflow now id workflow_type)
perform p (acquire now worker duration) = void (acquire_lease p now worker duration)
perform p (renew now id worker duration) = renew_lease p now id worker duration
perform p (release now id worker) = release_lease now id worker
perform p (complete now id worker) = complete_workflow now id worker
perform p (fail now id worker) = fail_workflow now id worker
perform p (wait now id worker) = mark_waiting now id worker
perform p (start_step now id n input) = start_step_tx p now id n input
perform p (complete_step now id worker n input output) =
    Step.complete_step p now id worker n input output
perform p (fail_step now id n input message) = fail_step_tx p now id n input message
perform p (send now id signal_type payload) = void (send_signal p now id signal_type payload)
perform p (consume id) = void (consume_signal p id)
perform p (add_timer id wake_at) = void (create_timer id wake_at)
perform p (fire now) = void (fire_expired_timers p now)
perform p (expire now) = void (expire_leases now)

-- What any number of goroutines do to the database, section after section; their callers see the
-- errors, and go on.
unfoldable pub history : Platform → List Section → Session → Session
history p [] s = s
history p (c ∷ cs) s = history p cs (perform p c s).1
