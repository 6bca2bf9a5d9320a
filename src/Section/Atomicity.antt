-- ===== src/Section/Atomicity.antt =====
-- Every function of the engine under faults of the driver.
pub mod Workflows
pub mod Steps
use sqlite_durable_workflow.Common.{
  String, ℕ, zero, suc, ℤ, ⊤, Bool, true, false, List, [], ◌∷◌, Option, none, some, ◌≡◌, refl, ap,
  sym, ◌∙◌, subst, ◌⊎◌, inl, inr, arith, ◌+◌, if◌then◌else◌,
}
use sqlite_durable_workflow.Types.{
  Status, completed, failed, workflow_completed, workflow_failed, EventType, Signal, Value, Timer,
  timer_fired,
}
use sqlite_durable_workflow.Store.Session.{
  M, Session, Result, ok, err, quiet, calm, continue, Error, lease_mismatch, pure, throw, exec,
  query, query_row, wrapping, optional, commit, ◌>>=◌, ◌>>◌, transaction,
}
use sqlite_durable_workflow.Store.Platform.{Platform}
use sqlite_durable_workflow.Store.Atomic.{Faulted, Ends, Writes, Reads, Once, Body, AllOrNothing}
use sqlite_durable_workflow.Store.Atomic.Statements.{
  Writes-pure, Writes-exec, Writes-then, Reads-pure, Reads-throw, continue-Faulted,
}
use sqlite_durable_workflow.Store.Atomic.Transactions.{
  AllOrNothing-Once, AllOrNothing-transaction, calm-quiet, Body-Writes, writes_rules, reads_rules,
  body_rules, once_rules,
}
use sqlite_durable_workflow.Store.Db.{Db, is_owner, is_workflow}
use sqlite_durable_workflow.Step.{
  start_step, fail_step, start_step_tx, fail_step_tx, complete_step, require_upserted,
}
use sqlite_durable_workflow.Signal.{send_signal, consume_signal, take_signal}
use sqlite_durable_workflow.Timer.{
  mark_fired, create_timer, fire_all, fire_expired_timers, expire_leases,
}
use sqlite_durable_workflow.Section.{
  Section, create, acquire, renew, release, complete, fail, wait, send, consume, add_timer, fire,
  expire, void, voided, perform, history,
}
use sqlite_durable_workflow.Event.{next_sequence_tx, sequence_or_next, append_event_tx}
use sqlite_durable_workflow.Workflow.{
  create_workflow, get_workflow, claim, acquire_lease, require_affected, finish, update_workflows,
  requeued, complete_workflow, fail_workflow, renew_lease, release_lease, mark_waiting, check_owner,
  verify_lease,
}
use sqlite_durable_workflow.Store.Atomic.Sequence.{AllOrNothing-after}
use sqlite_durable_workflow.Section.Atomicity.Workflows.{
  Writes-append_event_tx, Reads-verify_lease, Writes-check_owner, AllOrNothing-create_workflow,
  AllOrNothing-acquire_lease, AllOrNothing-renew_lease, AllOrNothing-release_lease,
  AllOrNothing-mark_waiting, AllOrNothing-complete_workflow, AllOrNothing-fail_workflow,
}
use sqlite_durable_workflow.Section.Atomicity.Steps.{
  AllOrNothing-start_step_tx, AllOrNothing-fail_step_tx, AllOrNothing-complete_step,
  AllOrNothing-send_signal, AllOrNothing-consume_signal, AllOrNothing-create_timer,
  AllOrNothing-fire_expired_timers, AllOrNothing-expire_leases,
}

module _ {A : Type 0} where
  Faulted-voided : (r : Result A) → Faulted r → Faulted (voided r)
  Faulted-voided (ok a) h = elim h [ ]
  Faulted-voided (err e) h = h

  AllOrNothing-void : (m : M A) → AllOrNothing m → AllOrNothing (void m)
  AllOrNothing-void m w = record {
    at = λ s e.
        let (closed, ends) = w.at s e in
        (
          closed,
          elim ends [
            | inl same ↦ inl (ap voided same.0, same.1, same.2)
            | inr h ↦ inr (Faulted-voided (m s).0 h.0, h.1)
          ],
        );
  }

-- `StartStep` and `FailStep` with their lease checks are all or nothing as well.
pub AllOrNothing-start_step :
    (p : Platform) (now : ℤ) (id worker : String) (n : ℤ) (input : Value)
    → AllOrNothing (start_step p now id worker n input)
unfolding start_step
AllOrNothing-start_step p now id worker n input =
    AllOrNothing-after _ _ (Reads-verify_lease id worker)
      (AllOrNothing-start_step_tx p now id n input)

pub AllOrNothing-fail_step :
    (p : Platform) (now : ℤ) (id worker : String) (n : ℤ) (input : Value) (message : String)
    → AllOrNothing (fail_step p now id worker n input message)
unfolding fail_step
AllOrNothing-fail_step p now id worker n input message =
    AllOrNothing-after _ _ (Reads-verify_lease id worker)
      (AllOrNothing-fail_step_tx p now id n input message)

-- Every section is all or nothing under any faults.
pub AllOrNothing-perform : (p : Platform) (c : Section) → AllOrNothing (perform p c)
unfolding perform
AllOrNothing-perform p (create now id workflow_type) =
    AllOrNothing-void _ (AllOrNothing-create_workflow now id workflow_type)
AllOrNothing-perform p (acquire now worker duration) =
    AllOrNothing-void _ (AllOrNothing-acquire_lease p now worker duration)
AllOrNothing-perform p (renew now id worker duration) =
    AllOrNothing-renew_lease p now id worker duration
AllOrNothing-perform p (release now id worker) = AllOrNothing-release_lease now id worker
AllOrNothing-perform p (complete now id worker) = AllOrNothing-complete_workflow now id worker
AllOrNothing-perform p (fail now id worker) = AllOrNothing-fail_workflow now id worker
AllOrNothing-perform p (wait now id worker) = AllOrNothing-mark_waiting now id worker
AllOrNothing-perform p (Section.start_step now id n input) =
    AllOrNothing-start_step_tx p now id n input
AllOrNothing-perform p (Section.complete_step now id worker n input output) =
    AllOrNothing-complete_step p now id worker n input output
AllOrNothing-perform p (Section.fail_step now id n input message) =
    AllOrNothing-fail_step_tx p now id n input message
AllOrNothing-perform p (send now id signal_type payload) =
    AllOrNothing-void _ (AllOrNothing-send_signal p now id signal_type payload)
AllOrNothing-perform p (consume id) = AllOrNothing-void _ (AllOrNothing-consume_signal p id)
AllOrNothing-perform p (add_timer id wake_at) =
    AllOrNothing-void _ (AllOrNothing-create_timer id wake_at)
AllOrNothing-perform p (fire now) = AllOrNothing-void _ (AllOrNothing-fire_expired_timers p now)
AllOrNothing-perform p (expire now) = AllOrNothing-void _ (AllOrNothing-expire_leases now)
