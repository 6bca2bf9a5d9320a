-- ===== src/Contract/Faults.antt =====
-- The engine's functions when the driver may refuse any of their calls, and the scheduler's loop as
-- a history of sections.
use sqlite_durable_workflow.Common.{String, ℤ, List, [], ◌∷◌, none, ◌≡◌, refl}
use sqlite_durable_workflow.Types.{Value}
use sqlite_durable_workflow.Store.Session.{Session, ok, pure, ◌>>◌}
use sqlite_durable_workflow.Store.Platform.{Platform}
use sqlite_durable_workflow.Store.Atomic.{Ends}
use sqlite_durable_workflow.Workflow.{
  create_workflow, acquire_lease, renew_lease, release_lease, complete_workflow, fail_workflow,
  mark_waiting,
}
use sqlite_durable_workflow.Step.{start_step, complete_step, fail_step}
use sqlite_durable_workflow.Signal.{send_signal, consume_signal}
use sqlite_durable_workflow.Timer.{create_timer, fire_expired_timers, expire_leases}
use sqlite_durable_workflow.Section.{Section, fire, expire, perform, history}
use sqlite_durable_workflow.Section.Atomicity.{AllOrNothing-start_step, AllOrNothing-fail_step}
use sqlite_durable_workflow.Section.Atomicity.Workflows.{
  AllOrNothing-create_workflow, AllOrNothing-acquire_lease, AllOrNothing-renew_lease,
  AllOrNothing-release_lease, AllOrNothing-mark_waiting, AllOrNothing-complete_workflow,
  AllOrNothing-fail_workflow,
}
use sqlite_durable_workflow.Section.Atomicity.Steps.{
  AllOrNothing-complete_step, AllOrNothing-send_signal, AllOrNothing-consume_signal,
  AllOrNothing-create_timer, AllOrNothing-fire_expired_timers, AllOrNothing-expire_leases,
}
use sqlite_durable_workflow.Scheduler.{tick, run, logged}

-- Each function of the engine that writes, but RetryStep, which is CreateTimer and then MarkWaiting,
-- when it is called with no *sql.Tx open, and whichever of its calls the driver refuses, the commit
-- included, leaves no *sql.Tx open; and either it does and returns what it does and returns without
-- refusals, and leaves open no transaction of SQLite's that was not open before; or it returns an
-- error that wraps the driver's, having written nothing or all of what it writes without refusals.
-- StartStep and FailStep do so with the lease checks that they make outside of their transactions.
pub functions_atomic :
    (p : Platform) (now : ℤ) (id worker : String) (s : Session)
    → s.saved ≡ none
    → (workflow_type : String) (duration : ℤ) (n : ℤ) (input output : Value) (message : String)
      (signal_type : String) (payload : Value) (wake_at : ℤ)
    → Ends (create_workflow now id workflow_type) s
      × Ends (acquire_lease p now worker duration) s
      × Ends (renew_lease p now id worker duration) s
      × Ends (release_lease now id worker) s
      × Ends (complete_workflow now id worker) s
      × Ends (fail_workflow now id worker) s
      × Ends (mark_waiting now id worker) s
      × Ends (start_step p now id worker n input) s
      × Ends (complete_step p now id worker n input output) s
      × Ends (fail_step p now id worker n input message) s
      × Ends (send_signal p now id signal_type payload) s
      × Ends (consume_signal p id) s
      × Ends (create_timer id wake_at) s
      × Ends (fire_expired_timers p now) s
      × Ends (expire_leases now) s
functions_atomic p now id worker s e workflow_type duration n input output message signal_type
      payload wake_at =
    (
      (AllOrNothing-create_workflow now id workflow_type).at s e,
      (AllOrNothing-acquire_lease p now worker duration).at s e,
      (AllOrNothing-renew_lease p now id worker duration).at s e,
      (AllOrNothing-release_lease now id worker).at s e,
      (AllOrNothing-complete_workflow now id worker).at s e,
      (AllOrNothing-fail_workflow now id worker).at s e,
      (AllOrNothing-mark_waiting now id worker).at s e,
      (AllOrNothing-start_step p now id worker n input).at s e,
      (AllOrNothing-complete_step p now id worker n input output).at s e,
      (AllOrNothing-fail_step p now id worker n input message).at s e,
      (AllOrNothing-send_signal p now id signal_type payload).at s e,
      (AllOrNothing-consume_signal p id).at s e,
      (AllOrNothing-create_timer id wake_at).at s e,
      (AllOrNothing-fire_expired_timers p now).at s e,
      (AllOrNothing-expire_leases now).at s e,
    )

-- The sections of a scheduler, by the clock's readings at its ticks.
abbrev pub ticks : List ℤ → List Section
ticks [] = []
ticks (now ∷ later) = fire now ∷ expire now ∷ ticks later

-- The scheduler's loop never stops at an error: whatever the driver refuses, it makes every tick
-- up to the end, and what it does is the history of a sweep of the timers and one of the leases at
-- each reading of the clock.
pub run-history :
    (p : Platform) (clock : List ℤ) (s : Session)
    → run p clock s ≡ (ok tt, history p (ticks clock) s)
unfolding run tick logged history perform pure ◌>>◌
run-history p [] s = refl
run-history p (now ∷ later) s = run-history p later _
