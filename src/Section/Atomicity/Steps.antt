-- ===== src/Section/Atomicity/Steps.antt =====
-- The functions of step.go, signal.go and timer.go under faults of the driver.
use sqlite_durable_workflow.Common.{String, ℕ, zero, suc, ℤ, List, [], ◌∷◌, Option, none, some, ◌+◌}
use sqlite_durable_workflow.Types.{Signal, Value, Timer, timer_fired}
use sqlite_durable_workflow.Store.Platform.{Platform}
use sqlite_durable_workflow.Store.Atomic.{Writes, Body, AllOrNothing}
use sqlite_durable_workflow.Store.Atomic.Statements.{Writes-pure, Writes-exec, Writes-then}
use sqlite_durable_workflow.Store.Atomic.Transactions.{
  AllOrNothing-Once, AllOrNothing-transaction, Body-Writes, writes_rules, body_rules, once_rules,
}
use sqlite_durable_workflow.Store.Db.{is_workflow}
use sqlite_durable_workflow.Step.{start_step_tx, fail_step_tx, complete_step, require_upserted}
use sqlite_durable_workflow.Signal.{send_signal, consume_signal, take_signal}
use sqlite_durable_workflow.Timer.{
  mark_fired, create_timer, fire_all, fire_expired_timers, expire_leases,
}
use sqlite_durable_workflow.Workflow.{update_workflows, requeued}
use sqlite_durable_workflow.Section.Atomicity.Workflows.{Writes-append_event_tx, Writes-check_owner}

pub AllOrNothing-start_step_tx :
    (p : Platform) (now : ℤ) (id : String) (n : ℤ) (input : Value)
    → AllOrNothing (start_step_tx p now id n input)
unfolding start_step_tx
AllOrNothing-start_step_tx p now id n input =
    AllOrNothing-transaction _ (search (body_rules, Writes-append_event_tx) depth 8)

pub AllOrNothing-fail_step_tx :
    (p : Platform) (now : ℤ) (id : String) (n : ℤ) (input : Value) (message : String)
    → AllOrNothing (fail_step_tx p now id n input message)
unfolding fail_step_tx
AllOrNothing-fail_step_tx p now id n input message =
    AllOrNothing-transaction _ (search (body_rules, Writes-append_event_tx) depth 8)

pub Writes-require_upserted : (n : ℕ) → Writes (require_upserted n)
unfolding require_upserted
Writes-require_upserted zero = search (writes_rules)
Writes-require_upserted (suc n) = search (writes_rules)

pub AllOrNothing-complete_step :
    (p : Platform) (now : ℤ) (id worker : String) (n : ℤ) (input output : Value)
    → AllOrNothing (complete_step p now id worker n input output)
unfolding complete_step
AllOrNothing-complete_step p now id worker n input output = AllOrNothing-transaction _ (
    search (body_rules, Writes-append_event_tx, Writes-check_owner, Writes-require_upserted) depth
      10)

pub AllOrNothing-send_signal :
    (p : Platform) (now : ℤ) (id signal_type : String) (payload : Value)
    → AllOrNothing (send_signal p now id signal_type payload)
unfolding send_signal
AllOrNothing-send_signal p now id signal_type payload =
    AllOrNothing-transaction _ (search (body_rules, Writes-append_event_tx) depth 8)

pub Body-take_signal : (found : Option Signal) → Body (take_signal found)
unfolding take_signal
Body-take_signal none = Body-Writes _ (Writes-pure none)
Body-take_signal (some s) = search (body_rules) depth 8

pub AllOrNothing-consume_signal : (p : Platform) (id : String) → AllOrNothing (consume_signal p id)
unfolding consume_signal
AllOrNothing-consume_signal p id =
    AllOrNothing-transaction _ (search (body_rules, Body-take_signal) depth 8)

pub AllOrNothing-create_timer : (id : String) (wake_at : ℤ) → AllOrNothing (create_timer id wake_at)
unfolding create_timer
AllOrNothing-create_timer id wake_at = AllOrNothing-Once _ (search (once_rules))

pub Writes-fire_all : (now : ℤ) (ts : List Timer) (n : ℕ) → Writes (fire_all now ts n)
unfolding fire_all
Writes-fire_all now [] n = search (writes_rules)
Writes-fire_all now (t ∷ ts) n = Writes-then _ _ (Writes-exec (mark_fired t.timer_id)) (
    Writes-then _ _ (Writes-exec (update_workflows (is_workflow t.workflow_id) (requeued now))) (
      Writes-then _ _ (Writes-append_event_tx t.workflow_id timer_fired none 0 now)
        (Writes-fire_all now ts (n + 1))))

pub AllOrNothing-fire_expired_timers :
    (p : Platform) (now : ℤ) → AllOrNothing (fire_expired_timers p now)
unfolding fire_expired_timers
AllOrNothing-fire_expired_timers p now =
    AllOrNothing-transaction _ (search (body_rules, Writes-fire_all) depth 8)

pub AllOrNothing-expire_leases : (now : ℤ) → AllOrNothing (expire_leases now)
unfolding expire_leases
AllOrNothing-expire_leases now = AllOrNothing-Once _ (search (once_rules))
