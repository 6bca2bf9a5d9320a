-- ===== src/Change.antt =====
-- The steps that the database can take, as a relation, and that every function of the engine takes
-- one of them or none.
pub mod Sound
use mathlib.Core.List.{Memᴰ}
use sqlite_durable_workflow.Common.{
  String, ℕ, ℤ, Bool, true, false, Option, some, none, ◌≡◌, ◌⊎◌, update, count, ◌≢◌,
}
use sqlite_durable_workflow.Types.{
  Status, completed, failed, Workflow, Signal, EventType, workflow_completed, workflow_failed,
  Value,
}
use sqlite_durable_workflow.Store.Db.{Db, has_workflow, is_owner, lookup}
use sqlite_durable_workflow.Store.Platform.{Platform}
use sqlite_durable_workflow.Section.{
  Section, create, acquire, renew, release, complete, fail, wait, send, consume, add_timer, fire,
  expire,
}
use sqlite_durable_workflow.Workflow.{
  is_eligible, is_running, is_leased, renewed, requeued, paused, lease_end,
}
use sqlite_durable_workflow.Signal.{is_pending}
use sqlite_durable_workflow.Timer.{firing_timers, is_abandoned}
use sqlite_durable_workflow.Effect.Workflows.{created, with_workflows, finishing}
use sqlite_durable_workflow.Effect.Leases.{granting}
use sqlite_durable_workflow.Effect.Steps.{starting, completing, failing, is_done}
use sqlite_durable_workflow.Effect.Signals.{sending, taking, timing}
use sqlite_durable_workflow.Effect.Timers.{firing_all}

-- CompleteWorkflow and FailWorkflow, each with the status of its row and its event.
pub data Ending (now : ℤ) (id worker : String) : Section → Status → EventType → Type 0 where
  by_success : Ending now id worker (complete now id worker) completed workflow_completed
  by_failure : Ending now id worker (fail now id worker) failed workflow_failed

-- What a section does to the database: nothing, or the change that its constructor names.
pub data Change (p : Platform) (d : Db) : Section → Db → Type 0 where
  stays : {c : Section} → Change p d c d
  creates :
      (now : ℤ) (id workflow_type : String)
      → has_workflow id d.workflows ≡ false
      → Change p d (create now id workflow_type) (created now id workflow_type d)
  acquires :
      (now : ℤ) (worker : String) (duration : ℤ) (w : Workflow)
      → is_eligible now d.workflow_timers w ≡ true
      → Memᴰ w d.workflows
      → Change p d
          (acquire now worker duration)
          (granting w.workflow_id worker (lease_end p now duration) now d)
  renews :
      (now : ℤ) (id worker : String) (duration : ℤ)
      → Change p d (renew now id worker duration) (
          with_workflows
            (update (is_running id worker) (renewed (lease_end p now duration) now) d.workflows)
            d)
  releases :
      (now : ℤ) (id worker : String)
      → Change p d
          (release now id worker)
          (with_workflows (update (is_leased id worker) (requeued now) d.workflows) d)
  pauses :
      (now : ℤ) (id worker : String)
      → Change p d
          (wait now id worker)
          (with_workflows (update (is_running id worker) (paused now) d.workflows) d)
  finishes :
      (c : Section) (status : Status) (event_type : EventType) (now : ℤ) (id worker : String)
      → Ending now id worker c status event_type
      → count (is_running id worker) d.workflows ≢ 0
      → Change p d c (finishing status event_type now id worker d)
  starts :
      (now : ℤ) (id : String) (n : ℤ) (input : Value)
      → has_workflow id d.workflows ≡ true
      → Change p d (Section.start_step now id n input) (starting p now id n input d)
  completes :
      (now : ℤ) (id worker : String) (n : ℤ) (input output : Value) (w : Workflow)
      → lookup id d.workflows ≡ some w
      → is_owner worker w.lease_owner ≡ true
      → is_done id n d.workflow_steps ≡ false
      → Change p d
          (Section.complete_step now id worker n input output)
          (completing p now id worker n input output d)
  fails :
      (now : ℤ) (id : String) (n : ℤ) (input : Value) (message : String)
      → has_workflow id d.workflows ≡ true
      → Change p d (Section.fail_step now id n input message) (failing p now id n input message d)
  sends :
      (now : ℤ) (id signal_type : String) (payload : Value)
      → has_workflow id d.workflows ≡ true
      → Change p d (send now id signal_type payload) (sending p now id signal_type payload d)
  takes :
      (id : String) (s : Signal)
      → is_pending id s ≡ true
      → Memᴰ s d.workflow_signals
      → Change p d (consume id) (taking s.signal_id d)
  times :
      (id : String) (wake_at : ℤ)
      → has_workflow id d.workflows ≡ true
      → Change p d (add_timer id wake_at) (timing id wake_at d)
  fires : (now : ℤ) → Change p d (fire now) (firing_all now (firing_timers p now d) d)
  expires :
      (now : ℤ)
      → Change p d
          (expire now)
          (with_workflows (update (is_abandoned now) (requeued now) d.workflows) d)

-- The databases that a database can come to.
pub data Reach (p : Platform) (d : Db) : Db → Type 0 where
  here : Reach p d d
  next : {c : Section} {e f : Db} → Reach p d e → Change p e c f → Reach p d f
