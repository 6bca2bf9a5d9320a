-- ===== src/Invariant/Moves.antt =====
-- Which function moves a workflow from which status to which, and what else of its row may change.
pub mod Sound
use mathlib.Core.List.{Memᴰ}
use sqlite_durable_workflow.Common.{
  String, ℕ, ◌+◌, ◌≤◌, ℤ, Bool, true, false, List, [], ◌∷◌, some, ◌≡◌, refl, sym, ap, ◌∙◌, arith,
  Bool-cases, inl, inr, eq_of_test, subst, update, ◌||◌, if◌then◌else◌,
}
use sqlite_durable_workflow.Types.{
  Workflow, Timer, EventType, Status, queued, running, waiting, completed, failed,
}
use sqlite_durable_workflow.Store.Db.{Db, is_workflow, lookup}
use sqlite_durable_workflow.Store.Platform.{Platform}
use sqlite_durable_workflow.Store.Lookup.{lookup-append_old, lookup-update, lookup_mem}
use sqlite_durable_workflow.Section.{Section, acquire, release, complete, fail, wait, expire, fire}
use sqlite_durable_workflow.Effect.Timers.{firing, firing_all, firing_timers_mem}
use sqlite_durable_workflow.Timer.{firing_timers, is_waiting_for, is_abandoned}
use sqlite_durable_workflow.Workflow.{
  is_running, is_leased, grant, is_eligible, is_status, renewed, requeued, paused, finished,
  lease_end,
}
use sqlite_durable_workflow.Step.{advanced}
use sqlite_durable_workflow.Change.{
  Change, stays, creates, acquires, renews, releases, pauses, finishes, starts, completes, fails,
  sends, takes, times, fires, expires, Ending, by_success, by_failure,
}
use sqlite_durable_workflow.Invariant.{IsRow, IsWellFormed, is_terminal, is_live}
use sqlite_durable_workflow.Invariant.Rows.{All-mem, same_row, eligible_unended}
use sqlite_durable_workflow.Invariant.Leased.{waiting_status}

-- The state machine of a workflow: AcquireLease starts a QUEUED workflow, wakes a WAITING one and
-- takes over a RUNNING one; a RUNNING one is paused, completed and failed; RUNNING and WAITING ones
-- are released; a timer queues a WAITING one, and the expiry of its lease a RUNNING one.
pub data Move : Section → Status → Status → Type 0 where
  stay : {c : Section} {s : Status} → Move c s s
  start :
      {now : ℤ} {worker : String} {duration : ℤ} → Move (acquire now worker duration) queued running
  wake :
      {now : ℤ} {worker : String} {duration : ℤ}
      → Move (acquire now worker duration) waiting running
  pause : {now : ℤ} {id worker : String} → Move (wait now id worker) running waiting
  give_back : {now : ℤ} {id worker : String} → Move (release now id worker) running queued
  give_up : {now : ℤ} {id worker : String} → Move (release now id worker) waiting queued
  succeed : {now : ℤ} {id worker : String} → Move (complete now id worker) running completed
  end_failed : {now : ℤ} {id worker : String} → Move (fail now id worker) running failed
  ring : {now : ℤ} → Move (fire now) waiting queued
  lapse : {now : ℤ} → Move (expire now) running queued

-- The row after a section: its status by a move of the machine, its type and its creation as they
-- were, and its cursor and version the same or one more.
pub record Follows (c : Section) (w v : Workflow) : Type 0 where
  pub move : Move c w.status v.status
  pub workflow_type : v.workflow_type ≡ w.workflow_type
  pub created_at : v.created_at ≡ w.created_at
  pub cursor_grows : w.current_step ≤ v.current_step
  pub cursor_by_one : v.current_step ≤ w.current_step + 1
  pub version_grows : w.version ≤ v.version
  pub version_by_one : v.version ≤ w.version + 1

-- With the number of steps and of versions that the section counts.
pub Follows-by :
    (c : Section) (w v : Workflow) (steps versions : ℕ)
    → Move c w.status v.status
    → v.workflow_type ≡ w.workflow_type
    → v.created_at ≡ w.created_at
    → v.current_step ≡ w.current_step + steps
    → v.version ≡ w.version + versions
    → steps ≤ 1
    → versions ≤ 1
    → Follows c w v
Follows-by c w v steps versions m t a x y i j = record {
  move = m;
  workflow_type = t;
  created_at = a;
  cursor_grows = omega arith;
  cursor_by_one = omega arith;
  version_grows = omega arith;
  version_by_one = omega arith;
}

-- A row of which only the status, the lease and the other times change.
pub Follows-row :
    (c : Section) (w v : Workflow)
    → Move c w.status v.status
    → v.workflow_type ≡ w.workflow_type
    → v.created_at ≡ w.created_at
    → v.current_step ≡ w.current_step
    → v.version ≡ w.version
    → Follows c w v
Follows-row c w v m t a x y =
    Follows-by c w v 0 0 m t a (omega arith) (omega arith) (omega arith) (omega arith)

pub Follows-same : (c : Section) (w : Workflow) → Follows c w w
Follows-same c w = Follows-row c w w stay refl refl refl refl

abbrev pub Successor : Section → String → Workflow → Db → Type 0
Successor c id w d = (v : Workflow) × (lookup id d.workflows ≡ some v) × Follows c w v

pub chosen-Follows :
    (c : Section) (b : Bool) (w v : Workflow)
    → (b ≡ true → Follows c w v)
    → Follows c w (if b then v else w)
chosen-Follows c true w v h = h refl
chosen-Follows c false w v h = Follows-same c w
