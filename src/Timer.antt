-- ===== src/Timer.antt =====
-- timer.go: timers, and the two halves of the scheduler's housekeeping.
use sqlite_durable_workflow.Common.{
  ℕ, suc, ◌+◌, String, ℤ, ⊤, Bool, true, false, not, ◌&&◌, eqb, List, [], ◌∷◌, ◌++◌, Option, none,
  some, ◌==◌, if◌then◌else◌, select, first, update,
}
use sqlite_durable_workflow.Types.{Workflow, Timer, running, waiting, timer_fired}
use sqlite_durable_workflow.Store.Db.{Db, has_workflow, is_workflow}
use sqlite_durable_workflow.Store.Session.{
  M, Result, ok, err, constraint, pure, exec, query, query_row, wrapping, optional, commit,
  transaction, ◌>>=◌, ◌>>◌,
}
use sqlite_durable_workflow.Store.Platform.{Platform}
use sqlite_durable_workflow.Event.{append_event_tx}
use sqlite_durable_workflow.Workflow.{is_status, is_due, is_expired, update_workflows, requeued}

abbrev pub timer_row : ℕ → String → ℤ → Timer
timer_row timer_id id wake_at = record {
  timer_id = timer_id;
  workflow_id = id;
  wake_at = wake_at;
  fired = false;
}

-- The INSERT of `CreateTimer`, with `LastInsertId` and the foreign key.
unfoldable pub insert_timer : String → ℤ → Db → Result (ℕ × Db)
insert_timer id wake_at d =
    if has_workflow id d.workflows
    then ok (
      suc d.last_timer_id,
      record d {
        workflow_timers = d.workflow_timers ++ timer_row (suc d.last_timer_id) id wake_at ∷ [];
        last_timer_id = suc d.last_timer_id;
      },
    )
    else err constraint

unfoldable pub create_timer : String → ℤ → M Timer
unfolding ◌>>=◌ wrapping exec pure insert_timer
create_timer id wake_at = do
  timer_id ← wrapping "insert timer" (exec (insert_timer id wake_at))
  pure (timer_row timer_id id wake_at)

-- Whether the joined workflow of a timer is WAITING.
abbrev pub is_waiting_for : String → List Workflow → Bool
is_waiting_for id [] = false
is_waiting_for id (w ∷ ws) =
    let rest = is_waiting_for id ws in if is_workflow id w then is_status w.status waiting else rest

-- The WHERE clause of the join in `fireExpiredTimers`; a workflow_id has one workflow.
abbrev pub is_firing : ℤ → List Workflow → Timer → Bool
is_firing now ws t = is_due now t && is_waiting_for t.workflow_id ws

unfoldable pub firing_timers : Platform → ℤ → Db → List Timer
firing_timers p now d = p.scan Timer (select (is_firing now d.workflows) d.workflow_timers)

abbrev pub is_timer : ℕ → Timer → Bool
is_timer k t = eqb t.timer_id k

abbrev pub fired_timer : Timer → Timer
fired_timer t = record t { fired = true }

-- `UPDATE workflow_timers SET fired = 1 WHERE timer_id = ?`.
unfoldable pub mark_fired : ℕ → Db → Result (⊤ × Db)
mark_fired k d =
    ok (tt, record d { workflow_timers = update (is_timer k) fired_timer d.workflow_timers })

-- The loop of `fireExpiredTimers`.
unfoldable pub fire_all : ℤ → List Timer → ℕ → M ℕ
unfolding pure ◌>>◌ exec mark_fired append_event_tx
fire_all now [] fired_count = pure fired_count
fire_all now (t ∷ ts) fired_count = do
  exec (mark_fired t.timer_id)
  exec (update_workflows (is_workflow t.workflow_id) (requeued now))
  append_event_tx t.workflow_id timer_fired none 0 now
  fire_all now ts (fired_count + 1)

unfoldable pub fire_expired_timers : Platform → ℤ → M ℕ
unfolding ◌>>=◌ ◌>>◌ transaction wrapping query firing_timers fire_all commit pure
fire_expired_timers p now = transaction do
  timers ← wrapping "query" (query (firing_timers p now))
  fired_count ← fire_all now timers 0
  wrapping "commit" commit
  pure fired_count

-- `lease_expires_at IS NOT NULL AND lease_expires_at <= ? AND status = 'RUNNING'`.
abbrev pub is_abandoned : ℤ → Workflow → Bool
is_abandoned now w = is_expired now w.lease_expires_at && is_status w.status running

unfoldable pub expire_leases : ℤ → M ℕ
unfolding wrapping exec
expire_leases now =
    wrapping "expire leases" (exec (update_workflows (is_abandoned now) (requeued now)))

abbrev is_pending : String → Timer → Bool
is_pending id t = t.workflow_id == id && not t.fired

unfoldable pub get_pending_timers : Platform → String → M (List Timer)
unfolding query
get_pending_timers p id =
    query (λ d. p.order_by Timer (λ t. t.wake_at) (select (is_pending id) d.workflow_timers))

abbrev pub is_some : {A : Type 0} → Option A → Bool
is_some none = false
is_some (some a) = true

-- `SELECT 1 … LIMIT 1`, where no row means false.
unfoldable pub has_expired_timer : String → ℤ → M Bool
unfolding ◌>>=◌ optional query_row pure
has_expired_timer id now = do
  row ←
      optional (
        query_row
          (λ d. first (select (λ t. t.workflow_id == id && is_due now t) d.workflow_timers)))
  pure (is_some row)
