-- ===== src/Workflow.antt =====
-- workflow.go: the life of a workflow row and its lease. The clock's reading at the start of a
-- function is the argument `now`.
use sqlite_durable_workflow.Common.{
  ℕ, zero, suc, ◌+◌, String, ℤ, ◌+ℤ◌, leb_ℤ, int64, ⊤, Bool, true, false, not, ◌&&◌, ◌||◌, List, [],
  ◌∷◌, ◌++◌, Option, none, some, ◌==◌, if◌then◌else◌, select, first, update, count,
}
use sqlite_durable_workflow.Types.{
  Status, queued, running, waiting, completed, failed, EventType, workflow_created,
  workflow_started, workflow_completed, workflow_failed, Workflow, Timer,
}
use sqlite_durable_workflow.Store.Db.{Db, is_workflow, is_owner, lookup, has_workflow}
use sqlite_durable_workflow.Store.Session.{
  M, Result, ok, err, constraint, lease_mismatch, pure, throw, exec, query_row, wrapping, optional,
  commit, transaction, ◌>>=◌, ◌>>◌,
}
use sqlite_durable_workflow.Store.Platform.{Platform}
use sqlite_durable_workflow.Event.{append_event_tx}

abbrev pub is_status : Status → Status → Bool
is_status queued queued = true
is_status running running = true
is_status waiting waiting = true
is_status completed completed = true
is_status failed failed = true
is_status _ _ = false

-- An UPDATE of the table `workflows`, with its `RowsAffected`.
abbrev pub update_workflows : (Workflow → Bool) → (Workflow → Workflow) → Db → Result (ℕ × Db)
update_workflows where_ set_ d =
    ok (count where_ d.workflows, record d { workflows = update where_ set_ d.workflows })

abbrev pub new_workflow : String → String → ℤ → Workflow
new_workflow id workflow_type now = record {
  workflow_id = id;
  workflow_type = workflow_type;
  status = queued;
  current_step = 0;
  lease_owner = none;
  lease_expires_at = none;
  created_at = now;
  updated_at = now;
  completed_at = none;
  version = 1;
}

-- The INSERT of `CreateWorkflow`, with its primary key.
unfoldable pub insert_workflow : String → String → ℤ → Db → Result (⊤ × Db)
insert_workflow id workflow_type now d =
    if has_workflow id d.workflows
    then err constraint
    else ok (tt, record d { workflows = d.workflows ++ new_workflow id workflow_type now ∷ [] })

unfoldable pub get_workflow : String → M Workflow
unfolding query_row
get_workflow id = query_row (λ d. lookup id d.workflows)

unfoldable pub create_workflow : ℤ → String → String → M Workflow
unfolding ◌>>=◌ ◌>>◌ transaction wrapping exec commit insert_workflow append_event_tx get_workflow
create_workflow now id workflow_type = transaction do
  wrapping "insert workflow" (exec (insert_workflow id workflow_type now))
  append_event_tx id workflow_created none 1 now
  wrapping "commit" commit
  get_workflow id

-- `WHERE workflow_id = ? AND fired = 0 AND wake_at <= ?`.
abbrev pub is_due : ℤ → Timer → Bool
is_due now t = not t.fired && leb_ℤ t.wake_at now

abbrev pub has_due_timer : String → ℤ → List Timer → Bool
has_due_timer id now [] = false
has_due_timer id now (t ∷ ts) = (t.workflow_id == id && is_due now t) || has_due_timer id now ts

-- `lease_expires_at IS NOT NULL AND lease_expires_at <= ?`.
abbrev pub is_expired : ℤ → Option ℤ → Bool
is_expired now none = false
is_expired now (some expires) = leb_ℤ expires now

-- The WHERE clause of `AcquireLease`.
abbrev pub is_eligible : ℤ → List Timer → Workflow → Bool
is_eligible now timers w =
    is_status w.status queued
    || (is_status w.status waiting && has_due_timer w.workflow_id now timers
        || is_expired now w.lease_expires_at)

unfoldable pub next_eligible : Platform → ℤ → Db → Option Workflow
next_eligible p now d = first (
    p.order_by Workflow (λ w. w.created_at)
      (select (is_eligible now d.workflow_timers) d.workflows))

abbrev pub id_of : Option Workflow → Option String
id_of none = none
id_of (some w) = some w.workflow_id

abbrev pub grant : String → ℤ → ℤ → Workflow → Workflow
grant worker expires now w = record w {
  status = running;
  lease_owner = some worker;
  lease_expires_at = some expires;
  updated_at = now;
  version = w.version + 1;
}

abbrev pub lease_end : Platform → ℤ → ℤ → ℤ
lease_end p now duration = int64 (now +ℤ p.seconds duration)

-- `AcquireLease` after its SELECT: with no row it returns nil, nil.
unfoldable pub claim : ℤ → String → ℤ → Option String → M (Option Workflow)
unfolding pure ◌>>=◌ ◌>>◌ wrapping exec commit append_event_tx get_workflow
claim now worker expires none = pure none
claim now worker expires (some id) = do
  wrapping "update lease" (exec (update_workflows (is_workflow id) (grant worker expires now)))
  append_event_tx id workflow_started none 0 now
  wrapping "commit" commit
  w ← get_workflow id
  pure (some w)

unfoldable pub acquire_lease : Platform → ℤ → String → ℤ → M (Option Workflow)
unfolding ◌>>=◌ transaction wrapping optional query_row next_eligible claim
acquire_lease p now worker duration = transaction do
  found ← wrapping "select" (optional (query_row (λ d. id_of (next_eligible p now d))))
  claim now worker (lease_end p now duration) found

-- `if n == 0 { return ErrLeaseMismatch }`.
unfoldable pub require_affected : ℕ → M ⊤
unfolding throw pure
require_affected zero = throw lease_mismatch
require_affected (suc n) = pure tt

-- `WHERE workflow_id = ? AND lease_owner = ?`, and the same with `AND status = 'RUNNING'`.
abbrev pub is_leased : String → String → Workflow → Bool
is_leased id worker w = is_workflow id w && is_owner worker w.lease_owner

abbrev pub is_running : String → String → Workflow → Bool
is_running id worker w = is_leased id worker w && is_status w.status running

abbrev pub renewed : ℤ → ℤ → Workflow → Workflow
renewed expires now w = record w { lease_expires_at = some expires; updated_at = now }

unfoldable pub renew_lease : Platform → ℤ → String → String → ℤ → M ⊤
unfolding ◌>>=◌ wrapping exec require_affected
renew_lease p now id worker duration = do
  n ←
      wrapping "renew lease"
        (exec (update_workflows (is_running id worker) (renewed (lease_end p now duration) now)))
  require_affected n

-- `SET status = 'QUEUED', lease_owner = NULL, lease_expires_at = NULL, updated_at = ?`.
abbrev pub requeued : ℤ → Workflow → Workflow
requeued now w = record w {
  status = queued;
  lease_owner = none;
  lease_expires_at = none;
  updated_at = now;
}

unfoldable pub release_lease : ℤ → String → String → M ⊤
unfolding ◌>>=◌ wrapping exec require_affected
release_lease now id worker = do
  n ← wrapping "release lease" (exec (update_workflows (is_leased id worker) (requeued now)))
  require_affected n

abbrev pub finished : Status → ℤ → Workflow → Workflow
finished status now w = record w {
  status = status;
  lease_owner = none;
  lease_expires_at = none;
  completed_at = some now;
  updated_at = now;
  version = w.version + 1;
}

-- `CompleteWorkflow` and `FailWorkflow` differ in the status and the event.
unfoldable pub finish : Status → EventType → ℤ → String → String → M ⊤
unfolding ◌>>=◌ ◌>>◌ transaction wrapping exec commit require_affected append_event_tx
finish status event_type now id worker = transaction do
  n ← wrapping "update" (exec (update_workflows (is_running id worker) (finished status now)))
  require_affected n
  append_event_tx id event_type none 0 now
  commit

unfoldable pub complete_workflow : ℤ → String → String → M ⊤
unfolding finish
complete_workflow = finish completed workflow_completed

unfoldable pub fail_workflow : ℤ → String → String → M ⊤
unfolding finish
fail_workflow = finish failed workflow_failed

abbrev pub paused : ℤ → Workflow → Workflow
paused now w = record w { status = waiting; updated_at = now }

unfoldable pub mark_waiting : ℤ → String → String → M ⊤
unfolding ◌>>=◌ wrapping exec require_affected
mark_waiting now id worker = do
  n ← wrapping "mark waiting" (exec (update_workflows (is_running id worker) (paused now)))
  require_affected n

abbrev pub owner_of : Option Workflow → Option (Option String)
owner_of none = none
owner_of (some w) = some w.lease_owner

-- `if !owner.Valid || owner.String != workerID { return ErrLeaseMismatch }`.
unfoldable pub check_owner : String → Option String → M ⊤
unfolding pure throw
check_owner worker owner = if is_owner worker owner then pure tt else throw lease_mismatch

unfoldable pub verify_lease : String → String → M ⊤
unfolding ◌>>=◌ query_row check_owner
verify_lease id worker = do
  owner ← query_row (λ d. owner_of (lookup id d.workflows))
  check_owner worker owner
