-- ===== src/Effect/Workflows.antt =====
-- The functions of workflow.go.
use sqlite_durable_workflow.Common.{
  String, ℕ, zero, suc, eqb, count, update, ℤ, ⊤, true, false, List, [], ◌∷◌, ◌++◌, Option, none,
  if◌then◌else◌, ◌≡◌, refl, arith, eq_refl, Bool-cases, inl, inr,
}
use sqlite_durable_workflow.Types.{Status, Workflow, EventType, workflow_created}
use sqlite_durable_workflow.Store.Db.{Db, has_workflow}
use sqlite_durable_workflow.Store.Session.{
  Session, Result, ok, err, wrap, constraint, lease_mismatch, quiet,
}
use sqlite_durable_workflow.Store.Lookup.{
  has_workflow-append_new, lookup-append_new, has_workflow-update,
}
use sqlite_durable_workflow.Event.{event_row, max_sequence, next_of, append_event_tx}
use sqlite_durable_workflow.Store.Platform.{Platform}
use sqlite_durable_workflow.Workflow.{
  new_workflow, create_workflow, require_affected, renew_lease, lease_end, renewed, is_running,
  is_leased, release_lease, requeued, mark_waiting, paused, finish, finished,
}

-- The event appended with a given sequence number, and with the next one.
abbrev pub with_event : String → EventType → Option String → ℕ → ℤ → Db → Db
with_event id event_type payload n now d = record d {
  workflow_events =
      d.workflow_events ++ event_row (suc d.last_event_id) id event_type payload n now ∷ [];
  last_event_id = suc d.last_event_id;
}

abbrev pub logged : String → EventType → Option String → ℤ → Db → Db
logged id event_type payload now d =
    with_event id event_type payload (next_of (max_sequence id d.workflow_events)) now d

module _ (id : String) (event_type : EventType) (payload : Option String) (now : ℤ) (d : Db) where
  pub append_event_tx_lem :
      (saved : Option Db)
      → has_workflow id d.workflows ≡ true
      → append_event_tx id event_type payload 0 now
          (record { db = d; saved = saved; left_open = false; faults = [] })
        ≡ (
          ok tt,
          record {
            db = logged id event_type payload now d;
            saved = saved;
            left_open = false;
            faults = [];
          },
        )
  unfolding append_event_tx
  append_event_tx_lem saved h = ground arith

abbrev pub created : ℤ → String → String → Db → Db
created now id workflow_type d =
    with_event id workflow_created none 1 now
      (record d { workflows = d.workflows ++ new_workflow id workflow_type now ∷ [] })

pub create_workflow_lem :
    (now : ℤ) (id workflow_type : String) (d : Db)
    → create_workflow now id workflow_type (quiet d) ≡ (
        if has_workflow id d.workflows
        then (err (wrap "insert workflow" constraint), quiet d)
        else (ok (new_workflow id workflow_type now), quiet (created now id workflow_type d)))
unfolding create_workflow
create_workflow_lem now id ty d = elim (Bool-cases (has_workflow id d.workflows)) [
  | inl e ↦ rw e ground arith
  | inr e ↦ rw e ground (
    arith,
    has_workflow-append_new id d.workflows (new_workflow id ty now) (eq_refl id),
    lookup-append_new id d.workflows (new_workflow id ty now) e (eq_refl id),
  )
]

-- `RowsAffected` of zero is the error `ErrLeaseMismatch`.
abbrev pub affected : ℕ → Result ⊤
affected zero = err lease_mismatch
affected (suc n) = ok tt

abbrev pub with_workflows : List Workflow → Db → Db
with_workflows ws d = record d { workflows = ws }

require_affected_lem : (n : ℕ) (s : Session) → require_affected n s ≡ (affected n, s)
unfolding require_affected
require_affected_lem zero s = refl
require_affected_lem (suc n) s = refl

module _ (p : Platform) (now : ℤ) (id worker : String) (d : Db) where
  pub renew_lease_lem :
      (duration : ℤ)
      → renew_lease p now id worker duration (quiet d) ≡ (
        affected (count (is_running id worker) d.workflows),
        quiet (
            with_workflows
              (update (is_running id worker) (renewed (lease_end p now duration) now) d.workflows)
              d),
      )
  unfolding renew_lease
  renew_lease_lem duration = require_affected_lem _ _

module _ (now : ℤ) (id worker : String) (d : Db) where
  pub release_lease_lem : release_lease now id worker (quiet d) ≡ (
    affected (count (is_leased id worker) d.workflows),
    quiet (with_workflows (update (is_leased id worker) (requeued now) d.workflows) d),
  )
  unfolding release_lease
  release_lease_lem = require_affected_lem _ _

  pub mark_waiting_lem : mark_waiting now id worker (quiet d) ≡ (
    affected (count (is_running id worker) d.workflows),
    quiet (with_workflows (update (is_running id worker) (paused now) d.workflows) d),
  )
  unfolding mark_waiting
  mark_waiting_lem = require_affected_lem _ _

count_running_has :
    (id worker : String) (ws : List Workflow)
    → has_workflow id ws ≡ false
    → count (is_running id worker) ws ≡ 0
count_running_has id worker [] h = refl
count_running_has id worker (w ∷ ws) h = ground (arith, count_running_has id worker ws)

abbrev pub finishing : Status → EventType → ℤ → String → String → Db → Db
finishing status event_type now id worker d =
    logged id event_type none now
      (with_workflows (update (is_running id worker) (finished status now) d.workflows) d)

module _ (status : Status) (event_type : EventType) (now : ℤ) (id worker : String) (d : Db) where
  pub finish_lem : finish status event_type now id worker (quiet d) ≡ (
      if eqb (count (is_running id worker) d.workflows) 0
      then (err lease_mismatch, quiet d)
      else (ok tt, quiet (finishing status event_type now id worker d)))
  unfolding finish
  finish_lem = ground (
    arith,
    count_running_has id worker d.workflows,
    has_workflow-update (is_running id worker) (finished status now) (λ w. refl) id d.workflows,
  )
