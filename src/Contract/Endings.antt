-- ===== src/Contract/Endings.antt =====
-- CompleteWorkflow and FailWorkflow (workflow.go), called by a lease's owner.
use sqlite_durable_workflow.Common.{String, ℤ, ◌+◌, true, none, some, ◌≡◌, refl, ◌∙◌, arith}
use sqlite_durable_workflow.Types.{
  Workflow, Status, completed, failed, EventType, workflow_completed, workflow_failed,
}
use sqlite_durable_workflow.Store.Db.{Db, lookup}
use sqlite_durable_workflow.Store.Session.{ok, err, lease_mismatch, quiet}
use sqlite_durable_workflow.Store.Lookup.{Unique, lookup-update, Unique-update}
use sqlite_durable_workflow.Workflow.{complete_workflow, fail_workflow, is_running, finished}
use sqlite_durable_workflow.Effect.Workflows.{finish_lem, finishing}
use sqlite_durable_workflow.Contract.Leases.{not_leased, running_row}

-- On a row with no lease, CompleteWorkflow and FailWorkflow are refused.
finish_unleased :
    (now : ℤ) (id worker : String) (d : Db) (w : Workflow)
    → Unique d.workflows
    → lookup id d.workflows ≡ some w
    → w.lease_owner ≡ none
    → (complete_workflow now id worker (quiet d) ≡ (err lease_mismatch, quiet d))
      × (fail_workflow now id worker (quiet d) ≡ (err lease_mismatch, quiet d))
unfolding complete_workflow fail_workflow
finish_unleased now id worker d w u e free =
    let none_left = not_leased id worker d.workflows w u e (rw free refl) in
    (
      finish_lem completed workflow_completed now id worker d ∙ ground arith,
      finish_lem failed workflow_failed now id worker d ∙ ground arith,
    )

finishing_row :
    (status : Status) (event_type : EventType) (now : ℤ) (id worker : String) (d : Db)
    (w : Workflow)
    → lookup id d.workflows ≡ some w
    → is_running id worker w ≡ true
    → lookup id (finishing status event_type now id worker d).workflows
      ≡ some (finished status now w)
finishing_row status event_type now id worker d w e h =
    lookup-update (is_running id worker) (finished status now) (λ x. refl) id d.workflows {w = w} e
    ∙ rw h refl

finishing_refuses :
    (status : Status) (event_type : EventType) (now later : ℤ) (id worker : String) (d : Db)
    (w : Workflow)
    → Unique d.workflows
    → lookup id d.workflows ≡ some w
    → is_running id worker w ≡ true
    → let e = finishing status event_type now id worker d in
      (complete_workflow later id worker (quiet e) ≡ (err lease_mismatch, quiet e))
      × (fail_workflow later id worker (quiet e) ≡ (err lease_mismatch, quiet e))
finishing_refuses status event_type now later id worker d w u e h =
    finish_unleased later id worker (finishing status event_type now id worker d)
      (finished status now w)
      (Unique-update (is_running id worker) (finished status now) (λ x. refl) d.workflows u)
      (finishing_row status event_type now id worker d w e h) refl

-- A worker that owns a RUNNING workflow ends it: CompleteWorkflow and FailWorkflow return nil, the
-- row is COMPLETED or FAILED, with no owner, no end of a lease and the time in completed_at. After
-- either, a second call of either is refused, and changes nothing.
pub finish_once :
    (now later : ℤ) (id worker : String) (d : Db) (w : Workflow)
    → Unique d.workflows
    → lookup id d.workflows ≡ some w
    → is_running id worker w ≡ true
    → let c = finishing completed workflow_completed now id worker d in
      let f = finishing failed workflow_failed now id worker d in
      (complete_workflow now id worker (quiet d) ≡ (ok tt, quiet c))
      × (fail_workflow now id worker (quiet d) ≡ (ok tt, quiet f))
      × (lookup id c.workflows
          ≡ some (record w {
            status = completed;
            lease_owner = none;
            lease_expires_at = none;
            completed_at = some now;
            updated_at = now;
            version = w.version + 1;
          }))
      × (lookup id f.workflows
          ≡ some (record w {
            status = failed;
            lease_owner = none;
            lease_expires_at = none;
            completed_at = some now;
            updated_at = now;
            version = w.version + 1;
          }))
      × (complete_workflow later id worker (quiet c) ≡ (err lease_mismatch, quiet c))
      × (fail_workflow later id worker (quiet c) ≡ (err lease_mismatch, quiet c))
      × (complete_workflow later id worker (quiet f) ≡ (err lease_mismatch, quiet f))
      × (fail_workflow later id worker (quiet f) ≡ (err lease_mismatch, quiet f))
unfolding complete_workflow fail_workflow
finish_once now later id worker d w u e h =
    let counted = running_row id worker d.workflows w e h in
    let (cc_, cf) = finishing_refuses completed workflow_completed now later id worker d w u e h in
    let (fc, ff) = finishing_refuses failed workflow_failed now later id worker d w u e h in
    (
      finish_lem completed workflow_completed now id worker d ∙ ground arith,
      finish_lem failed workflow_failed now id worker d ∙ ground arith,
      finishing_row completed workflow_completed now id worker d w e h,
      finishing_row failed workflow_failed now id worker d w e h,
      cc_,
      cf,
      fc,
      ff,
    )
