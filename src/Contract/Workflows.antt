-- ===== src/Contract/Workflows.antt =====
-- `CreateWorkflow`, `GetWorkflow` (workflow.go) and the queries by status (engine.go).
use mathlib.Core.List.{Memᴰ}
use mathlib.Core.List.Permᴰ
use sqlite_durable_workflow.Common.{
  String, ℤ, Bool, true, false, List, [], ◌∷◌, ◌++◌, ◌≡◌, ◌≢◌, refl, ap, ◌∙◌, arith, select,
  eq_refl, eq_iff,
}
use sqlite_durable_workflow.Types.{Status, queued, running, waiting, completed, failed, Workflow}
use sqlite_durable_workflow.Store.Db.{Db, has_workflow, is_workflow, lookup}
use sqlite_durable_workflow.Store.Session.{M, ok, quiet}
use sqlite_durable_workflow.Store.Platform.{Platform}
use sqlite_durable_workflow.Store.Rows.{perm_mem, mem-select, select-mem}
use sqlite_durable_workflow.Store.Lookup.{lookup-append_new}
use sqlite_durable_workflow.Workflow.{new_workflow, create_workflow, get_workflow, is_status}
use sqlite_durable_workflow.Query.{
  query_workflows, query_completed, query_failed, query_running, query_queued, query_waiting,
}
use sqlite_durable_workflow.Effect.Workflows.{created, create_workflow_lem}

other_key :
    (id : String) (ws : List Workflow) (w : Workflow)
    → is_workflow id w ≡ false
    → lookup id (ws ++ w ∷ []) ≡ lookup id ws
other_key id [] w h = ground arith
other_key id (v ∷ ws) w h = ground (arith, other_key id ws w)

-- CreateWorkflow with a new key returns a QUEUED workflow at step 0 and version 1, which
-- GetWorkflow then returns, while every other key has the row that it had.
pub create-get_workflow :
    (now : ℤ) (id workflow_type : String) (d : Db) (other : String)
    → has_workflow id d.workflows ≡ false
    → other ≢ id
    → (create_workflow now id workflow_type (quiet d)
        ≡ (ok (new_workflow id workflow_type now), quiet (created now id workflow_type d)))
      × (get_workflow id (quiet (created now id workflow_type d))
          ≡ (ok (new_workflow id workflow_type now), quiet (created now id workflow_type d)))
      × (lookup other (created now id workflow_type d).workflows ≡ lookup other d.workflows)
unfolding get_workflow
create-get_workflow now id ty d other h differs =
    let row = lookup-append_new id d.workflows (new_workflow id ty now) h (eq_refl id) in
    (
      create_workflow_lem now id ty d ∙ rw h refl,
      ground arith,
      other_key other d.workflows (new_workflow id ty now) (ground (arith, eq_iff id other)),
    )

is_status-eq : (s t : Status) → is_status s t ≡ true → s ≡ t
is_status-eq s t h = ground arith

is_status_refl : (s : Status) → is_status s s ≡ true
is_status_refl s = ground arith

-- A query that writes nothing and returns the rows with a status: each such row, and no other.
abbrev pub Lists : M (List Workflow) → Status → Db → Type 0
Lists query status d =
    (ws : List Workflow) × (query (quiet d) ≡ (ok ws, quiet d))
    × ((w : Workflow)
        → (Memᴰ w ws → (w.status ≡ status) × Memᴰ w d.workflows)
          × (w.status ≡ status → Memᴰ w d.workflows → Memᴰ w ws))

query_workflows-Lists :
    (p : Platform) (status : Status) (d : Db)
    → Lists (query_workflows p (λ w. is_status w.status status)) status d
unfolding query_workflows
query_workflows-Lists p status d =
    let chosen : Workflow → Bool = λ w. is_status w.status status in
    (
      p.scan Workflow (select chosen d.workflows),
      refl,
      λ w. (
        λ m.
            let (h, there) = mem-select chosen d.workflows (perm_mem (p.scan-perm Workflow _) m) in
            (is_status-eq w.status status h, there),
        λ h m. perm_mem (Permᴰ.symm (p.scan-perm Workflow _)) (
            select-mem chosen d.workflows (ap (λ x. is_status x status) h ∙ is_status_refl status)
              m),
      ),
    )

-- QueryCompleted, QueryFailed, QueryRunning, QueryQueued and QueryWaiting write nothing and return
-- the rows of the table whose status is COMPLETED, FAILED, RUNNING, QUEUED and WAITING,
-- respectively: each such row, and no other.
pub queries_by_status :
    (p : Platform) (d : Db)
    → Lists (query_completed p) completed d
      × Lists (query_failed p) failed d
      × Lists (query_running p) running d
      × Lists (query_queued p) queued d
      × Lists (query_waiting p) waiting d
unfolding query_completed query_failed query_running query_queued query_waiting
queries_by_status p d = (
  query_workflows-Lists p completed d,
  query_workflows-Lists p failed d,
  query_workflows-Lists p running d,
  query_workflows-Lists p queued d,
  query_workflows-Lists p waiting d,
)
