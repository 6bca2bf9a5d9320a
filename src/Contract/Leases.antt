-- ===== src/Contract/Leases.antt =====
-- The protocol of leases: `AcquireLease` and the functions that a lease's owner calls (workflow.go,
-- step.go).
use mathlib.Core.List.{Memᴰ}
use sqlite_durable_workflow.Common.{
  String, ℤ, ◌≤ℤ◌, true, false, List, [], ◌∷◌, none, some, ◌≡◌, ◌≢◌, refl, ap, ◌∙◌, arith, count,
  ◌⊎◌, inl, inr, Option-cases, eq_of_test, eq_refl, subst, Bool-cases, update-eq_of_count, leb_ℤ,
}
use sqlite_durable_workflow.Types.{
  Workflow, Timer, Value, completed, failed, workflow_completed, workflow_failed,
}
use sqlite_durable_workflow.Store.Db.{Db, has_workflow, is_owner, is_workflow, lookup}
use sqlite_durable_workflow.Store.Session.{ok, err, lease_mismatch, quiet}
use sqlite_durable_workflow.Store.Platform.{Platform}
use sqlite_durable_workflow.Store.Lookup.{Unique, lookup-update, mem-lookup}
use sqlite_durable_workflow.Workflow.{
  acquire_lease, next_eligible, grant, is_eligible, lease_end, renew_lease, renewed, release_lease,
  mark_waiting, complete_workflow, fail_workflow, is_leased, is_running, requeued, paused,
  verify_lease,
}
use sqlite_durable_workflow.Timer.{is_abandoned}
use sqlite_durable_workflow.Step.{start_step, complete_step, fail_step}
use sqlite_durable_workflow.Effect.Workflows.{
  renew_lease_lem, release_lease_lem, mark_waiting_lem, finish_lem,
}
use sqlite_durable_workflow.Effect.Leases.{
  granting, acquire_lease-none, acquire_lease-some, next_eligible_mem, next_eligible_least,
  next_eligible-none,
}
use sqlite_durable_workflow.Effect.Steps.{complete_step_mismatch}

-- On a table without double keys, AcquireLease either returns nil and writes nothing, and then no
-- row is eligible, or it chooses an eligible row that no eligible row precedes in `created_at`,
-- returns that row granted to the worker, and leaves it so in the table, the event logged.
pub acquire_lease_result :
    (p : Platform) (now : ℤ) (worker : String) (duration : ℤ) (d : Db)
    → Unique d.workflows
    → ((acquire_lease p now worker duration (quiet d) ≡ (ok none, quiet d))
        × ((v : Workflow) → Memᴰ v d.workflows → is_eligible now d.workflow_timers v ≡ false))
      ⊎ ((w : Workflow) × (is_eligible now d.workflow_timers w ≡ true)
          × Memᴰ w d.workflows
          × ((v : Workflow)
              → Memᴰ v d.workflows
              → is_eligible now d.workflow_timers v ≡ true
              → w.created_at ≤ℤ v.created_at)
          × (acquire_lease p now worker duration (quiet d) ≡ (
            ok (some (grant worker (lease_end p now duration) now w)),
            quiet (granting w.workflow_id worker (lease_end p now duration) now d),
          ))
          × (lookup w.workflow_id
                (granting w.workflow_id worker (lease_end p now duration) now d).workflows
              ≡ some (grant worker (lease_end p now duration) now w)))
acquire_lease_result p now worker duration d u = elim (Option-cases (next_eligible p now d)) [
  | inl e ↦
      inl
        (acquire_lease-none p now worker duration d e, next_eligible-none p now worker duration d e)
  | inr (w, e) ↦
      let (h, m) = next_eligible_mem p now worker duration d w e in
      inr (
        w,
        h,
        m,
        λ v. next_eligible_least p now worker duration d w v e,
        acquire_lease-some p now worker duration d w u e,
        lookup-update (is_workflow w.workflow_id) (grant worker (lease_end p now duration) now)
              (λ x. refl) w.workflow_id d.workflows {w = w} (mem-lookup w d.workflows u m)
            ∙ rw (eq_refl w.workflow_id) refl,
      )
]

no_row_of :
    (id worker : String) (ws : List Workflow)
    → has_workflow id ws ≡ false
    → (count (is_leased id worker) ws ≡ 0) × (count (is_running id worker) ws ≡ 0)
no_row_of id worker [] h = (refl, refl)
no_row_of id worker (w ∷ ws) h =
    let rest = no_row_of id worker ws in (ground (arith, rest), ground (arith, rest))

pub not_leased :
    (id worker : String) (ws : List Workflow) (w : Workflow)
    → Unique ws
    → lookup id ws ≡ some w
    → is_owner worker w.lease_owner ≡ false
    → (count (is_leased id worker) ws ≡ 0) × (count (is_running id worker) ws ≡ 0)
not_leased id worker [] w u e h = cc
not_leased id worker (v ∷ ws) w u e h = elim (Bool-cases (is_workflow id v)) [
  | inl k ↦
      let alone : has_workflow id ws ≡ false =
        subst (λ i. has_workflow i ws ≡ false) (eq_of_test v.workflow_id id k) u.0 in
      let rest = no_row_of id worker ws alone in (ground (arith, rest), ground (arith, rest))
  | inr k ↦
      let rest = not_leased id worker ws w u.1 (ground arith) h in
      (ground (arith, rest), ground (arith, rest))
]

-- On a table without double keys, a worker that does not own the lease of a workflow gets
-- ErrLeaseMismatch from each of the eight functions that check the lease, and the database stays as
-- it is.
pub lease_required :
    (p : Platform) (now : ℤ) (id worker : String) (d : Db) (w : Workflow)
    → Unique d.workflows
    → lookup id d.workflows ≡ some w
    → is_owner worker w.lease_owner ≡ false
    → (duration : ℤ) (n : ℤ) (input output : Value) (message : String)
    → (renew_lease p now id worker duration (quiet d) ≡ (err lease_mismatch, quiet d))
      × (release_lease now id worker (quiet d) ≡ (err lease_mismatch, quiet d))
      × (mark_waiting now id worker (quiet d) ≡ (err lease_mismatch, quiet d))
      × (complete_workflow now id worker (quiet d) ≡ (err lease_mismatch, quiet d))
      × (fail_workflow now id worker (quiet d) ≡ (err lease_mismatch, quiet d))
      × (start_step p now id worker n input (quiet d) ≡ (err lease_mismatch, quiet d))
      × (complete_step p now id worker n input output (quiet d) ≡ (err lease_mismatch, quiet d))
      × (fail_step p now id worker n input message (quiet d) ≡ (err lease_mismatch, quiet d))
unfolding complete_workflow fail_workflow start_step fail_step verify_lease
lease_required p now id worker d w u e h duration n input output message =
    let (leased, running_) = not_leased id worker d.workflows w u e h in
    (
      renew_lease_lem p now id worker d duration
          ∙ ground (
            arith,
            update-eq_of_count (is_running id worker) (renewed (lease_end p now duration) now)
                d.workflows,
          ),
      release_lease_lem now id worker d
          ∙ ground (arith, update-eq_of_count (is_leased id worker) (requeued now) d.workflows),
      mark_waiting_lem now id worker d
          ∙ ground (arith, update-eq_of_count (is_running id worker) (paused now) d.workflows),
      finish_lem completed workflow_completed now id worker d ∙ ground arith,
      finish_lem failed workflow_failed now id worker d ∙ ground arith,
      ground arith,
      complete_step_mismatch p now id worker n input output d w e h,
      ground arith,
    )

pub running_row :
    (id worker : String) (ws : List Workflow) (w : Workflow)
    → lookup id ws ≡ some w
    → is_running id worker w ≡ true
    → count (is_running id worker) ws ≢ 0
running_row id worker [] w e h = cc
running_row id worker (v ∷ ws) w e h = elim (Bool-cases (is_workflow id v)) [
  | inl k ↦
      let same : v ≡ w = ground arith in
      let passes : is_running id worker v ≡ true = ap (is_running id worker) same ∙ h in
      λ zero_. ground arith
  | inr k ↦ let rest = running_row id worker ws w (ground arith) h in λ zero_. ground arith
]

-- The owner of a RUNNING workflow renews its lease: the row gets the new end and keeps its status,
-- owner, cursor and version. At every time before the new end AcquireLease does not find that row
-- eligible, whatever timers there are, nor does the scheduler find its lease abandoned.
pub renew_lease_extends :
    (p : Platform) (now : ℤ) (id worker : String) (duration : ℤ) (d : Db) (w : Workflow)
    → lookup id d.workflows ≡ some w
    → is_running id worker w ≡ true
    → (later : ℤ) (timers : List Timer) → leb_ℤ (lease_end p now duration) later ≡ false
    → ((renew_lease p now id worker duration (quiet d)).0 ≡ ok tt)
      × (lookup id (renew_lease p now id worker duration (quiet d)).1.db.workflows
          ≡ some (renewed (lease_end p now duration) now w))
      × (is_eligible later timers (renewed (lease_end p now duration) now w) ≡ false)
      × (is_abandoned later (renewed (lease_end p now duration) now w) ≡ false)
renew_lease_extends p now id worker duration d w e h later timers early =
    let counted = running_row id worker d.workflows w e h in
    let row =
      lookup-update (is_running id worker) (renewed (lease_end p now duration) now) (λ x. refl) id
        d.workflows {w = w} e in
    rw (renew_lease_lem p now id worker d duration)
      (ground arith, ground arith, ground arith, ground arith)
