-- ===== src/Effect/Leases.antt =====
-- `AcquireLease`, from the row that its SELECT chooses.
use mathlib.Core.List.{Memᴰ}
use sqlite_durable_workflow.Common.{
  String, ℤ, ◌≤ℤ◌, true, false, [], none, some, ◌≡◌, refl, arith, eq_refl, update,
}
use sqlite_durable_workflow.Types.{Workflow, workflow_started}
use sqlite_durable_workflow.Store.Db.{Db, is_workflow, lookup}
use sqlite_durable_workflow.Store.Session.{ok, quiet}
use sqlite_durable_workflow.Store.Platform.{Platform}
use sqlite_durable_workflow.Store.Rows.{chosen-none, chosen_mem, chosen_least}
use sqlite_durable_workflow.Store.Lookup.{
  Unique, has_workflow-update, lookup-update, lookup_has, mem-lookup,
}
use sqlite_durable_workflow.Workflow.{
  claim, acquire_lease, next_eligible, grant, is_eligible, lease_end,
}
use sqlite_durable_workflow.Effect.Workflows.{logged, with_workflows}

abbrev pub granting : String → String → ℤ → ℤ → Db → Db
granting id worker expires now d =
    logged id workflow_started none now
      (with_workflows (update (is_workflow id) (grant worker expires now) d.workflows) d)

module _ (now : ℤ) (worker : String) (expires : ℤ) (id : String) (d : Db) where
  claim_lem :
      (v : Workflow)
      → lookup id d.workflows ≡ some v
      → is_workflow id v ≡ true
      → claim now worker expires
          (some id)
          (record { db = d; saved = some d; left_open = false; faults = [] })
        ≡ (ok (some (grant worker expires now v)), quiet (granting id worker expires now d))
  unfolding claim
  claim_lem v e h = ground (
    arith,
    lookup_has id d.workflows {w = v},
    has_workflow-update (is_workflow id) (grant worker expires now) (λ w. refl) id d.workflows,
    lookup-update (is_workflow id) (grant worker expires now) (λ w. refl) id d.workflows {w = v},
  )

module _ (p : Platform) (now : ℤ) (worker : String) (duration : ℤ) (d : Db) where
  pub acquire_lease-none :
      next_eligible p now d ≡ none
      → acquire_lease p now worker duration (quiet d) ≡ (ok none, quiet d)
  unfolding acquire_lease
  acquire_lease-none e = ground arith

  acquire_lease_found :
      (w v : Workflow)
      → next_eligible p now d ≡ some w
      → lookup w.workflow_id d.workflows ≡ some v
      → is_workflow w.workflow_id v ≡ true
      → acquire_lease p now worker duration (quiet d) ≡ (
        ok (some (grant worker (lease_end p now duration) now v)),
        quiet (granting w.workflow_id worker (lease_end p now duration) now d),
      )
  unfolding acquire_lease
  acquire_lease_found w v e h k =
      ground (arith, claim_lem now worker (lease_end p now duration) w.workflow_id d v h k)

  pub next_eligible_mem :
      (w : Workflow)
      → next_eligible p now d ≡ some w
      → (is_eligible now d.workflow_timers w ≡ true) × Memᴰ w d.workflows
  unfolding next_eligible
  next_eligible_mem w e = chosen_mem p (λ v. v.created_at) _ d.workflows w e

  pub next_eligible_least :
      (w v : Workflow)
      → next_eligible p now d ≡ some w
      → Memᴰ v d.workflows
      → is_eligible now d.workflow_timers v ≡ true
      → w.created_at ≤ℤ v.created_at
  unfolding next_eligible
  next_eligible_least w v e m h =
      chosen_least p (λ x. x.created_at) (is_eligible now d.workflow_timers) d.workflows w v e h m

  pub next_eligible-none :
      next_eligible p now d ≡ none
      → (v : Workflow) → Memᴰ v d.workflows
      → is_eligible now d.workflow_timers v ≡ false
  unfolding next_eligible
  next_eligible-none e v m =
      chosen-none p (λ x. x.created_at) (is_eligible now d.workflow_timers) d.workflows e v m

  pub acquire_lease-some :
      (w : Workflow)
      → Unique d.workflows
      → next_eligible p now d ≡ some w
      → acquire_lease p now worker duration (quiet d) ≡ (
        ok (some (grant worker (lease_end p now duration) now w)),
        quiet (granting w.workflow_id worker (lease_end p now duration) now d),
      )
  acquire_lease-some w u e =
      acquire_lease_found w w e (mem-lookup w d.workflows u (next_eligible_mem w e).1)
        (eq_refl w.workflow_id)
