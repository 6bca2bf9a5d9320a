-- ===== src/Tests/Calls.antt =====
-- The theorems on single calls, at small databases.
use mathlib.Core.List.{Memᴰ}
use sqlite_durable_workflow.Common.{
  int64, ◌+ℤ◌, leb_ℤ, pos, ◌≤ℤ◌, true, false, [], ◌∷◌, none, some, ◌≡◌, refl, ◌⊎◌,
}
use sqlite_durable_workflow.Types.{
  Workflow, completed, failed, workflow_completed, workflow_failed, nil, text,
}
use sqlite_durable_workflow.Store.Db.{Db, init_schema, lookup}
use sqlite_durable_workflow.Store.Session.{ok, err, lease_mismatch, quiet}
use sqlite_durable_workflow.Step.{start_step, complete_step, fail_step, start_step_tx, fail_step_tx}
use sqlite_durable_workflow.Workflow.{
  acquire_lease, grant, is_eligible, lease_end, renew_lease, renewed, release_lease, mark_waiting,
  complete_workflow, fail_workflow, finished, new_workflow, verify_lease,
}
use sqlite_durable_workflow.Timer.{is_abandoned}
use sqlite_durable_workflow.Effect.Workflows.{finishing}
use sqlite_durable_workflow.Effect.Leases.{granting}
use sqlite_durable_workflow.Effect.Steps.{starting, completing, failing}
use sqlite_durable_workflow.Contract.Leases.{
  acquire_lease_result, lease_required, renew_lease_extends,
}
use sqlite_durable_workflow.Contract.Checkpoints.{fail_step_reopens}
use sqlite_durable_workflow.Contract.Endings.{finish_once}
use sqlite_durable_workflow.Contract.Races.{lost_lease_race}
use sqlite_durable_workflow.Tests.Samples.{platform, leased_row, leased_db, checkpointed_db}

abbrev fresh : Workflow
fresh = new_workflow "w" "order" (pos 0)

abbrev fresh_db : Db
fresh_db = record init_schema { workflows = fresh ∷ [] }

acquire_lease_result_example :
    ((acquire_lease platform (pos 10) "a" (pos 90) (quiet fresh_db) ≡ (ok none, quiet fresh_db))
      × ((v : Workflow) → Memᴰ v fresh_db.workflows → is_eligible (pos 10) [] v ≡ false))
    ⊎ ((w : Workflow) × (is_eligible (pos 10) [] w ≡ true)
        × Memᴰ w fresh_db.workflows
        × ((v : Workflow)
            → Memᴰ v fresh_db.workflows
            → is_eligible (pos 10) [] v ≡ true
            → w.created_at ≤ℤ v.created_at)
        × (acquire_lease platform (pos 10) "a" (pos 90) (quiet fresh_db) ≡ (
          ok (some (grant "a" (lease_end platform (pos 10) (pos 90)) (pos 10) w)),
          quiet
              (granting w.workflow_id "a" (lease_end platform (pos 10) (pos 90)) (pos 10) fresh_db),
        ))
        × (lookup w.workflow_id
              (granting w.workflow_id "a"
                (lease_end platform (pos 10) (pos 90))
                (pos 10)
                fresh_db).workflows
            ≡ some (grant "a" (lease_end platform (pos 10) (pos 90)) (pos 10) w)))
acquire_lease_result_example =
    acquire_lease_result platform (pos 10) "a" (pos 90) fresh_db (refl, tt)

lease_required_example :
    (renew_lease platform (pos 20) "w" "b" (pos 90) (quiet leased_db)
      ≡ (err lease_mismatch, quiet leased_db))
    × (release_lease (pos 20) "w" "b" (quiet leased_db) ≡ (err lease_mismatch, quiet leased_db))
    × (mark_waiting (pos 20) "w" "b" (quiet leased_db) ≡ (err lease_mismatch, quiet leased_db))
    × (complete_workflow (pos 20) "w" "b" (quiet leased_db) ≡ (err lease_mismatch, quiet leased_db))
    × (fail_workflow (pos 20) "w" "b" (quiet leased_db) ≡ (err lease_mismatch, quiet leased_db))
    × (start_step platform (pos 20) "w" "b" (pos 1) nil (quiet leased_db)
        ≡ (err lease_mismatch, quiet leased_db))
    × (complete_step platform (pos 20) "w" "b" (pos 1) nil nil (quiet leased_db)
        ≡ (err lease_mismatch, quiet leased_db))
    × (fail_step platform (pos 20) "w" "b" (pos 1) nil "broken" (quiet leased_db)
        ≡ (err lease_mismatch, quiet leased_db))
lease_required_example =
    lease_required platform (pos 20) "w" "b" leased_db leased_row (refl, tt) refl refl (pos 90)
      (pos 1) nil nil "broken"

renewed_past : leb_ℤ (lease_end platform (pos 20) (pos 90)) (pos 105) ≡ false
unfolding int64 ◌+ℤ◌
renewed_past = refl

renew_lease_extends_example :
    ((renew_lease platform (pos 20) "w" "a" (pos 90) (quiet leased_db)).0 ≡ ok tt)
    × (lookup "w" (renew_lease platform (pos 20) "w" "a" (pos 90) (quiet leased_db)).1.db.workflows
        ≡ some (renewed (lease_end platform (pos 20) (pos 90)) (pos 20) leased_row))
    × (is_eligible (pos 105) [] (renewed (lease_end platform (pos 20) (pos 90)) (pos 20) leased_row)
        ≡ false)
    × (is_abandoned (pos 105) (renewed (lease_end platform (pos 20) (pos 90)) (pos 20) leased_row)
        ≡ false)
renew_lease_extends_example =
    renew_lease_extends platform (pos 20) "w" "a" (pos 90) leased_db leased_row refl refl (pos 105)
      [] renewed_past

abbrev done_db : Db
done_db = finishing completed workflow_completed (pos 20) "w" "a" leased_db

abbrev failed_db : Db
failed_db = finishing failed workflow_failed (pos 20) "w" "a" leased_db

finish_once_example :
    (complete_workflow (pos 20) "w" "a" (quiet leased_db) ≡ (ok tt, quiet done_db))
    × (fail_workflow (pos 20) "w" "a" (quiet leased_db) ≡ (ok tt, quiet failed_db))
    × (lookup "w" done_db.workflows ≡ some (finished completed (pos 20) leased_row))
    × (lookup "w" failed_db.workflows ≡ some (finished failed (pos 20) leased_row))
    × (complete_workflow (pos 30) "w" "a" (quiet done_db) ≡ (err lease_mismatch, quiet done_db))
    × (fail_workflow (pos 30) "w" "a" (quiet done_db) ≡ (err lease_mismatch, quiet done_db))
    × (complete_workflow (pos 30) "w" "a" (quiet failed_db) ≡ (err lease_mismatch, quiet failed_db))
    × (fail_workflow (pos 30) "w" "a" (quiet failed_db) ≡ (err lease_mismatch, quiet failed_db))
finish_once_example =
    finish_once (pos 20) (pos 30) "w" "a" leased_db leased_row (refl, tt) refl refl

abbrev reopened_db : Db
reopened_db = failing platform (pos 30) "w" (pos 1) nil "broken" checkpointed_db

fail_step_reopens_example :
    (fail_step platform (pos 30) "w" "a" (pos 1) nil "broken" (quiet checkpointed_db)
      ≡ (ok tt, quiet reopened_db))
    × (complete_step platform (pos 40) "w" "a" (pos 1) nil (text "twice") (quiet reopened_db) ≡ (
      ok tt,
      quiet (completing platform (pos 40) "w" "a" (pos 1) nil (text "twice") reopened_db),
    ))
fail_step_reopens_example =
    fail_step_reopens platform (pos 30) (pos 40) "w" "a" (pos 1) nil (text "twice") "broken"
      checkpointed_db leased_row refl refl refl

-- The lease of "a" ends at 100, and "b" takes the workflow at 200.
abbrev taken_row : Workflow
taken_row = grant "b" (pos 300) (pos 200) leased_row

abbrev taken_db : Db
taken_db = granting "w" "b" (pos 300) (pos 200) leased_db

lost_lease_race_example :
    (verify_lease "w" "a" (quiet leased_db) ≡ (ok tt, quiet leased_db))
    × (start_step_tx platform (pos 210) "w" (pos 1) nil (quiet taken_db)
        ≡ (ok tt, quiet (starting platform (pos 210) "w" (pos 1) nil taken_db)))
    × (fail_step_tx platform (pos 210) "w" (pos 1) nil "broken" (quiet taken_db)
        ≡ (ok tt, quiet (failing platform (pos 210) "w" (pos 1) nil "broken" taken_db)))
    × (complete_step platform (pos 210) "w" "a" (pos 1) nil nil (quiet taken_db)
        ≡ (err lease_mismatch, quiet taken_db))
lost_lease_race_example =
    lost_lease_race platform (pos 210) "w" "a" (pos 1) nil nil "broken" leased_db taken_db
      leased_row taken_row refl refl refl refl
