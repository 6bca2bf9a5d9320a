-- ===== src/Contract/Races.antt =====
-- A lease that is lost between a worker's check of it and what it writes (step.go).
use sqlite_durable_workflow.Common.{String, ℤ, true, false, some, ◌≡◌, arith}
use sqlite_durable_workflow.Types.{Workflow, Value}
use sqlite_durable_workflow.Store.Db.{Db, is_owner, lookup}
use sqlite_durable_workflow.Store.Session.{ok, err, lease_mismatch, quiet}
use sqlite_durable_workflow.Store.Platform.{Platform}
use sqlite_durable_workflow.Store.Lookup.{lookup_has}
use sqlite_durable_workflow.Workflow.{verify_lease}
use sqlite_durable_workflow.Step
use sqlite_durable_workflow.Step.{start_step_tx, fail_step_tx}
use sqlite_durable_workflow.Effect.Steps.{
  starting, failing, start_step_tx_lem, fail_step_tx_lem, complete_step_mismatch,
}

-- A worker owns a workflow's lease in one state of the tables and has lost it in a later one,
-- whatever happened in between, and the driver refuses nothing. The lease check of StartStep and
-- FailStep succeeds in the first state, and their transactions then write the step and its event in
-- the second all the same; CompleteStep, which checks in its transaction, returns ErrLeaseMismatch
-- there and writes nothing.
pub lost_lease_race :
    (p : Platform) (now : ℤ) (id worker : String) (n : ℤ) (input output : Value) (message : String)
    (before after : Db) (v w : Workflow)
    → lookup id before.workflows ≡ some v
    → is_owner worker v.lease_owner ≡ true
    → lookup id after.workflows ≡ some w
    → is_owner worker w.lease_owner ≡ false
    → (verify_lease id worker (quiet before) ≡ (ok tt, quiet before))
      × (start_step_tx p now id n input (quiet after)
          ≡ (ok tt, quiet (starting p now id n input after)))
      × (fail_step_tx p now id n input message (quiet after)
          ≡ (ok tt, quiet (failing p now id n input message after)))
      × (Step.complete_step p now id worker n input output (quiet after)
          ≡ (err lease_mismatch, quiet after))
unfolding verify_lease
lost_lease_race p now id worker n input output message before after v w e owns later lost =
    let there = lookup_has id after.workflows {w = w} later in
    (
      ground arith,
      start_step_tx_lem p now id n input after there,
      fail_step_tx_lem p now id n input message after there,
      complete_step_mismatch p now id worker n input output after w later lost,
    )
