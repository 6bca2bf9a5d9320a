-- ===== src/Effect/Steps.antt =====
-- The functions of step.go.
use sqlite_durable_workflow.Common.{
  String, ℤ, Bool, true, false, List, [], ◌∷◌, ◌++◌, ◌&&◌, Option, none, some, ◌≡◌, refl,
  if◌then◌else◌, eqb, arith, update, count,
}
use sqlite_durable_workflow.Types.{
  Workflow, WorkflowStep, StepStatus, Value, step_started, step_completed, step_failed,
}
use sqlite_durable_workflow.Store.Db.{Db, has_workflow, is_owner, lookup}
use sqlite_durable_workflow.Store.Session.{
  ok, err, wrap, no_rows, lease_mismatch, step_already_completed, quiet,
}
use sqlite_durable_workflow.Store.Platform.{Platform}
use sqlite_durable_workflow.Store.Lookup.{has_workflow-update, lookup_has}
use sqlite_durable_workflow.Workflow.{is_leased}
use sqlite_durable_workflow.Step.{
  json_string, is_step, has_step, started_row, start_step_tx, finished_row, refinished, is_open,
  advanced, completed_payload, failed_payload, complete_step, fail_step_tx,
}
use sqlite_durable_workflow.Effect.Workflows.{logged}

abbrev pub with_steps : List WorkflowStep → Db → Db
with_steps ss d = record d { workflow_steps = ss }

-- The row of `StartStep`, unless the step has one.
abbrev pub started : String → ℤ → Option String → ℤ → List WorkflowStep → List WorkflowStep
started id n input now ss = if has_step id n ss then ss else ss ++ started_row id n input now ∷ []

abbrev pub starting : Platform → ℤ → String → ℤ → Value → Db → Db
starting p now id n input d =
    logged id step_started (json_string p input) now
      (with_steps (started id n (json_string p input) now d.workflow_steps) d)

module _ (p : Platform) (now : ℤ) (id : String) (n : ℤ) (input : Value) (d : Db) where
  pub start_step_tx_lem :
      has_workflow id d.workflows ≡ true
      → start_step_tx p now id n input (quiet d) ≡ (ok tt, quiet (starting p now id n input d))
  unfolding start_step_tx
  start_step_tx_lem h = ground arith

  pub start_step_tx_missing :
      has_workflow id d.workflows ≡ false → (start_step_tx p now id n input (quiet d)).1 ≡ quiet d
  unfolding start_step_tx
  start_step_tx_missing h = ground arith

-- The checkpoint of `CompleteStep`: a new row, or the open one turned COMPLETED.
abbrev pub checkpointed :
    String → ℤ → Option String → Option String → ℤ → List WorkflowStep → List WorkflowStep
checkpointed id n input output now ss =
    if has_step id n ss
    then update (λ s. is_step id n s && is_open s.status)
        (refinished StepStatus.completed output now) ss
    else ss ++ finished_row StepStatus.completed id n input output now ∷ []

-- Whether a step has been checkpointed: its row has the status COMPLETED.
abbrev pub is_done : String → ℤ → List WorkflowStep → Bool
is_done id n ss = has_step id n ss && eqb (count (λ s. is_step id n s && is_open s.status) ss) 0

abbrev pub completing : Platform → ℤ → String → String → ℤ → Value → Value → Db → Db
completing p now id worker n input output d =
    logged id step_completed (json_string p (completed_payload n output)) now (record d {
      workflow_steps =
          checkpointed id n (json_string p input) (json_string p output) now d.workflow_steps;
      workflows = update (is_leased id worker) (advanced now) d.workflows;
    })

module _ (p : Platform) (now : ℤ) (id worker : String) (n : ℤ) (input output : Value) (d : Db) where
  pub complete_step_missing :
      lookup id d.workflows ≡ none
      → complete_step p now id worker n input output (quiet d)
        ≡ (err (wrap "verify lease" no_rows), quiet d)
  unfolding complete_step
  complete_step_missing e = ground arith

  pub complete_step_mismatch :
      (w : Workflow)
      → lookup id d.workflows ≡ some w
      → is_owner worker w.lease_owner ≡ false
      → complete_step p now id worker n input output (quiet d) ≡ (err lease_mismatch, quiet d)
  unfolding complete_step
  complete_step_mismatch w e h = ground arith

  pub complete_step_again :
      (w : Workflow)
      → lookup id d.workflows ≡ some w
      → is_owner worker w.lease_owner ≡ true
      → is_done id n d.workflow_steps ≡ true
      → complete_step p now id worker n input output (quiet d)
        ≡ (err step_already_completed, quiet d)
  unfolding complete_step
  complete_step_again w e h k = ground arith

  pub complete_step_lem :
      (w : Workflow)
      → lookup id d.workflows ≡ some w
      → is_owner worker w.lease_owner ≡ true
      → is_done id n d.workflow_steps ≡ false
      → complete_step p now id worker n input output (quiet d)
        ≡ (ok tt, quiet (completing p now id worker n input output d))
  unfolding complete_step
  complete_step_lem w e h k = ground (
    arith,
    lookup_has id d.workflows {w = w},
    has_workflow-update (is_leased id worker) (advanced now) (λ x. refl) id d.workflows,
  )

-- The row that `FailStep` leaves.
abbrev pub failed_steps :
    String → ℤ → Option String → Option String → ℤ → List WorkflowStep → List WorkflowStep
failed_steps id n input output now ss =
    if has_step id n ss
    then update (is_step id n) (refinished StepStatus.failed output now) ss
    else ss ++ finished_row StepStatus.failed id n input output now ∷ []

abbrev pub failing : Platform → ℤ → String → ℤ → Value → String → Db → Db
failing p now id n input message d =
    logged id step_failed (json_string p (failed_payload n message)) now (
      with_steps
        (failed_steps id n (json_string p input) (json_string p (failed_payload n message)) now
          d.workflow_steps)
        d)

module _ (p : Platform) (now : ℤ) (id : String) (n : ℤ) (input : Value) (message : String)
    (d : Db) where
  pub fail_step_tx_lem :
      has_workflow id d.workflows ≡ true
      → fail_step_tx p now id n input message (quiet d)
        ≡ (ok tt, quiet (failing p now id n input message d))
  unfolding fail_step_tx
  fail_step_tx_lem h = ground arith

  pub fail_step_tx_missing :
      has_workflow id d.workflows ≡ false
      → (fail_step_tx p now id n input message (quiet d)).1 ≡ quiet d
  unfolding fail_step_tx
  fail_step_tx_missing h = ground arith
