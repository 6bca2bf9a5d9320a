-- ===== src/Step.antt =====
-- step.go: checkpoints of steps. A step's input, output and error text are the caller's.
use sqlite_durable_workflow.Common.{
  ℕ, zero, suc, ◌+◌, String, ℤ, eqb_ℤ, ⊤, Bool, true, false, ◌&&◌, ◌||◌, List, [], ◌∷◌, ◌++◌,
  Option, none, some, ◌==◌, if◌then◌else◌, select, update, count,
}
use sqlite_durable_workflow.Types.{
  StepStatus, Workflow, WorkflowStep, Value, nil, int, text, object, end, field, step_started,
  step_completed, step_failed,
}
use sqlite_durable_workflow.Store.Db.{Db, lookup, has_workflow}
use sqlite_durable_workflow.Store.Session.{
  M, Result, ok, err, constraint, step_already_completed, pure, throw, exec, query, query_row,
  wrapping, commit, transaction, ◌>>=◌, ◌>>◌,
}
use sqlite_durable_workflow.Store.Platform.{Platform}
use sqlite_durable_workflow.Event.{append_event_tx}
use sqlite_durable_workflow.Workflow.{
  update_workflows, is_leased, owner_of, check_owner, verify_lease,
}

-- `jsonString` of types.go: NULL for nil and for what cannot be marshalled.
unfoldable pub json_string : Platform → Value → Option String
json_string p nil = none
json_string p v = p.marshal v

-- The primary key (workflow_id, step_number).
abbrev pub is_step : String → ℤ → WorkflowStep → Bool
is_step id n s = s.workflow_id == id && eqb_ℤ s.step_number n

abbrev pub has_step : String → ℤ → List WorkflowStep → Bool
has_step id n [] = false
has_step id n (s ∷ ss) = is_step id n s || has_step id n ss

-- The INSERT part of the three statements, with the foreign key.
abbrev insert_step : WorkflowStep → Db → Result (ℕ × Db)
insert_step row d =
    if has_workflow row.workflow_id d.workflows
    then ok (1, record d { workflow_steps = d.workflow_steps ++ row ∷ [] })
    else err constraint

abbrev pub started_row : String → ℤ → Option String → ℤ → WorkflowStep
started_row id n input now = record {
  workflow_id = id;
  step_number = n;
  status = StepStatus.running;
  input_json = input;
  output_json = none;
  started_at = some now;
  completed_at = none;
}

-- `INSERT OR IGNORE` of `StartStep`.
unfoldable pub insert_started : String → ℤ → Option String → ℤ → Db → Result (ℕ × Db)
insert_started id n input now d =
    if has_step id n d.workflow_steps then ok (0, d) else insert_step (started_row id n input now) d

-- `StartStep` after its lease check, which is made outside of the transaction.
unfoldable pub start_step_tx : Platform → ℤ → String → ℤ → Value → M ⊤
unfolding ◌>>=◌ ◌>>◌ transaction wrapping exec commit json_string insert_started append_event_tx
start_step_tx p now id n input = transaction do
  wrapping "insert step" (exec (insert_started id n (json_string p input) now))
  append_event_tx id step_started (json_string p input) 0 now
  commit

unfoldable pub start_step : Platform → ℤ → String → String → ℤ → Value → M ⊤
unfolding ◌>>◌ verify_lease start_step_tx
start_step p now id worker n input = do verify_lease id worker; start_step_tx p now id n input

abbrev pub finished_row : StepStatus → String → ℤ → Option String → Option String → ℤ → WorkflowStep
finished_row status id n input output now = record {
  workflow_id = id;
  step_number = n;
  status = status;
  input_json = input;
  output_json = output;
  started_at = some now;
  completed_at = some now;
}

-- `SET status = …, output_json = excluded.output_json, completed_at = excluded.completed_at`.
abbrev pub refinished : StepStatus → Option String → ℤ → WorkflowStep → WorkflowStep
refinished status output now s = record s {
  status = status;
  output_json = output;
  completed_at = some now;
}

-- `status IN ('RUNNING', 'FAILED')`.
abbrev pub is_open : StepStatus → Bool
is_open StepStatus.completed = false
is_open StepStatus.running = true
is_open StepStatus.failed = true

-- The upsert of `CompleteStep`, with its `RowsAffected`.
unfoldable pub upsert_completed :
    String → ℤ → Option String → Option String → ℤ → Db → Result (ℕ × Db)
upsert_completed id n input output now d =
    if has_step id n d.workflow_steps
    then ok (
      count (λ s. is_step id n s && is_open s.status) d.workflow_steps,
      record d {
        workflow_steps =
            update (λ s. is_step id n s && is_open s.status)
              (refinished StepStatus.completed output now) d.workflow_steps;
      },
    )
    else insert_step (finished_row StepStatus.completed id n input output now) d

-- `if affected == 0 { return ErrStepAlreadyCompleted }`.
unfoldable pub require_upserted : ℕ → M ⊤
unfolding throw pure
require_upserted zero = throw step_already_completed
require_upserted (suc n) = pure tt

-- `SET current_step = current_step + 1, updated_at = ?, version = version + 1`.
abbrev pub advanced : ℤ → Workflow → Workflow
advanced now w = record w {
  current_step = w.current_step + 1;
  updated_at = now;
  version = w.version + 1;
}

abbrev pub completed_payload : ℤ → Value → Value
completed_payload n output = object (field "step_number" (int n) (field "output" output end))

abbrev pub failed_payload : ℤ → String → Value
failed_payload n message = object (field "step_number" (int n) (field "error" (text message) end))

unfoldable pub complete_step : Platform → ℤ → String → String → ℤ → Value → Value → M ⊤
unfolding ◌>>=◌ ◌>>◌ transaction wrapping exec query_row commit json_string check_owner
    upsert_completed require_upserted append_event_tx
complete_step p now id worker n input output = transaction do
  owner ← wrapping "verify lease" (query_row (λ d. owner_of (lookup id d.workflows)))
  check_owner worker owner
  affected ←
      wrapping "upsert step"
        (exec (upsert_completed id n (json_string p input) (json_string p output) now))
  require_upserted affected
  wrapping "advance cursor" (exec (update_workflows (is_leased id worker) (advanced now)))
  append_event_tx id step_completed (json_string p (completed_payload n output)) 0 now
  commit

-- The upsert of `FailStep`, which has no WHERE clause.
unfoldable pub upsert_failed : String → ℤ → Option String → Option String → ℤ → Db → Result (ℕ × Db)
upsert_failed id n input output now d =
    if has_step id n d.workflow_steps
    then ok (
      count (is_step id n) d.workflow_steps,
      record d {
        workflow_steps =
            update (is_step id n) (refinished StepStatus.failed output now) d.workflow_steps;
      },
    )
    else insert_step (finished_row StepStatus.failed id n input output now) d

-- `FailStep` after its lease check, which is made outside of the transaction.
unfoldable pub fail_step_tx : Platform → ℤ → String → ℤ → Value → String → M ⊤
unfolding ◌>>=◌ ◌>>◌ transaction wrapping exec commit json_string upsert_failed append_event_tx
fail_step_tx p now id n input message = transaction do
  wrapping "upsert step" (
      exec
        (upsert_failed id n (json_string p input) (json_string p (failed_payload n message)) now))
  append_event_tx id step_failed (json_string p (failed_payload n message)) 0 now
  commit

unfoldable pub fail_step : Platform → ℤ → String → String → ℤ → Value → String → M ⊤
unfolding ◌>>◌ verify_lease fail_step_tx
fail_step p now id worker n input message = do
  verify_lease id worker
  fail_step_tx p now id n input message

unfoldable pub get_steps : Platform → String → M (List WorkflowStep)
unfolding query
get_steps p id = query (λ d.
    p.order_by WorkflowStep (λ s. s.step_number)
      (select (λ s. s.workflow_id == id) d.workflow_steps))
