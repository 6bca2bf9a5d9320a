-- ===== src/Tests/Histories.antt =====
-- The theorems on histories, at short histories.
use sqlite_durable_workflow.Common.{
  pos, true, false, List, [], ◌∷◌, none, some, ◌≡◌, ◌⊎◌, refl, int64, ◌+ℤ◌,
}
use sqlite_durable_workflow.Types.{Workflow, WorkflowStep, StepStatus, completed, nil, text}
use sqlite_durable_workflow.Store.Db.{init_schema, lookup}
use sqlite_durable_workflow.Store.Session.{Session, Error, ok, err, quiet, step_already_completed}
use sqlite_durable_workflow.Store.Atomic.{Ends}
use sqlite_durable_workflow.Section.{
  Section, create, acquire, renew, release, complete, expire, perform, history,
}
use sqlite_durable_workflow.Step.{start_step, fail_step, complete_step}
use sqlite_durable_workflow.Signal.{send_signal, consume_signal}
use sqlite_durable_workflow.Timer.{create_timer, fire_expired_timers, expire_leases}
use sqlite_durable_workflow.Workflow.{
  create_workflow, acquire_lease, renew_lease, release_lease, complete_workflow, fail_workflow,
  mark_waiting,
}
use sqlite_durable_workflow.Scheduler.{run}
use sqlite_durable_workflow.Change.{Change}
use sqlite_durable_workflow.Invariant.{IsWellFormed}
use sqlite_durable_workflow.History.{history-WellFormed, perform_takes_Change}
use sqlite_durable_workflow.History.Leases.{history_terminal, history_leased}
use sqlite_durable_workflow.History.Checkpoints.{find_step, history_checkpoint}
use sqlite_durable_workflow.Contract.Faults.{functions_atomic, run-history, ticks}
use sqlite_durable_workflow.Effect.Steps.{is_done, completing}
use sqlite_durable_workflow.Contract.Checkpoints.{owns, complete_step_once}
use sqlite_durable_workflow.Tests.Samples.{
  platform, opening, started_at_zero, leased_row, opened_row,
}

abbrev pub opened : Session
opened = history platform opening started_at_zero

-- The session after `opening`, with a driver that refuses its second call.
abbrev faulty : Session
faulty = record opened { faults = false ∷ true ∷ [] }

pub opened_closed : opened.saved ≡ none
unfolding history perform create_workflow acquire_lease
opened_closed = refl

history-WellFormed_example :
    IsWellFormed
      (history platform opening (record {
        db = init_schema;
        saved = none;
        left_open = false;
        faults = false ∷ false ∷ true ∷ [];
      })).db
history-WellFormed_example = history-WellFormed platform opening (false ∷ false ∷ true ∷ [])

pub opened-WellFormed : IsWellFormed opened.db
opened-WellFormed = history-WellFormed platform opening []

abbrev intruding : List Section
intruding =
    acquire (pos 50) "b" (pos 90)
    ∷ renew (pos 60) "w" "b" (pos 90)
    ∷ release (pos 61) "w" "b"
    ∷ complete (pos 62) "w" "b"
    ∷ expire (pos 99)
    ∷ []

history_leased_example :
    lookup "w" (history platform intruding faulty).db.workflows ≡ some leased_row
history_leased_example =
    history_leased platform intruding faulty "w" leased_row "a" (pos 100) opened_closed
      opened-WellFormed opened_row refl refl refl
      ((refl, refl), ((refl, refl), ((refl, refl), ((refl, refl), ((refl, refl), tt)))))

abbrev ending : List Section
ending = create (pos 0) "w" "order" ∷ acquire (pos 10) "a" (pos 90) ∷ complete (pos 20) "w" "a" ∷ []

abbrev ended : Session
ended = history platform ending started_at_zero

abbrev ended_row : Workflow
ended_row = record leased_row {
  status = completed;
  lease_owner = none;
  lease_expires_at = none;
  completed_at = some (pos 20);
  updated_at = pos 20;
  version = 3;
}

ended_lookup : lookup "w" ended.db.workflows ≡ some ended_row
unfolding history perform create_workflow acquire_lease complete_workflow int64 ◌+ℤ◌
ended_lookup = refl

ended_closed : ended.saved ≡ none
unfolding history perform create_workflow acquire_lease complete_workflow
ended_closed = refl

history_terminal_example :
    lookup "w" (history platform intruding ended).db.workflows ≡ some ended_row
history_terminal_example =
    history_terminal platform intruding ended "w" ended_row ended_closed
      (history-WellFormed platform ending []) ended_lookup refl

abbrev checkpointing : List Section
checkpointing =
    create (pos 0) "w" "order"
    ∷ acquire (pos 10) "a" (pos 90)
    ∷ Section.complete_step (pos 20) "w" "a" (pos 1) nil (text "out")
    ∷ []

abbrev checkpointed : Session
checkpointed = history platform checkpointing started_at_zero

abbrev step_row : WorkflowStep
step_row = record {
  workflow_id = "w";
  step_number = pos 1;
  status = StepStatus.completed;
  input_json = none;
  output_json = some "out";
  started_at = some (pos 20);
  completed_at = some (pos 20);
}

checkpointed_row : find_step "w" (pos 1) checkpointed.db.workflow_steps ≡ some step_row
unfolding history perform create_workflow acquire_lease complete_step
checkpointed_row = refl

checkpointed_closed : checkpointed.saved ≡ none
unfolding history perform create_workflow acquire_lease complete_step
checkpointed_closed = refl

-- A second worker takes over, tries the step again and fails another.
abbrev retrying : List Section
retrying =
    acquire (pos 200) "b" (pos 90)
    ∷ Section.complete_step (pos 210) "w" "b" (pos 1) nil (text "again")
    ∷ Section.fail_step (pos 220) "w" (pos 2) nil "broken"
    ∷ []

history_checkpoint_example :
    find_step "w" (pos 1) (history platform retrying checkpointed).db.workflow_steps ≡ some step_row
history_checkpoint_example =
    history_checkpoint platform retrying checkpointed "w" (pos 1) step_row checkpointed_closed
      (history-WellFormed platform checkpointing []) checkpointed_row refl (tt, (tt, (refl, tt)))

perform_takes_Change_example :
    Change platform opened.db (expire (pos 200)) (perform platform (expire (pos 200)) faulty).1.db
perform_takes_Change_example =
    perform_takes_Change platform (expire (pos 200)) faulty opened_closed opened-WellFormed

functions_atomic_example :
    Ends (create_workflow (pos 20) "w" "mail") faulty
    × Ends (acquire_lease platform (pos 20) "a" (pos 90)) faulty
    × Ends (renew_lease platform (pos 20) "w" "a" (pos 90)) faulty
    × Ends (release_lease (pos 20) "w" "a") faulty
    × Ends (complete_workflow (pos 20) "w" "a") faulty
    × Ends (fail_workflow (pos 20) "w" "a") faulty
    × Ends (mark_waiting (pos 20) "w" "a") faulty
    × Ends (start_step platform (pos 20) "w" "a" (pos 1) nil) faulty
    × Ends (complete_step platform (pos 20) "w" "a" (pos 1) nil nil) faulty
    × Ends (fail_step platform (pos 20) "w" "a" (pos 1) nil "broken") faulty
    × Ends (send_signal platform (pos 20) "w" "go" nil) faulty
    × Ends (consume_signal platform "w") faulty
    × Ends (create_timer "w" (pos 50)) faulty
    × Ends (fire_expired_timers platform (pos 20)) faulty
    × Ends (expire_leases (pos 20)) faulty
functions_atomic_example =
    functions_atomic platform (pos 20) "w" "a" faulty opened_closed "mail" (pos 90) (pos 1) nil nil
      "broken" "go" nil (pos 50)

run-history_example :
    run platform (pos 50 ∷ pos 150 ∷ []) opened
    ≡ (ok tt, history platform (ticks (pos 50 ∷ pos 150 ∷ [])) opened)
run-history_example = run-history platform (pos 50 ∷ pos 150 ∷ []) opened

opened_not_done : is_done "w" (pos 1) opened.db.workflow_steps ≡ false
unfolding history perform create_workflow acquire_lease
opened_not_done = refl

-- A second worker comes after the lease has run out, while the driver refuses a call.
abbrev taking_over : List Section
taking_over = acquire (pos 200) "b" (pos 90) ∷ expire (pos 400) ∷ []

complete_step_once_example :
    let e = completing platform (pos 20) "w" "a" (pos 1) nil (text "out") opened.db in
    let f = (history platform taking_over (record (quiet e) { faults = false ∷ true ∷ [] })).db in
    (complete_step platform (pos 20) "w" "a" (pos 1) nil (text "out") (quiet opened.db)
      ≡ (ok tt, quiet e))
    × (lookup "w" e.workflows
        ≡ some (record leased_row { current_step = 1; updated_at = pos 20; version = 3 }))
    × ((x : Error) × (complete_step platform (pos 410) "w" "b" (pos 1) nil (text "again") (quiet f)
          ≡ (err x, quiet f))
        × ((x ≡ step_already_completed) ⊎ (owns "b" "w" f ≡ false)))
complete_step_once_example =
    complete_step_once platform (pos 20) "w" "a" (pos 1) nil (text "out") opened.db leased_row
      opened-WellFormed opened_row refl opened_not_done taking_over (false ∷ true ∷ [])
      (tt, (tt, tt)) (pos 410) "b" nil (text "again")
