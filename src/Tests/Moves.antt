-- ===== src/Tests/Moves.antt =====
-- The theorems on the rows and the events of histories, at short histories.
use sqlite_durable_workflow.Common.{
  pos, ◌<ℤ◌, List, [], ◌∷◌, ◌≡◌, refl, map, count, int64, ◌+ℤ◌, arith,
}
use sqlite_durable_workflow.Types.{WorkflowEvent, failed}
use sqlite_durable_workflow.Store.Db.{Db}
use sqlite_durable_workflow.Store.Session.{ok, quiet}
use sqlite_durable_workflow.Event.{is_event_of, get_events}
use sqlite_durable_workflow.Workflow.{new_workflow, is_eligible, lease_end}
use sqlite_durable_workflow.Section.{Section, wait, release, complete, acquire, perform, history}
use sqlite_durable_workflow.Invariant.{one_to}
use sqlite_durable_workflow.Invariant.Moves.{Successor}
use sqlite_durable_workflow.History.Moves.{Elsewhere, perform_moves, history_causes}
use sqlite_durable_workflow.Contract.Events.{get_events_numbered}
use sqlite_durable_workflow.Contract.Draining.{Drains, acquire_lease-Drains}
use sqlite_durable_workflow.Tests.Samples.{platform, leased_row, leased_db, opened_row}
use sqlite_durable_workflow.Tests.Histories.{opened, opened_closed, opened-WellFormed}

perform_moves_example :
    Successor
      (wait (pos 20) "w" "a")
      "w"
      leased_row
      (perform platform (wait (pos 20) "w" "a") opened).1.db
perform_moves_example =
    perform_moves platform (wait (pos 20) "w" "a") opened "w" leased_row opened_closed
      opened-WellFormed opened_row

abbrev resting : List Section
resting =
    wait (pos 20) "w" "a"
    ∷ release (pos 21) "w" "a"
    ∷ acquire (pos 22) "b" (pos 90)
    ∷ complete (pos 23) "w" "b"
    ∷ []

history_causes_example : Elsewhere "w" failed (history platform resting opened).db
history_causes_example =
    history_causes platform resting opened "w" leased_row failed opened_closed opened-WellFormed
      opened_row (λ e. cc) (tt, (tt, (tt, (tt, tt))))

get_events_numbered_example :
    (rows : List WorkflowEvent) × (get_events platform "w" (quiet opened.db)
      ≡ (ok rows, quiet opened.db))
    × (map (λ e. e.sequence_number) rows
        ≡ one_to (count (is_event_of "w") opened.db.workflow_events))
get_events_numbered_example = get_events_numbered platform "w" opened.db opened-WellFormed

-- Two queued workflows and a running one.
abbrev queue_db : Db
queue_db = record leased_db {
  workflows = new_workflow "v" "order" (pos 1) ∷ leased_row ∷ new_workflow "u" "order" (pos 0) ∷ [];
}

lease_is_later : pos 20 <ℤ lease_end platform (pos 20) (pos 90)
unfolding int64 ◌+ℤ◌
lease_is_later = omega arith

acquire_lease-Drains_example :
    Drains platform
      (pos 20)
      "b"
      (pos 90)
      (count (is_eligible (pos 20) queue_db.workflow_timers) queue_db.workflows)
      (quiet queue_db)
acquire_lease-Drains_example =
    acquire_lease-Drains platform (pos 20) "b" (pos 90) queue_db (refl, (refl, (refl, tt)))
      lease_is_later
