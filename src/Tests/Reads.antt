-- ===== src/Tests/Reads.antt =====
-- The theorems on the functions that only read, at small databases.
use mathlib.Core.List.{Memᴰ}
use sqlite_durable_workflow.Query.{avg_step_duration, durations}
use sqlite_durable_workflow.Contract.Averages.{listed_once, avg_step_duration_result}
use sqlite_durable_workflow.Common.{
  ℤ, ℕ, List, eqb_ℤ, count, pos, true, false, not, ◌&&◌, ◌==◌, ◌≡◌,
}
use sqlite_durable_workflow.Store.Session.{ok, quiet}
use sqlite_durable_workflow.Event.{get_events}
use sqlite_durable_workflow.Workflow.{has_due_timer}
use sqlite_durable_workflow.Step.{get_steps}
use sqlite_durable_workflow.Signal.{get_signals}
use sqlite_durable_workflow.Timer.{get_pending_timers, has_expired_timer}
use sqlite_durable_workflow.Contract.Readers.{Lists, readers_list}
use sqlite_durable_workflow.Tests.Samples.{platform, checkpointed_db}
use sqlite_durable_workflow.Tests.Waits.{signals_db}

readers_list_example :
    Lists
      (get_steps platform "w")
      signals_db
      (λ s. s.step_number)
      (λ s. s.workflow_id == "w")
      signals_db.workflow_steps
    × Lists
        (get_events platform "w")
        signals_db
        (λ e. pos e.sequence_number)
        (λ e. e.workflow_id == "w")
        signals_db.workflow_events
    × Lists
        (get_pending_timers platform "w")
        signals_db
        (λ t. t.wake_at)
        (λ t. t.workflow_id == "w" && not t.fired)
        signals_db.workflow_timers
    × Lists
        (get_signals platform "w" false)
        signals_db
        (λ s. s.created_at)
        (λ s. s.workflow_id == "w")
        signals_db.workflow_signals
    × Lists
        (get_signals platform "w" true)
        signals_db
        (λ s. s.created_at)
        (λ s. s.workflow_id == "w" && not s.consumed)
        signals_db.workflow_signals
    × ((now : ℤ)
        → has_expired_timer "w" now (quiet signals_db)
          ≡ (ok (has_due_timer "w" now signals_db.workflow_timers), quiet signals_db))
readers_list_example = readers_list platform "w" signals_db

avg_step_duration_result_example :
    (averages : List (ℤ × (ℤ × ℕ))) × (avg_step_duration platform (quiet checkpointed_db)
      ≡ (ok averages, quiet checkpointed_db))
    × ((n : ℤ)
        → count (λ e. eqb_ℤ e.0 n) averages
          ≡ listed_once (durations n checkpointed_db.workflow_steps))
    × ((e : ℤ × (ℤ × ℕ))
        → Memᴰ e averages
        → e.1 ≡ platform.average (durations e.0 checkpointed_db.workflow_steps))
avg_step_duration_result_example = avg_step_duration_result platform checkpointed_db
