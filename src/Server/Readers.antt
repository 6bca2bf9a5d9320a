-- ===== src/Server/Readers.antt =====
-- cmd/server/main.go: the handlers that only read.
use sqlite_durable_workflow.Common.{String, ◌==◌}
use sqlite_durable_workflow.Store.Platform.{Platform}
use sqlite_durable_workflow.Event.{get_events}
use sqlite_durable_workflow.Workflow.{get_workflow}
use sqlite_durable_workflow.Step.{get_steps}
use sqlite_durable_workflow.Signal.{get_signals}
use sqlite_durable_workflow.Query.{
  avg_step_duration, query_failed, query_running, query_queued, query_waiting,
}
use sqlite_durable_workflow.Server.Replies.{
  workflow, steps, signals, events, Handler, answer, with_count, with_averages,
}

-- `unconsumed` is the query's parameter of that name, empty where there is none.
module _ (p : Platform) (id unconsumed : String) where
  abbrev pub get_workflow_handler : Handler p.Float
  get_workflow_handler = answer 500 workflow (get_workflow id)

  abbrev pub get_steps_handler : Handler p.Float
  get_steps_handler = answer 500 steps (get_steps p id)

  abbrev pub get_signals_handler : Handler p.Float
  get_signals_handler = answer 500 signals (get_signals p id (unconsumed == "true"))

  abbrev pub get_events_handler : Handler p.Float
  get_events_handler = answer 500 events (get_events p id)

  abbrev pub query_failed_handler : Handler p.Float
  query_failed_handler = with_count (query_failed p)

  abbrev pub query_running_handler : Handler p.Float
  query_running_handler = with_count (query_running p)

  abbrev pub query_queued_handler : Handler p.Float
  query_queued_handler = with_count (query_queued p)

  abbrev pub query_waiting_handler : Handler p.Float
  query_waiting_handler = with_count (query_waiting p)

  abbrev pub avg_step_duration_handler : Handler p.Float
  avg_step_duration_handler = with_averages (avg_step_duration p)
