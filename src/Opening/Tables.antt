-- ===== src/Opening/Tables.antt =====
-- engine.go: the statements of `initSchema` on a database file that may have some of the tables.
use sqlite_durable_workflow.Common.{ℕ, Bool, true, List, [], ◌∷◌, Option, none, some}
use sqlite_durable_workflow.Types.{Workflow, WorkflowEvent, WorkflowStep, Signal, Timer}
use sqlite_durable_workflow.Store.Db.{Db}

-- A table that the file does not have is `none`; the last three fields are the indexes.
pub record File : Type 0 where
  pub workflows : Option (List Workflow)
  pub workflow_events : Option (List WorkflowEvent)
  pub workflow_steps : Option (List WorkflowStep)
  pub workflow_signals : Option (List Signal)
  pub workflow_timers : Option (List Timer)
  pub last_event_id : ℕ
  pub last_signal_id : ℕ
  pub last_timer_id : ℕ
  pub idx_events_workflow : Bool
  pub idx_signals_workflow : Bool
  pub idx_timers_wake : Bool

abbrev pub rows_of : {A : Type 0} → Option (List A) → List A
rows_of none = []
rows_of (some rows) = rows

-- `CREATE TABLE IF NOT EXISTS`.
abbrev pub create_if_not_exists : {A : Type 0} → Option (List A) → Option (List A)
create_if_not_exists t = some (rows_of t)

abbrev pub schema : List (File → File)
schema =
    (λ f. record f { workflows = create_if_not_exists f.workflows })
    ∷ (λ f. record f { workflow_events = create_if_not_exists f.workflow_events })
    ∷ (λ f. record f { idx_events_workflow = true })
    ∷ (λ f. record f { workflow_steps = create_if_not_exists f.workflow_steps })
    ∷ (λ f. record f { workflow_signals = create_if_not_exists f.workflow_signals })
    ∷ (λ f. record f { idx_signals_workflow = true })
    ∷ (λ f. record f { workflow_timers = create_if_not_exists f.workflow_timers })
    ∷ (λ f. record f { idx_timers_wake = true })
    ∷ []

-- The tables with their rows, a missing one without any.
abbrev pub rows_in : File → Db
rows_in f = record {
  workflows = rows_of f.workflows;
  workflow_events = rows_of f.workflow_events;
  workflow_steps = rows_of f.workflow_steps;
  workflow_signals = rows_of f.workflow_signals;
  workflow_timers = rows_of f.workflow_timers;
  last_event_id = f.last_event_id;
  last_signal_id = f.last_signal_id;
  last_timer_id = f.last_timer_id;
}

-- The file of an engine with every table and index, with the database's rows.
abbrev pub file_of : Db → File
file_of d = record {
  workflows = some d.workflows;
  workflow_events = some d.workflow_events;
  workflow_steps = some d.workflow_steps;
  workflow_signals = some d.workflow_signals;
  workflow_timers = some d.workflow_timers;
  last_event_id = d.last_event_id;
  last_signal_id = d.last_signal_id;
  last_timer_id = d.last_timer_id;
  idx_events_workflow = true;
  idx_signals_workflow = true;
  idx_timers_wake = true;
}
