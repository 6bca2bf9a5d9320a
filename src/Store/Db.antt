-- ===== src/Store/Db.antt =====
-- The tables of `initSchema` (engine.go) as lists of rows in the order of insertion, with the
-- AUTOINCREMENT counters of three of them.
use sqlite_durable_workflow.Common.{
  ℕ, String, Bool, true, false, List, [], ◌∷◌, Option, none, some, ◌==◌, ◌||◌,
}
use sqlite_durable_workflow.Types.{Workflow, WorkflowEvent, WorkflowStep, Signal, Timer}

pub record Db : Type 0 where
  pub workflows : List Workflow
  pub workflow_events : List WorkflowEvent
  pub workflow_steps : List WorkflowStep
  pub workflow_signals : List Signal
  pub workflow_timers : List Timer
  pub last_event_id : ℕ
  pub last_signal_id : ℕ
  pub last_timer_id : ℕ

-- A database file that did not exist before `New`.
abbrev pub init_schema : Db
init_schema = record {
  workflows = [];
  workflow_events = [];
  workflow_steps = [];
  workflow_signals = [];
  workflow_timers = [];
  last_event_id = 0;
  last_signal_id = 0;
  last_timer_id = 0;
}

-- `WHERE workflow_id = ?`.
abbrev pub is_workflow : String → Workflow → Bool
is_workflow id w = w.workflow_id == id

-- `WHERE lease_owner = ?`: no row with a NULL owner passes.
abbrev pub is_owner : String → Option String → Bool
is_owner worker none = false
is_owner worker (some o) = o == worker

-- The row with a given primary key.
abbrev pub lookup : String → List Workflow → Option Workflow
lookup id [] = none
lookup id (w ∷ ws) = elim (is_workflow id w) [ true ↦ some w | false ↦ lookup id ws ]

-- Whether the table has a row with a given primary key.
abbrev pub has_workflow : String → List Workflow → Bool
has_workflow id [] = false
has_workflow id (w ∷ ws) = is_workflow id w || has_workflow id ws
