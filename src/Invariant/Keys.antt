-- ===== src/Invariant/Keys.antt =====
-- The keys of the tables: the PRIMARY KEYs and FOREIGN KEYs of `initSchema` (engine.go).
pub mod Tables
pub mod Writes
pub mod Preserved
use sqlite_durable_workflow.Common.{String, ℕ, ℤ, ⊤, Bool, true, false, List, [], ◌∷◌, ◌≡◌, map}
use sqlite_durable_workflow.Types.{Workflow, WorkflowStep}
use sqlite_durable_workflow.Store.Db.{Db, has_workflow}
use sqlite_durable_workflow.Step.{has_step}
use sqlite_durable_workflow.Invariant.{All, one_to}

-- No two steps share workflow and number.
abbrev pub Distinct : List WorkflowStep → Type 0
Distinct [] = ⊤
Distinct (s ∷ ss) = (has_step s.workflow_id s.step_number ss ≡ false) × Distinct ss

-- The rows' workflows are in the table.
abbrev pub Referring : {A : Type 0} → (A → String) → List Workflow → List A → Type 0
Referring key ws = All λ a. has_workflow (key a) ws ≡ true

-- The keys that AUTOINCREMENT gives are 1, 2, … in the order of insertion, up to its counter; a
-- workflow has one row for a step; and what refers to a workflow refers to a row.
pub record IsKeyed (d : Db) : Type 0 where
  pub event_ids : map (λ e. e.event_id) d.workflow_events ≡ one_to d.last_event_id
  pub signal_ids : map (λ s. s.signal_id) d.workflow_signals ≡ one_to d.last_signal_id
  pub timer_ids : map (λ t. t.timer_id) d.workflow_timers ≡ one_to d.last_timer_id
  pub step_keys : Distinct d.workflow_steps
  pub steps : Referring (λ s. s.workflow_id) d.workflows d.workflow_steps
  pub signals : Referring (λ s. s.workflow_id) d.workflows d.workflow_signals
  pub timers : Referring (λ t. t.workflow_id) d.workflows d.workflow_timers
