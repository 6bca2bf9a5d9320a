-- ===== src/Invariant.antt =====
-- What holds of the tables between two steps.
pub mod Rows
pub mod Log
pub mod Step
pub mod Entries
pub mod Preserved
pub mod Terminal
pub mod Leased
pub mod Moves
pub mod Keys
pub mod Cursor
use sqlite_durable_workflow.Common.{
  String, ℕ, zero, suc, ◌+◌, ⊤, Bool, true, false, List, [], ◌∷◌, ◌++◌, Option, none, some, ◌≡◌,
  ◌||◌, ◌&&◌, select, count, map,
}
use sqlite_durable_workflow.Types.{
  Status, queued, running, waiting, completed, failed, EventType, workflow_started, step_completed,
  workflow_completed, workflow_failed, Workflow, WorkflowEvent,
}
use sqlite_durable_workflow.Store.Db.{Db, has_workflow}
use sqlite_durable_workflow.Store.Lookup.{Unique}
use sqlite_durable_workflow.Event.{is_event_of}

abbrev pub All : {A : Type 0} → (A → Type 0) → List A → Type 0
All P [] = ⊤
All P (x ∷ xs) = P x × All P xs

abbrev pub is_some : {A : Type 0} → Option A → Bool
is_some none = false
is_some (some a) = true

-- RUNNING and WAITING workflows are leased; COMPLETED and FAILED ones have ended.
abbrev pub is_live : Status → Bool
is_live running = true
is_live waiting = true
is_live queued = false
is_live completed = false
is_live failed = false

abbrev pub is_terminal : Status → Bool
is_terminal completed = true
is_terminal failed = true
is_terminal queued = false
is_terminal running = false
is_terminal waiting = false

-- The status says which of the nullable columns are set.
abbrev pub IsRow : Workflow → Type 0
IsRow w =
    (is_some w.lease_owner ≡ is_live w.status)
    × (is_some w.lease_expires_at ≡ is_live w.status)
    × (is_some w.completed_at ≡ is_terminal w.status)

-- The sequence numbers of a workflow's events, in the order of insertion.
abbrev pub sequences : String → List WorkflowEvent → List ℕ
sequences id [] = []
sequences id (e ∷ es) =
    let rest = sequences id es in
    elim (is_event_of id e) [ true ↦ e.sequence_number ∷ rest | false ↦ rest ]

-- 1, 2, …, n.
abbrev pub one_to : ℕ → List ℕ
one_to zero = []
one_to (suc n) = one_to n ++ suc n ∷ []

abbrev pub IsNumbered : String → List WorkflowEvent → Type 0
IsNumbered id es = sequences id es ≡ one_to (count (is_event_of id) es)

abbrev pub is_completion : EventType → Bool
is_completion step_completed = true
is_completion _ = false

-- The events of the functions that write `version = version + 1`.
abbrev pub is_bump : EventType → Bool
is_bump step_completed = true
is_bump workflow_started = true
is_bump workflow_completed = true
is_bump workflow_failed = true
is_bump _ = false

-- The cursor and the version of a row are what its events count.
abbrev pub Replays : List WorkflowEvent → Workflow → Type 0
Replays es w =
    (w.current_step ≡ count (λ e. is_event_of w.workflow_id e && is_completion e.event_type) es)
    × (w.version ≡ suc (count (λ e. is_event_of w.workflow_id e && is_bump e.event_type) es))

-- The foreign key of the events.
abbrev pub Owned : List Workflow → WorkflowEvent → Type 0
Owned ws e = has_workflow e.workflow_id ws ≡ true

pub record WellFormed (ws : List Workflow) (es : List WorkflowEvent) : Type 0 where
  pub unique : Unique ws
  pub rows : All IsRow ws
  pub owned : All (Owned ws) es
  pub numbered : (id : String) → IsNumbered id es
  pub replayed : All (Replays es) ws

abbrev pub IsWellFormed : Db → Type 0
IsWellFormed d = WellFormed d.workflows d.workflow_events
