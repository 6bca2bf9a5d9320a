-- ===== src/Query.antt =====
-- engine.go: the queries by status, and AvgStepDuration.
use sqlite_durable_workflow.Common.{
  ℤ, ◌-ℤ◌, eqb_ℤ, Bool, false, ◌||◌, List, [], ◌∷◌, Option, none, some, if◌then◌else◌, select, map,
}
use sqlite_durable_workflow.Types.{
  queued, running, waiting, completed, failed, Workflow, WorkflowStep,
}
use sqlite_durable_workflow.Store.Session.{M, query}
use sqlite_durable_workflow.Store.Platform.{Platform}
use sqlite_durable_workflow.Workflow.{is_status}

-- `queryWorkflows`, with the condition that its WHERE clause states.
unfoldable pub query_workflows : Platform → (Workflow → Bool) → M (List Workflow)
unfolding query
query_workflows p where_ = query (λ d. p.scan Workflow (select where_ d.workflows))

unfoldable pub query_completed : Platform → M (List Workflow)
unfolding query_workflows
query_completed p = query_workflows p (λ w. is_status w.status completed)

unfoldable pub query_failed : Platform → M (List Workflow)
unfolding query_workflows
query_failed p = query_workflows p (λ w. is_status w.status failed)

unfoldable pub query_running : Platform → M (List Workflow)
unfolding query_workflows
query_running p = query_workflows p (λ w. is_status w.status running)

unfoldable pub query_queued : Platform → M (List Workflow)
unfolding query_workflows
query_queued p = query_workflows p (λ w. is_status w.status queued)

unfoldable pub query_waiting : Platform → M (List Workflow)
unfolding query_workflows
query_waiting p = query_workflows p (λ w. is_status w.status waiting)

-- `completed_at - started_at` of a row that has both. Epoch seconds are far from SQLite's bounds.
abbrev pub elapsed : Option ℤ → Option ℤ → Option ℤ
elapsed (some started) (some completed_) = some (completed_ -ℤ started)
elapsed _ _ = none

abbrev pub keep : {A : Type 0} → Option A → List A → List A
keep none xs = xs
keep (some x) xs = x ∷ xs

-- The group of a step number.
abbrev pub durations : ℤ → List WorkflowStep → List ℤ
durations n [] = []
durations n (s ∷ ss) =
    let rest = durations n ss in
    if eqb_ℤ s.step_number n then keep (elapsed s.started_at s.completed_at) rest else rest

abbrev pub has_number : ℤ → List ℤ → Bool
has_number n [] = false
has_number n (m ∷ ms) = eqb_ℤ m n || has_number n ms

abbrev pub number_of : Option ℤ → ℤ → List ℤ → List ℤ
number_of none n ns = ns
number_of (some seconds) n ns = if has_number n ns then ns else n ∷ ns

-- `GROUP BY step_number` of the rows that pass the WHERE clause.
abbrev pub step_numbers : List WorkflowStep → List ℤ
step_numbers [] = []
step_numbers (s ∷ ss) =
    number_of (elapsed s.started_at s.completed_at) s.step_number (step_numbers ss)

-- The map of `AvgStepDuration`, by its keys.
unfoldable pub avg_step_duration : (p : Platform) → M (List (ℤ × p.Float))
unfolding query
avg_step_duration p = query (λ d.
    map (λ n. (n, p.average (durations n d.workflow_steps)))
      (p.scan ℤ (step_numbers d.workflow_steps)))
