-- ===== src/Invariant/Keys/Writes.antt =====
-- What each kind of write leaves of the keys.
use sqlite_durable_workflow.Common.{
  String, ℕ, suc, ℤ, Bool, true, List, [], ◌∷◌, ◌++◌, Option, ◌≡◌, refl, ◌∙◌, update, Bool-cases,
  inl, inr, if◌then◌else◌,
}
use sqlite_durable_workflow.Types.{Workflow, WorkflowStep, EventType, StepStatus}
use sqlite_durable_workflow.Store.Db.{Db, has_workflow}
use sqlite_durable_workflow.Store.Lookup.{has_workflow-update}
use sqlite_durable_workflow.Step.{has_step, started_row, refinished}
use sqlite_durable_workflow.Signal.{signal_row, is_signal, taken}
use sqlite_durable_workflow.Timer.{timer_row, is_timer, fired_timer}
use sqlite_durable_workflow.Effect.Workflows.{with_event, with_workflows}
use sqlite_durable_workflow.Effect.Steps.{with_steps, started}
use sqlite_durable_workflow.Invariant.Rows.{All-append, All-update}
use sqlite_durable_workflow.Invariant.Keys.{Distinct, Referring, IsKeyed}
use sqlite_durable_workflow.Invariant.Keys.Tables.{
  ids-append, ids-update, Referring-rows, append-Distinct, update-Distinct,
}

module _ (d : Db) (k : IsKeyed d) where
  -- With one more event.
  pub event-IsKeyed :
      (id : String) (event_type : EventType) (payload : Option String) (n : ℕ) (now : ℤ)
      → IsKeyed (with_event id event_type payload n now d)
  event-IsKeyed id event_type payload n now = record {
    event_ids = ids-append (λ e. e.event_id) d.workflow_events _ d.last_event_id k.event_ids refl;
    signal_ids = k.signal_ids;
    timer_ids = k.timer_ids;
    step_keys = k.step_keys;
    steps = k.steps;
    signals = k.signals;
    timers = k.timers;
  }

  -- With other workflows, none of them missing.
  pub workflows-IsKeyed :
      (ws : List Workflow)
      → ((id : String) → has_workflow id d.workflows ≡ true → has_workflow id ws ≡ true)
      → IsKeyed (with_workflows ws d)
  workflows-IsKeyed ws keeps = record {
    event_ids = k.event_ids;
    signal_ids = k.signal_ids;
    timer_ids = k.timer_ids;
    step_keys = k.step_keys;
    steps = Referring-rows (λ s. s.workflow_id) d.workflows ws d.workflow_steps keeps k.steps;
    signals = Referring-rows (λ s. s.workflow_id) d.workflows ws d.workflow_signals keeps k.signals;
    timers = Referring-rows (λ t. t.workflow_id) d.workflows ws d.workflow_timers keeps k.timers;
  }

  pub update-IsKeyed :
      (p : Workflow → Bool) (f : Workflow → Workflow)
      → ((w : Workflow) → (f w).workflow_id ≡ w.workflow_id)
      → IsKeyed (with_workflows (update p f d.workflows) d)
  update-IsKeyed p f keeps =
      workflows-IsKeyed (update p f d.workflows)
        λ id h. has_workflow-update p f keeps id d.workflows ∙ h

  pub steps-IsKeyed :
      (ss : List WorkflowStep)
      → Distinct ss
      → Referring (λ s. s.workflow_id) d.workflows ss
      → IsKeyed (with_steps ss d)
  steps-IsKeyed ss x r = record {
    event_ids = k.event_ids;
    signal_ids = k.signal_ids;
    timer_ids = k.timer_ids;
    step_keys = x;
    steps = r;
    signals = k.signals;
    timers = k.timers;
  }

  -- An INSERT of a step, or an UPDATE where it has a row.
  pub upsert-IsKeyed :
      (p : WorkflowStep → Bool) (status : StepStatus) (output : Option String) (now : ℤ)
      (row : WorkflowStep)
      → has_workflow row.workflow_id d.workflows ≡ true
      → IsKeyed (
          with_steps
            (if has_step row.workflow_id row.step_number d.workflow_steps
              then update p (refinished status output now) d.workflow_steps
              else d.workflow_steps ++ row ∷ [])
            d)
  upsert-IsKeyed p status output now row h =
      elim (Bool-cases (has_step row.workflow_id row.step_number d.workflow_steps)) [
        | inl e ↦ rw e (
            steps-IsKeyed (update p (refinished status output now) d.workflow_steps)
              (update-Distinct p (refinished status output now) (λ s. refl) (λ s. refl)
                d.workflow_steps k.step_keys)
              (All-update _ p (refinished status output now) (λ s g _. g) d.workflow_steps k.steps))
        | inr e ↦ rw e (
            steps-IsKeyed (d.workflow_steps ++ row ∷ [])
              (append-Distinct d.workflow_steps row e k.step_keys)
              (All-append _ d.workflow_steps row k.steps h))
      ]

  pub started-IsKeyed :
      (id : String) (n : ℤ) (input : Option String) (now : ℤ)
      → has_workflow id d.workflows ≡ true
      → IsKeyed (with_steps (started id n input now d.workflow_steps) d)
  started-IsKeyed id n input now h = elim (Bool-cases (has_step id n d.workflow_steps)) [
    | inl e ↦ rw e k
    | inr e ↦ rw e (
        steps-IsKeyed (d.workflow_steps ++ started_row id n input now ∷ [])
          (append-Distinct d.workflow_steps (started_row id n input now) e k.step_keys)
          (All-append _ d.workflow_steps (started_row id n input now) k.steps h))
  ]

  -- `SendSignal` without its event.
  pub signal-IsKeyed :
      (id signal_type : String) (payload : Option String) (now : ℤ)
      → has_workflow id d.workflows ≡ true
      → IsKeyed (record d {
        workflow_signals =
            d.workflow_signals ++ signal_row (suc d.last_signal_id) id signal_type payload now ∷ [];
        last_signal_id = suc d.last_signal_id;
      })
  signal-IsKeyed id signal_type payload now h = record {
    event_ids = k.event_ids;
    signal_ids =
        ids-append (λ s. s.signal_id) d.workflow_signals _ d.last_signal_id k.signal_ids refl;
    timer_ids = k.timer_ids;
    step_keys = k.step_keys;
    steps = k.steps;
    signals = All-append _ d.workflow_signals _ k.signals h;
    timers = k.timers;
  }

  pub timer-IsKeyed :
      (id : String) (wake_at : ℤ)
      → has_workflow id d.workflows ≡ true
      → IsKeyed (record d {
        workflow_timers = d.workflow_timers ++ timer_row (suc d.last_timer_id) id wake_at ∷ [];
        last_timer_id = suc d.last_timer_id;
      })
  timer-IsKeyed id wake_at h = record {
    event_ids = k.event_ids;
    signal_ids = k.signal_ids;
    timer_ids = ids-append (λ t. t.timer_id) d.workflow_timers _ d.last_timer_id k.timer_ids refl;
    step_keys = k.step_keys;
    steps = k.steps;
    signals = k.signals;
    timers = All-append _ d.workflow_timers _ k.timers h;
  }

  pub taken-IsKeyed :
      (i : ℕ)
      → IsKeyed (record d { workflow_signals = update (is_signal i) taken d.workflow_signals })
  taken-IsKeyed i = record {
    event_ids = k.event_ids;
    signal_ids =
        ids-update (λ s. s.signal_id) (is_signal i) taken (λ s. refl) d.workflow_signals
        ∙ k.signal_ids;
    timer_ids = k.timer_ids;
    step_keys = k.step_keys;
    steps = k.steps;
    signals = All-update _ (is_signal i) taken (λ s g _. g) d.workflow_signals k.signals;
    timers = k.timers;
  }

  pub fired-IsKeyed :
      (i : ℕ)
      → IsKeyed (record d { workflow_timers = update (is_timer i) fired_timer d.workflow_timers })
  fired-IsKeyed i = record {
    event_ids = k.event_ids;
    signal_ids = k.signal_ids;
    timer_ids =
        ids-update (λ t. t.timer_id) (is_timer i) fired_timer (λ t. refl) d.workflow_timers
        ∙ k.timer_ids;
    step_keys = k.step_keys;
    steps = k.steps;
    signals = k.signals;
    timers = All-update _ (is_timer i) fired_timer (λ t g _. g) d.workflow_timers k.timers;
  }
