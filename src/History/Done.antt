-- ===== src/History/Done.antt =====
-- A checkpointed step stays one: step.go, over a history.
use sqlite_durable_workflow.Common.{
  String, ℤ, eqb_ℤ, ◌==◌, ◌&&◌, Bool, true, false, List, [], ◌∷◌, ◌++◌, Option, none, ◌≡◌, refl,
  sym, subst, arith, update, count, inl, inr, Bool-cases, eq_iff,
}
use sqlite_durable_workflow.Types.{WorkflowStep, StepStatus}
use sqlite_durable_workflow.Store.Db.{Db}
use sqlite_durable_workflow.Store.Session.{Session}
use sqlite_durable_workflow.Store.Platform.{Platform}
use sqlite_durable_workflow.Section.{Section, history}
use sqlite_durable_workflow.Step.{
  is_step, has_step, is_open, started_row, finished_row, refinished, json_string, failed_payload,
}
use sqlite_durable_workflow.Timer.{firing_timers}
use sqlite_durable_workflow.Effect.Steps.{is_done, started, checkpointed, failed_steps}
use sqlite_durable_workflow.Change.{
  Change, stays, creates, acquires, renews, releases, pauses, finishes, starts, completes, fails,
  sends, takes, times, fires, expires,
}
use sqlite_durable_workflow.Invariant.{All, IsWellFormed}
use sqlite_durable_workflow.History.{history_keeps_under}
use sqlite_durable_workflow.History.Checkpoints.{Spares, firing_all_steps}

module _ (id : String) (n : ℤ) where
  -- The rows of the step that CompleteStep may still take.
  abbrev left : WorkflowStep → Bool
  left s = is_step id n s && is_open s.status

  done-append :
      (ss : List WorkflowStep) (row : WorkflowStep)
      → is_done id n ss ≡ true
      → left row ≡ false
      → is_done id n (ss ++ row ∷ []) ≡ true
  done-append ss row h k = ground (arith, there ss, none_more ss)
    where
      there :
          (rs : List WorkflowStep) → has_step id n rs ≡ true → has_step id n (rs ++ row ∷ []) ≡ true
      there [] g = ground arith
      there (r ∷ rs) g = ground (arith, there rs)

      none_more : (rs : List WorkflowStep) → count left (rs ++ row ∷ []) ≡ count left rs
      none_more [] = rw k refl
      none_more (r ∷ rs) = ground (arith, none_more rs)

  done-completed :
      (test : WorkflowStep → Bool) (output : Option String) (now : ℤ) (ss : List WorkflowStep)
      → is_done id n ss ≡ true
      → is_done id n (update test (refinished StepStatus.completed output now) ss) ≡ true
  done-completed test output now ss h = ground (arith, there ss, none_more ss)
    where
      there :
          (rs : List WorkflowStep)
          → has_step id n (update test (refinished StepStatus.completed output now) rs)
            ≡ has_step id n rs
      there [] = refl
      there (r ∷ rs) = ground (arith, there rs)

      none_more :
          (rs : List WorkflowStep)
          → count left rs ≡ 0
          → count left (update test (refinished StepStatus.completed output now) rs) ≡ 0
      none_more [] g = refl
      none_more (r ∷ rs) g = ground (arith, none_more rs)

  done-failed :
      (j : String) (m : ℤ) (output : Option String) (now : ℤ) (ss : List WorkflowStep)
      → (j == id && eqb_ℤ m n) ≡ false
      → is_done id n ss ≡ true
      → is_done id n (update (is_step j m) (refinished StepStatus.failed output now) ss) ≡ true
  done-failed j m output now ss spared h = ground (arith, there ss, none_more ss)
    where
      there :
          (rs : List WorkflowStep)
          → has_step id n (update (is_step j m) (refinished StepStatus.failed output now) rs)
            ≡ has_step id n rs
      there [] = refl
      there (r ∷ rs) = ground (arith, there rs)

      none_more :
          (rs : List WorkflowStep)
          → count left (update (is_step j m) (refinished StepStatus.failed output now) rs)
            ≡ count left rs
      none_more [] = refl
      none_more (r ∷ rs) =
          ground (arith, none_more rs, eq_iff r.workflow_id id, eq_iff r.workflow_id j, eq_iff j id)

  same_step :
      (j : String) (m : ℤ) (ss : List WorkflowStep)
      → (j == id && eqb_ℤ m n) ≡ true
      → has_step j m ss ≡ has_step id n ss
  same_step j m [] h = refl
  same_step j m (s ∷ ss) h =
      ground (arith, same_step j m ss, eq_iff s.workflow_id id, eq_iff s.workflow_id j, eq_iff j id)

  done-started :
      (j : String) (m : ℤ) (input : Option String) (now : ℤ) (ss : List WorkflowStep)
      → is_done id n ss ≡ true
      → is_done id n (started j m input now ss) ≡ true
  done-started j m input now ss h = elim (Bool-cases (has_step j m ss)) [
    | inl k ↦ rw k h
    | inr k ↦
        let row = started_row j m input now in
        rw k (done-append ss row h (ground (arith, same_step j m ss)))
  ]

  done-checkpointed :
      (j : String) (m : ℤ) (input output : Option String) (now : ℤ) (ss : List WorkflowStep)
      → is_done id n ss ≡ true
      → is_done id n (checkpointed j m input output now ss) ≡ true
  done-checkpointed j m input output now ss h = elim (Bool-cases (has_step j m ss)) [
    | inl k ↦ rw k (done-completed (λ s. is_step j m s && is_open s.status) output now ss h)
    | inr k ↦
        rw k
          (done-append ss (finished_row StepStatus.completed j m input output now) h (ground arith))
  ]

  done-failing :
      (j : String) (m : ℤ) (input output : Option String) (now : ℤ) (ss : List WorkflowStep)
      → (j == id && eqb_ℤ m n) ≡ false
      → is_done id n ss ≡ true
      → is_done id n (failed_steps j m input output now ss) ≡ true
  done-failing j m input output now ss spared h = elim (Bool-cases (has_step j m ss)) [
    | inl k ↦ rw k (done-failed j m output now ss spared h)
    | inr k ↦
        rw k (done-append ss (finished_row StepStatus.failed j m input output now) h (ground arith))
  ]

  Change-done :
      {p : Platform} {d f : Db} {c : Section}
      → Change p d c f
      → Spares id n c
      → is_done id n d.workflow_steps ≡ true
      → is_done id n f.workflow_steps ≡ true
  Change-done stays g h = h
  Change-done (creates now j ty k) g h = h
  Change-done (acquires now worker duration v k m) g h = h
  Change-done (renews now j worker duration) g h = h
  Change-done (releases now j worker) g h = h
  Change-done (pauses now j worker) g h = h
  Change-done (finishes c status event_type now j worker ending k) g h = h
  Change-done {p} {d} (starts now j m input k) g h =
      done-started j m (json_string p input) now d.workflow_steps h
  Change-done {p} {d} (completes now j worker m input output v i k o) g h =
      done-checkpointed j m (json_string p input) (json_string p output) now d.workflow_steps h
  Change-done {p} {d} (fails now j m input message k) g h =
      done-failing j m (json_string p input) (json_string p (failed_payload m message)) now
        d.workflow_steps g h
  Change-done (sends now j signal_type payload k) g h = h
  Change-done (takes j r k m) g h = h
  Change-done (times j wake_at k) g h = h
  Change-done {p} {d} (fires now) g h =
      subst (λ ss. is_done id n ss ≡ true) (sym (firing_all_steps now (firing_timers p now d) d).0)
        h
  Change-done (expires now) g h = h

  -- A checkpointed step stays one through every history without a FailStep of it.
  pub history_done :
      (p : Platform) (cs : List Section) (s : Session)
      → s.saved ≡ none
      → IsWellFormed s.db
      → is_done id n s.db.workflow_steps ≡ true
      → All (Spares id n) cs
      → is_done id n (history p cs s).db.workflow_steps ≡ true
  history_done p cs s e wf h spared =
      history_keeps_under (λ d. is_done id n d.workflow_steps ≡ true) (Spares id n) p
        (λ c d f change g wf' h'. Change-done change g h') cs s e spared wf h
