-- ===== src/History/Checkpoints.antt =====
-- What a history keeps of a completed step, and of a consumed signal.
use mathlib.Core.List.{Memᴰ}
use sqlite_durable_workflow.Common.{
  String, ℕ, ℤ, eqb_ℤ, Bool, true, false, ◌&&◌, List, [], ◌∷◌, ◌++◌, Option, none, some, ◌≡◌, refl,
  sym, ap, ◌∙◌, subst, arith, update, inl, inr, Bool-cases, ◌==◌, eq_iff, ⊤,
}
use sqlite_durable_workflow.Types.{WorkflowStep, StepStatus, Signal, Timer}
use sqlite_durable_workflow.Store.Db.{Db}
use sqlite_durable_workflow.Store.Session.{Session}
use sqlite_durable_workflow.Store.Platform.{Platform}
use sqlite_durable_workflow.Section.{Section, history}
use sqlite_durable_workflow.Step.{
  is_step, is_open, started_row, finished_row, refinished, json_string, failed_payload,
}
use sqlite_durable_workflow.Signal.{is_signal, taken}
use sqlite_durable_workflow.Timer.{firing_timers}
use sqlite_durable_workflow.Effect.Timers.{firing, firing_all}
use sqlite_durable_workflow.Change.{
  Change, stays, creates, acquires, renews, releases, pauses, finishes, starts, completes, fails,
  sends, takes, times, fires, expires,
}
use sqlite_durable_workflow.Invariant.{All, IsWellFormed}
use sqlite_durable_workflow.History.{history_keeps, history_keeps_under}

-- The row of a step.
abbrev pub find_step : String → ℤ → List WorkflowStep → Option WorkflowStep
find_step id n [] = none
find_step id n (s ∷ ss) = elim (is_step id n s) [ true ↦ some s | false ↦ find_step id n ss ]

-- Every section but FailStep of the step.
abbrev pub Spares : String → ℤ → Section → Type 0
Spares id n (Section.fail_step now j m input message) = (j == id && eqb_ℤ m n) ≡ false
Spares id n _ = ⊤

find_step-append :
    (id : String) (n : ℤ) (ss rs : List WorkflowStep) (s : WorkflowStep)
    → find_step id n ss ≡ some s
    → find_step id n (ss ++ rs) ≡ some s
find_step-append id n [] rs s e = cc
find_step-append id n (r ∷ ss) rs s e = ground (arith, find_step-append id n ss rs s)

find_step-update :
    (p : WorkflowStep → Bool) (status : StepStatus) (output : Option String) (now : ℤ) (id : String)
    (n : ℤ) (ss : List WorkflowStep) (s : WorkflowStep)
    → find_step id n ss ≡ some s
    → p s ≡ false
    → find_step id n (update p (refinished status output now) ss) ≡ some s
find_step-update p status output now id n [] s e h = cc
find_step-update p status output now id n (r ∷ ss) s e h = elim (Bool-cases (is_step id n r)) [
  | inl k ↦
      let same : r ≡ s = ground arith in let passed : p r ≡ false = ap p same ∙ h in ground arith
  | inr k ↦
      let rest = find_step-update p status output now id n ss s (ground arith) h in ground arith
]

find_step_key :
    (id : String) (n : ℤ) (ss : List WorkflowStep) (s : WorkflowStep)
    → find_step id n ss ≡ some s
    → is_step id n s ≡ true
find_step_key id n [] s e = cc
find_step_key id n (r ∷ ss) s e = elim (Bool-cases (is_step id n r)) [
  | inl k ↦ let same : r ≡ s = ground arith in sym (ap (is_step id n) same) ∙ k
  | inr k ↦ find_step_key id n ss s (ground arith)
]

pub firing_all_steps :
    (now : ℤ) (ts : List Timer) (d : Db)
    → ((firing_all now ts d).workflow_steps ≡ d.workflow_steps)
      × ((firing_all now ts d).workflow_signals ≡ d.workflow_signals)
firing_all_steps now [] d = (refl, refl)
firing_all_steps now (t ∷ ts) d = firing_all_steps now ts (firing now t d)

module _ (id : String) (n : ℤ) (s : WorkflowStep) (done : s.status ≡ StepStatus.completed) where
  Change-checkpoint :
      {p : Platform} {d f : Db} {c : Section}
      → Change p d c f
      → Spares id n c
      → find_step id n d.workflow_steps ≡ some s
      → find_step id n f.workflow_steps ≡ some s
  Change-checkpoint stays g e = e
  Change-checkpoint (creates now j ty h) g e = e
  Change-checkpoint (acquires now worker duration v h m) g e = e
  Change-checkpoint (renews now j worker duration) g e = e
  Change-checkpoint (releases now j worker) g e = e
  Change-checkpoint (pauses now j worker) g e = e
  Change-checkpoint (finishes c status event_type now j worker ending h) g e = e
  Change-checkpoint {p} {d} (starts now j m input h) g e = ground (
    arith,
    find_step-append id n d.workflow_steps (started_row j m (json_string p input) now ∷ []) s e,
  )
  Change-checkpoint {p} {d} (completes now j worker m input output v i h k) g e = ground (
    arith,
    find_step-append id n d.workflow_steps
        (finished_row StepStatus.completed j m (json_string p input) (json_string p output) now
          ∷ [])
        s e,
    find_step-update (λ r. is_step j m r && is_open r.status) StepStatus.completed
        (json_string p output) now id n d.workflow_steps s e,
  )
  Change-checkpoint {p} {d} (fails now j m input message h) g e =
      let spared : is_step j m s ≡ false =
        let key = find_step_key id n d.workflow_steps s e in
        ground (arith, eq_iff s.workflow_id id, eq_iff s.workflow_id j, eq_iff j id) in
      ground (
        arith,
        find_step-append id n d.workflow_steps
            (finished_row StepStatus.failed j m (json_string p input)
                (json_string p (failed_payload m message)) now
              ∷ [])
            s e,
        find_step-update (is_step j m) StepStatus.failed (json_string p (failed_payload m message))
            now id n d.workflow_steps s e,
      )
  Change-checkpoint (sends now j signal_type payload h) g e = e
  Change-checkpoint (takes j r h m) g e = e
  Change-checkpoint (times j wake_at h) g e = e
  Change-checkpoint {p} {d} (fires now) g e =
      ap (find_step id n) (firing_all_steps now (firing_timers p now d) d).0 ∙ e
  Change-checkpoint (expires now) g e = e

-- The row of a completed step, its output included, stays as it is through every history without a
-- FailStep of that step, under any faults of the driver: a worker that takes over finds the
-- checkpoint.
pub history_checkpoint :
    (p : Platform) (cs : List Section) (s : Session) (id : String) (n : ℤ) (row : WorkflowStep)
    → s.saved ≡ none
    → IsWellFormed s.db
    → find_step id n s.db.workflow_steps ≡ some row
    → row.status ≡ StepStatus.completed
    → All (Spares id n) cs
    → find_step id n (history p cs s).db.workflow_steps ≡ some row
history_checkpoint p cs s id n row e wf found done spared =
    history_keeps_under (λ d. find_step id n d.workflow_steps ≡ some row) (Spares id n) p
      (λ c d f change g wf' found'. Change-checkpoint id n row done change g found') cs s e spared
      wf found

mem-append : {A : Type 0} {a : A} (xs ys : List A) → Memᴰ a xs → Memᴰ a (xs ++ ys)
mem-append [] ys m = elim m [ ]
mem-append (x ∷ xs) ys (Memᴰ.head e) = Memᴰ.head e
mem-append (x ∷ xs) ys (Memᴰ.tail m) = Memᴰ.tail (mem-append xs ys m)

taken_same : (s : Signal) → s.consumed ≡ true → taken s ≡ s
taken_same s h = ap (λ b. record s { consumed = b }) (sym h)

still_taken :
    (k : ℕ) (s : Signal) (ss : List Signal)
    → s.consumed ≡ true
    → Memᴰ s ss
    → Memᴰ s (update (is_signal k) taken ss)
still_taken k s [] h m = elim m [ ]
still_taken k s (r ∷ ss) h (Memᴰ.head e) = Memᴰ.head (elim (Bool-cases (is_signal k r)) [
  | inl g ↦ rw g (sym (taken_same s h) ∙ ap taken e)
  | inr g ↦ rw g e
])
still_taken k s (r ∷ ss) h (Memᴰ.tail m) = Memᴰ.tail (still_taken k s ss h m)

Change_consumed :
    {p : Platform} {d f : Db} {c : Section} (s : Signal)
    → Change p d c f
    → s.consumed ≡ true
    → Memᴰ s d.workflow_signals
    → Memᴰ s f.workflow_signals
Change_consumed s stays h m = m
Change_consumed s (creates now j ty g) h m = m
Change_consumed s (acquires now worker duration v g k) h m = m
Change_consumed s (renews now j worker duration) h m = m
Change_consumed s (releases now j worker) h m = m
Change_consumed s (pauses now j worker) h m = m
Change_consumed s (finishes c status event_type now j worker ending g) h m = m
Change_consumed s (starts now j n input g) h m = m
Change_consumed s (completes now j worker n input output v i g k) h m = m
Change_consumed s (fails now j n input message g) h m = m
Change_consumed {d} s (sends now j signal_type payload g) h m = mem-append d.workflow_signals _ m
Change_consumed {d} s (takes j r g k) h m = still_taken r.signal_id s d.workflow_signals h m
Change_consumed s (times j wake_at g) h m = m
Change_consumed {p} {d} s (fires now) h m =
    subst (λ ss. Memᴰ s ss) (sym (firing_all_steps now (firing_timers p now d) d).1) m
Change_consumed s (expires now) h m = m

-- A signal that has been consumed stays so, as it is, through every history under any faults.
pub history_consumed :
    (p : Platform) (cs : List Section) (s : Session) (row : Signal)
    → s.saved ≡ none
    → IsWellFormed s.db
    → Memᴰ row s.db.workflow_signals
    → row.consumed ≡ true
    → Memᴰ row (history p cs s).db.workflow_signals
history_consumed p cs s row e wf m h =
    history_keeps (λ d. Memᴰ row d.workflow_signals) p
      (λ c d f change wf' m'. Change_consumed row change h m') cs s e wf m
