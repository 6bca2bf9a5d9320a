-- ===== src/Contract/Checkpoints.antt =====
-- Checkpoints of steps (step.go): what `CompleteStep` promises, and what survives.
use sqlite_durable_workflow.Common.{
  String, ℤ, ◌+◌, eqb_ℤ, Bool, true, false, ◌&&◌, List, [], ◌∷◌, ◌++◌, Option, none, some, ◌⊎◌,
  Option-cases, ◌≡◌, ◌≢◌, refl, ◌∙◌, arith, update, count, inl, inr, Bool-cases, eq_refl,
  count-append,
}
use sqlite_durable_workflow.Types.{Workflow, WorkflowStep, StepStatus, Value}
use sqlite_durable_workflow.Store.Db.{Db, is_owner, lookup}
use sqlite_durable_workflow.Store.Session.{Session, Error, ok, err, step_already_completed, quiet}
use sqlite_durable_workflow.Store.Platform.{Platform}
use sqlite_durable_workflow.Store.Lookup.{lookup-update, lookup_has, lookup_mem}
use sqlite_durable_workflow.Workflow.{is_leased, verify_lease}
use sqlite_durable_workflow.Section.{Section, history}
use sqlite_durable_workflow.Change.{Change, completes}
use sqlite_durable_workflow.Invariant.{All, IsWellFormed}
use sqlite_durable_workflow.Invariant.Preserved.{Change-WellFormed}
use sqlite_durable_workflow.History.Checkpoints.{Spares}
use sqlite_durable_workflow.History.Done.{history_done}
use sqlite_durable_workflow.Step
use sqlite_durable_workflow.Step.{
  is_step, has_step, is_open, started_row, finished_row, refinished, advanced, fail_step_tx,
  json_string, failed_payload,
}
use sqlite_durable_workflow.Effect.Steps.{
  checkpointed, is_done, completing, failing, complete_step_again, complete_step_missing,
  complete_step_mismatch, complete_step_lem, fail_step_tx_lem,
}

none_open :
    (id : String) (n : ℤ) (output : Option String) (now : ℤ) (ss : List WorkflowStep)
    → count
        (λ s. is_step id n s && is_open s.status)
        (update
          (λ s. is_step id n s && is_open s.status)
          (refinished StepStatus.completed output now)
          ss)
      ≡ 0
none_open id n output now [] = refl
none_open id n output now (s ∷ ss) = ground (arith, none_open id n output now ss)

still_has :
    (id : String) (n : ℤ) (p : WorkflowStep → Bool) (status : StepStatus) (output : Option String)
    (now : ℤ) (ss : List WorkflowStep)
    → has_step id n (update p (refinished status output now) ss) ≡ has_step id n ss
still_has id n p status output now [] = refl
still_has id n p status output now (s ∷ ss) = ground (arith, still_has id n p status output now ss)

has_step-append :
    (id : String) (n : ℤ) (ss : List WorkflowStep) (s : WorkflowStep)
    → is_step id n s ≡ true
    → has_step id n (ss ++ s ∷ []) ≡ true
has_step-append id n [] s h = ground arith
has_step-append id n (r ∷ ss) s h = ground (arith, has_step-append id n ss s)

eqb_ℤ_refl : (n : ℤ) → eqb_ℤ n n ≡ true
eqb_ℤ_refl n = ground arith

no_step_open :
    (id : String) (n : ℤ) (ss : List WorkflowStep)
    → has_step id n ss ≡ false
    → count (λ s. is_step id n s && is_open s.status) ss ≡ 0
no_step_open id n [] h = refl
no_step_open id n (s ∷ ss) h = ground (arith, no_step_open id n ss)

pub checkpointed-is_done :
    (id : String) (n : ℤ) (input output : Option String) (now : ℤ) (ss : List WorkflowStep)
    → is_done id n (checkpointed id n input output now ss) ≡ true
checkpointed-is_done id n input output now ss = elim (Bool-cases (has_step id n ss)) [
  | inl k ↦ rw k ground (
    arith,
    none_open id n output now ss,
    still_has id n (λ s. is_step id n s && is_open s.status) StepStatus.completed output now ss,
  )
  | inr k ↦
      let row = finished_row StepStatus.completed id n input output now in
      let there = has_step-append id n ss row (rw (eq_refl id) (eqb_ℤ_refl n)) in
      let closed = no_step_open id n ss k in
      let more = count-append (λ s. is_step id n s && is_open s.status) ss (row ∷ []) in
      rw k ground arith
]

-- Whether a worker owns the lease of a workflow of the table.
abbrev pub owns : String → String → Db → Bool
owns worker id d = elim (lookup id d.workflows) [
  | none ↦ false
  | some w ↦ is_owner worker w.lease_owner
]

-- For a checkpointed step CompleteStep is refused, whoever calls it.
complete_step-refused :
    (p : Platform) (now : ℤ) (id worker : String) (n : ℤ) (input output : Value) (d : Db)
    → is_done id n d.workflow_steps ≡ true
    → (e : Error) × (Step.complete_step p now id worker n input output (quiet d) ≡ (err e, quiet d))
      × ((e ≡ step_already_completed) ⊎ (owns worker id d ≡ false))
complete_step-refused p now id worker n input output d k =
    elim (Option-cases (lookup id d.workflows)) [
      | inl e ↦
          (_, complete_step_missing p now id worker n input output d e, inr (rw (e, owns) refl))
      | inr (w, e) ↦ elim (Bool-cases (is_owner worker w.lease_owner)) [
        | inl h ↦ (_, complete_step_again p now id worker n input output d w e h k, inl refl)
        | inr h ↦
            (_, complete_step_mismatch p now id worker n input output d w e h, inr (rw (e, owns) h))
      ]
    ]

completing-WellFormed :
    (p : Platform) (now : ℤ) (id worker : String) (n : ℤ) (input output : Value) (d : Db)
    (w : Workflow)
    → IsWellFormed d
    → lookup id d.workflows ≡ some w
    → is_owner worker w.lease_owner ≡ true
    → is_done id n d.workflow_steps ≡ false
    → IsWellFormed (completing p now id worker n input output d)
completing-WellFormed p now id worker n input output d w wf e h k =
    let change : Change p d (Section.complete_step now id worker n input output)
        (completing p now id worker n input output d) =
      completes now id worker n input output w e h k in
    Change-WellFormed change wf

-- CompleteStep is exactly once: when the owner of the lease calls it for a step that is not
-- checkpointed, on well-formed tables and with a driver that refuses nothing, it returns nil and
-- advances the workflow's cursor by one. After any history from there without a FailStep of the
-- step, whatever the driver refuses in it, a further call for the step, by whichever worker and with
-- any clock and values, returns an error and changes nothing when the driver refuses nothing; the
-- error is ErrStepAlreadyCompleted unless that worker does not own the lease.
pub complete_step_once :
    (p : Platform) (now : ℤ) (id worker : String) (n : ℤ) (input output : Value) (d : Db)
    (w : Workflow)
    → IsWellFormed d
    → lookup id d.workflows ≡ some w
    → is_owner worker w.lease_owner ≡ true
    → is_done id n d.workflow_steps ≡ false
    → (cs : List Section) (faults : List Bool) → All (Spares id n) cs
    → (later : ℤ) (other : String) (input' output' : Value)
    → let e = completing p now id worker n input output d in
      let f = (history p cs (record (quiet e) { faults = faults })).db in
      (Step.complete_step p now id worker n input output (quiet d) ≡ (ok tt, quiet e))
      × (lookup id e.workflows
          ≡ some (record w {
            current_step = w.current_step + 1;
            updated_at = now;
            version = w.version + 1;
          }))
      × ((x : Error) × (Step.complete_step p later id other n input' output' (quiet f)
            ≡ (err x, quiet f))
          × ((x ≡ step_already_completed) ⊎ (owns other id f ≡ false)))
complete_step_once p now id worker n input output d w wf e h k cs faults spared later other i' o' =
    let moved : is_leased id worker w ≡ true =
      rw ((lookup_mem id d.workflows {w = w} e).1, eq_refl id) h in
    let after = completing p now id worker n input output d in
    let start : Session = record (quiet after) { faults = faults } in
    let done =
      checkpointed-is_done id n (json_string p input) (json_string p output) now d.workflow_steps in
    let kept =
      history_done id n p cs start refl
        (completing-WellFormed p now id worker n input output d w wf e h k) done spared in
    (
      complete_step_lem p now id worker n input output d w e h k,
      lookup-update (is_leased id worker) (advanced now) (λ x. refl) id d.workflows {w = w} e
          ∙ rw moved refl,
      complete_step-refused p later id other n i' o' (history p cs start).db kept,
    )

reopened :
    (id : String) (n : ℤ) (output : Option String) (now : ℤ) (ss : List WorkflowStep)
    → has_step id n ss ≡ true
    → count
        (λ s. is_step id n s && is_open s.status)
        (update (is_step id n) (refinished StepStatus.failed output now) ss)
      ≢ 0
reopened id n output now [] h = cc
reopened id n output now (s ∷ ss) h = elim (Bool-cases (is_step id n s)) [
  | inl k ↦ λ z. ground arith
  | inr k ↦ let rest = reopened id n output now ss (ground arith) in λ z. ground arith
]

-- FailStep does take a checkpoint away: after it, CompleteStep of the lease's owner succeeds once
-- more for a step that has been completed, and advances the cursor again.
pub fail_step_reopens :
    (p : Platform) (now later : ℤ) (id worker : String) (n : ℤ) (input output : Value)
    (message : String) (d : Db) (w : Workflow)
    → lookup id d.workflows ≡ some w
    → is_owner worker w.lease_owner ≡ true
    → is_done id n d.workflow_steps ≡ true
    → (Step.fail_step p now id worker n input message (quiet d)
        ≡ (ok tt, quiet (failing p now id n input message d)))
      × (Step.complete_step p later id worker n input output
            (quiet (failing p now id n input message d))
          ≡ (
            ok tt,
            quiet
                (completing p later id worker n input output (failing p now id n input message d)),
          ))
unfolding Step.fail_step verify_lease
fail_step_reopens p now later id worker n input output message d w e h k =
    let has : has_step id n d.workflow_steps ≡ true = ground arith in
    let again = reopened id n (json_string p (failed_payload n message)) now d.workflow_steps has in
    (
      ground (
        arith,
        fail_step_tx_lem p now id n input message d (lookup_has id d.workflows {w = w} e),
      ),
      complete_step_lem p later id worker n input output (failing p now id n input message d) w e h
          (rw has ground arith),
    )
