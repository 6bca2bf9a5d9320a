-- ===== src/Invariant/Cursor/Preserved.antt =====
-- Every step of the database keeps the cursors up with the checkpoints.
use mathlib.Core.List.{Memᴰ}
use sqlite_durable_workflow.Common.{
  String, ℤ, Bool, true, false, ◌==◌, List, [], ◌∷◌, Option, some, ◌≡◌, refl, sym, ◌∙◌, subst,
  arith, inl, inr, Bool-cases, update, if◌then◌else◌, eq_of_test, test_of_eq,
}
use sqlite_durable_workflow.Types.{Workflow, WorkflowStep, Timer}
use sqlite_durable_workflow.Store.Db.{Db, has_workflow, is_workflow, is_owner, lookup}
use sqlite_durable_workflow.Store.Platform.{Platform}
use sqlite_durable_workflow.Store.Lookup.{Unique, lookup_mem}
use sqlite_durable_workflow.Section.{Section}
use sqlite_durable_workflow.Workflow.{
  grant, requeued, renewed, paused, finished, lease_end, is_running, is_leased, new_workflow,
}
use sqlite_durable_workflow.Step.{advanced, json_string, failed_payload}
use sqlite_durable_workflow.Timer.{firing_timers, is_abandoned}
use sqlite_durable_workflow.Effect.Steps.{checkpointed}
use sqlite_durable_workflow.Effect.Timers.{firing, firing_all}
use sqlite_durable_workflow.Change.{
  Change, stays, creates, acquires, renews, releases, pauses, finishes, starts, completes, fails,
  sends, takes, times, fires, expires,
}
use sqlite_durable_workflow.Invariant.{All, IsWellFormed}
use sqlite_durable_workflow.Invariant.Rows.{All-append, All-update, All-mem, same_row}
use sqlite_durable_workflow.Invariant.Keys.{Distinct, Referring, IsKeyed}
use sqlite_durable_workflow.Invariant.Cursor.{
  checkpoints, Covers, Covers-map, checkpoints-started, checkpoints-failed, checkpoints-completed,
}

no_checkpoints :
    (id : String) (ws : List Workflow) (ss : List WorkflowStep)
    → has_workflow id ws ≡ false
    → Referring (λ s. s.workflow_id) ws ss
    → checkpoints id ss ≡ 0
no_checkpoints id ws [] h r = refl
no_checkpoints id ws (s ∷ ss) h r = elim (Bool-cases (s.workflow_id == id)) [
  | inr e ↦ let rest = no_checkpoints id ws ss h r.1 in ground arith
  | inl e ↦
      let there : has_workflow id ws ≡ true =
        subst (λ j. has_workflow j ws ≡ true) (eq_of_test s.workflow_id id e) r.0 in
      absurd (ground arith)
]

All-updated :
    (P : Workflow → Type 0) (p : Workflow → Bool) (f : Workflow → Workflow) (ws : List Workflow)
    → ((w : Workflow) → Memᴰ w ws → P (if p w then f w else w))
    → All P (update p f ws)
All-updated P p f [] h = tt
All-updated P p f (w ∷ ws) h =
    (h w (Memᴰ.head refl), All-updated P p f ws (λ v m. h v (Memᴰ.tail m)))

-- `CompleteStep`: the row that its lease check found is advanced.
completes-Covers :
    (id worker : String) (n : ℤ) (input output : Option String) (now : ℤ) (v : Workflow)
    (ws : List Workflow) (ss : List WorkflowStep)
    → Unique ws
    → Distinct ss
    → lookup id ws ≡ some v
    → is_owner worker v.lease_owner ≡ true
    → All (Covers ss) ws
    → All
        (Covers (checkpointed id n input output now ss))
        (update (is_leased id worker) (advanced now) ws)
completes-Covers id worker n input output now v ws ss u d e h covered =
    All-updated _ (is_leased id worker) (advanced now) ws λ w m.
      let (there, key) = lookup_mem id ws {w = v} e in
      let at_most = checkpoints-completed id w.workflow_id n input output now ss d in
      let before = All-mem (Covers ss) ws covered m in
      elim (Bool-cases (id == w.workflow_id)) [
        | inr g ↦ ground arith
        | inl g ↦
            let same : w ≡ v =
              same_row w v ws u m there (sym (eq_of_test id w.workflow_id g) ∙ sym key) in
            let leased : is_leased id worker w ≡ true =
              subst (λ x. is_leased id worker x ≡ true) (sym same)
                (ground (arith, test_of_eq v.workflow_id id key)) in
            ground arith
      ]

firing-Covers :
    (now : ℤ) (ts : List Timer) (d : Db)
    → All (Covers d.workflow_steps) d.workflows
    → All (Covers (firing_all now ts d).workflow_steps) (firing_all now ts d).workflows
firing-Covers now [] d h = h
firing-Covers now (t ∷ ts) d h =
    firing-Covers now ts (firing now t d)
      (All-update _ (is_workflow t.workflow_id) (requeued now) (λ w g _. g) d.workflows h)

-- Every step keeps the cursors up with the checkpoints.
pub Change-Covers :
    {p : Platform} {d f : Db} {c : Section}
    → Change p d c f
    → IsWellFormed d
    → IsKeyed d
    → All (Covers d.workflow_steps) d.workflows
    → All (Covers f.workflow_steps) f.workflows
Change-Covers stays wf k h = h
Change-Covers {d} (creates now id ty g) wf k h =
    All-append _ d.workflows (new_workflow id ty now) h
      (let none = no_checkpoints id d.workflows d.workflow_steps g k.steps in omega arith)
Change-Covers {p} {d} (acquires now worker duration w g m) wf k h =
    All-update _ (is_workflow w.workflow_id) (grant worker (lease_end p now duration) now)
      (λ v x _. x) d.workflows h
Change-Covers {p} {d} (renews now id worker duration) wf k h =
    All-update _ (is_running id worker) (renewed (lease_end p now duration) now) (λ v x _. x)
      d.workflows h
Change-Covers {d} (releases now id worker) wf k h =
    All-update _ (is_leased id worker) (requeued now) (λ v x _. x) d.workflows h
Change-Covers {d} (pauses now id worker) wf k h =
    All-update _ (is_running id worker) (paused now) (λ v x _. x) d.workflows h
Change-Covers {d} (finishes c status event_type now id worker ending g) wf k h =
    All-update _ (is_running id worker) (finished status now) (λ v x _. x) d.workflows h
Change-Covers {p} {d} (starts now id n input g) wf k h =
    Covers-map d.workflow_steps _ d.workflows
      (λ j. checkpoints-started id j n (json_string p input) now d.workflow_steps) h
Change-Covers {p} {d} (completes now id worker n input output w e g l) wf k h =
    completes-Covers id worker n (json_string p input) (json_string p output) now w d.workflows
      d.workflow_steps wf.unique k.step_keys e g h
Change-Covers {p} {d} (fails now id n input message g) wf k h =
    Covers-map d.workflow_steps _ d.workflows
      (λ j.
        checkpoints-failed id j n (json_string p input) (json_string p (failed_payload n message))
          now d.workflow_steps)
      h
Change-Covers (sends now id signal_type payload g) wf k h = h
Change-Covers (takes id s g m) wf k h = h
Change-Covers (times id wake_at g) wf k h = h
Change-Covers {p} {d} (fires now) wf k h = firing-Covers now (firing_timers p now d) d h
Change-Covers {d} (expires now) wf k h =
    All-update _ (is_abandoned now) (requeued now) (λ v x _. x) d.workflows h
