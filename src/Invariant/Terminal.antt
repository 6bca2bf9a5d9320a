-- ===== src/Invariant/Terminal.antt =====
-- A workflow that has ended is never written again.
use sqlite_durable_workflow.Common.{
  String, ℤ, Bool, true, false, List, [], ◌∷◌, some, ◌≡◌, refl, ◌∙◌, arith, update, ◌&&◌,
}
use sqlite_durable_workflow.Types.{Workflow, Timer}
use sqlite_durable_workflow.Store.Db.{Db, is_workflow, lookup}
use sqlite_durable_workflow.Store.Platform.{Platform}
use sqlite_durable_workflow.Store.Lookup.{lookup-update, lookup-append_old, lookup_mem}
use sqlite_durable_workflow.Section.{Section}
use sqlite_durable_workflow.Effect.Timers.{firing, firing_all, firing_timers_mem}
use sqlite_durable_workflow.Timer.{firing_timers}
use sqlite_durable_workflow.Workflow.{
  is_running, is_leased, grant, renewed, requeued, paused, finished, lease_end,
}
use sqlite_durable_workflow.Step.{advanced}
use sqlite_durable_workflow.Timer.{is_abandoned}
use sqlite_durable_workflow.Change.{
  Change, stays, creates, acquires, renews, releases, pauses, finishes, starts, completes, fails,
  sends, takes, times, fires, expires,
}
use sqlite_durable_workflow.Invariant.{IsRow, is_terminal, IsWellFormed}
use sqlite_durable_workflow.Invariant.Rows.{
  All-mem, All-of_mem, Unended, Unended-mem, AllUnended, requeued-AllUnended, waiting-Unended,
  eligible_unended,
}

-- An UPDATE whose test fails at the row of a key leaves that row.
pub untouched :
    (p : Workflow → Bool) (f : Workflow → Workflow)
    → ((w : Workflow) → (f w).workflow_id ≡ w.workflow_id)
    → (id : String) (ws : List Workflow) (w : Workflow) → lookup id ws ≡ some w
    → p w ≡ false
    → lookup id (update p f ws) ≡ some w
untouched p f keeps id ws w e h = lookup-update p f keeps id ws {w = w} e ∙ rw h refl

module _ (id : String) (w : Workflow) (ended : is_terminal w.status ≡ true) where
  -- The row of an ended workflow is not one that `Unended` speaks of.
  other_row :
      (j : String) (ws : List Workflow)
      → lookup id ws ≡ some w
      → Unended j ws
      → is_workflow j w ≡ false
  other_row j ws e u =
      let clash =
        All-mem (λ x. (is_workflow j x && is_terminal x.status) ≡ false) ws u
          (lookup_mem id ws {w = w} e).0 in
      ground arith

  fired_untouched :
      (now : ℤ) (ts : List Timer) (d : Db)
      → AllUnended ts d.workflows
      → lookup id d.workflows ≡ some w
      → lookup id (firing_all now ts d).workflows ≡ some w
  fired_untouched now [] d u e = e
  fired_untouched now (t ∷ ts) d u e =
      fired_untouched now ts (firing now t d)
        (requeued-AllUnended (is_workflow t.workflow_id) now ts d.workflows u.1)
        (untouched (is_workflow t.workflow_id) (requeued now) (λ x. refl) id d.workflows w e
          (other_row t.workflow_id d.workflows e u.0))

  pub Change-terminal :
      {p : Platform} {d f : Db} {c : Section}
      → Change p d c f
      → IsWellFormed d
      → lookup id d.workflows ≡ some w
      → lookup id f.workflows ≡ some w
  Change-terminal stays wf e = e
  Change-terminal {d} (creates now j ty h) wf e = lookup-append_old id d.workflows _ {w = w} e
  Change-terminal {d} (acquires now worker duration v h m) wf e =
      untouched (is_workflow v.workflow_id) (grant worker _ now) (λ x. refl) id d.workflows w e
        (other_row v.workflow_id d.workflows e (
          Unended-mem v d.workflows wf.unique m
            (eligible_unended now d.workflow_timers v (All-mem IsRow d.workflows wf.rows m) h)))
  Change-terminal {p} {d} (renews now j worker duration) wf e =
      untouched (is_running j worker) (renewed (lease_end p now duration) now) (λ x. refl) id
        d.workflows w e (ground arith)
  Change-terminal {d} (releases now j worker) wf e =
      let row = All-mem IsRow d.workflows wf.rows (lookup_mem id d.workflows {w = w} e).0 in
      untouched (is_leased j worker) (requeued now) (λ x. refl) id d.workflows w e (ground arith)
  Change-terminal {d} (pauses now j worker) wf e =
      untouched (is_running j worker) (paused now) (λ x. refl) id d.workflows w e (ground arith)
  Change-terminal {d} (finishes c status event_type now j worker ending h) wf e =
      untouched (is_running j worker) (finished status now) (λ x. refl) id d.workflows w e
        (ground arith)
  Change-terminal (starts now j n input h) wf e = e
  Change-terminal {d} (completes now j worker n input output v g h k) wf e =
      let row = All-mem IsRow d.workflows wf.rows (lookup_mem id d.workflows {w = w} e).0 in
      untouched (is_leased j worker) (advanced now) (λ x. refl) id d.workflows w e (ground arith)
  Change-terminal (fails now j n input message h) wf e = e
  Change-terminal (sends now j signal_type payload h) wf e = e
  Change-terminal (takes j s h m) wf e = e
  Change-terminal (times j wake_at h) wf e = e
  Change-terminal {p} {d} (fires now) wf e =
      fired_untouched now (firing_timers p now d) d
        (All-of_mem _ (firing_timers p now d) λ t m.
          waiting-Unended t.workflow_id d.workflows wf.unique
            (ground (arith, firing_timers_mem p now d t m)))
        e
  Change-terminal {d} (expires now) wf e =
      untouched (is_abandoned now) (requeued now) (λ x. refl) id d.workflows w e (ground arith)
