-- ===== src/Invariant/Moves/Sound.antt =====
-- Every step of the database moves a workflow's row as the state machine allows.
use mathlib.Core.List.{Memᴰ}
use sqlite_durable_workflow.Common.{
  String, ℤ, Bool, true, false, List, [], ◌∷◌, some, ◌≡◌, refl, sym, ap, ◌∙◌, arith, Bool-cases,
  inl, inr, eq_of_test, subst, update, ◌||◌, if◌then◌else◌,
}
use sqlite_durable_workflow.Types.{
  Workflow, Timer, EventType, Status, queued, running, waiting, completed, failed,
}
use sqlite_durable_workflow.Store.Db.{Db, is_workflow, lookup}
use sqlite_durable_workflow.Store.Platform.{Platform}
use sqlite_durable_workflow.Store.Lookup.{lookup-append_old, lookup-update, lookup_mem}
use sqlite_durable_workflow.Section.{Section, acquire, release, fire}
use sqlite_durable_workflow.Effect.Timers.{firing, firing_all, firing_timers_mem}
use sqlite_durable_workflow.Timer.{firing_timers, is_waiting_for, is_abandoned}
use sqlite_durable_workflow.Workflow.{
  is_running, is_leased, grant, is_eligible, is_status, renewed, requeued, paused, finished,
  lease_end,
}
use sqlite_durable_workflow.Step.{advanced}
use sqlite_durable_workflow.Change.{
  Change, stays, creates, acquires, renews, releases, pauses, finishes, starts, completes, fails,
  sends, takes, times, fires, expires, Ending, by_success, by_failure,
}
use sqlite_durable_workflow.Invariant.{IsRow, IsWellFormed, is_terminal, is_live}
use sqlite_durable_workflow.Invariant.Rows.{All-mem, same_row, eligible_unended}
use sqlite_durable_workflow.Invariant.Leased.{waiting_status}
use sqlite_durable_workflow.Invariant.Moves.{
  Move, stay, start, wake, pause, give_back, give_up, succeed, end_failed, ring, lapse, Follows,
  Follows-by, Follows-row, Follows-same, Successor, chosen-Follows,
}

module _ (c : Section) (id : String) (ws : List Workflow) (w : Workflow) where
  update-Follows :
      (p : Workflow → Bool) (f : Workflow → Workflow)
      → ((v : Workflow) → (f v).workflow_id ≡ v.workflow_id)
      → lookup id ws ≡ some w
      → (p w ≡ true → Follows c w (f w))
      → (v : Workflow) × (lookup id (update p f ws) ≡ some v) × Follows c w v
  update-Follows p f keeps e h = (
    if p w then f w else w,
    lookup-update p f keeps id ws {w = w} e,
    chosen-Follows c (p w) w (f w) h,
  )

-- Some timer of the list belongs to the workflow.
abbrev rings : List Timer → Workflow → Bool
rings [] w = false
rings (t ∷ ts) w = is_workflow t.workflow_id w || rings ts w

either_way : (b : Bool) (w : Workflow) → (if b then w else w) ≡ w
either_way true w = refl
either_way false w = refl

fired_row :
    (id : String) (now : ℤ) (ts : List Timer) (d : Db) (w : Workflow)
    → lookup id d.workflows ≡ some w
    → lookup id (firing_all now ts d).workflows ≡ some (if rings ts w then requeued now w else w)
fired_row id now [] d w e = e
fired_row id now (t ∷ ts) d w e =
    let first =
      lookup-update (is_workflow t.workflow_id) (requeued now) (λ x. refl) id d.workflows {w = w}
        e in
    elim (Bool-cases (is_workflow t.workflow_id w)) [
      | inl k ↦
          fired_row id now ts (firing now t d) (requeued now w) (first ∙ rw k refl)
          ∙ rw k (ap some (either_way (rings ts (requeued now w)) (requeued now w)))
      | inr k ↦ rw k (fired_row id now ts (firing now t d) w (first ∙ rw k refl))
    ]

ringing_waits :
    (id : String) (ws : List Workflow) (w : Workflow) (ts : List Timer)
    → lookup id ws ≡ some w
    → ((t : Timer) → Memᴰ t ts → is_waiting_for t.workflow_id ws ≡ true)
    → rings ts w ≡ true
    → w.status ≡ waiting
ringing_waits id ws w [] e h r = ground arith
ringing_waits id ws w (t ∷ ts) e h r = elim (Bool-cases (is_workflow t.workflow_id w)) [
  | inl k ↦
      let same : t.workflow_id ≡ id =
        sym (eq_of_test w.workflow_id t.workflow_id k) ∙ (lookup_mem id ws {w = w} e).1 in
      let waits : is_status w.status waiting ≡ true =
        sym (waiting_status id ws w e)
        ∙ subst (λ i. is_waiting_for i ws ≡ true) same (h t (Memᴰ.head refl)) in
      ground arith
  | inr k ↦ ringing_waits id ws w ts e (λ u m. h u (Memᴰ.tail m)) (ground arith)
]

acquired-Move :
    {now : ℤ} {worker : String} {duration : ℤ} (s : Status)
    → is_terminal s ≡ false
    → Move (acquire now worker duration) s running
acquired-Move queued h = start
acquired-Move waiting h = wake
acquired-Move running h = stay
acquired-Move completed h = ground arith
acquired-Move failed h = ground arith

released-Move :
    {now : ℤ} {id worker : String} (s : Status)
    → is_live s ≡ true
    → Move (release now id worker) s queued
released-Move running h = give_back
released-Move waiting h = give_up
released-Move queued h = ground arith
released-Move completed h = ground arith
released-Move failed h = ground arith

running-Move : {c : Section} (s t : Status) → Move c running t → s ≡ running → Move c s t
running-Move {c} s t m e = subst (λ x. Move c x t) (sym e) m

waiting-Move : {now : ℤ} (s : Status) → s ≡ waiting → Move (fire now) s queued
waiting-Move {now} s e = subst (λ x. Move (fire now) x queued) (sym e) ring

finished-Move :
    {now : ℤ} {id worker : String} {c : Section} {status : Status} {event_type : EventType}
    → Ending now id worker c status event_type
    → Move c running status
finished-Move by_success = succeed
finished-Move by_failure = end_failed

-- The row of a key that a step leaves follows the row before it.
pub Change-Follows :
    {p : Platform} {d f : Db} {c : Section} (id : String) (w : Workflow)
    → Change p d c f
    → IsWellFormed d
    → lookup id d.workflows ≡ some w
    → Successor c id w f
Change-Follows {c} id w stays wf e = (w, e, Follows-same c w)
Change-Follows {d} {c} id w (creates now j ty h) wf e =
    (w, lookup-append_old id d.workflows _ {w = w} e, Follows-same c w)
Change-Follows {p} {d} {c} id w (acquires now worker duration v h m) wf e =
    update-Follows c id d.workflows w (is_workflow v.workflow_id)
      (grant worker (lease_end p now duration) now) (λ x. refl) e
      λ k.
        let same =
          same_row w v d.workflows wf.unique (lookup_mem id d.workflows {w = w} e).0 m
            (eq_of_test w.workflow_id v.workflow_id k) in
        Follows-by c w (grant worker (lease_end p now duration) now w) 0 1
          (acquired-Move w.status (
            eligible_unended now d.workflow_timers w
              (All-mem IsRow d.workflows wf.rows (lookup_mem id d.workflows {w = w} e).0)
              (ap (is_eligible now d.workflow_timers) same ∙ h)))
          refl refl (omega arith) (omega arith) (omega arith) (omega arith)
Change-Follows {p} {d} {c} id w (renews now j worker duration) wf e =
    update-Follows c id d.workflows w (is_running j worker) (renewed (lease_end p now duration) now)
      (λ x. refl) e λ k. Follows-row c w _ stay refl refl refl refl
Change-Follows {d} {c} id w (releases now j worker) wf e =
    update-Follows c id d.workflows w (is_leased j worker) (requeued now) (λ x. refl) e
      λ k.
        let row = All-mem IsRow d.workflows wf.rows (lookup_mem id d.workflows {w = w} e).0 in
        Follows-row c w (requeued now w) (released-Move w.status (ground arith)) refl refl refl refl
Change-Follows {d} {c} id w (pauses now j worker) wf e =
    update-Follows c id d.workflows w (is_running j worker) (paused now) (λ x. refl) e
      λ k.
        Follows-row c w (paused now w) (running-Move w.status waiting pause (ground arith)) refl
          refl refl refl
Change-Follows {d} {c} id w (finishes c' status event_type now j worker ending h) wf e =
    update-Follows c id d.workflows w (is_running j worker) (finished status now) (λ x. refl) e
      λ k.
        Follows-by c w (finished status now w) 0 1
          (running-Move w.status status (finished-Move ending) (ground arith)) refl refl
          (omega arith) (omega arith) (omega arith) (omega arith)
Change-Follows {c} id w (starts now j n input h) wf e = (w, e, Follows-same c w)
Change-Follows {d} {c} id w (completes now j worker n input output v i h k) wf e =
    update-Follows c id d.workflows w (is_leased j worker) (advanced now) (λ x. refl) e
      λ l.
        Follows-by c w (advanced now w) 1 1 stay refl refl (omega arith) (omega arith) (omega arith)
          (omega arith)
Change-Follows {c} id w (fails now j n input message h) wf e = (w, e, Follows-same c w)
Change-Follows {c} id w (sends now j signal_type payload h) wf e = (w, e, Follows-same c w)
Change-Follows {c} id w (takes j s h m) wf e = (w, e, Follows-same c w)
Change-Follows {c} id w (times j wake_at h) wf e = (w, e, Follows-same c w)
Change-Follows {p} {d} {c} id w (fires now) wf e = (
  if rings (firing_timers p now d) w then requeued now w else w,
  fired_row id now (firing_timers p now d) d w e,
  chosen-Follows c (rings (firing_timers p now d) w) w (requeued now w) λ r.
      Follows-row c w (requeued now w)
        (waiting-Move w.status (
          ringing_waits id d.workflows w (firing_timers p now d) e
            (λ t m. ground (arith, firing_timers_mem p now d t m)) r))
        refl refl refl refl,
)
Change-Follows {d} {c} id w (expires now) wf e =
    update-Follows c id d.workflows w (is_abandoned now) (requeued now) (λ x. refl) e
      λ k.
        Follows-row c w (requeued now w) (running-Move w.status queued lapse (ground arith)) refl
          refl refl refl
