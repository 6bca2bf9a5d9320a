-- ===== src/Invariant/Leased.antt =====
-- A running workflow within its lease is written by its owner alone.
use sqlite_durable_workflow.Common.{
  String, ℤ, ltb_ℤ, Bool, true, false, List, [], ◌∷◌, Option, none, some, ◌≡◌, refl, sym, ap, ◌∙◌,
  arith, Bool-cases, inl, inr, eq_of_test, test_of_eq, subst,
}
use sqlite_durable_workflow.Types.{Workflow, Timer, Status, EventType, running, waiting}
use sqlite_durable_workflow.Store.Db.{Db, is_workflow, is_owner, lookup}
use sqlite_durable_workflow.Store.Platform.{Platform}
use sqlite_durable_workflow.Store.Lookup.{lookup-append_old, lookup_mem}
use sqlite_durable_workflow.Section.{Section, acquire, renew, release, complete, fail, wait, expire}
use sqlite_durable_workflow.Effect.Timers.{firing, firing_all, firing_timers_mem}
use sqlite_durable_workflow.Timer.{firing_timers, is_waiting_for, is_abandoned}
use sqlite_durable_workflow.Workflow.{
  is_running, is_leased, grant, is_eligible, is_status, renewed, requeued, paused, finished,
  lease_end,
}
use sqlite_durable_workflow.Step.{advanced}
use sqlite_durable_workflow.Change.{
  Change, stays, creates, acquires, renews, releases, pauses, finishes, starts, completes, fails,
  sends, takes, times, fires, expires, Ending, by_success, by_failure,
}
use sqlite_durable_workflow.Invariant.{All, IsWellFormed}
use sqlite_durable_workflow.Invariant.Rows.{All-of_mem, same_row}
use sqlite_durable_workflow.Invariant.Terminal.{untouched}

-- The worker that a section names, and the clock's reading where a section goes by the clock.
abbrev pub worker_of : Section → Option String
worker_of (acquire now worker duration) = some worker
worker_of (renew now id worker duration) = some worker
worker_of (release now id worker) = some worker
worker_of (complete now id worker) = some worker
worker_of (fail now id worker) = some worker
worker_of (wait now id worker) = some worker
worker_of (Section.complete_step now id worker n input output) = some worker
worker_of _ = none

abbrev pub time_of : Section → Option ℤ
time_of (acquire now worker duration) = some now
time_of (expire now) = some now
time_of _ = none

abbrev pub is_before : ℤ → Option ℤ → Bool
is_before until none = true
is_before until (some now) = ltb_ℤ now until

-- A section of another worker or of the scheduler, before a lease has run out.
abbrev pub Foreign : String → ℤ → Section → Type 0
Foreign owner until c =
    (is_owner owner (worker_of c) ≡ false) × (is_before until (time_of c) ≡ true)

pub waiting_status :
    (id : String) (ws : List Workflow) (w : Workflow)
    → lookup id ws ≡ some w
    → is_waiting_for id ws ≡ is_status w.status waiting
waiting_status id [] w e = cc
waiting_status id (v ∷ ws) w e = ground (arith, waiting_status id ws w)

not_owned :
    (owner worker : String) (held : Option String)
    → held ≡ some owner
    → is_owner owner (some worker) ≡ false
    → is_owner worker held ≡ false
not_owned owner worker held o h = elim (Bool-cases (is_owner worker held)) [
  | inr k ↦ k
  | inl k ↦
      let same : owner ≡ worker =
        eq_of_test owner worker (subst (λ x. is_owner worker x ≡ true) o k) in
      let clash : is_owner owner (some worker) ≡ true = test_of_eq worker owner (sym same) in
      ground arith
]

ending_worker :
    {now : ℤ} {id worker : String} {c : Section} {status : Status} {event_type : EventType}
    → Ending now id worker c status event_type
    → worker_of c ≡ some worker
ending_worker by_success = refl
ending_worker by_failure = refl

module _ (id : String) (w : Workflow) where
  passed_by :
      (now : ℤ) (ts : List Timer) (d : Db)
      → All (λ t. is_workflow t.workflow_id w ≡ false) ts
      → lookup id d.workflows ≡ some w
      → lookup id (firing_all now ts d).workflows ≡ some w
  passed_by now [] d u e = e
  passed_by now (t ∷ ts) d u e =
      passed_by now ts (firing now t d) u.1
        (untouched (is_workflow t.workflow_id) (requeued now) (λ x. refl) id d.workflows w e u.0)

  not_waited_for :
      (j : String) (ws : List Workflow)
      → lookup id ws ≡ some w
      → w.status ≡ running
      → is_waiting_for j ws ≡ true
      → is_workflow j w ≡ false
  not_waited_for j ws e r h = elim (Bool-cases (is_workflow j w)) [
    | inr k ↦ k
    | inl k ↦
        let same : j ≡ id = sym (eq_of_test w.workflow_id j k) ∙ (lookup_mem id ws {w = w} e).1 in
        let waits : is_status w.status waiting ≡ true =
          sym (waiting_status id ws w e) ∙ subst (λ i. is_waiting_for i ws ≡ true) same h in
        ground arith
  ]

  pub Change-leased :
      {p : Platform} {d f : Db} {c : Section} (owner : String) (until : ℤ)
      → Change p d c f
      → Foreign owner until c
      → IsWellFormed d
      → w.status ≡ running
      → w.lease_owner ≡ some owner
      → w.lease_expires_at ≡ some until
      → lookup id d.workflows ≡ some w
      → lookup id f.workflows ≡ some w
  Change-leased owner until stays g wf r o x e = e
  Change-leased {d} owner until (creates now j ty h) g wf r o x e =
      lookup-append_old id d.workflows _ {w = w} e
  Change-leased {d} owner until (acquires now worker duration v h m) g wf r o x e =
      untouched (is_workflow v.workflow_id) (grant worker _ now) (λ y. refl) id d.workflows w e
        (elim (Bool-cases (is_workflow v.workflow_id w)) [
          | inr k ↦ k
          | inl k ↦
              let same =
                same_row w v d.workflows wf.unique (lookup_mem id d.workflows {w = w} e).0 m
                  (eq_of_test w.workflow_id v.workflow_id k) in
              let chosen : is_eligible now d.workflow_timers w ≡ true =
                ap (is_eligible now d.workflow_timers) same ∙ h in
              absurd (ground arith)
        ])
  Change-leased {p} {d} owner until (renews now j worker duration) g wf r o x e =
      untouched (is_running j worker) (renewed (lease_end p now duration) now) (λ y. refl) id
        d.workflows w e (let not = not_owned owner worker w.lease_owner o g.0 in ground arith)
  Change-leased {d} owner until (releases now j worker) g wf r o x e =
      untouched (is_leased j worker) (requeued now) (λ y. refl) id d.workflows w e
        (let not = not_owned owner worker w.lease_owner o g.0 in ground arith)
  Change-leased {d} owner until (pauses now j worker) g wf r o x e =
      untouched (is_running j worker) (paused now) (λ y. refl) id d.workflows w e
        (let not = not_owned owner worker w.lease_owner o g.0 in ground arith)
  Change-leased {d} owner until (finishes c status event_type now j worker ending h) g wf r o x e =
      untouched (is_running j worker) (finished status now) (λ y. refl) id d.workflows w e
        (let named : worker_of c ≡ some worker = ending_worker ending in
          let not =
            not_owned owner worker w.lease_owner o
              (subst (λ h. is_owner owner h ≡ false) named g.0) in
          ground arith)
  Change-leased owner until (starts now j n input h) g wf r o x e = e
  Change-leased {d} owner until (completes now j worker n input output v i h k) g wf r o x e =
      untouched (is_leased j worker) (advanced now) (λ y. refl) id d.workflows w e
        (let not = not_owned owner worker w.lease_owner o g.0 in ground arith)
  Change-leased owner until (fails now j n input message h) g wf r o x e = e
  Change-leased owner until (sends now j signal_type payload h) g wf r o x e = e
  Change-leased owner until (takes j s h m) g wf r o x e = e
  Change-leased owner until (times j wake_at h) g wf r o x e = e
  Change-leased {p} {d} owner until (fires now) g wf r o x e =
      passed_by now (firing_timers p now d) d
        (All-of_mem _ (firing_timers p now d) λ t m.
          not_waited_for t.workflow_id d.workflows e r
            (ground (arith, firing_timers_mem p now d t m)))
        e
  Change-leased {d} owner until (expires now) g wf r o x e =
      untouched (is_abandoned now) (requeued now) (λ y. refl) id d.workflows w e (ground arith)
