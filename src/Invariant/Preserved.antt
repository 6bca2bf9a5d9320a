-- ===== src/Invariant/Preserved.antt =====
-- Every step of the relation keeps the tables well formed.
use mathlib.Core.List.{Memᴰ}
use sqlite_durable_workflow.Common.{
  String, ℕ, suc, ◌≢◌, ℤ, Bool, true, false, List, [], ◌∷◌, ◌++◌, Option, none, some, ◌≡◌, refl,
  sym, ◌∙◌, arith, update, ◌==◌, Bool-cases, inl, inr, eq_of_test, test_of_eq, subst, count,
}
use sqlite_durable_workflow.Types.{
  Workflow, WorkflowEvent, EventType, Timer, Status, timer_fired, step_completed,
}
use sqlite_durable_workflow.Store.Db.{Db, has_workflow, is_workflow, is_owner, lookup}
use sqlite_durable_workflow.Store.Platform.{Platform}
use sqlite_durable_workflow.Store.Lookup.{Unique, mem_has, lookup_mem, lookup_has}
use sqlite_durable_workflow.Section.{Section}
use sqlite_durable_workflow.Workflow.{
  lease_end, is_running, is_leased, finished, requeued, renewed, paused,
}
use sqlite_durable_workflow.Step.{advanced}
use sqlite_durable_workflow.Timer.{is_abandoned, firing_timers}
use sqlite_durable_workflow.Effect.Timers.{
  firing, firing_all, firing_timers_mem, Joined, Joined-update, firing_Joined,
}
use sqlite_durable_workflow.Change.{
  Change, stays, creates, acquires, renews, releases, pauses, finishes, starts, completes, fails,
  sends, takes, times, fires, expires, Ending, by_success, by_failure,
}
use sqlite_durable_workflow.Invariant.{
  IsRow, is_completion, is_bump, is_terminal, WellFormed, IsWellFormed,
}
use sqlite_durable_workflow.Invariant.Rows.{
  All-update, All-of_mem, requeued-IsRow, renewed-IsRow, released-IsRow, paused-IsRow,
  abandoned-IsRow, finished-IsRow, AllUnended, requeued-AllUnended, waiting-Unended,
}
use sqlite_durable_workflow.Invariant.Step.{WellFormed-update, WellFormed-logged, WellFormed-event}
use sqlite_durable_workflow.Invariant.Entries.{
  count_mem, row_test, creates-WellFormed, next_event, acquires-WellFormed,
}

-- An UPDATE whose test holds of exactly the row of `id`.
exactly :
    (q : Workflow → Bool) (id : String) (w v : Workflow) (ws : List Workflow)
    → ((x : Workflow) → q x ≡ true → is_workflow id x ≡ true)
    → Unique ws
    → Memᴰ w ws
    → Memᴰ v ws
    → q w ≡ true
    → q v ≡ (id == v.workflow_id)
exactly q id w v ws narrow u m n h = elim (Bool-cases (id == v.workflow_id)) [
  | inl e ↦
      row_test q w v ws u m n
        (sym (eq_of_test id v.workflow_id e) ∙ sym (eq_of_test w.workflow_id id (narrow w h))) h
      ∙ sym e
  | inr e ↦ elim (Bool-cases (q v)) [
    | inr k ↦ k ∙ sym e
    | inl k ↦ cc (e, test_of_eq id v.workflow_id (sym (eq_of_test v.workflow_id id (narrow v k))))
  ]
]

ending_events :
    {now : ℤ} {id worker : String} {c : Section} {status : Status} {event_type : EventType}
    → Ending now id worker c status event_type
    → (is_terminal status ≡ true) × (is_completion event_type ≡ false) × (is_bump event_type ≡ true)
ending_events by_success = (refl, refl, refl)
ending_events by_failure = (refl, refl, refl)

-- `CompleteWorkflow` and `FailWorkflow`.
finishes-WellFormed :
    (status : Status) (event_type : EventType) (now : ℤ) (id worker : String) (k : ℕ)
    (ws : List Workflow) (es : List WorkflowEvent) (c : Section)
    → Ending now id worker c status event_type
    → count (is_running id worker) ws ≢ 0
    → WellFormed ws es
    → WellFormed
        (update (is_running id worker) (finished status now) ws)
        (es ++ next_event k id event_type none now es ∷ [])
finishes-WellFormed status event_type now id worker k ws es c ending h wf =
    let (w, m, r) = count_mem (is_running id worker) ws h in
    let (terminal, no_step, bump) = ending_events ending in
    WellFormed-logged (is_running id worker) (finished status now) ws es k id event_type none now
      (λ v. refl)
      (λ v n.
        ground
          (arith, exactly (is_running id worker) id w v ws (λ x e. ground arith) wf.unique m n r))
      (All-update IsRow (is_running id worker) (finished status now)
        (λ v i _. finished-IsRow status now v terminal) ws wf.rows)
      (subst (λ j. has_workflow j ws ≡ true) (eq_of_test w.workflow_id id (ground arith))
        (mem_has w ws m))
      wf

-- `CompleteStep`.
completes-WellFormed :
    (now : ℤ) (id worker : String) (payload : Option String) (k : ℕ) (w : Workflow)
    (ws : List Workflow) (es : List WorkflowEvent)
    → lookup id ws ≡ some w
    → is_owner worker w.lease_owner ≡ true
    → WellFormed ws es
    → WellFormed
        (update (is_leased id worker) (advanced now) ws)
        (es ++ next_event k id step_completed payload now es ∷ [])
completes-WellFormed now id worker payload k w ws es e h wf =
    let (m, key) = lookup_mem id ws {w = w} e in
    let r : is_leased id worker w ≡ true = ground (arith, test_of_eq w.workflow_id id key) in
    WellFormed-logged (is_leased id worker) (advanced now) ws es k id step_completed payload now
      (λ v. refl)
      (λ v n.
        ground
          (arith, exactly (is_leased id worker) id w v ws (λ x q. ground arith) wf.unique m n r))
      (All-update IsRow (is_leased id worker) (advanced now) (λ v i _. i) ws wf.rows)
      (lookup_has id ws {w = w} e) wf

-- The loop of `fireExpiredTimers`.
firing_all-WellFormed :
    (now : ℤ) (ts : List Timer) (d : Db)
    → AllUnended ts d.workflows
    → Joined ts d.workflows
    → IsWellFormed d
    → IsWellFormed (firing_all now ts d)
firing_all-WellFormed now [] d u j wf = wf
firing_all-WellFormed now (t ∷ ts) d u j wf =
    firing_all-WellFormed now ts (firing now t d)
      (requeued-AllUnended (is_workflow t.workflow_id) now ts d.workflows u.1)
      (Joined-update (is_workflow t.workflow_id) now ts d.workflows j.1)
      (WellFormed-logged (is_workflow t.workflow_id) (requeued now) d.workflows d.workflow_events
        (suc d.last_event_id) t.workflow_id timer_fired none now (λ v. refl) (λ v _. ground arith)
        (requeued-IsRow t.workflow_id now d.workflows u.0 wf.rows) j.0 wf)

fires-WellFormed :
    (p : Platform) (now : ℤ) (d : Db)
    → IsWellFormed d
    → IsWellFormed (firing_all now (firing_timers p now d) d)
fires-WellFormed p now d wf =
    firing_all-WellFormed now (firing_timers p now d) d
      (All-of_mem _ _ λ t m.
        waiting-Unended t.workflow_id d.workflows wf.unique
          (ground (arith, firing_timers_mem p now d t m)))
      (firing_Joined p now d) wf

-- Every step keeps the tables well formed.
pub Change-WellFormed :
    {p : Platform} {d e : Db} {c : Section} → Change p d c e → IsWellFormed d → IsWellFormed e
Change-WellFormed stays wf = wf
Change-WellFormed {d} (creates now id ty h) wf =
    creates-WellFormed now id ty (suc d.last_event_id) d.workflows d.workflow_events h wf
Change-WellFormed {d} (acquires now worker duration w h m) wf =
    acquires-WellFormed w worker _ now d.workflow_timers (suc d.last_event_id) d.workflows
      d.workflow_events h m wf
Change-WellFormed {p} {d} (renews now id worker duration) wf =
    WellFormed-update (is_running id worker) (renewed (lease_end p now duration) now) d.workflows
      d.workflow_events (λ w. refl) (λ w r. r)
      (All-update IsRow (is_running id worker) (renewed (lease_end p now duration) now)
        (renewed-IsRow id worker (lease_end p now duration) now) d.workflows wf.rows)
      wf
Change-WellFormed {d} (releases now id worker) wf =
    WellFormed-update (is_leased id worker) (requeued now) d.workflows d.workflow_events (λ w. refl)
      (λ w r. r)
      (All-update IsRow (is_leased id worker) (requeued now) (released-IsRow id worker now)
        d.workflows wf.rows)
      wf
Change-WellFormed {d} (pauses now id worker) wf =
    WellFormed-update (is_running id worker) (paused now) d.workflows d.workflow_events (λ w. refl)
      (λ w r. r)
      (All-update IsRow (is_running id worker) (paused now) (paused-IsRow id worker now) d.workflows
        wf.rows)
      wf
Change-WellFormed {d} (finishes c status event_type now id worker ending h) wf =
    finishes-WellFormed status event_type now id worker (suc d.last_event_id) d.workflows
      d.workflow_events c ending h wf
Change-WellFormed {d} (starts now id n input h) wf =
    WellFormed-event d.workflows d.workflow_events (suc d.last_event_id) id _ _ now refl refl h wf
Change-WellFormed {d} (completes now id worker n input output w e h k) wf =
    completes-WellFormed now id worker _ (suc d.last_event_id) w d.workflows d.workflow_events e h
      wf
Change-WellFormed {d} (fails now id n input message h) wf =
    WellFormed-event d.workflows d.workflow_events (suc d.last_event_id) id _ _ now refl refl h wf
Change-WellFormed {d} (sends now id signal_type payload h) wf =
    WellFormed-event d.workflows d.workflow_events (suc d.last_event_id) id _ _ now refl refl h wf
Change-WellFormed (takes id s h m) wf = wf
Change-WellFormed (times id wake_at h) wf = wf
Change-WellFormed {p} {d} (fires now) wf = fires-WellFormed p now d wf
Change-WellFormed {d} (expires now) wf =
    WellFormed-update (is_abandoned now) (requeued now) d.workflows d.workflow_events (λ w. refl)
      (λ w r. r)
      (All-update IsRow (is_abandoned now) (requeued now) (abandoned-IsRow now) d.workflows wf.rows)
      wf
