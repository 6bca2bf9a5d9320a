-- ===== src/Change/Sound.antt =====
-- Every section, and every history of sections under any faults, takes steps of the relation.
use mathlib.Core.List.{Memᴰ}
use sqlite_durable_workflow.Common.{
  String, ℤ, Bool, true, false, some, ◌≡◌, refl, sym, subst, inl, inr, arith, eqb, Bool-cases,
  Option-cases, if◌then◌else◌, count,
}
use sqlite_durable_workflow.Types.{Status, Signal, EventType, Value}
use sqlite_durable_workflow.Store.Db.{Db, has_workflow, is_owner, lookup}
use sqlite_durable_workflow.Store.Session.{Session, Result}
use sqlite_durable_workflow.Store.Atomic.{effect}
use sqlite_durable_workflow.Store.Platform.{Platform}
use sqlite_durable_workflow.Store.Lookup.{Unique}
use sqlite_durable_workflow.Store.Rows.{chosen_mem}
use sqlite_durable_workflow.Section.{
  Section, create, acquire, renew, release, complete, fail, wait, send, consume, add_timer, fire,
  expire, perform,
}
use sqlite_durable_workflow.Workflow.{
  create_workflow, next_eligible, acquire_lease, finish, complete_workflow, fail_workflow,
  is_running,
}
use sqlite_durable_workflow.Step.{start_step_tx, fail_step_tx, complete_step}
use sqlite_durable_workflow.Signal.{send_signal, consume_signal, next_signal, is_pending}
use sqlite_durable_workflow.Timer.{create_timer}
use sqlite_durable_workflow.Effect.Workflows.{
  create_workflow_lem, renew_lease_lem, release_lease_lem, mark_waiting_lem, finish_lem,
}
use sqlite_durable_workflow.Effect.Leases.{
  acquire_lease-none, acquire_lease-some, next_eligible_mem,
}
use sqlite_durable_workflow.Effect.Steps.{
  start_step_tx_lem, start_step_tx_missing, complete_step_missing, complete_step_mismatch,
  complete_step_again, complete_step_lem, fail_step_tx_lem, fail_step_tx_missing, is_done,
}
use sqlite_durable_workflow.Effect.Signals.{
  send_signal_lem, send_signal_missing, consume_signal-none, consume_signal-some, create_timer_lem,
  create_timer_missing,
}
use sqlite_durable_workflow.Effect.Timers.{fire_expired_timers_lem, expire_leases_lem}
use sqlite_durable_workflow.Change.{
  Change, stays, creates, acquires, renews, releases, pauses, finishes, starts, completes, fails,
  sends, takes, times, fires, expires, Ending, by_success, by_failure,
}

-- From the database that a run without refusals leaves.
module _ (p : Platform) (d : Db) where
  -- A function takes the step to the database of its known result.
  leaves :
      {A : Type 0} {t r : Result A × Session} {c : Section}
      → t ≡ r
      → Change p d c r.1.db
      → Change p d c t.1.db
  leaves {c} e h = subst (λ x. Change p d c x.1.db) (sym e) h

  leaves_if :
      {A : Type 0} {c : Section} (b : Bool) (t q r : Result A × Session)
      → t ≡ (if b then q else r)
      → (b ≡ true → Change p d c q.1.db)
      → (b ≡ false → Change p d c r.1.db)
      → Change p d c t.1.db
  leaves_if true t q r e f g = leaves e (f refl)
  leaves_if false t q r e f g = leaves e (g refl)

  create_workflow-Change :
      (now : ℤ) (id workflow_type : String)
      → Change p d (create now id workflow_type) (effect (create_workflow now id workflow_type) d)
  create_workflow-Change now id workflow_type =
      leaves_if (has_workflow id d.workflows) _ _ _ (create_workflow_lem now id workflow_type d)
        (λ _. stays) (creates now id workflow_type)

  acquire_lease-Change :
      (now : ℤ) (worker : String) (duration : ℤ)
      → Unique d.workflows
      → Change p d (acquire now worker duration) (effect (acquire_lease p now worker duration) d)
  acquire_lease-Change now worker duration u = elim (Option-cases (next_eligible p now d)) [
    | inl e ↦ leaves (acquire_lease-none p now worker duration d e) stays
    | inr (w, e) ↦
        let (eligible, there) = next_eligible_mem p now worker duration d w e in
        leaves (acquire_lease-some p now worker duration d w u e)
          (acquires now worker duration w eligible there)
  ]

  finish-Change :
      (status : Status) (event_type : EventType) (now : ℤ) (id worker : String)
      → (c : Section) → Ending now id worker c status event_type
      → Change p d c (effect (finish status event_type now id worker) d)
  finish-Change status event_type now id worker c ending =
      leaves_if (eqb (count (is_running id worker) d.workflows) 0) _ _ _
        (finish_lem status event_type now id worker d) (λ _. stays)
        λ e. finishes c status event_type now id worker ending (ground arith)

  start_step_tx-Change :
      (now : ℤ) (id : String) (n : ℤ) (input : Value)
      → Change p d (Section.start_step now id n input) (effect (start_step_tx p now id n input) d)
  start_step_tx-Change now id n input = elim (Bool-cases (has_workflow id d.workflows)) [
    | inl h ↦ leaves (start_step_tx_lem p now id n input d h) (starts now id n input h)
    | inr h ↦
        subst (λ s. Change p d (Section.start_step now id n input) s.db)
          (sym (start_step_tx_missing p now id n input d h)) stays
  ]

  fail_step_tx-Change :
      (now : ℤ) (id : String) (n : ℤ) (input : Value) (message : String)
      → Change p d
          (Section.fail_step now id n input message)
          (effect (fail_step_tx p now id n input message) d)
  fail_step_tx-Change now id n input message = elim (Bool-cases (has_workflow id d.workflows)) [
    | inl h ↦
        leaves (fail_step_tx_lem p now id n input message d h) (fails now id n input message h)
    | inr h ↦
        subst (λ s. Change p d (Section.fail_step now id n input message) s.db)
          (sym (fail_step_tx_missing p now id n input message d h)) stays
  ]

  complete_step-Change :
      (now : ℤ) (id worker : String) (n : ℤ) (input output : Value)
      → Change p d
          (Section.complete_step now id worker n input output)
          (effect (complete_step p now id worker n input output) d)
  complete_step-Change now id worker n input output = elim (Option-cases (lookup id d.workflows)) [
    | inl e ↦ leaves (complete_step_missing p now id worker n input output d e) stays
    | inr (w, e) ↦ elim (Bool-cases (is_owner worker w.lease_owner)) [
      | inr h ↦ leaves (complete_step_mismatch p now id worker n input output d w e h) stays
      | inl h ↦ elim (Bool-cases (is_done id n d.workflow_steps)) [
        | inl k ↦ leaves (complete_step_again p now id worker n input output d w e h k) stays
        | inr k ↦
            leaves (complete_step_lem p now id worker n input output d w e h k)
              (completes now id worker n input output w e h k)
      ]
    ]
  ]

  send_signal-Change :
      (now : ℤ) (id signal_type : String) (payload : Value)
      → Change p d
          (send now id signal_type payload)
          (effect (send_signal p now id signal_type payload) d)
  send_signal-Change now id signal_type payload = elim (Bool-cases (has_workflow id d.workflows)) [
    | inl h ↦
        leaves (send_signal_lem p now id signal_type payload d h)
          (sends now id signal_type payload h)
    | inr h ↦ leaves (send_signal_missing p now id signal_type payload d h) stays
  ]

  next_signal_mem :
      (id : String) (s : Signal)
      → next_signal p id d ≡ some s
      → (is_pending id s ≡ true) × Memᴰ s d.workflow_signals
  unfolding next_signal
  next_signal_mem id s e = chosen_mem p (λ t. t.created_at) (is_pending id) d.workflow_signals s e

  consume_signal-Change : (id : String) → Change p d (consume id) (effect (consume_signal p id) d)
  consume_signal-Change id = elim (Option-cases (next_signal p id d)) [
    | inl e ↦ leaves (consume_signal-none p id d e) stays
    | inr (s, e) ↦
        let (pending, there) = next_signal_mem id s e in
        leaves (consume_signal-some p id d s e) (takes id s pending there)
  ]

  create_timer-Change :
      (id : String) (wake_at : ℤ)
      → Change p d (add_timer id wake_at) (effect (create_timer id wake_at) d)
  create_timer-Change id wake_at = elim (Bool-cases (has_workflow id d.workflows)) [
    | inl h ↦ leaves (create_timer_lem id wake_at d h) (times id wake_at h)
    | inr h ↦ leaves (create_timer_missing id wake_at d h) stays
  ]

  -- Without refusals every section takes one step of the relation.
  pub perform-Change : (c : Section) → Unique d.workflows → Change p d c (effect (perform p c) d)
  unfolding perform complete_workflow fail_workflow
  perform-Change (create now id workflow_type) u = create_workflow-Change now id workflow_type
  perform-Change (acquire now worker duration) u = acquire_lease-Change now worker duration u
  perform-Change (renew now id worker duration) u =
      leaves (renew_lease_lem p now id worker d duration) (renews now id worker duration)
  perform-Change (release now id worker) u =
      leaves (release_lease_lem now id worker d) (releases now id worker)
  perform-Change (complete now id worker) u = finish-Change _ _ now id worker _ by_success
  perform-Change (fail now id worker) u = finish-Change _ _ now id worker _ by_failure
  perform-Change (wait now id worker) u =
      leaves (mark_waiting_lem now id worker d) (pauses now id worker)
  perform-Change (Section.start_step now id n input) u = start_step_tx-Change now id n input
  perform-Change (Section.complete_step now id worker n input output) u =
      complete_step-Change now id worker n input output
  perform-Change (Section.fail_step now id n input message) u =
      fail_step_tx-Change now id n input message
  perform-Change (send now id signal_type payload) u = send_signal-Change now id signal_type payload
  perform-Change (consume id) u = consume_signal-Change id
  perform-Change (add_timer id wake_at) u = create_timer-Change id wake_at
  perform-Change (fire now) u = leaves (fire_expired_timers_lem p now d) (fires now)
  perform-Change (expire now) u = leaves (expire_leases_lem now d) (expires now)
