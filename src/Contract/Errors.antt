-- ===== src/Contract/Errors.antt =====
-- What a function that returns an error has written.
use sqlite_durable_workflow.Common.{
  String, ℕ, zero, suc, ℤ, ⊤, Bool, true, false, none, ◌≡◌, ◌≢◌, refl, sym, ap, ◌∙◌, subst, inl,
  inr, eqb, Bool-cases, Option-cases, if◌then◌else◌, update, count, update-eq_of_count, arith,
}
use sqlite_durable_workflow.Types.{Status, EventType, Value, Workflow}
use sqlite_durable_workflow.Store.Db.{Db, has_workflow, is_owner, lookup}
use sqlite_durable_workflow.Store.Session.{Session, M, Result, ok, err, Error, driver, quiet}
use sqlite_durable_workflow.Store.Atomic.{root, Faulted}
use sqlite_durable_workflow.Store.Platform.{Platform}
use sqlite_durable_workflow.Store.Lookup.{Unique}
use sqlite_durable_workflow.Section.{
  Section, create, acquire, renew, release, complete, fail, wait, send, consume, add_timer, fire,
  expire, perform, void, voided,
}
use sqlite_durable_workflow.Section.Atomicity.{AllOrNothing-perform}
use sqlite_durable_workflow.Invariant.{IsWellFormed}
use sqlite_durable_workflow.Workflow.{
  create_workflow, next_eligible, acquire_lease, finish, complete_workflow, fail_workflow,
  is_running, is_leased, renewed, requeued, paused, lease_end,
}
use sqlite_durable_workflow.Step.{start_step_tx, fail_step_tx, complete_step}
use sqlite_durable_workflow.Signal.{send_signal, consume_signal, next_signal}
use sqlite_durable_workflow.Timer.{create_timer, fire_expired_timers, expire_leases}
use sqlite_durable_workflow.Effect.Workflows.{
  affected, with_workflows, create_workflow_lem, renew_lease_lem, release_lease_lem,
  mark_waiting_lem, finish_lem,
}
use sqlite_durable_workflow.Effect.Leases.{acquire_lease-none, acquire_lease-some}
use sqlite_durable_workflow.Effect.Steps.{
  start_step_tx_lem, start_step_tx_missing, complete_step_missing, complete_step_mismatch,
  complete_step_again, complete_step_lem, fail_step_tx_lem, fail_step_tx_missing, is_done,
}
use sqlite_durable_workflow.Effect.Signals.{
  send_signal_lem, send_signal_missing, consume_signal-none, consume_signal-some, create_timer_lem,
  create_timer_missing,
}
use sqlite_durable_workflow.Effect.Timers.{fire_expired_timers_lem, expire_leases_lem}

-- With an error, the session is the one before.
abbrev pub Intact : {A : Type 0} → Db → Result A × Session → Type 0
Intact d (ok a, s) = ⊤
Intact d (err e, s) = s ≡ quiet d

module _ (d : Db) where
  pub Intact-by : {A : Type 0} {t r : Result A × Session} → t ≡ r → Intact d r → Intact d t
  Intact-by e h = subst (Intact d) (sym e) h

  Intact-unchanged : {A : Type 0} (t : Result A × Session) → t.1 ≡ quiet d → Intact d t
  Intact-unchanged (ok a, s) h = tt
  Intact-unchanged (err e, s) h = h

  Intact-if :
      {A : Type 0} (b : Bool) (q r : Result A × Session)
      → Intact d q
      → Intact d r
      → Intact d (if b then q else r)
  Intact-if true q r h k = h
  Intact-if false q r h k = k

  Intact-void : {A : Type 0} (m : M A) → Intact d (m (quiet d)) → Intact d (void m (quiet d))
  Intact-void m h = go (m (quiet d)) h
    where
      go : {A : Type 0} (t : Result A × Session) → Intact d t → Intact d (voided t.0, t.1)
      go (ok a, s) h = tt
      go (err e, s) h = h

  -- An UPDATE that affects no row is the error, and changes none.
  Intact-affected :
      (n : ℕ) (test : Workflow → Bool) (f : Workflow → Workflow)
      → n ≡ count test d.workflows
      → Intact d (affected n, quiet (with_workflows (update test f d.workflows) d))
  Intact-affected zero test f e =
      ap (λ ws. quiet (with_workflows ws d)) (update-eq_of_count test f d.workflows (sym e))
  Intact-affected (suc n) test f e = tt

module _ (p : Platform) (d : Db) where
  Intact-acquire_lease :
      (now : ℤ) (worker : String) (duration : ℤ)
      → Unique d.workflows
      → Intact d (acquire_lease p now worker duration (quiet d))
  Intact-acquire_lease now worker duration u = elim (Option-cases (next_eligible p now d)) [
    | inl e ↦ Intact-by d (acquire_lease-none p now worker duration d e) tt
    | inr (w, e) ↦ Intact-by d (acquire_lease-some p now worker duration d w u e) tt
  ]

  Intact-finish :
      (status : Status) (event_type : EventType) (now : ℤ) (id worker : String)
      → Intact d (finish status event_type now id worker (quiet d))
  Intact-finish status event_type now id worker =
      Intact-by d (finish_lem status event_type now id worker d)
        (Intact-if d (eqb (count (is_running id worker) d.workflows) 0) _ _ refl tt)

  pub Intact-start_step_tx :
      (now : ℤ) (id : String) (n : ℤ) (input : Value)
      → Intact d (start_step_tx p now id n input (quiet d))
  Intact-start_step_tx now id n input = elim (Bool-cases (has_workflow id d.workflows)) [
    | inl h ↦ Intact-by d (start_step_tx_lem p now id n input d h) tt
    | inr h ↦ Intact-unchanged d _ (start_step_tx_missing p now id n input d h)
  ]

  pub Intact-fail_step_tx :
      (now : ℤ) (id : String) (n : ℤ) (input : Value) (message : String)
      → Intact d (fail_step_tx p now id n input message (quiet d))
  Intact-fail_step_tx now id n input message = elim (Bool-cases (has_workflow id d.workflows)) [
    | inl h ↦ Intact-by d (fail_step_tx_lem p now id n input message d h) tt
    | inr h ↦ Intact-unchanged d _ (fail_step_tx_missing p now id n input message d h)
  ]

  Intact-complete_step :
      (now : ℤ) (id worker : String) (n : ℤ) (input output : Value)
      → Intact d (complete_step p now id worker n input output (quiet d))
  Intact-complete_step now id worker n input output = elim (Option-cases (lookup id d.workflows)) [
    | inl e ↦ Intact-by d (complete_step_missing p now id worker n input output d e) refl
    | inr (w, e) ↦ elim (Bool-cases (is_owner worker w.lease_owner)) [
      | inr h ↦ Intact-by d (complete_step_mismatch p now id worker n input output d w e h) refl
      | inl h ↦ elim (Bool-cases (is_done id n d.workflow_steps)) [
        | inl k ↦ Intact-by d (complete_step_again p now id worker n input output d w e h k) refl
        | inr k ↦ Intact-by d (complete_step_lem p now id worker n input output d w e h k) tt
      ]
    ]
  ]

  Intact-send_signal :
      (now : ℤ) (id signal_type : String) (payload : Value)
      → Intact d (send_signal p now id signal_type payload (quiet d))
  Intact-send_signal now id signal_type payload = elim (Bool-cases (has_workflow id d.workflows)) [
    | inl h ↦ Intact-by d (send_signal_lem p now id signal_type payload d h) tt
    | inr h ↦ Intact-by d (send_signal_missing p now id signal_type payload d h) refl
  ]

  Intact-consume_signal : (id : String) → Intact d (consume_signal p id (quiet d))
  Intact-consume_signal id = elim (Option-cases (next_signal p id d)) [
    | inl e ↦ Intact-by d (consume_signal-none p id d e) tt
    | inr (s, e) ↦ Intact-by d (consume_signal-some p id d s e) tt
  ]

  Intact-create_timer : (id : String) (wake_at : ℤ) → Intact d (create_timer id wake_at (quiet d))
  Intact-create_timer id wake_at = elim (Bool-cases (has_workflow id d.workflows)) [
    | inl h ↦ Intact-by d (create_timer_lem id wake_at d h) tt
    | inr h ↦ Intact-by d (create_timer_missing id wake_at d h) refl
  ]

  pub Intact-perform : (c : Section) → Unique d.workflows → Intact d (perform p c (quiet d))
  unfolding perform complete_workflow fail_workflow
  Intact-perform (create now id workflow_type) u =
      Intact-void d (create_workflow now id workflow_type) (
        Intact-by d (create_workflow_lem now id workflow_type d)
          (Intact-if d (has_workflow id d.workflows) _ _ refl tt))
  Intact-perform (acquire now worker duration) u =
      Intact-void d (acquire_lease p now worker duration)
        (Intact-acquire_lease now worker duration u)
  Intact-perform (renew now id worker duration) u =
      Intact-by d (renew_lease_lem p now id worker d duration)
        (Intact-affected d _ (is_running id worker) (renewed (lease_end p now duration) now) refl)
  Intact-perform (release now id worker) u =
      Intact-by d (release_lease_lem now id worker d)
        (Intact-affected d _ (is_leased id worker) (requeued now) refl)
  Intact-perform (complete now id worker) u = Intact-finish _ _ now id worker
  Intact-perform (fail now id worker) u = Intact-finish _ _ now id worker
  Intact-perform (wait now id worker) u =
      Intact-by d (mark_waiting_lem now id worker d)
        (Intact-affected d _ (is_running id worker) (paused now) refl)
  Intact-perform (Section.start_step now id n input) u = Intact-start_step_tx now id n input
  Intact-perform (Section.complete_step now id worker n input output) u =
      Intact-complete_step now id worker n input output
  Intact-perform (Section.fail_step now id n input message) u =
      Intact-fail_step_tx now id n input message
  Intact-perform (send now id signal_type payload) u =
      Intact-void d (send_signal p now id signal_type payload)
        (Intact-send_signal now id signal_type payload)
  Intact-perform (consume id) u = Intact-void d (consume_signal p id) (Intact-consume_signal id)
  Intact-perform (add_timer id wake_at) u =
      Intact-void d (create_timer id wake_at) (Intact-create_timer id wake_at)
  Intact-perform (fire now) u =
      Intact-void d (fire_expired_timers p now) (Intact-by d (fire_expired_timers_lem p now d) tt)
  Intact-perform (expire now) u =
      Intact-void d (expire_leases now) (Intact-by d (expire_leases_lem now d) tt)

Intact-err :
    {A : Type 0} (d : Db) (t : Result A × Session) (e : Error)
    → Intact d t
    → t.0 ≡ err e
    → t.1 ≡ quiet d
Intact-err d (err f, s) e h k = h
Intact-err d (ok a, s) e h k = ground arith

driver_fault : {A : Type 0} (r : Result A) (e : Error) → r ≡ err e → Faulted r → root e ≡ driver
driver_fault r e h f = subst Faulted h f

-- On well-formed tables with no *sql.Tx open, whichever calls the driver refuses: one statement
-- or transaction of the engine that returns an error which is not the driver's, such as a lease
-- mismatch, a missing row, a completed step or a violated constraint, has written nothing. That is
-- every function of the engine but RetryStep, which is two of them; StartStep and FailStep are meant
-- after their lease checks.
pub refusal_writes_nothing :
    (p : Platform) (c : Section) (s : Session) (e : Error)
    → s.saved ≡ none
    → IsWellFormed s.db
    → (perform p c s).0 ≡ err e
    → root e ≢ driver
    → (perform p c s).1.db ≡ s.db
refusal_writes_nothing p c s e closed wf h other = elim ((AllOrNothing-perform p c).at s closed).1 [
  | inl (same, same_db, left) ↦
      same_db
      ∙ ap (λ t. t.db) (Intact-err s.db _ e (Intact-perform p s.db c wf.unique) (sym same ∙ h))
  | inr (fault, _) ↦ elim (other (driver_fault (perform p c s).0 e h fault)) [ ]
]
