-- ===== src/Contract/Server/Reached.antt =====
-- cmd/server/main.go: where a request can take the database when the driver refuses calls.
use sqlite_durable_workflow.Common.{
  String, ℤ, none, some, ◌≡◌, refl, sym, subst, inl, inr, ◌⊎◌, Option-cases,
}
use sqlite_durable_workflow.Types.{Timer, Value}
use sqlite_durable_workflow.Store.Db.{Db}
use sqlite_durable_workflow.Store.Session.{Session, M, Result, ok, err}
use sqlite_durable_workflow.Store.Platform.{Platform}
use sqlite_durable_workflow.Store.Atomic.{Ends, effect}
use sqlite_durable_workflow.Step.{start_step, fail_step}
use sqlite_durable_workflow.Timer.{create_timer}
use sqlite_durable_workflow.Retry.{retry_step, wait_for_retry, schedule_retry, RetryConfig}
use sqlite_durable_workflow.Section.{Section, add_timer, wait, perform}
use sqlite_durable_workflow.Section.Atomicity.{
  AllOrNothing-perform, AllOrNothing-start_step, AllOrNothing-fail_step,
}
use sqlite_durable_workflow.Change.{Change, stays}
use sqlite_durable_workflow.Change.Sound.{perform-Change}
use sqlite_durable_workflow.Invariant.{IsWellFormed}
use sqlite_durable_workflow.Invariant.Preserved.{Change-WellFormed}
use sqlite_durable_workflow.History.{perform_takes_Change}
use sqlite_durable_workflow.Contract.Server.Calls.{verify_lease_lem, waits_after}

-- The databases that steps of the allowed sections lead to.
pub data Led (p : Platform) (Q : Section → Type 0) (d : Db) : Db → Type 0 where
  here : Led p Q d d
  next : {e f : Db} {c : Section} → Led p Q d e → Change p e c f → Q c → Led p Q d f

-- No *sql.Tx is open, the tables are well formed, and only allowed sections have led there.
abbrev pub Reached : Platform → (Section → Type 0) → Db → Session → Type 0
Reached p Q d s = (s.saved ≡ none) × IsWellFormed s.db × Led p Q d s.db

module _ (p : Platform) (Q : Section → Type 0) where
  pub same-Reached : (s : Session) → s.saved ≡ none → IsWellFormed s.db → Reached p Q s.db s
  same-Reached s e wf = (e, wf, here)

  -- One section more.
  pub perform-Reached :
      (d : Db) (c : Section) (s : Session) → Q c → Reached p Q d s → Reached p Q d (perform p c s).1
  perform-Reached d c s q (e, wf, r) =
      let change = perform_takes_Change p c s e wf in
      (((AllOrNothing-perform p c).at s e).0, Change-WellFormed change wf, next r change q)

  -- A call that is all or nothing, and whose effect is nothing or a section's.
  Ends-Reached :
      {A : Type 0} (m : M A) (c : Section) (s : Session)
      → Q c
      → s.saved ≡ none
      → IsWellFormed s.db
      → Ends m s
      → (effect m s.db ≡ effect (perform p c) s.db) ⊎ (effect m s.db ≡ s.db)
      → Reached p Q s.db (m s).1
  Ends-Reached m c s q e wf (closed, ends) done =
      let change : Change p s.db c (effect m s.db) = elim done [
        | inl h ↦ subst (Change p s.db c) (sym h) (perform-Change p s.db c wf.unique)
        | inr h ↦ subst (Change p s.db c) (sym h) stays
      ] in
      let left : Change p s.db c (m s).1.db = elim ends [
        | inl same ↦ subst (Change p s.db c) (sym same.1) change
        | inr (fault, which) ↦ elim which [
          | inl nothing ↦ subst (Change p s.db c) (sym nothing) stays
          | inr all ↦ subst (Change p s.db c) (sym all) change
        ]
      ] in
      (closed, Change-WellFormed left wf, next here left q)

  start_step-effect :
      (now : ℤ) (id worker : String) (n : ℤ) (input : Value) (d : Db)
      → (effect (start_step p now id worker n input) d
          ≡ effect (perform p (Section.start_step now id n input)) d)
        ⊎ (effect (start_step p now id worker n input) d ≡ d)
  unfolding start_step perform
  start_step-effect now id worker n input d = elim (verify_lease_lem id worker d) [
    | inl e ↦ inl (rw e refl)
    | inr (f, e) ↦ inr (rw e refl)
  ]

  fail_step-effect :
      (now : ℤ) (id worker : String) (n : ℤ) (input : Value) (message : String) (d : Db)
      → (effect (fail_step p now id worker n input message) d
          ≡ effect (perform p (Section.fail_step now id n input message)) d)
        ⊎ (effect (fail_step p now id worker n input message) d ≡ d)
  unfolding fail_step perform
  fail_step-effect now id worker n input message d = elim (verify_lease_lem id worker d) [
    | inl e ↦ inl (rw e refl)
    | inr (f, e) ↦ inr (rw e refl)
  ]

  pub start_step-Reached :
      (now : ℤ) (id worker : String) (n : ℤ) (input : Value) (s : Session)
      → Q (Section.start_step now id n input)
      → s.saved ≡ none
      → IsWellFormed s.db
      → Reached p Q s.db (start_step p now id worker n input s).1
  start_step-Reached now id worker n input s q e wf =
      Ends-Reached (start_step p now id worker n input) (Section.start_step now id n input) s q e wf
        ((AllOrNothing-start_step p now id worker n input).at s e)
        (start_step-effect now id worker n input s.db)

  pub fail_step-Reached :
      (now : ℤ) (id worker : String) (n : ℤ) (input : Value) (message : String) (s : Session)
      → Q (Section.fail_step now id n input message)
      → s.saved ≡ none
      → IsWellFormed s.db
      → Reached p Q s.db (fail_step p now id worker n input message s).1
  fail_step-Reached now id worker n input message s q e wf =
      Ends-Reached (fail_step p now id worker n input message)
        (Section.fail_step now id n input message) s q e wf
        ((AllOrNothing-fail_step p now id worker n input message).at s e)
        (fail_step-effect now id worker n input message s.db)

  -- `RetryStep` creates its timer, and waits if that has been done.
  waits-Reached :
      (later : ℤ) (id worker : String) (wake_at : ℤ) (s : Session) (t : Result Timer × Session)
      → Q (wait later id worker)
      → create_timer id wake_at s ≡ t
      → Reached p Q s.db t.1
      → Reached p Q s.db (wait_for_retry later id worker (some wake_at) s).1
  unfolding wait_for_retry perform
  waits-Reached later id worker wake_at s (err f, after) q e r = rw e r
  waits-Reached later id worker wake_at s (ok t, after) q e r =
      subst (Reached p Q s.db) (sym (waits_after later id worker wake_at t s after e))
        (perform-Reached s.db (wait later id worker) after q r)

  pub retry_step-Reached :
      (now later : ℤ) (id worker : String) (n retries : ℤ) (cfg : RetryConfig) (s : Session)
      → ((wake_at : ℤ) → Q (add_timer id wake_at))
      → Q (wait later id worker)
      → s.saved ≡ none
      → IsWellFormed s.db
      → Reached p Q s.db (retry_step now later id worker n retries cfg s).1
  unfolding retry_step perform
  retry_step-Reached now later id worker n retries cfg s timed waited e wf =
      elim (Option-cases (schedule_retry cfg now retries)) [
        | inl f ↦ rw f (same-Reached s e wf)
        | inr (wake_at, f) ↦ rw f (
            waits-Reached later id worker wake_at s (create_timer id wake_at s) waited refl
              (perform-Reached s.db (add_timer id wake_at) s (timed wake_at) (same-Reached s e wf)))
      ]
