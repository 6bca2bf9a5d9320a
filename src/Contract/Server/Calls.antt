-- ===== src/Contract/Server/Calls.antt =====
-- The lease check of StartStep and FailStep, and the two calls of RetryStep.
use sqlite_durable_workflow.Common.{
  String, ℤ, ⊤, true, some, ◌≡◌, refl, arith, inl, inr, ◌⊎◌, Bool-cases, Option-cases,
}
use sqlite_durable_workflow.Types.{Timer}
use sqlite_durable_workflow.Store.Db.{Db, lookup, is_owner}
use sqlite_durable_workflow.Store.Session.{
  Session, Error, no_rows, lease_mismatch, Result, ok, err, quiet, ◌>>◌, wrapping, wrapped,
  continue, pure,
}
use sqlite_durable_workflow.Workflow.{verify_lease, mark_waiting}
use sqlite_durable_workflow.Retry.{wait_for_retry}
use sqlite_durable_workflow.Timer.{create_timer}

module _ (id worker : String) (d : Db) where
  pub verify_lease_lem :
      (verify_lease id worker (quiet d) ≡ (ok tt, quiet d))
      ⊎ ((e : Error) × (verify_lease id worker (quiet d) ≡ (err e, quiet d)))
  unfolding verify_lease
  verify_lease_lem = elim (Option-cases (lookup id d.workflows)) [
    | inl e ↦ inr (no_rows, ground arith)
    | inr (w, e) ↦ elim (Bool-cases (is_owner worker w.lease_owner)) [
      | inl h ↦ inl (ground arith)
      | inr h ↦ inr (lease_mismatch, ground arith)
    ]
  ]

ends_alike :
    (c : String) (r : Result ⊤) (s : Session) → (continue (λ _. pure true) (wrapped c r, s)).1 ≡ s
unfolding pure
ends_alike c (ok done) s = refl
ends_alike c (err e) s = refl

waits_alike :
    (later : ℤ) (id worker : String) (s : Session)
    → ((wrapping "mark waiting" (mark_waiting later id worker) >> pure true) s).1
      ≡ (mark_waiting later id worker s).1
unfolding ◌>>◌ wrapping
waits_alike later id worker s =
    ends_alike "mark waiting" (mark_waiting later id worker s).0 (mark_waiting later id worker s).1

pub waits_after :
    (later : ℤ) (id worker : String) (wake_at : ℤ) (t : Timer) (s after : Session)
    → create_timer id wake_at s ≡ (ok t, after)
    → (wait_for_retry later id worker (some wake_at) s).1 ≡ (mark_waiting later id worker after).1
unfolding wait_for_retry
waits_after later id worker wake_at t s after e = rw e (waits_alike later id worker after)
