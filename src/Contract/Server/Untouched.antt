-- ===== src/Contract/Server/Untouched.antt =====
-- cmd/server/main.go: answers with an error that leave the session as it was.
use sqlite_durable_workflow.Common.{String, ℕ, ℤ, ⊤, Option, none, some, ◌≡◌, refl, inl, inr}
use sqlite_durable_workflow.Types.{Value}
use sqlite_durable_workflow.Store.Db.{Db}
use sqlite_durable_workflow.Store.Session.{Session, Result, ok, err, quiet, M}
use sqlite_durable_workflow.Store.Platform.{Platform}
use sqlite_durable_workflow.Step.{start_step, fail_step}
use sqlite_durable_workflow.Section.{voided, void}
use sqlite_durable_workflow.Server.Replies.{
  Reply, Handler, Response, json, problem, responded, answer, decoded,
}
use sqlite_durable_workflow.Contract.Errors.{Intact, Intact-start_step_tx, Intact-fail_step_tx}
use sqlite_durable_workflow.Contract.Server.Calls.{verify_lease_lem}

-- With an answer other than 200, the session is the one before.
abbrev pub Untouched : {F : Type 0} → Db → Response F × Session → Type 0
Untouched d (json r, s) = ⊤
Untouched d (problem code p, s) = s ≡ quiet d

module _ (d : Db) where
  pub Untouched-same : {F : Type 0} (t : Response F × Session) → t.1 ≡ quiet d → Untouched d t
  Untouched-same (json r, s) h = tt
  Untouched-same (problem code p, s) h = h

  pub Untouched-answer :
      {F A : Type 0} (code : ℕ) (f : A → Reply F) (m : M A)
      → Intact d (m (quiet d))
      → Untouched d (answer code f m (quiet d))
  Untouched-answer {A} code f m h = go (m (quiet d)) h
    where
      go : (t : Result A × Session) → Intact d t → Untouched d (responded code f t.0, t.1)
      go (ok a, s) k = tt
      go (err e, s) k = k

  pub Untouched-decoded :
      {F B : Type 0} (o : Option B) (f : B → Handler F)
      → ((req : B) → Untouched d (f req (quiet d)))
      → Untouched d (decoded o f (quiet d))
  Untouched-decoded none f h = refl
  Untouched-decoded (some req) f h = h req

  pub Intact-unvoided :
      {A : Type 0} (m : M A) → Intact d (void m (quiet d)) → Intact d (m (quiet d))
  Intact-unvoided {A} m h = go (m (quiet d)) h
    where
      go : (t : Result A × Session) → Intact d (voided t.0, t.1) → Intact d t
      go (ok a, s) k = tt
      go (err e, s) k = k

module _ (p : Platform) (now : ℤ) (id worker : String) (d : Db) where
  pub Intact-start_step :
      (n : ℤ) (input : Value) → Intact d (start_step p now id worker n input (quiet d))
  unfolding start_step
  Intact-start_step n input = elim (verify_lease_lem id worker d) [
    | inl e ↦ rw e (Intact-start_step_tx p d now id n input)
    | inr (f, e) ↦ rw e refl
  ]

  pub Intact-fail_step :
      (n : ℤ) (input : Value) (message : String)
      → Intact d (fail_step p now id worker n input message (quiet d))
  unfolding fail_step
  Intact-fail_step n input message = elim (verify_lease_lem id worker d) [
    | inl e ↦ rw e (Intact-fail_step_tx p d now id n input message)
    | inr (f, e) ↦ rw e refl
  ]
