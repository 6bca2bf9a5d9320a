-- ===== src/Store/Atomic/Sequence.antt =====
-- A query made before a transaction, as the lease check of `StartStep` is.
use sqlite_durable_workflow.Common.{⊤, Bool, none, ◌≡◌, refl, sym, ap, ◌∙◌, subst, ◌⊎◌, inl, inr}
use sqlite_durable_workflow.Store.Db.{Db}
use sqlite_durable_workflow.Store.Session.{
  Result, ok, err, Session, M, quiet, calm, continue, ◌>>=◌, ◌>>◌,
}
use sqlite_durable_workflow.Store.Atomic.{Faulted, Reads, AllOrNothing}
use sqlite_durable_workflow.Store.Atomic.Statements.{continue-Faulted}
use sqlite_durable_workflow.Store.Atomic.Transactions.{calm-quiet}

same_query :
    (m : M ⊤) (s : Session)
    → Reads m
    → s.saved ≡ none
    → m (calm s) ≡ ((m s).0, calm (m s).1)
    → ((m s).0, quiet s.db) ≡ m (quiet s.db)
same_query m s r e h = sym (
    ap m (sym (calm-quiet s e))
    ∙ h
    ∙ ap (λ t. ((m s).0, t)) (calm-quiet (m s).1 (r.writes.saved s ∙ e) ∙ ap quiet (r.db s)))

module _ {A : Type 0} where
  -- What `Ends` says of a session that was left and of the one left without refusals.
  abbrev EndsAs : Db → Bool → Result A × Session → Result A × Session → Type 0
  EndsAs d left_open t u =
      (t.1.saved ≡ none)
      × (((t.0 ≡ u.0) × (t.1.db ≡ u.1.db) × (t.1.left_open ≡ left_open))
          ⊎ (Faulted t.0 × ((t.1.db ≡ d) ⊎ (t.1.db ≡ u.1.db))))

  after-EndsAs :
      (k : M A) (q : Result ⊤ × Session) (d : Db)
      → AllOrNothing k
      → q.1.saved ≡ none
      → q.1.db ≡ d
      → EndsAs d q.1.left_open (continue (λ _. k) q) (continue (λ _. k) (q.0, quiet d))
  after-EndsAs k (ok tt, s) d w e h =
      subst (λ c. EndsAs c s.left_open (k s) (k (quiet c))) h (w.at s e)
  after-EndsAs k (err x, s) d w e h = (e, inl (refl, h, refl))

  -- A query in front of an all-or-nothing function.
  pub AllOrNothing-after : (m : M ⊤) (k : M A) → Reads m → AllOrNothing k → AllOrNothing (m >> k)
  unfolding ◌>>◌ ◌>>=◌
  AllOrNothing-after m k r w = record {
    at = λ s e. elim (r.writes.at s) [
      | inl h ↦
          subst (λ q. EndsAs s.db s.left_open (continue (λ _. k) (m s)) (continue (λ _. k) q))
            (same_query m s r e h)
            (subst
              (λ b.
                EndsAs s.db b (continue (λ _. k) (m s)) (continue (λ _. k) ((m s).0, quiet s.db)))
              (r.writes.left s) (after-EndsAs k (m s) s.db w (r.writes.saved s ∙ e) (r.db s)))
      | inr h ↦
          let (fault, stays) = continue-Faulted (λ _. k) (m s) h in
          (
            ap (λ t. t.saved) stays ∙ r.writes.saved s ∙ e,
            inr (fault, inl (ap (λ t. t.db) stays ∙ r.db s)),
          )
    ];
  }
