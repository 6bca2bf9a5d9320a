-- ===== src/Store/Atomic/Statements.antt =====
-- Which functions of Session.antt count as statements and as queries.
use sqlite_durable_workflow.Common.{String, Option, ◌≡◌, refl, sym, ap, ◌∙◌, ◌⊎◌, inl, inr, arith}
use sqlite_durable_workflow.Store.Db.{Db}
use sqlite_durable_workflow.Store.Session.{
  Error, lease_mismatch, step_already_completed, no_rows, constraint, driver, wrap, Result, ok, err,
  Session, M, calm, pure, throw, exec, query, query_row, wrapping, optional, continue, ◌>>=◌, ◌>>◌,
  wrapped, some_or_none, or_no_rows,
}
use sqlite_durable_workflow.Store.Atomic.{Faulted, Agrees, Writes, Reads, Once}

module _ {A : Type 0} where
  pub Writes-pure : (a : A) → Writes (pure a)
  unfolding pure
  Writes-pure a = record { at = λ s. inl refl; saved = λ s. refl; left = λ s. refl }

  pub Writes-throw : (e : Error) → Writes (throw {A = A} e)
  unfolding throw
  Writes-throw e = record { at = λ s. inl refl; saved = λ s. refl; left = λ s. refl }

  pub Writes-exec : (f : Db → Result (A × Db)) → Writes (exec f)
  unfolding exec
  Writes-exec f = record {
    at = λ s. ground arith;
    saved = λ s. ground arith;
    left = λ s. ground arith;
  }

  pub Reads-query : (f : Db → A) → Reads (query f)
  unfolding query exec
  Reads-query f = record { writes = Writes-exec (λ d. ok (f d, d)); db = λ s. ground arith }

  pub Reads-query_row : (f : Db → Option A) → Reads (query_row f)
  unfolding query_row exec
  Reads-query_row f = record {
    writes = Writes-exec (λ d. or_no_rows (f d) d);
    db = λ s. ground arith;
  }

  pub Writes-query : (f : Db → A) → Writes (query f)
  Writes-query f = (Reads-query f).writes

  pub Writes-query_row : (f : Db → Option A) → Writes (query_row f)
  Writes-query_row f = (Reads-query_row f).writes

  pub Faulted-wrapped : (c : String) (r : Result A) → Faulted r → Faulted (wrapped c r)
  Faulted-wrapped c (ok a) h = elim h [ ]
  Faulted-wrapped c (err e) h = h

  Faulted-some_or_none : (r : Result A) → Faulted r → Faulted (some_or_none r)
  Faulted-some_or_none (ok a) h = elim h [ ]
  Faulted-some_or_none (err lease_mismatch) h = cc
  Faulted-some_or_none (err step_already_completed) h = cc
  Faulted-some_or_none (err no_rows) h = cc
  Faulted-some_or_none (err constraint) h = cc
  Faulted-some_or_none (err driver) h = refl
  Faulted-some_or_none (err (wrap c e)) h = h

  pub Writes-wrapping : (c : String) (m : M A) → Writes m → Writes (wrapping c m)
  unfolding wrapping
  Writes-wrapping c m w = record {
    at = λ s. elim (w.at s) [ inl e ↦ inl (rw e refl) | inr h ↦ inr (Faulted-wrapped c (m s).0 h) ];
    saved = w.saved;
    left = w.left;
  }

  pub Writes-optional : (m : M A) → Writes m → Writes (optional m)
  unfolding optional
  Writes-optional m w = record {
    at = λ s. elim (w.at s) [
      | inl e ↦ inl (rw e refl)
      | inr h ↦ inr (Faulted-some_or_none (m s).0 h)
    ];
    saved = w.saved;
    left = w.left;
  }

module _ {A B : Type 0} where
  continue-Agrees :
      (f : A → M B) (p : Result A × Session)
      → ((a : A) (s : Session) → Agrees (f a) s ⊎ Faulted (f a s).0)
      → (continue f (p.0, calm p.1) ≡ ((continue f p).0, calm (continue f p).1))
        ⊎ Faulted (continue f p).0
  continue-Agrees f (ok a, s) h = h a s
  continue-Agrees f (err e, s) h = inl refl

  pub continue-saved :
      (f : A → M B) (p : Result A × Session)
      → ((a : A) (s : Session) → (f a s).1.saved ≡ s.saved)
      → (continue f p).1.saved ≡ p.1.saved
  continue-saved f (ok a, s) h = h a s
  continue-saved f (err e, s) h = refl

  pub continue-left :
      (f : A → M B) (p : Result A × Session)
      → ((a : A) (s : Session) → (f a s).1.left_open ≡ s.left_open)
      → (continue f p).1.left_open ≡ p.1.left_open
  continue-left f (ok a, s) h = h a s
  continue-left f (err e, s) h = refl

  pub continue-Faulted :
      (f : A → M B) (p : Result A × Session)
      → Faulted p.0
      → Faulted (continue f p).0 × ((continue f p).1 ≡ p.1)
  continue-Faulted f (ok a, s) h = elim h [ ]
  continue-Faulted f (err e, s) h = (h, refl)

  pub Writes-bind : (m : M A) (f : A → M B) → Writes m → ((a : A) → Writes (f a)) → Writes (m >>= f)
  unfolding ◌>>=◌
  Writes-bind m f w v = record {
    at = λ s. elim (w.at s) [
      | inl e ↦ rw e (continue-Agrees f (m s) (λ a. (v a).at))
      | inr h ↦ inr (continue-Faulted f (m s) h).0
    ];
    saved = λ s. continue-saved f (m s) (λ a. (v a).saved) ∙ w.saved s;
    left = λ s. continue-left f (m s) (λ a. (v a).left) ∙ w.left s;
  }

  pub Writes-then : (m : M A) (k : M B) → Writes m → Writes k → Writes (m >> k)
  unfolding ◌>>◌
  Writes-then m k w v = Writes-bind m (λ _. k) w (λ _. v)

  pub Reads-bind : (m : M A) (f : A → M B) → Reads m → ((a : A) → Reads (f a)) → Reads (m >>= f)
  unfolding ◌>>=◌
  Reads-bind m f w v = record {
    writes = Writes-bind m f w.writes (λ a. (v a).writes);
    db = λ s. db_of (m s) ∙ w.db s;
  }
    where
      db_of : (q : Result A × Session) → (continue f q).1.db ≡ q.1.db
      db_of (ok a, t) = (v a).db t
      db_of (err e, t) = refl

module _ {A : Type 0} where
  pub Reads-pure : (a : A) → Reads (pure a)
  unfolding pure
  Reads-pure a = record { writes = Writes-pure a; db = λ s. refl }

  pub Reads-throw : (e : Error) → Reads (throw {A = A} e)
  unfolding throw
  Reads-throw e = record { writes = Writes-throw e; db = λ s. refl }

  pub Reads-wrapping : (c : String) (m : M A) → Reads m → Reads (wrapping c m)
  unfolding wrapping
  Reads-wrapping c m w = record { writes = Writes-wrapping c m w.writes; db = w.db }

module _ {A : Type 0} where
  exec_refused :
      (f : Db → Result (A × Db)) (s : Session) → Faulted (exec f s).0 → (exec f s).1.db ≡ s.db
  unfolding exec
  exec_refused f s h = ground arith

  pub Once-exec : (f : Db → Result (A × Db)) → Once (exec f)
  Once-exec f = record {
    at = λ s. elim ((Writes-exec f).at s) [
      | inl e ↦ inl e
      | inr h ↦ inr (h, inl (exec_refused f s h))
    ];
    saved = (Writes-exec f).saved;
    left = (Writes-exec f).left;
  }

  pub Once-wrapping : (c : String) (m : M A) → Once m → Once (wrapping c m)
  unfolding wrapping
  Once-wrapping c m w = record {
    at = λ s. elim (w.at s) [
      | inl e ↦ inl (rw e refl)
      | inr (h, same) ↦ inr (Faulted-wrapped c (m s).0 h, same)
    ];
    saved = w.saved;
    left = w.left;
  }

module _ {A B : Type 0} (f : A → M B) (reads : (a : A) → Reads (f a)) where
  continue-db : (q : Result A × Session) → (continue f q).1.db ≡ q.1.db
  continue-db (ok a, t) = (reads a).db t
  continue-db (err e, t) = refl

  continue-Once :
      (q : Result A × Session) (before : Db)
      → (continue f (q.0, calm q.1) ≡ ((continue f q).0, calm (continue f q).1))
        ⊎ (Faulted (continue f q).0
            × (((continue f q).1.db ≡ before)
                ⊎ ((continue f q).1.db ≡ (continue f (q.0, calm q.1)).1.db)))
  continue-Once (ok a, t) before = elim ((reads a).writes.at t) [
    | inl e ↦ inl e
    | inr h ↦ inr (h, inr ((reads a).db t ∙ sym ((reads a).db (calm t))))
  ]
  continue-Once (err e, t) before = inl refl

  pub Once-bind : (m : M A) → Once m → Once (m >>= f)
  unfolding ◌>>=◌
  Once-bind m w = record {
    at = λ s. elim (w.at s) [
      | inl e ↦ rw e (continue-Once (m s) s.db)
      | inr (h, same) ↦
          let (fault, stays) = continue-Faulted f (m s) h in
          inr (
            fault,
            elim same [
              | inl none_done ↦ inl (ap (λ t. t.db) stays ∙ none_done)
              | inr all_done ↦
                  inr (ap (λ t. t.db) stays ∙ all_done ∙ sym (continue-db (m (calm s))))
            ],
          )
    ];
    saved = λ s. continue-saved f (m s) (λ a. (reads a).writes.saved) ∙ w.saved s;
    left = λ s. continue-left f (m s) (λ a. (reads a).writes.left) ∙ w.left s;
  }
