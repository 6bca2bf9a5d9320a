-- ===== src/Store/Atomic/Transactions.antt =====
-- The bodies of transactions, and what the deferred rollback leaves.
use sqlite_durable_workflow.Common.{
  String, Bool, true, false, List, [], ◌∷◌, Option, none, some, ◌≡◌, refl, sym, ap, ◌∙◌, subst, ◌⊎◌,
  inl, inr, arith,
}
use sqlite_durable_workflow.Store.Db.{Db}
use sqlite_durable_workflow.Store.Session.{
  Result, ok, err, Session, M, quiet, calm, wrapping, begin, commit, continue, ◌>>=◌, ◌>>◌,
  rollback, refused_commit, transaction,
}
use sqlite_durable_workflow.Store.Atomic.{
  Faulted, Agrees, Writes, Reads, Once, Body, Ends, AllOrNothing,
}
use sqlite_durable_workflow.Store.Atomic.Statements.{
  Writes-pure, Writes-throw, Writes-exec, Writes-query, Writes-query_row, Writes-wrapping,
  Writes-optional, Writes-bind, Writes-then, Reads-pure, Reads-throw, Reads-query, Reads-query_row,
  Reads-wrapping, Reads-bind, Once-exec, Once-wrapping, Once-bind, continue-Faulted,
}

pub calm-quiet : (s : Session) → s.saved ≡ none → calm s ≡ quiet s.db
calm-quiet s e = ground arith

rollback-saved : (t : Session) → (rollback t).saved ≡ none
rollback-saved t = ground arith

rollback-left : (t : Session) → (rollback t).left_open ≡ t.left_open
rollback-left t = ground arith

rollback-restores : (t : Session) (d : Db) → t.saved ≡ some d → (rollback t).db ≡ d
rollback-restores t d e = ground arith

-- After a refused commit the tables are as the transaction found them, or as it has left them.
refused_commit-cases :
    (s : Session) (d : Db)
    → s.saved ≡ some d
    → ((rollback (refused_commit s)).db ≡ d)
      ⊎ (((refused_commit s).db ≡ s.db) × ((refused_commit s).saved ≡ none))
refused_commit-cases s d e = go s.faults refl
  where
    go :
        (faults : List Bool)
        → s.faults ≡ faults
        → ((rollback (refused_commit s)).db ≡ d)
          ⊎ (((refused_commit s).db ≡ s.db) × ((refused_commit s).saved ≡ none))
    go [] h = inl (ground arith)
    go (true ∷ rest) h = inr (ground arith, ground arith)
    go (false ∷ rest) h = inl (ground arith)

module _ {A B : Type 0} where
  continue-Body :
      (f : A → M B) (p : Result A × Session) (d : Db)
      → p.1.saved ≡ some d
      → ((a : A) → Body (f a))
      → ((continue f (p.0, calm p.1) ≡ ((continue f p).0, calm (continue f p).1))
          × ((continue f p).1.left_open ≡ p.1.left_open))
        ⊎ (Faulted (continue f p).0
            × (((rollback (continue f p).1).db ≡ d)
                ⊎ (((continue f p).1.db ≡ (continue f (p.0, calm p.1)).1.db)
                    × ((continue f p).1.saved ≡ (continue f (p.0, calm p.1)).1.saved))))
  continue-Body f (ok a, s) d e h = (h a).at s d e
  continue-Body f (err x, s) d e h = inl (refl, refl)

  pub Body-bind : (m : M A) (f : A → M B) → Writes m → ((a : A) → Body (f a)) → Body (m >>= f)
  unfolding ◌>>=◌
  Body-bind m f w v = record {
    at = λ s d e. elim (w.at s) [
      | inl q ↦ rw q (elim (continue-Body f (m s) d (w.saved s ∙ e) v) [
        | inl (same, stays) ↦ inl (same, stays ∙ w.left s)
        | inr h ↦ inr h
      ])
      | inr h ↦
          let (fault, same) = continue-Faulted f (m s) h in
          inr (
            fault,
            inl (rollback-restores (continue f (m s)).1 d (ap (λ t. t.saved) same ∙ w.saved s ∙ e)),
          )
    ];
  }

  pub Body-then : (m : M A) (k : M B) → Writes m → Body k → Body (m >> k)
  unfolding ◌>>◌
  Body-then m k w v = Body-bind m (λ _. k) w (λ _. v)

module _ {A : Type 0} where
  -- A body that ends with no commit is rolled back.
  pub Body-Writes : (m : M A) → Writes m → Body m
  Body-Writes m w = record {
    at = λ s d e. elim (w.at s) [
      | inl q ↦ inl (q, w.left s)
      | inr h ↦ inr (h, inl (rollback-restores (m s).1 d (w.saved s ∙ e)))
    ];
  }

  committed :
      {X : Type 0} (k : M A) (s : Session)
      → Reads k
      → (Agrees k s × ((k s).1.left_open ≡ s.left_open))
        ⊎ (Faulted (k s).0
            × (X ⊎ (((k s).1.db ≡ (k (calm s)).1.db) × ((k s).1.saved ≡ (k (calm s)).1.saved))))
  committed k s r = elim (r.writes.at s) [
    | inl e ↦ inl (e, r.writes.left s)
    | inr h ↦
        inr
          (h, inr (r.db s ∙ sym (r.db (calm s)), r.writes.saved s ∙ sym (r.writes.saved (calm s))))
  ]

  pub Body-commit-wrapped : (c : String) (k : M A) → Reads k → Body (wrapping c commit >> k)
  unfolding ◌>>◌ ◌>>=◌ wrapping commit
  Body-commit-wrapped c k r = record { at = λ s d e. from s.faults s.db s.saved s.left_open d e }
    where
      from :
          (fs : List Bool) (now : Db) (saved : Option Db) (left_open : Bool) (d : Db)
          → saved ≡ some d
          → let s : Session = record {
            db = now;
            saved = saved;
            left_open = left_open;
            faults = fs;
          } in
            (Agrees (wrapping c commit >> k) s
              × (((wrapping c commit >> k) s).1.left_open ≡ left_open))
            ⊎ (Faulted ((wrapping c commit >> k) s).0
                × (((rollback ((wrapping c commit >> k) s).1).db ≡ d)
                    ⊎ ((((wrapping c commit >> k) s).1.db
                          ≡ ((wrapping c commit >> k) (calm s)).1.db)
                        × (((wrapping c commit >> k) s).1.saved
                            ≡ ((wrapping c commit >> k) (calm s)).1.saved))))
      from [] now saved left_open d e =
          committed k (record { db = now; saved = none; left_open = left_open; faults = [] }) r
      from (true ∷ fs) now saved left_open d e =
          let s : Session = record {
            db = now;
            saved = saved;
            left_open = left_open;
            faults = fs;
          } in
          inr (
            refl,
            elim (refused_commit-cases s d e) [
              | inl undone ↦ inl undone
              | inr (same, closed) ↦
                  inr (same ∙ sym (r.db (quiet now)), closed ∙ sym (r.writes.saved (quiet now)))
            ],
          )
      from (false ∷ fs) now saved left_open d e =
          committed k (record { db = now; saved = none; left_open = left_open; faults = fs }) r

pub Body-commit : Body commit
unfolding commit
Body-commit = record { at = λ s d e. from s.faults s.db s.saved s.left_open d e }
  where
    from :
        (fs : List Bool) (now : Db) (saved : Option Db) (left_open : Bool) (d : Db)
        → saved ≡ some d
        → let s : Session = record {
          db = now;
          saved = saved;
          left_open = left_open;
          faults = fs;
        } in
          (Agrees commit s × ((commit s).1.left_open ≡ left_open))
          ⊎ (Faulted (commit s).0
              × (((rollback (commit s).1).db ≡ d)
                  ⊎ (((commit s).1.db ≡ (commit (calm s)).1.db)
                      × ((commit s).1.saved ≡ (commit (calm s)).1.saved))))
    from [] now saved left_open d e = inl (refl, refl)
    from (true ∷ fs) now saved left_open d e = inr (
      refl,
      refused_commit-cases (record { db = now; saved = saved; left_open = left_open; faults = fs })
          d e,
    )
    from (false ∷ fs) now saved left_open d e = inl (refl, refl)

rollback-same :
    (t u : Session) → t.db ≡ u.db → t.saved ≡ u.saved → (rollback t).db ≡ (rollback u).db
rollback-same t u e h = ground arith

module _ {A : Type 0} where
  pub AllOrNothing-Once : (m : M A) → Once m → AllOrNothing m
  AllOrNothing-Once m w = record {
    at = λ s e. (
      w.saved s ∙ e,
      subst (Outcome s) (calm-quiet s e)
          (elim (w.at s) [ inl same ↦ inl (rw same refl, rw same refl, w.left s) | inr h ↦ inr h ]),
    );
  }
    where
      Outcome : Session → Session → Type 0
      Outcome s q =
          (((m s).0 ≡ (m q).0) × ((m s).1.db ≡ (m q).1.db) × ((m s).1.left_open ≡ s.left_open))
          ⊎ (Faulted (m s).0 × (((m s).1.db ≡ s.db) ⊎ ((m s).1.db ≡ (m q).1.db)))

  -- The deferred rollback, over a body that runs in a transaction opened at `s`.
  rolled_back :
      (body : M A) (s : Session)
      → s.saved ≡ some s.db
      → Body body
      → let (r, t) = body s in
        let (r', t') = body (calm s) in
        ((rollback t).saved ≡ none)
        × (((r ≡ r')
              × ((rollback t).db ≡ (rollback t').db)
              × ((rollback t).left_open ≡ s.left_open))
            ⊎ (Faulted r × (((rollback t).db ≡ s.db) ⊎ ((rollback t).db ≡ (rollback t').db))))
  rolled_back body s e b = (
    rollback-saved (body s).1,
    elim (b.at s s.db e) [
      | inl (same, stays) ↦ inl (
        rw same refl,
        rollback-same (body s).1 (body (calm s)).1 (rw same refl) (rw same refl),
        rollback-left (body s).1 ∙ stays,
      )
      | inr (h, inl before) ↦ inr (h, inl before)
      | inr (h, inr after) ↦
          inr (h, inr (rollback-same (body s).1 (body (calm s)).1 after.0 after.1))
    ],
  )

  pub AllOrNothing-transaction : (body : M A) → Body body → AllOrNothing (transaction body)
  unfolding transaction ◌>>◌ ◌>>=◌ wrapping begin
  AllOrNothing-transaction body b = record { at = λ s e. from s.faults s.db s.saved s.left_open e }
    where
      from :
          (fs : List Bool) (d : Db) (saved : Option Db) (left_open : Bool)
          → saved ≡ none
          → Ends
              (transaction body)
              (record { db = d; saved = saved; left_open = left_open; faults = fs })
      from fs d none true e = (refl, inr (refl, inl refl))
      from fs d (some x) true e = cc
      from [] d saved false e =
          rolled_back body (record { db = d; saved = some d; left_open = false; faults = [] }) refl
            b
      from (true ∷ fs) d none false e = (refl, inr (refl, inl refl))
      from (true ∷ fs) d (some x) false e = cc
      from (false ∷ fs) d saved false e =
          rolled_back body (record { db = d; saved = some d; left_open = false; faults = fs }) refl
            b

-- For `search`: a goal about a function's body with the function unfolded.
pub ruleset writes_rules = (
  Writes-pure, Writes-throw, Writes-exec, Writes-query, Writes-query_row, Writes-wrapping,
  Writes-optional, Writes-bind, Writes-then,
)

pub ruleset reads_rules =
    (Reads-pure, Reads-throw, Reads-query, Reads-query_row, Reads-wrapping, Reads-bind)

pub ruleset body_rules =
    (writes_rules, reads_rules, Body-bind, Body-then, Body-commit, Body-commit-wrapped)

pub ruleset once_rules = (reads_rules, Once-exec, Once-wrapping, Once-bind)
