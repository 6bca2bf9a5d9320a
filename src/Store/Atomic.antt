-- ===== src/Store/Atomic.antt =====
-- How the calls of Session.antt meet faults of the driver, for any statements.
pub mod Statements
pub mod Transactions
pub mod Sequence
use sqlite_durable_workflow.Common.{
  String, ⊤, Bool, true, false, List, [], ◌∷◌, Option, none, some, if◌then◌else◌, ◌≡◌, refl, sym,
  ap, ◌∙◌, subst, ◌⊎◌, inl, inr, arith,
}
use sqlite_durable_workflow.Store.Db.{Db}
use sqlite_durable_workflow.Store.Session.{
  Error, lease_mismatch, step_already_completed, no_rows, constraint, driver, wrap, Result, ok, err,
  Session, M, quiet, calm, pure, throw, perform, exec, query, query_row, wrapping, optional, begin,
  commit, continue, ◌>>=◌, ◌>>◌, rollback, transaction, wrapped, some_or_none, or_no_rows,
}

-- The error below the wrappings.
abbrev pub root : Error → Error
root (wrap c e) = root e
root e = e

-- The call failed because the driver refused a call.
abbrev pub Faulted : {A : Type 0} → Result A → Type 0
Faulted (ok a) = ⊥
Faulted (err e) = root e ≡ driver

-- No fault was met: with the faults taken away the same happens.
abbrev pub Agrees : {A : Type 0} → M A → Session → Type 0
Agrees m s = m (calm s) ≡ ((m s).0, calm (m s).1)

-- Statements and their results, inside or outside of a transaction.
pub record Writes {A : Type 0} (m : M A) : Type 0 where
  pub at : (s : Session) → Agrees m s ⊎ Faulted (m s).0
  pub saved : (s : Session) → (m s).1.saved ≡ s.saved
  pub left : (s : Session) → (m s).1.left_open ≡ s.left_open

-- Queries.
pub record Reads {A : Type 0} (m : M A) : Type 0 where
  pub writes : Writes m
  pub db : (s : Session) → (m s).1.db ≡ s.db

-- One statement at most, and queries.
pub record Once {A : Type 0} (m : M A) : Type 0 where
  pub at :
      (s : Session)
      → Agrees m s ⊎ (Faulted (m s).0 × (((m s).1.db ≡ s.db) ⊎ ((m s).1.db ≡ (m (calm s)).1.db)))
  pub saved : (s : Session) → (m s).1.saved ≡ s.saved
  pub left : (s : Session) → (m s).1.left_open ≡ s.left_open

-- The body of a transaction that restores `d`: after its commit it only reads.
pub record Body {A : Type 0} (m : M A) : Type 0 where
  pub at :
      (s : Session) (d : Db)
      → s.saved ≡ some d
      → (Agrees m s × ((m s).1.left_open ≡ s.left_open))
        ⊎ (Faulted (m s).0
            × (((rollback (m s).1).db ≡ d)
                ⊎ (((m s).1.db ≡ (m (calm s)).1.db) × ((m s).1.saved ≡ (m (calm s)).1.saved))))

-- What a function does to the database and what it returns, if the driver refuses nothing.
abbrev pub effect : {A : Type 0} → M A → Db → Db
effect m d = (m (quiet d)).1.db

abbrev pub outcome : {A : Type 0} → M A → Db → Result A
outcome m d = (m (quiet d)).0

-- Whatever calls the driver refuses, no *sql.Tx is left open, and either the function does all
-- that it does without refusals and returns the same, and no transaction of SQLite's is newly left
-- open; or it fails on a refused call, having changed nothing or having changed all that it does
-- without refusals.
abbrev pub Ends : {A : Type 0} → M A → Session → Type 0
Ends m s =
    ((m s).1.saved ≡ none)
    × ((((m s).0 ≡ outcome m s.db)
          × ((m s).1.db ≡ effect m s.db)
          × ((m s).1.left_open ≡ s.left_open))
        ⊎ (Faulted (m s).0 × (((m s).1.db ≡ s.db) ⊎ ((m s).1.db ≡ effect m s.db))))

pub record AllOrNothing {A : Type 0} (m : M A) : Type 0 where
  pub at : (s : Session) → s.saved ≡ none → Ends m s
