-- ===== src/Store/Session.antt =====
-- A goroutine's calls of database/sql on the one connection that `New` allows. The stream
-- `faults` says of each call whether the driver refuses it; once it is used up, none is refused.
use sqlite_durable_workflow.Common.{
  String, ⊤, Bool, true, false, List, [], ◌∷◌, Option, none, some, if◌then◌else◌,
}
use sqlite_durable_workflow.Store.Db.{Db}

-- The sentinel errors of the engine and of database/sql, a statement that violates a constraint,
-- a call that the driver refuses, and `fmt.Errorf("…: %w", err)`.
pub data Error : Type 0 where
  lease_mismatch step_already_completed no_rows constraint driver : Error
  wrap : String → Error → Error

pub data Result (A : Type 0) : Type 0 where
  ok : A → Result A
  err : Error → Result A

-- `db` is what the connection reads. `saved` is what `Rollback` restores, while a *sql.Tx is open.
-- `left_open` says that SQLite still has a transaction open that database/sql has done with, as it
-- may after a refused `Commit`.
pub record Session : Type 0 where
  pub db : Db
  pub saved : Option Db
  pub left_open : Bool
  pub faults : List Bool

abbrev pub M : Type 0 → Type 0
M A = Session → Result A × Session

-- A session with no transaction open and a driver that refuses nothing.
abbrev pub quiet : Db → Session
quiet d = record { db = d; saved = none; left_open = false; faults = [] }

-- The same database and *sql.Tx, with no transaction left open besides it, and with a driver that
-- refuses nothing from here on.
abbrev pub calm : Session → Session
calm s = record s { left_open = false; faults = [] }

module _ {A : Type 0} where
  unfoldable pub pure : A → M A
  pure a s = (ok a, s)

  unfoldable pub throw : Error → M A
  throw e s = (err e, s)

  abbrev pub perform : (Db → Result (A × Db)) → M A
  perform f s = elim (f s.db) [ ok p ↦ (ok p.0, record s { db = p.1 }) | err e ↦ (err e, s) ]

  -- One statement: the driver refuses it, or it runs; one that fails changes nothing.
  unfoldable pub exec : (Db → Result (A × Db)) → M A
  exec f s = elim s.faults [
    | [] ↦ perform f s
    | refused ∷ rest ↦
        if refused
        then (err driver, record s { faults = rest })
        else perform f (record s { faults = rest })
  ]

  -- A query with its rows read.
  unfoldable pub query : (Db → A) → M A
  unfolding exec
  query f = exec (λ d. ok (f d, d))

  abbrev pub or_no_rows : Option A → Db → Result (A × Db)
  or_no_rows none d = err no_rows
  or_no_rows (some a) d = ok (a, d)

  -- `QueryRow(…).Scan(…)`.
  unfoldable pub query_row : (Db → Option A) → M A
  unfolding exec
  query_row f = exec (λ d. or_no_rows (f d) d)

  -- `if err != nil { return fmt.Errorf("c: %w", err) }`.
  abbrev pub wrapped : String → Result A → Result A
  wrapped c (ok a) = ok a
  wrapped c (err e) = err (wrap c e)

  unfoldable pub wrapping : String → M A → M A
  wrapping c m s = (wrapped c (m s).0, (m s).1)

  -- `if err == sql.ErrNoRows { return nil, nil }`.
  abbrev pub some_or_none : Result A → Result (Option A)
  some_or_none (ok a) = ok (some a)
  some_or_none (err no_rows) = ok none
  some_or_none (err e) = err e

  unfoldable pub optional : M A → M (Option A)
  optional m s = (some_or_none (m s).0, (m s).1)

abbrev pub rollback : Session → Session
rollback s = elim s.saved [ none ↦ s | some d ↦ record s { db = d; saved = none } ]

-- `Begin`. The engine opens no transaction inside another, and SQLite refuses to.
unfoldable pub begin : M ⊤
begin s = if s.left_open then (err driver, s) else elim s.faults [
  | [] ↦ (ok tt, record s { saved = some s.db })
  | refused ∷ rest ↦
      if refused
      then (err driver, record s { faults = rest })
      else (ok tt, record s { saved = some s.db; faults = rest })
]

-- What a refused `Commit` leaves. database/sql has done with the *sql.Tx in any case, and SQLite has
-- either undone the transaction or left it open: the stream's next entry says which.
abbrev pub refused_commit : Session → Session
refused_commit s = elim s.faults [
  | [] ↦ rollback s
  | kept ∷ rest ↦
      if kept
      then record s { saved = none; left_open = true; faults = rest }
      else rollback (record s { faults = rest })
]

unfoldable pub commit : M ⊤
commit s = elim s.faults [
  | [] ↦ (ok tt, record s { saved = none })
  | refused ∷ rest ↦
      if refused
      then (err driver, refused_commit (record s { faults = rest }))
      else (ok tt, record s { saved = none; faults = rest })
]

abbrev pub continue : {A B : Type 0} → (A → M B) → Result A × Session → Result B × Session
continue f (ok a, s) = f a s
continue f (err e, s) = (err e, s)

infixl 5 ◌>>=◌ ◌>>◌
unfoldable pub ◌>>=◌ : {A B : Type 0} → M A → (A → M B) → M B
◌>>=◌ m f s = continue f (m s)

unfoldable pub ◌>>◌ : {A B : Type 0} → M A → M B → M B
unfolding ◌>>=◌
m >> k = m >>= λ _. k

-- `tx, err := e.db.Begin()`, `defer tx.Rollback()` and the rest of the function. After `Commit`,
-- also a refused one, the deferred call does nothing.
unfoldable pub transaction : {A : Type 0} → M A → M A
unfolding begin wrapping ◌>>◌
transaction body s = let t = (wrapping "begin" begin >> body) s in (t.0, rollback t.1)
