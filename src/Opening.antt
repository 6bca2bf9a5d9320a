-- ===== src/Opening.antt =====
-- engine.go: `New`, `applyPragmas`, `initSchema`, `Close` and `DB`.
pub mod Tables
use sqlite_durable_workflow.Common.{
  String, ℕ, ⊤, Bool, true, false, List, [], ◌∷◌, Option, none, some, if◌then◌else◌,
}
use sqlite_durable_workflow.Store.Session.{Error, driver, Result, ok, err, wrapped}
use sqlite_durable_workflow.Opening.Tables.{File, schema}

-- A *sql.DB and the file it stands for. `pragmas` are those that the connection has run, the last
-- one first, and `max_open_conns` is 0 for no bound. The stream `faults` says of each call, and of
-- each statement of a call with several, whether the driver refuses it; once it is used up, none is
-- refused.
pub record Handle : Type 0 where
  pub file : File
  pub opened : Bool
  pub max_open_conns : ℕ
  pub pragmas : List String
  pub faults : List Bool

abbrev pub C : Type 0
C = Handle → Result ⊤ × Handle

abbrev pub answered : Bool → (Handle → Handle) → C
answered true f h = (err driver, h)
answered false f h = (ok tt, f h)

abbrev pub call : (Handle → Handle) → C
call f h = elim h.faults [
  | [] ↦ (ok tt, f h)
  | refused ∷ rest ↦ answered refused f (record h { faults = rest })
]

abbrev pub and_then : Result ⊤ × Handle → C → Result ⊤ × Handle
and_then (ok done, h) k = k h
and_then (err e, h) k = (err e, h)

abbrev pub wrapping : String → Result ⊤ × Handle → Result ⊤ × Handle
wrapping c t = (wrapped c t.0, t.1)

-- `Close`, whose error the callers here drop.
abbrev pub close : Handle → Handle
close h = record h { opened = false }

-- `if err := …; err != nil { db.Close(); return nil, err }`.
abbrev pub closing : Result ⊤ × Handle → Result ⊤ × Handle
closing (ok done, h) = (ok done, h)
closing (err e, h) = (err e, close h)

abbrev pub run_pragma : String → Handle → Handle
run_pragma p h = record h { pragmas = p ∷ h.pragmas }

abbrev pub pragmas_of_engine : List String
pragmas_of_engine =
    "PRAGMA journal_mode=WAL" ∷ "PRAGMA synchronous=NORMAL" ∷ "PRAGMA busy_timeout=5000"
    ∷ "PRAGMA foreign_keys=ON" ∷ "PRAGMA temp_store=MEMORY" ∷ []

unfoldable pub apply_pragmas : List String → C
apply_pragmas [] h = (ok tt, h)
apply_pragmas (p ∷ ps) h = and_then (wrapping p (call (run_pragma p) h)) (apply_pragmas ps)

-- One `Exec` of several statements: the first that is refused ends it, and the ones before it stay.
unfoldable pub exec_all : List (File → File) → C
exec_all [] h = (ok tt, h)
exec_all (f ∷ fs) h = and_then (call (λ k. record k { file = f k.file }) h) (exec_all fs)

-- `New`, on a handle that nothing has been done with; with no error the engine's is the one left.
unfoldable pub new_engine : C
new_engine h = and_then (wrapping "open" (call (λ k. record k { opened = true }) h)) λ k.
    and_then
      (closing
        (wrapping "pragmas" (apply_pragmas pragmas_of_engine (record k { max_open_conns = 1 }))))
      λ l. closing (wrapping "schema" (exec_all schema l))
