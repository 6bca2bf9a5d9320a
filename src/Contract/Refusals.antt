-- ===== src/Contract/Refusals.antt =====
-- engine.go: which error `New` returns when the driver refuses a call.
use sqlite_durable_workflow.Common.{⊤, Bool, true, false, List, [], ◌∷◌, ◌≡◌, refl}
use sqlite_durable_workflow.Store.Session.{driver, wrap, Error, Result, ok, err}
use sqlite_durable_workflow.Opening.Tables.{File}
use sqlite_durable_workflow.Opening.{Handle, apply_pragmas, exec_all, new_engine}

-- A handle that nothing has been done with.
abbrev pub unopened : File → List Bool → Handle
unopened f faults = record {
  file = f;
  opened = false;
  max_open_conns = 0;
  pragmas = [];
  faults = faults;
}

-- The errors of `New`, one for each call of the driver in their order: the opening, the PRAGMAs and
-- the statements of the schema.
abbrev pub refusals : List Error
refusals =
    wrap "open" driver
    ∷ wrap "pragmas" (wrap "PRAGMA journal_mode=WAL" driver)
    ∷ wrap "pragmas" (wrap "PRAGMA synchronous=NORMAL" driver)
    ∷ wrap "pragmas" (wrap "PRAGMA busy_timeout=5000" driver)
    ∷ wrap "pragmas" (wrap "PRAGMA foreign_keys=ON" driver)
    ∷ wrap "pragmas" (wrap "PRAGMA temp_store=MEMORY" driver)
    ∷ wrap "schema" driver
    ∷ wrap "schema" driver
    ∷ wrap "schema" driver
    ∷ wrap "schema" driver
    ∷ wrap "schema" driver
    ∷ wrap "schema" driver
    ∷ wrap "schema" driver
    ∷ wrap "schema" driver
    ∷ []

-- The error of the first call that is refused.
abbrev pub first_refused : List Error → List Bool → Result ⊤
first_refused [] faults = ok tt
first_refused (e ∷ es) [] = ok tt
first_refused (e ∷ es) (true ∷ faults) = err e
first_refused (e ∷ es) (false ∷ faults) = first_refused es faults

-- Call by call.
pub new_engine_error :
    (f : File) (faults : List Bool)
    → (new_engine (unopened f faults)).0 ≡ first_refused refusals faults
unfolding new_engine apply_pragmas exec_all
new_engine_error f [] = refl
new_engine_error f (true ∷ r) = refl
new_engine_error f (false ∷ []) = refl
new_engine_error f (false ∷ true ∷ r) = refl
new_engine_error f (false ∷ false ∷ []) = refl
new_engine_error f (false ∷ false ∷ true ∷ r) = refl
new_engine_error f (false ∷ false ∷ false ∷ []) = refl
new_engine_error f (false ∷ false ∷ false ∷ true ∷ r) = refl
new_engine_error f (false ∷ false ∷ false ∷ false ∷ []) = refl
new_engine_error f (false ∷ false ∷ false ∷ false ∷ true ∷ r) = refl
new_engine_error f (false ∷ false ∷ false ∷ false ∷ false ∷ []) = refl
new_engine_error f (false ∷ false ∷ false ∷ false ∷ false ∷ true ∷ r) = refl
new_engine_error f (false ∷ false ∷ false ∷ false ∷ false ∷ false ∷ []) = refl
new_engine_error f (false ∷ false ∷ false ∷ false ∷ false ∷ false ∷ true ∷ r) = refl
new_engine_error f (false ∷ false ∷ false ∷ false ∷ false ∷ false ∷ false ∷ []) = refl
new_engine_error f (false ∷ false ∷ false ∷ false ∷ false ∷ false ∷ false ∷ true ∷ r) = refl
new_engine_error f (false ∷ false ∷ false ∷ false ∷ false ∷ false ∷ false ∷ false ∷ []) = refl
new_engine_error f (false ∷ false ∷ false ∷ false ∷ false ∷ false ∷ false ∷ false ∷ true ∷ r) = refl
new_engine_error f (false ∷ false ∷ false ∷ false ∷ false ∷ false ∷ false ∷ false ∷ false ∷ []) =
    refl
new_engine_error f
      (false ∷ false ∷ false ∷ false ∷ false ∷ false ∷ false ∷ false ∷ false ∷ true ∷ r) =
    refl
new_engine_error f
      (false ∷ false ∷ false ∷ false ∷ false ∷ false ∷ false ∷ false ∷ false ∷ false ∷ []) =
    refl
new_engine_error f
      (false ∷ false ∷ false ∷ false ∷ false ∷ false ∷ false ∷ false ∷ false ∷ false ∷ true ∷ r) =
    refl
new_engine_error f
      (false ∷ false ∷ false ∷ false ∷ false ∷ false ∷ false ∷ false ∷ false ∷ false ∷ false ∷ []) =
    refl
new_engine_error f
      (false ∷ false ∷ false ∷ false ∷ false ∷ false ∷ false ∷ false ∷ false ∷ false ∷ false ∷ true
        ∷ r) =
    refl
new_engine_error f
      (false ∷ false ∷ false ∷ false ∷ false ∷ false ∷ false ∷ false ∷ false ∷ false ∷ false ∷ false
        ∷ []) =
    refl
new_engine_error f
      (false ∷ false ∷ false ∷ false ∷ false ∷ false ∷ false ∷ false ∷ false ∷ false ∷ false ∷ false
        ∷ true ∷ r) =
    refl
new_engine_error f
      (false ∷ false ∷ false ∷ false ∷ false ∷ false ∷ false ∷ false ∷ false ∷ false ∷ false ∷ false
        ∷ false ∷ []) =
    refl
new_engine_error f
      (false ∷ false ∷ false ∷ false ∷ false ∷ false ∷ false ∷ false ∷ false ∷ false ∷ false ∷ false
        ∷ false ∷ true ∷ r) =
    refl
new_engine_error f
      (false ∷ false ∷ false ∷ false ∷ false ∷ false ∷ false ∷ false ∷ false ∷ false ∷ false ∷ false
        ∷ false ∷ false ∷ r) =
    refl
