-- ===== src/Contract/Opening.antt =====
-- engine.go: what `New` leaves, and what a restart finds.
use sqlite_durable_workflow.Common.{
  String, ⊤, Bool, true, false, List, [], ◌∷◌, ◌≡◌, refl, ap, ◌∙◌, inl, inr, ◌⊎◌, arith,
}
use sqlite_durable_workflow.Store.Db.{Db}
use sqlite_durable_workflow.Store.Session.{driver, Result, ok, err}
use sqlite_durable_workflow.Invariant.{All}
use sqlite_durable_workflow.Contract.Refusals.{unopened, refusals, first_refused, new_engine_error}
use sqlite_durable_workflow.Opening.Tables.{File, schema, rows_in, file_of}
use sqlite_durable_workflow.Opening.{
  Handle, call, and_then, wrapping, closing, run_pragma, apply_pragmas, pragmas_of_engine, exec_all,
  new_engine,
}

-- With no error the handle is open on one connection, which has run every PRAGMA in order, and the
-- file has every table and index; with one, the handle is closed. The file has the rows it had in either case.
abbrev pub Opened : File → Result ⊤ × Handle → Type 0
Opened f (ok done, h) =
    (h.opened ≡ true)
    × (h.max_open_conns ≡ 1)
    × (h.pragmas
        ≡ "PRAGMA temp_store=MEMORY" ∷ "PRAGMA foreign_keys=ON" ∷ "PRAGMA busy_timeout=5000"
          ∷ "PRAGMA synchronous=NORMAL" ∷ "PRAGMA journal_mode=WAL" ∷ [])
    × (h.file ≡ file_of (rows_in f))
Opened f (err e, h) = (h.opened ≡ false) × (rows_in h.file ≡ rows_in f)

-- A call runs or is refused; the rest of the stream is the next one's.
call-cases :
    (g : Handle → Handle) (h : Handle)
    → (rest : List Bool) × ((call g h ≡ (ok tt, g (record h { faults = rest })))
        ⊎ (call g h ≡ (err driver, record h { faults = rest })))
call-cases g h = go h.faults refl
  where
    go :
        (faults : List Bool)
        → h.faults ≡ faults
        → (rest : List Bool) × ((call g h ≡ (ok tt, g (record h { faults = rest })))
            ⊎ (call g h ≡ (err driver, record h { faults = rest })))
    go [] e = ([], inl (ground arith))
    go (true ∷ rest) e = (rest, inr (ground arith))
    go (false ∷ rest) e = (rest, inl (ground arith))

abbrev reversed_onto : List String → List String → List String
reversed_onto [] qs = qs
reversed_onto (p ∷ ps) qs = reversed_onto ps (p ∷ qs)

-- What the PRAGMAs leave: all of them run, or some, and a refused call.
abbrev Ran : List String → Handle → Result ⊤ × Handle → Type 0
Ran ps h (ok done, k) =
    (k.opened ≡ h.opened)
    × (k.max_open_conns ≡ h.max_open_conns)
    × (k.pragmas ≡ reversed_onto ps h.pragmas)
    × (k.file ≡ h.file)
Ran ps h (err e, k) = k.file ≡ h.file

apply_pragmas_lem : (ps : List String) (h : Handle) → Ran ps h (apply_pragmas ps h)
unfolding apply_pragmas
apply_pragmas_lem [] h = (refl, refl, refl, refl)
apply_pragmas_lem (p ∷ ps) h =
    let (rest, e) = call-cases (run_pragma p) h in
    elim e [
      | inl e ↦ rw e (apply_pragmas_lem ps (run_pragma p (record h { faults = rest })))
      | inr e ↦ rw e refl
    ]

abbrev applied : List (File → File) → File → File
applied [] f = f
applied (g ∷ gs) f = applied gs (g f)

-- What a list of statements leaves: all of them run, or a refused call, and rows as before.
abbrev Executed : List (File → File) → Handle → Result ⊤ × Handle → Type 0
Executed gs h (ok done, k) =
    (k.opened ≡ h.opened)
    × (k.max_open_conns ≡ h.max_open_conns)
    × (k.pragmas ≡ h.pragmas)
    × (k.file ≡ applied gs h.file)
Executed gs h (err e, k) = rows_in k.file ≡ rows_in h.file

abbrev KeepRows : List (File → File) → Type 0
KeepRows = All (λ g. (f : File) → rows_in (g f) ≡ rows_in f)

Executed-first :
    (g : File → File) (gs : List (File → File)) (h : Handle) (rest : List Bool)
    (t : Result ⊤ × Handle)
    → ((f : File) → rows_in (g f) ≡ rows_in f)
    → Executed gs (record h { file = g h.file; faults = rest }) t
    → Executed (g ∷ gs) h t
Executed-first g gs h rest (ok done, l) keep x = x
Executed-first g gs h rest (err f, l) keep y = y ∙ keep h.file

exec_all_lem : (gs : List (File → File)) (h : Handle) → KeepRows gs → Executed gs h (exec_all gs h)
unfolding exec_all
exec_all_lem [] h keep = (refl, refl, refl, refl)
exec_all_lem (g ∷ gs) h (first, keep) =
    let (rest, e) = call-cases (λ k. record k { file = g k.file }) h in
    elim e [
      | inl e ↦ rw e (
          Executed-first g gs h rest _ first
            (exec_all_lem gs (record h { file = g h.file; faults = rest }) keep))
      | inr e ↦ rw e refl
    ]

after_schema :
    (f : File) (h : Handle) (t : Result ⊤ × Handle)
    → h.file ≡ f
    → h.opened ≡ true
    → h.max_open_conns ≡ 1
    → h.pragmas ≡ reversed_onto pragmas_of_engine []
    → Executed schema h t
    → Opened f (closing (wrapping "schema" t))
after_schema f h (ok done, k) e o m p (o', m', p', e') =
    (o' ∙ o, m' ∙ m, p' ∙ p, e' ∙ ap (λ g. file_of (rows_in g)) e)
after_schema f h (err g, k) e o m p y = (refl, y ∙ ap rows_in e)

schema-KeepRows : KeepRows schema
schema-KeepRows =
    let same : (f : File) → rows_in f ≡ rows_in f = λ f. refl in
    (same, (same, (same, (same, (same, (same, (same, (same, tt))))))))

-- From the handle that `sql.Open` leaves, with the PRAGMAs run or refused.
after_pragmas :
    (f : File) (h : Handle) (t : Result ⊤ × Handle)
    → h.file ≡ f
    → h.opened ≡ true
    → h.max_open_conns ≡ 1
    → h.pragmas ≡ []
    → Ran pragmas_of_engine h t
    → Opened f (
        and_then
          (closing (wrapping "pragmas" t))
          λ l. closing (wrapping "schema" (exec_all schema l)))
after_pragmas f h (err g, k) e o m p y = (refl, ap rows_in (y ∙ e))
after_pragmas f h (ok done, k) e o m p (o', m', p', e') =
    after_schema f k (exec_all schema k) (e' ∙ e) (o' ∙ o) (m' ∙ m)
      (p' ∙ ap (reversed_onto pragmas_of_engine) p) (exec_all_lem schema k schema-KeepRows)

new_engine-Opened : (f : File) (faults : List Bool) → Opened f (new_engine (unopened f faults))
unfolding new_engine
new_engine-Opened f faults =
    let (rest, e) = call-cases (λ k. record k { opened = true }) (unopened f faults) in
    elim e [
      | inr e ↦ rw e (refl, refl)
      | inl e ↦ rw e (
          after_pragmas f (opened_at rest) _ refl refl refl refl
            (apply_pragmas_lem pragmas_of_engine (opened_at rest)))
    ]
  where
    opened_at : List Bool → Handle
    opened_at rest = record (unopened f rest) { opened = true; max_open_conns = 1 }

-- On a database file with any of the tables, whatever the driver refuses: `New` returns the error of
-- the first call that is refused, under "open", under "pragmas" and the PRAGMA's text, or under
-- "schema", and none if no call is. With no error it leaves a handle with one connection, on which
-- the five PRAGMAs have run in their order, and a file with every table and index; with an error it
-- leaves the handle closed. The rows of the file are the same afterwards in either case.
pub new_engine_result :
    (f : File) (faults : List Bool)
    → ((new_engine (unopened f faults)).0 ≡ first_refused refusals faults)
      × Opened f (new_engine (unopened f faults))
new_engine_result f faults = (new_engine_error f faults, new_engine-Opened f faults)

Opened-rows : (f : File) (t : Result ⊤ × Handle) → Opened f t → rows_in t.1.file ≡ rows_in f
Opened-rows f (ok done, h) (o, m, p, e) = ap rows_in e
Opened-rows f (err e, h) (o, y) = y

-- The handle of an engine on a file with every table.
abbrev pub ready : Db → Handle
ready d = record {
  file = file_of d;
  opened = true;
  max_open_conns = 1;
  pragmas = reversed_onto pragmas_of_engine [];
  faults = [];
}

new_engine_lem : (f : File) → new_engine (unopened f []) ≡ (ok tt, ready (rows_in f))
unfolding new_engine apply_pragmas exec_all
new_engine_lem f = refl

-- A `New` that the driver lets through succeeds on what any earlier `New` on the file left, one
-- that failed halfway through the schema included, and finds the rows that the file had at first.
pub new_engine_again :
    (f : File) (faults : List Bool)
    → new_engine (unopened (new_engine (unopened f faults)).1.file []) ≡ (ok tt, ready (rows_in f))
new_engine_again f faults =
    new_engine_lem (new_engine (unopened f faults)).1.file
    ∙ ap (λ d. (ok tt, ready d)) (Opened-rows f _ (new_engine-Opened f faults))
