-- ===== src/History.antt =====
-- Histories: sections of any goroutines one after another, under any faults of the driver.
pub mod Leases
pub mod Moves
pub mod Keys
pub mod Cursor
pub mod Signals
pub mod Checkpoints
pub mod Done
use sqlite_durable_workflow.Common.{
  false, ⊤, Bool, List, [], ◌∷◌, Option, none, ◌≡◌, refl, sym, ap, ◌∙◌, subst, ◌⊎◌, inl, inr,
}
use sqlite_durable_workflow.Store.Db.{Db, init_schema}
use sqlite_durable_workflow.Store.Session.{Session}
use sqlite_durable_workflow.Store.Atomic.{Ends, effect}
use sqlite_durable_workflow.Store.Platform.{Platform}
use sqlite_durable_workflow.Section.{Section, perform, history}
use sqlite_durable_workflow.Section.Atomicity.{AllOrNothing-perform}
use sqlite_durable_workflow.Change.{Change, stays, Reach, here, next}
use sqlite_durable_workflow.Change.Sound.{perform-Change}
use sqlite_durable_workflow.Invariant.{All, IsWellFormed, WellFormed}
use sqlite_durable_workflow.Invariant.Preserved.{Change-WellFormed}

-- Whatever the driver refuses, a section changes nothing or makes the change of its kind.
pub perform_takes_Change :
    (p : Platform) (c : Section) (s : Session)
    → s.saved ≡ none
    → IsWellFormed s.db
    → Change p s.db c (perform p c s).1.db
perform_takes_Change p c s e wf = elim ((AllOrNothing-perform p c).at s e).1 [
  | inl same ↦ subst (Change p s.db c) (sym same.1) (perform-Change p s.db c wf.unique)
  | inr (fault, inl nothing) ↦ subst (Change p s.db c) (sym nothing) stays
  | inr (fault, inr all) ↦ subst (Change p s.db c) (sym all) (perform-Change p s.db c wf.unique)
]

-- Between sections no *sql.Tx is open.
perform_closed :
    (p : Platform) (c : Section) (s : Session) → s.saved ≡ none → (perform p c s).1.saved ≡ none
perform_closed p c s e = ((AllOrNothing-perform p c).at s e).0

pub history_closed :
    (p : Platform) (cs : List Section) (s : Session)
    → s.saved ≡ none
    → (history p cs s).saved ≡ none
unfolding history
history_closed p [] s e = e
history_closed p (c ∷ cs) s e = history_closed p cs (perform p c s).1 (perform_closed p c s e)

-- What every change of the allowed sections keeps holds at the end of a history of them.
pub history_keeps_under :
    (P : Db → Type 0) (Q : Section → Type 0) (p : Platform)
    → ((c : Section) (d e : Db) → Change p d c e → Q c → IsWellFormed d → P d → P e)
    → (cs : List Section) (s : Session) → s.saved ≡ none
    → All Q cs
    → IsWellFormed s.db
    → P s.db
    → P (history p cs s).db
unfolding history
history_keeps_under P Q p keep [] s e allowed wf h = h
history_keeps_under P Q p keep (c ∷ cs) s e allowed wf h =
    let step = perform_takes_Change p c s e wf in
    history_keeps_under P Q p keep cs (perform p c s).1 (perform_closed p c s e) allowed.1
      (Change-WellFormed step wf) (keep c s.db (perform p c s).1.db step allowed.0 wf h)

any_section : (cs : List Section) → All (λ c. ⊤) cs
any_section [] = tt
any_section (c ∷ cs) = (tt, any_section cs)

-- What every change keeps holds at the end of a history.
pub history_keeps :
    (P : Db → Type 0) (p : Platform)
    → ((c : Section) (d e : Db) → Change p d c e → IsWellFormed d → P d → P e)
    → (cs : List Section) (s : Session) → s.saved ≡ none
    → IsWellFormed s.db
    → P s.db
    → P (history p cs s).db
history_keeps P p keep cs s e wf h =
    history_keeps_under P (λ c. ⊤) p (λ c d f change allowed. keep c d f change) cs s e
      (any_section cs) wf h

history-Reach_from :
    (p : Platform) (cs : List Section) (s : Session) (d : Db)
    → s.saved ≡ none
    → IsWellFormed s.db
    → Reach p d s.db
    → Reach p d (history p cs s).db
history-Reach_from p cs s d e wf reached =
    history_keeps (Reach p d) p (λ c f g change wf' r. next r change) cs s e wf reached

-- Whatever the driver refuses, the database at the end of a history that begins with well-formed
-- tables and no *sql.Tx open can be reached from the first one by steps of the relation alone.
pub history-Reach :
    (p : Platform) (cs : List Section) (s : Session)
    → s.saved ≡ none
    → IsWellFormed s.db
    → Reach p s.db (history p cs s).db
history-Reach p cs s e wf = history-Reach_from p cs s s.db e wf here

pub init-WellFormed : IsWellFormed init_schema
init-WellFormed = record {
  unique = tt;
  rows = tt;
  owned = tt;
  numbered = λ id. refl;
  replayed = tt;
}

-- Every history that begins with a new database, under any faults of the driver, leaves the tables
-- well formed: workflow keys are distinct; the lease's columns are set exactly in RUNNING and
-- WAITING rows, and completed_at exactly in COMPLETED and FAILED ones; every event has its
-- workflow; the events of each workflow are numbered 1, 2, … in the order of insertion; and each
-- row's current_step and version are what its events count.
pub history-WellFormed :
    (p : Platform) (cs : List Section) (faults : List Bool)
    → IsWellFormed
        (history p cs
          (record { db = init_schema; saved = none; left_open = false; faults = faults })).db
history-WellFormed p cs faults =
    history_keeps IsWellFormed p (λ c d e step wf h. Change-WellFormed step wf) cs _ refl
      init-WellFormed init-WellFormed
