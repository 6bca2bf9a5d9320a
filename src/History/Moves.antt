-- ===== src/History/Moves.antt =====
-- The state machine of a workflow, over one section, and what it says of a history.
use sqlite_durable_workflow.Common.{String, ⊤, List, none, some, ◌≡◌, ◌≢◌, sym, subst}
use sqlite_durable_workflow.Types.{Workflow, Status, queued, running, waiting, completed, failed}
use sqlite_durable_workflow.Store.Db.{Db, lookup}
use sqlite_durable_workflow.Store.Session.{Session}
use sqlite_durable_workflow.Store.Platform.{Platform}
use sqlite_durable_workflow.Section.{
  Section, acquire, release, complete, fail, wait, fire, expire, perform, history,
}
use sqlite_durable_workflow.Invariant.{All, IsWellFormed}
use sqlite_durable_workflow.Invariant.Moves.{
  Move, stay, start, wake, pause, give_back, give_up, succeed, end_failed, ring, lapse, Successor,
}
use sqlite_durable_workflow.Invariant.Moves.Sound.{Change-Follows}
use sqlite_durable_workflow.History.{history_keeps_under, perform_takes_Change}

-- Whatever the driver refuses, a section that runs on well-formed tables leaves every workflow a
-- row of the same type and creation time, moves its status only as the state machine allows that
-- function, and raises its cursor and its version by one at most.
pub perform_moves :
    (p : Platform) (c : Section) (s : Session) (id : String) (w : Workflow)
    → s.saved ≡ none
    → IsWellFormed s.db
    → lookup id s.db.workflows ≡ some w
    → Successor c id w (perform p c s).1.db
perform_moves p c s id w e wf row = Change-Follows id w (perform_takes_Change p c s e wf) wf row

-- The sections that bring no workflow to a status: WAITING comes of MarkWaiting alone, RUNNING of
-- AcquireLease, COMPLETED of CompleteWorkflow, FAILED of FailWorkflow, and QUEUED of ReleaseLease,
-- of a timer and of the expiry of a lease.
abbrev pub Avoids : Status → Section → Type 0
Avoids waiting (wait now id worker) = ⊥
Avoids running (acquire now worker duration) = ⊥
Avoids completed (complete now id worker) = ⊥
Avoids failed (fail now id worker) = ⊥
Avoids queued (release now id worker) = ⊥
Avoids queued (fire now) = ⊥
Avoids queued (expire now) = ⊥
Avoids _ _ = ⊤

arrives : {u t : Status} (c : Section) → Avoids u c → (Avoids t c → ⊥) → t ≢ u
arrives c g h e = h (subst (λ x. Avoids x c) (sym e) g)

Move-Avoids : {c : Section} {s t : Status} (u : Status) → Move c s t → Avoids u c → s ≢ u → t ≢ u
Move-Avoids u stay g h = h
Move-Avoids u start g h = arrives _ g (λ x. x)
Move-Avoids u wake g h = arrives _ g (λ x. x)
Move-Avoids u pause g h = arrives _ g (λ x. x)
Move-Avoids u give_back g h = arrives _ g (λ x. x)
Move-Avoids u give_up g h = arrives _ g (λ x. x)
Move-Avoids u succeed g h = arrives _ g (λ x. x)
Move-Avoids u end_failed g h = arrives _ g (λ x. x)
Move-Avoids u ring g h = arrives _ g (λ x. x)
Move-Avoids u lapse g h = arrives _ g (λ x. x)

abbrev pub Elsewhere : String → Status → Db → Type 0
Elsewhere id u d = (v : Workflow) × (lookup id d.workflows ≡ some v) × (v.status ≢ u)

-- Over any history on well-formed tables, whatever the driver refuses, a workflow of the table does
-- not come to a status without the function that leads to it: to WAITING without a MarkWaiting, to
-- RUNNING without an AcquireLease, to COMPLETED without a CompleteWorkflow, to FAILED without a
-- FailWorkflow, and to QUEUED without a ReleaseLease or a sweep of the scheduler.
pub history_causes :
    (p : Platform) (cs : List Section) (s : Session) (id : String) (w : Workflow) (u : Status)
    → s.saved ≡ none
    → IsWellFormed s.db
    → lookup id s.db.workflows ≡ some w
    → w.status ≢ u
    → All (Avoids u) cs
    → Elsewhere id u (history p cs s).db
history_causes p cs s id w u e wf row differs avoids =
    history_keeps_under (Elsewhere id u) (Avoids u) p
      (λ c d f change g wf' (v, at, h).
        let (x, there, step) = Change-Follows id v change wf' at in
        (x, there, Move-Avoids u step.move g h))
      cs s e avoids wf (w, row, differs)
