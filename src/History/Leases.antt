-- ===== src/History/Leases.antt =====
-- What a history cannot do to a workflow that has ended, nor to one that is leased.
use sqlite_durable_workflow.Common.{String, ℤ, true, List, none, some, ◌≡◌}
use sqlite_durable_workflow.Types.{Workflow, running}
use sqlite_durable_workflow.Store.Db.{lookup}
use sqlite_durable_workflow.Store.Session.{Session}
use sqlite_durable_workflow.Store.Platform.{Platform}
use sqlite_durable_workflow.Section.{Section, history}
use sqlite_durable_workflow.Invariant.{All, IsWellFormed, is_terminal}
use sqlite_durable_workflow.Invariant.Terminal.{Change-terminal}
use sqlite_durable_workflow.Invariant.Leased.{Foreign, Change-leased}
use sqlite_durable_workflow.History.{history_keeps, history_keeps_under}

-- From any well-formed database, a workflow that is COMPLETED or FAILED keeps its row as it is
-- through every history of sections, whoever calls them and whichever statements the driver
-- refuses.
pub history_terminal :
    (p : Platform) (cs : List Section) (s : Session) (id : String) (w : Workflow)
    → s.saved ≡ none
    → IsWellFormed s.db
    → lookup id s.db.workflows ≡ some w
    → is_terminal w.status ≡ true
    → lookup id (history p cs s).db.workflows ≡ some w
history_terminal p cs s id w e wf row ended =
    history_keeps (λ d. lookup id d.workflows ≡ some w) p
      (λ c d f change wf' row'. Change-terminal id w ended change wf' row') cs s e wf row

-- While a RUNNING workflow is leased to `owner` until `until`, a history of sections none of which
-- is called by `owner`, and in which AcquireLease and the expiry sweep read a clock before
-- `until`, leaves the workflow's row as it is, under any faults of the driver: no other worker
-- acquires, renews, releases, advances, pauses or ends it.
pub history_leased :
    (p : Platform) (cs : List Section) (s : Session) (id : String) (w : Workflow) (owner : String)
    (until : ℤ)
    → s.saved ≡ none
    → IsWellFormed s.db
    → lookup id s.db.workflows ≡ some w
    → w.status ≡ running
    → w.lease_owner ≡ some owner
    → w.lease_expires_at ≡ some until
    → All (Foreign owner until) cs
    → lookup id (history p cs s).db.workflows ≡ some w
history_leased p cs s id w owner until e wf row r o x foreign =
    history_keeps_under (λ d. lookup id d.workflows ≡ some w) (Foreign owner until) p
      (λ c d f change g wf' row'. Change-leased id w owner until change g wf' r o x row') cs s e
      foreign wf row
