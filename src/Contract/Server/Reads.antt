-- ===== src/Contract/Server/Reads.antt =====
-- cmd/server/main.go: the handlers that only read, with and without faults of the driver.
use sqlite_durable_workflow.Common.{
  ◌==◌, String, true, false, Bool, ◌≡◌, refl, inl, inr, Option-cases,
}
use sqlite_durable_workflow.Store.Db.{Db, lookup}
use sqlite_durable_workflow.Store.Session.{Session, quiet, M}
use sqlite_durable_workflow.Store.Platform.{Platform}
use sqlite_durable_workflow.Store.Atomic.{Reads}
use sqlite_durable_workflow.Store.Atomic.Transactions.{reads_rules}
use sqlite_durable_workflow.Types.{Workflow, queued, running, waiting, failed}
use sqlite_durable_workflow.Event.{get_events}
use sqlite_durable_workflow.Workflow.{get_workflow, is_status}
use sqlite_durable_workflow.Step.{get_steps}
use sqlite_durable_workflow.Signal.{get_signals}
use sqlite_durable_workflow.Query.{
  query_workflows, avg_step_duration, query_failed, query_running, query_queued, query_waiting,
}
use sqlite_durable_workflow.Server.Routes.{Reader}
use sqlite_durable_workflow.Server.Serve.{Server, read}

Reads-get_workflow : (id : String) → Reads (get_workflow id)
unfolding get_workflow
Reads-get_workflow id = search reads_rules

Reads-get_events : (p : Platform) (id : String) → Reads (get_events p id)
unfolding get_events
Reads-get_events p id = search reads_rules

Reads-get_steps : (p : Platform) (id : String) → Reads (get_steps p id)
unfolding get_steps
Reads-get_steps p id = search reads_rules

Reads-get_signals : (p : Platform) (id : String) (unread : Bool) → Reads (get_signals p id unread)
unfolding get_signals
Reads-get_signals p id true = search reads_rules
Reads-get_signals p id false = search reads_rules

Reads-query_workflows : (p : Platform) (where_ : Workflow → Bool) → Reads (query_workflows p where_)
unfolding query_workflows
Reads-query_workflows p where_ = search reads_rules

Reads-avg_step_duration : (p : Platform) → Reads (avg_step_duration p)
unfolding avg_step_duration
Reads-avg_step_duration p = search reads_rules

get_signals_lem :
    (p : Platform) (id : String) (unread : Bool) (d : Db)
    → (get_signals p id unread (quiet d)).1 ≡ quiet d
unfolding get_signals
get_signals_lem p id true d = refl
get_signals_lem p id false d = refl

pub read_lem :
    (v : Server) (d : Db) (r : Reader) (id unconsumed : String)
    → (read v r id unconsumed (quiet d)).1 ≡ quiet d
unfolding read get_workflow get_events get_steps get_signals avg_step_duration query_failed
    query_running query_queued query_waiting
read_lem v d Reader.get_workflow id unconsumed = elim (Option-cases (lookup id d.workflows)) [
  | inl e ↦ rw e refl
  | inr (w, e) ↦ rw e refl
]
read_lem v d Reader.get_steps id unconsumed = refl
read_lem v d Reader.get_signals id unconsumed =
    get_signals_lem v.platform id (unconsumed == "true") d
read_lem v d Reader.get_events id unconsumed = refl
read_lem v d Reader.query_failed id unconsumed = refl
read_lem v d Reader.query_running id unconsumed = refl
read_lem v d Reader.query_queued id unconsumed = refl
read_lem v d Reader.query_waiting id unconsumed = refl
read_lem v d Reader.avg_step_duration id unconsumed = refl

-- The driver may refuse the query; nothing is written, and no transaction is opened.
abbrev pub Kept : Session → Session → Type 0
Kept s t = (t.db ≡ s.db) × (t.saved ≡ s.saved)

Reads-Kept : {A : Type 0} {m : M A} → Reads m → (s : Session) → Kept s (m s).1
Reads-Kept r s = (r.db s, r.writes.saved s)

pub read-Kept :
    (v : Server) (r : Reader) (id unconsumed : String) (s : Session)
    → Kept s (read v r id unconsumed s).1
unfolding read query_failed query_running query_queued query_waiting
read-Kept v Reader.get_workflow id unconsumed s = Reads-Kept (Reads-get_workflow id) s
read-Kept v Reader.get_steps id unconsumed s = Reads-Kept (Reads-get_steps v.platform id) s
read-Kept v Reader.get_signals id unconsumed s =
    Reads-Kept (Reads-get_signals v.platform id (unconsumed == "true")) s
read-Kept v Reader.get_events id unconsumed s = Reads-Kept (Reads-get_events v.platform id) s
read-Kept v Reader.query_failed id unconsumed s =
    Reads-Kept (Reads-query_workflows v.platform (λ w. is_status w.status failed)) s
read-Kept v Reader.query_running id unconsumed s =
    Reads-Kept (Reads-query_workflows v.platform (λ w. is_status w.status running)) s
read-Kept v Reader.query_queued id unconsumed s =
    Reads-Kept (Reads-query_workflows v.platform (λ w. is_status w.status queued)) s
read-Kept v Reader.query_waiting id unconsumed s =
    Reads-Kept (Reads-query_workflows v.platform (λ w. is_status w.status waiting)) s
read-Kept v Reader.avg_step_duration id unconsumed s =
    Reads-Kept (Reads-avg_step_duration v.platform) s
