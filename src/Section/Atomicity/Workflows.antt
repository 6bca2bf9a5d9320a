-- ===== src/Section/Atomicity/Workflows.antt =====
-- The functions of workflow.go under faults of the driver.
use sqlite_durable_workflow.Common.{
  String, ℕ, zero, suc, ℤ, ⊤, Bool, true, false, Option, none, some, if◌then◌else◌,
}
use sqlite_durable_workflow.Types.{
  Status, completed, failed, workflow_completed, workflow_failed, EventType,
}
use sqlite_durable_workflow.Store.Session.{Error, lease_mismatch, pure, throw}
use sqlite_durable_workflow.Store.Platform.{Platform}
use sqlite_durable_workflow.Store.Atomic.{Writes, Reads, Body, AllOrNothing}
use sqlite_durable_workflow.Store.Atomic.Statements.{Writes-pure, Reads-pure, Reads-throw}
use sqlite_durable_workflow.Store.Atomic.Transactions.{
  AllOrNothing-Once, AllOrNothing-transaction, Body-Writes, writes_rules, reads_rules, body_rules,
  once_rules,
}
use sqlite_durable_workflow.Store.Db.{is_owner}
use sqlite_durable_workflow.Event.{next_sequence_tx, sequence_or_next, append_event_tx}
use sqlite_durable_workflow.Workflow.{
  create_workflow, claim, acquire_lease, require_affected, finish, complete_workflow, fail_workflow,
  renew_lease, release_lease, mark_waiting, check_owner, verify_lease,
}

pub Writes-sequence_or_next : (id : String) (n : ℕ) → Writes (sequence_or_next id n)
unfolding sequence_or_next next_sequence_tx
Writes-sequence_or_next id zero = search (writes_rules)
Writes-sequence_or_next id (suc n) = search (writes_rules)

pub Writes-append_event_tx :
    (id : String) (event_type : EventType) (payload : Option String) (n : ℕ) (now : ℤ)
    → Writes (append_event_tx id event_type payload n now)
unfolding append_event_tx
Writes-append_event_tx id event_type payload n now = search (writes_rules, Writes-sequence_or_next)

pub AllOrNothing-create_workflow :
    (now : ℤ) (id workflow_type : String) → AllOrNothing (create_workflow now id workflow_type)
unfolding create_workflow
AllOrNothing-create_workflow now id workflow_type =
    AllOrNothing-transaction _ (search (body_rules, Writes-append_event_tx) depth 8)

pub Reads-require_affected : (n : ℕ) → Reads (require_affected n)
unfolding require_affected
Reads-require_affected zero = search (reads_rules)
Reads-require_affected (suc n) = search (reads_rules)

pub Writes-require_affected : (n : ℕ) → Writes (require_affected n)
Writes-require_affected n = (Reads-require_affected n).writes

pub Body-claim :
    (now : ℤ) (worker : String) (expires : ℤ) (found : Option String)
    → Body (claim now worker expires found)
unfolding claim
Body-claim now worker expires none = Body-Writes _ (Writes-pure none)
Body-claim now worker expires (some id) = search (body_rules, Writes-append_event_tx) depth 8

pub AllOrNothing-acquire_lease :
    (p : Platform) (now : ℤ) (worker : String) (duration : ℤ)
    → AllOrNothing (acquire_lease p now worker duration)
unfolding acquire_lease
AllOrNothing-acquire_lease p now worker duration =
    AllOrNothing-transaction _ (search (body_rules, Body-claim) depth 8)

pub AllOrNothing-renew_lease :
    (p : Platform) (now : ℤ) (id worker : String) (duration : ℤ)
    → AllOrNothing (renew_lease p now id worker duration)
unfolding renew_lease
AllOrNothing-renew_lease p now id worker duration =
    AllOrNothing-Once _ (search (once_rules, Reads-require_affected))

pub AllOrNothing-release_lease :
    (now : ℤ) (id worker : String) → AllOrNothing (release_lease now id worker)
unfolding release_lease
AllOrNothing-release_lease now id worker =
    AllOrNothing-Once _ (search (once_rules, Reads-require_affected))

pub AllOrNothing-mark_waiting :
    (now : ℤ) (id worker : String) → AllOrNothing (mark_waiting now id worker)
unfolding mark_waiting
AllOrNothing-mark_waiting now id worker =
    AllOrNothing-Once _ (search (once_rules, Reads-require_affected))

pub AllOrNothing-finish :
    (status : Status) (event_type : EventType) (now : ℤ) (id worker : String)
    → AllOrNothing (finish status event_type now id worker)
unfolding finish
AllOrNothing-finish status event_type now id worker =
    AllOrNothing-transaction _
      (search (body_rules, Writes-append_event_tx, Writes-require_affected) depth 8)

pub AllOrNothing-complete_workflow :
    (now : ℤ) (id worker : String) → AllOrNothing (complete_workflow now id worker)
unfolding complete_workflow
AllOrNothing-complete_workflow = AllOrNothing-finish completed workflow_completed

pub AllOrNothing-fail_workflow :
    (now : ℤ) (id worker : String) → AllOrNothing (fail_workflow now id worker)
unfolding fail_workflow
AllOrNothing-fail_workflow = AllOrNothing-finish failed workflow_failed

pub Reads-if : (b : Bool) (e : Error) → Reads (if b then pure tt else throw {A = ⊤} e)
Reads-if true e = Reads-pure tt
Reads-if false e = Reads-throw e

pub Reads-check_owner : (worker : String) (owner : Option String) → Reads (check_owner worker owner)
unfolding check_owner
Reads-check_owner worker owner = Reads-if (is_owner worker owner) lease_mismatch

pub Writes-check_owner :
    (worker : String) (owner : Option String) → Writes (check_owner worker owner)
Writes-check_owner worker owner = (Reads-check_owner worker owner).writes

pub Reads-verify_lease : (id worker : String) → Reads (verify_lease id worker)
unfolding verify_lease
Reads-verify_lease id worker = search (reads_rules, Reads-check_owner)
