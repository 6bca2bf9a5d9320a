-- ===== src/Event.antt =====
-- step.go, the event log: `appendEventTx`, `nextSequenceTx` and `GetEvents`.
use Prim.Native.Nat.{max}
use sqlite_durable_workflow.Common.{
  ℕ, zero, suc, ◌+◌, pos, String, ℤ, ⊤, Bool, List, [], ◌∷◌, ◌++◌, Option, none, some, ◌==◌,
  if◌then◌else◌, select,
}
use sqlite_durable_workflow.Types.{EventType, WorkflowEvent}
use sqlite_durable_workflow.Store.Db.{Db, has_workflow}
use sqlite_durable_workflow.Store.Session.{
  M, Result, ok, err, constraint, pure, exec, query, wrapping, ◌>>=◌,
}
use sqlite_durable_workflow.Store.Platform.{Platform}

abbrev pub is_event_of : String → WorkflowEvent → Bool
is_event_of id e = e.workflow_id == id

abbrev pub max_of : ℕ → Option ℕ → ℕ
max_of n none = n
max_of n (some m) = max n m

-- `SELECT MAX(sequence_number) … WHERE workflow_id = ?`; `none` is NULL.
abbrev pub max_sequence : String → List WorkflowEvent → Option ℕ
max_sequence id [] = none
max_sequence id (e ∷ es) =
    let rest = max_sequence id es in
    if is_event_of id e then some (max_of e.sequence_number rest) else rest

abbrev pub next_of : Option ℕ → ℕ
next_of none = 1
next_of (some m) = m + 1

unfoldable pub next_sequence_tx : String → M ℕ
unfolding ◌>>=◌ query pure
next_sequence_tx id = do
  max_seq ← query (λ d. max_sequence id d.workflow_events)
  pure (next_of max_seq)

abbrev pub event_row : ℕ → String → EventType → Option String → ℕ → ℤ → WorkflowEvent
event_row event_id id event_type payload sequence created = record {
  event_id = event_id;
  workflow_id = id;
  event_type = event_type;
  payload_json = payload;
  sequence_number = sequence;
  created_at = created;
}

-- The INSERT of `appendEventTx`, with its foreign key.
unfoldable pub insert_event : String → EventType → Option String → ℕ → ℤ → Db → Result (⊤ × Db)
insert_event id event_type payload sequence created d =
    if has_workflow id d.workflows
    then ok (
      tt,
      record d {
        workflow_events =
            d.workflow_events
            ++ event_row (suc d.last_event_id) id event_type payload sequence created ∷ [];
        last_event_id = suc d.last_event_id;
      },
    )
    else err constraint

-- A sequence number of 0 stands for the next one.
unfoldable pub sequence_or_next : String → ℕ → M ℕ
unfolding wrapping next_sequence_tx pure
sequence_or_next id zero = wrapping "next sequence" (next_sequence_tx id)
sequence_or_next id (suc n) = pure (suc n)

unfoldable pub append_event_tx : String → EventType → Option String → ℕ → ℤ → M ⊤
unfolding sequence_or_next ◌>>=◌ exec insert_event
append_event_tx id event_type payload sequence created = do
  sequence_number ← sequence_or_next id sequence
  exec (insert_event id event_type payload sequence_number created)

unfoldable pub get_events : Platform → String → M (List WorkflowEvent)
unfolding query
get_events p id = query (λ d.
    p.order_by WorkflowEvent (λ e. pos e.sequence_number)
      (select (is_event_of id) d.workflow_events))
