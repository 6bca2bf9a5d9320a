-- ===== src/Signal.antt =====
-- signal.go: asynchronous signals, kept until a workflow consumes them.
use sqlite_durable_workflow.Common.{
  ℕ, suc, pos, String, ℤ, ⊤, Bool, true, false, not, ◌&&◌, eqb, List, [], ◌∷◌, ◌++◌, Option, none,
  some, ◌==◌, if◌then◌else◌, select, first, update,
}
use sqlite_durable_workflow.Types.{Signal, Value, int, text, object, end, field, signal_received}
use sqlite_durable_workflow.Store.Db.{Db, has_workflow}
use sqlite_durable_workflow.Store.Session.{
  M, Result, ok, err, constraint, pure, exec, query, query_row, wrapping, optional, commit,
  transaction, ◌>>=◌, ◌>>◌,
}
use sqlite_durable_workflow.Store.Platform.{Platform}
use sqlite_durable_workflow.Event.{append_event_tx}
use sqlite_durable_workflow.Step.{json_string}

abbrev pub signal_row : ℕ → String → String → Option String → ℤ → Signal
signal_row signal_id id signal_type payload now = record {
  signal_id = signal_id;
  workflow_id = id;
  signal_type = signal_type;
  payload_json = payload;
  consumed = false;
  created_at = now;
}

-- The INSERT of `SendSignal`, with `LastInsertId` and the foreign key.
unfoldable pub insert_signal : String → String → Option String → ℤ → Db → Result (ℕ × Db)
insert_signal id signal_type payload now d =
    if has_workflow id d.workflows
    then ok (
      suc d.last_signal_id,
      record d {
        workflow_signals =
            d.workflow_signals ++ signal_row (suc d.last_signal_id) id signal_type payload now ∷ [];
        last_signal_id = suc d.last_signal_id;
      },
    )
    else err constraint

abbrev pub received_payload : ℕ → String → Value
received_payload signal_id signal_type =
    object (field "signal_id" (int (pos signal_id)) (field "signal_type" (text signal_type) end))

unfoldable pub send_signal : Platform → ℤ → String → String → Value → M Signal
unfolding ◌>>=◌ ◌>>◌ transaction wrapping exec commit pure json_string insert_signal append_event_tx
send_signal p now id signal_type payload = transaction do
  signal_id ←
      wrapping "insert signal" (exec (insert_signal id signal_type (json_string p payload) now))
  append_event_tx id signal_received (json_string p (received_payload signal_id signal_type)) 0 now
  wrapping "commit" commit
  pure (signal_row signal_id id signal_type (json_string p payload) now)

-- `WHERE workflow_id = ? AND consumed = 0`.
abbrev pub is_pending : String → Signal → Bool
is_pending id s = s.workflow_id == id && not s.consumed

unfoldable pub next_signal : Platform → String → Db → Option Signal
next_signal p id d =
    first (p.order_by Signal (λ s. s.created_at) (select (is_pending id) d.workflow_signals))

abbrev pub is_signal : ℕ → Signal → Bool
is_signal k s = eqb s.signal_id k

abbrev pub taken : Signal → Signal
taken s = record s { consumed = true }

-- `UPDATE workflow_signals SET consumed = 1 WHERE signal_id = ?`.
unfoldable pub mark_consumed : ℕ → Db → Result (⊤ × Db)
mark_consumed k d =
    ok (tt, record d { workflow_signals = update (is_signal k) taken d.workflow_signals })

-- `ConsumeSignal` after its SELECT: with no row it returns nil, nil.
unfoldable pub take_signal : Option Signal → M (Option Signal)
unfolding pure ◌>>◌ wrapping exec mark_consumed commit
take_signal none = pure none
take_signal (some s) = do
  wrapping "consume" (exec (mark_consumed s.signal_id))
  wrapping "commit" commit
  pure (some (taken s))

unfoldable pub consume_signal : Platform → String → M (Option Signal)
unfolding ◌>>=◌ transaction wrapping optional query_row next_signal take_signal
consume_signal p id =
    transaction
      do found ← wrapping "select" (optional (query_row (next_signal p id))); take_signal found

abbrev is_listed : String → Bool → Signal → Bool
is_listed id unconsumed_only s = if unconsumed_only then is_pending id s else s.workflow_id == id

unfoldable pub get_signals : Platform → String → Bool → M (List Signal)
unfolding query
get_signals p id unconsumed_only = query (λ d.
    p.order_by Signal (λ s. s.created_at)
      (select (is_listed id unconsumed_only) d.workflow_signals))
