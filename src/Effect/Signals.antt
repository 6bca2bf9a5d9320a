-- ===== src/Effect/Signals.antt =====
-- The functions of signal.go, and `CreateTimer`.
use sqlite_durable_workflow.Common.{
  String, ℕ, suc, ℤ, true, false, [], ◌∷◌, ◌++◌, none, some, ◌≡◌, arith, update,
}
use sqlite_durable_workflow.Types.{Signal, Value, signal_received}
use sqlite_durable_workflow.Store.Db.{Db, has_workflow}
use sqlite_durable_workflow.Store.Session.{ok, err, wrap, constraint, quiet}
use sqlite_durable_workflow.Store.Platform.{Platform}
use sqlite_durable_workflow.Step.{json_string}
use sqlite_durable_workflow.Signal.{
  signal_row, received_payload, send_signal, next_signal, is_signal, taken, consume_signal,
}
use sqlite_durable_workflow.Timer.{timer_row, create_timer}
use sqlite_durable_workflow.Effect.Workflows.{logged}

abbrev pub sending : Platform → ℤ → String → String → Value → Db → Db
sending p now id signal_type payload d =
    logged id signal_received (json_string p (received_payload (suc d.last_signal_id) signal_type))
      now
      (record d {
        workflow_signals =
            d.workflow_signals
            ++ signal_row (suc d.last_signal_id) id signal_type (json_string p payload) now ∷ [];
        last_signal_id = suc d.last_signal_id;
      })

module _ (p : Platform) (now : ℤ) (id signal_type : String) (payload : Value) (d : Db) where
  pub send_signal_lem :
      has_workflow id d.workflows ≡ true
      → send_signal p now id signal_type payload (quiet d) ≡ (
        ok (signal_row (suc d.last_signal_id) id signal_type (json_string p payload) now),
        quiet (sending p now id signal_type payload d),
      )
  unfolding send_signal
  send_signal_lem h = ground arith

  pub send_signal_missing :
      has_workflow id d.workflows ≡ false
      → send_signal p now id signal_type payload (quiet d)
        ≡ (err (wrap "insert signal" constraint), quiet d)
  unfolding send_signal
  send_signal_missing h = ground arith

abbrev pub taking : ℕ → Db → Db
taking k d = record d { workflow_signals = update (is_signal k) taken d.workflow_signals }

module _ (p : Platform) (id : String) (d : Db) where
  pub consume_signal-none :
      next_signal p id d ≡ none → consume_signal p id (quiet d) ≡ (ok none, quiet d)
  unfolding consume_signal
  consume_signal-none e = ground arith

  pub consume_signal-some :
      (s : Signal)
      → next_signal p id d ≡ some s
      → consume_signal p id (quiet d) ≡ (ok (some (taken s)), quiet (taking s.signal_id d))
  unfolding consume_signal
  consume_signal-some s e = ground arith

abbrev pub timing : String → ℤ → Db → Db
timing id wake_at d = record d {
  workflow_timers = d.workflow_timers ++ timer_row (suc d.last_timer_id) id wake_at ∷ [];
  last_timer_id = suc d.last_timer_id;
}

module _ (id : String) (wake_at : ℤ) (d : Db) where
  pub create_timer_lem :
      has_workflow id d.workflows ≡ true
      → create_timer id wake_at (quiet d)
        ≡ (ok (timer_row (suc d.last_timer_id) id wake_at), quiet (timing id wake_at d))
  unfolding create_timer
  create_timer_lem h = ground arith

  pub create_timer_missing :
      has_workflow id d.workflows ≡ false
      → create_timer id wake_at (quiet d) ≡ (err (wrap "insert timer" constraint), quiet d)
  unfolding create_timer
  create_timer_missing h = ground arith
