-- ===== src/Tests/Waits.antt =====
-- The theorems on signals, timers, retries and new workflows, at small databases.
use mathlib.Core.List.{Memᴰ}
use sqlite_durable_workflow.Common.{
  pos, ◌≤ℤ◌, true, false, [], ◌∷◌, none, some, ◌≡◌, refl, update, ◌⊎◌, test_of_eq, arith,
}
use sqlite_durable_workflow.Types.{
  Workflow, Signal, Timer, queued, running, waiting, completed, failed, text,
}
use sqlite_durable_workflow.Store.Db.{Db, lookup}
use sqlite_durable_workflow.Store.Session.{ok, err, wrap, lease_mismatch, quiet}
use sqlite_durable_workflow.Step.{json_string}
use sqlite_durable_workflow.Workflow.{
  is_running, is_eligible, paused, new_workflow, create_workflow, get_workflow,
}
use sqlite_durable_workflow.Query.{
  query_completed, query_failed, query_running, query_queued, query_waiting,
}
use sqlite_durable_workflow.Signal.{signal_row, send_signal, consume_signal, is_pending, taken}
use sqlite_durable_workflow.Timer.{
  timer_row, is_firing, firing_timers, fire_expired_timers, is_abandoned,
}
use sqlite_durable_workflow.Scheduler.{tick}
use sqlite_durable_workflow.Retry.{
  exponential_backoff, next_delay, schedule_retry, retry_step, default_retry_config,
}
use sqlite_durable_workflow.Effect.Workflows.{created, with_workflows}
use sqlite_durable_workflow.Effect.Signals.{sending, taking, timing}
use sqlite_durable_workflow.Effect.Timers.{firing_all}
use sqlite_durable_workflow.Contract.Signals.{consume_signal_result, send-consume_signal}
use sqlite_durable_workflow.Contract.Timers.{fire_expired_timers_result}
use sqlite_durable_workflow.Contract.Ticks.{swept, tick_sweeps}
use sqlite_durable_workflow.Contract.Workflows.{create-get_workflow, Lists, queries_by_status}
use sqlite_durable_workflow.Contract.Retries.{
  capped, exponential_capped, retry_step_waits, retry_step_leaves_timer,
}
use sqlite_durable_workflow.Tests.Samples.{platform, leased_row, leased_db}

abbrev pub first_signal : Signal
first_signal = signal_row 1 "w" "go" (some "one") (pos 3)

abbrev pub second_signal : Signal
second_signal = signal_row 2 "w" "go" (some "two") (pos 4)

-- The signal sent first stands second in the table.
abbrev pub signals_db : Db
signals_db = record leased_db { workflow_signals = second_signal ∷ first_signal ∷ [] }

consume_signal_result_example :
    ((consume_signal platform "w" (quiet signals_db) ≡ (ok none, quiet signals_db))
      × ((r : Signal) → Memᴰ r signals_db.workflow_signals → is_pending "w" r ≡ false))
    ⊎ ((s : Signal) × (is_pending "w" s ≡ true)
        × Memᴰ s signals_db.workflow_signals
        × ((r : Signal)
            → is_pending "w" r ≡ true
            → Memᴰ r signals_db.workflow_signals
            → s.created_at ≤ℤ r.created_at)
        × (consume_signal platform "w" (quiet signals_db)
            ≡ (ok (some (taken s)), quiet (taking s.signal_id signals_db))))
consume_signal_result_example = consume_signal_result platform "w" signals_db

send-consume_signal_example :
    (send_signal platform (pos 5) "w" "go" (text "now") (quiet leased_db) ≡ (
      ok (signal_row 1 "w" "go" (json_string platform (text "now")) (pos 5)),
      quiet (sending platform (pos 5) "w" "go" (text "now") leased_db),
    ))
    × (consume_signal platform "w"
          (quiet (sending platform (pos 5) "w" "go" (text "now") leased_db))
        ≡ (
          ok (some (taken (signal_row 1 "w" "go" (json_string platform (text "now")) (pos 5)))),
          quiet (taking 1 (sending platform (pos 5) "w" "go" (text "now") leased_db)),
        ))
send-consume_signal_example =
    send-consume_signal platform (pos 5) "w" "go" (text "now") leased_db refl (λ r m. elim m [ ])

-- A workflow that waits for a timer at 50.
abbrev pub waiting_db : Db
waiting_db = record leased_db {
  workflows = paused (pos 20) leased_row ∷ [];
  workflow_timers = timer_row 1 "w" (pos 50) ∷ [];
}

abbrev fired_db : Db
fired_db = firing_all (pos 60) (firing_timers platform (pos 60) waiting_db) waiting_db

fire_expired_timers_result_example :
    (fire_expired_timers platform (pos 60) (quiet waiting_db) ≡ (ok 1, quiet fired_db))
    × ((t : Timer)
        → Memᴰ t waiting_db.workflow_timers
        → is_firing (pos 60) waiting_db.workflows t ≡ true
        → (v : Workflow) × (lookup t.workflow_id fired_db.workflows ≡ some v)
          × (v.status ≡ queued)
          × (v.lease_owner ≡ none))
    × ((t : Timer)
        → Memᴰ t fired_db.workflow_timers
        → is_firing (pos 60) fired_db.workflows t ≡ false)
fire_expired_timers_result_example = fire_expired_timers_result platform (pos 60) waiting_db

abbrev swept_db : Db
swept_db = swept platform (pos 60) waiting_db

tick_sweeps_example :
    (tick platform (pos 60) (quiet waiting_db) ≡ (ok tt, quiet swept_db))
    × ((t : Timer)
        → Memᴰ t waiting_db.workflow_timers
        → is_firing (pos 60) waiting_db.workflows t ≡ true
        → (v : Workflow) × (lookup t.workflow_id swept_db.workflows ≡ some v)
          × (v.status ≡ queued)
          × (v.lease_owner ≡ none))
    × ((t : Timer)
        → Memᴰ t swept_db.workflow_timers
        → is_firing (pos 60) swept_db.workflows t ≡ false)
    × ((w : Workflow) → Memᴰ w swept_db.workflows → is_abandoned (pos 60) w ≡ false)
tick_sweeps_example = tick_sweeps platform (pos 60) waiting_db

create-get_workflow_example :
    (create_workflow (pos 30) "v" "mail" (quiet leased_db)
      ≡ (ok (new_workflow "v" "mail" (pos 30)), quiet (created (pos 30) "v" "mail" leased_db)))
    × (get_workflow "v" (quiet (created (pos 30) "v" "mail" leased_db))
        ≡ (ok (new_workflow "v" "mail" (pos 30)), quiet (created (pos 30) "v" "mail" leased_db)))
    × (lookup "w" (created (pos 30) "v" "mail" leased_db).workflows
        ≡ lookup "w" leased_db.workflows)
create-get_workflow_example =
    create-get_workflow (pos 30) "v" "mail" leased_db "w" refl (λ e. cc (test_of_eq "w" "v" e))

queries_by_status_example :
    Lists (query_completed platform) completed waiting_db
    × Lists (query_failed platform) failed waiting_db
    × Lists (query_running platform) running waiting_db
    × Lists (query_queued platform) queued waiting_db
    × Lists (query_waiting platform) waiting waiting_db
queries_by_status_example = queries_by_status platform waiting_db

exponential_capped_example :
    next_delay (exponential_backoff (pos 1) (pos 60)) (pos 7) ≡ pos (capped 1 60 7)
exponential_capped_example = exponential_capped 1 60 7 (omega arith) (omega arith) (omega arith)

schedules : schedule_retry default_retry_config (pos 20) (pos 2) ≡ some (pos 24)
unfolding schedule_retry
schedules = refl

retry_step_waits_example :
    (retry_step (pos 20) (pos 21) "w" "a" (pos 1) (pos 2) default_retry_config (quiet leased_db) ≡ (
      ok true,
      quiet (
          with_workflows
            (update (is_running "w" "a") (paused (pos 21)) leased_db.workflows)
            (timing "w" (pos 24) leased_db)),
    ))
    × (lookup "w" (update (is_running "w" "a") (paused (pos 21)) leased_db.workflows)
        ≡ some (paused (pos 21) leased_row))
    × (is_eligible
          (pos 25)
          (timing "w" (pos 24) leased_db).workflow_timers
          (paused (pos 21) leased_row)
        ≡ true)
retry_step_waits_example =
    retry_step_waits (pos 20) (pos 21) "w" "a" (pos 1) (pos 2) default_retry_config leased_db
      leased_row (pos 24) schedules refl refl (pos 25) refl

retry_step_leaves_timer_example :
    retry_step (pos 20) (pos 21) "w" "b" (pos 1) (pos 2) default_retry_config (quiet leased_db)
    ≡ (err (wrap "mark waiting" lease_mismatch), quiet (timing "w" (pos 24) leased_db))
retry_step_leaves_timer_example =
    retry_step_leaves_timer (pos 20) (pos 21) "w" "b" (pos 1) (pos 2) default_retry_config leased_db
      leased_row (pos 24) schedules (refl, tt) refl refl
