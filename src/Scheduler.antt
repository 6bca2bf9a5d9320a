-- ===== src/Scheduler.antt =====
-- scheduler.go: the housekeeping loop. Only the logging is left out.
use sqlite_durable_workflow.Common.{pos, ℤ, leb_ℤ, ⊤, List, [], ◌∷◌, if◌then◌else◌}
use sqlite_durable_workflow.Store.Session.{M, ok, pure, ◌>>◌}
use sqlite_durable_workflow.Store.Platform.{Platform}
use sqlite_durable_workflow.Timer.{fire_expired_timers, expire_leases}

-- One second, in the nanoseconds of a time.Duration.
abbrev pub default_poll_interval : ℤ
default_poll_interval = pos 1000000000

-- The interval that `NewScheduler` keeps.
unfoldable pub new_scheduler : ℤ → ℤ
new_scheduler interval = if leb_ℤ interval (pos 0) then default_poll_interval else interval

-- A call whose count and error are only logged.
unfoldable pub logged : {A : Type 0} → M A → M ⊤
logged m s = (ok tt, (m s).1)

unfoldable pub tick : Platform → ℤ → M ⊤
unfolding ◌>>◌ logged fire_expired_timers expire_leases
tick p now = do logged (fire_expired_timers p now); logged (expire_leases now)

-- `Run` up to the cancellation of its context: a tick, and one more at each signal of the ticker.
-- The list holds the clock's readings.
unfoldable pub run : Platform → List ℤ → M ⊤
unfolding ◌>>◌ pure tick
run p [] = pure tt
run p (now ∷ later) = do tick p now; run p later
