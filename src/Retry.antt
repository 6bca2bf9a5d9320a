-- ===== src/Retry.antt =====
-- types.go, the backoff policies, and retry.go. Counts and delays are Go's 64-bit integers.
use sqlite_durable_workflow.Common.{
  ℕ, zero, suc, pos, String, ℤ, ◌+ℤ◌, ◌*ℤ◌, ltb_ℤ, int64, pos_part, Bool, true, false, ◌&&◌, Option,
  none, some, if◌then◌else◌,
}
use sqlite_durable_workflow.Store.Session.{M, pure, wrapping, ◌>>◌}
use sqlite_durable_workflow.Workflow.{mark_waiting}
use sqlite_durable_workflow.Timer.{create_timer}

-- The three implementations of the interface `RetryPolicy`, with their fields.
pub data RetryPolicy : Type 0 where
  fixed_backoff : ℤ → RetryPolicy
  linear_backoff : ℤ → RetryPolicy
  exponential_backoff : ℤ → ℤ → RetryPolicy

pub record RetryConfig : Type 0 where
  pub max_retries : ℤ
  pub policy : RetryPolicy

-- The loop of `ExponentialBackoff.NextDelay` with the rounds that are left.
unfoldable pub double_delay : ℤ → ℕ → ℤ → ℤ
unfolding int64 ◌*ℤ◌
double_delay max_seconds zero delay = delay
double_delay max_seconds (suc rounds) delay =
    let doubled = int64 (delay *ℤ pos 2) in
    let rest = double_delay max_seconds rounds doubled in
    if ltb_ℤ (pos 0) max_seconds && ltb_ℤ max_seconds doubled then max_seconds else rest

-- `NextDelay`; a loop to a negative bound makes no round.
unfoldable pub next_delay : RetryPolicy → ℤ → ℤ
unfolding double_delay int64 ◌*ℤ◌ ◌+ℤ◌
next_delay (fixed_backoff delay_seconds) retry_count = delay_seconds
next_delay (linear_backoff base_seconds) retry_count =
    int64 (base_seconds *ℤ int64 (retry_count +ℤ pos 1))
next_delay (exponential_backoff base_seconds max_seconds) retry_count =
    double_delay max_seconds (pos_part retry_count) base_seconds

abbrev pub default_retry_config : RetryConfig
default_retry_config = record { max_retries = pos 3; policy = exponential_backoff (pos 1) (pos 60) }

-- `none` is (0, false).
unfoldable pub schedule_retry : RetryConfig → ℤ → ℤ → Option ℤ
unfolding next_delay int64 ◌+ℤ◌
schedule_retry c now retry_count =
    if ltb_ℤ c.max_retries retry_count
    then none
    else some (int64 (now +ℤ next_delay c.policy retry_count))

-- `RetryStep` after `ScheduleRetry`.
unfoldable pub wait_for_retry : ℤ → String → String → Option ℤ → M Bool
unfolding pure ◌>>◌ wrapping create_timer mark_waiting
wait_for_retry now id worker none = pure false
wait_for_retry now id worker (some wake_at) = do
  wrapping "create retry timer" (create_timer id wake_at)
  wrapping "mark waiting" (mark_waiting now id worker)
  pure true

-- The clock is read by `ScheduleRetry` and once more by `MarkWaiting`.
unfoldable pub retry_step : ℤ → ℤ → String → String → ℤ → ℤ → RetryConfig → M Bool
unfolding wait_for_retry schedule_retry
retry_step now later id worker step_number retry_count cfg =
    wait_for_retry later id worker (schedule_retry cfg now retry_count)
