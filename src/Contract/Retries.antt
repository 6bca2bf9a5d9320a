-- ===== src/Contract/Retries.antt =====
-- Backoff policies and `RetryStep` (types.go, retry.go).
use Prim.Native.Nat.{min}
use Prim.Native.Nat.mul
use native.Mathlib.Omega.{pow_step}
use native.Mathlib.Nat.{mul_assoc}
use sqlite_durable_workflow.Common.{
  String, ℕ, zero, suc, ◌*◌, ◌^◌, ◌<◌, ◌≤◌, ℤ, pos, ◌*ℤ◌, int64, true, false, some, ◌≡◌, refl, ap,
  sym, ◌∙◌, arith, ltb, leb_ℤ, inl, inr, Bool-cases, List, [], ◌∷◌, ◌++◌, eq_refl, update,
  update-eq_of_count,
}
use sqlite_durable_workflow.Common.Int.{two_63}
use sqlite_durable_workflow.Types.{Workflow, Timer}
use sqlite_durable_workflow.Store.Db.{Db, lookup, is_owner}
use sqlite_durable_workflow.Store.Session.{ok, err, wrap, lease_mismatch, quiet}
use sqlite_durable_workflow.Store.Lookup.{Unique, lookup-update, lookup_mem, lookup_has}
use sqlite_durable_workflow.Workflow.{is_running, paused, is_eligible, has_due_timer}
use sqlite_durable_workflow.Timer.{timer_row}
use sqlite_durable_workflow.Effect.Workflows.{with_workflows, mark_waiting_lem}
use sqlite_durable_workflow.Effect.Signals.{timing, create_timer_lem}
use sqlite_durable_workflow.Contract.Leases.{not_leased, running_row}
use sqlite_durable_workflow.Retry.{
  wait_for_retry, exponential_backoff, RetryConfig, double_delay, next_delay, schedule_retry,
  retry_step,
}

grows : (a x : ℕ) → 1 ≤ x → a ≤ a * x
grows a zero h = absurd (omega arith)
grows a (suc x) h = omega (arith, mul.suc a x)

pow_pos : (r : ℕ) → 1 ≤ 2 ^ r
pow_pos zero = omega arith
pow_pos (suc r) = omega (arith, pow_pos r, pow_step 2 r)

doubled : (b r : ℕ) → b * 2 ^ suc r ≡ b * 2 * 2 ^ r
doubled b r = ap (λ x. b * x) (pow_step 2 r) ∙ sym (mul_assoc b 2 (2 ^ r))

double_exact : (b : ℕ) → b * 2 < two_63 → int64 (pos b *ℤ pos 2) ≡ pos (b * 2)
unfolding ◌*ℤ◌ int64
double_exact b h = ground arith

-- A round of the loop doubles the base and caps it, before the rounds that are left.
double_delay-suc :
    (cap r b : ℕ)
    → b * 2 < two_63
    → 0 < cap
    → (b * 2 ≤ cap → double_delay (pos cap) r (pos (b * 2)) ≡ pos (min (b * 2 * 2 ^ r) cap))
    → double_delay (pos cap) (suc r) (pos b) ≡ pos (min (b * 2 ^ suc r) cap)
unfolding double_delay
double_delay-suc cap r b small z rest = elim (Bool-cases (ltb cap (b * 2))) [
  | inl k ↦
      rw (double_exact b small) (ground (arith, doubled b r, grows (b * 2) (2 ^ r) (pow_pos r)))
  | inr k ↦ rw (double_exact b small) (ground (arith, doubled b r, rest (ground arith)))
]

double_delay_capped :
    (cap r b : ℕ)
    → cap * 2 < two_63
    → 0 < cap
    → b ≤ cap
    → double_delay (pos cap) r (pos b) ≡ pos (min (b * 2 ^ r) cap)
unfolding double_delay
double_delay_capped cap zero b c z h = (ground arith)
double_delay_capped cap (suc r) b c z h =
    double_delay-suc cap r b (omega arith) z (double_delay_capped cap r (b * 2) c z)

due_last :
    (id : String) (wake_at time : ℤ) (k : ℕ) (ts : List Timer)
    → leb_ℤ wake_at time ≡ true
    → has_due_timer id time (ts ++ timer_row k id wake_at ∷ []) ≡ true
due_last id wake_at time k [] h = rw (eq_refl id, h)
due_last id wake_at time k (t ∷ ts) h = ground (arith, due_last id wake_at time k ts)

-- The base doubled once for each retry, up to the cap; with no retry yet, the base.
abbrev pub capped : ℕ → ℕ → ℕ → ℕ
capped base cap zero = base
capped base cap (suc r) = min (base * 2 ^ suc r) cap

-- With a base that is not negative and a positive cap, and twice either within an int64, the delay
-- of ExponentialBackoff is the base doubled once for each retry, up to the cap; the first delay is
-- the base also where that is above the cap.
pub exponential_capped :
    (base cap retries : ℕ)
    → cap * 2 < two_63
    → base * 2 < two_63
    → 0 < cap
    → next_delay (exponential_backoff (pos base) (pos cap)) (pos retries)
      ≡ pos (capped base cap retries)
unfolding next_delay double_delay
exponential_capped base cap zero c b z = refl
exponential_capped base cap (suc r) c b z =
    double_delay-suc cap r base b z (double_delay_capped cap r (base * 2) c z)

-- RetryStep within the retries, called by the owner of a RUNNING workflow: it returns true, the
-- workflow waits, and its new timer makes it eligible for AcquireLease at every time from the one
-- that ScheduleRetry computed.
pub retry_step_waits :
    (now later : ℤ) (id worker : String) (n retries : ℤ) (cfg : RetryConfig) (d : Db) (w : Workflow)
    (wake_at : ℤ)
    → schedule_retry cfg now retries ≡ some wake_at
    → lookup id d.workflows ≡ some w
    → is_running id worker w ≡ true
    → (time : ℤ) → leb_ℤ wake_at time ≡ true
    → (retry_step now later id worker n retries cfg (quiet d) ≡ (
      ok true,
      quiet (
          with_workflows
            (update (is_running id worker) (paused later) d.workflows)
            (timing id wake_at d)),
    ))
      × (lookup id (update (is_running id worker) (paused later) d.workflows)
          ≡ some (paused later w))
      × (is_eligible time (timing id wake_at d).workflow_timers (paused later w) ≡ true)
unfolding retry_step wait_for_retry
retry_step_waits now later id worker n retries cfg d w wake_at s e h time due =
    let key : w.workflow_id ≡ id = (lookup_mem id d.workflows {w = w} e).1 in
    let timer = create_timer_lem id wake_at d (lookup_has id d.workflows {w = w} e) in
    let wait = mark_waiting_lem later id worker (timing id wake_at d) in
    let counted = running_row id worker d.workflows w e h in
    let row =
      lookup-update (is_running id worker) (paused later) (λ x. refl) id d.workflows {w = w} e in
    (
      rw s ground arith,
      row ∙ rw h refl,
      rw (key, due_last id wake_at time (suc d.last_timer_id) d.workflow_timers due) refl,
    )

-- On a table without double keys, RetryStep within the retries, called by a worker that does not own
-- the lease, returns ErrLeaseMismatch under "mark waiting", yet leaves its timer in the table.
pub retry_step_leaves_timer :
    (now later : ℤ) (id worker : String) (n retries : ℤ) (cfg : RetryConfig) (d : Db) (w : Workflow)
    (wake_at : ℤ)
    → schedule_retry cfg now retries ≡ some wake_at
    → Unique d.workflows
    → lookup id d.workflows ≡ some w
    → is_owner worker w.lease_owner ≡ false
    → retry_step now later id worker n retries cfg (quiet d)
      ≡ (err (wrap "mark waiting" lease_mismatch), quiet (timing id wake_at d))
unfolding retry_step wait_for_retry
retry_step_leaves_timer now later id worker n retries cfg d w wake_at s u e h =
    let timer = create_timer_lem id wake_at d (lookup_has id d.workflows {w = w} e) in
    let wait = mark_waiting_lem later id worker (timing id wake_at d) in
    let counted = (not_leased id worker d.workflows w u e h).1 in
    let same = update-eq_of_count (is_running id worker) (paused later) d.workflows counted in
    rw s ground arith
