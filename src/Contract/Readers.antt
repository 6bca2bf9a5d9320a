-- ===== src/Contract/Readers.antt =====
-- The functions that only read: `GetSteps`, `GetEvents` (step.go), `GetSignals` (signal.go),
-- `GetPendingTimers` and `hasExpiredTimer` (timer.go).
use mathlib.Core.List.{Memᴰ, Pairwise}
use mathlib.Core.List.Permᴰ
use sqlite_durable_workflow.Common.{
  String, ℤ, pos, ◌≤ℤ◌, Bool, true, false, not, ◌&&◌, List, [], ◌∷◌, ◌≡◌, refl, arith, select,
  first, ◌==◌,
}
use sqlite_durable_workflow.Types.{Timer}
use sqlite_durable_workflow.Store.Db.{Db}
use sqlite_durable_workflow.Store.Session.{M, ok, quiet}
use sqlite_durable_workflow.Store.Platform.{Platform}
use sqlite_durable_workflow.Store.Rows.{perm_mem, mem-select, select-mem}
use sqlite_durable_workflow.Event.{get_events}
use sqlite_durable_workflow.Workflow.{is_due, has_due_timer}
use sqlite_durable_workflow.Step.{get_steps}
use sqlite_durable_workflow.Signal.{get_signals}
use sqlite_durable_workflow.Timer.{get_pending_timers, has_expired_timer, is_some}

-- A call that changes nothing and returns the rows of a table that pass a test, each of them and no
-- other, in the order of a key.
abbrev pub Lists : {A : Type 0} → M (List A) → Db → (A → ℤ) → (A → Bool) → List A → Type 0
Lists {A} m d key test table =
    (rows : List A) × (m (quiet d) ≡ (ok rows, quiet d))
    × Pairwise (λ a b. key a ≤ℤ key b) rows
    × ((a : A)
        → (Memᴰ a rows → (test a ≡ true) × Memᴰ a table)
          × (test a ≡ true → Memᴰ a table → Memᴰ a rows))

module _ (p : Platform) {A : Type 0} (key : A → ℤ) (test : A → Bool) (table : List A) where
  listed :
      (a : A)
      → (Memᴰ a (p.order_by A key (select test table)) → (test a ≡ true) × Memᴰ a table)
        × (test a ≡ true → Memᴰ a table → Memᴰ a (p.order_by A key (select test table)))
  listed a = (
    λ m. mem-select test table (perm_mem (p.order_by-perm A key (select test table)) m),
    λ h m.
        perm_mem (Permᴰ.symm (p.order_by-perm A key (select test table)))
          (select-mem test table h m),
  )

first_due :
    (id : String) (now : ℤ) (ts : List Timer)
    → is_some (first (select (λ t. t.workflow_id == id && is_due now t) ts))
      ≡ has_due_timer id now ts
first_due id now [] = refl
first_due id now (t ∷ ts) = ground (arith, first_due id now ts)

has_expired_timer_agrees :
    (id : String) (now : ℤ) (d : Db)
    → has_expired_timer id now (quiet d) ≡ (ok (has_due_timer id now d.workflow_timers), quiet d)
unfolding has_expired_timer
has_expired_timer_agrees id now d = ground (arith, first_due id now d.workflow_timers)

-- GetSteps lists a workflow's steps by number, GetEvents its events by sequence number,
-- GetPendingTimers its unfired timers by wake time, and GetSignals its signals by creation, all of
-- them or the ones not consumed; hasExpiredTimer tells what the subquery of AcquireLease tests. None
-- of them writes.
pub readers_list :
    (p : Platform) (id : String) (d : Db)
    → Lists (get_steps p id) d (λ s. s.step_number) (λ s. s.workflow_id == id) d.workflow_steps
      × Lists
          (get_events p id)
          d
          (λ e. pos e.sequence_number)
          (λ e. e.workflow_id == id)
          d.workflow_events
      × Lists
          (get_pending_timers p id)
          d
          (λ t. t.wake_at)
          (λ t. t.workflow_id == id && not t.fired)
          d.workflow_timers
      × Lists
          (get_signals p id false)
          d
          (λ s. s.created_at)
          (λ s. s.workflow_id == id)
          d.workflow_signals
      × Lists
          (get_signals p id true)
          d
          (λ s. s.created_at)
          (λ s. s.workflow_id == id && not s.consumed)
          d.workflow_signals
      × ((now : ℤ)
          → has_expired_timer id now (quiet d)
            ≡ (ok (has_due_timer id now d.workflow_timers), quiet d))
unfolding get_steps get_events get_pending_timers get_signals
readers_list p id d = (
  (_, refl, p.order_by-sorted _ _ _, listed p _ _ d.workflow_steps),
  (_, refl, p.order_by-sorted _ _ _, listed p _ _ d.workflow_events),
  (_, refl, p.order_by-sorted _ _ _, listed p _ _ d.workflow_timers),
  (_, refl, p.order_by-sorted _ _ _, listed p _ _ d.workflow_signals),
  (_, refl, p.order_by-sorted _ _ _, listed p _ _ d.workflow_signals),
  λ now. has_expired_timer_agrees id now d,
)
