-- ===== src/Effect/Timers.antt =====
-- The housekeeping of timer.go.
use mathlib.Core.List.{Memᴰ}
use mathlib.Core.List.Permᴰ
use sqlite_durable_workflow.Common.{
  String, ℕ, ◌+◌, ℤ, ⊤, Bool, true, List, [], ◌∷◌, false, Option, none, some, ◌≡◌, refl, ◌∙◌, arith,
  update, count, length,
}
use sqlite_durable_workflow.Types.{Workflow, Timer, timer_fired}
use sqlite_durable_workflow.Store.Db.{Db, has_workflow, is_workflow}
use sqlite_durable_workflow.Store.Session.{ok, quiet}
use sqlite_durable_workflow.Store.Platform.{Platform}
use sqlite_durable_workflow.Store.Rows.{mem-select, select-mem, perm_mem}
use sqlite_durable_workflow.Store.Lookup.{has_workflow-update}
use sqlite_durable_workflow.Workflow.{requeued}
use sqlite_durable_workflow.Timer.{
  is_waiting_for, is_firing, firing_timers, is_timer, fired_timer, fire_all, fire_expired_timers,
  is_abandoned, expire_leases,
}
use sqlite_durable_workflow.Effect.Workflows.{logged, with_workflows}

-- One round of the loop of `fireExpiredTimers`, and the loop.
abbrev pub firing : ℤ → Timer → Db → Db
firing now t d = logged t.workflow_id timer_fired none now (record d {
  workflow_timers = update (is_timer t.timer_id) fired_timer d.workflow_timers;
  workflows = update (is_workflow t.workflow_id) (requeued now) d.workflows;
})

abbrev pub firing_all : ℤ → List Timer → Db → Db
firing_all now [] d = d
firing_all now (t ∷ ts) d = firing_all now ts (firing now t d)

-- Every timer's workflow is in the table.
abbrev pub Joined : List Timer → List Workflow → Type 0
Joined [] ws = ⊤
Joined (t ∷ ts) ws = (has_workflow t.workflow_id ws ≡ true) × Joined ts ws

pub Joined-update :
    (p : Workflow → Bool) (now : ℤ) (ts : List Timer) (ws : List Workflow)
    → Joined ts ws
    → Joined ts (update p (requeued now) ws)
Joined-update p now [] ws h = tt
Joined-update p now (t ∷ ts) ws h = (
  has_workflow-update p (requeued now) (λ w. refl) t.workflow_id ws ∙ h.0,
  Joined-update p now ts ws h.1,
)

fire_all_lem :
    (now : ℤ) (ts : List Timer) (n : ℕ) (d : Db) (saved : Option Db)
    → Joined ts d.workflows
    → fire_all now ts n (record { db = d; saved = saved; left_open = false; faults = [] }) ≡ (
      ok (n + length ts),
      record { db = firing_all now ts d; saved = saved; left_open = false; faults = [] },
    )
unfolding fire_all
fire_all_lem now [] n d saved h = ground arith
fire_all_lem now (t ∷ ts) n d saved h = ground (
  arith,
  has_workflow-update (is_workflow t.workflow_id) (requeued now) (λ w. refl) t.workflow_id
      d.workflows,
  fire_all_lem now ts (n + 1) (firing now t d) saved
      (Joined-update (is_workflow t.workflow_id) now ts d.workflows h.1),
)

waiting_has :
    (id : String) (ws : List Workflow) → is_waiting_for id ws ≡ true → has_workflow id ws ≡ true
waiting_has id [] h = cc
waiting_has id (w ∷ ws) h = ground (arith, waiting_has id ws)

Joined-of :
    (ts : List Timer) (ws : List Workflow)
    → ((t : Timer) → Memᴰ t ts → has_workflow t.workflow_id ws ≡ true)
    → Joined ts ws
Joined-of [] ws h = tt
Joined-of (t ∷ ts) ws h = (h t (Memᴰ.head refl), Joined-of ts ws (λ u m. h u (Memᴰ.tail m)))

module _ (p : Platform) (now : ℤ) (d : Db) where
  pub firing_timers_mem :
      (t : Timer)
      → Memᴰ t (firing_timers p now d)
      → (is_firing now d.workflows t ≡ true) × Memᴰ t d.workflow_timers
  unfolding firing_timers
  firing_timers_mem t m =
      mem-select (is_firing now d.workflows) d.workflow_timers (perm_mem (p.scan-perm Timer _) m)

  pub firing_timers_all :
      (t : Timer)
      → is_firing now d.workflows t ≡ true
      → Memᴰ t d.workflow_timers
      → Memᴰ t (firing_timers p now d)
  unfolding firing_timers
  firing_timers_all t h m =
      perm_mem (Permᴰ.symm (p.scan-perm Timer _))
        (select-mem (is_firing now d.workflows) d.workflow_timers h m)

  pub firing_Joined : Joined (firing_timers p now d) d.workflows
  firing_Joined =
      Joined-of (firing_timers p now d) d.workflows
        λ t m. waiting_has t.workflow_id d.workflows (ground (arith, firing_timers_mem t m))

  pub fire_expired_timers_lem :
      fire_expired_timers p now (quiet d)
      ≡ (ok (length (firing_timers p now d)), quiet (firing_all now (firing_timers p now d) d))
  unfolding fire_expired_timers
  fire_expired_timers_lem =
      ground (arith, fire_all_lem now (firing_timers p now d) 0 d (some d) firing_Joined)

pub expire_leases_lem :
    (now : ℤ) (d : Db)
    → expire_leases now (quiet d) ≡ (
      ok (count (is_abandoned now) d.workflows),
      quiet (with_workflows (update (is_abandoned now) (requeued now) d.workflows) d),
    )
unfolding expire_leases
expire_leases_lem now d = refl
