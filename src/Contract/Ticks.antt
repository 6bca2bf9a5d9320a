-- ===== src/Contract/Ticks.antt =====
-- One cycle of the scheduler (scheduler.go, timer.go).
use mathlib.Core.List.{Memᴰ}
use sqlite_durable_workflow.Common.{
  String, ℤ, true, false, List, [], ◌∷◌, none, some, ◌≡◌, refl, ap, ◌∙◌, arith, update, inl, inr,
  Bool-cases,
}
use sqlite_durable_workflow.Types.{Workflow, Timer, queued}
use sqlite_durable_workflow.Store.Db.{Db, lookup}
use sqlite_durable_workflow.Store.Session.{ok, quiet}
use sqlite_durable_workflow.Store.Platform.{Platform}
use sqlite_durable_workflow.Workflow.{requeued}
use sqlite_durable_workflow.Timer.{
  is_waiting_for, is_firing, firing_timers, is_abandoned, expire_leases,
}
use sqlite_durable_workflow.Scheduler.{tick}
use sqlite_durable_workflow.Effect.Workflows.{with_workflows}
use sqlite_durable_workflow.Effect.Timers.{firing_all, fire_expired_timers_lem, expire_leases_lem}
use sqlite_durable_workflow.Contract.Timers.{requeued_row, fire_expired_timers_result}

no_abandoned :
    (now : ℤ) (ws : List Workflow)
    → (w : Workflow) → Memᴰ w (update (is_abandoned now) (requeued now) ws)
    → is_abandoned now w ≡ false
no_abandoned now [] w m = elim m [ ]
no_abandoned now (v ∷ ws) w (Memᴰ.tail m) = no_abandoned now ws w m
no_abandoned now (v ∷ ws) w (Memᴰ.head e) = elim (Bool-cases (is_abandoned now v)) [
  | inl h ↦ let same : w ≡ requeued now v = e ∙ rw h refl in ap (is_abandoned now) same
  | inr h ↦ let same : w ≡ v = e ∙ rw h refl in ap (is_abandoned now) same ∙ h
]

-- No workflow waits because a lease has been taken back.
still_waits :
    (now : ℤ) (id : String) (ws : List Workflow)
    → is_waiting_for id (update (is_abandoned now) (requeued now) ws) ≡ true
    → is_waiting_for id ws ≡ true
still_waits now id [] h = h
still_waits now id (w ∷ ws) h = ground (arith, still_waits now id ws)

none_fires :
    (now : ℤ) (ws : List Workflow) (t : Timer)
    → is_firing now ws t ≡ false
    → is_firing now (update (is_abandoned now) (requeued now) ws) t ≡ false
none_fires now ws t h = ground (arith, still_waits now t.workflow_id ws)

-- The tables after a tick: the due timers fire, and then the leases that have run out are taken
-- back.
abbrev pub swept : Platform → ℤ → Db → Db
swept p now d =
    let fired = firing_all now (firing_timers p now d) d in
    with_workflows (update (is_abandoned now) (requeued now) fired.workflows) fired

tick_lem : (p : Platform) (now : ℤ) (d : Db) → tick p now (quiet d) ≡ (ok tt, quiet (swept p now d))
unfolding tick
tick_lem p now d =
    ap (λ t. (ok tt, (expire_leases now t.1).1)) (fire_expired_timers_lem p now d)
    ∙ ap (λ t. (ok tt, t.1)) (expire_leases_lem now (firing_all now (firing_timers p now d) d))

-- A tick for which the driver refuses nothing fires the due timers and then takes back the leases
-- that have run out: the workflow of each timer that was due while it waited is QUEUED with no
-- owner; no timer is left that is due and whose workflow waits; and no workflow of the table is
-- RUNNING past its lease.
pub tick_sweeps :
    (p : Platform) (now : ℤ) (d : Db)
    → (tick p now (quiet d) ≡ (ok tt, quiet (swept p now d)))
      × ((t : Timer)
          → Memᴰ t d.workflow_timers
          → is_firing now d.workflows t ≡ true
          → (v : Workflow) × (lookup t.workflow_id (swept p now d).workflows ≡ some v)
            × (v.status ≡ queued)
            × (v.lease_owner ≡ none))
      × ((t : Timer)
          → Memᴰ t (swept p now d).workflow_timers
          → is_firing now (swept p now d).workflows t ≡ false)
      × ((w : Workflow) → Memᴰ w (swept p now d).workflows → is_abandoned now w ≡ false)
tick_sweeps p now d =
    let fired = firing_all now (firing_timers p now d) d in
    let (ran, queues, none_left) = fire_expired_timers_result p now d in
    (
      tick_lem p now d,
      λ t m h.
          let (v, e, g, o) = queues t m h in
          requeued_row now (is_abandoned now) t.workflow_id fired.workflows v e (g, o),
      λ t m. none_fires now fired.workflows t (none_left t m),
      no_abandoned now fired.workflows,
    )
