-- ===== src/Invariant/Keys/Preserved.antt =====
-- Every step of the database keeps its keys.
use sqlite_durable_workflow.Common.{ℤ, List, [], ◌∷◌, ◌++◌, none, refl, ◌&&◌}
use sqlite_durable_workflow.Types.{Timer, StepStatus}
use sqlite_durable_workflow.Store.Db.{Db, is_workflow}
use sqlite_durable_workflow.Store.Platform.{Platform}
use sqlite_durable_workflow.Store.Lookup.{has_workflow-append_old, lookup_has}
use sqlite_durable_workflow.Section.{Section}
use sqlite_durable_workflow.Workflow.{
  grant, requeued, renewed, paused, finished, lease_end, is_running, is_leased, new_workflow,
}
use sqlite_durable_workflow.Step.{
  is_step, is_open, finished_row, advanced, json_string, failed_payload,
}
use sqlite_durable_workflow.Timer.{firing_timers, is_abandoned}
use sqlite_durable_workflow.Effect.Timers.{firing, firing_all}
use sqlite_durable_workflow.Change.{
  Change, stays, creates, acquires, renews, releases, pauses, finishes, starts, completes, fails,
  sends, takes, times, fires, expires,
}
use sqlite_durable_workflow.Invariant.Keys.{IsKeyed}
use sqlite_durable_workflow.Invariant.Keys.Writes.{
  event-IsKeyed, workflows-IsKeyed, update-IsKeyed, upsert-IsKeyed, started-IsKeyed, signal-IsKeyed,
  timer-IsKeyed, taken-IsKeyed, fired-IsKeyed,
}

firing_all-IsKeyed :
    (now : ℤ) (ts : List Timer) (d : Db) → IsKeyed d → IsKeyed (firing_all now ts d)
firing_all-IsKeyed now [] d k = k
firing_all-IsKeyed now (t ∷ ts) d k = firing_all-IsKeyed now ts (firing now t d) (
    event-IsKeyed _
      (update-IsKeyed _ (fired-IsKeyed d k t.timer_id) (is_workflow t.workflow_id) (requeued now)
        (λ w. refl))
      t.workflow_id _ none _ now)

-- Every step keeps the keys.
pub Change-IsKeyed :
    {p : Platform} {d e : Db} {c : Section} → Change p d c e → IsKeyed d → IsKeyed e
Change-IsKeyed stays k = k
Change-IsKeyed {d} (creates now id ty h) k =
    event-IsKeyed _
      (workflows-IsKeyed d k (d.workflows ++ new_workflow id ty now ∷ [])
        λ j g. has_workflow-append_old j d.workflows (new_workflow id ty now ∷ []) g)
      id _ none 1 now
Change-IsKeyed {p} {d} (acquires now worker duration w h m) k =
    event-IsKeyed _
      (update-IsKeyed d k (is_workflow w.workflow_id) (grant worker (lease_end p now duration) now)
        (λ v. refl))
      w.workflow_id _ none _ now
Change-IsKeyed {p} {d} (renews now id worker duration) k =
    update-IsKeyed d k (is_running id worker) (renewed (lease_end p now duration) now) λ v. refl
Change-IsKeyed {d} (releases now id worker) k =
    update-IsKeyed d k (is_leased id worker) (requeued now) λ v. refl
Change-IsKeyed {d} (pauses now id worker) k =
    update-IsKeyed d k (is_running id worker) (paused now) λ v. refl
Change-IsKeyed {d} (finishes c status event_type now id worker ending h) k =
    event-IsKeyed _ (update-IsKeyed d k (is_running id worker) (finished status now) λ v. refl) id _
      none _ now
Change-IsKeyed {p} {d} (starts now id n input h) k =
    event-IsKeyed _ (started-IsKeyed d k id n (json_string p input) now h) id _ _ _ now
Change-IsKeyed {p} {d} (completes now id worker n input output w e h g) k =
    event-IsKeyed _
      (update-IsKeyed _
        (upsert-IsKeyed d k (λ s. is_step id n s && is_open s.status) StepStatus.completed
          (json_string p output) now
          (finished_row StepStatus.completed id n (json_string p input) (json_string p output) now)
          (lookup_has id d.workflows {w = w} e))
        (is_leased id worker) (advanced now) λ v. refl)
      id _ _ _ now
Change-IsKeyed {p} {d} (fails now id n input message h) k =
    event-IsKeyed _
      (upsert-IsKeyed d k (is_step id n) StepStatus.failed
        (json_string p (failed_payload n message)) now
        (finished_row StepStatus.failed id n (json_string p input)
          (json_string p (failed_payload n message)) now)
        h)
      id _ _ _ now
Change-IsKeyed {p} {d} (sends now id signal_type payload h) k =
    event-IsKeyed _ (signal-IsKeyed d k id signal_type (json_string p payload) now h) id _ _ _ now
Change-IsKeyed {d} (takes id s h m) k = taken-IsKeyed d k s.signal_id
Change-IsKeyed {d} (times id wake_at h) k = timer-IsKeyed d k id wake_at h
Change-IsKeyed {p} {d} (fires now) k = firing_all-IsKeyed now (firing_timers p now d) d k
Change-IsKeyed {d} (expires now) k = update-IsKeyed d k (is_abandoned now) (requeued now) λ v. refl
