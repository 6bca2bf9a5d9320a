-- ===== src/Invariant/Cursor.antt =====
-- The cursor of a workflow against its checkpoints.
pub mod Preserved
use mathlib.Core.List.{Memᴰ}
use sqlite_durable_workflow.Common.{
  String, ℕ, suc, ◌+◌, ◌≤◌, ℤ, Bool, true, false, not, ◌&&◌, ◌==◌, List, [], ◌∷◌, ◌++◌, Option,
  none, some, ◌≡◌, refl, sym, ap, ◌∙◌, subst, arith, inl, inr, Bool-cases, update, count,
  count-append, if◌then◌else◌, eq_of_test, test_of_eq, eq_iff,
}
use sqlite_durable_workflow.Types.{Workflow, WorkflowStep, StepStatus, Timer}
use sqlite_durable_workflow.Store.Db.{Db, has_workflow, is_workflow, is_owner, lookup}
use sqlite_durable_workflow.Store.Platform.{Platform}
use sqlite_durable_workflow.Store.Lookup.{lookup_mem}
use sqlite_durable_workflow.Section.{Section}
use sqlite_durable_workflow.Workflow.{
  grant, requeued, renewed, paused, finished, lease_end, is_running, is_leased, new_workflow,
}
use sqlite_durable_workflow.Step.{
  has_step, is_step, is_open, started_row, finished_row, refinished, advanced, json_string,
  failed_payload,
}
use sqlite_durable_workflow.Timer.{firing_timers, is_abandoned}
use sqlite_durable_workflow.Effect.Steps.{started, checkpointed, failed_steps}
use sqlite_durable_workflow.Effect.Timers.{firing, firing_all}
use sqlite_durable_workflow.Change.{
  Change, stays, creates, acquires, renews, releases, pauses, finishes, starts, completes, fails,
  sends, takes, times, fires, expires,
}
use sqlite_durable_workflow.Invariant.{All, IsWellFormed}
use sqlite_durable_workflow.Invariant.Rows.{
  All-map, All-append, All-update, All-of_mem, All-mem, same_row,
}
use sqlite_durable_workflow.Invariant.Keys.{Distinct, Referring, IsKeyed}

abbrev is_checkpoint : String → WorkflowStep → Bool
is_checkpoint id s = s.workflow_id == id && not (is_open s.status)

-- The COMPLETED steps of a workflow.
abbrev pub checkpoints : String → List WorkflowStep → ℕ
checkpoints id ss = count (is_checkpoint id) ss

abbrev pub Covers : List WorkflowStep → Workflow → Type 0
Covers ss w = checkpoints w.workflow_id ss ≤ w.current_step

-- Where the steps' count of no workflow grows, the cursors cover it as before.
pub Covers-map :
    (ss rs : List WorkflowStep) (ws : List Workflow)
    → ((id : String) → checkpoints id rs ≤ checkpoints id ss)
    → All (Covers ss) ws
    → All (Covers rs) ws
Covers-map ss rs ws fewer h =
    All-map (Covers ss) (Covers rs) (λ w g. omega (arith, fewer w.workflow_id)) ws h

pub checkpoints-started :
    (id j : String) (n : ℤ) (input : Option String) (now : ℤ) (ss : List WorkflowStep)
    → checkpoints j (started id n input now ss) ≤ checkpoints j ss
checkpoints-started id j n input now ss =
    ground (arith, count-append (is_checkpoint j) ss (started_row id n input now ∷ []))

checkpoints-refailed :
    (j : String) (p : WorkflowStep → Bool) (output : Option String) (now : ℤ)
    (ss : List WorkflowStep)
    → checkpoints j (update p (refinished StepStatus.failed output now) ss) ≤ checkpoints j ss
checkpoints-refailed j p output now [] = omega arith
checkpoints-refailed j p output now (s ∷ ss) =
    ground (arith, checkpoints-refailed j p output now ss)

pub checkpoints-failed :
    (id j : String) (n : ℤ) (input output : Option String) (now : ℤ) (ss : List WorkflowStep)
    → checkpoints j (failed_steps id n input output now ss) ≤ checkpoints j ss
checkpoints-failed id j n input output now ss = ground (
  arith,
  checkpoints-refailed j (is_step id n) output now ss,
  count-append (is_checkpoint j) ss (finished_row StepStatus.failed id n input output now ∷ []),
)

lacks_step :
    (id : String) (n : ℤ) (s : WorkflowStep) (ss : List WorkflowStep)
    → is_step id n s ≡ true
    → has_step s.workflow_id s.step_number ss ≡ false
    → count (λ r. is_step id n r && is_open r.status) ss ≡ 0
lacks_step id n s [] e h = refl
lacks_step id n s (r ∷ ss) e h = ground (
  arith,
  lacks_step id n s ss e,
  eq_iff s.workflow_id id,
  eq_iff r.workflow_id id,
  eq_iff r.workflow_id s.workflow_id,
)

open_at_most_once :
    (id : String) (n : ℤ) (ss : List WorkflowStep)
    → Distinct ss
    → count (λ r. is_step id n r && is_open r.status) ss ≤ 1
open_at_most_once id n [] d = omega arith
open_at_most_once id n (s ∷ ss) d = elim (Bool-cases (is_step id n s)) [
  | inl e ↦ let none = lacks_step id n s ss e d.0 in ground arith
  | inr e ↦ let rest = open_at_most_once id n ss d.1 in ground arith
]

checkpoints-recompleted :
    (id j : String) (n : ℤ) (output : Option String) (now : ℤ) (ss : List WorkflowStep)
    → checkpoints j (
        update
          (λ s. is_step id n s && is_open s.status)
          (refinished StepStatus.completed output now)
          ss)
      ≤ checkpoints j ss
        + (if id == j then count (λ r. is_step id n r && is_open r.status) ss else 0)
checkpoints-recompleted id j n output now [] = ground arith
checkpoints-recompleted id j n output now (s ∷ ss) =
    ground (arith, checkpoints-recompleted id j n output now ss, eq_iff s.workflow_id id)

pub checkpoints-completed :
    (id j : String) (n : ℤ) (input output : Option String) (now : ℤ) (ss : List WorkflowStep)
    → Distinct ss
    → checkpoints j (checkpointed id n input output now ss)
      ≤ checkpoints j ss + (if id == j then 1 else 0)
checkpoints-completed id j n input output now ss d = ground (
  arith,
  checkpoints-recompleted id j n output now ss,
  open_at_most_once id n ss d,
  count-append (is_checkpoint j) ss (finished_row StepStatus.completed id n input output now ∷ []),
)
