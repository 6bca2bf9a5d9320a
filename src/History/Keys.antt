-- ===== src/History/Keys.antt =====
-- The keys of the tables over a history.
use sqlite_durable_workflow.Common.{false, Bool, List, none, refl}
use sqlite_durable_workflow.Store.Db.{init_schema}
use sqlite_durable_workflow.Store.Platform.{Platform}
use sqlite_durable_workflow.Section.{Section, history}
use sqlite_durable_workflow.Invariant.Keys.{IsKeyed}
use sqlite_durable_workflow.Invariant.Keys.Preserved.{Change-IsKeyed}
use sqlite_durable_workflow.History.{history_keeps, init-WellFormed}

pub init-IsKeyed : IsKeyed init_schema
init-IsKeyed = record {
  event_ids = refl;
  signal_ids = refl;
  timer_ids = refl;
  step_keys = tt;
  steps = tt;
  signals = tt;
  timers = tt;
}

-- Every history that begins with a new database, under any faults of the driver, keeps the keys of
-- the other tables: event, signal and timer ids are 1, 2, … in the order of insertion, up to the
-- table's counter; no step of a workflow has two rows; and every step, signal and timer has its
-- workflow.
pub history-IsKeyed :
    (p : Platform) (cs : List Section) (faults : List Bool)
    → IsKeyed
        (history p cs
          (record { db = init_schema; saved = none; left_open = false; faults = faults })).db
history-IsKeyed p cs faults =
    history_keeps IsKeyed p (λ c d e change wf k. Change-IsKeyed change k) cs _ refl init-WellFormed
      init-IsKeyed
