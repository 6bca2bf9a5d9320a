-- ===== src/History/Cursor.antt =====
-- The cursor of a workflow over a history.
use sqlite_durable_workflow.Common.{false, Bool, List, none, refl}
use sqlite_durable_workflow.Store.Db.{init_schema}
use sqlite_durable_workflow.Store.Platform.{Platform}
use sqlite_durable_workflow.Section.{Section, history}
use sqlite_durable_workflow.Invariant.{All}
use sqlite_durable_workflow.Invariant.Keys.{IsKeyed}
use sqlite_durable_workflow.Invariant.Keys.Preserved.{Change-IsKeyed}
use sqlite_durable_workflow.Invariant.Cursor.{Covers}
use sqlite_durable_workflow.Invariant.Cursor.Preserved.{Change-Covers}
use sqlite_durable_workflow.History.{history_keeps, init-WellFormed}
use sqlite_durable_workflow.History.Keys.{init-IsKeyed}

-- After every history that begins with a new database, under any faults of the driver, no workflow
-- has more COMPLETED steps than its current_step says: the cursor is never behind a checkpoint.
pub history-Covers :
    (p : Platform) (cs : List Section) (faults : List Bool)
    → All
        (Covers
          (history p cs (record {
            db = init_schema;
            saved = none;
            left_open = false;
            faults = faults;
          })).db.workflow_steps)
        (history p cs (record {
          db = init_schema;
          saved = none;
          left_open = false;
          faults = faults;
        })).db.workflows
history-Covers p cs faults =
    (history_keeps (λ d. IsKeyed d × All (Covers d.workflow_steps) d.workflows) p
      (λ c d e change wf (k, h). (Change-IsKeyed change k, Change-Covers change wf k h)) cs _ refl
      init-WellFormed (init-IsKeyed, tt)).1
