-- ===== src/Tests/Files.antt =====
-- The theorems on `New`, at a file that has one of the tables.
use sqlite_durable_workflow.Common.{true, false, List, [], ◌∷◌, none, some, ◌≡◌, Bool}
use sqlite_durable_workflow.Store.Session.{ok}
use sqlite_durable_workflow.Opening.Tables.{File, rows_in}
use sqlite_durable_workflow.Opening.{new_engine}
use sqlite_durable_workflow.Contract.Refusals.{unopened, refusals, first_refused}
use sqlite_durable_workflow.Contract.Opening.{Opened, ready, new_engine_result, new_engine_again}
use sqlite_durable_workflow.Tests.Samples.{leased_row}

abbrev partial_file : File
partial_file = record {
  workflows = some (leased_row ∷ []);
  workflow_events = none;
  workflow_steps = none;
  workflow_signals = none;
  workflow_timers = none;
  last_event_id = 0;
  last_signal_id = 0;
  last_timer_id = 0;
  idx_events_workflow = false;
  idx_signals_workflow = false;
  idx_timers_wake = false;
}

-- The third statement of the schema is refused.
abbrev halfway : List Bool
halfway = false ∷ false ∷ false ∷ false ∷ false ∷ false ∷ false ∷ false ∷ true ∷ []

new_engine_result_example :
    ((new_engine (unopened partial_file halfway)).0 ≡ first_refused refusals halfway)
    × Opened partial_file (new_engine (unopened partial_file halfway))
new_engine_result_example = new_engine_result partial_file halfway

new_engine_again_example :
    new_engine (unopened (new_engine (unopened partial_file halfway)).1.file [])
    ≡ (ok tt, ready (rows_in partial_file))
new_engine_again_example = new_engine_again partial_file halfway
