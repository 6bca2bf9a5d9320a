-- ===== src/Tests/Deliveries.antt =====
-- The theorems on keys and signals, at short histories.
use mathlib.Core.List.{Memᴰ}
use sqlite_durable_workflow.Common.{pos, true, false, List, [], ◌∷◌, none, some, ◌≡◌, ◌≢◌, refl}
use sqlite_durable_workflow.Types.{Signal, text, nil}
use sqlite_durable_workflow.Store.Db.{init_schema}
use sqlite_durable_workflow.Store.Session.{Session, ok}
use sqlite_durable_workflow.Workflow.{create_workflow}
use sqlite_durable_workflow.Signal.{signal_row, taken, send_signal, consume_signal}
use sqlite_durable_workflow.Section.{Section, create, acquire, send, perform, history}
use sqlite_durable_workflow.Invariant.{All}
use sqlite_durable_workflow.Invariant.Cursor.{Covers}
use sqlite_durable_workflow.History.Cursor.{history-Covers}
use sqlite_durable_workflow.Invariant.Keys.{IsKeyed}
use sqlite_durable_workflow.History.{history-WellFormed}
use sqlite_durable_workflow.History.Keys.{history-IsKeyed}
use sqlite_durable_workflow.History.Signals.{history_signal_once}
use sqlite_durable_workflow.Tests.Samples.{platform, started_at_zero}

-- Two signals to "w".
abbrev sending_twice : List Section
sending_twice =
    create (pos 0) "w" "order"
    ∷ send (pos 5) "w" "go" (text "one")
    ∷ send (pos 6) "w" "go" (text "two")
    ∷ []

history-IsKeyed_example :
    IsKeyed
      (history platform sending_twice (record {
        db = init_schema;
        saved = none;
        left_open = false;
        faults = false ∷ false ∷ false ∷ true ∷ [];
      })).db
history-IsKeyed_example = history-IsKeyed platform sending_twice (false ∷ false ∷ false ∷ true ∷ [])

abbrev sent : Session
sent = history platform sending_twice started_at_zero

abbrev first_sent : Signal
first_sent = taken (signal_row 1 "w" "go" (some "one") (pos 5))

abbrev second_sent : Signal
second_sent = taken (signal_row 2 "w" "go" (some "two") (pos 6))

abbrev third_sending : List Section
third_sending = send (pos 7) "w" "go" (text "three") ∷ []

sent_closed : sent.saved ≡ none
unfolding history perform create_workflow send_signal
sent_closed = refl

takes_first : (consume_signal platform "w" sent).0 ≡ ok (some first_sent)
unfolding history perform create_workflow send_signal consume_signal
takes_first = refl

takes_second :
    (consume_signal platform "w"
      (history platform third_sending (consume_signal platform "w" sent).1)).0
    ≡ ok (some second_sent)
unfolding history perform create_workflow send_signal consume_signal
takes_second = refl

history_signal_once_example :
    (first_sent.consumed ≡ true)
    × Memᴰ first_sent
        (history platform third_sending (consume_signal platform "w" sent).1).db.workflow_signals
    × (second_sent.signal_id ≢ first_sent.signal_id)
history_signal_once_example =
    history_signal_once platform third_sending sent "w" "w" first_sent second_sent sent_closed
      (history-WellFormed platform sending_twice []) (history-IsKeyed platform sending_twice [])
      takes_first takes_second

-- A step completed, failed and completed again.
abbrev reopening : List Section
reopening =
    create (pos 0) "w" "order"
    ∷ acquire (pos 10) "a" (pos 90)
    ∷ Section.complete_step (pos 20) "w" "a" (pos 1) nil (text "out")
    ∷ Section.fail_step (pos 30) "w" (pos 1) nil "broken"
    ∷ Section.complete_step (pos 40) "w" "a" (pos 1) nil (text "out")
    ∷ []

history-Covers_example :
    All
      (Covers
        (history platform reopening (record {
          db = init_schema;
          saved = none;
          left_open = false;
          faults = false ∷ [];
        })).db.workflow_steps)
      (history platform reopening (record {
        db = init_schema;
        saved = none;
        left_open = false;
        faults = false ∷ [];
      })).db.workflows
history-Covers_example = history-Covers platform reopening (false ∷ [])
