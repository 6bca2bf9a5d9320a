-- ===== src/Lib.antt =====
-- sqlite-durable-workflow: a durable workflow engine in Go over one SQLite database.
--
-- The program. Workers create workflows, lease them, checkpoint their steps, send signals, set
-- timers and end workflows; a scheduler fires due timers and takes expired leases back. All state is
-- in five tables, and every function is one statement or one transaction on the one connection that
-- `New` opens, so that goroutines interleave between functions and not inside a transaction.
--
-- The files, with the paths of the repository that they model:
--   Types          the rows and constants of types.go
--   Store/Db       the tables, keys and foreign keys of `initSchema` (engine.go)
--   Store/Session  a goroutine's calls of database/sql: statements, `Begin`, `Commit`, `Rollback`
--   Store/Platform what is not in the repository: SQLite's ORDER BY and row order, json.Marshal,
--                  the seconds of a time.Duration and SQLite's AVG, with what is relied on
--   Event, Step    step.go: `appendEventTx`, `nextSequenceTx`, `GetEvents`; the other functions
--   Workflow       workflow.go
--   Signal, Timer  signal.go, timer.go
--   Retry          the policies of types.go, and retry.go
--   Scheduler      scheduler.go
--   Query          the queries by status of engine.go, and `AvgStepDuration`
--   Opening        `New`, `applyPragmas`, `initSchema` and `Close` of engine.go, on a database file
--                  that may have some of the tables
--   Server         cmd/server/main.go: Bodies and Replies are what is decoded and written, Handlers
--                  and Readers the handlers, Routes the patterns of `main` and their matching, and
--                  Serve the way of a request through `requireBearer` and the mux
-- A function f of the engine is the definition of the same name in snake case. `StartStep` and
-- `FailStep` are split where their lease check, which stands outside of the transaction, ends:
-- start_step_tx and fail_step_tx are the rest.
--
-- How state corresponds. A Session holds the database, the copy that `Rollback` restores while a
-- *sql.Tx is open, and a list that says which of the coming calls the driver refuses; past its end no
-- call is refused. After a refused `Commit` the deferred `Rollback` does nothing, as database/sql has
-- done with the transaction: the list's next entry says whether SQLite has undone it or keeps it open,
-- and in that case the connection reads what it wrote and refuses every later `Begin`. What the file
-- would hold after a crash in that state is not modelled. A function takes the clock's reading as the argument `now` and returns a
-- result or an error beside the new session. UPDATE, INSERT and SELECT are list functions with the
-- WHERE clause as a Boolean test and RowsAffected as a count; a violated key is the error constraint.
-- `quiet d` is a session on the database d with no transaction open and no refusal to come.
--
-- How the theorems are built. Section cuts the functions where another goroutine may come in
-- between, and a history is any list of sections on a session. Store/Atomic shows of each
-- combination of calls how it meets refusals, and Section/Atomicity applies that to every function.
-- Effect states what each function does to a database when nothing is refused; Change is the
-- relation of those steps, and Change/Sound shows that the functions take them. Invariant is what
-- the tables keep: distinct keys, the nullable columns that a status allows, events owned and
-- numbered from 1 without gaps, and rows whose cursor and version are what the events count.
-- Invariant/Moves is the state machine of a workflow, with the function that makes each move,
-- Invariant/Keys the primary and foreign keys of the other tables, and Invariant/Cursor the
-- checkpoints that a cursor covers. History lifts this to histories, and Contract holds what each
-- function promises its callers. Tests has the platform and the databases on which the theorems are
-- tried.
--
-- Bounds. Times, step numbers, retry counts and delays are integers, and the sums and products of
-- retry.go, types.go and the ends of leases are reduced to 64 bits as Go does; keys that AUTOINCREMENT
-- gives, sequence numbers, cursors and versions are natural numbers, which the program cannot bring
-- to overflow in practice. No definition runs on fuel: the loop of fireExpiredTimers and that of
-- ExponentialBackoff are recursions on their rounds, and `Run` takes the clock's readings up to the
-- cancellation of its context as a list.
--
-- A request of the server holds its method, the segments of its path, one query parameter, one header
-- and its body as text, which the json package, a parameter, decodes or refuses; an answer is a status
-- with the value that is encoded, and not its text.
--
-- Not modelled: `DB`, which returns the handle; the log lines; of cmd/server/main.go the flags, the
-- listener and its shutdown; the example in cmd/example, which calls the engine and prints; the client
-- in sdks/typescript.
pub mod Common
pub mod Types
pub mod Store
pub mod Event
pub mod Workflow
pub mod Step
pub mod Signal
pub mod Timer
pub mod Retry
pub mod Scheduler
pub mod Query
pub mod Opening
pub mod Section
pub mod Server
pub mod Effect
pub mod Change
pub mod Invariant
pub mod History
pub mod Contract
pub mod Tests
