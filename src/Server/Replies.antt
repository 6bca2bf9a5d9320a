-- ===== src/Server/Replies.antt =====
-- cmd/server/main.go: what the handlers write.
use sqlite_durable_workflow.Common.{ℕ, ℤ, ⊤, Bool, List, [], Option, none, some, length}
use sqlite_durable_workflow.Types.{Workflow, WorkflowEvent, WorkflowStep, Signal, Timer}
use sqlite_durable_workflow.Store.Session.{M, Session, Result, Error, ok, err}

-- What `writeJSON` encodes. `items` is the map of `withCount`; `averages` has a map or nil.
pub data Reply (F : Type 0) : Type 0 where
  status_ok no_work no_signal : Reply F
  workflow : Workflow → Reply F
  signal : Signal → Reply F
  timer : Timer → Reply F
  retry_scheduled : Bool → Reply F
  steps : List WorkflowStep → Reply F
  signals : List Signal → Reply F
  events : List WorkflowEvent → Reply F
  items : List Workflow → ℕ → Reply F
  averages : Option (List (ℤ × F)) → Reply F

-- The message of `writeError`: of an error of the engine, of a body that cannot be decoded, of a
-- wrong bearer token; and what the mux answers by itself.
pub data Problem : Type 0 where
  engine : Error → Problem
  malformed unauthorized not_found method_not_allowed : Problem

-- `writeJSON`, with the status 200, and `writeError`.
pub data Response (F : Type 0) : Type 0 where
  json : Reply F → Response F
  problem : ℕ → Problem → Response F

abbrev pub Handler : Type 0 → Type 0
Handler F = Session → Response F × Session

abbrev pub responded : {F A : Type 0} → ℕ → (A → Reply F) → Result A → Response F
responded code f (ok a) = json (f a)
responded code f (err e) = problem code (engine e)

-- `if err != nil { writeError(w, code, err.Error()); return }`, and `writeJSON` of the result.
abbrev pub answer : {F A : Type 0} → ℕ → (A → Reply F) → M A → Handler F
answer code f m s = (responded code f (m s).0, (m s).1)

-- `if err := decode(r, &req); err != nil { writeError(w, 400, err.Error()); return }`.
abbrev pub decoded : {F B : Type 0} → Option B → (B → Handler F) → Handler F
decoded none f s = (problem 400 malformed, s)
decoded (some req) f s = f req s

abbrev pub acknowledged : {F : Type 0} → ⊤ → Reply F
acknowledged done = status_ok

abbrev pub acquired_reply : {F : Type 0} → Option Workflow → Reply F
acquired_reply none = no_work
acquired_reply (some w) = workflow w

abbrev pub consumed_reply : {F : Type 0} → Option Signal → Reply F
consumed_reply none = no_signal
consumed_reply (some s) = signal s

-- `list, _ := …` followed by `withCount`: with an error the list is nil.
abbrev pub listed : {F : Type 0} → Result (List Workflow) → Reply F
listed (ok ws) = items ws (length ws)
listed (err e) = items [] 0

abbrev pub with_count : {F : Type 0} → M (List Workflow) → Handler F
with_count m s = (json (listed (m s).0), (m s).1)

-- `avg, _ := …`: with an error the map is nil.
abbrev pub averaged : {F : Type 0} → Result (List (ℤ × F)) → Reply F
averaged (ok m) = averages (some m)
averaged (err e) = averages none

abbrev pub with_averages : {F : Type 0} → M (List (ℤ × F)) → Handler F
with_averages m s = (json (averaged (m s).0), (m s).1)
