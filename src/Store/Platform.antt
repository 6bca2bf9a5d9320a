-- ===== src/Store/Platform.antt =====
-- What the engine uses and this repository does not contain, with what it relies on.
use mathlib.Core.List.{Permᴰ, Pairwise}
use sqlite_durable_workflow.Common.{String, ℤ, ◌≤ℤ◌, List, Option}
use sqlite_durable_workflow.Types.{Value}

pub record Platform : Type 1 where
  -- The rows of an SQLite query with `ORDER BY key ASC`: ties may come in any order.
  pub order_by : (A : Type 0) → (A → ℤ) → List A → List A
  pub order_by-perm : (A : Type 0) (key : A → ℤ) (rows : List A) → Permᴰ (order_by A key rows) rows
  pub order_by-sorted :
      (A : Type 0) (key : A → ℤ) (rows : List A)
      → Pairwise (λ a b. key a ≤ℤ key b) (order_by A key rows)
  -- The rows of a query with no `ORDER BY`.
  pub scan : (A : Type 0) → List A → List A
  pub scan-perm : (A : Type 0) (rows : List A) → Permᴰ (scan A rows) rows
  -- `json.Marshal`; `none` is an error.
  pub marshal : Value → Option String
  -- `int64(d.Seconds())` of a time.Duration in nanoseconds.
  pub seconds : ℤ → ℤ
  -- SQLite's `AVG` of integers, a float64.
  pub Float : Type 0
  pub average : List ℤ → Float
