-- ===== src/Contract/Events.antt =====
-- step.go: what `GetEvents` returns on well-formed tables.
use mathlib.Core.List.{Pairwise}
use sqlite_durable_workflow.Common.{
  String, ℕ, zero, suc, ◌≤◌, pos, ◌≤ℤ◌, eqb, List, [], ◌∷◌, ◌++◌, ◌≡◌, refl, sym, ap, ◌∙◌, arith,
  select, count, map, map-count, ⊤,
}
use sqlite_durable_workflow.Types.{WorkflowEvent}
use sqlite_durable_workflow.Store.Db.{Db}
use sqlite_durable_workflow.Store.Session.{ok, quiet}
use sqlite_durable_workflow.Store.Platform.{Platform}
use sqlite_durable_workflow.Store.Rows.{perm-count}
use sqlite_durable_workflow.Event.{is_event_of, get_events}
use sqlite_durable_workflow.Invariant.Rows.{All-append, All-map, All-of_mem}
use sqlite_durable_workflow.Invariant.Keys.Tables.{one_to_bounded}
use sqlite_durable_workflow.Invariant.{All, sequences, one_to, IsWellFormed}

-- No number stands before a smaller one.
abbrev IsAscending : List ℕ → Type 0
IsAscending [] = ⊤
IsAscending (x ∷ xs) = All (λ y. x ≤ y) xs × IsAscending xs

counted_least : (x y : ℕ) (ys : List ℕ) → All (λ z. y ≤ z) ys → 1 ≤ count (eqb x) (y ∷ ys) → y ≤ x
counted_least x y [] h k = ground arith
counted_least x y (z ∷ zs) h k = ground (arith, counted_least x y zs)

-- Two such lists with the same numbers in them are the same list.
ascending_unique :
    (xs ys : List ℕ)
    → IsAscending xs
    → IsAscending ys
    → ((n : ℕ) → count (eqb n) xs ≡ count (eqb n) ys)
    → xs ≡ ys
ascending_unique [] [] a b h = refl
ascending_unique [] (y ∷ ys) a b h = let at = h y in absurd (ground arith)
ascending_unique (x ∷ xs) [] a b h = let at = h x in absurd (ground arith)
ascending_unique (x ∷ xs) (y ∷ ys) a b h =
    let at_x = h x in
    let at_y = h y in
    let same : x ≡ y = ground (arith, counted_least x y ys b.0, counted_least y x xs a.0) in
    let rest = ascending_unique xs ys a.1 b.1 λ n. let at = h n in ground arith in
    ap (λ z. z ∷ xs) same ∙ ap (λ zs. y ∷ zs) rest

append-IsAscending :
    (xs : List ℕ) (m : ℕ) → IsAscending xs → All (λ x. x ≤ m) xs → IsAscending (xs ++ m ∷ [])
append-IsAscending [] m a h = (tt, tt)
append-IsAscending (x ∷ xs) m a h = (All-append _ xs m a.0 h.0, append-IsAscending xs m a.1 h.1)

one_to-IsAscending : (n : ℕ) → IsAscending (one_to n)
one_to-IsAscending zero = tt
one_to-IsAscending (suc n) =
    append-IsAscending (one_to n) (suc n) (one_to-IsAscending n)
      (All-map (λ x. x ≤ n) (λ x. x ≤ suc n) (λ x h. omega arith) (one_to n) (one_to_bounded n))

numbers-All :
    (x : ℕ) (rows : List WorkflowEvent)
    → All (λ e. x ≤ e.sequence_number) rows
    → All (λ y. x ≤ y) (map (λ e. e.sequence_number) rows)
numbers-All x [] h = tt
numbers-All x (e ∷ rows) h = (h.0, numbers-All x rows h.1)

sorted-IsAscending :
    (rows : List WorkflowEvent)
    → Pairwise (λ a b. pos a.sequence_number ≤ℤ pos b.sequence_number) rows
    → IsAscending (map (λ e. e.sequence_number) rows)
sorted-IsAscending [] s = tt
sorted-IsAscending (e ∷ rows) (Pairwise.cons f s) = (
  numbers-All e.sequence_number rows
      (All-of_mem _ rows λ b m. let below = f b ∣ m ∣₁ in omega arith),
  sorted-IsAscending rows s,
)

sequences_lem :
    (id : String) (es : List WorkflowEvent)
    → map (λ e. e.sequence_number) (select (is_event_of id) es) ≡ sequences id es
sequences_lem id [] = refl
sequences_lem id (e ∷ es) = ground (arith, sequences_lem id es)

-- On well-formed tables, when the driver refuses nothing, GetEvents writes nothing and returns the
-- workflow's events with the sequence numbers 1, 2, … in that order, up to their number, none
-- missing and none twice.
pub get_events_numbered :
    (p : Platform) (id : String) (d : Db)
    → IsWellFormed d
    → (rows : List WorkflowEvent) × (get_events p id (quiet d) ≡ (ok rows, quiet d))
      × (map (λ e. e.sequence_number) rows ≡ one_to (count (is_event_of id) d.workflow_events))
unfolding get_events
get_events_numbered p id d wf = (
  _,
  refl,
  ascending_unique _ _ (sorted-IsAscending _ (p.order_by-sorted _ _ _))
      (one_to-IsAscending (count (is_event_of id) d.workflow_events))
      λ n.
        map-count (λ e. e.sequence_number) (eqb n) _
        ∙ perm-count _ (
            p.order_by-perm WorkflowEvent (λ e. pos e.sequence_number)
              (select (is_event_of id) d.workflow_events))
        ∙ sym (map-count (λ e. e.sequence_number) (eqb n) _)
        ∙ ap (count (eqb n)) (sequences_lem id d.workflow_events ∙ wf.numbered id),
)
