-- ===== src/Tests/Samples.antt =====
-- A platform that computes, and small databases.
use mathlib.Core.Logic.{∥∥₁_elim}
use mathlib.Core.List.{Mem, Memᴰ, Permᴰ, Pairwise}
use native.Mathlib.Bridge.{le_prop}
use sqlite_durable_workflow.Common.{
  ℕ, length, String, ℤ, pos, ◌≤ℤ◌, leb_ℤ, true, false, List, [], ◌∷◌, Option, none, some, ◌≡◌, refl,
  sym, int64, ◌+ℤ◌, inl, inr, Bool-cases, arith, subst,
}
use sqlite_durable_workflow.Types.{Workflow, WorkflowStep, StepStatus, running, Value, text, object}
use sqlite_durable_workflow.Store.Db.{Db, init_schema, lookup}
use sqlite_durable_workflow.Store.Session.{Session, quiet}
use sqlite_durable_workflow.Section.{Section, create, acquire, perform, history}
use sqlite_durable_workflow.Step.{finished_row}
use sqlite_durable_workflow.Workflow.{create_workflow, acquire_lease}
use sqlite_durable_workflow.Store.Platform.{Platform}
use sqlite_durable_workflow.Store.Rows.{perm_mem}

pub perm_refl : {A : Type 0} (xs : List A) → Permᴰ xs xs
perm_refl [] = Permᴰ.nil
perm_refl (x ∷ xs) = Permᴰ.cons refl (perm_refl xs)

module _ {A : Type 0} (key : A → ℤ) where
  abbrev pub insert : A → List A → List A
  insert a [] = a ∷ []
  insert a (x ∷ xs) =
      let rest = insert a xs in
      elim (leb_ℤ (key a) (key x)) [ true ↦ a ∷ x ∷ xs | false ↦ x ∷ rest ]

  abbrev pub insertion_sort : List A → List A
  insertion_sort [] = []
  insertion_sort (x ∷ xs) = insert x (insertion_sort xs)

  insert-perm : (a : A) (xs : List A) → Permᴰ (insert a xs) (a ∷ xs)
  insert-perm a [] = Permᴰ.cons refl Permᴰ.nil
  insert-perm a (x ∷ xs) = elim (Bool-cases (leb_ℤ (key a) (key x))) [
    | inl h ↦ rw (h, insert) (perm_refl (a ∷ x ∷ xs))
    | inr h ↦
        rw (h, insert) (Permᴰ.trans (Permᴰ.cons refl (insert-perm a xs)) (Permᴰ.swap refl refl))
  ]

  pub sort-perm : (xs : List A) → Permᴰ (insertion_sort xs) xs
  sort-perm [] = Permᴰ.nil
  sort-perm (x ∷ xs) =
      Permᴰ.trans (insert-perm x (insertion_sort xs)) (Permᴰ.cons refl (sort-perm xs))

  head_least :
      (c a : A) (xs : List A)
      → key c ≤ℤ key a
      → ((b : A) → Mem b xs → key c ≤ℤ key b)
      → (b : A) → Memᴰ b (a ∷ xs)
      → key c ≤ℤ key b
  head_least c a xs h f b (Memᴰ.head e) = subst (λ x. key c ≤ℤ key x) (sym e) h
  head_least c a xs h f b (Memᴰ.tail m) = f b ∣ m ∣₁

  insert-sorted :
      (a : A) (xs : List A)
      → Pairwise (λ x y. key x ≤ℤ key y) xs
      → Pairwise (λ x y. key x ≤ℤ key y) (insert a xs)
  insert-sorted a [] Pairwise.nil =
      Pairwise.cons (λ b m. ∥∥₁_elim m le_prop (λ n. elim n [ ])) Pairwise.nil
  insert-sorted a (x ∷ xs) (Pairwise.cons f p) = elim (Bool-cases (leb_ℤ (key a) (key x))) [
    | inl h ↦
        rw (h, insert)
          (Pairwise.cons
            (λ b m.
              ∥∥₁_elim m le_prop
                (λ n. head_least a x xs (ground arith) (λ c k. let g = f c k in ground arith) b n))
            (Pairwise.cons f p))
    | inr h ↦
        rw (h, insert)
          (Pairwise.cons
            (λ b m.
              ∥∥₁_elim m le_prop
                (λ n. head_least x a xs (ground arith) f b (perm_mem (insert-perm a xs) n)))
            (insert-sorted a xs p))
  ]

  pub sort-sorted : (xs : List A) → Pairwise (λ x y. key x ≤ℤ key y) (insertion_sort xs)
  sort-sorted [] = Pairwise.nil
  sort-sorted (x ∷ xs) = insert-sorted x (insertion_sort xs) (sort-sorted xs)

abbrev pub marshal : Value → Option String
marshal (text s) = some s
marshal (object fields) = some "{}"
marshal _ = none

abbrev pub total : List ℤ → ℤ
total [] = pos 0
total (x ∷ xs) = x +ℤ total xs

-- Durations of the tests are in seconds already.
abbrev pub platform : Platform
platform = record {
  order_by = λ A key rows. insertion_sort key rows;
  order_by-perm = λ A key rows. sort-perm key rows;
  order_by-sorted = λ A key rows. sort-sorted key rows;
  scan = λ A rows. rows;
  scan-perm = λ A rows. perm_refl rows;
  marshal = marshal;
  seconds = λ duration. duration;
  -- The sum and the number of the values stand for their quotient.
  Float = ℤ × ℕ;
  average = λ xs. (total xs, length xs);
}

abbrev pub started_at_zero : Session
started_at_zero = quiet init_schema

-- A workflow "w" created at 0 and leased by the worker "a" from 10 to 100.
abbrev pub opening : List Section
opening = create (pos 0) "w" "order" ∷ acquire (pos 10) "a" (pos 90) ∷ []

abbrev pub leased_row : Workflow
leased_row = record {
  workflow_id = "w";
  workflow_type = "order";
  status = running;
  current_step = 0;
  lease_owner = some "a";
  lease_expires_at = some (pos 100);
  created_at = pos 0;
  updated_at = pos 10;
  completed_at = none;
  version = 2;
}

pub opened_row :
    lookup "w" (history platform opening started_at_zero).db.workflows ≡ some leased_row
unfolding history perform create_workflow acquire_lease int64 ◌+ℤ◌
opened_row = refl

abbrev pub leased_db : Db
leased_db = record init_schema { workflows = leased_row ∷ [] }

abbrev pub completed_step : WorkflowStep
completed_step = finished_row StepStatus.completed "w" (pos 1) none (some "out") (pos 20)

-- The same with a checkpoint of step 1.
abbrev pub checkpointed_db : Db
checkpointed_db = record leased_db { workflow_steps = completed_step ∷ [] }
