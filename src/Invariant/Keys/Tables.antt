-- ===== src/Invariant/Keys/Tables.antt =====
-- INSERT and UPDATE on tables with keys.
use mathlib.Core.List.{Memᴰ}
use sqlite_durable_workflow.Common.{
  zero, ◌≤◌, subst, String, ℕ, suc, ℤ, Bool, true, false, List, [], ◌∷◌, ◌++◌, ◌≡◌, refl, sym, ap,
  ◌∙◌, arith, map, update, ◌||◌, eq_iff,
}
use sqlite_durable_workflow.Types.{Workflow, WorkflowStep}
use sqlite_durable_workflow.Store.Db.{has_workflow}
use sqlite_durable_workflow.Step.{is_step, has_step}
use sqlite_durable_workflow.Invariant.{All, one_to}
use sqlite_durable_workflow.Invariant.Rows.{All-map, All-append}
use sqlite_durable_workflow.Invariant.Keys.{Distinct, Referring}

module _ {A : Type 0} (id_of : A → ℕ) where
  map-append : (xs : List A) (a : A) → map id_of (xs ++ a ∷ []) ≡ map id_of xs ++ id_of a ∷ []
  map-append [] a = refl
  map-append (x ∷ xs) a = ap (λ ys. id_of x ∷ ys) (map-append xs a)

  -- A row with the key after the last one.
  pub ids-append :
      (xs : List A) (a : A) (n : ℕ)
      → map id_of xs ≡ one_to n
      → id_of a ≡ suc n
      → map id_of (xs ++ a ∷ []) ≡ one_to (suc n)
  ids-append xs a n h e =
      map-append xs a ∙ ap (λ ys. ys ++ id_of a ∷ []) h ∙ ap (λ k. one_to n ++ k ∷ []) e

  pub ids-update :
      (p : A → Bool) (f : A → A)
      → ((a : A) → id_of (f a) ≡ id_of a)
      → (xs : List A) → map id_of (update p f xs) ≡ map id_of xs
  ids-update p f keeps [] = refl
  ids-update p f keeps (x ∷ xs) = ground (arith, keeps x, ids-update p f keeps xs)

pub Referring-rows :
    {A : Type 0} (key : A → String) (ws vs : List Workflow) (xs : List A)
    → ((id : String) → has_workflow id ws ≡ true → has_workflow id vs ≡ true)
    → Referring key ws xs
    → Referring key vs xs
Referring-rows key ws vs xs keeps h = All-map _ _ (λ a. keeps (key a)) xs h

has_step-append :
    (id : String) (n : ℤ) (ss : List WorkflowStep) (s : WorkflowStep)
    → has_step id n (ss ++ s ∷ []) ≡ has_step id n ss || is_step id n s
has_step-append id n [] s = ground arith
has_step-append id n (r ∷ ss) s = ground (arith, has_step-append id n ss s)

pub append-Distinct :
    (ss : List WorkflowStep) (s : WorkflowStep)
    → has_step s.workflow_id s.step_number ss ≡ false
    → Distinct ss
    → Distinct (ss ++ s ∷ [])
append-Distinct [] s h d = (refl, tt)
append-Distinct (r ∷ ss) s h d = ground (
  arith,
  append-Distinct ss s,
  has_step-append r.workflow_id r.step_number ss s,
  eq_iff r.workflow_id s.workflow_id,
  eq_iff s.workflow_id r.workflow_id,
)

module _ (p : WorkflowStep → Bool) (f : WorkflowStep → WorkflowStep)
    (keeps : (s : WorkflowStep) → (f s).workflow_id ≡ s.workflow_id)
    (counts : (s : WorkflowStep) → (f s).step_number ≡ s.step_number) where
  has_step-update :
      (id : String) (n : ℤ) (ss : List WorkflowStep)
      → has_step id n (update p f ss) ≡ has_step id n ss
  has_step-update id n [] = refl
  has_step-update id n (s ∷ ss) = ground (arith, keeps s, counts s, has_step-update id n ss)

  pub update-Distinct : (ss : List WorkflowStep) → Distinct ss → Distinct (update p f ss)
  update-Distinct [] d = tt
  update-Distinct (s ∷ ss) d = ground (
    arith,
    keeps s,
    counts s,
    update-Distinct ss d.1,
    has_step-update s.workflow_id s.step_number ss,
  )

pub one_to_bounded : (n : ℕ) → All (λ x. x ≤ n) (one_to n)
one_to_bounded zero = tt
one_to_bounded (suc n) =
    All-append _ (one_to n) (suc n)
      (All-map (λ x. x ≤ n) (λ x. x ≤ suc n) (λ x h. omega arith) (one_to n) (one_to_bounded n))
      (omega arith)

mapped_mem :
    {A B : Type 0} (P : B → Type 0) (f : A → B) (xs : List A) {a : A}
    → All P (map f xs)
    → Memᴰ a xs
    → P (f a)
mapped_mem P f [] h m = elim m [ ]
mapped_mem P f (x ∷ xs) h (Memᴰ.head e) = subst P (sym (ap f e)) h.0
mapped_mem P f (x ∷ xs) h (Memᴰ.tail m) = mapped_mem P f xs h.1 m

-- No row's key is past the counter.
pub ids-bounded :
    {A : Type 0} (id_of : A → ℕ) (xs : List A) (n : ℕ) {a : A}
    → map id_of xs ≡ one_to n
    → Memᴰ a xs
    → id_of a ≤ n
ids-bounded id_of xs n h m =
    mapped_mem (λ k. k ≤ n) id_of xs (subst (All (λ k. k ≤ n)) (sym h) (one_to_bounded n)) m
