-- ===== src/Store/Rows.antt =====
-- The rows of a query: which they are, and which comes first.
use mathlib.Core.List.{Memᴰ, Permᴰ, Pairwise}
use mathlib.Core.List.Permᴰ
use mathlib.Core.List.Memᴰ
use sqlite_durable_workflow.Common.{
  ℤ, ◌≤ℤ◌, pos_part, neg_part, Bool, true, false, List, [], ◌∷◌, Option, none, some, ◌≡◌, refl, sym,
  ap, ◌∙◌, subst, inl, inr, arith, select, first, count, Bool-cases,
}
use sqlite_durable_workflow.Store.Platform.{Platform}

module _ {A : Type 0} where
  pub perm_mem : {xs ys : List A} {a : A} → Permᴰ xs ys → Memᴰ a xs → Memᴰ a ys
  perm_mem Permᴰ.nil m = m
  perm_mem (Permᴰ.cons e p) (Memᴰ.head h) = Memᴰ.head (h ∙ e)
  perm_mem (Permᴰ.cons e p) (Memᴰ.tail m) = Memᴰ.tail (perm_mem p m)
  perm_mem (Permᴰ.swap e f) (Memᴰ.head h) = Memᴰ.tail (Memᴰ.head (h ∙ e))
  perm_mem (Permᴰ.swap e f) (Memᴰ.tail (Memᴰ.head h)) = Memᴰ.head (h ∙ f)
  perm_mem (Permᴰ.swap e f) (Memᴰ.tail (Memᴰ.tail m)) = Memᴰ.tail (Memᴰ.tail m)
  perm_mem (Permᴰ.trans p q) m = perm_mem q (perm_mem p m)

  -- `WHERE`: the rows that pass, and no other.
  pub mem-select :
      (p : A → Bool) {a : A} (xs : List A) → Memᴰ a (select p xs) → (p a ≡ true) × Memᴰ a xs
  mem-select p [] m = elim m [ ]
  mem-select p (x ∷ xs) m = elim (Bool-cases (p x)) [
    | inl e ↦ elim (Memᴰ.cases_cons (rw e at m)) [
      | inl h ↦ (ap p h ∙ e, Memᴰ.head h)
      | inr q ↦ let (passes, there) = mem-select p xs q in (passes, Memᴰ.tail there)
    ]
    | inr e ↦ let (passes, there) = mem-select p xs (rw e at m) in (passes, Memᴰ.tail there)
  ]

  pub select-mem :
      (p : A → Bool) {a : A} (xs : List A) → p a ≡ true → Memᴰ a xs → Memᴰ a (select p xs)
  select-mem p [] h m = elim m [ ]
  select-mem p (x ∷ xs) h (Memᴰ.head e) = rw (sym (ap p e) ∙ h) (Memᴰ.head e)
  select-mem p (x ∷ xs) h (Memᴰ.tail m) = elim (Bool-cases (p x)) [
    | inl e ↦ rw e (Memᴰ.tail (select-mem p xs h m))
    | inr e ↦ rw e (select-mem p xs h m)
  ]

  first_some : (xs : List A) (a : A) → first xs ≡ some a → Memᴰ a xs
  first_some [] a e = cc
  first_some (x ∷ xs) a e = Memᴰ.head (ground arith)

  pub first-none : (xs : List A) → first xs ≡ none → xs ≡ []
  first-none [] e = refl
  first-none (x ∷ xs) e = cc

  no_rows_mem : {a : A} {xs : List A} → xs ≡ [] → Memᴰ a xs → ⊥
  no_rows_mem {a} e m = elim (subst (λ l. Memᴰ a l) e m) [ ]

  first_least :
      (key : A → ℤ) (xs : List A) (a b : A)
      → Pairwise (λ x y. key x ≤ℤ key y) xs
      → first xs ≡ some a
      → Memᴰ b xs
      → key a ≤ℤ key b
  first_least key [] a b p e m = cc
  first_least key (x ∷ xs) a b (Pairwise.cons f p) e (Memᴰ.head h) =
      let same : x ≡ a = ground arith in
      omega (arith, ap (λ c. pos_part (key c)) (h ∙ same), ap (λ c. neg_part (key c)) (h ∙ same))
  first_least key (x ∷ xs) a b (Pairwise.cons f p) e (Memᴰ.tail m) =
      let same : x ≡ a = ground arith in subst (λ c. key c ≤ℤ key b) same (f b ∣ m ∣₁)

-- What the first row of a query is, for `ORDER BY … ASC LIMIT 1`.
module _ (q : Platform) {A : Type 0} (key : A → ℤ) (p : A → Bool) (rows : List A) where
  abbrev chosen : Option A
  chosen = first (q.order_by A key (select p rows))

  pub chosen-none : chosen ≡ none → (a : A) → Memᴰ a rows → p a ≡ false
  chosen-none e a m = elim (Bool-cases (p a)) [
    | inl h ↦ absurd (
        no_rows_mem (first-none _ e)
          (perm_mem (Permᴰ.symm (q.order_by-perm A key (select p rows))) (select-mem p rows h m)))
    | inr h ↦ h
  ]

  pub chosen_mem : (a : A) → chosen ≡ some a → (p a ≡ true) × Memᴰ a rows
  chosen_mem a e =
      mem-select p rows (perm_mem (q.order_by-perm A key (select p rows)) (first_some _ a e))

  pub chosen_least : (a b : A) → chosen ≡ some a → p b ≡ true → Memᴰ b rows → key a ≤ℤ key b
  chosen_least a b e h m =
      first_least key _ a b (q.order_by-sorted A key (select p rows)) e
        (perm_mem (Permᴰ.symm (q.order_by-perm A key (select p rows))) (select-mem p rows h m))

pub perm-count :
    {A : Type 0} (p : A → Bool) {xs ys : List A} → Permᴰ xs ys → count p xs ≡ count p ys
perm-count p Permᴰ.nil = refl
perm-count p (Permᴰ.cons e q) = ground (arith, ap p e, perm-count p q)
perm-count p (Permᴰ.swap e f) = ground (arith, ap p e, ap p f)
perm-count p (Permᴰ.trans q r) = perm-count p q ∙ perm-count p r
