-- ===== src/Store/Lookup.antt =====
-- The workflow of a given primary key, under INSERT and UPDATE.
use mathlib.Core.List.{Memᴰ}
use sqlite_durable_workflow.Common.{
  String, ⊤, Bool, true, false, List, [], ◌∷◌, ◌++◌, none, some, if◌then◌else◌, ◌≡◌, refl, arith,
  ◌||◌, update, eq_of_test, test_of_eq, eq_iff, Bool-cases, ap, sym, ◌∙◌, inl, inr,
}
use sqlite_durable_workflow.Types.{Workflow}
use sqlite_durable_workflow.Store.Db.{is_workflow, lookup, has_workflow}

pub has_workflow-append :
    (id : String) (ws vs : List Workflow)
    → has_workflow id (ws ++ vs) ≡ has_workflow id ws || has_workflow id vs
has_workflow-append id [] vs = refl
has_workflow-append id (w ∷ ws) vs = ground (arith, has_workflow-append id ws vs)

-- No two rows share the primary key.
abbrev pub Unique : List Workflow → Type 0
Unique [] = ⊤
Unique (w ∷ ws) = (has_workflow w.workflow_id ws ≡ false) × Unique ws

pub lookup-append_new :
    (id : String) (ws : List Workflow) (w : Workflow)
    → has_workflow id ws ≡ false
    → is_workflow id w ≡ true
    → lookup id (ws ++ w ∷ []) ≡ some w
lookup-append_new id [] w h e = ground arith
lookup-append_new id (v ∷ ws) w h e = ground (arith, lookup-append_new id ws w)

pub lookup-append_old :
    (id : String) (ws vs : List Workflow) {w : Workflow}
    → lookup id ws ≡ some w
    → lookup id (ws ++ vs) ≡ some w
lookup-append_old id [] vs e = cc
lookup-append_old id (v ∷ ws) vs {w} e = ground (arith, lookup-append_old id ws vs {w = w})

pub has_workflow-append_new :
    (id : String) (ws : List Workflow) (w : Workflow)
    → is_workflow id w ≡ true
    → has_workflow id (ws ++ w ∷ []) ≡ true
has_workflow-append_new id ws w e = ground (arith, has_workflow-append id ws (w ∷ []))

pub has_workflow-append_old :
    (id : String) (ws vs : List Workflow)
    → has_workflow id ws ≡ true
    → has_workflow id (ws ++ vs) ≡ true
has_workflow-append_old id ws vs e = ground (arith, has_workflow-append id ws vs)

pub Unique-append_new :
    (ws : List Workflow) (w : Workflow)
    → Unique ws
    → has_workflow w.workflow_id ws ≡ false
    → Unique (ws ++ w ∷ [])
Unique-append_new [] w u h = (refl, tt)
Unique-append_new (v ∷ ws) w u h = ground (
  arith,
  Unique-append_new ws w u.1,
  has_workflow-append v.workflow_id ws (w ∷ []),
  eq_iff v.workflow_id w.workflow_id,
  eq_iff w.workflow_id v.workflow_id,
)

pub lookup_has :
    (id : String) (ws : List Workflow) {w : Workflow}
    → lookup id ws ≡ some w
    → has_workflow id ws ≡ true
lookup_has id [] e = cc
lookup_has id (v ∷ ws) {w} e = ground (arith, lookup_has id ws {w = w})

pub lookup-none :
    (id : String) (ws : List Workflow) → has_workflow id ws ≡ false → lookup id ws ≡ none
lookup-none id [] e = refl
lookup-none id (v ∷ ws) e = ground (arith, lookup-none id ws)

pub mem_has : (w : Workflow) (ws : List Workflow) → Memᴰ w ws → has_workflow w.workflow_id ws ≡ true
mem_has w [] m = elim m [ ]
mem_has w (v ∷ ws) (Memᴰ.head e) =
    rw (test_of_eq v.workflow_id w.workflow_id (ap (λ x. x.workflow_id) (sym e)))
mem_has w (v ∷ ws) (Memᴰ.tail m) = ground (arith, mem_has w ws m)

pub mem-lookup :
    (w : Workflow) (ws : List Workflow) → Unique ws → Memᴰ w ws → lookup w.workflow_id ws ≡ some w
mem-lookup w [] u m = elim m [ ]
mem-lookup w (v ∷ ws) u (Memᴰ.head e) =
    rw (test_of_eq v.workflow_id w.workflow_id (ap (λ x. x.workflow_id) (sym e)), lookup)
      (ap some (sym e))
mem-lookup w (v ∷ ws) u (Memᴰ.tail m) =
    ground (arith, mem-lookup w ws u.1 m, mem_has w ws m, eq_iff v.workflow_id w.workflow_id)

pub lookup_mem :
    (id : String) (ws : List Workflow) {w : Workflow}
    → lookup id ws ≡ some w
    → Memᴰ w ws × (w.workflow_id ≡ id)
lookup_mem id [] e = cc
lookup_mem id (v ∷ ws) {w} e = elim (Bool-cases (is_workflow id v)) [
  | inl h ↦
      let same : v ≡ w = ground arith in
      (Memᴰ.head (sym same), sym (ap (λ x. x.workflow_id) same) ∙ eq_of_test v.workflow_id id h)
  | inr h ↦ let (there, key) = lookup_mem id ws {w = w} (ground arith) in (Memᴰ.tail there, key)
]

-- An UPDATE that leaves the primary key alone.
module _ (p : Workflow → Bool) (f : Workflow → Workflow)
    (keeps : (w : Workflow) → (f w).workflow_id ≡ w.workflow_id) where
  pub has_workflow-update :
      (id : String) (ws : List Workflow) → has_workflow id (update p f ws) ≡ has_workflow id ws
  has_workflow-update id [] = refl
  has_workflow-update id (w ∷ ws) = ground (arith, keeps w, has_workflow-update id ws)

  pub lookup-update :
      (id : String) (ws : List Workflow) {w : Workflow}
      → lookup id ws ≡ some w
      → lookup id (update p f ws) ≡ some (if p w then f w else w)
  lookup-update id [] e = cc
  lookup-update id (v ∷ ws) {w} e = ground (arith, keeps v, lookup-update id ws {w = w})

  pub Unique-update : (ws : List Workflow) → Unique ws → Unique (update p f ws)
  Unique-update [] u = tt
  Unique-update (w ∷ ws) u =
      ground (arith, keeps w, Unique-update ws u.1, has_workflow-update w.workflow_id ws)
