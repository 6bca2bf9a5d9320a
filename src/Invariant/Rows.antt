-- ===== src/Invariant/Rows.antt =====
-- The invariants of the table `workflows` under UPDATE.
use mathlib.Core.List.{Memᴰ}
use sqlite_durable_workflow.Common.{
  String, ℤ, Bool, true, false, List, [], ◌∷◌, ◌++◌, some, ◌≡◌, refl, sym, ap, ◌∙◌, arith, update,
  ◌&&◌, Bool-cases, inl, inr, some, eq_of_test, subst,
}
use sqlite_durable_workflow.Types.{Workflow, Timer, Status}
use sqlite_durable_workflow.Store.Db.{is_workflow, lookup, has_workflow}
use sqlite_durable_workflow.Store.Lookup.{Unique, mem-lookup}
use sqlite_durable_workflow.Workflow.{
  is_eligible, grant, is_running, is_leased, renewed, requeued, paused, finished,
}
use sqlite_durable_workflow.Timer.{is_waiting_for, is_abandoned}
use sqlite_durable_workflow.Invariant.{All, IsRow, is_terminal}

module _ {A : Type 0} where
  pub All-update :
      (P : A → Type 0) (p : A → Bool) (f : A → A)
      → ((a : A) → P a → p a ≡ true → P (f a))
      → (xs : List A) → All P xs
      → All P (update p f xs)
  All-update P p f keep [] h = tt
  All-update P p f keep (x ∷ xs) h = elim (Bool-cases (p x)) [
    | inl e ↦ rw e (keep x h.0 e, All-update P p f keep xs h.1)
    | inr e ↦ rw e (h.0, All-update P p f keep xs h.1)
  ]

  pub All-append : (P : A → Type 0) (xs : List A) (y : A) → All P xs → P y → All P (xs ++ y ∷ [])
  All-append P [] y h k = (k, tt)
  All-append P (x ∷ xs) y h k = (h.0, All-append P xs y h.1 k)

  pub All-map : (P Q : A → Type 0) → ((a : A) → P a → Q a) → (xs : List A) → All P xs → All Q xs
  All-map P Q f [] h = tt
  All-map P Q f (x ∷ xs) h = (f x h.0, All-map P Q f xs h.1)

  pub All-mem : (P : A → Type 0) {a : A} (xs : List A) → All P xs → Memᴰ a xs → P a
  All-mem P [] h m = elim m [ ]
  All-mem P (x ∷ xs) h (Memᴰ.head e) = subst P (sym e) h.0
  All-mem P (x ∷ xs) h (Memᴰ.tail m) = All-mem P xs h.1 m

  pub All-of_mem : (P : A → Type 0) (xs : List A) → ((a : A) → Memᴰ a xs → P a) → All P xs
  All-of_mem P [] h = tt
  All-of_mem P (x ∷ xs) h = (h x (Memᴰ.head refl), All-of_mem P xs (λ a m. h a (Memᴰ.tail m)))

  pub All-and : (P Q : A → Type 0) (xs : List A) → All P xs → All Q xs → All (λ a. P a × Q a) xs
  All-and P Q [] h k = tt
  All-and P Q (x ∷ xs) h k = ((h.0, k.0), All-and P Q xs h.1 k.1)

-- No workflow of this id has ended.
abbrev pub Unended : String → List Workflow → Type 0
Unended id = All λ w. (is_workflow id w && is_terminal w.status) ≡ false

pub eligible_unended :
    (now : ℤ) (ts : List Timer) (w : Workflow)
    → IsRow w
    → is_eligible now ts w ≡ true
    → is_terminal w.status ≡ false
eligible_unended now ts w r e = ground arith

pub same_row :
    (v w : Workflow) (ws : List Workflow)
    → Unique ws
    → Memᴰ v ws
    → Memᴰ w ws
    → v.workflow_id ≡ w.workflow_id
    → v ≡ w
same_row v w ws u m n e =
    let found : some v ≡ some w =
      sym (mem-lookup v ws u m) ∙ ap (λ k. lookup k ws) e ∙ mem-lookup w ws u n in
    ground arith

pub Unended-mem :
    (w : Workflow) (ws : List Workflow)
    → Unique ws
    → Memᴰ w ws
    → is_terminal w.status ≡ false
    → Unended w.workflow_id ws
Unended-mem w ws u m h = All-of_mem _ ws λ v there.
    elim (Bool-cases (is_workflow w.workflow_id v)) [
      | inr e ↦ rw e refl
      | inl e ↦
          subst (λ x. (is_workflow w.workflow_id x && is_terminal x.status) ≡ false)
            (sym (same_row v w ws u there m (eq_of_test v.workflow_id w.workflow_id e)))
            (ground arith)
    ]

pub requeued-IsRow :
    (id : String) (now : ℤ) (ws : List Workflow)
    → Unended id ws
    → All IsRow ws
    → All IsRow (update (is_workflow id) (requeued now) ws)
requeued-IsRow id now [] u h = tt
requeued-IsRow id now (w ∷ ws) u h = ground (arith, requeued-IsRow id now ws u.1 h.1)

pub granted-IsRow :
    (id worker : String) (expires now : ℤ) (ws : List Workflow)
    → Unended id ws
    → All IsRow ws
    → All IsRow (update (is_workflow id) (grant worker expires now) ws)
granted-IsRow id worker expires now [] u h = tt
granted-IsRow id worker expires now (w ∷ ws) u h =
    ground (arith, granted-IsRow id worker expires now ws u.1 h.1)

-- The loop of `fireExpiredTimers`: no workflow of a timer that is left has ended.
abbrev pub AllUnended : List Timer → List Workflow → Type 0
AllUnended ts ws = All (λ t. Unended t.workflow_id ws) ts

requeued-Unended :
    (id : String) (p : Workflow → Bool) (now : ℤ) (ws : List Workflow)
    → Unended id ws
    → Unended id (update p (requeued now) ws)
requeued-Unended id p now [] h = tt
requeued-Unended id p now (w ∷ ws) h = ground (arith, requeued-Unended id p now ws h.1)

pub requeued-AllUnended :
    (p : Workflow → Bool) (now : ℤ) (ts : List Timer) (ws : List Workflow)
    → AllUnended ts ws
    → AllUnended ts (update p (requeued now) ws)
requeued-AllUnended p now ts ws = All-map _ _ (λ t. requeued-Unended t.workflow_id p now ws) ts

absent-Unended : (id : String) (ws : List Workflow) → has_workflow id ws ≡ false → Unended id ws
absent-Unended id [] h = tt
absent-Unended id (w ∷ ws) h = ground (arith, absent-Unended id ws)

pub waiting-Unended :
    (id : String) (ws : List Workflow) → Unique ws → is_waiting_for id ws ≡ true → Unended id ws
waiting-Unended id [] u h = tt
waiting-Unended id (w ∷ ws) u h = elim (Bool-cases (is_workflow id w)) [
  | inl e ↦ (
    ground arith,
    absent-Unended id ws
        (subst (λ k. has_workflow k ws ≡ false) (eq_of_test w.workflow_id id e) u.0),
  )
  | inr e ↦ (rw e refl, waiting-Unended id ws u.1 (rw e at h))
]

-- One rule for each UPDATE.
pub renewed-IsRow :
    (id worker : String) (expires now : ℤ) (w : Workflow)
    → IsRow w
    → is_running id worker w ≡ true
    → IsRow (renewed expires now w)
renewed-IsRow id worker expires now w r h = ground arith

pub released-IsRow :
    (id worker : String) (now : ℤ) (w : Workflow)
    → IsRow w
    → is_leased id worker w ≡ true
    → IsRow (requeued now w)
released-IsRow id worker now w r h = ground arith

pub paused-IsRow :
    (id worker : String) (now : ℤ) (w : Workflow)
    → IsRow w
    → is_running id worker w ≡ true
    → IsRow (paused now w)
paused-IsRow id worker now w r h = ground arith

pub abandoned-IsRow :
    (now : ℤ) (w : Workflow) → IsRow w → is_abandoned now w ≡ true → IsRow (requeued now w)
abandoned-IsRow now w r h = ground arith

pub finished-IsRow :
    (status : Status) (now : ℤ) (w : Workflow)
    → is_terminal status ≡ true
    → IsRow (finished status now w)
finished-IsRow status now w h = ground arith
