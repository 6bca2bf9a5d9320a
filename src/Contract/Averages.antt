-- ===== src/Contract/Averages.antt =====
-- engine.go: what `AvgStepDuration` lists.
use mathlib.Core.List.{Memᴰ}
use sqlite_durable_workflow.Common.{
  ℤ, ℕ, eqb_ℤ, true, false, List, [], ◌∷◌, some, ◌≡◌, refl, sym, ap, ◌∙◌, inl, inr, arith,
  Bool-cases, Option-cases, if◌then◌else◌, map, count, map-count, ◌≤◌,
}
use sqlite_durable_workflow.Types.{WorkflowStep}
use sqlite_durable_workflow.Store.Db.{Db}
use sqlite_durable_workflow.Store.Session.{ok, quiet}
use sqlite_durable_workflow.Store.Platform.{Platform}
use sqlite_durable_workflow.Store.Rows.{perm-count}
use sqlite_durable_workflow.Query.{
  elapsed, durations, has_number, number_of, step_numbers, avg_step_duration,
}

-- 1 where some step of the number has both times, and 0 where none has.
abbrev pub listed_once : List ℤ → ℕ
listed_once [] = 0
listed_once (x ∷ xs) = 1

has-count :
    (k n : ℤ) (ns : List ℤ)
    → eqb_ℤ k n ≡ true
    → has_number k ns ≡ true
    → 1 ≤ count (λ m. eqb_ℤ m n) ns
has-count k n [] h e = ground arith
has-count k n (m ∷ ms) h e = ground (arith, has-count k n ms)

lacks-count :
    (k n : ℤ) (ns : List ℤ)
    → eqb_ℤ k n ≡ true
    → has_number k ns ≡ false
    → count (λ m. eqb_ℤ m n) ns ≡ 0
lacks-count k n [] h e = refl
lacks-count k n (m ∷ ms) h e = ground (arith, lacks-count k n ms)

listed_at_most_once : (ds : List ℤ) → listed_once ds ≤ 1
listed_at_most_once [] = omega arith
listed_at_most_once (d ∷ ds) = omega arith

-- Of a step with both times.
number_of-count :
    (seconds k n : ℤ) (ns ds : List ℤ)
    → count (λ m. eqb_ℤ m n) ns ≡ listed_once ds
    → count (λ m. eqb_ℤ m n) (number_of (some seconds) k ns)
      ≡ listed_once (if eqb_ℤ k n then seconds ∷ ds else ds)
number_of-count seconds k n ns ds h = elim (Bool-cases (eqb_ℤ k n)) [
  | inr e ↦ elim (Bool-cases (has_number k ns)) [ inl f ↦ rw (e, f) h | inr f ↦ rw (e, f) rw e h ]
  | inl e ↦ elim (Bool-cases (has_number k ns)) [
    | inl f ↦ rw (e, f) ground (arith, has-count k n ns e f, listed_at_most_once ds)
    | inr f ↦ rw (e, f) rw e ground (arith, lacks-count k n ns e f)
  ]
]

step_numbers-count :
    (n : ℤ) (ss : List WorkflowStep)
    → count (λ m. eqb_ℤ m n) (step_numbers ss) ≡ listed_once (durations n ss)
step_numbers-count n [] = refl
step_numbers-count n (s ∷ ss) = elim (Option-cases (elapsed s.started_at s.completed_at)) [
  | inl e ↦ rw e ground (arith, step_numbers-count n ss)
  | inr (secs, e) ↦ rw e (
      number_of-count secs s.step_number n (step_numbers ss) (durations n ss)
        (step_numbers-count n ss))
]

-- A pair of a map over keys has the value of its key.
map-value :
    {B : Type 0} (f : ℤ → B) (ns : List ℤ) {e : ℤ × B}
    → Memᴰ e (map (λ n. (n, f n)) ns)
    → e.1 ≡ f e.0
map-value f [] m = elim m [ ]
map-value f (n ∷ ns) (Memᴰ.head h) = ap (λ e. e.1) h ∙ sym (ap (λ e. f e.0) h)
map-value f (n ∷ ns) (Memᴰ.tail m) = map-value f ns m

-- AvgStepDuration writes nothing and lists each step number once if some step of it, of whatever
-- status, has both of its times, and not otherwise, with the average of what those steps took.
pub avg_step_duration_result :
    (p : Platform) (d : Db)
    → (averages : List (ℤ × p.Float)) × (avg_step_duration p (quiet d) ≡ (ok averages, quiet d))
      × ((n : ℤ) → count (λ e. eqb_ℤ e.0 n) averages ≡ listed_once (durations n d.workflow_steps))
      × ((e : ℤ × p.Float) → Memᴰ e averages → e.1 ≡ p.average (durations e.0 d.workflow_steps))
unfolding avg_step_duration
avg_step_duration_result p d = (
  _,
  refl,
  λ n.
      map-count _ _ (p.scan ℤ (step_numbers d.workflow_steps))
      ∙ perm-count _ (p.scan-perm ℤ (step_numbers d.workflow_steps))
      ∙ step_numbers-count n d.workflow_steps,
  λ e m. map-value (λ n. p.average (durations n d.workflow_steps)) _ m,
)
