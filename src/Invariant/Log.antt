-- ===== src/Invariant/Log.antt =====
-- The invariants of the event log.
use sqlite_durable_workflow.Common.{
  String, ℕ, zero, suc, ◌+◌, Bool, true, false, List, [], ◌∷◌, ◌++◌, Option, none, some, ◌≡◌, refl,
  ap, ◌∙◌, arith, if◌then◌else◌, ◌&&◌, Bool-cases, inl, inr, eq_of_test, subst, count, count-append,
}
use sqlite_durable_workflow.Types.{Workflow, WorkflowEvent}
use sqlite_durable_workflow.Store.Db.{has_workflow}
use sqlite_durable_workflow.Event.{is_event_of, max_sequence, next_of, max_of}
use sqlite_durable_workflow.Invariant.{
  All, sequences, one_to, IsNumbered, is_completion, is_bump, Replays, Owned,
}

maximum : List ℕ → Option ℕ
maximum [] = none
maximum (x ∷ xs) = some (max_of x (maximum xs))

max_sequence-eq :
    (id : String) (es : List WorkflowEvent) → max_sequence id es ≡ maximum (sequences id es)
unfolding maximum
max_sequence-eq id [] = refl
max_sequence-eq id (e ∷ es) = ground (arith, max_sequence-eq id es)

maximum-append : (xs : List ℕ) (y : ℕ) → maximum (xs ++ y ∷ []) ≡ some (max_of y (maximum xs))
unfolding maximum
maximum-append [] y = refl
maximum-append (x ∷ xs) y = ground (arith, maximum-append xs y)

next-one_to : (n : ℕ) → next_of (maximum (one_to n)) ≡ suc n
unfolding maximum
next-one_to zero = refl
next-one_to (suc n) = ground (arith, maximum-append (one_to n) (suc n), next-one_to n)

-- The next number of a workflow whose events are numbered.
pub next-IsNumbered :
    (id : String) (es : List WorkflowEvent)
    → IsNumbered id es
    → next_of (max_sequence id es) ≡ suc (count (is_event_of id) es)
next-IsNumbered id es h =
    ap next_of (max_sequence-eq id es ∙ ap maximum h) ∙ next-one_to (count (is_event_of id) es)

sequences-append :
    (id : String) (es : List WorkflowEvent) (e : WorkflowEvent)
    → sequences id (es ++ e ∷ [])
      ≡ sequences id es ++ (if is_event_of id e then e.sequence_number ∷ [] else [])
sequences-append id [] e = ground arith
sequences-append id (x ∷ es) e = ground (arith, sequences-append id es e)

append-nil : (xs : List ℕ) → xs ++ [] ≡ xs
append-nil [] = refl
append-nil (x ∷ xs) = ap (◌∷◌ x) (append-nil xs)

-- An appended event that has the next number of its workflow.
pub IsNumbered-append :
    (id : String) (es : List WorkflowEvent) (e : WorkflowEvent)
    → IsNumbered id es
    → (is_event_of id e ≡ true → e.sequence_number ≡ suc (count (is_event_of id) es))
    → IsNumbered id (es ++ e ∷ [])
IsNumbered-append id es e h k = elim (Bool-cases (is_event_of id e)) [
  | inl m ↦ ground (arith, sequences-append id es e, count-append (is_event_of id) es (e ∷ []), k m)
  | inr m ↦ ground (
    arith,
    sequences-append id es e,
    count-append (is_event_of id) es (e ∷ []),
    append-nil (sequences id es),
  )
]

module _ {A : Type 0} where
  count_absent : (p : A → Bool) (xs : List A) → All (λ x. p x ≡ false) xs → count p xs ≡ 0
  count_absent p [] h = refl
  count_absent p (x ∷ xs) h = ground (arith, count_absent p xs h.1)

-- A workflow that is not in the table has no events.
pub absent_events :
    (id : String) (ws : List Workflow) (es : List WorkflowEvent)
    → has_workflow id ws ≡ false
    → All (Owned ws) es
    → count (is_event_of id) es ≡ 0
absent_events id ws [] h o = refl
absent_events id ws (e ∷ es) h o = elim (Bool-cases (is_event_of id e)) [
  | inr m ↦ ground (arith, absent_events id ws es h o.1)
  | inl m ↦ cc (h, subst (λ k. has_workflow k ws ≡ true) (eq_of_test e.workflow_id id m) o.0)
]

-- The counts that a row replays, after one more event.
pub Replays-append :
    (es : List WorkflowEvent) (e : WorkflowEvent) (w v : Workflow)
    → v.workflow_id ≡ w.workflow_id
    → Replays es w
    → v.current_step
      ≡ w.current_step
        + (if is_event_of w.workflow_id e && is_completion e.event_type then 1 else 0)
    → v.version ≡ w.version + (if is_event_of w.workflow_id e && is_bump e.event_type then 1 else 0)
    → Replays (es ++ e ∷ []) v
Replays-append es e w v same h step version = rw same (
    ground (
      arith,
      count-append (λ x. is_event_of w.workflow_id x && is_completion x.event_type) es (e ∷ []),
      count-append (λ x. is_event_of w.workflow_id x && is_bump x.event_type) es (e ∷ []),
    ))
