-- ===== src/Invariant/Entries.antt =====
-- A new workflow and a granted lease keep the tables well formed.
use mathlib.Core.List.{Memᴰ}
use sqlite_durable_workflow.Common.{
  String, ℕ, ◌≢◌, ℤ, Bool, true, false, List, [], ◌∷◌, ◌++◌, Option, none, ◌≡◌, refl, ap, ◌∙◌,
  arith, update, ◌&&◌, Bool-cases, inl, inr, eq_refl, eq_iff, count, count-append,
}
use sqlite_durable_workflow.Types.{
  Workflow, WorkflowEvent, EventType, Timer, workflow_started, workflow_created,
}
use sqlite_durable_workflow.Store.Db.{has_workflow, is_workflow}
use sqlite_durable_workflow.Store.Lookup.{
  Unique, Unique-append_new, has_workflow-append_old, has_workflow-append_new, mem_has,
}
use sqlite_durable_workflow.Event.{is_event_of, event_row, next_of, max_sequence}
use sqlite_durable_workflow.Workflow.{new_workflow, grant, is_eligible}
use sqlite_durable_workflow.Invariant.{IsRow, is_completion, is_bump, Replays, WellFormed}
use sqlite_durable_workflow.Invariant.Rows.{
  All-map, All-mem, All-append, same_row, Unended-mem, eligible_unended, granted-IsRow,
}
use sqlite_durable_workflow.Invariant.Log.{absent_events, Replays-append}
use sqlite_durable_workflow.Invariant.Step.{WellFormed-append, WellFormed-logged}

pub count_mem :
    {A : Type 0} (p : A → Bool) (xs : List A) → count p xs ≢ 0 → (a : A) × Memᴰ a xs × (p a ≡ true)
count_mem p [] h = absurd (h refl)
count_mem p (x ∷ xs) h = elim (Bool-cases (p x)) [
  | inl e ↦ (x, Memᴰ.head refl, e)
  | inr e ↦ let (a, m, k) = count_mem p xs (λ z. h (rw e z)) in (a, Memᴰ.tail m, k)
]

-- A test that holds of one row of a primary key holds of each.
pub row_test :
    (q : Workflow → Bool) (w v : Workflow) (ws : List Workflow)
    → Unique ws
    → Memᴰ w ws
    → Memᴰ v ws
    → v.workflow_id ≡ w.workflow_id
    → q w ≡ true
    → q v ≡ true
row_test q w v ws u m n e h = ap q (same_row v w ws u n m e) ∙ h

pub count-and :
    {A : Type 0} (p q : A → Bool) (xs : List A) → count p xs ≡ 0 → count (λ x. p x && q x) xs ≡ 0
count-and p q [] h = refl
count-and p q (x ∷ xs) h = ground (arith, count-and p q xs)

pub new_replayed :
    (now : ℤ) (id ty : String) (k : ℕ) (es : List WorkflowEvent)
    → count (is_event_of id) es ≡ 0
    → Replays (es ++ event_row k id workflow_created none 1 now ∷ []) (new_workflow id ty now)
new_replayed now id ty k es h =
    let e : WorkflowEvent = event_row k id workflow_created none 1 now in
    ground (
      arith,
      count-append (λ (x : WorkflowEvent). is_event_of id x && is_completion x.event_type) es
          (e ∷ []),
      count-append (λ (x : WorkflowEvent). is_event_of id x && is_bump x.event_type) es (e ∷ []),
      count-and (is_event_of id) (λ (x : WorkflowEvent). is_completion x.event_type) es h,
      count-and (is_event_of id) (λ (x : WorkflowEvent). is_bump x.event_type) es h,
    )

-- `CreateWorkflow`.
pub creates-WellFormed :
    (now : ℤ) (id ty : String) (k : ℕ) (ws : List Workflow) (es : List WorkflowEvent)
    → has_workflow id ws ≡ false
    → WellFormed ws es
    → WellFormed
        (ws ++ new_workflow id ty now ∷ [])
        (es ++ event_row k id workflow_created none 1 now ∷ [])
creates-WellFormed now id ty k ws es h wf =
    let none_yet : count (is_event_of id) es ≡ 0 = absent_events id ws es h wf.owned in
    WellFormed-append ws (ws ++ new_workflow id ty now ∷ []) es _
      (Unique-append_new ws (new_workflow id ty now) wf.unique h)
      (All-append IsRow ws (new_workflow id ty now) wf.rows (refl, refl, refl))
      (λ j e. has_workflow-append_old j ws _ e)
      (has_workflow-append_new id ws (new_workflow id ty now) (eq_refl id))
      (omega (arith, none_yet))
      (All-append (Replays _) ws (new_workflow id ty now)
        (All-map (Replays es) _
          (λ w r. Replays-append es _ w w refl r (ground arith) (ground arith)) ws wf.replayed)
        (new_replayed now id ty k es none_yet))
      wf

-- The row that a step logs, with the next number of its workflow.
abbrev pub next_event :
    ℕ → String → EventType → Option String → ℤ → List WorkflowEvent → WorkflowEvent
next_event k id event_type payload now es =
    event_row k id event_type payload (next_of (max_sequence id es)) now

-- `AcquireLease`.
pub acquires-WellFormed :
    (w : Workflow) (worker : String) (until now : ℤ) (ts : List Timer) (k : ℕ) (ws : List Workflow)
    (es : List WorkflowEvent)
    → is_eligible now ts w ≡ true
    → Memᴰ w ws
    → WellFormed ws es
    → WellFormed
        (update (is_workflow w.workflow_id) (grant worker until now) ws)
        (es ++ next_event k w.workflow_id workflow_started none now es ∷ [])
acquires-WellFormed w worker until now ts k ws es h m wf =
    WellFormed-logged (is_workflow w.workflow_id) (grant worker until now) ws es k w.workflow_id _ _
      now (λ v. refl)
      (λ v _.
        ground (arith, eq_iff w.workflow_id v.workflow_id, eq_iff v.workflow_id w.workflow_id))
      (granted-IsRow w.workflow_id worker until now ws
        (Unended-mem w ws wf.unique m (eligible_unended now ts w (All-mem IsRow ws wf.rows m) h))
        wf.rows)
      (mem_has w ws m) wf
