-- ===== src/Invariant/Step.antt =====
-- Each step of the database keeps it well formed.
use mathlib.Core.List.{Memᴰ}
use sqlite_durable_workflow.Common.{
  String, ℕ, suc, ◌+◌, ℤ, Bool, true, false, List, [], ◌∷◌, ◌++◌, Option, ◌≡◌, refl, ◌∙◌, arith,
  update, if◌then◌else◌, ◌&&◌, eq_of_test, subst, count,
}
use sqlite_durable_workflow.Types.{Workflow, WorkflowEvent, EventType}
use sqlite_durable_workflow.Store.Db.{has_workflow}
use sqlite_durable_workflow.Store.Lookup.{Unique, Unique-update, has_workflow-update}
use sqlite_durable_workflow.Event.{is_event_of, max_sequence, next_of, event_row}
use sqlite_durable_workflow.Invariant.{
  All, IsRow, is_completion, is_bump, Replays, Owned, WellFormed,
}
use sqlite_durable_workflow.Invariant.Rows.{All-map, All-update, All-append}
use sqlite_durable_workflow.Invariant.Log.{next-IsNumbered, IsNumbered-append, Replays-append}

-- The rows after a step, with one more event.
pub WellFormed-append :
    (ws vs : List Workflow) (es : List WorkflowEvent) (e : WorkflowEvent)
    → Unique vs
    → All IsRow vs
    → ((id : String) → has_workflow id ws ≡ true → has_workflow id vs ≡ true)
    → has_workflow e.workflow_id vs ≡ true
    → e.sequence_number ≡ suc (count (is_event_of e.workflow_id) es)
    → All (Replays (es ++ e ∷ [])) vs
    → WellFormed ws es
    → WellFormed vs (es ++ e ∷ [])
WellFormed-append ws vs es e u r keeps here next replays wf = record {
  unique = u;
  rows = r;
  owned =
      All-append (Owned vs) es e
        (All-map (Owned ws) (Owned vs) (λ x. keeps x.workflow_id) es wf.owned) here;
  numbered = λ id. IsNumbered-append id es e (wf.numbered id) (λ m.
      subst (λ k. e.sequence_number ≡ suc (count (is_event_of k) es))
        (eq_of_test e.workflow_id id m) next);
  replayed = replays;
}

-- An UPDATE that leaves the key, the cursor and the version alone.
pub WellFormed-update :
    (p : Workflow → Bool) (f : Workflow → Workflow) (ws : List Workflow) (es : List WorkflowEvent)
    → ((w : Workflow) → (f w).workflow_id ≡ w.workflow_id)
    → ((w : Workflow) → Replays es w → Replays es (f w))
    → All IsRow (update p f ws)
    → WellFormed ws es
    → WellFormed (update p f ws) es
WellFormed-update p f ws es keeps replays r wf = record {
  unique = Unique-update p f keeps ws wf.unique;
  rows = r;
  owned =
      All-map (Owned ws) (Owned (update p f ws))
        (λ x h. has_workflow-update p f keeps x.workflow_id ws ∙ h) es wf.owned;
  numbered = wf.numbered;
  replayed = All-update (Replays es) p f (λ w h _. replays w h) ws wf.replayed;
}

-- How a row and the row after an UPDATE count an event.
abbrev pub Counts : WorkflowEvent → Workflow → Workflow → Type 0
Counts e w v =
    (v.current_step
      ≡ w.current_step
        + (if is_event_of w.workflow_id e && is_completion e.event_type then 1 else 0))
    × (v.version
        ≡ w.version + (if is_event_of w.workflow_id e && is_bump e.event_type then 1 else 0))

Replays-rows :
    (p : Workflow → Bool) (f : Workflow → Workflow) (ws : List Workflow) (es : List WorkflowEvent)
    (e : WorkflowEvent)
    → ((w : Workflow) → (f w).workflow_id ≡ w.workflow_id)
    → ((w : Workflow) → Memᴰ w ws → Counts e w (if p w then f w else w))
    → All (Replays es) ws
    → All (Replays (es ++ e ∷ [])) (update p f ws)
Replays-rows p f [] es e keeps counts h = tt
Replays-rows p f (w ∷ ws) es e keeps counts h = (
  Replays-append es e w (if p w then f w else w) (ground (arith, keeps w)) h.0
      (counts w (Memᴰ.head refl)).0 (counts w (Memᴰ.head refl)).1,
  Replays-rows p f ws es e keeps (λ v m. counts v (Memᴰ.tail m)) h.1,
)

-- An UPDATE and the event of it, as every function of the engine makes them.
pub WellFormed-logged :
    (p : Workflow → Bool) (f : Workflow → Workflow) (ws : List Workflow) (es : List WorkflowEvent)
    (k : ℕ) (id : String) (event_type : EventType) (payload : Option String) (now : ℤ)
    → let e = event_row k id event_type payload (next_of (max_sequence id es)) now in
      ((w : Workflow) → (f w).workflow_id ≡ w.workflow_id)
      → ((w : Workflow) → Memᴰ w ws → Counts e w (if p w then f w else w))
      → All IsRow (update p f ws)
      → has_workflow id ws ≡ true
      → WellFormed ws es
      → WellFormed (update p f ws) (es ++ e ∷ [])
WellFormed-logged p f ws es k id event_type payload now keeps counts r here wf =
    WellFormed-append ws (update p f ws) es _ (Unique-update p f keeps ws wf.unique) r
      (λ j h. has_workflow-update p f keeps j ws ∙ h) (has_workflow-update p f keeps id ws ∙ here)
      (next-IsNumbered id es (wf.numbered id)) (Replays-rows p f ws es _ keeps counts wf.replayed)
      wf

-- An event that neither the cursor nor the version counts.
pub WellFormed-event :
    (ws : List Workflow) (es : List WorkflowEvent) (k : ℕ) (id : String) (event_type : EventType)
    (payload : Option String) (now : ℤ)
    → is_completion event_type ≡ false
    → is_bump event_type ≡ false
    → has_workflow id ws ≡ true
    → WellFormed ws es
    → WellFormed ws
        (es ++ event_row k id event_type payload (next_of (max_sequence id es)) now ∷ [])
WellFormed-event ws es k id event_type payload now c b here wf =
    WellFormed-append ws ws es _ wf.unique wf.rows (λ j h. h) here
      (next-IsNumbered id es (wf.numbered id))
      (All-map (Replays es) _ (λ w h. Replays-append es _ w w refl h (ground arith) (ground arith))
        ws wf.replayed)
      wf
