-- ===== src/Contract/Timers.antt =====
-- Timers that fire (timer.go).
use mathlib.Core.List.{Memᴰ, Permᴰ}
use sqlite_durable_workflow.Common.{
  String, ℕ, suc, ℤ, Bool, true, false, List, [], ◌∷◌, none, some, ◌≡◌, refl, ap, ◌∙◌, subst, arith,
  select, update, count, length, length-select, ◌⊎◌, inl, inr, Bool-cases,
}
use sqlite_durable_workflow.Types.{Workflow, Timer, queued}
use sqlite_durable_workflow.Store.Db.{Db, is_workflow, lookup}
use sqlite_durable_workflow.Store.Session.{ok, quiet}
use sqlite_durable_workflow.Store.Platform.{Platform}
use sqlite_durable_workflow.Store.Lookup.{lookup-update}
use sqlite_durable_workflow.Workflow.{requeued}
use sqlite_durable_workflow.Timer.{
  is_waiting_for, is_firing, firing_timers, is_timer, fired_timer, fire_expired_timers,
}
use sqlite_durable_workflow.Effect.Timers.{
  firing, firing_all, firing_timers_all, fire_expired_timers_lem,
}

length_perm : {A : Type 0} {xs ys : List A} → Permᴰ xs ys → length xs ≡ length ys
length_perm Permᴰ.nil = refl
length_perm (Permᴰ.cons e p) = ap suc (length_perm p)
length_perm (Permᴰ.swap e f) = refl
length_perm (Permᴰ.trans p q) = length_perm p ∙ length_perm q

-- No workflow is made to wait by a timer that fires, and the timer's own workflow waits no more.
requeued_waits :
    (now : ℤ) (j id : String) (ws : List Workflow)
    → is_waiting_for id (update (is_workflow j) (requeued now) ws) ≡ true
    → is_waiting_for id ws ≡ true
requeued_waits now j id [] h = h
requeued_waits now j id (w ∷ ws) h = ground (arith, requeued_waits now j id ws)

requeued_not :
    (now : ℤ) (id : String) (ws : List Workflow)
    → is_waiting_for id (update (is_workflow id) (requeued now) ws) ≡ false
requeued_not now id [] = refl
requeued_not now id (w ∷ ws) = ground (arith, requeued_not now id ws)

firing_all_waits :
    (now : ℤ) (ts : List Timer) (d : Db) (id : String)
    → is_waiting_for id (firing_all now ts d).workflows ≡ true
    → is_waiting_for id d.workflows ≡ true
firing_all_waits now [] d id h = h
firing_all_waits now (t ∷ ts) d id h =
    requeued_waits now t.workflow_id id d.workflows (firing_all_waits now ts (firing now t d) id h)

firing_all_not :
    (now : ℤ) (ts : List Timer) (d : Db) (t : Timer)
    → Memᴰ t ts
    → is_waiting_for t.workflow_id (firing_all now ts d).workflows ≡ true
    → ⊥
firing_all_not now [] d t m h = elim m [ ]
firing_all_not now (s ∷ ts) d t (Memᴰ.tail m) h = firing_all_not now ts (firing now s d) t m h
firing_all_not now (s ∷ ts) d t (Memᴰ.head e) h =
    let still = firing_all_waits now ts (firing now s d) s.workflow_id (
      subst (λ x. is_waiting_for x.workflow_id (firing_all now (s ∷ ts) d).workflows ≡ true) e h) in
    let gone = requeued_not now s.workflow_id d.workflows in ground arith

-- A timer of the table afterwards was there before, or is fired.
fired_or_old :
    (k : ℕ) (ts : List Timer) (t : Timer)
    → Memᴰ t (update (is_timer k) fired_timer ts)
    → (t.fired ≡ true) ⊎ Memᴰ t ts
fired_or_old k [] t m = elim m [ ]
fired_or_old k (s ∷ ts) t (Memᴰ.tail m) = elim (fired_or_old k ts t m) [
  | inl h ↦ inl h
  | inr h ↦ inr (Memᴰ.tail h)
]
fired_or_old k (s ∷ ts) t (Memᴰ.head e) = elim (Bool-cases (is_timer k s)) [
  | inl h ↦ let same : t ≡ fired_timer s = e ∙ rw h refl in inl (ap (λ x. x.fired) same)
  | inr h ↦ let same : t ≡ s = e ∙ rw h refl in inr (Memᴰ.head same)
]

all_fired_or_old :
    (now : ℤ) (ts : List Timer) (d : Db) (t : Timer)
    → Memᴰ t (firing_all now ts d).workflow_timers
    → (t.fired ≡ true) ⊎ Memᴰ t d.workflow_timers
all_fired_or_old now [] d t m = inr m
all_fired_or_old now (s ∷ ts) d t m = elim (all_fired_or_old now ts (firing now s d) t m) [
  | inl h ↦ inl h
  | inr h ↦ fired_or_old s.timer_id d.workflow_timers t h
]

pub requeued_row :
    (now : ℤ) (test : Workflow → Bool) (id : String) (ws : List Workflow) (w : Workflow)
    → lookup id ws ≡ some w
    → (w.status ≡ queued) × (w.lease_owner ≡ none)
    → (v : Workflow) × (lookup id (update test (requeued now) ws) ≡ some v)
      × (v.status ≡ queued)
      × (v.lease_owner ≡ none)
requeued_row now test id ws w e h =
    let row = lookup-update test (requeued now) (λ x. refl) id ws {w = w} e in
    elim (Bool-cases (test w)) [
      | inl k ↦ (requeued now w, row ∙ rw k refl, refl, refl)
      | inr k ↦ (w, row ∙ rw k refl, h.0, h.1)
    ]

stays_queued :
    (now : ℤ) (ts : List Timer) (d : Db) (id : String) (w : Workflow)
    → lookup id d.workflows ≡ some w
    → (w.status ≡ queued) × (w.lease_owner ≡ none)
    → (v : Workflow) × (lookup id (firing_all now ts d).workflows ≡ some v)
      × (v.status ≡ queued)
      × (v.lease_owner ≡ none)
stays_queued now [] d id w e h = (w, e, h.0, h.1)
stays_queued now (t ∷ ts) d id w e h =
    let (v, f, g, o) = requeued_row now (is_workflow t.workflow_id) id d.workflows w e h in
    stays_queued now ts (firing now t d) id v f (g, o)

waiting_row :
    (id : String) (ws : List Workflow)
    → is_waiting_for id ws ≡ true
    → (w : Workflow) × (lookup id ws ≡ some w) × (is_workflow id w ≡ true)
waiting_row id [] h = cc
waiting_row id (w ∷ ws) h = elim (Bool-cases (is_workflow id w)) [
  | inl k ↦ (w, rw (k, lookup) refl, k)
  | inr k ↦ let (v, e, g) = waiting_row id ws (ground arith) in (v, rw (k, lookup) e, g)
]

requeues :
    (now : ℤ) (ts : List Timer) (d : Db) (t : Timer) (w : Workflow)
    → Memᴰ t ts
    → lookup t.workflow_id d.workflows ≡ some w
    → is_workflow t.workflow_id w ≡ true
    → (v : Workflow) × (lookup t.workflow_id (firing_all now ts d).workflows ≡ some v)
      × (v.status ≡ queued)
      × (v.lease_owner ≡ none)
requeues now [] d t w m e k = elim m [ ]
requeues now (s ∷ ts) d t w (Memᴰ.head g) e k =
    let row =
      lookup-update (is_workflow s.workflow_id) (requeued now) (λ x. refl) t.workflow_id d.workflows
        {w = w} e in
    let mine : is_workflow s.workflow_id w ≡ true =
      subst (λ x. is_workflow x.workflow_id w ≡ true) g k in
    stays_queued now ts (firing now s d) t.workflow_id (requeued now w) (row ∙ rw mine refl)
      (refl, refl)
requeues now (s ∷ ts) d t w (Memᴰ.tail m) e k =
    let row =
      lookup-update (is_workflow s.workflow_id) (requeued now) (λ x. refl) t.workflow_id d.workflows
        {w = w} e in
    elim (Bool-cases (is_workflow s.workflow_id w)) [
      | inl h ↦ requeues now ts (firing now s d) t (requeued now w) m (row ∙ rw h refl) k
      | inr h ↦ requeues now ts (firing now s d) t w m (row ∙ rw h refl) k
    ]

-- `fireExpiredTimers` always succeeds when the driver refuses nothing. It returns the number of due
-- timers of WAITING workflows; afterwards the workflow of each of them is QUEUED with no owner, and
-- no timer is left that is due and whose workflow waits.
pub fire_expired_timers_result :
    (p : Platform) (now : ℤ) (d : Db)
    → (fire_expired_timers p now (quiet d) ≡ (
      ok (count (is_firing now d.workflows) d.workflow_timers),
      quiet (firing_all now (firing_timers p now d) d),
    ))
      × ((t : Timer)
          → Memᴰ t d.workflow_timers
          → is_firing now d.workflows t ≡ true
          → (v : Workflow) × (lookup t.workflow_id
                (firing_all now (firing_timers p now d) d).workflows
              ≡ some v)
            × (v.status ≡ queued)
            × (v.lease_owner ≡ none))
      × ((t : Timer)
          → Memᴰ t (firing_all now (firing_timers p now d) d).workflow_timers
          → is_firing now (firing_all now (firing_timers p now d) d).workflows t ≡ false)
unfolding firing_timers
fire_expired_timers_result p now d = (
  fire_expired_timers_lem p now d
      ∙ ap (λ n. (ok n, quiet (firing_all now (firing_timers p now d) d)))
          (length_perm (p.scan-perm Timer (select (is_firing now d.workflows) d.workflow_timers))
            ∙ length-select (is_firing now d.workflows) d.workflow_timers),
  λ t m h.
      let (w, e, k) = waiting_row t.workflow_id d.workflows (ground arith) in
      requeues now (firing_timers p now d) d t w (firing_timers_all p now d t h m) e k,
  λ t m.
      let after = firing_all now (firing_timers p now d) d in
      elim (Bool-cases (is_firing now after.workflows t)) [
        | inr h ↦ h
        | inl h ↦ elim (all_fired_or_old now (firing_timers p now d) d t m) [
          | inl fired ↦ absurd (ground arith)
          | inr old ↦
              let waits : is_waiting_for t.workflow_id after.workflows ≡ true = ground arith in
              let before = firing_all_waits now (firing_timers p now d) d t.workflow_id waits in
              absurd (
                firing_all_not now (firing_timers p now d) d t
                  (firing_timers_all p now d t (ground arith) old) waits)
        ]
      ],
)
