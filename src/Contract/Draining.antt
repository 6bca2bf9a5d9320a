-- ===== src/Contract/Draining.antt =====
-- workflow.go: AcquireLease called again and again, as a worker's loop does, until it returns nil.
use mathlib.Core.List.{Memᴰ}
use sqlite_durable_workflow.Common.{
  String, ℕ, zero, suc, ◌≤◌, ℤ, ◌<ℤ◌, Bool, true, false, List, [], ◌∷◌, none, some, ◌≡◌, refl, sym,
  ap, ◌∙◌, subst, arith, inl, inr, Bool-cases, Option-cases, update, count, eq_of_test, eq_refl,
}
use sqlite_durable_workflow.Types.{Workflow}
use sqlite_durable_workflow.Store.Db.{Db, is_workflow, has_workflow}
use sqlite_durable_workflow.Store.Session.{Session, ok, quiet}
use sqlite_durable_workflow.Store.Platform.{Platform}
use sqlite_durable_workflow.Store.Lookup.{Unique, Unique-update, mem_has}
use sqlite_durable_workflow.Workflow.{acquire_lease, next_eligible, grant, is_eligible, lease_end}
use sqlite_durable_workflow.Effect.Leases.{
  granting, acquire_lease-none, acquire_lease-some, next_eligible_mem, next_eligible-none,
}

-- Calls in a row return a workflow so many times, and then nil.
abbrev pub Drains : Platform → ℤ → String → ℤ → ℕ → Session → Type 0
Drains p now worker duration zero s = acquire_lease p now worker duration s ≡ (ok none, s)
Drains p now worker duration (suc n) s =
    ((w : Workflow) × ((acquire_lease p now worker duration s).0 ≡ ok (some w)))
    × Drains p now worker duration n (acquire_lease p now worker duration s).1

module _ (q : Workflow → Bool) (f : Workflow → Workflow) where
  count-update_none :
      (id : String) (ws : List Workflow)
      → has_workflow id ws ≡ false
      → count q (update (is_workflow id) f ws) ≡ count q ws
  count-update_none id [] h = refl
  count-update_none id (w ∷ ws) h = ground (arith, count-update_none id ws)

  -- An UPDATE of one row that the count no longer has.
  count-update_one :
      (w : Workflow) (ws : List Workflow)
      → Unique ws
      → Memᴰ w ws
      → q w ≡ true
      → q (f w) ≡ false
      → count q ws ≡ suc (count q (update (is_workflow w.workflow_id) f ws))
  count-update_one w [] u m h k = elim m [ ]
  count-update_one w (v ∷ ws) u (Memᴰ.head e) h k =
      subst (λ x. count q (v ∷ ws) ≡ suc (count q (update (is_workflow x.workflow_id) f (v ∷ ws))))
        (sym e)
        (let counted : q v ≡ true = sym (ap q e) ∙ h in
          let dropped : q (f v) ≡ false = sym (ap (λ x. q (f x)) e) ∙ k in
          ground (arith, eq_refl v.workflow_id, count-update_none v.workflow_id ws u.0))
  count-update_one w (v ∷ ws) u (Memᴰ.tail m) h k =
      let rest = count-update_one w ws u.1 m h k in
      let there = mem_has w ws m in
      elim (Bool-cases (is_workflow w.workflow_id v)) [
        | inl e ↦
            let again : has_workflow v.workflow_id ws ≡ true =
              subst (λ i. has_workflow i ws ≡ true) (sym (eq_of_test v.workflow_id w.workflow_id e))
                there in
            absurd (ground arith)
        | inr e ↦ ground arith
      ]

none_counted :
    (q : Workflow → Bool) (ws : List Workflow)
    → ((w : Workflow) → Memᴰ w ws → q w ≡ false)
    → count q ws ≡ 0
none_counted q [] h = refl
none_counted q (w ∷ ws) h =
    ground (arith, h w (Memᴰ.head refl), none_counted q ws (λ v m. h v (Memᴰ.tail m)))

one_counted :
    (q : Workflow → Bool) (w : Workflow) (ws : List Workflow)
    → Memᴰ w ws
    → q w ≡ true
    → 1 ≤ count q ws
one_counted q w [] m h = elim m [ ]
one_counted q w (v ∷ ws) (Memᴰ.head e) h =
    let counted : q v ≡ true = sym (ap q e) ∙ h in ground arith
one_counted q w (v ∷ ws) (Memᴰ.tail m) h = ground (arith, one_counted q w ws m h)

module _ (p : Platform) (now : ℤ) (worker : String) (duration : ℤ) where
  drains :
      (n : ℕ) (d : Db)
      → Unique d.workflows
      → now <ℤ lease_end p now duration
      → count (is_eligible now d.workflow_timers) d.workflows ≡ n
      → Drains p now worker duration n (quiet d)
  drains zero d u later e = elim (Option-cases (next_eligible p now d)) [
    | inl none_left ↦ acquire_lease-none p now worker duration d none_left
    | inr (w, found) ↦
        let (h, m) = next_eligible_mem p now worker duration d w found in
        absurd (ground (arith, one_counted (is_eligible now d.workflow_timers) w d.workflows m h))
  ]
  drains (suc n) d u later e = elim (Option-cases (next_eligible p now d)) [
    | inl none_left ↦
        let none =
          none_counted (is_eligible now d.workflow_timers) d.workflows
            (next_eligible-none p now worker duration d none_left) in
        absurd (ground arith)
    | inr (w, found) ↦
        let (h, m) = next_eligible_mem p now worker duration d w found in
        let call = acquire_lease-some p now worker duration d w u found in
        let one =
          count-update_one (is_eligible now d.workflow_timers)
            (grant worker (lease_end p now duration) now) w d.workflows u m h (ground arith) in
        (
          (_, ap (λ t. t.0) call),
          subst (λ t. Drains p now worker duration n t.1) (sym call)
              (drains n (granting w.workflow_id worker (lease_end p now duration) now d)
                (Unique-update (is_workflow w.workflow_id)
                  (grant worker (lease_end p now duration) now) (λ x. refl) d.workflows u)
                later (ground arith)),
        )
  ]

-- On a table without double keys, when the driver refuses nothing and a lease ends after the time
-- at which it is taken: AcquireLease called at that time returns a workflow exactly as many times as
-- there are eligible workflows, each call taking one, and nil from then on, so that a worker's loop
-- up to nil ends.
pub acquire_lease-Drains :
    (p : Platform) (now : ℤ) (worker : String) (duration : ℤ) (d : Db)
    → Unique d.workflows
    → now <ℤ lease_end p now duration
    → Drains p now worker duration (count (is_eligible now d.workflow_timers) d.workflows) (quiet d)
acquire_lease-Drains p now worker duration d u later = drains p now worker duration _ d u later refl
