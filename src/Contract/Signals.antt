-- ===== src/Contract/Signals.antt =====
-- Signals (signal.go): first come, first served, and once.
use mathlib.Core.List.{Memᴰ}
use sqlite_durable_workflow.Common.{
  String, suc, ℤ, ◌≤ℤ◌, true, false, List, [], ◌∷◌, ◌++◌, none, some, ◌≡◌, refl, subst, arith, ◌⊎◌,
  inl, inr, Option-cases, eq_refl,
}
use sqlite_durable_workflow.Types.{Signal, Value}
use sqlite_durable_workflow.Store.Db.{Db, has_workflow}
use sqlite_durable_workflow.Store.Session.{ok, quiet}
use sqlite_durable_workflow.Store.Platform.{Platform}
use sqlite_durable_workflow.Store.Rows.{chosen-none, chosen_mem, chosen_least}
use sqlite_durable_workflow.Step.{json_string}
use sqlite_durable_workflow.Signal.{
  signal_row, send_signal, consume_signal, next_signal, is_pending, taken,
}
use sqlite_durable_workflow.Effect.Signals.{
  sending, taking, send_signal_lem, consume_signal-none, consume_signal-some,
}

abbrev Pending : String → Db → Signal → Type 0
Pending id d s = (is_pending id s ≡ true) × Memᴰ s d.workflow_signals

next_signal-none :
    (p : Platform) (id : String) (d : Db)
    → next_signal p id d ≡ none
    → (s : Signal) → Memᴰ s d.workflow_signals
    → is_pending id s ≡ false
unfolding next_signal
next_signal-none p id d e s m =
    chosen-none p (λ x. x.created_at) (is_pending id) d.workflow_signals e s m

pub next_signal_mem :
    (p : Platform) (id : String) (d : Db) (s : Signal)
    → next_signal p id d ≡ some s
    → Pending id d s
unfolding next_signal
next_signal_mem p id d s e = chosen_mem p (λ x. x.created_at) (is_pending id) d.workflow_signals s e

next_signal_least :
    (p : Platform) (id : String) (d : Db) (s r : Signal)
    → next_signal p id d ≡ some s
    → Pending id d r
    → s.created_at ≤ℤ r.created_at
unfolding next_signal
next_signal_least p id d s r e (h, m) =
    chosen_least p (λ x. x.created_at) (is_pending id) d.workflow_signals s r e h m

-- ConsumeSignal returns nil and writes nothing, and then no signal of the workflow is pending; or
-- it returns a pending signal of the workflow that no other one precedes in `created_at`, with its
-- `consumed` set, and sets it in the table.
pub consume_signal_result :
    (p : Platform) (id : String) (d : Db)
    → ((consume_signal p id (quiet d) ≡ (ok none, quiet d))
        × ((r : Signal) → Memᴰ r d.workflow_signals → is_pending id r ≡ false))
      ⊎ ((s : Signal) × (is_pending id s ≡ true)
          × Memᴰ s d.workflow_signals
          × ((r : Signal)
              → is_pending id r ≡ true
              → Memᴰ r d.workflow_signals
              → s.created_at ≤ℤ r.created_at)
          × (consume_signal p id (quiet d) ≡ (ok (some (taken s)), quiet (taking s.signal_id d))))
consume_signal_result p id d = elim (Option-cases (next_signal p id d)) [
  | inl e ↦ inl (consume_signal-none p id d e, next_signal-none p id d e)
  | inr (s, e) ↦
      let (h, m) = next_signal_mem p id d s e in
      inr (s, h, m, λ r g k. next_signal_least p id d s r e (g, k), consume_signal-some p id d s e)
]

last_mem : {A : Type 0} (xs : List A) (a b : A) → Memᴰ b (xs ++ a ∷ []) → Memᴰ b xs ⊎ (b ≡ a)
last_mem [] a b (Memᴰ.head e) = inr e
last_mem [] a b (Memᴰ.tail m) = elim m [ ]
last_mem (x ∷ xs) a b (Memᴰ.head e) = inl (Memᴰ.head e)
last_mem (x ∷ xs) a b (Memᴰ.tail m) = elim (last_mem xs a b m) [
  | inl h ↦ inl (Memᴰ.tail h)
  | inr h ↦ inr h
]

mem_last : {A : Type 0} (xs : List A) (a : A) → Memᴰ a (xs ++ a ∷ [])
mem_last [] a = Memᴰ.head refl
mem_last (x ∷ xs) a = Memᴰ.tail (mem_last xs a)

-- A signal sent to a workflow of the table that has no pending one is the signal that
-- ConsumeSignal then returns, with the payload that was sent.
pub send-consume_signal :
    (p : Platform) (now : ℤ) (id signal_type : String) (payload : Value) (d : Db)
    → has_workflow id d.workflows ≡ true
    → ((r : Signal) → Memᴰ r d.workflow_signals → is_pending id r ≡ false)
    → (send_signal p now id signal_type payload (quiet d) ≡ (
      ok (signal_row (suc d.last_signal_id) id signal_type (json_string p payload) now),
      quiet (sending p now id signal_type payload d),
    ))
      × (consume_signal p id (quiet (sending p now id signal_type payload d)) ≡ (
        ok (
            some (
              taken
                (signal_row (suc d.last_signal_id) id signal_type (json_string p payload) now))),
        quiet (taking (suc d.last_signal_id) (sending p now id signal_type payload d)),
      ))
send-consume_signal p now id signal_type payload d h empty =
    let sent = signal_row (suc d.last_signal_id) id signal_type (json_string p payload) now in
    let after = sending p now id signal_type payload d in
    let waits : is_pending id sent ≡ true = rw (eq_refl id) refl in
    (
      send_signal_lem p now id signal_type payload d h,
      elim (Option-cases (next_signal p id after)) [
        | inl e ↦ absurd (
            let gone = next_signal-none p id after e sent (mem_last d.workflow_signals sent) in
            ground arith)
        | inr (s, e) ↦
            let (pending, there) = next_signal_mem p id after s e in
            elim (last_mem d.workflow_signals sent s there) [
              | inl old ↦ absurd (let gone = empty s old in ground arith)
              | inr same ↦
                  subst
                    (λ x.
                      consume_signal p id (quiet after)
                      ≡ (ok (some (taken x)), quiet (taking x.signal_id after)))
                    same (consume_signal-some p id after s e)
            ]
      ],
    )
