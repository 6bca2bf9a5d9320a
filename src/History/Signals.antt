-- ===== src/History/Signals.antt =====
-- A signal is delivered once, whatever happens in between.
use mathlib.Core.List.{Memᴰ}
use sqlite_durable_workflow.Common.{
  String, ℕ, ◌≤◌, ℤ, true, false, not, ◌&&◌, List, [], ◌∷◌, none, some, ◌≡◌, ◌≢◌, sym, ap, ◌∙◌,
  subst, arith, inl, inr, update, Option-cases,
}
use sqlite_durable_workflow.Types.{Signal, Timer}
use sqlite_durable_workflow.Store.Db.{Db}
use sqlite_durable_workflow.Store.Session.{Session, ok}
use sqlite_durable_workflow.Store.Atomic.{Faulted}
use sqlite_durable_workflow.Store.Platform.{Platform}
use sqlite_durable_workflow.Signal.{consume_signal, next_signal, is_signal, taken}
use sqlite_durable_workflow.Timer.{firing_timers}
use sqlite_durable_workflow.Effect.Signals.{taking, consume_signal-none, consume_signal-some}
use sqlite_durable_workflow.Effect.Timers.{firing, firing_all}
use sqlite_durable_workflow.Section.{Section, history}
use sqlite_durable_workflow.Section.Atomicity.Steps.{AllOrNothing-consume_signal}
use sqlite_durable_workflow.Change.{
  Change, stays, creates, acquires, renews, releases, pauses, finishes, starts, completes, fails,
  sends, takes, times, fires, expires,
}
use sqlite_durable_workflow.Invariant.{All, IsWellFormed}
use sqlite_durable_workflow.Invariant.Rows.{All-mem, All-append, All-update}
use sqlite_durable_workflow.Invariant.Keys.{IsKeyed}
use sqlite_durable_workflow.Invariant.Keys.Tables.{ids-bounded}
use sqlite_durable_workflow.History.Checkpoints.{history_consumed}
use sqlite_durable_workflow.Contract.Signals.{next_signal_mem}
use sqlite_durable_workflow.History.{history_keeps, history_closed}

-- Every row of the signal is consumed, and the counter is past it.
abbrev Spent : ℕ → Db → Type 0
Spent k d =
    (k ≤ d.last_signal_id) × All (λ r. (is_signal k r && not r.consumed) ≡ false) d.workflow_signals

taken-Spent :
    (k : ℕ) (ss : List Signal)
    → All (λ r. (is_signal k r && not r.consumed) ≡ false) (update (is_signal k) taken ss)
taken-Spent k [] = tt
taken-Spent k (s ∷ ss) = (ground arith, taken-Spent k ss)

fires-Spent :
    (k : ℕ) (now : ℤ) (ts : List Timer) (d : Db) → Spent k d → Spent k (firing_all now ts d)
fires-Spent k now [] d h = h
fires-Spent k now (t ∷ ts) d h = fires-Spent k now ts (firing now t d) h

Change-Spent :
    {p : Platform} {d f : Db} {c : Section} (k : ℕ) → Change p d c f → Spent k d → Spent k f
Change-Spent k stays h = h
Change-Spent k (creates now id ty g) h = h
Change-Spent k (acquires now worker duration w g m) h = h
Change-Spent k (renews now id worker duration) h = h
Change-Spent k (releases now id worker) h = h
Change-Spent k (pauses now id worker) h = h
Change-Spent k (finishes c status event_type now id worker ending g) h = h
Change-Spent k (starts now id n input g) h = h
Change-Spent k (completes now id worker n input output w e g l) h = h
Change-Spent k (fails now id n input message g) h = h
Change-Spent {d} k (sends now id signal_type payload g) h =
    (omega (arith, h.0), All-append _ d.workflow_signals _ h.1 (let below = h.0 in ground arith))
Change-Spent {d} k (takes id s g m) h =
    (h.0, All-update _ (is_signal s.signal_id) taken (λ r x _. ground arith) d.workflow_signals h.1)
Change-Spent k (times id wake_at g) h = h
Change-Spent {p} {d} k (fires now) h = fires-Spent k now (firing_timers p now d) d h
Change-Spent k (expires now) h = h

-- What a ConsumeSignal that returned a signal has done, whatever the driver refused.
consumed_signal :
    (p : Platform) (id : String) (s : Session) (sig : Signal)
    → s.saved ≡ none
    → (consume_signal p id s).0 ≡ ok (some sig)
    → (a : Signal) × (next_signal p id s.db ≡ some a)
      × (sig ≡ taken a)
      × ((consume_signal p id s).1.db ≡ taking a.signal_id s.db)
      × ((consume_signal p id s).1.saved ≡ none)
consumed_signal p id s sig e h =
    let (closed, ends) = (AllOrNothing-consume_signal p id).at s e in
    elim ends [
      | inr (fault, _) ↦ elim (subst Faulted h fault) [ ]
      | inl (same, same_db, left) ↦ elim (Option-cases (next_signal p id s.db)) [
        | inl k ↦
            let call = consume_signal-none p id s.db k in
            let given : ok (some sig) ≡ ok none = sym h ∙ same ∙ ap (λ t. t.0) call in
            absurd (ground arith)
        | inr (a, k) ↦
            let call = consume_signal-some p id s.db a k in
            let given : ok (some sig) ≡ ok (some (taken a)) = sym h ∙ same ∙ ap (λ t. t.0) call in
            (a, k, ground arith, same_db ∙ ap (λ t. t.1.db) call, closed)
      ]
    ]

taken_mem :
    (s : Signal) (ss : List Signal)
    → Memᴰ s ss
    → Memᴰ (taken s) (update (is_signal s.signal_id) taken ss)
taken_mem s [] m = elim m [ ]
taken_mem s (r ∷ ss) (Memᴰ.head e) = Memᴰ.head (
    let same : is_signal s.signal_id r ≡ true = ground (arith, ap (λ x. x.signal_id) e) in
    rw same (ap taken e))
taken_mem s (r ∷ ss) (Memᴰ.tail m) = Memᴰ.tail (taken_mem s ss m)

-- After that call the signal is spent, and its row is in the table.
consumed-Spent :
    (p : Platform) (id : String) (s : Session) (a : Signal)
    → IsKeyed s.db
    → next_signal p id s.db ≡ some a
    → (consume_signal p id s).1.db ≡ taking a.signal_id s.db
    → Spent a.signal_id (consume_signal p id s).1.db
      × Memᴰ (taken a) (consume_signal p id s).1.db.workflow_signals
consumed-Spent p id s a keyed found left =
    let (pending, there) = next_signal_mem p id s.db a found in
    let ss = s.db.workflow_signals in
    (
      subst (Spent a.signal_id) (sym left) (
        ids-bounded (λ x. x.signal_id) ss s.db.last_signal_id keyed.signal_ids there,
        taken-Spent a.signal_id ss,
      ),
      subst (λ d. Memᴰ (taken a) d.workflow_signals) (sym left) (taken_mem a ss there),
    )

-- ConsumeSignal returns no signal that is spent.
fresh_signal :
    (p : Platform) (id : String) (s : Session) (k : ℕ) (r : Signal)
    → s.saved ≡ none
    → Spent k s.db
    → (consume_signal p id s).0 ≡ ok (some r)
    → r.signal_id ≢ k
fresh_signal p id s k r e spent h same =
    let (b, found, is_taken, left, closed) = consumed_signal p id s r e h in
    let (pending, there) = next_signal_mem p id s.db b found in
    let unspent = All-mem _ _ spent.1 there in
    let key : b.signal_id ≡ k = sym (ap (λ x. x.signal_id) is_taken) ∙ same in absurd (ground arith)

-- On well-formed tables with their keys in order, whatever the driver refuses at any time: the
-- signal that ConsumeSignal returned stays in the table, consumed, through every history of
-- sections, and no later ConsumeSignal, of whichever workflow, returns it again.
pub history_signal_once :
    (p : Platform) (cs : List Section) (s : Session) (id other : String) (sig r : Signal)
    → s.saved ≡ none
    → IsWellFormed s.db
    → IsKeyed s.db
    → (consume_signal p id s).0 ≡ ok (some sig)
    → (consume_signal p other (history p cs (consume_signal p id s).1)).0 ≡ ok (some r)
    → (sig.consumed ≡ true)
      × Memᴰ sig (history p cs (consume_signal p id s).1).db.workflow_signals
      × (r.signal_id ≢ sig.signal_id)
history_signal_once p cs s id other sig r e wf keyed h g =
    let (a, found, is_taken, left, closed) = consumed_signal p id s sig e h in
    let (spent, row) = consumed-Spent p id s a keyed found left in
    let after = (consume_signal p id s).1 in
    let wf' : IsWellFormed after.db = subst IsWellFormed (sym left) wf in
    let consumed : sig.consumed ≡ true = ap (λ x. x.consumed) is_taken in
    let at_end : Spent a.signal_id (history p cs after).db =
      history_keeps (Spent a.signal_id) p (λ c d f change wf'' x. Change-Spent a.signal_id change x)
        cs after closed wf' spent in
    (
      consumed,
      history_consumed p cs after sig closed wf'
          (subst (λ x. Memᴰ x after.db.workflow_signals) (sym is_taken) row) consumed,
      λ same.
          fresh_signal p other (history p cs after) a.signal_id r (history_closed p cs after closed)
            at_end g (same ∙ ap (λ x. x.signal_id) is_taken),
    )
