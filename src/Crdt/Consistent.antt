-- ===== src/Crdt/Consistent.antt =====
-- packages/crdt/src/crdt.ts: the states that a binding can reach.
use effect_state_tree.Base.{
  ℕ, ◌-◌, ◌==◌, ◌≡◌, ◌≢◌, ◌⊎◌, refl, sym, ap, subst, ◌∙◌, Bool, true, false, not, ◌||◌, Option,
  none, List, [], ◌∷◌, length, if◌then◌else◌, arith, inl, inr,
}
use effect_state_tree.Runtime.{Envelope, SourceToken}
use effect_state_tree.Crdt.{should_broadcast}
use effect_state_tree.Crdt.Binding.{
  CrdtWork, Health, starting, failed, shut, running, IdleSignal, waiting, settled, refused,
  Coordinator, resting, handling, sent, ended, Binding, initial_binding, refresh, settle_signal,
  refuse_signal, mark_settled, enqueue, observe, send, send_in, notify, take_work, take_in, finish,
  finish_in, fail_item, fail_in, interrupt, interrupt_in, stop_after_failure, shutdown, start,
  idle_answer, idle_in, is_idle,
}
use effect_state_tree.Crdt.Open.{
  IsOpen, IsLive, busy, start-IsOpen, observe-IsOpen, send-IsOpen, take-IsOpen, finish-IsOpen,
  fail-IsOpen, notify-IsOpen, if_false, if_true, or_true,
}

-- The states of a binding after any sequence of its steps, becoming ready included, which may come
-- after a failure has stopped the binding; `same` is the identity of commits.
pub data Reached (same : Envelope → Envelope → Bool) : Binding → Type 0 where
  begun : Reached same initial_binding
  started : {b : Binding} → Reached same b → Reached same (start b)
  observed :
      {b : Binding} (source : SourceToken) (commit : Envelope)
      → Reached same b
      → Reached same (observe same source commit b)
  notified : {b : Binding} (source : SourceToken) → Reached same b → Reached same (notify source b)
  taken : {b : Binding} → Reached same b → Reached same (take_work b)
  was_sent : {b : Binding} → Reached same b → Reached same (send same b)
  finished : {b : Binding} → Reached same b → Reached same (finish b)
  item_failed : {b : Binding} → Reached same b → Reached same (fail_item b)
  stopped : {b : Binding} → Reached same b → Reached same (stop_after_failure b)
  was_shut : {b : Binding} → Reached same b → Reached same (shutdown b)

-- A binding that fails while it becomes ready may be marked as running after it is stopped.
abbrev pub IsBegun : Health → Type 0
IsBegun starting = ⊥
IsBegun (running q p) = Unit {0}
IsBegun failed = Unit {0}
IsBegun shut = Unit {0}

pub record IsStopped (b : Binding) : Type 0 where
  pub stays : b.stopped ≡ true
  pub closed : b.is_closed ≡ true
  pub no_work : b.work ≡ []
  pub no_pending : b.pending ≡ []
  pub none_waits : b.idle ≢ waiting
  pub begins : IsBegun b.health
  pub at_end : b.coordinator ≡ ended none

-- Once a binding is stopped.
abbrev NotWaiting : IdleSignal → Type 0
NotWaiting s = s ≢ waiting

settle_NotWaiting : (s : IdleSignal) → NotWaiting (settle_signal s)
settle_NotWaiting waiting e = cc
settle_NotWaiting settled e = cc
settle_NotWaiting refused e = cc

refuse_NotWaiting : (s : IdleSignal) → NotWaiting (refuse_signal s)
refuse_NotWaiting waiting e = cc
refuse_NotWaiting settled e = cc
refuse_NotWaiting refused e = cc

refresh-IsBegun : (h : Health) (q : ℕ) (p : List Envelope) → IsBegun h → IsBegun (refresh h q p)
refresh-IsBegun starting q p o = elim o [ ]
refresh-IsBegun (running a b) q p o = tt
refresh-IsBegun failed q p o = tt
refresh-IsBegun shut q p o = tt

settled_quiet :
    (t : Bool) (s : IdleSignal) → NotWaiting s → NotWaiting (if t then settle_signal s else s)
settled_quiet true s h = settle_NotWaiting s
settled_quiet false s h = h

-- Stopping: the queue and the pending commits are gone, and the coordinator is interrupted.
halted : Health → IdleSignal → Binding → Binding
halted h signal b = record b {
  stopped = true;
  health = h;
  pending = [];
  idle = signal;
  work = [];
  is_closed = true;
}

interrupt-IsStopped :
    (b : Binding) (h : Health) (signal : IdleSignal) (c : Coordinator)
    → NotWaiting signal
    → IsBegun h
    → IsStopped (interrupt_in c (halted h signal b))
unfolding halted mark_settled
interrupt-IsStopped b h signal resting quiet over = record {
  stays = refl;
  closed = refl;
  no_work = refl;
  no_pending = refl;
  none_waits = quiet;
  begins = over;
  at_end = refl;
}
interrupt-IsStopped b h signal (ended item) quiet over = record {
  stays = refl;
  closed = refl;
  no_work = refl;
  no_pending = refl;
  none_waits = quiet;
  begins = over;
  at_end = refl;
}
interrupt-IsStopped b h signal (handling item) quiet over = record {
  stays = refl;
  closed = refl;
  no_work = refl;
  no_pending = refl;
  none_waits = settled_quiet (b.queued - 1 == 0) signal quiet;
  begins = refresh-IsBegun h (b.queued - 1) [] over;
  at_end = refl;
}
interrupt-IsStopped b h signal (sent c) quiet over = record {
  stays = refl;
  closed = refl;
  no_work = refl;
  no_pending = refl;
  none_waits = settled_quiet (b.queued - 1 == 0) signal quiet;
  begins = refresh-IsBegun h (b.queued - 1) [] over;
  at_end = refl;
}

-- An open binding: the count is that of the items in the queue and in hand; the pending commits are
-- exactly the one that the coordinator has not sent and those in the queue, in order; and `idle`
-- waits exactly while the count is not 0. Or a stopped one: nothing is queued, pending or waited for.
pub IsConsistent : Binding → Type 0
IsConsistent b = IsOpen b ⊎ IsStopped b

take_ended :
    (b : Binding) (c : Coordinator) (work : List CrdtWork) → c ≡ ended none → take_in c work b ≡ b
take_ended b c work e = rw e

finish_ended : (b : Binding) (c : Coordinator) → c ≡ ended none → finish_in c b ≡ b
finish_ended b c e = rw e

fail_ended : (b : Binding) (c : Coordinator) → c ≡ ended none → fail_in c b ≡ b
fail_ended b c e = rw e

stopped_lem :
    (b : Binding) (h : Health) (signal : IdleSignal)
    → NotWaiting signal
    → IsBegun h
    → IsConsistent b
    → IsConsistent (if b.stopped then b else interrupt (halted h signal b))
unfolding IsConsistent halted
stopped_lem b h signal quiet over (inl o) =
    subst IsConsistent (sym (if_false b (interrupt (halted h signal b)) b.stopped o.going))
      (inr (interrupt-IsStopped b h signal b.coordinator quiet over))
stopped_lem b h signal quiet over (inr s) =
    subst IsConsistent (sym (if_true b (interrupt (halted h signal b)) b.stopped s.stays)) (inr s)

notify_stopped : (b : Binding) (source : SourceToken) → b.stopped ≡ true → notify source b ≡ b
unfolding notify enqueue
notify_stopped b source e = ap (λ (r : Binding × Bool). r.0) (if_true _ _ b.stopped e)

idle_none : (h : Health) (n : ℕ) → IsLive h n → idle_in h n ≡ is_idle → n ≡ 0
idle_none starting n l e = ground arith
idle_none (running q p) n l e = ground arith
idle_none failed n l e = elim l [ ]
idle_none shut n l e = elim l [ ]

length_none : (work : List CrdtWork) → length work ≡ 0 → work ≡ []
length_none [] e = refl
length_none (item ∷ work) e = absurd (omega (arith, e))

busy_none :
    (c : Coordinator) → busy c ≡ 0 → ((item : Option CrdtWork) → c ≢ ended item) → c ≡ resting
busy_none resting e h = refl
busy_none (handling item) e h = absurd (omega (arith, e))
busy_none (sent c) e h = absurd (omega (arith, e))
busy_none (ended item) e h = absurd (h item refl)

start-IsStopped : (b : Binding) → IsStopped b → IsStopped (start b)
unfolding start
start-IsStopped b s = record {
  stays = s.stays;
  closed = s.closed;
  no_work = s.no_work;
  no_pending = s.no_pending;
  none_waits = s.none_waits;
  begins = tt;
  at_end = s.at_end;
}

module _ (same : Envelope → Envelope → Bool) (same_refl : (c : Envelope) → same c c ≡ true) where
  send_ended : (b : Binding) (c : Coordinator) → c ≡ ended none → send_in same c b ≡ b
  send_ended b c e = rw e

  observe_stopped :
      (b : Binding) (source : SourceToken) (commit : Envelope)
      → b.stopped ≡ true
      → observe same source commit b ≡ b
  unfolding observe
  observe_stopped b source commit e =
      if_true _ _ (not (should_broadcast commit source) || b.stopped)
        (or_true (not (should_broadcast commit source)) b.stopped e)

  -- Every state that a binding reaches is consistent: either it is not stopped, the count is that of
  -- the items in the queue and in hand, the pending commits are those not sent, in order, and `idle`
  -- waits exactly while the count is not 0; or it is stopped, and nothing is queued, pending or
  -- waited for, and the coordinator has ended.
  pub Reached-IsConsistent : {b : Binding} → Reached same b → IsConsistent b
  unfolding IsConsistent halted take_work send finish fail_item stop_after_failure shutdown
  Reached-IsConsistent begun = inl (record {
    going = refl;
    open_queue = refl;
    counted = refl;
    listed = refl;
    signalled = refl;
    live = tt;
  })
  Reached-IsConsistent (started {b} r) = elim (Reached-IsConsistent r) [
    | inl o ↦ inl (start-IsOpen b o)
    | inr s ↦ inr (start-IsStopped b s)
  ]
  Reached-IsConsistent (observed {b} source commit r) = elim (Reached-IsConsistent r) [
    | inl o ↦ inl (observe-IsOpen same same_refl b source commit o)
    | inr s ↦ subst IsConsistent (sym (observe_stopped b source commit s.stays)) (inr s)
  ]
  Reached-IsConsistent (notified {b} source r) = elim (Reached-IsConsistent r) [
    | inl o ↦ inl (notify-IsOpen b source o)
    | inr s ↦ subst IsConsistent (sym (notify_stopped b source s.stays)) (inr s)
  ]
  Reached-IsConsistent (taken {b} r) = elim (Reached-IsConsistent r) [
    | inl o ↦ inl (take-IsOpen b b.coordinator b.work refl refl o)
    | inr s ↦ subst IsConsistent (sym (take_ended b b.coordinator b.work s.at_end)) (inr s)
  ]
  Reached-IsConsistent (was_sent {b} r) = elim (Reached-IsConsistent r) [
    | inl o ↦ inl (send-IsOpen same same_refl b b.coordinator refl o)
    | inr s ↦ subst IsConsistent (sym (send_ended b b.coordinator s.at_end)) (inr s)
  ]
  Reached-IsConsistent (finished {b} r) = elim (Reached-IsConsistent r) [
    | inl o ↦ inl (finish-IsOpen b b.coordinator refl o)
    | inr s ↦ subst IsConsistent (sym (finish_ended b b.coordinator s.at_end)) (inr s)
  ]
  Reached-IsConsistent (item_failed {b} r) = elim (Reached-IsConsistent r) [
    | inl o ↦ inl (fail-IsOpen b b.coordinator refl o)
    | inr s ↦ subst IsConsistent (sym (fail_ended b b.coordinator s.at_end)) (inr s)
  ]
  Reached-IsConsistent (stopped {b} r) =
      stopped_lem b failed (refuse_signal b.idle) (refuse_NotWaiting b.idle) tt
        (Reached-IsConsistent r)
  Reached-IsConsistent (was_shut {b} r) =
      stopped_lem b shut (settle_signal b.idle) (settle_NotWaiting b.idle) tt
        (Reached-IsConsistent r)

  -- In a reached state, where `idle` succeeds at once, the binding has not been stopped and its
  -- coordinator has not failed, nothing is in the queue or in hand, and no local commit is pending.
  pub Reached-idle_answer :
      {b : Binding}
      → Reached same b
      → idle_answer b ≡ is_idle
      → b.stopped ≡ false
      → ((item : Option CrdtWork) → b.coordinator ≢ ended item)
      → (b.work ≡ []) × (b.coordinator ≡ resting) × (b.pending ≡ [])
  unfolding IsConsistent idle_answer
  Reached-idle_answer {b} r idle going alive = elim (Reached-IsConsistent r) [
    | inl o ↦
        let none_left : b.queued ≡ 0 = idle_none b.health b.queued o.live idle in
        let empty : length b.work ≡ 0 = omega (arith, o.counted) in
        let no_work : b.work ≡ [] = length_none b.work empty in
        let rests : b.coordinator ≡ resting =
          busy_none b.coordinator (omega (arith, o.counted)) alive in
        (no_work, rests, o.listed ∙ rw (no_work, rests))
    | inr s ↦ absurd (cc (going, s.stays))
  ]
