-- ===== src/Crdt/Binding.antt =====
-- packages/crdt/src/crdt.ts: the queue, the pending commits and the lifecycle of `bindCrdt`. The
-- content of a failure is left out, and so is the metadata of a notification.
use effect_state_tree.Base.{
  ℕ, ◌+◌, ◌-◌, ◌==◌, Bool, true, false, not, ◌||◌, Option, none, some, List, [], ◌∷◌, ◌++◌, length,
  if◌then◌else◌,
}
use effect_state_tree.Runtime.{Envelope, SourceToken}
use effect_state_tree.Crdt.{should_broadcast}

pub data CrdtWork : Type 0 where
  inbound : SourceToken → CrdtWork
  outbound : Envelope → CrdtWork

pub data Health : Type 0 where
  starting failed shut : Health
  running : (queued pending_local : ℕ) → Health

-- `idleSignal`
pub data IdleSignal : Type 0 where
  waiting settled refused : IdleSignal

-- Where the coordinator's fiber is: it waits for work, handles an item, has sent an item's commit to
-- the adapter, or has ended with a failure while it handled an item (or after it sent it).
pub data Coordinator : Type 0 where
  resting : Coordinator
  handling : CrdtWork → Coordinator
  sent : Envelope → Coordinator
  ended : Option CrdtWork → Coordinator

pub record Binding : Type 0 where
  pub work : List CrdtWork
  pub is_closed : Bool
  pub pending : List Envelope
  pub health : Health
  pub queued : ℕ
  pub stopped : Bool
  pub idle : IdleSignal
  pub coordinator : Coordinator

abbrev pub initial_binding : Binding
initial_binding = record {
  work = [];
  is_closed = false;
  pending = [];
  health = starting;
  queued = 0;
  stopped = false;
  idle = settled;
  coordinator = resting;
}

abbrev pub refresh : Health → ℕ → List Envelope → Health
refresh (running q p) queued pending = running queued (length pending)
refresh h queued pending = h

-- `Deferred.doneUnsafe(idleSignal, Effect.void)`: only the first completion counts.
abbrev pub settle_signal : IdleSignal → IdleSignal
settle_signal waiting = settled
settle_signal s = s

abbrev pub refuse_signal : IdleSignal → IdleSignal
refuse_signal waiting = refused
refuse_signal s = s

unfoldable pub mark_queued : Binding → Binding
mark_queued b = record b {
  idle = if b.queued == 0 then waiting else b.idle;
  queued = b.queued + 1;
  health = refresh b.health (b.queued + 1) b.pending;
}

unfoldable pub mark_settled : Binding → Binding
mark_settled b = record b {
  queued = b.queued - 1;
  idle = if b.queued - 1 == 0 then settle_signal b.idle else b.idle;
  health = refresh b.health (b.queued - 1) b.pending;
}

-- `Queue.offerUnsafe`, which a queue that is shut down refuses.
abbrev pub offer : CrdtWork → Binding → Binding × Bool
offer item b = if b.is_closed then (b, false) else (record b { work = b.work ++ item ∷ [] }, true)

abbrev pub offered : Binding × Bool → Binding × Bool
offered (b, true) = (b, true)
offered (b, false) = (mark_settled b, false)

unfoldable pub enqueue : CrdtWork → Binding → Binding × Bool
unfolding mark_queued mark_settled
enqueue item b = if b.stopped then (b, false) else offered (offer item (mark_queued b))

-- `same` is the identity of commits, `===`.
module _ (same : Envelope → Envelope → Bool) where
  unfoldable pub remove_pending : List Envelope → Envelope → List Envelope
  remove_pending [] commit = []
  remove_pending (c ∷ pending) commit =
      let rest = remove_pending pending commit in if same c commit then pending else c ∷ rest

  abbrev pub accepted : Envelope → Binding × Bool → Binding
  accepted commit (b, true) = b
  accepted commit (b, false) = record b { pending = remove_pending b.pending commit }

  -- The listener of the store.
  unfoldable pub observe : SourceToken → Envelope → Binding → Binding
  unfolding enqueue remove_pending should_broadcast
  observe source commit b =
      if not (should_broadcast commit source) || b.stopped
      then b
      else accepted commit
          (enqueue (outbound commit) (record b { pending = b.pending ++ commit ∷ [] }))

  -- The coordinator's commit has reached the adapter.
  abbrev pub send_in : Coordinator → Binding → Binding
  send_in (handling (outbound c)) b = record b {
    coordinator = sent c;
    pending = remove_pending b.pending c;
  }
  send_in other b = b

  unfoldable pub send : Binding → Binding
  unfolding remove_pending
  send b = send_in b.coordinator b

-- The adapter's notification.
unfoldable pub notify : SourceToken → Binding → Binding
unfolding enqueue
notify source b = (enqueue (inbound source) b).0

-- `Queue.take`, where the coordinator waits and there is work.
abbrev pub take_in : Coordinator → List CrdtWork → Binding → Binding
take_in resting (item ∷ rest) b = record b { work = rest; coordinator = handling item }
take_in coordinator work b = b

unfoldable pub take_work : Binding → Binding
take_work b = take_in b.coordinator b.work b

-- The item's handling ends, and `Effect.ensuring(markSettled)` runs.
abbrev pub finish_in : Coordinator → Binding → Binding
finish_in (handling (inbound s)) b = record (mark_settled b) { coordinator = resting }
finish_in (sent c) b = record (mark_settled b) { coordinator = resting }
finish_in other b = b

unfoldable pub finish : Binding → Binding
unfolding mark_settled
finish b = finish_in b.coordinator b

-- The same, where the handling fails: the fiber ends.
abbrev pub fail_in : Coordinator → Binding → Binding
fail_in (handling item) b = record (mark_settled b) { coordinator = ended (some item) }
fail_in (sent c) b = record (mark_settled b) { coordinator = ended none }
fail_in other b = b

unfoldable pub fail_item : Binding → Binding
unfolding mark_settled
fail_item b = fail_in b.coordinator b

-- `Fiber.interrupt(coordinator)`
abbrev pub interrupt_in : Coordinator → Binding → Binding
interrupt_in (handling item) b = record (mark_settled b) { coordinator = ended none }
interrupt_in (sent c) b = record (mark_settled b) { coordinator = ended none }
interrupt_in other b = record b { coordinator = ended none }

abbrev pub interrupt : Binding → Binding
interrupt b = interrupt_in b.coordinator b

-- `stopAfterFailure`, once the failure is signalled.
unfoldable pub stop_after_failure : Binding → Binding
unfolding mark_settled
stop_after_failure b =
    if b.stopped
    then b
    else interrupt (record b {
      stopped = true;
      health = failed;
      pending = [];
      idle = refuse_signal b.idle;
      work = [];
      is_closed = true;
    })

unfoldable pub shutdown : Binding → Binding
unfolding mark_settled
shutdown b =
    if b.stopped
    then b
    else interrupt (record b {
      stopped = true;
      health = shut;
      pending = [];
      idle = settle_signal b.idle;
      work = [];
      is_closed = true;
    })

-- The binding is ready.
unfoldable pub start : Binding → Binding
start b = record b { health = running b.queued (length b.pending) }

-- What `idle` gives at once: a failure, nothing, or the signal to wait for.
pub data IdleAnswer : Type 0 where
  is_idle has_failed must_wait : IdleAnswer

abbrev pub idle_in : Health → ℕ → IdleAnswer
idle_in failed queued = has_failed
idle_in shut queued = is_idle
idle_in starting queued = if queued == 0 then is_idle else must_wait
idle_in (running q p) queued = if queued == 0 then is_idle else must_wait

unfoldable pub idle_answer : Binding → IdleAnswer
idle_answer b = idle_in b.health b.queued
