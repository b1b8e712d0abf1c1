-- ===== src/Crdt/Open.antt =====
-- packages/crdt/src/crdt.ts: what holds of a binding until it is stopped.
use effect_state_tree.Base.{
  ℕ, zero, suc, ◌+◌, ◌-◌, ◌==◌, ◌≡◌, refl, sym, ap, subst, ◌∙◌, Bool, true, false, not, ◌||◌, none,
  some, List, [], ◌∷◌, ◌++◌, length, if◌then◌else◌, arith, inl, inr, Bool-cases, append_assoc,
  append-nil, length-append,
}
use effect_state_tree.Runtime.{Envelope, SourceToken}
use effect_state_tree.Crdt.{should_broadcast}
use effect_state_tree.Crdt.Binding.{
  CrdtWork, inbound, outbound, Health, starting, failed, shut, running, IdleSignal, waiting,
  settled, Coordinator, resting, handling, sent, ended, Binding, refresh, settle_signal,
  mark_queued, mark_settled, enqueue, offered, remove_pending, observe, send_in, notify, take_in,
  finish_in, fail_in, start,
}

-- How many items the coordinator has in hand, and the commit that it has not sent.
abbrev pub busy : Coordinator → ℕ
busy (handling item) = 1
busy (sent c) = 1
busy resting = 0
busy (ended item) = 0

abbrev pub unsent : Coordinator → List Envelope
unsent (handling (outbound c)) = c ∷ []
unsent (ended (some (outbound c))) = c ∷ []
unsent c = []

abbrev pub outbounds : List CrdtWork → List Envelope
outbounds [] = []
outbounds (inbound s ∷ work) = outbounds work
outbounds (outbound c ∷ work) = c ∷ outbounds work

abbrev pub IsLive : Health → ℕ → Type 0
IsLive starting queued = Unit {0}
IsLive (running q p) queued = q ≡ queued
IsLive failed queued = ⊥
IsLive shut queued = ⊥

abbrev pub signal_of : ℕ → IdleSignal
signal_of zero = settled
signal_of (suc n) = waiting

pub record IsOpen (b : Binding) : Type 0 where
  pub going : b.stopped ≡ false
  pub open_queue : b.is_closed ≡ false
  pub counted : b.queued ≡ length b.work + busy b.coordinator
  pub listed : b.pending ≡ unsent b.coordinator ++ outbounds b.work
  pub signalled : b.idle ≡ signal_of b.queued
  pub live : IsLive b.health b.queued

outbounds-append : (xs ys : List CrdtWork) → outbounds (xs ++ ys) ≡ outbounds xs ++ outbounds ys
outbounds-append [] ys = refl
outbounds-append (inbound s ∷ xs) ys = outbounds-append xs ys
outbounds-append (outbound c ∷ xs) ys = ap (c ∷◌) (outbounds-append xs ys)

refresh-IsLive : (h : Health) (q r : ℕ) (p : List Envelope) → IsLive h q → IsLive (refresh h r p) r
refresh-IsLive starting q r p l = tt
refresh-IsLive (running a b) q r p l = refl
refresh-IsLive failed q r p l = elim l [ ]
refresh-IsLive shut q r p l = elim l [ ]

queued_signal :
    (n : ℕ) (s : IdleSignal) → s ≡ signal_of n → (if n == 0 then waiting else s) ≡ signal_of (n + 1)
queued_signal zero s e = refl
queued_signal (suc n) s e = ground (arith, e)

settled_signal :
    (n : ℕ) (s : IdleSignal)
    → s ≡ signal_of n
    → (if n - 1 == 0 then settle_signal s else s) ≡ signal_of (n - 1)
settled_signal zero s e = rw e
settled_signal (suc zero) s e = rw e
settled_signal (suc (suc n)) s e = ground (arith, e)

-- A new item at the end of the queue, whose commit, if any, is already pending.
queued-IsOpen :
    (b : Binding) (item : CrdtWork) (pending : List Envelope)
    → IsOpen b
    → pending ≡ b.pending ++ outbounds (item ∷ [])
    → IsOpen (record (mark_queued (record b { pending = pending })) { work = b.work ++ item ∷ [] })
unfolding mark_queued
queued-IsOpen b item pending o e = record {
  going = o.going;
  open_queue = o.open_queue;
  counted = omega (arith, o.counted, length-append b.work (item ∷ []));
  listed =
      e
      ∙ ap (◌++ outbounds (item ∷ [])) o.listed
      ∙ append_assoc (unsent b.coordinator) (outbounds b.work) (outbounds (item ∷ []))
      ∙ ap (unsent b.coordinator ++◌) (sym (outbounds-append b.work (item ∷ [])));
  signalled = queued_signal b.queued b.idle o.signalled;
  live = refresh-IsLive b.health b.queued (b.queued + 1) pending o.live;
}

-- An item that is no longer in hand, where its commit, if any, is no longer pending.
settled-IsOpen :
    (b : Binding) (c : Coordinator)
    → IsOpen b
    → busy b.coordinator ≡ 1
    → busy c ≡ 0
    → unsent c ≡ unsent b.coordinator
    → IsOpen (record (mark_settled b) { coordinator = c })
unfolding mark_settled
settled-IsOpen b c o had rests same = record {
  going = o.going;
  open_queue = o.open_queue;
  counted = omega (arith, o.counted, had, rests);
  listed = o.listed ∙ ap (◌++ outbounds b.work) (sym same);
  signalled = settled_signal b.queued b.idle o.signalled;
  live = refresh-IsLive b.health b.queued (b.queued - 1) b.pending o.live;
}

pub finish-IsOpen :
    (b : Binding) (c : Coordinator) → b.coordinator ≡ c → IsOpen b → IsOpen (finish_in c b)
finish-IsOpen b resting e o = o
finish-IsOpen b (handling (inbound s)) e o = settled-IsOpen b resting o (rw e) refl (rw e)
finish-IsOpen b (handling (outbound x)) e o = o
finish-IsOpen b (sent x) e o = settled-IsOpen b resting o (rw e) refl (rw e)
finish-IsOpen b (ended item) e o = o

pub fail-IsOpen :
    (b : Binding) (c : Coordinator) → b.coordinator ≡ c → IsOpen b → IsOpen (fail_in c b)
fail-IsOpen b resting e o = o
fail-IsOpen b (handling (inbound s)) e o =
    settled-IsOpen b (ended (some (inbound s))) o (rw e) refl (rw e)
fail-IsOpen b (handling (outbound x)) e o =
    settled-IsOpen b (ended (some (outbound x))) o (rw e) refl (rw e)
fail-IsOpen b (sent x) e o = settled-IsOpen b (ended none) o (rw e) refl (rw e)
fail-IsOpen b (ended item) e o = o

taken_outbounds :
    (item : CrdtWork) (rest : List CrdtWork)
    → outbounds (item ∷ rest) ≡ unsent (handling item) ++ outbounds rest
taken_outbounds (inbound s) rest = refl
taken_outbounds (outbound c) rest = refl

pub take-IsOpen :
    (b : Binding) (c : Coordinator) (work : List CrdtWork)
    → b.coordinator ≡ c
    → b.work ≡ work
    → IsOpen b
    → IsOpen (take_in c work b)
take-IsOpen b resting [] e e' o = o
take-IsOpen b resting (item ∷ rest) e e' o = record {
  going = o.going;
  open_queue = o.open_queue;
  counted = omega (arith, o.counted, ap length e', ap busy e);
  listed = o.listed ∙ rw (e, e') (taken_outbounds item rest);
  signalled = o.signalled;
  live = o.live;
}
take-IsOpen b (handling item) work e e' o = o
take-IsOpen b (sent x) work e e' o = o
take-IsOpen b (ended item) work e e' o = o

pub if_false : {A : Type 0} (x y : A) (b : Bool) → b ≡ false → (if b then x else y) ≡ y
if_false x y true e = cc
if_false x y false e = refl

pub if_true : {A : Type 0} (x y : A) (b : Bool) → b ≡ true → (if b then x else y) ≡ x
if_true x y true e = refl
if_true x y false e = cc

pub or_true : (a b : Bool) → b ≡ true → a || b ≡ true
or_true true b e = refl
or_true false b e = e

enqueue_open :
    (b : Binding) (item : CrdtWork)
    → b.stopped ≡ false
    → b.is_closed ≡ false
    → enqueue item b ≡ (record (mark_queued b) { work = b.work ++ item ∷ [] }, true)
unfolding enqueue mark_queued
enqueue_open b item going open_queue =
    if_false _ _ b.stopped going ∙ ap offered (if_false _ _ b.is_closed open_queue)

pub notify-IsOpen : (b : Binding) (source : SourceToken) → IsOpen b → IsOpen (notify source b)
unfolding notify
notify-IsOpen b source o =
    subst (λ r. IsOpen r.0) (sym (enqueue_open b (inbound source) o.going o.open_queue))
      (queued-IsOpen b (inbound source) b.pending o (sym (append-nil b.pending)))

pub start-IsOpen : (b : Binding) → IsOpen b → IsOpen (start b)
unfolding start
start-IsOpen b o = record {
  going = o.going;
  open_queue = o.open_queue;
  counted = o.counted;
  listed = o.listed;
  signalled = o.signalled;
  live = refl;
}

module _ (same : Envelope → Envelope → Bool) (same_refl : (c : Envelope) → same c c ≡ true) where
  pub send-IsOpen :
      (b : Binding) (c : Coordinator) → b.coordinator ≡ c → IsOpen b → IsOpen (send_in same c b)
  unfolding remove_pending
  send-IsOpen b resting e o = o
  send-IsOpen b (handling (inbound s)) e o = o
  send-IsOpen b (handling (outbound x)) e o = record {
    going = o.going;
    open_queue = o.open_queue;
    counted = omega (arith, o.counted, ap busy e);
    listed = rw (o.listed, e, same_refl x);
    signalled = o.signalled;
    live = o.live;
  }
  send-IsOpen b (sent x) e o = o
  send-IsOpen b (ended item) e o = o

  pub observe-IsOpen :
      (b : Binding) (source : SourceToken) (commit : Envelope)
      → IsOpen b
      → IsOpen (observe same source commit b)
  unfolding observe
  observe-IsOpen b source commit o =
      elim (Bool-cases (not (should_broadcast commit source) || b.stopped)) [
        | inl skipped ↦ rw skipped o
        | inr sends ↦
            rw
              (
                sends,
                enqueue_open (record b { pending = b.pending ++ commit ∷ [] }) (outbound commit)
                    o.going o.open_queue,
              )
              (queued-IsOpen b (outbound commit) (b.pending ++ commit ∷ []) o refl)
      ]
