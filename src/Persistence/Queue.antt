-- ===== src/Persistence/Queue.antt =====
-- packages/persistence/src/persistence.ts: what is in the queue in each phase of a binding, and the
-- rounds of the writer.
use effect_state_tree.Base.{
  map, map-append, ℕ, ◌≡◌, ◌≢◌, refl, sym, ap, ◌∙◌, subst, Bool, true, false, ◌&&◌, List, [], ◌∷◌,
  ◌++◌, if◌then◌else◌, inl, inr, ◌⊎◌, All, append_assoc, append-nil,
}
use effect_state_tree.Persistence.Binding.{
  Work, Outcome, Message, persist_work, flush_barrier, Phase, opened, closing, closed, aborted,
  Binding, is_open, writer_step, take_message,
}

-- The work in a queue, in order.
abbrev pub works : List Message → List Work
works [] = []
works (persist_work w ∷ q) = w ∷ works q
works (flush_barrier a c ∷ q) = works q

works-append : (p q : List Message) → works (p ++ q) ≡ works p ++ works q
works-append [] q = refl
works-append (persist_work w ∷ p) q = ap (w ∷◌) (works-append p q)
works-append (flush_barrier a c ∷ p) q = works-append p q

abbrev pub StaysOpen : Message → Type 0
StaysOpen (persist_work w) = Unit
StaysOpen (flush_barrier a c) = c ≡ false

abbrev ends : List Message → List Message
ends q = q ++ flush_barrier 0 true ∷ []

-- The queue in each phase: only `close` adds a closing barrier, and it is the last message.
abbrev pub Fine : Phase → Bool → List Message → Type 0
Fine opened running q = (running ≡ true) × All StaysOpen q
Fine closing running q =
    ((running ≡ true) × (p : List Message) × (q ≡ ends p) × All StaysOpen p)
    ⊎ ((running ≡ false) × (q ≡ []))
Fine closed running q = (running ≡ false) × (q ≡ [])
Fine aborted running q = (running ≡ false) × (q ≡ [])

-- The work on which `persist` has been called.
abbrev pub tried : {F : Type 0} → List (Work × Outcome F) → List Work
tried attempts = map (λ a. a.0) attempts

-- Everything tried or waiting, in order.
abbrev pub in_hand : {F : Type 0} → Binding F → List Work
in_hand b = tried b.attempts ++ works b.queue

-- What was dropped comes after what is in hand, and only an abort drops.
abbrev pub Kept : List Work → Phase → List Work → Type 0
Kept held phase acc =
    (dropped : List Work) × (held ++ dropped ≡ acc) × (phase ≢ aborted → dropped ≡ [])

pub record IsSound {F : Type 0} (acc : List Work) (b : Binding F) : Type 0 where
  pub fine : Fine b.phase b.running b.queue
  pub kept : Kept (in_hand b) b.phase acc

pub Kept-all : {held acc : List Work} {p : Phase} → held ≡ acc → Kept held p acc
Kept-all {held} e = ([], append-nil held ∙ e, λ _. refl)

pub is_live : {p : Phase} → p ≡ opened → p ≢ aborted
is_live e a = cc (e, a)

pub is_live_closing : {p : Phase} → p ≡ closing → p ≢ aborted
is_live_closing e a = cc (e, a)

pub closed-ne-aborted : closed ≡ aborted → ⊥
closed-ne-aborted h = cc

pub open_and : (p : Phase) (s : Bool) → is_open p && s ≡ true → p ≡ opened
open_and opened s h = refl
open_and closing s h = cc
open_and closed s h = cc
open_and aborted s h = cc

pub closed-queue :
    (p : Phase) (running : Bool) (q : List Message) → p ≡ closed → Fine p running q → q ≡ []
closed-queue closed running q e (_, h) = h
closed-queue aborted running q e (_, h) = h
closed-queue opened running q e h = cc
closed-queue closing running q e h = cc

module _ {F : Type 0} where
  take_message-in_hand :
      (outcome : Outcome F) (q : List Message) (b : Binding F)
      → b.queue ≡ q
      → in_hand (take_message outcome q b) ≡ tried b.attempts ++ works q
  take_message-in_hand outcome [] b e = rw e
  take_message-in_hand outcome (persist_work w ∷ q) b e =
      ap (◌++ works q) (map-append (λ (a : Work × Outcome F). a.0) b.attempts ((w, outcome) ∷ []))
      ∙ append_assoc (tried b.attempts) (w ∷ []) (works q)
  take_message-in_hand outcome (flush_barrier a c ∷ q) b e = refl

  take_message-phase :
      (outcome : Outcome F) (q : List Message) (b : Binding F)
      → (take_message outcome q b).phase ≡ b.phase
  take_message-phase outcome [] b = refl
  take_message-phase outcome (persist_work w ∷ q) b = refl
  take_message-phase outcome (flush_barrier a c ∷ q) b = refl

  take_message-opened :
      (outcome : Outcome F) (q : List Message) (b : Binding F)
      → b.queue ≡ q
      → b.running ≡ true
      → All StaysOpen q
      → Fine opened (take_message outcome q b).running (take_message outcome q b).queue
  take_message-opened outcome [] b e r h = (r, rw e h)
  take_message-opened outcome (persist_work w ∷ q) b e r (k, h) = (r, h)
  take_message-opened outcome (flush_barrier a c ∷ q) b e r (k, h) = (rw k refl, h)

  take_message-closing :
      (outcome : Outcome F) (p : List Message) (b : Binding F)
      → b.queue ≡ ends p
      → b.running ≡ true
      → All StaysOpen p
      → Fine closing
          (take_message outcome (ends p) b).running
          (take_message outcome (ends p) b).queue
  take_message-closing outcome [] b e r h = inr (refl, refl)
  take_message-closing outcome (persist_work w ∷ p) b e r (k, h) = inl (r, p, refl, h)
  take_message-closing outcome (flush_barrier a c ∷ p) b e r (k, h) = inl (rw k refl, p, refl, h)

  Fine-take :
      (outcome : Outcome F) (p : Phase) (b : Binding F)
      → b.running ≡ true
      → Fine p b.running b.queue
      → Fine p (take_message outcome b.queue b).running (take_message outcome b.queue b).queue
  Fine-take outcome opened b r (_, h) = take_message-opened outcome b.queue b refl r h
  Fine-take outcome closing b r (inl (_, p, e, h)) =
      subst (λ q. Fine closing (take_message outcome q b).running (take_message outcome q b).queue)
        (sym e) (take_message-closing outcome p b e r h)
  Fine-take outcome closing b r (inr (stopped, _)) = cc (r, stopped)
  Fine-take outcome closed b r (stopped, _) = cc (r, stopped)
  Fine-take outcome aborted b r (stopped, _) = cc (r, stopped)

  take-IsSound :
      (acc : List Work) (outcome : Outcome F) (b : Binding F)
      → b.running ≡ true
      → IsSound acc b
      → IsSound acc (take_message outcome b.queue b)
  take-IsSound acc outcome b runs i = record {
    fine = rw (take_message-phase outcome b.queue b) (Fine-take outcome b.phase b runs i.fine);
    kept =
        rw (take_message-in_hand outcome b.queue b refl, take_message-phase outcome b.queue b)
          i.kept;
  }

  pub if-IsSound :
      (acc : List Work) (t : Bool) (b c : Binding F)
      → (t ≡ true → IsSound acc b)
      → (t ≡ false → IsSound acc c)
      → IsSound acc (if t then b else c)
  if-IsSound acc true b c h k = h refl
  if-IsSound acc false b c h k = k refl

  pub writer_step-IsSound :
      (acc : List Work) (outcome : Outcome F) (b : Binding F)
      → IsSound acc b
      → IsSound acc (writer_step outcome b)
  unfolding writer_step
  writer_step-IsSound acc outcome b i =
      if-IsSound acc b.running (take_message outcome b.queue b) b
        (λ runs. take-IsSound acc outcome b runs i) (λ _. i)

  pub in_hand-snoc :
      (b : Binding F) (m : Message)
      → tried b.attempts ++ works (b.queue ++ m ∷ []) ≡ in_hand b ++ works (m ∷ [])
  in_hand-snoc b m =
      rw (works-append b.queue (m ∷ []))
        (sym (append_assoc (tried b.attempts) (works b.queue) (works (m ∷ []))))

  pub barrier-in_hand :
      (b : Binding F) (a : ℕ) (c : Bool)
      → tried b.attempts ++ works (b.queue ++ flush_barrier a c ∷ []) ≡ in_hand b
  barrier-in_hand b a c = in_hand-snoc b (flush_barrier a c) ∙ append-nil (in_hand b)

  pub Fine-at :
      (acc : List Work) (b : Binding F) {p : Phase}
      → b.phase ≡ p
      → IsSound acc b
      → Fine p b.running b.queue
  Fine-at acc b e i = subst (λ p. Fine p b.running b.queue) e i.fine

  pub kept_open :
      (acc : List Work) (b : Binding F) → b.phase ≢ aborted → IsSound acc b → in_hand b ≡ acc
  kept_open acc b live i =
      let (dropped, held, none_dropped) = i.kept in
      sym (append-nil (in_hand b)) ∙ ap (in_hand b ++◌) (sym (none_dropped live)) ∙ held
