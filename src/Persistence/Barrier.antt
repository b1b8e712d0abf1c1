-- ===== src/Persistence/Barrier.antt =====
-- packages/persistence/src/persistence.ts: what the writer reports at a barrier.
use effect_state_tree.Base.{
  ℕ, ◌≡◌, refl, ap, ◌∙◌, Bool, true, not, Option, none, some, List, [], ◌∷◌, ◌++◌, map,
  append_assoc, append-nil, if◌then◌else◌,
}
use effect_state_tree.Runtime.Context.{or_else}
use effect_state_tree.Persistence.Binding.{
  Work, Outcome, saved, failure_of, Message, persist_work, flush_barrier, Binding, completion,
  delete, writer_step, take_message,
}

-- Rounds of the writer, with what comes of `persist` in each; at a barrier that is not read.
abbrev pub write_each : {F : Type 0} → List (Outcome F) → Binding F → Binding F
write_each [] b = b
write_each (outcome ∷ more) b = write_each more (writer_step outcome b)

-- The first of the failures.
abbrev pub first_failure : {F : Type 0} → List (Work × Outcome F) → Option F
first_failure [] = none
first_failure ((w, outcome) ∷ saves) = or_else (failure_of outcome) (first_failure saves)

abbrev pub work_messages : {F : Type 0} → List (Work × Outcome F) → List Message
work_messages saves = map (λ s. persist_work (s.0)) saves

or_else_assoc : {F : Type 0} (a b c : Option F) → or_else (or_else a b) c ≡ or_else a (or_else b c)
or_else_assoc none b c = refl
or_else_assoc (some a) b c = refl

or_else-none : {F : Type 0} (a : Option F) → or_else a none ≡ a
or_else-none none = refl
or_else-none (some a) = refl

writer_step-takes :
    {F : Type 0} (outcome : Outcome F) (q : List Message) (b : Binding F)
    → b.running ≡ true
    → b.queue ≡ q
    → writer_step outcome b ≡ take_message outcome q b
unfolding writer_step
writer_step-takes outcome q b runs e =
    ap (λ t. if t then take_message outcome b.queue b else b) runs
    ∙ ap (λ q. take_message outcome q b) e

-- A running writer that finds work and then a barrier calls `persist` on the work in order, reports the failure
-- that is left from before or else the first new one at the barrier, and then forgets it.
pub write_each-barrier :
    {F : Type 0} (saves : List (Work × Outcome F)) (a : ℕ) (closes : Bool) (rest : List Message)
    (b : Binding F)
    → b.running ≡ true
    → b.queue ≡ work_messages saves ++ flush_barrier a closes ∷ rest
    → write_each (map (λ s. s.1) saves ++ saved ∷ []) b ≡ record b {
      queue = rest;
      waiters = delete a b.waiters;
      unreported_failure = none;
      running = not closes;
      completed =
          (a, completion (or_else b.unreported_failure (first_failure saves))) ∷ b.completed;
      attempts = b.attempts ++ saves;
    }
unfolding writer_step
write_each-barrier [] a closes rest b runs e =
    writer_step-takes saved (flush_barrier a closes ∷ rest) b runs e
    ∙ rw (or_else-none b.unreported_failure, append-nil b.attempts) refl
write_each-barrier ((w, outcome) ∷ saves) a closes rest b runs e =
    ap (write_each (map (λ s. s.1) saves ++ saved ∷ [])) (
      writer_step-takes outcome
        (persist_work w ∷ work_messages saves ++ flush_barrier a closes ∷ rest) b runs e)
    ∙ write_each-barrier saves a closes rest
        (take_message outcome
          (persist_work w ∷ work_messages saves ++ flush_barrier a closes ∷ rest) b)
        runs refl
    ∙ rw
        (
          or_else_assoc b.unreported_failure (failure_of outcome) (first_failure saves),
          append_assoc b.attempts ((w, outcome) ∷ []) saves,
        )
        refl
