-- ===== src/Persistence/Reports.antt =====
-- packages/persistence/src/persistence.ts: what is saved when no failure has been reported, and when a
-- binding is closed.
use effect_state_tree.Base.{
  append-nil, ℕ, ◌≡◌, refl, sym, ap, ◌∙◌, ◌&&◌, Bool, true, false, Option, none, some, List, [],
  ◌∷◌, ◌++◌, All, if◌then◌else◌,
}
use effect_state_tree.Base.Result.{Result, ok, err}
use effect_state_tree.Base.Text.{Text}
use effect_state_tree.Runtime.{SourceToken}
use effect_state_tree.Runtime.Context.{or_else}
use effect_state_tree.Persistence.{should_save}
use effect_state_tree.Persistence.Binding.{
  Work, Outcome, saved, not_encoded, not_saved, failure_of, Message, persist_work, flush_barrier,
  Phase, opened, closing, closed, aborted, FlushError, write_failure, binding_aborted, Binding,
  bound, is_open, work_of, offer_commit, flush, flush_in, close, close_in, abort, abort_in,
  writer_step, take_message, finish_close, closed_in, completion, fail_waiters,
}
use effect_state_tree.Persistence.Queue.{tried, works, closed-queue, closed-ne-aborted, kept_open}
use effect_state_tree.Persistence.Delivery.{
  Runs-IsSound, Runs, starts, offered, flushed, closes, aborts, writes, finishes,
}

-- The acknowledgement does not report a failure to write.
abbrev pub IsQuiet : {F : Type 0} → ℕ × Result (FlushError F) Unit → Type 0
IsQuiet (a, ok u) = Unit {0}
IsQuiet (a, err (write_failure f)) = ⊥
IsQuiet (a, err binding_aborted) = Unit {0}

-- No failure waits to be reported, and none has been.
abbrev pub NoneReported : {F : Type 0} → Binding F → Type 0
NoneReported b = (b.unreported_failure ≡ none) × All IsQuiet b.completed

abbrev pub AllSaved : {F : Type 0} → List (Work × Outcome F) → Type 0
AllSaved attempts = All (λ a. a.1 ≡ saved) attempts

module _ {F : Type 0} where
  failure_of-none : (o : Outcome F) → failure_of o ≡ none → o ≡ saved
  failure_of-none saved e = refl
  failure_of-none (not_encoded f) e = cc
  failure_of-none (not_saved f) e = cc

  or_else_parts : (a b : Option F) → or_else a b ≡ none → (a ≡ none) × (b ≡ none)
  or_else_parts none b e = (refl, e)
  or_else_parts (some x) b e = cc

  completion-IsQuiet : (o : Option F) (a : ℕ) → IsQuiet (a, completion o) → o ≡ none
  completion-IsQuiet none a q = refl
  completion-IsQuiet (some f) a q = absurd q

  All-snoc :
      (xs : List (Work × Outcome F)) (x : Work × Outcome F)
      → AllSaved xs
      → x.1 ≡ saved
      → AllSaved (xs ++ x ∷ [])
  All-snoc [] x h e = (e, tt)
  All-snoc (y ∷ xs) x h e = (h.0, All-snoc xs x h.1 e)

  fail_waiters-IsQuiet :
      (waiters : List ℕ) (done : List (ℕ × Result (FlushError F) Unit))
      → All IsQuiet (fail_waiters waiters done)
      → All IsQuiet done
  fail_waiters-IsQuiet [] done h = h
  fail_waiters-IsQuiet (a ∷ more) done h =
      let rest = fail_waiters-IsQuiet more ((a, err binding_aborted) ∷ done) h in rest.1

  -- Every failure shows: with none reported and none to report, every attempt has saved its work.
  abbrev IsReported : Binding F → Type 0
  IsReported b = NoneReported b → AllSaved b.attempts

  take_message-IsReported :
      (outcome : Outcome F) (q : List Message) (b : Binding F)
      → IsReported b
      → IsReported (take_message outcome q b)
  take_message-IsReported outcome [] b h n = h n
  take_message-IsReported outcome (persist_work w ∷ q) b h (u, quiet) =
      let (before, new) = or_else_parts b.unreported_failure (failure_of outcome) u in
      All-snoc b.attempts (w, outcome) (h (before, quiet)) (failure_of-none outcome new)
  take_message-IsReported outcome (flush_barrier a c ∷ q) b h (u, (first, quiet)) =
      h (completion-IsQuiet b.unreported_failure a first, quiet)

  if-IsReported :
      (t : Bool) (b c : Binding F) → IsReported b → IsReported c → IsReported (if t then b else c)
  if-IsReported true b c h k = h
  if-IsReported false b c h k = k

  flush-IsReported : (p : Phase) (b : Binding F) → IsReported b → IsReported (flush_in p b).0
  flush-IsReported opened b h n = h n
  flush-IsReported closing b h n = h n
  flush-IsReported closed b h n = h n
  flush-IsReported aborted b h n = h n

  close-IsReported : (p : Phase) (b : Binding F) → IsReported b → IsReported (close_in p b).0
  close-IsReported opened b h n = h n
  close-IsReported closing b h n = h n
  close-IsReported closed b h n = h n
  close-IsReported aborted b h n = h n

  abort-IsReported : (p : Phase) (b : Binding F) → IsReported b → IsReported (abort_in p b)
  abort-IsReported opened b h (u, quiet) = h (u, fail_waiters-IsQuiet b.waiters b.completed quiet)
  abort-IsReported closing b h (u, quiet) = h (u, fail_waiters-IsQuiet b.waiters b.completed quiet)
  abort-IsReported closed b h n = h n
  abort-IsReported aborted b h n = h n

  finish-IsReported : (p : Phase) (b : Binding F) → IsReported b → IsReported (closed_in p b)
  finish-IsReported opened b h n = h n
  finish-IsReported closing b h n =
      if-IsReported b.running b (record b { phase = closed; queue = [] }) h (λ m. h m) n
  finish-IsReported closed b h n = h n
  finish-IsReported aborted b h n = h n

  -- In every run, where no acknowledgement reports a failed write and no failure waits to be
  -- reported, the storage has saved every piece of work on which `persist` has been called.
  pub Runs-AllSaved :
      (source : SourceToken) (skip_tags : List Text) {acc : List Work} {b : Binding F}
      → Runs source skip_tags acc b
      → NoneReported b
      → AllSaved b.attempts
  unfolding bound offer_commit flush close abort finish_close writer_step
  Runs-AllSaved source skip_tags starts n = tt
  Runs-AllSaved source skip_tags (offered {acc} {b} commit run) n =
      let before = Runs-AllSaved source skip_tags run in
      if-IsReported (is_open b.phase && should_save commit source skip_tags)
        (record b { queue = b.queue ++ persist_work (work_of commit) ∷ [] }) b (λ m. before m)
        before n
  Runs-AllSaved source skip_tags (flushed {acc} {b} run) n =
      flush-IsReported b.phase b (Runs-AllSaved source skip_tags run) n
  Runs-AllSaved source skip_tags (closes {acc} {b} run) n =
      close-IsReported b.phase b (Runs-AllSaved source skip_tags run) n
  Runs-AllSaved source skip_tags (aborts {acc} {b} run) n =
      abort-IsReported b.phase b (Runs-AllSaved source skip_tags run) n
  Runs-AllSaved source skip_tags (writes {acc} {b} outcome run) n =
      if-IsReported b.running (take_message outcome b.queue b) b
        (take_message-IsReported outcome b.queue b (Runs-AllSaved source skip_tags run))
        (Runs-AllSaved source skip_tags run) n
  Runs-AllSaved source skip_tags (finishes {acc} {b} run) n =
      finish-IsReported b.phase b (Runs-AllSaved source skip_tags run) n

  -- Once a binding is closed, `persist` has been called once on each piece of work that it accepted,
  -- in order. If moreover no acknowledgement has reported a failed write and none waits to be
  -- reported, the storage has saved all of it.
  pub closed_all :
      (source : SourceToken) (skip_tags : List Text) {acc : List Work} {b : Binding F}
      → Runs source skip_tags acc b
      → b.phase ≡ closed
      → (tried b.attempts ≡ acc) × (NoneReported b → AllSaved b.attempts)
  closed_all source skip_tags {acc} {b} run e =
      let i = Runs-IsSound source skip_tags run in
      let q : b.queue ≡ [] = closed-queue b.phase b.running b.queue e i.fine in
      (
        sym (append-nil (tried b.attempts))
            ∙ ap (λ x. tried b.attempts ++ works x) (sym q)
            ∙ kept_open acc b (λ a. closed-ne-aborted (sym e ∙ a)) i,
        Runs-AllSaved source skip_tags run,
      )
