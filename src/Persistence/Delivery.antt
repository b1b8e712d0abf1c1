-- ===== src/Persistence/Delivery.antt =====
-- packages/persistence/src/persistence.ts: over every run of a binding, `persist` is called on the
-- work in the order of its commits, and nothing accepted is left out but by `abort`.
use effect_state_tree.Base.{
  ◌≡◌, ◌≢◌, refl, sym, ap, ◌∙◌, Bool, true, false, ◌&&◌, List, [], ◌∷◌, ◌++◌, if◌then◌else◌, inl,
  inr, All-append, append_assoc, append-nil,
}
use effect_state_tree.Base.Text.{Text}
use effect_state_tree.Runtime.{SourceToken, Envelope}
use effect_state_tree.Persistence.{should_save}
use effect_state_tree.Persistence.Binding.{
  Work, Outcome, persist_work, flush_barrier, Phase, opened, closing, closed, aborted, Binding,
  bound, is_open, work_of, offer_commit, flush, flush_in, close, close_in, abort, abort_in,
  writer_step, finish_close, closed_in,
}
use effect_state_tree.Persistence.Queue.{
  tried, works, StaysOpen, Fine, in_hand, Kept, IsSound, Kept-all, is_live, is_live_closing,
  open_and, if-IsSound, writer_step-IsSound, in_hand-snoc, barrier-in_hand, Fine-at, kept_open,
}

-- The commits that are accepted: those to save that come while the binding is open.
abbrev pub accept : SourceToken → List Text → Envelope → Phase → List Work → List Work
accept source skip_tags commit phase acc =
    if is_open phase && should_save commit source skip_tags then acc ++ work_of commit ∷ [] else acc

-- The calls and rounds of a binding's life, in any order, with the work that it has accepted.
pub data Runs {F : Type 0} (source : SourceToken) (skip_tags : List Text)
    : List Work → Binding F → Type 0 where
  starts : Runs source skip_tags [] bound
  offered :
      {acc : List Work} {b : Binding F} (commit : Envelope)
      → Runs source skip_tags acc b
      → Runs source skip_tags
          (accept source skip_tags commit b.phase acc)
          (offer_commit source skip_tags commit b)
  flushed :
      {acc : List Work} {b : Binding F}
      → Runs source skip_tags acc b
      → Runs source skip_tags acc (flush b).0
  closes :
      {acc : List Work} {b : Binding F}
      → Runs source skip_tags acc b
      → Runs source skip_tags acc (close b).0
  aborts :
      {acc : List Work} {b : Binding F}
      → Runs source skip_tags acc b
      → Runs source skip_tags acc (abort b)
  writes :
      {acc : List Work} {b : Binding F} (outcome : Outcome F)
      → Runs source skip_tags acc b
      → Runs source skip_tags acc (writer_step outcome b)
  finishes :
      {acc : List Work} {b : Binding F}
      → Runs source skip_tags acc b
      → Runs source skip_tags acc (finish_close b)

module _ {F : Type 0} where
  offered-IsSound :
      (acc : List Work) (c : Envelope) (b : Binding F) (t : Bool)
      → (t ≡ true → b.phase ≡ opened)
      → IsSound acc b
      → IsSound
          (if t then acc ++ work_of c ∷ [] else acc)
          (if t then record b { queue = b.queue ++ persist_work (work_of c) ∷ [] } else b)
  offered-IsSound acc c b false is_opened i = i
  offered-IsSound acc c b true is_opened i =
      let (runs, stays) = Fine-at acc b (is_opened refl) i in
      record {
        fine =
            rw (is_opened refl)
              (runs, All-append StaysOpen b.queue (persist_work (work_of c) ∷ []) stays (tt, tt));
        kept = Kept-all (
            in_hand-snoc b (persist_work (work_of c))
            ∙ ap (◌++ work_of c ∷ []) (kept_open acc b (is_live (is_opened refl)) i));
      }

  flush-IsSound :
      (acc : List Work) (p : Phase) (b : Binding F)
      → b.phase ≡ p
      → IsSound acc b
      → IsSound acc (flush_in p b).0
  flush-IsSound acc aborted b e i = i
  flush-IsSound acc closing b e i = i
  flush-IsSound acc closed b e i = i
  flush-IsSound acc opened b e i =
      let (runs, stays) = Fine-at acc b e i in
      record {
        fine = rw e (
          runs,
          All-append StaysOpen b.queue (flush_barrier b.next_acknowledgement false ∷ []) stays
              (refl, tt),
        );
        kept =
            Kept-all
              (barrier-in_hand b b.next_acknowledgement false ∙ kept_open acc b (is_live e) i);
      }

  close-IsSound :
      (acc : List Work) (p : Phase) (b : Binding F)
      → b.phase ≡ p
      → IsSound acc b
      → IsSound acc (close_in p b).0
  close-IsSound acc aborted b e i = i
  close-IsSound acc closing b e i = i
  close-IsSound acc closed b e i = i
  close-IsSound acc opened b e i =
      let (runs, stays) = Fine-at acc b e i in
      record {
        fine = inl (runs, b.queue, refl, stays);
        kept = Kept-all (barrier-in_hand b 0 true ∙ kept_open acc b (is_live e) i);
      }

  abort-Kept :
      (acc : List Work) (b : Binding F) → IsSound acc b → Kept (tried b.attempts ++ []) aborted acc
  abort-Kept acc b i =
      let (dropped, held, _) = i.kept in
      (
        works b.queue ++ dropped,
        ap (◌++ (works b.queue ++ dropped)) (append-nil (tried b.attempts))
            ∙ sym (append_assoc (tried b.attempts) (works b.queue) dropped)
            ∙ held,
        λ live. absurd (live refl),
      )

  abort-IsSound :
      (acc : List Work) (p : Phase) (b : Binding F) → IsSound acc b → IsSound acc (abort_in p b)
  abort-IsSound acc aborted b i = i
  abort-IsSound acc closed b i = i
  abort-IsSound acc closing b i = record { fine = (refl, refl); kept = abort-Kept acc b i }
  abort-IsSound acc opened b i = record { fine = (refl, refl); kept = abort-Kept acc b i }

  ended-queue : (b : Binding F) → b.running ≡ false → Fine closing b.running b.queue → b.queue ≡ []
  ended-queue b ended (inl (runs, _, _, _)) = cc (ended, runs)
  ended-queue b ended (inr (_, q)) = q

  finish-IsSound :
      (acc : List Work) (p : Phase) (b : Binding F)
      → b.phase ≡ p
      → IsSound acc b
      → IsSound acc (closed_in p b)
  finish-IsSound acc aborted b e i = i
  finish-IsSound acc closed b e i = i
  finish-IsSound acc opened b e i = i
  finish-IsSound acc closing b e i =
      if-IsSound acc b.running b (record b { phase = closed; queue = [] }) (λ _. i)
        (λ ended.
          let q : b.queue ≡ [] = ended-queue b ended (Fine-at acc b e i) in
          record {
            fine = (ended, refl);
            kept = Kept-all (
                ap (λ x. tried b.attempts ++ works x) (sym q)
                ∙ kept_open acc b (is_live_closing e) i);
          })

  pub Runs-IsSound :
      (source : SourceToken) (skip_tags : List Text) {acc : List Work} {b : Binding F}
      → Runs source skip_tags acc b
      → IsSound acc b
  unfolding bound offer_commit flush close abort finish_close
  Runs-IsSound source skip_tags starts = record { fine = (refl, tt); kept = Kept-all refl }
  Runs-IsSound source skip_tags (offered {acc} {b} commit run) =
      offered-IsSound acc commit b (is_open b.phase && should_save commit source skip_tags)
        (open_and b.phase (should_save commit source skip_tags)) (Runs-IsSound source skip_tags run)
  Runs-IsSound source skip_tags (flushed {acc} {b} run) =
      flush-IsSound acc b.phase b refl (Runs-IsSound source skip_tags run)
  Runs-IsSound source skip_tags (closes {acc} {b} run) =
      close-IsSound acc b.phase b refl (Runs-IsSound source skip_tags run)
  Runs-IsSound source skip_tags (aborts {acc} {b} run) =
      abort-IsSound acc b.phase b (Runs-IsSound source skip_tags run)
  Runs-IsSound source skip_tags (writes {acc} {b} outcome run) =
      writer_step-IsSound acc outcome b (Runs-IsSound source skip_tags run)
  Runs-IsSound source skip_tags (finishes {acc} {b} run) =
      finish-IsSound acc b.phase b refl (Runs-IsSound source skip_tags run)

  -- In every run, the work on which `persist` has been called, whatever came of it, followed by what
  -- waits is, in the order of the commits, the accepted work, less a last part that only an abort
  -- drops.
  pub Runs-in_order :
      (source : SourceToken) (skip_tags : List Text) {acc : List Work} {b : Binding F}
      → Runs source skip_tags acc b
      → (dropped : List Work) × (in_hand b ++ dropped ≡ acc) × (b.phase ≢ aborted → dropped ≡ [])
  Runs-in_order source skip_tags run = (Runs-IsSound source skip_tags run).kept
