-- ===== src/History/Moves.antt =====
-- packages/history/src/history.ts: what undo and redo do to the stacks, and that a stale one does not
-- write.
use effect_state_tree.Base.{
  ℕ, ◌≡◌, refl, sym, ap, Option, none, some, [], ◌∷◌, ◌++◌, init, last?, Bool-cases, inl, inr,
  arith, ◌≢◌,
}
use effect_state_tree.Base.Text.{Text, codes}
use effect_state_tree.Base.Result.{Result, ok, err, ok-injective, ok-ne-err}
use effect_state_tree.Runtime.{ProposedCommit, CommitInfo, ProducedChange}
use effect_state_tree.Runtime.Store.{
  Store, StoreState, CommitResult, Attempt, guarded, built, read_phase,
}
use effect_state_tree.History.{HistoryEntry, HistoryState, history_undo_tag, history_redo_tag}
use effect_state_tree.History.Controller.{
  Stack, no_history_change, applied, Controller, Apply, settle, undo_entry, redo_entry, before_of,
  after_of, undo, redo, action_options, revision_guard,
}

no_change-ne-applied : {t : Stack} {r : CommitResult} → no_history_change t ≡ applied r → ⊥
no_change-ne-applied h = cc

settle-history :
    {A F : Type 0} (next : HistoryState A) (attached : Option A)
    (x : Controller A × Result F CommitResult) {d : Controller A} {r : CommitResult}
    → settle next attached x ≡ (d, ok (applied r))
    → d.history ≡ next
settle-history next none (c, err e) h = absurd (ok-ne-err (sym (ap (λ x. x.1) h)))
settle-history next (some a) (c, err e) h = absurd (ok-ne-err (sym (ap (λ x. x.1) h)))
settle-history next none (c, ok r) h = sym (ap (λ x. x.0.history) h)
settle-history next (some a) (c, ok r) h = sym (ap (λ x. x.0.history) h)

undo_entry-history :
    {A F : Type 0} (apply : Apply A F) (n : ℕ) (c : Controller A) (o : Option (HistoryEntry A))
    {d : Controller A} {r : CommitResult}
    → undo_entry apply n c o ≡ (d, ok (applied r))
    → (x : HistoryEntry A) × (o ≡ some x)
      × (d.history ≡ record { undo = init c.history.undo; redo = c.history.redo ++ x ∷ [] })
undo_entry-history apply n c none h = absurd (no_change-ne-applied (ok-injective (ap (λ x. x.1) h)))
undo_entry-history apply n c (some x) h = (
  x,
  refl,
  settle-history _ (before_of x.attached)
      (apply x.undo (action_options x (codes "Undo") history_undo_tag n) c) h,
)

redo_entry-history :
    {A F : Type 0} (apply : Apply A F) (n : ℕ) (c : Controller A) (o : Option (HistoryEntry A))
    {d : Controller A} {r : CommitResult}
    → redo_entry apply n c o ≡ (d, ok (applied r))
    → (x : HistoryEntry A) × (o ≡ some x)
      × (d.history ≡ record { undo = c.history.undo ++ x ∷ []; redo = init c.history.redo })
redo_entry-history apply n c none h = absurd (no_change-ne-applied (ok-injective (ap (λ x. x.1) h)))
redo_entry-history apply n c (some x) h = (
  x,
  refl,
  settle-history _ (after_of x.attached)
      (apply x.redo (action_options x (codes "Redo") history_redo_tag n) c) h,
)

-- An undo that succeeds moves the last entry of the undo stack to the redo stack.
pub undo-history :
    {A F : Type 0} (apply : Apply A F) (n : ℕ) (c : Controller A) {d : Controller A}
    {r : CommitResult}
    → undo apply n c ≡ (d, ok (applied r))
    → (x : HistoryEntry A) × (last? c.history.undo ≡ some x)
      × (d.history ≡ record { undo = init c.history.undo; redo = c.history.redo ++ x ∷ [] })
unfolding undo
undo-history apply n c h = undo_entry-history apply n c (last? c.history.undo) h

-- A redo that succeeds moves the last entry of the redo stack to the undo stack.
pub redo-history :
    {A F : Type 0} (apply : Apply A F) (n : ℕ) (c : Controller A) {d : Controller A}
    {r : CommitResult}
    → redo apply n c ≡ (d, ok (applied r))
    → (x : HistoryEntry A) × (last? c.history.redo ≡ some x)
      × (d.history ≡ record { undo = c.history.undo ++ x ∷ []; redo = init c.history.redo })
unfolding redo
redo-history apply n c h = redo_entry-history apply n c (last? c.history.redo) h

guarded-stale :
    {B E : Type 0} {e : E} (o : Option E) (before : StoreState) (p q : ProposedCommit)
    → o ≡ some e
    → guarded {B = B} o before p ≢ Attempt.write q
guarded-stale none before p q h = cc
guarded-stale (some x) before p q h = cc

built-stale :
    {A B : Type 0} (entry : HistoryEntry A) (label action_tag : Text) (expected : ℕ)
    (info : CommitInfo) (tid : Text) (before : StoreState) (r : Result B ProducedChange)
    (q : ProposedCommit)
    → before.revision ≢ expected
    → built (action_options entry label action_tag expected) info tid before r ≢ Attempt.write q
unfolding action_options revision_guard
built-stale entry label action_tag expected info tid before (err e) q stale h = cc
built-stale entry label action_tag expected info tid before (ok r) q stale h = ground (arith, stale)

-- An attempt of an undo or a redo that finds another revision than the one its entry was chosen at
-- never writes to the store, whatever its builder gives.
pub stale_action_never_writes :
    {A B : Type 0} (build : StoreState → Result B ProducedChange) (entry : HistoryEntry A)
    (label action_tag : Text) (expected : ℕ) (info : CommitInfo) (tid : Text) (s : Store)
    (q : ProposedCommit)
    → s.state.revision ≢ expected
    → read_phase build (action_options entry label action_tag expected) info tid s ≢ Attempt.write q
unfolding read_phase
stale_action_never_writes build entry label action_tag expected info tid s q stale =
    elim (Bool-cases s.is_shutdown) [
      | inl down ↦ rw down (λ h. cc)
      | inr up ↦
          rw up
            (built-stale entry label action_tag expected info tid s.state (build s.state) q stale)
    ]
