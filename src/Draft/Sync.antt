-- ===== src/Draft/Sync.antt =====
-- packages/draft/src/draft.ts: what refreshes and submissions do to the working tree and the saved
-- checkpoint.
use effect_state_tree.Base.{
  ℕ, ◌==◌, ◌≡◌, ◌≢◌, refl, true, Option, none, some, List, Bool-cases, inl, inr, arith,
}
use effect_state_tree.Base.Text.{Text}
use effect_state_tree.Base.Result.{Result, ok, err}
use effect_state_tree.Snapshot.{Value, Options}
use effect_state_tree.Patch.{TreePatch}
use effect_state_tree.Patch.Batch.{AppliedPatches}
use effect_state_tree.Runtime.Store.{Store}
use effect_state_tree.Validation.{Issue}
use effect_state_tree.Draft.{
  Draft, DraftError, draft_dirty, Submission, accepted_with_pending_changes, is_dirty, refresh,
  reconcile_authoritative, finish_submit, accept, request_failed, failed_with,
}

module _ {E T : Type 0} (opts : Options) (decode : Value → Result Issue T)
    (reconcile : Value → Value → Result E AppliedPatches)
    (apply_tree_patches : Value → List TreePatch → Result E AppliedPatches)
    (listeners : Store → Store) (transaction_id : Text) (now : ℕ) where
  -- A draft with unsaved edits refuses a refresh and keeps its tree and its checkpoint.
  refresh_dirty :
      (authoritative : Value) (d : Draft)
      → is_dirty opts d ≡ true
      → refresh opts decode reconcile apply_tree_patches listeners transaction_id now authoritative
          d
        ≡ (d, err draft_dirty)
  unfolding refresh
  refresh_dirty authoritative d dirty = rw dirty

  module _ {F : Type 0} (authoritative_failure : F → Option Value) where
    failed_with-store :
        (d : Draft) (f : F) (r : Result (DraftError E) AppliedPatches)
        → (failed_with opts decode reconcile apply_tree_patches listeners transaction_id now
            authoritative_failure d f r).0.store
          ≡ d.store
    failed_with-store d f (ok a) = refl
    failed_with-store d f (err e) = refl

    request_failed-store :
        (sub : Submission T) (d : Draft) (f : F) (o : Option Value)
        → (request_failed opts decode reconcile apply_tree_patches listeners transaction_id now
            authoritative_failure sub d f o).0.store
          ≡ d.store
    request_failed-store sub d f none = refl
    request_failed-store sub d f (some v) = failed_with-store d f _

    accept-store :
        (sub : Submission T) (d : Draft) (r : Result (DraftError E) AppliedPatches)
        → d.store.state.revision ≢ sub.revision
        → (accept opts decode reconcile apply_tree_patches listeners transaction_id now
            authoritative_failure sub d r).0.store
          ≡ d.store
    accept-store sub d (err e) moved = refl
    accept-store sub d (ok a) moved = elim (Bool-cases (d.store.state.revision == sub.revision)) [
      | inl same ↦ absurd (moved (ground arith))
      | inr differ ↦ rw differ
    ]

    -- Where the tree has changed since a submission began, its end leaves the tree alone, whatever the
    -- response: an accepted value, a failure, or one with an authoritative value.
    pub finish_submit-store :
        (sub : Submission T) (response : Result F Value) (d : Draft)
        → d.store.state.revision ≢ sub.revision
        → (finish_submit opts decode reconcile apply_tree_patches listeners transaction_id now
            authoritative_failure sub response d).0.store
          ≡ d.store
    unfolding finish_submit
    finish_submit-store sub (err f) d moved = request_failed-store sub d f (authoritative_failure f)
    finish_submit-store sub (ok v) d moved =
        accept-store sub d
          (reconcile_authoritative opts decode reconcile apply_tree_patches listeners transaction_id
            now sub.working v sub.revision)
          moved

    -- Where the tree has changed since a submission began and its value is accepted, the reconciled
    -- value is the checkpoint and the answer, and the edits stay as pending changes.
    finish_submit_pending :
        (sub : Submission T) (v : Value) (d : Draft) (a : AppliedPatches)
        → reconcile_authoritative opts decode reconcile apply_tree_patches listeners transaction_id
            now sub.working v sub.revision
          ≡ ok a
        → d.store.state.revision ≢ sub.revision
        → finish_submit opts decode reconcile apply_tree_patches listeners transaction_id now
            authoritative_failure sub
            (ok v)
            d
          ≡ (record d { saved = a.snapshot }, ok (accepted_with_pending_changes a.snapshot))
    unfolding finish_submit
    finish_submit_pending sub v d a reconciled moved =
        elim (Bool-cases (d.store.state.revision == sub.revision)) [
          | inl same ↦ absurd (moved (ground arith))
          | inr differ ↦ rw (reconciled, differ)
        ]
