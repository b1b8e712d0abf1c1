-- ===== src/Draft.antt =====
-- packages/draft/src/draft.ts: a working tree with a saved checkpoint. A commit of the store is one
-- attempt of Runtime/Store.antt, followed by what the store's listeners do while they are notified.
-- The decoder, the reconciliation and the application of patches, all under the Schema, are
-- parameters; what happens while a request is under way is the change of state between the two parts
-- of `submit`.
pub mod Sync
use effect_state_tree.Base.{
  ℕ, ◌==◌, Bool, true, false, not, Option, none, some, List, [], ◌∷◌, if◌then◌else◌,
}
use effect_state_tree.Base.Text.{Text, codes}
use effect_state_tree.Base.Result.{Result, ok, err, ◌>>=◌}
use effect_state_tree.Snapshot.{Value, Options, deep_equal}
use effect_state_tree.Patch.{TreePatch}
use effect_state_tree.Patch.Batch.{AppliedPatches}
use effect_state_tree.Runtime.{CommitInfo, ProducedChange, ProposedCommit}
use effect_state_tree.Runtime.Store.{
  StoreState, Store, CommitOptions, CommitResult, no_change, committed, CommitError, build_error,
  guard_error, store_shutdown, Outcome, retry, result, read_phase, write_phase, build_apply,
  build_replace, is_empty, commit_info,
}
use effect_state_tree.Validation.{Issue, Report, validate_tree}

abbrev pub draft_reset_tag : Text
draft_reset_tag = codes "draft.reset"

abbrev pub draft_accepted_tag : Text
draft_accepted_tag = codes "draft.accepted"

abbrev pub draft_refreshed_tag : Text
draft_refreshed_tag = codes "draft.refreshed"

-- The store `data` and the variable `saved`.
pub record Draft : Type 0 where
  pub store : Store
  pub saved : Value

pub data DraftError (E : Type 0) : Type 0 where
  draft_dirty draft_shutdown : DraftError E
  draft_invalid : Report → DraftError E
  patch_error : E → DraftError E

pub data Synchronized : Type 0 where
  accepted accepted_with_pending_changes : (authoritative : Value) → Synchronized

-- `DraftSubmissionContext`
pub record Submission (T : Type 0) : Type 0 where
  pub submitted : T
  pub working : Value
  pub saved_at_request : Value
  pub revision : ℕ

unfoldable pub is_dirty : Options → Draft → Bool
unfolding deep_equal
is_dirty opts d = not (deep_equal opts d.store.state.snapshot d.saved)

-- `DraftRevisionConflict`, raised by the guard of a commit.
abbrev pub Conflict : Type 0
Conflict = Unit {0}

abbrev pub same_revision : ℕ → ProposedCommit → Option Conflict
same_revision revision p = if p.revision_before == revision then none else some tt

abbrev pub draft_options :
    Text → Text → Option (ProposedCommit → Option Conflict) → CommitOptions Conflict
draft_options label tag guard = record {
  tags = tag ∷ [];
  label = some label;
  source = none;
  guard = guard;
  guard_no_change = false;
}

-- A listener runs after a commit only. An attempt that would be made again finds another revision,
-- which the guard rejects.
abbrev pub notified :
    {E : Type 0}
    → (Store → Store)
    → Store × Outcome E Conflict
    → Store × Result (CommitError E Conflict) CommitResult
notified listeners (s, result (ok (committed e))) = (listeners s, ok (committed e))
notified listeners (s, result (ok (no_change revision v))) = (s, ok (no_change revision v))
notified listeners (s, result (err failure)) = (s, err failure)
notified listeners (s, retry) = (s, err (guard_error tt))

abbrev pub fresh_info : CommitInfo
fresh_info = record { tags = []; label = none; source = none; action = none }

module _ {E T : Type 0} (opts : Options) (decode : Value → Result Issue T)
    (reconcile : Value → Value → Result E AppliedPatches)
    (apply_tree_patches : Value → List TreePatch → Result E AppliedPatches)
    (listeners : Store → Store) (transaction_id : Text) (now : ℕ) where
  unfoldable pub commit_to :
      (StoreState → Result E ProducedChange)
      → CommitOptions Conflict
      → Store
      → Store × Result (CommitError E Conflict) CommitResult
  unfolding read_phase write_phase commit_info
  commit_to build options s = notified listeners (
      write_phase (read_phase build options (commit_info fresh_info options) transaction_id s) now
        s)

  -- `requireValid`
  abbrev pub checked : Value → ℕ → Result Issue T → Result (DraftError E) T
  checked v revision (ok t) = ok t
  checked v revision (err issue) = err (draft_invalid (validate_tree decode v revision))

  unfoldable pub require_valid : Value → ℕ → Result (DraftError E) T
  unfolding validate_tree
  require_valid v revision = checked v revision (decode v)

  abbrev pub patch_errors : {A : Type 0} → Result E A → Result (DraftError E) A
  patch_errors (ok a) = ok a
  patch_errors (err e) = err (patch_error e)

  unfoldable pub reconcile_authoritative : Value → Value → ℕ → Result (DraftError E) AppliedPatches
  unfolding require_valid
  reconcile_authoritative base authoritative revision =
      require_valid authoritative revision >>= λ _. patch_errors (reconcile base authoritative)

  abbrev pub replaced :
      Value
      → Store × Result (CommitError E Conflict) CommitResult
      → Draft × Result (CommitError E Conflict) CommitResult
  replaced saved (s, ok r) = (record { store = s; saved = s.state.snapshot }, ok r)
  replaced saved (s, err failure) = (record { store = s; saved = saved }, err failure)

  unfoldable pub reset : Draft → Draft × Result (CommitError E Conflict) CommitResult
  unfolding commit_to build_replace
  reset d = replaced d.saved (
      commit_to (build_replace reconcile d.saved)
        (draft_options (codes "Reset draft to saved checkpoint") draft_reset_tag none) d.store)

  -- The builder of `data.apply` for a reconciled snapshot.
  abbrev pub install :
      AppliedPatches
      → Text
      → Text
      → ℕ
      → Store
      → Store × Result (CommitError E Conflict) CommitResult
  install reconciled label tag revision s =
      commit_to
        (build_apply apply_tree_patches
          (record { patches = reconciled.patch_set; operations = none; inverse_operations = none }))
        (draft_options label tag (some (same_revision revision))) s

  abbrev pub refresh_error : CommitError E Conflict → DraftError E
  refresh_error (build_error e) = patch_error e
  refresh_error (guard_error c) = draft_dirty
  refresh_error store_shutdown = draft_shutdown

  abbrev pub refreshed :
      Value
      → Store × Result (CommitError E Conflict) CommitResult
      → Draft × Result (DraftError E) CommitResult
  refreshed saved (s, ok r) = (record { store = s; saved = s.state.snapshot }, ok r)
  refreshed saved (s, err failure) =
      (record { store = s; saved = saved }, err (refresh_error failure))

  -- Nothing runs between the reads of the revision before and after an empty reconciliation.
  abbrev pub refresh_to :
      Draft → Result (DraftError E) AppliedPatches → Draft × Result (DraftError E) CommitResult
  refresh_to d (err failure) = (d, err failure)
  refresh_to d (ok reconciled) =
      if is_empty reconciled.patch_set.forward
      then (
        record d { saved = reconciled.snapshot },
        ok (no_change d.store.state.revision reconciled.snapshot),
      )
      else refreshed d.saved (
          install reconciled (codes "Install authoritative draft refresh") draft_refreshed_tag
            d.store.state.revision d.store)

  unfoldable pub refresh : Value → Draft → Draft × Result (DraftError E) CommitResult
  unfolding is_dirty reconcile_authoritative commit_to build_apply
  refresh authoritative d =
      if is_dirty opts d
      then (d, err draft_dirty)
      else refresh_to d
          (reconcile_authoritative d.store.state.snapshot authoritative d.store.state.revision)

  -- `submit` up to its request.
  unfoldable pub begin_submit : Draft → Result (DraftError E) (Submission T)
  unfolding require_valid
  begin_submit d = require_valid d.store.state.snapshot d.store.state.revision >>= λ t. ok (record {
    submitted = t;
    working = d.store.state.snapshot;
    saved_at_request = d.saved;
    revision = d.store.state.revision;
  })

  module _ {F : Type 0} (authoritative_failure : F → Option Value) where
    -- A failure of the request, or of the draft.
    abbrev pub Failure : Type 0
    Failure = Result F (DraftError E)

    abbrev pub failed_with :
        Draft → F → Result (DraftError E) AppliedPatches → Draft × Result Failure Synchronized
    failed_with d f (ok reconciled) = (record d { saved = reconciled.snapshot }, err (err f))
    failed_with d f (err failure) = (d, err (ok failure))

    abbrev pub request_failed :
        Submission T → Draft → F → Option Value → Draft × Result Failure Synchronized
    request_failed sub d f none = (d, err (err f))
    request_failed sub d f (some v) =
        failed_with d f (reconcile_authoritative sub.working v sub.revision)

    abbrev pub installed :
        Draft
        → Value
        → Store × Result (CommitError E Conflict) CommitResult
        → Draft × Result Failure Synchronized
    installed d authoritative (s, ok r) =
        (record { store = s; saved = s.state.snapshot }, ok (accepted s.state.snapshot))
    installed d authoritative (s, err (guard_error c)) = (
      record { store = s; saved = authoritative },
      ok (accepted_with_pending_changes authoritative),
    )
    installed d authoritative (s, err (build_error e)) =
        (record d { store = s }, err (ok (patch_error e)))
    installed d authoritative (s, err store_shutdown) =
        (record d { store = s }, err (ok draft_shutdown))

    abbrev pub accept :
        Submission T
        → Draft
        → Result (DraftError E) AppliedPatches
        → Draft × Result Failure Synchronized
    accept sub d (err failure) = (d, err (ok failure))
    accept sub d (ok reconciled) =
        if not (d.store.state.revision == sub.revision)
        then (
          record d { saved = reconciled.snapshot },
          ok (accepted_with_pending_changes reconciled.snapshot),
        )
        else if is_empty reconciled.patch_set.forward
        then (record d { saved = reconciled.snapshot }, ok (accepted reconciled.snapshot))
        else installed d reconciled.snapshot (
            install reconciled (codes "Install accepted authoritative draft") draft_accepted_tag
              sub.revision d.store)

    -- `submit` after its request, in the state of that time.
    unfoldable pub finish_submit :
        Submission T → Result F Value → Draft → Draft × Result Failure Synchronized
    unfolding reconcile_authoritative commit_to build_apply
    finish_submit sub (err f) d = request_failed sub d f (authoritative_failure f)
    finish_submit sub (ok authoritative) d =
        accept sub d (reconcile_authoritative sub.working authoritative sub.revision)
