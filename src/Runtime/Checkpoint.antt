-- ===== src/Runtime/Checkpoint.antt =====
-- packages/runtime/src/checkpoint.ts, and the checkpoint operations of store.ts. A store's identity
-- is a number.
use effect_state_tree.Base.{
  ℕ, ◌≡◌, refl, sym, ap, ◌∙◌, subst, true, Option, none, some, [], ◌∷◌, ◌==◌, ==_iff, if◌then◌else◌,
  Bool-cases, inl, inr,
}
use effect_state_tree.Base.Result.{
  Result, ok, err, ◌>>=◌, Result-cases, ok-injective, ok-ne-err, >>=-eq-ok,
}
use effect_state_tree.Path.{TreePath}
use effect_state_tree.Snapshot.{Value, object_is}
use effect_state_tree.Snapshot.Read.{get_at_path, PathFailure}
use effect_state_tree.Patch.{replace}
use effect_state_tree.Patch.Observe.{object_is_refl, object_is_sound}
use effect_state_tree.Runtime.{ProposedCommit, ApplyChangeInput}
use effect_state_tree.Runtime.Store.{CommitOptions, StoreState}

pub record TreeCheckpoint : Type 0 where
  pub path : TreePath
  pub revision : ℕ
  pub snapshot : Value
  pub value : Value
  pub store : ℕ

-- `TreeCheckpointError`
pub data CheckpointError : Type 0 where
  store_mismatch : TreePath → CheckpointError
  conflict : TreePath → (expected_revision actual_revision : ℕ) → CheckpointError
  path_failure : PathFailure → CheckpointError

abbrev checkpoint_of : ℕ → StoreState → TreePath → Value → TreeCheckpoint
checkpoint_of store state path value = record {
  path = path;
  revision = state.revision;
  snapshot = state.snapshot;
  value = value;
  store = store;
}

unfoldable pub make_tree_checkpoint : ℕ → StoreState → TreePath → Result PathFailure TreeCheckpoint
make_tree_checkpoint store state path =
    get_at_path state.snapshot path >>= λ value. ok (checkpoint_of store state path value)

abbrev validate_read :
    TreeCheckpoint → ProposedCommit → Result PathFailure Value → Result CheckpointError (Unit {0})
validate_read c p (err e) = err (path_failure e)
validate_read c p (ok current) =
    if object_is current c.value then ok tt else err (conflict c.path c.revision p.revision_before)

unfoldable pub validate_tree_checkpoint :
    ℕ → TreeCheckpoint → ProposedCommit → Result CheckpointError (Unit {0})
validate_tree_checkpoint store c p =
    if c.store == store
    then validate_read c p (get_at_path p.before c.path)
    else err (store_mismatch c.path)

-- A failure of the checkpoint, or of the guard that the caller gave.
pub data CheckedError (E : Type 0) : Type 0 where
  checkpoint_error : CheckpointError → CheckedError E
  caller_error : E → CheckedError E

abbrev then_guard :
    {E : Type 0}
    → Result CheckpointError (Unit {0})
    → Option (ProposedCommit → Option E)
    → ProposedCommit
    → Option (CheckedError E)
then_guard (err e) guard p = some (checkpoint_error e)
then_guard (ok _) none p = none
then_guard (ok _) (some guard) p = elim (guard p) [ none ↦ none | some e ↦ some (caller_error e) ]

-- `checkpointOptions`
unfoldable pub checkpoint_options :
    {E : Type 0} → ℕ → TreeCheckpoint → CommitOptions E → CommitOptions (CheckedError E)
checkpoint_options store c opts = record {
  tags = opts.tags;
  label = opts.label;
  source = opts.source;
  guard = some (λ p. then_guard (validate_tree_checkpoint store c p) opts.guard p);
  guard_no_change = true;
}

-- The change of `replaceAtCheckpoint`
unfoldable pub replacement : TreeCheckpoint → Value → ApplyChangeInput
replacement c v = record {
  patches = record { forward = replace c.path v ∷ []; inverse = [] };
  operations = none;
  inverse_operations = none;
}

-- A proposal passes a checkpoint exactly if the checkpoint is of the same store and the value that
-- it protects still stands at its path in the snapshot that the proposal starts from.
pub validate_tree_checkpoint_iff :
    (store : ℕ) (c : TreeCheckpoint) (p : ProposedCommit)
    → ((validate_tree_checkpoint store c p ≡ ok tt)
        → (c.store ≡ store) × (get_at_path p.before c.path ≡ ok c.value))
      × ((c.store ≡ store)
          → get_at_path p.before c.path ≡ ok c.value
          → validate_tree_checkpoint store c p ≡ ok tt)
unfolding validate_tree_checkpoint
validate_tree_checkpoint_iff store c p = (
  λ h. elim (Bool-cases (c.store == store)) [
    | inr other ↦ absurd (ok-ne-err (sym (rw other at h)))
    | inl same ↦ elim (Result-cases (get_at_path p.before c.path)) [
      | inr (e, failed) ↦ absurd (ok-ne-err (sym (rw (same, failed) at h)))
      | inl (v, found) ↦ elim (Bool-cases (object_is v c.value)) [
        | inl kept ↦ ((==_iff _ _).0 same, found ∙ ap ok (object_is_sound v c.value kept))
        | inr lost ↦ absurd (ok-ne-err (sym (rw (same, found, lost) at h)))
      ]
    ]
  ],
  λ same found. rw ((==_iff c.store store).1 same, found, object_is_refl c.value) refl,
)

-- A checkpoint taken from a store's state passes for every proposal that starts from that state.
checkpoint_current :
    (store : ℕ) (state : StoreState) (path : TreePath) (p : ProposedCommit) {c : TreeCheckpoint}
    → make_tree_checkpoint store state path ≡ ok c
    → p.before ≡ state.snapshot
    → validate_tree_checkpoint store c p ≡ ok tt
unfolding make_tree_checkpoint
checkpoint_current store state path p {c} h e =
    let (v, found, made) = >>=-eq-ok (get_at_path state.snapshot path) _ h in
    subst (λ x. validate_tree_checkpoint store x p ≡ ok tt) (ok-injective made)
      ((validate_tree_checkpoint_iff store (checkpoint_of store state path v) p).1 refl
        (subst (λ x. get_at_path x path ≡ ok v) (sym e) found))
