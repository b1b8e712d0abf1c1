-- ===== src/Examples/TreeExamples.antt =====
-- packages/core/src/{snapshot,patch}.ts at concrete snapshots.
use effect_state_tree.Base.{◌++◌, length, ℕ, ◌≡◌, refl, true, false, [], ◌∷◌, map, reverse}
use effect_state_tree.Base.Text.{codes, text_eq}
use effect_state_tree.Snapshot.Read.{
  is_valid_array_index, PathFailure, missing_segment, follow, get_at_path,
}
use effect_state_tree.Snapshot.ReadLaws.{get_at_path-err}
use effect_state_tree.Snapshot.Container.{item, define, set_item}
use effect_state_tree.Base.Result.{err, ok}
use effect_state_tree.Path.{TreePath, key, index}
use effect_state_tree.Snapshot.{Value, Header, leaf, arr, obj, number, nil, cons, end, field}
use effect_state_tree.Snapshot.Admission.{validate_snapshot_shape, visit}
use effect_state_tree.Snapshot.Capture.{capture_snapshot, clone}
use effect_state_tree.Snapshot.Cloned.{strip}
use effect_state_tree.Snapshot.CaptureLaws.{capture_snapshot_sound, capture_snapshot_twice}
use effect_state_tree.Patch.{TreePatch, replace, path_of, AppliedOne, apply_one}
use effect_state_tree.Patch.UndoLeaf.{IsSkewed, Undone}
use effect_state_tree.Patch.Undo.{undo_apply_one}
use effect_state_tree.Patch.Batch.{AppliedPatches, apply_patches, apply_patches_shape}

abbrev mutable : ℕ → Header
mutable n = record { ref = n; frozen = false }

abbrev frozen : ℕ → Header
frozen n = record { ref = n; frozen = true }

abbrev draft : Value
draft =
    obj (mutable 0) false (field (codes "xs") (arr (mutable 1) (cons (leaf (number 7)) nil)) end)

abbrev tree : Value
tree = obj (frozen 10) false (field (codes "xs") (arr (frozen 11) (cons (leaf (number 7)) nil)) end)

abbrev set_x : TreePatch
set_x = replace (key (codes "xs") ∷ index 0 ∷ []) (leaf (number 8))

captured_twice_example : capture_snapshot tree [] 20 ≡ ok (tree, 20)
unfolding capture_snapshot validate_snapshot_shape visit clone
captured_twice_example = capture_snapshot_twice draft 10 {w = tree} {last = 12} 20 refl

captured_example : (validate_snapshot_shape tree [] ≡ ok tt) × (strip tree ≡ strip draft)
unfolding capture_snapshot validate_snapshot_shape visit clone
captured_example = capture_snapshot_sound draft 10 {w = tree} {last = 12} refl

abbrev changed : Value
changed =
    obj (frozen 13) false (field (codes "xs") (arr (frozen 12) (cons (leaf (number 8)) nil)) end)

abbrev set_result : AppliedOne
set_result = record {
  snapshot = changed;
  inverse = replace (key (codes "xs") ∷ index 0 ∷ []) (leaf (number 7));
  next = 14;
}

undo_example :
    Undone
      (IsSkewed [] set_x set_result.inverse)
      (apply_one [] set_result.inverse 20 set_result.snapshot)
      set_result.snapshot
      tree
unfolding apply_one text_eq is_valid_array_index item define set_item
undo_example = undo_apply_one [] set_x 12 tree {r = set_result} refl 20

abbrev batch : AppliedPatches
batch = record {
  snapshot = changed;
  patch_set = record { forward = set_x ∷ []; inverse = set_result.inverse ∷ [] };
  touched_paths = (key (codes "xs") ∷ index 0 ∷ []) ∷ [];
  next = 14;
}

batch_example :
    (validate_snapshot_shape batch.snapshot [] ≡ ok tt)
    × (batch.touched_paths ≡ map path_of batch.patch_set.forward)
    × (map path_of batch.patch_set.inverse ≡ reverse batch.touched_paths)
unfolding apply_patches capture_snapshot validate_snapshot_shape visit apply_one text_eq
    is_valid_array_index item define set_item
batch_example = apply_patches_shape [] 12 tree (set_x ∷ []) {r = batch} refl

abbrev no_such : PathFailure
no_such = record {
  reason = missing_segment;
  path = key (codes "xs") ∷ index 3 ∷ key (codes "a") ∷ [];
  at = 1;
  segment = index 3;
  traversed = key (codes "xs") ∷ [];
}

unread_example :
    (rest : TreePath) × (v : Value) × (no_such.path ≡ no_such.traversed ++ no_such.segment ∷ rest)
    × (no_such.at ≡ length no_such.traversed)
    × (get_at_path tree no_such.traversed ≡ ok v)
    × (follow v no_such.segment ≡ err no_such.reason)
unfolding get_at_path text_eq item is_valid_array_index
unread_example = get_at_path-err tree no_such.path {e = no_such} refl
