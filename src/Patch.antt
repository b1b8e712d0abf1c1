-- ===== src/Patch.antt =====
-- packages/core/src/patch.ts: patches, their application and their inverses. A value is never
-- mutated; `next` counts the references of new containers.
pub mod Observe
pub mod Undo
pub mod UndoLeaf
pub mod UndoContainer
pub mod Child
pub mod Batch
pub mod Diff
use effect_state_tree.Base.{
  ℕ, suc, ◌+◌, ◌-◌, Bool, true, false, not, ◌&&◌, Option, none, some, List, [], ◌∷◌, ◌++◌, length,
  ltb, if◌then◌else◌,
}
use effect_state_tree.Base.Text.{Text}
use effect_state_tree.Base.Result.{Result, ok, err, ◌>>=◌}
use effect_state_tree.Path.{Segment, TreePath, key, index, other}
use effect_state_tree.Snapshot.{
  Value, Items, Fields, Header, Options, leaf, opaque, arr, obj, undefined, object_is, deep_equal,
  lookup, count_items,
}
use effect_state_tree.Snapshot.Container.{item, set_item, insert_item, remove_item, define, delete}
use effect_state_tree.Snapshot.Admission.{SnapshotError}
use effect_state_tree.Snapshot.Capture.{fresh}
use effect_state_tree.Snapshot.Read.{is_valid_array_index}

pub data TreePatch : Type 0 where
  add : TreePath → Value → TreePatch
  remove : TreePath → TreePatch
  replace : TreePath → Value → TreePatch

abbrev pub path_of : TreePatch → TreePath
path_of (add p v) = p
path_of (remove p) = p
path_of (replace p v) = p

-- `patch.op === 'remove' ? undefined : patch.value`
abbrev pub value_of : TreePatch → Value
value_of (add p v) = v
value_of (remove p) = leaf undefined
value_of (replace p v) = v

pub record PatchSet : Type 0 where
  pub forward : List TreePatch
  pub inverse : List TreePatch

pub data PathReason : Type 0 where
  invalid_array_index invalid_object_key missing not_a_container : PathReason

pub data PatchReason : Type 0 where
  cannot_remove_root target_missing : PatchReason

-- `TreePatchError`, as far as patches give it; `invalid_patch` names the patch for its operation.
pub data PatchError : Type 0 where
  invalid_path : TreePath → ℕ → PathReason → PatchError
  invalid_patch : TreePatch → PatchReason → PatchError
  snapshot_error : SnapshotError → PatchError

pub record AppliedOne : Type 0 where
  pub snapshot : Value
  pub inverse : TreePatch
  pub next : ℕ

abbrev applied : Value → TreePatch → ℕ → Result PatchError AppliedOne
applied v inverse next = ok (record { snapshot = v; inverse = inverse; next = next })

unfoldable pub apply_at_target : Options → TreePatch → ℕ → Value → Result PatchError AppliedOne
unfolding deep_equal
apply_at_target opts (remove p) next current = err (invalid_patch (remove p) cannot_remove_root)
apply_at_target opts (add p v) next current =
    if deep_equal opts current v
    then applied current (replace [] current) next
    else applied v (replace [] current) next
apply_at_target opts (replace p v) next current =
    if deep_equal opts current v
    then applied current (replace [] current) next
    else applied v (replace [] current) next

abbrev last_index : TreePatch → ℕ
last_index p = length (path_of p) - 1

-- The array part of `applyToContainer`, at a valid index; `old` is the element there.
unfoldable pub apply_to_array :
    Options → TreePatch → ℕ → Header → Items → ℕ → Option Value → Result PatchError AppliedOne
apply_to_array opts (add p v) next h xs i old =
    if ltb (count_items xs) i
    then err (invalid_path p (last_index (add p v)) missing)
    else applied (arr (fresh next) (insert_item i v xs)) (remove p) (suc next)
apply_to_array opts (remove p) next h xs i none = err (invalid_patch (remove p) target_missing)
apply_to_array opts (remove p) next h xs i (some old) =
    applied (arr (fresh next) (remove_item i xs)) (add p old) (suc next)
apply_to_array opts (replace p v) next h xs i none =
    err (invalid_patch (replace p v) target_missing)
apply_to_array opts (replace p v) next h xs i (some old) =
    if deep_equal opts old v
    then applied (arr h xs) (replace p old) next
    else applied (arr (fresh next) (set_item i v xs)) (replace p old) (suc next)

-- The object part of `applyToContainer`; `old` is the property's value.
unfoldable pub apply_to_object :
    Options
    → TreePatch
    → ℕ
    → Header
    → Bool
    → Fields
    → Text
    → Option Value
    → Result PatchError AppliedOne
apply_to_object opts (add p v) next h symbols fs k none =
    applied (obj (fresh next) false (define k v fs)) (remove p) (suc next)
apply_to_object opts (add p v) next h symbols fs k (some old) =
    if deep_equal opts old v
    then applied (obj h symbols fs) (replace p old) next
    else applied (obj (fresh next) false (define k v fs)) (replace p old) (suc next)
apply_to_object opts (remove p) next h symbols fs k none =
    err (invalid_patch (remove p) target_missing)
apply_to_object opts (remove p) next h symbols fs k (some old) =
    applied (obj (fresh next) false (delete k fs)) (add p old) (suc next)
apply_to_object opts (replace p v) next h symbols fs k none =
    err (invalid_patch (replace p v) target_missing)
apply_to_object opts (replace p v) next h symbols fs k (some old) =
    if deep_equal opts old v
    then applied (obj h symbols fs) (replace p old) next
    else applied (obj (fresh next) false (define k v fs)) (replace p old) (suc next)

unfoldable pub apply_to_container :
    Options → TreePatch → ℕ → Value → Segment → Result PatchError AppliedOne
unfolding apply_to_array apply_to_object
apply_to_container opts p next (arr h xs) (index i) =
    if is_valid_array_index (index i)
    then apply_to_array opts p next h xs i (item i xs)
    else err (invalid_path (path_of p) (last_index p) invalid_array_index)
apply_to_container opts p next (arr h xs) s =
    err (invalid_path (path_of p) (last_index p) invalid_array_index)
apply_to_container opts p next (obj h symbols fs) (key k) =
    apply_to_object opts p next h symbols fs k (lookup k fs)
apply_to_container opts p next (obj h symbols fs) s =
    err (invalid_path (path_of p) (last_index p) invalid_object_key)
apply_to_container opts p next v s = err (invalid_path (path_of p) (last_index p) not_a_container)

-- The child that `descend` goes on with, or why there is none.
unfoldable pub enter : Value → Segment → Result PathReason Value
enter (arr h xs) (index i) =
    if is_valid_array_index (index i)
    then elim (item i xs) [ none ↦ err missing | some v ↦ ok v ]
    else err invalid_array_index
enter (arr h xs) s = err invalid_array_index
enter (obj h symbols fs) (key k) = elim (lookup k fs) [ none ↦ err missing | some v ↦ ok v ]
enter (obj h symbols fs) s = err invalid_object_key
enter v s = err not_a_container

-- A copy of the container with the changed child.
unfoldable pub with_child : ℕ → Value → Segment → Value → Value
with_child next (arr h xs) (index i) c = arr (fresh next) (set_item i c xs)
with_child next (obj h symbols fs) (key k) c = obj (fresh next) false (define k c fs)
with_child next v s c = v

unfoldable pub rebuild : Value → Segment → Value → AppliedOne → AppliedOne
rebuild current s child r =
    if object_is r.snapshot child
    then record { snapshot = current; inverse = r.inverse; next = r.next }
    else record {
      snapshot = with_child r.next current s r.snapshot;
      inverse = r.inverse;
      next = suc r.next;
    }

abbrev at_depth : TreePatch → ℕ → Result PathReason Value → Result PatchError Value
at_depth p depth (ok v) = ok v
at_depth p depth (err reason) = err (invalid_path (path_of p) depth reason)

-- `descend` of `applyOne`; `depth` segments of the patch's path have been followed.
unfoldable pub descend :
    Options → TreePatch → ℕ → ℕ → Value → TreePath → Result PatchError AppliedOne
descend opts p next depth current [] = apply_at_target opts p next current
descend opts p next depth current (s ∷ []) = apply_to_container opts p next current s
descend opts p next depth current (s ∷ t ∷ rest) = at_depth p depth (enter current s) >>= λ child.
    descend opts p next (depth + 1) child (t ∷ rest) >>= λ r. ok (rebuild current s child r)

unfoldable pub apply_one : Options → TreePatch → ℕ → Value → Result PatchError AppliedOne
unfolding descend apply_at_target apply_to_container enter rebuild with_child
apply_one opts p next root = descend opts p next 0 root (path_of p)
