-- ===== src/Tree.antt =====
-- packages/core/src/tree.ts: admission of snapshots and patches under a Schema. The Schema is given
-- by parameters: the entity annotation at a path, whether a path can be entered, the strict decoder,
-- and the order in which `walkSchemaValue` visits a snapshot.
pub mod Admitted
pub mod Reconciled
use effect_state_tree.Base.{
  ℕ, Bool, true, false, Option, none, some, List, [], ◌∷◌, init, last?, if◌then◌else◌,
}
use effect_state_tree.Base.Text.{Text, text_eq, codes}
use effect_state_tree.Base.Result.{Result, ok, err, ◌>>=◌}
use effect_state_tree.Path.{Segment, TreePath, key, index, other}
use effect_state_tree.Path.Decimal.{print}
use effect_state_tree.Path.Pointer.{segment_text}
use effect_state_tree.Snapshot.{Value, Options}
use effect_state_tree.Snapshot.Admission.{SnapshotError, validate_snapshot_shape}
use effect_state_tree.Snapshot.Capture.{capture_snapshot}
use effect_state_tree.Patch.{TreePatch, PatchError, path_of}
use effect_state_tree.Patch.Batch.{AppliedPatches, apply_patches}
use effect_state_tree.Identity.{
  EntityAnnotation, EntityIndex, IndexError, Visit, build_entity_index, identity_at,
}
use effect_state_tree.Reconcile.{root_identity_changed}
use effect_state_tree.Validation.{Issue}

-- Why `resolveSchemaPath` does not reach a path, as far as it matters here.
pub data Descent : Type 0 where
  atomic_descent ambiguous_union_descent unsupported_structural_transformation other_reason :
      Descent

pub data UnsupportedReason : Type 0 where
  atomic ambiguous_union structural_transformation : UnsupportedReason

-- `TreePatchError`, which has the errors of `TreeInvariantError` too.
pub data TreeError : Type 0 where
  snapshot_refused : SnapshotError → TreeError
  schema_refused : Issue → TreeError
  index_refused : IndexError → TreeError
  patch_refused : PatchError → TreeError
  unsupported_node : TreePath → UnsupportedReason → TreeError
  invalid_entity : (entity_type : Option Text) → (id_key : Text) → TreePath → TreeError

-- `AdmittedTree`
pub record AdmittedTree : Type 0 where
  pub snapshot : Value
  pub entities : EntityIndex

-- A failure of one step as a failure of the tree.
abbrev pub refuse : {E A : Type 0} → (E → TreeError) → Result E A → Result TreeError A
refuse f (ok a) = ok a
refuse f (err e) = err (f e)

-- The annotated id of the parent is the last segment of the path.
abbrev pub is_id : Option EntityAnnotation → Option Segment → Bool
is_id (some a) (some (key k)) = text_eq k a.id
is_id a s = false

abbrev pub unsupported : TreePath → Option Descent → Result TreeError (Unit {0})
unsupported path none = ok tt
unsupported path (some atomic_descent) = err (unsupported_node path atomic)
unsupported path (some ambiguous_union_descent) = err (unsupported_node path ambiguous_union)
unsupported path (some unsupported_structural_transformation) =
    err (unsupported_node path structural_transformation)
unsupported path (some other_reason) = ok tt

abbrev pub type_of : Option EntityAnnotation → Option Text
type_of none = none
type_of (some a) = some a.type

abbrev pub id_of : Option EntityAnnotation → Text
id_of none = codes "<root>"
id_of (some a) = a.id

abbrev pub last_text : Option Segment → Text
last_text none = codes "undefined"
last_text (some s) = segment_text s

module _ (opts : Options) (number_text : ℕ → Text) (encode : Text → Text)
    (annotation_at : Value → TreePath → Option EntityAnnotation)
    (descent : Value → TreePath → Option Descent) (decode : Value → Result Issue (Unit {0}))
    (visits : Value → List Visit) where
  unfoldable pub validate_tree_snapshot : Value → Result TreeError EntityIndex
  unfolding validate_snapshot_shape build_entity_index
  validate_tree_snapshot snapshot =
      refuse snapshot_refused (validate_snapshot_shape snapshot opts) >>= λ _.
      refuse schema_refused (decode snapshot) >>= λ _.
      refuse index_refused (build_entity_index number_text encode [] (visits snapshot))

  unfoldable pub capture_tree_snapshot : Value → ℕ → Result TreeError (AdmittedTree × ℕ)
  unfolding capture_snapshot validate_tree_snapshot
  capture_tree_snapshot v next =
      refuse snapshot_refused (capture_snapshot v opts next) >>= λ (snapshot, n).
      validate_tree_snapshot snapshot >>= λ entities.
      ok (record { snapshot = snapshot; entities = entities }, n)

  unfoldable pub changes_entity_id : Value → TreePath → Bool
  changes_entity_id snapshot path = is_id (annotation_at snapshot (init path)) (last? path)

  abbrev pub refuse_id : Bool → Value → TreePath → Result TreeError (Unit {0})
  refuse_id false snapshot path = ok tt
  refuse_id true snapshot path = err (
      invalid_entity (type_of (annotation_at snapshot (init path))) (last_text (last? path))
        (init path))

  -- The loop over the patches, before any is applied.
  unfoldable pub check_patches : Value → List TreePatch → Result TreeError (Unit {0})
  unfolding changes_entity_id segment_text
  check_patches snapshot [] = ok tt
  check_patches snapshot (p ∷ ps) = unsupported (path_of p) (descent snapshot (path_of p)) >>= λ _.
      refuse_id (changes_entity_id snapshot (path_of p)) snapshot (path_of p) >>= λ _.
      check_patches snapshot ps

  abbrev pub refuse_root : Bool → Value → Result TreeError (Unit {0})
  refuse_root false snapshot = ok tt
  refuse_root true snapshot =
      err (
        invalid_entity (type_of (annotation_at snapshot [])) (id_of (annotation_at snapshot [])) [])

  unfoldable pub apply_tree_patches : ℕ → Value → List TreePatch → Result TreeError AppliedPatches
  unfolding check_patches apply_patches root_identity_changed identity_at validate_tree_snapshot
  apply_tree_patches next snapshot patches = check_patches snapshot patches >>= λ _.
      refuse patch_refused (apply_patches opts next snapshot patches) >>= λ applied.
      refuse_root
        (root_identity_changed (identity_at number_text annotation_at) snapshot applied.snapshot)
        snapshot
      >>= λ _. validate_tree_snapshot applied.snapshot >>= λ _. ok applied
