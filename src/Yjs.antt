-- ===== src/Yjs.antt =====
-- packages/yjs/src/yjs.ts: whether the patches of a commit, or its operations, may be planned before
-- any of them is carried out. `samePath` is `isEqual` of es-toolkit, a parameter.
pub mod Pairs
pub mod Stable
use effect_state_tree.Base.{
  ℕ, ◌+◌, ◌==◌, Bool, true, false, not, ◌&&◌, ◌||◌, List, [], ◌∷◌, ◌++◌, init, if◌then◌else◌,
}
use effect_state_tree.Path.{TreePath, key, is_path_prefix}
use effect_state_tree.Patch.{TreePatch, path_of}
use effect_state_tree.Runtime.{
  SemanticOperation, object_set, object_delete, array_splice, array_move, text_insert, text_delete,
}

-- The two loops over the pairs of different indexes, with the test in their body.
module _ {A : Type 0} (disturbs : A → A → Bool) where
  unfoldable pub disturbs_other : A → ℕ → List A → ℕ → Bool
  disturbs_other left left_index [] right_index = false
  disturbs_other left left_index (right ∷ more) right_index =
      let rest = disturbs_other left left_index more (right_index + 1) in
      if left_index == right_index then rest else disturbs left right || rest

  unfoldable pub any_disturbs : List A → ℕ → List A → Bool
  unfolding disturbs_other
  any_disturbs all left_index [] = false
  any_disturbs all left_index (left ∷ more) =
      disturbs_other left left_index all 0 || any_disturbs all (left_index + 1) more

module _ (same_path : TreePath → TreePath → Bool) where
  abbrev pub disturbs_parent : TreePatch → TreePatch → Bool
  disturbs_parent left right =
      same_path (path_of left) (init (path_of right))
      || is_path_prefix (path_of left) (init (path_of right))

  unfoldable pub has_unstable_patch_targets : List TreePatch → Bool
  unfolding any_disturbs is_path_prefix
  has_unstable_patch_targets patches = any_disturbs disturbs_parent patches 0 patches

abbrev pub operation_target_path : SemanticOperation → TreePath
operation_target_path (object_set p k v w had) = p
operation_target_path (object_delete p k w) = p
operation_target_path (array_splice p i n vs ws) = p
operation_target_path (array_move p i j n ids) = p
operation_target_path (text_insert p i t) = p
operation_target_path (text_delete p i t) = p

abbrev pub operation_modified_path : SemanticOperation → TreePath
operation_modified_path (object_set p k v w had) = p ++ key k ∷ []
operation_modified_path (object_delete p k w) = p ++ key k ∷ []
operation_modified_path (array_splice p i n vs ws) = p
operation_modified_path (array_move p i j n ids) = p
operation_modified_path (text_insert p i t) = p
operation_modified_path (text_delete p i t) = p

abbrev pub is_array_change : SemanticOperation → Bool
is_array_change (array_splice p i n vs ws) = true
is_array_change (array_move p i j n ids) = true
is_array_change o = false

-- Where one operation modifies the very target of another.
abbrev pub disturbs_same : SemanticOperation → SemanticOperation → Bool
disturbs_same (object_set p k v w had) right = true
disturbs_same (object_delete p k w) right = true
disturbs_same (array_splice p i n vs ws) right = is_array_change right
disturbs_same left right = false

module _ (same_path : TreePath → TreePath → Bool) where
  abbrev pub disturbs_target : SemanticOperation → SemanticOperation → Bool
  disturbs_target left right =
      if same_path (operation_modified_path left) (operation_target_path right)
      then disturbs_same left right
      else is_path_prefix (operation_modified_path left) (operation_target_path right)
        || (is_array_change left
            && is_path_prefix (operation_target_path left) (operation_target_path right)
            && not (same_path (operation_target_path left) (operation_target_path right)))

  unfoldable pub has_unstable_operation_targets : List SemanticOperation → Bool
  unfolding any_disturbs is_path_prefix
  has_unstable_operation_targets operations = any_disturbs disturbs_target operations 0 operations
