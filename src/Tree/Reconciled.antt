-- ===== src/Tree/Reconciled.antt =====
-- packages/core/src/reconcile.ts: `reconcile`, the patches that lead to an incoming snapshot.
pub mod Incoming
use effect_state_tree.Base.{
  ℕ, ◌≡◌, refl, sym, subst, Bool, true, false, ◌||◌, Option, none, some, List, [], ◌∷◌, All, any,
  init,
}
use effect_state_tree.Base.Text.{Text, codes}
use effect_state_tree.Base.Result.{Result, ok, err, ◌>>=◌, ok-injective, >>=-eq-ok}
use effect_state_tree.Path.{TreePath}
use effect_state_tree.Snapshot.{Value, Options}
use effect_state_tree.Snapshot.Capture.{capture_snapshot}
use effect_state_tree.Patch.{TreePatch, replace, path_of}
use effect_state_tree.Patch.Batch.{AppliedPatches, apply_patches}
use effect_state_tree.Patch.Diff.{diff_patches, diff_patch_set}
use effect_state_tree.Identity.{
  EntityAnnotation, EntityIndex, Visit, build_entity_index, identity_at,
}
use effect_state_tree.Identity.Index.{IsLocated, build_entity_index-IsLocated}
use effect_state_tree.Reconcile.{changed_identity, root_identity_changed, reconcile_value}
use effect_state_tree.Reconcile.Contains.{Contains}
use effect_state_tree.Reconcile.Incoming.{reconcile_value-Contains}
use effect_state_tree.Validation.{Issue}
use effect_state_tree.Tree.{
  Descent, atomic_descent, ambiguous_union_descent, unsupported_structural_transformation,
  other_reason, TreeError, snapshot_refused, schema_refused, index_refused, patch_refused,
  invalid_entity, refuse, type_of,
}
use effect_state_tree.Tree.Admitted.{refuse-eq-ok}

-- A failure of `resolveSchemaPath` at a node that patches cannot enter.
abbrev is_opaque : Option Descent → Bool
is_opaque none = false
is_opaque (some atomic_descent) = true
is_opaque (some ambiguous_union_descent) = true
is_opaque (some unsupported_structural_transformation) = true
is_opaque (some other_reason) = false

module _ (uniq : List Text → List Text) (opts : Options) (number_text : ℕ → Text)
    (encode : Text → Text) (annotation_at : Value → TreePath → Option EntityAnnotation)
    (is_atomic : Value → TreePath → Bool) (descent : Value → TreePath → Option Descent)
    (decode : Value → Result Issue (Unit {0})) (visits : Value → List Visit) where
  -- A patch below the root, where the container it changes is another entity afterwards.
  abbrev pub replaces_identity : Value → Value → TreePath → Bool
  replaces_identity current reconciled [] = false
  replaces_identity current reconciled (s ∷ path) =
      changed_identity (identity_at number_text annotation_at current (init (s ∷ path)))
        (identity_at number_text annotation_at reconciled (init (s ∷ path)))

  unfoldable pub needs_replacement : Value → Value → List TreePatch → Bool
  unfolding identity_at
  needs_replacement current reconciled patches =
      any (λ p. replaces_identity current reconciled (path_of p)) patches
      || any (λ p. is_opaque (descent current (path_of p))) patches

  abbrev pub refuse_change : Bool → Value → Result TreeError (Unit {0})
  refuse_change false current = ok tt
  refuse_change true current =
      err (invalid_entity (type_of (annotation_at current [])) (codes "<root>") [])

  abbrev pub install : Bool → Value → Value → AppliedPatches → Result TreeError AppliedPatches
  install false current reconciled difference = ok (record difference { snapshot = reconciled })
  install true current reconciled difference =
      refuse patch_refused (apply_patches opts difference.next current (replace [] reconciled ∷ []))
      >>= λ applied. ok (record applied { snapshot = reconciled })

  abbrev pub settle : Value → Value → ℕ → Result TreeError AppliedPatches
  settle current reconciled next =
      refuse index_refused (build_entity_index number_text encode [] (visits reconciled)) >>= λ _.
      refuse schema_refused (decode reconciled) >>= λ _.
      refuse patch_refused (diff_patch_set uniq opts next current reconciled) >>= λ difference.
      install (needs_replacement current reconciled difference.patch_set.forward) current reconciled
        difference

  abbrev pub merged : Value → Value → ℕ → Value × ℕ
  merged current admitted next =
      reconcile_value opts encode (identity_at number_text annotation_at) is_atomic current admitted
        current admitted [] next

  unfoldable pub reconcile : ℕ → Value → Value → Result TreeError AppliedPatches
  unfolding capture_snapshot root_identity_changed identity_at reconcile_value build_entity_index
      diff_patch_set apply_patches needs_replacement
  reconcile next current incoming =
      refuse snapshot_refused (capture_snapshot incoming opts next) >>= λ (admitted, n).
      refuse_change (root_identity_changed (identity_at number_text annotation_at) current admitted)
        current
      >>= λ _. settle current (merged current admitted n).0 (merged current admitted n).1
