-- ===== src/Examples/YjsExamples.antt =====
-- packages/yjs/src/yjs.ts at two patches and two operations.
use native.Mathlib.Decide.{ℕ_discrete}
use effect_state_tree.Base.{
  ℕ, zero, suc, ◌≡◌, ◌≢◌, ◌↔◌, refl, subst, Bool, true, false, some, List, [], ◌∷◌, ◌++◌, All, init,
  get_elem?, some-injective,
}
use effect_state_tree.Base.Text.{codes}
use effect_state_tree.Path.{TreePath, key}
use effect_state_tree.Path.Prefix.{IsComparable}
use effect_state_tree.Snapshot.{leaf, number}
use effect_state_tree.Patch.{TreePatch, replace, remove, path_of}
use effect_state_tree.Runtime.{SemanticOperation, object_set, object_delete}
use effect_state_tree.Yjs.{
  has_unstable_patch_targets, has_unstable_operation_targets, operation_modified_path,
}
use effect_state_tree.Yjs.Stable.{
  Leaves, has_unstable_patch_targets_iff, has_unstable_operation_targets_iff,
}

abbrev is_yes : {A : Type 0} → Dec A → Bool
is_yes (yes a) = true
is_yes (no n) = false

is_yes_iff : {A : Type 0} (d : Dec A) → (is_yes d ≡ true) ↔ A
is_yes_iff (yes a) = (λ h. a, λ h. refl)
is_yes_iff (no n) = (λ h. absurd (cc h), λ a. absurd (n a))

TreePath-discrete : Discrete TreePath
TreePath-discrete = hlevel ℕ_discrete

unfoldable same_path : TreePath → TreePath → Bool
unfolding TreePath-discrete ℕ_discrete
same_path p q = is_yes (TreePath-discrete p q)

exact : (p q : TreePath) → (same_path p q ≡ true) ↔ (p ≡ q)
unfolding same_path
exact p q = is_yes_iff (TreePath-discrete p q)

abbrev patches : List TreePatch
patches =
    replace (key (codes "a") ∷ key (codes "x") ∷ []) (leaf (number 1))
    ∷ remove (key (codes "b") ∷ key (codes "y") ∷ [])
    ∷ []

patches_plain :
    (i : ℕ) (p : TreePatch) → get_elem? patches i ≡ some p → All IsComparable (path_of p)
patches_plain zero p e =
    subst (λ x. All IsComparable (path_of x)) (some-injective e) (λ h. cc h, (λ h. cc h, tt))
patches_plain (suc zero) p e =
    subst (λ x. All IsComparable (path_of x)) (some-injective e) (λ h. cc h, (λ h. cc h, tt))
patches_plain (suc (suc i)) p e = cc

stable_patches_example : (has_unstable_patch_targets same_path patches ≡ false) ↔ (
    (i j : ℕ) (l r : TreePatch)
    → i ≢ j
    → get_elem? patches i ≡ some l
    → get_elem? patches j ≡ some r
    → ¬ ((rest : TreePath) × (init (path_of r) ≡ path_of l ++ rest)))
stable_patches_example = has_unstable_patch_targets_iff same_path exact patches patches_plain

abbrev set_x : SemanticOperation
set_x = object_set (key (codes "a") ∷ []) (codes "x") (leaf (number 1)) (leaf (number 0)) true

abbrev delete_y : SemanticOperation
delete_y = object_delete (key (codes "a") ∷ []) (codes "y") (leaf (number 0))

abbrev operations : List SemanticOperation
operations = set_x ∷ delete_y ∷ []

operations_plain :
    (i : ℕ) (o : SemanticOperation)
    → get_elem? operations i ≡ some o
    → All IsComparable (operation_modified_path o)
operations_plain zero p e =
    subst (λ x. All IsComparable (operation_modified_path x)) (some-injective e)
      (λ h. cc h, (λ h. cc h, tt))
operations_plain (suc zero) p e =
    subst (λ x. All IsComparable (operation_modified_path x)) (some-injective e)
      (λ h. cc h, (λ h. cc h, tt))
operations_plain (suc (suc i)) p e = cc

stable_operations_example : (has_unstable_operation_targets same_path operations ≡ false) ↔ (
    (i j : ℕ) (l r : SemanticOperation)
    → i ≢ j
    → get_elem? operations i ≡ some l
    → get_elem? operations j ≡ some r
    → Leaves same_path exact l r)
stable_operations_example =
    has_unstable_operation_targets_iff same_path exact operations operations_plain
