-- ===== src/Examples/AdmissionExamples.antt =====
-- packages/core/src/tree.ts and `reconcile` of packages/core/src/reconcile.ts at one entity.
use effect_state_tree.Base.{
  any, Bool, if◌then◌else◌, ℕ, ◌≡◌, refl, true, false, Option, none, some, List, [], ◌∷◌,
}
use effect_state_tree.Base.Text.{Text, codes, text_eq}
use effect_state_tree.Base.Result.{ok}
use effect_state_tree.Path.{TreePath}
use effect_state_tree.Snapshot.Admission.{validate_snapshot_shape, visit}
use effect_state_tree.Snapshot.Capture.{capture_snapshot}
use effect_state_tree.Snapshot.Container.{define}
use effect_state_tree.Patch.{apply_one}
use effect_state_tree.Snapshot.{Value, leaf, number, string, obj, field, end}
use effect_state_tree.Patch.Batch.{AppliedPatches}
use effect_state_tree.Identity.{EntityAnnotation, Visit, identity_at}
use effect_state_tree.Tree.Reconciled.{reconcile}
use effect_state_tree.Tree.Reconciled.Incoming.{IsIndexed, IsChange, reconcile-Contains}
use effect_state_tree.Reconcile.Contains.{Contains}
use effect_state_tree.Tree.Admitted.{SameRoot}
use effect_state_tree.Examples.Samples.{change, n_path}

-- An entity, with a number under the key n.
abbrev entity : ℕ → ℕ → Value
entity ref n =
    obj (record { ref = ref; frozen = true }) false
      (field (codes "id") (leaf (string (codes "c"))) (field (codes "n") (leaf (number n)) end))

abbrev no_number : ℕ → Text
no_number b = []

abbrev plain_text : Text → Text
plain_text t = t

abbrev counter_annotation : EntityAnnotation
counter_annotation = record { type = codes "Counter"; id = codes "id" }

-- The root is the only entity.
abbrev annotation_at : Value → TreePath → Option EntityAnnotation
annotation_at v [] = some counter_annotation
annotation_at v (s ∷ path) = none

abbrev visits : Value → List Visit
visits v = (record { annotation = some counter_annotation; path = []; value = v }) ∷ []

abbrev patched : AppliedPatches
patched = record {
  snapshot = entity 1 1;
  patch_set = change.patches;
  touched_paths = n_path ∷ [];
  next = 2;
}

abbrev unique : List Text → List Text
unique [] = []
unique (k ∷ ks) = let rest = unique ks in if any (text_eq k) rest then rest else k ∷ rest

-- What reconciling makes of another value of n.
abbrev reconciled : AppliedPatches
reconciled = record {
  snapshot = entity 10 1;
  patch_set = change.patches;
  touched_paths = n_path ∷ [];
  next = 12;
}

abbrev never_atomic : Value → TreePath → Bool
never_atomic v p = false

never_atomic_lem : (v : Value) (p : TreePath) → never_atomic v p ≡ false
never_atomic_lem v p = refl

arrived_example :
    (admitted : Value) × (n : ℕ) × (capture_snapshot (entity 5 1) [] 10 ≡ ok (admitted, n))
    × SameRoot (identity_at no_number annotation_at) (entity 0 0) admitted
    × Contains reconciled.snapshot admitted
    × IsIndexed no_number plain_text (λ v. ok tt) visits reconciled.snapshot
    × IsChange unique [] (entity 0 0) reconciled
unfolding reconcile validate_snapshot_shape visit text_eq apply_one define
arrived_example =
    reconcile-Contains unique no_number plain_text annotation_at never_atomic (λ v p. none)
      (λ v. ok tt) visits never_atomic_lem 10 (entity 0 0) (entity 5 1) reconciled refl
