-- ===== src/Patch/Diff.antt =====
-- packages/core/src/patch.ts: `diffInto`, `diffPatches` and `diffPatchSet`. `uniq` of es-toolkit is
-- a parameter; `sort` orders strings by their code units, as the language does.
use effect_state_tree.Base.{
  ℕ, suc, ◌+◌, Bool, true, false, Option, none, some, List, [], ◌∷◌, ◌++◌, ltb, ◌==◌, if◌then◌else◌,
}
use effect_state_tree.Base.Text.{Text, text_eq}
use effect_state_tree.Base.Result.{Result, ok, ◌>>=◌}
use effect_state_tree.Path.{TreePath, key, index}
use effect_state_tree.Snapshot.{
  Value, Items, Fields, Options, leaf, opaque, arr, obj, nil, cons, end, field, object_is,
  atomic_snapshot_equality, lookup, count_items,
}
use effect_state_tree.Snapshot.Capture.{capture_snapshot}
use effect_state_tree.Patch.{TreePatch, add, remove, replace, PatchError}
use effect_state_tree.Patch.Batch.{AppliedPatches, lift_snapshot, apply_patches}

-- `Object.keys`
unfoldable pub keys : Fields → List Text
keys end = []
keys (field k v fs) = k ∷ keys fs

unfoldable pub text_lt : Text → Text → Bool
text_lt [] [] = false
text_lt [] (b ∷ t) = true
text_lt (a ∷ s) [] = false
text_lt (a ∷ s) (b ∷ t) = if a == b then text_lt s t else ltb a b

unfoldable pub insert_sorted : Text → List Text → List Text
insert_sorted k [] = k ∷ []
insert_sorted k (j ∷ ks) = if text_lt k j then k ∷ j ∷ ks else j ∷ insert_sorted k ks

-- `keys.sort()`
unfoldable pub sort : List Text → List Text
unfolding insert_sorted text_lt
sort [] = []
sort (k ∷ ks) = insert_sorted k (sort ks)

-- The difference from one value, as a function of the value it is compared with.
abbrev pub DiffFrom : Type 0
DiffFrom = Value → TreePath → List TreePatch

-- for (index = before.length - 1; index >= after.length; index -= 1), from `extra` elements on
unfoldable pub remove_from : TreePath → ℕ → ℕ → List TreePatch
remove_from path shorter ℕ.zero = []
remove_from path shorter (suc extra) =
    remove (path ++ index (shorter + extra) ∷ []) ∷ remove_from path shorter extra

-- for (index = before.length; index < after.length; index += 1)
unfoldable pub add_from : TreePath → ℕ → Items → List TreePatch
add_from path i nil = []
add_from path i (cons v xs) = add (path ++ index i ∷ []) v ∷ add_from path (i + 1) xs

-- One key of the loop over the keys of both objects.
unfoldable pub diff_key : (Text → Option DiffFrom) → Fields → TreePath → Text → List TreePatch
unfolding lookup
diff_key before after path k = elim (before k) [
  | none ↦ elim (lookup k after) [
    | none ↦ remove (path ++ key k ∷ []) ∷ []
    | some w ↦ add (path ++ key k ∷ []) w ∷ []
  ]
  | some diff ↦ elim (lookup k after) [
    | none ↦ remove (path ++ key k ∷ []) ∷ []
    | some w ↦ diff w (path ++ key k ∷ [])
  ]
]

unfoldable pub diff_keys : (Text → Option DiffFrom) → Fields → TreePath → List Text → List TreePatch
unfolding diff_key
diff_keys before after path [] = []
diff_keys before after path (k ∷ ks) =
    diff_key before after path k ++ diff_keys before after path ks

-- The tests of `diffInto` before it compares the containers.
abbrev pub diff_atoms : Options → Value → Value → TreePath → List TreePatch → List TreePatch
diff_atoms opts before after path containers =
    if object_is before after then [] else elim (atomic_snapshot_equality before after opts) [
      | some true ↦ []
      | some false ↦ replace path after ∷ []
      | none ↦ containers
    ]

module _ (uniq : List Text → List Text) (opts : Options) where
  abbrev pub all_keys : Fields → Fields → List Text
  all_keys fs gs = sort (uniq (keys fs ++ keys gs))

  -- `diffInto`; `diff_items` walks the elements that both arrays have and goes on with the rest,
  -- and `diff_property` is the difference from the property `before[key]`.
  unfoldable mutual
    unfolding object_is atomic_snapshot_equality count_items diff_keys remove_from add_from keys
        sort

    pub diff_into : Value → Value → TreePath → List TreePatch
    diff_into (leaf a) after path = diff_atoms opts (leaf a) after path (replace path after ∷ [])
    diff_into (opaque r fs) after path =
        diff_atoms opts (opaque r fs) after path (replace path after ∷ [])
    diff_into (arr h xs) after path =
        diff_atoms opts (arr h xs) after path
          (elim after [ arr _ ys ↦ diff_items xs path 0 ys | w ↦ replace path w ∷ [] ])
    diff_into (obj h b fs) after path = diff_atoms opts (obj h b fs) after path (elim after [
      | obj _ _ gs ↦ diff_keys (λ k. diff_property fs k) gs path (all_keys fs gs)
      | w ↦ replace path w ∷ []
    ])

    pub diff_items : Items → TreePath → ℕ → Items → List TreePatch
    diff_items nil path i ys = add_from path i ys
    diff_items (cons x xs) path i ys = elim ys [
      | nil ↦ remove_from path i (suc (count_items xs))
      | cons y rest ↦ diff_into x y (path ++ index i ∷ []) ++ diff_items xs path (i + 1) rest
    ]

    pub diff_property : Fields → Text → Option DiffFrom
    diff_property end k = none
    diff_property (field j v fs) k =
        if text_eq j k then some (λ w path. diff_into v w path) else diff_property fs k

  unfoldable pub diff_patches : ℕ → Value → Value → Result PatchError (List TreePatch)
  unfolding diff_into
  diff_patches next before after = lift_snapshot (capture_snapshot before opts next) >>= λ (b, n).
      lift_snapshot (capture_snapshot after opts n) >>= λ (a, _). ok (diff_into b a [])

  unfoldable pub diff_patch_set : ℕ → Value → Value → Result PatchError AppliedPatches
  unfolding diff_patches
  diff_patch_set next before after =
      diff_patches next before after >>= λ ps. apply_patches opts next before ps
