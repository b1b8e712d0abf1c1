-- ===== src/Yjs/Stable.antt =====
-- packages/yjs/src/yjs.ts: when operations and patches are found stable.
use effect_state_tree.Base.{
  ℕ, ◌≡◌, ◌≢◌, length, length-append, append-nil, ◌↔◌, refl, sym, ap, ◌∙◌, Bool, true, false, ◌||◌,
  ◌&&◌, not, some, List, [], ◌∷◌, ◌++◌, All, init, get_elem?, arith, Bool-cases, inl, inr,
}
use effect_state_tree.Path.{Segment, TreePath, is_path_prefix}
use effect_state_tree.Path.Prefix.{IsComparable, is_path_prefix_iff}
use effect_state_tree.Patch.{TreePatch, path_of}
use effect_state_tree.Runtime.{
  SemanticOperation, object_set, object_delete, array_splice, array_move, text_insert, text_delete,
}
use effect_state_tree.Yjs.{
  disturbs_parent, has_unstable_patch_targets, disturbs_same, is_array_change, disturbs_target,
  has_unstable_operation_targets, operation_modified_path, operation_target_path,
}
use effect_state_tree.Yjs.Pairs.{or_parts, if_no, if_yes, AreApart, any_disturbs_iff}

-- The path lies strictly below the other one.
abbrev pub IsBelow : TreePath → TreePath → Type 0
IsBelow p q = (s : Segment) × (rest : TreePath) × (q ≡ p ++ s ∷ rest)

module _ (same_path : TreePath → TreePath → Bool)
    (exact : (p q : TreePath) → (same_path p q ≡ true) ↔ (p ≡ q)) where
  disturbs_parent_iff :
      (l r : TreePatch)
      → All IsComparable (path_of l)
      → (disturbs_parent same_path l r ≡ false)
        ↔ (¬ ((rest : TreePath) × (init (path_of r) ≡ path_of l ++ rest)))
  disturbs_parent_iff l r plain = (
    λ h below.
        let (x, y) =
          or_parts (same_path (path_of l) (init (path_of r)))
            (is_path_prefix (path_of l) (init (path_of r))) h in
        cc (y, (is_path_prefix_iff (path_of l) (init (path_of r)) plain).1 below),
    λ h. elim (Bool-cases (is_path_prefix (path_of l) (init (path_of r)))) [
      | inl e ↦ absurd (h ((is_path_prefix_iff (path_of l) (init (path_of r)) plain).0 e))
      | inr e ↦ elim (Bool-cases (same_path (path_of l) (init (path_of r)))) [
        | inl t ↦ absurd (
            h ([], sym ((exact (path_of l) (init (path_of r))).0 t) ∙ sym (append-nil (path_of l))))
        | inr t ↦ rw (t, e)
      ]
    ],
  )

  -- Where `samePath` is equality and no segment is NaN, patches are stable exactly when the path of
  -- none of them is a prefix of the path to the container that another one changes.
  pub has_unstable_patch_targets_iff :
      (ps : List TreePatch)
      → ((i : ℕ) (p : TreePatch) → get_elem? ps i ≡ some p → All IsComparable (path_of p))
      → (has_unstable_patch_targets same_path ps ≡ false) ↔ (
          (i j : ℕ) (l r : TreePatch)
          → i ≢ j
          → get_elem? ps i ≡ some l
          → get_elem? ps j ≡ some r
          → ¬ ((rest : TreePath) × (init (path_of r) ≡ path_of l ++ rest)))
  unfolding has_unstable_patch_targets AreApart
  has_unstable_patch_targets_iff ps plain = (
    λ h i j l r n at_i at_j.
        (disturbs_parent_iff l r (plain i l at_i)).0
          ((any_disturbs_iff (disturbs_parent same_path) ps).0 h i j l r n at_i at_j),
    λ h. (any_disturbs_iff (disturbs_parent same_path) ps).1 (λ i j l r n at_i at_j.
        (disturbs_parent_iff l r (plain i l at_i)).1 (h i j l r n at_i at_j)),
  )

  not_below : (p : TreePath) → ¬ IsBelow p p
  not_below p (s, rest, e) = omega (arith, ap length e, length-append p (s ∷ rest))

  -- Two operations may have one path, which the first one modifies and the second one targets, if it
  -- is not a property that the first one writes, nor an array that the first one splices and the
  -- second one splices or moves in.
  abbrev pub MayShare : SemanticOperation → SemanticOperation → Type 0
  MayShare (object_set p k v w had) r = ⊥
  MayShare (object_delete p k w) r = ⊥
  MayShare (array_splice p i n vs ws) (array_splice q j m xs ys) = ⊥
  MayShare (array_splice p i n vs ws) (array_move q j k m ids) = ⊥
  MayShare l r = Unit {0}

  disturbs_same-MayShare : (l r : SemanticOperation) → disturbs_same l r ≡ false → MayShare l r
  disturbs_same-MayShare (object_set p k v w had) r h = cc h
  disturbs_same-MayShare (object_delete p k w) r h = cc h
  disturbs_same-MayShare (array_splice p i n vs ws) (array_splice q j m xs ys) h = cc h
  disturbs_same-MayShare (array_splice p i n vs ws) (array_move q j k m ids) h = cc h
  disturbs_same-MayShare (array_splice p i n vs ws) (object_set q k v w had) h = tt
  disturbs_same-MayShare (array_splice p i n vs ws) (object_delete q k w) h = tt
  disturbs_same-MayShare (array_splice p i n vs ws) (text_insert q j t) h = tt
  disturbs_same-MayShare (array_splice p i n vs ws) (text_delete q j t) h = tt
  disturbs_same-MayShare (array_move p i j n ids) r h = tt
  disturbs_same-MayShare (text_insert p i t) r h = tt
  disturbs_same-MayShare (text_delete p i t) r h = tt

  -- An operation leaves the target of another one: that is not below the path that it modifies, and
  -- is that path itself only where the two may share it.
  abbrev pub Leaves : SemanticOperation → SemanticOperation → Type 0
  Leaves l r =
      (¬ IsBelow (operation_modified_path l) (operation_target_path r))
      × (operation_modified_path l ≡ operation_target_path r → MayShare l r)

  disturbs_target-Leaves :
      (l r : SemanticOperation)
      → All IsComparable (operation_modified_path l)
      → disturbs_target same_path l r ≡ false
      → Leaves l r
  disturbs_target-Leaves l r plain h =
      let m = operation_modified_path l in
      let t = operation_target_path r in
      let moved =
        is_array_change l
        && is_path_prefix (operation_target_path l) t
        && not (same_path (operation_target_path l) t) in
      (
        λ (s, rest, e). elim (Bool-cases (same_path m t)) [
          | inl same ↦ not_below m (s, rest, (exact m t).0 same ∙ e)
          | inr apart ↦
              let no : is_path_prefix m t ≡ false =
                (or_parts (is_path_prefix m t) moved
                  (if_no (disturbs_same l r) (same_path m t) apart h)).0 in
              cc (no, (is_path_prefix_iff m t plain).1 (s ∷ rest, e))
        ],
        λ e.
            disturbs_same-MayShare l r
              (if_yes (is_path_prefix m t || moved) (same_path m t) ((exact m t).1 e) h),
      )

  MayShare-disturbs_same : (l r : SemanticOperation) → MayShare l r → disturbs_same l r ≡ false
  MayShare-disturbs_same (object_set p k v w had) r h = absurd h
  MayShare-disturbs_same (object_delete p k w) r h = absurd h
  MayShare-disturbs_same (array_splice p i n vs ws) (array_splice q j m xs ys) h = absurd h
  MayShare-disturbs_same (array_splice p i n vs ws) (array_move q j k m ids) h = absurd h
  MayShare-disturbs_same (array_splice p i n vs ws) (object_set q k v w had) h = refl
  MayShare-disturbs_same (array_splice p i n vs ws) (object_delete q k w) h = refl
  MayShare-disturbs_same (array_splice p i n vs ws) (text_insert q j t) h = refl
  MayShare-disturbs_same (array_splice p i n vs ws) (text_delete q j t) h = refl
  MayShare-disturbs_same (array_move p i j n ids) r h = refl
  MayShare-disturbs_same (text_insert p i t) r h = refl
  MayShare-disturbs_same (text_delete p i t) r h = refl

  -- The third test of the loop finds nothing that the second one has not found.
  moved_lem :
      (l : SemanticOperation) (t : TreePath) (b : Bool)
      → is_path_prefix (operation_modified_path l) t ≡ false
      → is_array_change l && is_path_prefix (operation_target_path l) t && b ≡ false
  moved_lem (object_set p k v w had) t b h = refl
  moved_lem (object_delete p k w) t b h = refl
  moved_lem (array_splice p i n vs ws) t b h = rw h
  moved_lem (array_move p i j n ids) t b h = rw h
  moved_lem (text_insert p i s) t b h = refl
  moved_lem (text_delete p i s) t b h = refl

  not_prefix :
      (m t : TreePath)
      → All IsComparable m
      → same_path m t ≡ false
      → ¬ IsBelow m t
      → is_path_prefix m t ≡ false
  not_prefix m t plain apart h = elim (Bool-cases (is_path_prefix m t)) [
    | inl e ↦ absurd (extends ((is_path_prefix_iff m t plain).0 e))
    | inr e ↦ e
  ]
    where
      extends : (rest : TreePath) × (t ≡ m ++ rest) → ⊥
      extends ([], e) = cc (apart, (exact m t).1 (sym (e ∙ append-nil m)))
      extends (s ∷ rest, e) = h (s, rest, e)

  Leaves-disturbs_target :
      (l r : SemanticOperation)
      → All IsComparable (operation_modified_path l)
      → Leaves l r
      → disturbs_target same_path l r ≡ false
  Leaves-disturbs_target l r plain (apart, share) =
      let m = operation_modified_path l in
      let t = operation_target_path r in
      elim (Bool-cases (same_path m t)) [
        | inl same ↦ rw same (MayShare-disturbs_same l r (share ((exact m t).0 same)))
        | inr differ ↦
            let no = not_prefix m t plain differ apart in
            rw (differ, no) (moved_lem l t (not (same_path (operation_target_path l) t)) no)
      ]

  -- Where `samePath` is equality and no segment is NaN, operations are found stable exactly when each
  -- of them leaves the target of every other: the target is not below the path that it modifies, and
  -- is that path itself only where it is neither a property that is written, nor an array that is
  -- spliced and that the other one splices or moves in.
  pub has_unstable_operation_targets_iff :
      (os : List SemanticOperation)
      → ((i : ℕ) (o : SemanticOperation)
          → get_elem? os i ≡ some o
          → All IsComparable (operation_modified_path o))
      → (has_unstable_operation_targets same_path os ≡ false) ↔ (
          (i j : ℕ) (l r : SemanticOperation)
          → i ≢ j
          → get_elem? os i ≡ some l
          → get_elem? os j ≡ some r
          → Leaves l r)
  unfolding has_unstable_operation_targets AreApart
  has_unstable_operation_targets_iff os plain = (
    λ h i j l r n at_i at_j.
        disturbs_target-Leaves l r (plain i l at_i)
          ((any_disturbs_iff (disturbs_target same_path) os).0 h i j l r n at_i at_j),
    λ h. (any_disturbs_iff (disturbs_target same_path) os).1 (λ i j l r n at_i at_j.
        Leaves-disturbs_target l r (plain i l at_i) (h i j l r n at_i at_j)),
  )
