-- ===== src/Path/Prefix.antt =====
-- packages/core/src/path.ts: `isPathPrefix` and `pathsOverlap` against concatenation of paths.
use effect_state_tree.Base.{
  ◌≡◌, ◌≢◌, ◌↔◌, ◌⊎◌, inl, inr, refl, ap, true, [], ◌∷◌, ◌++◌, All, length-append, arith,
  Bool-cases, ==_iff,
}
use effect_state_tree.Base.Text.{text_eq, text_eq_iff, text_eq_refl}
use effect_state_tree.Path.{
  Segment, key, index, other, TreePath, nan_text, same_segment, prefix_from, is_path_prefix,
  paths_overlap,
}

-- The segment is not NaN, the one value that differs from itself.
abbrev pub IsComparable : Segment → Type 0
IsComparable s = s ≢ other nan_text

same_segment_sound : (p q : Segment) → same_segment p q ≡ true → p ≡ q
unfolding same_segment
same_segment_sound (key s) (key t) h = ap key ((text_eq_iff s t).0 h)
same_segment_sound (index m) (index n) h = ap index ((==_iff m n).0 h)
same_segment_sound (other s) (other t) h = ground (arith, text_eq_iff s t)
same_segment_sound (key s) (index n) h = cc
same_segment_sound (key s) (other n) h = cc
same_segment_sound (index s) (key n) h = cc
same_segment_sound (index s) (other n) h = cc
same_segment_sound (other s) (key n) h = cc
same_segment_sound (other s) (index n) h = cc

same_segment_refl : (p : Segment) → IsComparable p → same_segment p p ≡ true
unfolding same_segment
same_segment_refl (key s) h = text_eq_refl s
same_segment_refl (index n) h = ground arith
same_segment_refl (other s) h = elim (Bool-cases (text_eq s nan_text)) [
  | inl e ↦ absurd (h (ap other ((text_eq_iff s nan_text).0 e)))
  | inr e ↦ ground (arith, text_eq_refl s)
]

prefix_from_sound : (p q : TreePath) → prefix_from p q ≡ true → (rest : TreePath) × (q ≡ p ++ rest)
unfolding prefix_from
prefix_from_sound [] q h = (q, refl)
prefix_from_sound (a ∷ p) [] h = cc
prefix_from_sound (a ∷ p) (b ∷ q) h =
    let same : same_segment a b ≡ true = ground arith in
    let (rest, e) = prefix_from_sound p q (ground arith) in (rest, cc (same_segment_sound a b same))

prefix_from-append : (p rest : TreePath) → All IsComparable p → prefix_from p (p ++ rest) ≡ true
unfolding prefix_from
prefix_from-append [] rest h = refl
prefix_from-append (a ∷ p) rest h =
    ground (arith, same_segment_refl a h.0, prefix_from-append p rest h.1)

-- A path whose segments are not NaN is a prefix of exactly the paths that extend it.
pub is_path_prefix_iff :
    (p q : TreePath)
    → All IsComparable p
    → (is_path_prefix p q ≡ true) ↔ ((rest : TreePath) × (q ≡ p ++ rest))
unfolding is_path_prefix
is_path_prefix_iff p q h = (
  λ t. prefix_from_sound p q (ground arith),
  λ (rest, e). rw e (ground (arith, length-append p rest, prefix_from-append p rest h)),
)

-- Two paths overlap exactly when one of them extends the other.
paths_overlap_iff :
    (p q : TreePath)
    → All IsComparable p
    → All IsComparable q
    → (paths_overlap p q ≡ true)
      ↔ (((rest : TreePath) × (q ≡ p ++ rest)) ⊎ ((rest : TreePath) × (p ≡ q ++ rest)))
unfolding paths_overlap
paths_overlap_iff p q hp hq = (
  λ t. elim (Bool-cases (is_path_prefix p q)) [
    | inl e ↦ inl ((is_path_prefix_iff p q hp).0 e)
    | inr e ↦ inr ((is_path_prefix_iff q p hq).0 (ground arith))
  ],
  elim [
    | inl e ↦ rw ((is_path_prefix_iff p q hp).1 e)
    | inr e ↦ ground (arith, (is_path_prefix_iff q p hq).1 e)
  ],
)
