-- ===== src/Identity/Anchors.antt =====
-- packages/core/src/identity.ts: resolving an anchored path in another snapshot.
use effect_state_tree.Base.{
  ℕ, zero, suc, ◌+◌, ◌≡◌, ◌≢◌, refl, ap, Bool, true, false, ◌&&◌, ◌==◌, Option, none, some, List,
  [], ◌∷◌, All, take, length, arith, Bool-cases, inl, inr, ==_iff,
}
use effect_state_tree.Base.Text.{text_eq, text_eq_iff, text_eq_refl}
use effect_state_tree.Base.Result.{Result, ok, err, >>=-eq-ok, ok-injective, Result-cases}
use effect_state_tree.Path.{TreePath, nan_text}
use effect_state_tree.Snapshot.{Value}
use effect_state_tree.Snapshot.Read.{get_at_path, PathFailure}
use effect_state_tree.Runtime.{EntityId, string_id, number_id, EntityIdentity}
use effect_state_tree.Identity.{
  PathAnchor, AnchoredPath, same_id, agree, anchors_from, anchor_path, compare_anchor, check_anchor,
  check_anchors, read_anchored, resolve_anchored_path,
}

-- The id is not NaN, which differs from itself.
pub IsStable : Option EntityIdentity → Type 0
IsStable o = (i : EntityIdentity) → o ≡ some i → i.id ≢ number_id nan_text

same_id_refl : (i : EntityId) → i ≢ number_id nan_text → same_id i i ≡ true
same_id_refl (string_id s) h = text_eq_refl s
same_id_refl (number_id s) h = elim (Bool-cases (text_eq s nan_text)) [
  | inl nan ↦ absurd (h (ap number_id ((text_eq_iff s nan_text).0 nan)))
  | inr usual ↦ rw (usual, text_eq_refl s)
]

same_id_sound : (i j : EntityId) → same_id i j ≡ true → i ≡ j
same_id_sound (string_id s) (string_id t) h = ap string_id ((text_eq_iff s t).0 h)
same_id_sound (number_id s) (number_id t) h = ground (arith, text_eq_iff s t)
same_id_sound (string_id s) (number_id t) h = cc
same_id_sound (number_id s) (string_id t) h = cc

pub agree_sound : (o p : Option EntityIdentity) → agree o p ≡ true → o ≡ p
agree_sound none none h = refl
agree_sound none (some j) h = cc
agree_sound (some i) none h = cc
agree_sound (some i) (some j) h =
    ground (arith, text_eq_iff i.entity_type j.entity_type, same_id_sound i.id j.id)

agree_refl : (o : Option EntityIdentity) → IsStable o → agree o o ≡ true
unfolding IsStable
agree_refl none h = refl
agree_refl (some i) h = rw (text_eq_refl i.entity_type, same_id_refl i.id (h i refl))

and_parts : (a b : Bool) → a && b ≡ true → (a ≡ true) × (b ≡ true)
and_parts true b h = (refl, h)
and_parts false b h = cc

module _ (identity_at : Value → TreePath → Option EntityIdentity) where
  -- The anchor's entity is still the one at its prefix, and the prefix can be read.
  pub IsMatched : Value → TreePath → PathAnchor → Type 0
  IsMatched root path a =
      (identity_at root (take a.depth path) ≡ a.identity)
      × ((v : Value) × (get_at_path root (take a.depth path) ≡ ok v))

  compare_anchor_sound :
      (root : Value) (path : TreePath) (a : PathAnchor) (r : Result PathFailure Value)
      → get_at_path root (take a.depth path) ≡ r
      → compare_anchor identity_at path a r (identity_at root (take a.depth path)) ≡ ok tt
      → IsMatched root path a
  unfolding IsMatched
  compare_anchor_sound root path a (err failure) e h = cc
  compare_anchor_sound root path a (ok v) e h =
      elim (Bool-cases (agree (identity_at root (take a.depth path)) a.identity)) [
        | inl same ↦ (agree_sound (identity_at root (take a.depth path)) a.identity same, (v, e))
        | inr differ ↦ ground arith
      ]

  -- The anchor is not one that `ignoreLastIdentity` leaves unchecked, an anchor of the whole path.
  abbrev pub IsChecked : Bool → TreePath → PathAnchor → Type 0
  IsChecked ignore_last path a = ignore_last ≡ true → a.depth ≢ length path

  check_anchor_sound :
      (ignore_last : Bool) (root : Value) (path : TreePath) (a : PathAnchor)
      → check_anchor identity_at ignore_last root path a ≡ ok tt
      → IsChecked ignore_last path a
      → IsMatched root path a
  check_anchor_sound ignore_last root path a h checked =
      elim (Bool-cases (ignore_last && (a.depth == length path))) [
        | inl skip ↦
            let (ignores, whole) = and_parts ignore_last (a.depth == length path) skip in
            absurd (checked ignores ((==_iff a.depth (length path)).0 whole))
        | inr check ↦
            compare_anchor_sound root path a (get_at_path root (take a.depth path)) refl
              (rw check at h)
      ]

  check_anchors_sound :
      (ignore_last : Bool) (root : Value) (path : TreePath) (anchors : List PathAnchor)
      → check_anchors identity_at ignore_last root path anchors ≡ ok tt
      → All (λ a. IsChecked ignore_last path a → IsMatched root path a) anchors
  check_anchors_sound ignore_last root path [] h = tt
  check_anchors_sound ignore_last root path (a ∷ more) h =
      let (u, first, rest) =
        >>=-eq-ok (check_anchor identity_at ignore_last root path a)
          (λ _. check_anchors identity_at ignore_last root path more) h in
      (
        check_anchor_sound ignore_last root path a first,
        check_anchors_sound ignore_last root path more rest,
      )

  read_anchored_lem :
      (r : Result PathFailure Value) {v : Value} → read_anchored identity_at r ≡ ok v → r ≡ ok v
  read_anchored_lem (ok w) h = ap ok (ok-injective h)
  read_anchored_lem (err failure) h = cc

  -- A path resolves only where every anchored prefix that is checked can be read and still has the
  -- identity that was captured, and the value is then the one that the path itself reads. With
  -- `ignoreLastIdentity` the prefixes that are checked are those shorter or longer than the path;
  -- without it they are all.
  pub resolve_anchored_path-eq-ok :
      (ignore_last : Bool) (root : Value) (anchored : AnchoredPath) (v : Value)
      → resolve_anchored_path identity_at ignore_last root anchored ≡ ok v
      → All
          (λ a. IsChecked ignore_last anchored.path a → IsMatched root anchored.path a)
          anchored.anchors
        × (get_at_path root anchored.path ≡ ok v)
  unfolding resolve_anchored_path
  resolve_anchored_path-eq-ok ignore_last root anchored v h =
      let (u, checked, done) =
        >>=-eq-ok (check_anchors identity_at ignore_last root anchored.path anchored.anchors)
          (λ _. read_anchored identity_at (get_at_path root anchored.path)) h in
      (
        check_anchors_sound ignore_last root anchored.path anchored.anchors checked,
        read_anchored_lem (get_at_path root anchored.path) done,
      )

  anchor_passes :
      (root : Value) (path : TreePath) (depth : ℕ) (ignore_last : Bool) {v : Value}
      → ((p : TreePath) → IsStable (identity_at root p))
      → get_at_path root (take depth path) ≡ ok v
      → check_anchor identity_at ignore_last root path
          (record { depth = depth; identity = identity_at root (take depth path) })
        ≡ ok tt
  anchor_passes root path depth ignore_last stable e =
      elim (Bool-cases (ignore_last && (depth == length path))) [
        | inl skip ↦ rw skip
        | inr check ↦
            rw
              (check, e, agree_refl (identity_at root (take depth path)) (stable (take depth path)))
      ]

  anchors_pass :
      (root : Value) (path : TreePath) (left depth : ℕ) (ignore_last : Bool)
      → ((p : TreePath) → IsStable (identity_at root p))
      → check_anchors identity_at ignore_last root path
          (anchors_from identity_at root path left depth)
        ≡ ok tt
  anchors_pass root path zero depth ignore_last stable = refl
  anchors_pass root path (suc left) depth ignore_last stable =
      elim (Result-cases (get_at_path root (take depth path))) [
        | inl (v, e) ↦
            rw (e, anchor_passes root path depth ignore_last stable e)
              (anchors_pass root path left (depth + 1) ignore_last stable)
        | inr (failure, e) ↦ rw e
      ]

  -- In the snapshot in which it was captured, where no id is NaN, an anchored path resolves as the
  -- path reads: to the same value, or with the same failure.
  resolve_anchored_path-anchor_path :
      (root : Value) (path : TreePath) (ignore_last : Bool)
      → ((p : TreePath) → IsStable (identity_at root p))
      → resolve_anchored_path identity_at ignore_last root (anchor_path identity_at root path)
        ≡ read_anchored identity_at (get_at_path root path)
  unfolding resolve_anchored_path anchor_path
  resolve_anchored_path-anchor_path root path ignore_last stable =
      rw (anchors_pass root path (length path) 1 ignore_last stable)
