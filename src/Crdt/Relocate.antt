-- ===== src/Crdt/Relocate.antt =====
-- packages/crdt/src/crdt.ts: `relocatePath` against the entities of the two snapshots.
use effect_state_tree.Base.{
  ℕ, zero, suc, ◌≤◌, ◌<◌, ◌≡◌, ◌⊎◌, refl, sym, ap, ◌∙◌, Option, none, some, [], ◌∷◌, ◌++◌, take,
  drop, length, arith, Option-cases, Bool-cases, ltb, ltb→lt, inl, inr,
}
use effect_state_tree.Base.Text.{Text}
use effect_state_tree.Base.Result.{ok, err, ok-injective, err-injective}
use effect_state_tree.Path.{TreePath}
use effect_state_tree.Snapshot.{Value}
use effect_state_tree.Runtime.{EntityIdentity}
use effect_state_tree.Identity.{EntityIndex, IndexEntry, entity_key, find_entry}
use effect_state_tree.Crdt.{RebaseError, entity_missing, moved_to, relocate_from, relocate_path}

take-drop : (n : ℕ) (p : TreePath) → take n p ++ drop n p ≡ p
take-drop zero p = refl
take-drop (suc n) [] = refl
take-drop (suc n) (s ∷ p) = ap (s ∷◌) (take-drop n p)

cases_le : (a b : ℕ) → (a ≤ b) ⊎ (b < a)
cases_le a b = elim (Bool-cases (ltb b a)) [
  | inl more ↦ inr (ltb→lt b a more)
  | inr less ↦ inl (ground arith)
]

module _ (identity_at : Value → TreePath → Option EntityIdentity) where
  -- No prefix of the path longer than `low` and up to `high` is an entity.
  pub IsUnidentified : Value → TreePath → ℕ → ℕ → Type 0
  IsUnidentified v path low high =
      (depth : ℕ) → low < depth → depth ≤ high → identity_at v (take depth path) ≡ none

  IsUnidentified-more :
      (v : Value) (path : TreePath) (low high : ℕ)
      → identity_at v (take (suc high) path) ≡ none
      → IsUnidentified v path low high
      → IsUnidentified v path low (suc high)
  unfolding IsUnidentified
  IsUnidentified-more v path low high here below depth l h = elim (cases_le depth high) [
    | inl less ↦ below depth l less
    | inr more ↦ let e : depth ≡ suc high = omega arith in rw e here
  ]

  -- The deepest entity on a path, up to a depth, with what is left of the path below it.
  pub record Deepest (v : Value) (path : TreePath) (high : ℕ) : Type 0 where
    pub depth : ℕ
    pub identity : EntityIdentity
    positive : 0 < depth
    pub within : depth ≤ high
    pub named : identity_at v (take depth path) ≡ some identity
    pub deepest : IsUnidentified v path depth high

  deepest_more :
      (v : Value) (path : TreePath) (high : ℕ)
      → identity_at v (take (suc high) path) ≡ none
      → Deepest v path high
      → Deepest v path (suc high)
  deepest_more v path high here d = record {
    depth = d.depth;
    identity = d.identity;
    positive = d.positive;
    within = omega (arith, d.within);
    named = d.named;
    deepest = IsUnidentified-more v path d.depth high here d.deepest;
  }

  deepest_here :
      (v : Value) (path : TreePath) (high : ℕ) (i : EntityIdentity)
      → identity_at v (take (suc high) path) ≡ some i
      → Deepest v path (suc high)
  unfolding IsUnidentified
  deepest_here v path high i e = record {
    depth = suc high;
    identity = i;
    positive = omega arith;
    within = omega arith;
    named = e;
    deepest = λ depth l h. absurd (omega (arith, l, h));
  }

module _ (encode : Text → Text) (identity_at : Value → TreePath → Option EntityIdentity) where
  -- Every entry of the index is the path of its entity in the snapshot.
  unfoldable pub IsIndexOf : EntityIndex → Value → Type 0
  IsIndexOf entities v =
      (i : EntityIdentity) (e : IndexEntry)
      → find_entry (entity_key encode i) entities ≡ some e
      → identity_at v e.path ≡ some i

  -- Every entity of the snapshot is in the index, at its path.
  unfoldable pub IsLocating : EntityIndex → Value → Type 0
  IsLocating entities v =
      (p : TreePath) (i : EntityIdentity)
      → identity_at v p ≡ some i
      → (e : IndexEntry) × (find_entry (entity_key encode i) entities ≡ some e) × (e.path ≡ p)

module _ {E : Type 0} (encode : Text → Text)
    (identity_at : Value → TreePath → Option EntityIdentity) where
  -- The deepest entity on the path decides, or there is none.
  relocate_from_cases :
      (authored : Value) (entities : EntityIndex) (path : TreePath) (high : ℕ)
      → (IsUnidentified identity_at authored path 0 high
          × (relocate_from {E = E} encode identity_at authored entities path high ≡ ok path))
        ⊎ ((d : Deepest identity_at authored path high) × (relocate_from {E = E} encode identity_at
                authored entities path high
              ≡ moved_to encode identity_at path d.identity
                  (drop d.depth path)
                  (find_entry (entity_key encode d.identity) entities)))
  unfolding relocate_from IsUnidentified deepest_more deepest_here
  relocate_from_cases authored entities path zero =
      inl (λ depth l h. absurd (omega (arith, l, h)), refl)
  relocate_from_cases authored entities path (suc high) =
      elim (Option-cases (identity_at authored (take (suc high) path))) [
        | inl nobody ↦ elim (relocate_from_cases authored entities path high) [
          | inl (all, e) ↦
              inl (IsUnidentified-more identity_at authored path 0 high nobody all, rw nobody e)
          | inr (d, e) ↦ inr (deepest_more identity_at authored path high nobody d, rw nobody e)
        ]
        | inr (i, e) ↦ inr (deepest_here identity_at authored path high i e, rw e)
      ]

  moved_to-eq-ok :
      (entities : EntityIndex) (v : Value) (path rest q : TreePath) (i : EntityIdentity)
      (found : Option IndexEntry)
      → IsIndexOf encode identity_at entities v
      → find_entry (entity_key encode i) entities ≡ found
      → moved_to {E = E} encode identity_at path i rest found ≡ ok q
      → (new : TreePath) × (identity_at v new ≡ some i) × (q ≡ new ++ rest)
  unfolding IsIndexOf
  moved_to-eq-ok entities v path rest q i none sound e h = cc
  moved_to-eq-ok entities v path rest q i (some entry) sound e h =
      (entry.path, sound i entry e, sym (ok-injective h))

  -- A path that is relocated from the authored snapshot to the authoritative one, by the index of its
  -- entities, stays with its deepest entity: it leads to that entity's present place and from there on
  -- as before. A path on which there is no entity stays as it is.
  pub relocate_path-eq-ok :
      (authored authoritative : Value) (entities : EntityIndex) (path q : TreePath)
      → IsIndexOf encode identity_at entities authoritative
      → relocate_path {E = E} encode identity_at authored entities path ≡ ok q
      → (IsUnidentified identity_at authored path 0 (length path) × (q ≡ path))
        ⊎ ((d : Deepest identity_at authored path (length path)) × (new : TreePath) × (identity_at
                authoritative new
              ≡ some d.identity)
            × (q ≡ new ++ drop d.depth path))
  unfolding relocate_path
  relocate_path-eq-ok authored authoritative entities path q sound h =
      elim (relocate_from_cases authored entities path (length path)) [
        | inl (nobody, e) ↦ inl (nobody, ok-injective (sym h ∙ e))
        | inr (d, e) ↦
            let (new, there, moved) =
              moved_to-eq-ok entities authoritative path (drop d.depth path) q d.identity
                (find_entry (entity_key encode d.identity) entities) sound refl (sym e ∙ h) in
            inr (d, new, there, moved)
      ]

  moved_to-eq-err :
      (path rest : TreePath) (i : EntityIdentity) (found : Option IndexEntry)
      (failure : RebaseError E)
      → moved_to {E = E} encode identity_at path i rest found ≡ err failure
      → (found ≡ none) × (failure ≡ entity_missing path i)
  moved_to-eq-err path rest i none failure h = (refl, sym (err-injective h))
  moved_to-eq-err path rest i (some entry) failure h = cc

  -- A path fails to be relocated only where its deepest entity is gone from the index, and the
  -- failure names the path and that entity.
  relocate_path-eq-err :
      (authored : Value) (entities : EntityIndex) (path : TreePath) (failure : RebaseError E)
      → relocate_path {E = E} encode identity_at authored entities path ≡ err failure
      → (d : Deepest identity_at authored path (length path)) × (find_entry
            (entity_key encode d.identity)
            entities
          ≡ none)
        × (failure ≡ entity_missing path d.identity)
  unfolding relocate_path
  relocate_path-eq-err authored entities path failure h =
      elim (relocate_from_cases authored entities path (length path)) [
        | inl (nobody, e) ↦ absurd (cc (h, e))
        | inr (d, e) ↦
            let (gone, named) =
              moved_to-eq-err path (drop d.depth path) d.identity
                (find_entry (entity_key encode d.identity) entities) failure (sym e ∙ h) in
            (d, gone, named)
      ]

  pub relocate_path_own :
      (v : Value) (entities : EntityIndex) (path : TreePath)
      → IsLocating encode identity_at entities v
      → relocate_path {E = E} encode identity_at v entities path ≡ ok path
  unfolding relocate_path IsLocating
  relocate_path_own v entities path locating =
      elim (relocate_from_cases v entities path (length path)) [
        | inl (nobody, e) ↦ e
        | inr (d, e) ↦
            let (entry, found, here) = locating (take d.depth path) d.identity d.named in
            e ∙ rw (found, here) (ap ok (take-drop d.depth path))
      ]
