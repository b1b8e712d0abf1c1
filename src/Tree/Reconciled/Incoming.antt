-- ===== src/Tree/Reconciled/Incoming.antt =====
-- packages/core/src/reconcile.ts: what holds of the snapshot and the patches that `reconcile` gives.
use effect_state_tree.Base.{
  ◌⊎◌, inl, inr, ℕ, ◌≡◌, refl, sym, subst, Bool, true, false, Option, List, [], ◌∷◌, All,
}
use effect_state_tree.Base.Text.{Text}
use effect_state_tree.Base.Result.{Result, ok, ◌>>=◌, ok-injective, >>=-eq-ok}
use effect_state_tree.Path.{TreePath}
use effect_state_tree.Snapshot.{Value, Options}
use effect_state_tree.Snapshot.Capture.{capture_snapshot}
use effect_state_tree.Patch.{TreePatch, replace}
use effect_state_tree.Patch.Batch.{AppliedPatches, apply_patches}
use effect_state_tree.Patch.Diff.{diff_patches, diff_patch_set}
use effect_state_tree.Identity.{
  EntityAnnotation, EntityIndex, Visit, build_entity_index, identity_at,
}
use effect_state_tree.Identity.Index.{IsLocated, build_entity_index-IsLocated}
use effect_state_tree.Reconcile.{root_identity_changed}
use effect_state_tree.Reconcile.Contains.{Contains}
use effect_state_tree.Reconcile.Incoming.{reconcile_value-Contains}
use effect_state_tree.Validation.{Issue}
use effect_state_tree.Tree.{
  Descent, snapshot_refused, schema_refused, index_refused, patch_refused, refuse,
}
use effect_state_tree.Tree.Admitted.{SameRoot, root_identity_changed-SameRoot, refuse-eq-ok}
use effect_state_tree.Tree.Reconciled.{
  needs_replacement, refuse_change, install, settle, merged, reconcile,
}

-- The patches and paths are those that the difference from the current snapshot to the resulting one
-- has when it is applied to the current one, or those of replacing the root by the result.
unfoldable pub IsChange : (List Text → List Text) → Options → Value → AppliedPatches → Type 0
IsChange uniq opts current a =
    (n m : ℕ) × (patches : List TreePatch) × (b : AppliedPatches) × ((diff_patches uniq opts n
          current a.snapshot
        ≡ ok patches)
      ⊎ (patches ≡ replace [] a.snapshot ∷ []))
    × (apply_patches opts m current patches ≡ ok b)
    × (a.patch_set ≡ b.patch_set)
    × (a.touched_paths ≡ b.touched_paths)

-- The Schema decodes the snapshot, and each of its entities is in an index.
unfoldable pub IsIndexed :
    (ℕ → Text)
    → (Text → Text)
    → (Value → Result Issue (Unit {0}))
    → (Value → List Visit)
    → Value
    → Type 0
IsIndexed number_text encode decode visits v =
    (decode v ≡ ok tt)
    × ((entities : EntityIndex) × All
          (λ x. IsLocated number_text encode entities x.annotation x.path x.value) (visits v))

module _ (uniq : List Text → List Text) (opts : Options) (number_text : ℕ → Text)
    (encode : Text → Text) (annotation_at : Value → TreePath → Option EntityAnnotation)
    (is_atomic : Value → TreePath → Bool) (descent : Value → TreePath → Option Descent)
    (decode : Value → Result Issue (Unit {0})) (visits : Value → List Visit) where
  diff_patch_set-eq-ok :
      (next : ℕ) (before after : Value) {d : AppliedPatches}
      → diff_patch_set uniq opts next before after ≡ ok d
      → (patches : List TreePatch) × (diff_patches uniq opts next before after ≡ ok patches)
        × (apply_patches opts next before patches ≡ ok d)
  unfolding diff_patch_set
  diff_patch_set-eq-ok next before after e =
      let (patches, made, applied) =
        >>=-eq-ok (diff_patches uniq opts next before after)
          (λ ps. apply_patches opts next before ps) e in
      (patches, made, applied)

  install-IsChange :
      (b : Bool) (current r : Value) (d : AppliedPatches) {a : AppliedPatches} (next : ℕ)
      (ps : List TreePatch)
      → diff_patches uniq opts next current r ≡ ok ps
      → apply_patches opts next current ps ≡ ok d
      → install uniq opts number_text encode annotation_at is_atomic descent decode visits b current
          r d
        ≡ ok a
      → (a.snapshot ≡ r) × IsChange uniq opts current a
  unfolding IsChange
  install-IsChange false current r d next ps made applied e =
      subst (λ (x : AppliedPatches). (x.snapshot ≡ r) × IsChange uniq opts current x)
        (ok-injective e) (refl, (next, next, ps, d, inl made, applied, refl, refl))
  install-IsChange true current r d next ps made applied e =
      let (b, replaced, done) =
        >>=-eq-ok (refuse patch_refused (apply_patches opts d.next current (replace [] r ∷ [])))
          (λ (x : AppliedPatches). ok (record x { snapshot = r })) e in
      subst (λ (x : AppliedPatches). (x.snapshot ≡ r) × IsChange uniq opts current x)
        (ok-injective done)
        (
          refl,
          (
            next,
            d.next,
            replace [] r ∷ [],
            b,
            inr refl,
            refuse-eq-ok patch_refused (apply_patches opts d.next current (replace [] r ∷ []))
                replaced,
            refl,
            refl,
          ),
        )

  settle-IsIndexed :
      (current r : Value) (next : ℕ) (a : AppliedPatches)
      → settle uniq opts number_text encode annotation_at is_atomic descent decode visits current r
          next
        ≡ ok a
      → (a.snapshot ≡ r)
        × IsIndexed number_text encode decode visits r
        × IsChange uniq opts current a
  unfolding IsIndexed
  settle-IsIndexed current r next a e =
      let last = λ (d : AppliedPatches).
        install uniq opts number_text encode annotation_at is_atomic descent decode visits
          (needs_replacement uniq opts number_text encode annotation_at is_atomic descent decode
            visits current r d.patch_set.forward)
          current r d in
      let (entities, built, rest) =
        >>=-eq-ok (refuse index_refused (build_entity_index number_text encode [] (visits r)))
          (λ _. refuse schema_refused (decode r) >>= λ _.
            refuse patch_refused (diff_patch_set uniq opts next current r) >>= last)
          e in
      let (x, decoded, more) =
        >>=-eq-ok (refuse schema_refused (decode r))
          (λ _. refuse patch_refused (diff_patch_set uniq opts next current r) >>= last) rest in
      let (d, differs, done) =
        >>=-eq-ok (refuse patch_refused (diff_patch_set uniq opts next current r)) last more in
      let (ps, made, applied) =
        diff_patch_set-eq-ok next current r
          (refuse-eq-ok patch_refused (diff_patch_set uniq opts next current r) differs) in
      let (same, change) =
        install-IsChange
          (needs_replacement uniq opts number_text encode annotation_at is_atomic descent decode
            visits current r d.patch_set.forward)
          current r d next ps made applied done in
      (
        same,
        (
          refuse-eq-ok schema_refused (decode r) decoded,
          (
            entities,
            build_entity_index-IsLocated number_text encode (visits r) entities (
                refuse-eq-ok index_refused (build_entity_index number_text encode [] (visits r))
                  built),
          ),
        ),
        change,
      )

  refuse_change-eq-ok :
      (b : Bool) (v : Value)
      → refuse_change uniq opts number_text encode annotation_at is_atomic descent decode visits b v
        ≡ ok tt
      → b ≡ false
  refuse_change-eq-ok true v e = cc
  refuse_change-eq-ok false v e = refl

  -- What is reconciled is the capture of the incoming value merged with the current one.
  reconcile-settle :
      (next : ℕ) (current incoming : Value) (a : AppliedPatches)
      → reconcile uniq opts number_text encode annotation_at is_atomic descent decode visits next
          current incoming
        ≡ ok a
      → (admitted : Value) × (n : ℕ) × (capture_snapshot incoming opts next ≡ ok (admitted, n))
        × (root_identity_changed (identity_at number_text annotation_at) current admitted ≡ false)
        × (settle uniq opts number_text encode annotation_at is_atomic descent decode visits current
              (merged uniq opts number_text encode annotation_at is_atomic descent decode visits
                current admitted n).0
              (merged uniq opts number_text encode annotation_at is_atomic descent decode visits
                current admitted n).1
            ≡ ok a)
  unfolding reconcile
  reconcile-settle next current incoming a e =
      let changed =
        λ (w : Value). root_identity_changed (identity_at number_text annotation_at) current w in
      let last = λ (r : Value × ℕ).
        settle uniq opts number_text encode annotation_at is_atomic descent decode visits current
          (merged uniq opts number_text encode annotation_at is_atomic descent decode visits current
            r.0 r.1).0
          (merged uniq opts number_text encode annotation_at is_atomic descent decode visits current
            r.0 r.1).1 in
      let ((admitted, n), captured, rest) =
        >>=-eq-ok (refuse snapshot_refused (capture_snapshot incoming opts next))
          (λ r.
            refuse_change uniq opts number_text encode annotation_at is_atomic descent decode visits
              (changed r.0) current
            >>= λ _. last r)
          e in
      let (x, kept, done) =
        >>=-eq-ok
          (refuse_change uniq opts number_text encode annotation_at is_atomic descent decode visits
            (changed admitted) current)
          (λ _. last (admitted, n)) rest in
      (
        admitted,
        n,
        refuse-eq-ok snapshot_refused (capture_snapshot incoming opts next) captured,
        refuse_change-eq-ok (changed admitted) current kept,
        done,
      )

-- Where the Schema is nowhere atomic or ambiguous and no interpreter owns a value, reconciling
-- succeeds only if the roots of the current and of the captured incoming value are one entity, where
-- both are entities. It gives a snapshot in which all of the captured incoming value is read at its
-- paths, that the Schema decodes and whose entities are in an index, with the patches and paths that
-- the difference to this snapshot has when it is applied to the current one, or with those of
-- replacing the root by it.
pub reconcile-Contains :
    (uniq : List Text → List Text) (number_text : ℕ → Text) (encode : Text → Text)
    (annotation_at : Value → TreePath → Option EntityAnnotation)
    (is_atomic : Value → TreePath → Bool) (descent : Value → TreePath → Option Descent)
    (decode : Value → Result Issue (Unit {0})) (visits : Value → List Visit)
    → ((v : Value) (p : TreePath) → is_atomic v p ≡ false)
    → (next : ℕ) (current incoming : Value) (a : AppliedPatches)
    → reconcile uniq [] number_text encode annotation_at is_atomic descent decode visits next
        current incoming
      ≡ ok a
    → (admitted : Value) × (n : ℕ) × (capture_snapshot incoming [] next ≡ ok (admitted, n))
      × SameRoot (identity_at number_text annotation_at) current admitted
      × Contains a.snapshot admitted
      × IsIndexed number_text encode decode visits a.snapshot
      × IsChange uniq [] current a
reconcile-Contains uniq number_text encode annotation_at is_atomic descent decode visits never next
      current incoming a e =
    let (admitted, n, captured, kept, done) =
      reconcile-settle uniq [] number_text encode annotation_at is_atomic descent decode visits next
        current incoming a e in
    let r =
      merged uniq [] number_text encode annotation_at is_atomic descent decode visits current
        admitted n in
    let (same, indexed, change) =
      settle-IsIndexed uniq [] number_text encode annotation_at is_atomic descent decode visits
        current r.0 r.1 a done in
    let inside =
      reconcile_value-Contains encode (identity_at number_text annotation_at) is_atomic current
        admitted never current admitted [] n in
    (
      admitted,
      n,
      captured,
      root_identity_changed-SameRoot (identity_at number_text annotation_at) current admitted kept,
      subst (λ v. Contains v admitted) (sym same) inside,
      subst (IsIndexed number_text encode decode visits) (sym same) indexed,
      change,
    )
