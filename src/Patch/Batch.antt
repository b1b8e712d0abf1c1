-- ===== src/Patch/Batch.antt =====
-- packages/core/src/patch.ts: `applyPatches`, `applyPatchSet`, `invertPatchSet` and the relocation
-- of patches.
use effect_state_tree.Base.{
  ℕ, ◌≡◌, refl, sym, ap, ◌∙◌, subst, List, [], ◌∷◌, ◌++◌, map, reverse, if◌then◌else◌, map-append,
  Bool-cases, inl, inr,
}
use mathlib.Core.List.{reverse-append}
use effect_state_tree.Base.Result.{
  Result, ok, err, ◌>>=◌, ok-injective, ok-ne-err, >>=-eq-ok, Result-cases,
}
use effect_state_tree.Path.{TreePath}
use effect_state_tree.Snapshot.{Value, Options, object_is}
use effect_state_tree.Snapshot.Admission.{SnapshotError, validate_snapshot_shape}
use effect_state_tree.Snapshot.Capture.{capture_snapshot}
use effect_state_tree.Patch.{
  TreePatch, add, remove, replace, path_of, PatchSet, PatchError, snapshot_error, AppliedOne,
  apply_one,
}
use effect_state_tree.Patch.Undo.{inverse_path}

pub record AppliedPatches : Type 0 where
  pub snapshot : Value
  pub patch_set : PatchSet
  pub touched_paths : List TreePath
  pub next : ℕ

abbrev pub lift_snapshot : {A : Type 0} → Result SnapshotError A → Result PatchError A
lift_snapshot (ok a) = ok a
lift_snapshot (err e) = err (snapshot_error e)

lift_snapshot-ok :
    {A : Type 0} {a : A} (r : Result SnapshotError A) → lift_snapshot r ≡ ok a → r ≡ ok a
lift_snapshot-ok (ok b) h = ap ok (ok-injective h)
lift_snapshot-ok (err e) h = absurd (ok-ne-err (sym h))

-- A patch with its value captured.
unfoldable pub normalize_patch : Options → ℕ → TreePatch → Result PatchError (TreePatch × ℕ)
normalize_patch opts next (remove p) = ok (remove p, next)
normalize_patch opts next (add p v) =
    lift_snapshot (capture_snapshot v opts next) >>= λ (w, n). ok (add p w, n)
normalize_patch opts next (replace p v) =
    lift_snapshot (capture_snapshot v opts next) >>= λ (w, n). ok (replace p w, n)

-- The variables of the loop of `applyPatches`.
pub record LoopState : Type 0 where
  pub current : Value
  pub forward : List TreePatch
  pub inverse : List TreePatch
  pub next : ℕ

-- One round, once the patch has been applied: a patch that changes nothing leaves no trace.
unfoldable pub record_applied : LoopState → TreePatch → AppliedOne → LoopState
record_applied st p r =
    if object_is st.current r.snapshot then record st { next = r.next } else record {
      current = r.snapshot;
      forward = st.forward ++ p ∷ [];
      inverse = r.inverse ∷ st.inverse;
      next = r.next;
    }

unfoldable pub apply_round : Options → LoopState → TreePatch → Result PatchError LoopState
unfolding record_applied normalize_patch
apply_round opts st p = normalize_patch opts st.next p >>= λ (q, n).
    apply_one opts q n st.current >>= λ r. ok (record_applied st q r)

unfoldable pub apply_loop : Options → LoopState → List TreePatch → Result PatchError LoopState
unfolding apply_round
apply_loop opts st [] = ok st
apply_loop opts st (p ∷ ps) = apply_round opts st p >>= λ st'. apply_loop opts st' ps

abbrev loop_start : Value → ℕ → LoopState
loop_start v next = record { current = v; forward = []; inverse = []; next = next }

abbrev finish : LoopState → AppliedPatches
finish st = record {
  snapshot = st.current;
  patch_set = record { forward = st.forward; inverse = st.inverse };
  touched_paths = map path_of st.forward;
  next = st.next;
}

unfoldable pub apply_patches :
    Options → ℕ → Value → List TreePatch → Result PatchError AppliedPatches
unfolding apply_loop
apply_patches opts next v ps = lift_snapshot (capture_snapshot v opts next) >>= λ (base, n).
    apply_loop opts (loop_start base n) ps >>= λ st.
    lift_snapshot (validate_snapshot_shape st.current opts) >>= λ _. ok (finish st)

pub data Direction : Type 0 where
  forward inverse : Direction

unfoldable pub apply_patch_set :
    Options → ℕ → Value → PatchSet → Direction → Result PatchError AppliedPatches
apply_patch_set opts next v ps forward = apply_patches opts next v ps.forward
apply_patch_set opts next v ps inverse = apply_patches opts next v ps.inverse

unfoldable pub invert_patch_set : PatchSet → PatchSet
invert_patch_set ps = record { forward = ps.inverse; inverse = ps.forward }

unfoldable pub prefix_patch : TreePath → TreePatch → TreePatch
prefix_patch pre (add p v) = add (pre ++ p) v
prefix_patch pre (remove p) = remove (pre ++ p)
prefix_patch pre (replace p v) = replace (pre ++ p) v

unfoldable pub prefix_patch_set : TreePath → PatchSet → PatchSet
unfolding prefix_patch
prefix_patch_set pre ps = record {
  forward = map (prefix_patch pre) ps.forward;
  inverse = map (prefix_patch pre) ps.inverse;
}

-- The loop over a sequence of patches is the loop over a first part and then over the rest.
pub apply_loop-append :
    (opts : Options) (st : LoopState) (ps qs : List TreePatch)
    → apply_loop opts st (ps ++ qs) ≡ (apply_loop opts st ps >>= λ st'. apply_loop opts st' qs)
unfolding apply_loop
apply_loop-append opts st [] qs = refl
apply_loop-append opts st (p ∷ ps) qs = elim (Result-cases (apply_round opts st p)) [
  | inl (st', e) ↦ rw e (apply_loop-append opts st' ps qs)
  | inr (x, e) ↦ rw e
]

-- The inverse patches recorded so far touch the paths of the forward ones, last first.
abbrev IsMirrored : LoopState → Type 0
IsMirrored st = map path_of st.inverse ≡ reverse (map path_of st.forward)

record_applied-IsMirrored :
    (opts : Options) (st : LoopState) (q : TreePatch) (n : ℕ) {r : AppliedOne}
    → apply_one opts q n st.current ≡ ok r
    → IsMirrored st
    → IsMirrored (record_applied st q r)
unfolding record_applied apply_one
record_applied-IsMirrored opts st q n {r} e m =
    elim (Bool-cases (object_is st.current r.snapshot)) [
      | inl same ↦ rw same m
      | inr changed ↦
          let p : path_of r.inverse ≡ path_of q =
            inverse_path opts q n st.current (path_of q) refl e in
          rw changed (simp (map-append, reverse-append) (cc (p, m)))
    ]

apply_round_lem :
    (opts : Options) (st : LoopState) (p : TreePatch)
    → (normalize_patch opts st.next p >>= λ (q, n).
        apply_one opts q n st.current >>= λ r. ok (record_applied st q r))
      ≡ apply_round opts st p
unfolding apply_round
apply_round_lem opts st p = refl

apply_round-IsMirrored :
    (opts : Options) (st : LoopState) (p : TreePatch) {st' : LoopState}
    → apply_round opts st p ≡ ok st'
    → IsMirrored st
    → IsMirrored st'
apply_round-IsMirrored opts st p h m =
    let ((q, n), _, rest) =
      >>=-eq-ok (normalize_patch opts st.next p) _ (apply_round_lem opts st p ∙ h) in
    let (r, applied, made) = >>=-eq-ok (apply_one opts q n st.current) _ rest in
    subst IsMirrored (ok-injective made) (record_applied-IsMirrored opts st q n applied m)

apply_loop-IsMirrored :
    (opts : Options) (st : LoopState) (ps : List TreePatch) {st' : LoopState}
    → apply_loop opts st ps ≡ ok st'
    → IsMirrored st
    → IsMirrored st'
unfolding apply_loop
apply_loop-IsMirrored opts st [] h m = subst IsMirrored (ok-injective h) m
apply_loop-IsMirrored opts st (p ∷ ps) h m =
    let (st', e, rest) = >>=-eq-ok (apply_round opts st p) _ h in
    apply_loop-IsMirrored opts st' ps rest (apply_round-IsMirrored opts st p e m)

-- A successful batch gives a snapshot of admitted shape; the touched paths are those of its forward
-- patches, and its inverse patches touch the same paths in the opposite order.
pub apply_patches_shape :
    (opts : Options) (next : ℕ) (v : Value) (ps : List TreePatch) {r : AppliedPatches}
    → apply_patches opts next v ps ≡ ok r
    → (validate_snapshot_shape r.snapshot opts ≡ ok tt)
      × (r.touched_paths ≡ map path_of r.patch_set.forward)
      × (map path_of r.patch_set.inverse ≡ reverse r.touched_paths)
unfolding apply_patches
apply_patches_shape opts next v ps {r} h =
    let ((base, n), _, rest) = >>=-eq-ok (lift_snapshot (capture_snapshot v opts next)) _ h in
    let (st, looped, more) = >>=-eq-ok (apply_loop opts (loop_start base n) ps) _ rest in
    let (u, valid, made) =
      >>=-eq-ok (lift_snapshot (validate_snapshot_shape st.current opts)) _ more in
    let mirrored : IsMirrored st = apply_loop-IsMirrored opts (loop_start base n) ps looped refl in
    subst
      (λ (x : AppliedPatches).
        (validate_snapshot_shape x.snapshot opts ≡ ok tt)
        × (x.touched_paths ≡ map path_of x.patch_set.forward)
        × (map path_of x.patch_set.inverse ≡ reverse x.touched_paths))
      (ok-injective made)
      (lift_snapshot-ok (validate_snapshot_shape st.current opts) valid, refl, mirrored)
