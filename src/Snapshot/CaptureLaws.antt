-- ===== src/Snapshot/CaptureLaws.antt =====
-- packages/core/src/snapshot.ts: a captured snapshot is admitted, and says what its input says.
use effect_state_tree.Base.{
  ℕ, suc, ◌+◌, ◌≡◌, refl, ap, sym, subst, true, false, none, some, [], ◌∷◌, ◌++◌, arith, inl, inr,
  Option-cases,
}
use effect_state_tree.Base.Result.{ok, >>=-eq-ok, ok-injective, ok-ne-err, Result-cases}
use effect_state_tree.Path.{TreePath, key, index}
use effect_state_tree.Snapshot.{Value, Items, Fields, leaf, opaque, arr, obj, nil, cons, end, field}
use effect_state_tree.Snapshot.Admission.{
  SnapshotError, Seen, visit, visit_items, visit_fields, find_snapshot_error,
  validate_snapshot_shape,
}
use effect_state_tree.Snapshot.Capture.{fresh, clone, capture_snapshot}
use effect_state_tree.Snapshot.Cloned.{
  strip, arr-IsAdmitted, obj-IsAdmitted, cons-IsAdmitted, field-IsAdmitted, Cloned, ClonedItems,
  ClonedFields, arr_visit, obj_visit,
}

mutual
  unfolding clone strip visit

  clone_lem :
      (v : Value) (seen : Seen) (q path : TreePath) (next : ℕ) {seen' : Seen}
      → visit [] true false seen q v ≡ ok seen'
      → Cloned v path next
  clone_lem (leaf a) seen q path next e = record {
    copy = leaf a;
    last = next;
    eq = refl;
    admitted = record { le = omega arith; visits = λ s p b. (s, refl, b) };
    content = refl;
  }
  clone_lem (opaque r fs) seen q path next e = absurd (ok-ne-err (sym e))
  clone_lem (arr h xs) seen q path next e =
      let c =
        clone_items_lem xs ((h.ref, q) ∷ seen) q path 0 (suc next) (arr_visit h xs seen q e) in
      record {
        copy = arr (fresh next) c.copy;
        last = c.last;
        eq = rw c.eq;
        admitted = arr-IsAdmitted c.copy c.admitted;
        content = ap (arr (fresh 0)) c.content;
      }
  clone_lem (obj h symbols fs) seen q path next e =
      let c =
        clone_fields_lem fs ((h.ref, q) ∷ seen) q path (suc next)
          (obj_visit h symbols fs seen q e) in
      record {
        copy = obj (fresh next) false c.copy;
        last = c.last;
        eq = rw c.eq;
        admitted = obj-IsAdmitted c.copy c.admitted;
        content = ap (obj (fresh 0) false) c.content;
      }

  clone_items_lem :
      (xs : Items) (seen : Seen) (q path : TreePath) (i next : ℕ) {seen' : Seen}
      → visit_items [] true false seen q i xs ≡ ok seen'
      → ClonedItems i xs path next
  clone_items_lem nil seen q path i next e = record {
    copy = nil;
    last = next;
    eq = refl;
    admitted = record { le = omega arith; visits = λ s p b. (s, refl, b) };
    content = refl;
  }
  clone_items_lem (cons v xs) seen q path i next e =
      let (seen', first, rest) = >>=-eq-ok (visit [] true false seen (q ++ index i ∷ []) v) _ e in
      let c = clone_lem v seen (q ++ index i ∷ []) (path ++ index i ∷ []) next first in
      let d = clone_items_lem xs seen' q path (i + 1) c.last rest in
      record {
        copy = cons c.copy d.copy;
        last = d.last;
        eq = rw (c.eq, d.eq);
        admitted = cons-IsAdmitted c.copy d.copy i c.admitted d.admitted;
        content = cc (c.content, d.content);
      }

  clone_fields_lem :
      (fs : Fields) (seen : Seen) (q path : TreePath) (next : ℕ) {seen' : Seen}
      → visit_fields [] true false seen q fs ≡ ok seen'
      → ClonedFields fs path next
  clone_fields_lem end seen q path next e = record {
    copy = end;
    last = next;
    eq = refl;
    admitted = record { le = omega arith; visits = λ s p b. (s, refl, b) };
    content = refl;
  }
  clone_fields_lem (field k v fs) seen q path next e =
      let (seen', first, rest) = >>=-eq-ok (visit [] true false seen (q ++ key k ∷ []) v) _ e in
      let c = clone_lem v seen (q ++ key k ∷ []) (path ++ key k ∷ []) next first in
      let d = clone_fields_lem fs seen' q path c.last rest in
      record {
        copy = field k c.copy d.copy;
        last = d.last;
        eq = rw (c.eq, d.eq);
        admitted = field-IsAdmitted c.copy d.copy k c.admitted d.admitted;
        content = cc (c.content, d.content);
      }

some-ne-none : {e : SnapshotError} → some e ≡ none → ⊥
some-ne-none h = cc

visit-ok :
    (v : Value)
    → find_snapshot_error v [] true false ≡ none
    → (seen : Seen) × (visit [] true false [] [] v ≡ ok seen)
unfolding find_snapshot_error
visit-ok v h = elim (Result-cases (visit [] true false [] [] v)) [
  | inl found ↦ found
  | inr (e, failed) ↦ absurd (some-ne-none (rw failed at h))
]

validate-ok :
    (v : Value) {seen : Seen}
    → visit [] false true [] [] v ≡ ok seen
    → validate_snapshot_shape v [] ≡ ok tt
unfolding validate_snapshot_shape find_snapshot_error
validate-ok v h = rw h

clone_sound :
    (v : Value) (next : ℕ)
    → find_snapshot_error v [] true false ≡ none
    → (w : Value) × (last : ℕ) × (clone [] [] next v ≡ ok (w, last))
      × (validate_snapshot_shape w [] ≡ ok tt)
      × (strip w ≡ strip v)
clone_sound v next h =
    let (seen, e) = visit-ok v h in
    let c = clone_lem v [] [] [] next e in
    let (seen', f, _) = c.admitted.visits [] [] tt in
    (c.copy, c.last, c.eq, validate-ok c.copy f, c.content)

-- With no interpreters, a captured snapshot passes `validateSnapshotShape`: it is frozen, owns no
-- container twice, and holds no mutable object and no symbol key. It says what the input says.
pub capture_snapshot_sound :
    (v : Value) (next : ℕ) {w : Value} {last : ℕ}
    → capture_snapshot v [] next ≡ ok (w, last)
    → (validate_snapshot_shape w [] ≡ ok tt) × (strip w ≡ strip v)
unfolding capture_snapshot
capture_snapshot_sound v next {w} {last} h = elim (Result-cases (validate_snapshot_shape v [])) [
  | inl (u, valid) ↦
      let e : ◌≡◌ {A = Value × ℕ} (v, next) (w, last) = ok-injective (rw valid at h) in
      let same : v ≡ w = ap (λ p. p.0) e in
      subst (λ x. (validate_snapshot_shape x [] ≡ ok tt) × (strip x ≡ strip v)) same (valid, refl)
  | inr (x, invalid) ↦ elim (Option-cases (find_snapshot_error v [] true false)) [
    | inr (y, bad) ↦ absurd (ok-ne-err (sym (rw (invalid, bad) at h)))
    | inl fine ↦
        let (w', last', cloned, valid, content) = clone_sound v next fine in
        let e : ◌≡◌ {A = Value × ℕ} (w', last') (w, last) =
          ok-injective (rw (invalid, fine, cloned) at h) in
        let same : w' ≡ w = ap (λ p. p.0) e in
        subst (λ x. (validate_snapshot_shape x [] ≡ ok tt) × (strip x ≡ strip v)) same
          (valid, content)
  ]
]

-- With no interpreters, capturing a captured snapshot again gives the very same snapshot, its
-- containers included, and makes no new container.
pub capture_snapshot_twice :
    (v : Value) (next : ℕ) {w : Value} {last : ℕ} (later : ℕ)
    → capture_snapshot v [] next ≡ ok (w, last)
    → capture_snapshot w [] later ≡ ok (w, later)
unfolding capture_snapshot
capture_snapshot_twice v next later h =
    let (valid, content) = capture_snapshot_sound v next h in rw valid
