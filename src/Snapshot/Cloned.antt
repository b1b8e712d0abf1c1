-- ===== src/Snapshot/Cloned.antt =====
-- packages/core/src/snapshot.ts: what `cloneAndFreeze` makes: a value that says the same, is frozen
-- and owns no container twice.
use effect_state_tree.Base.{
  ℕ, suc, ◌+◌, ◌<◌, ◌≤◌, ◌≡◌, refl, sym, Bool, true, false, none, [], ◌∷◌, ◌++◌, arith, All, inl,
  inr, Option-cases,
}
use effect_state_tree.Base.Result.{Result, ok, ok-ne-err}
use effect_state_tree.Base.Text.{Text}
use effect_state_tree.Path.{TreePath, key, index}
use effect_state_tree.Snapshot.{
  Value, Items, Fields, Header, leaf, opaque, arr, obj, nil, cons, end, field,
}
use effect_state_tree.Snapshot.Admission.{
  SnapshotError, Seen, seen_at, visit, visit_items, visit_fields,
}
use effect_state_tree.Snapshot.Capture.{fresh, clone, clone_items, clone_fields}

-- A value without its references: what it says, whoever owns it.
unfoldable mutual
  pub strip : Value → Value
  strip (leaf a) = leaf a
  strip (opaque r fs) = opaque r fs
  strip (arr h xs) = arr (fresh 0) (strip_items xs)
  strip (obj h symbols fs) = obj (fresh 0) false (strip_fields fs)

  pub strip_items : Items → Items
  strip_items nil = nil
  strip_items (cons v xs) = cons (strip v) (strip_items xs)

  pub strip_fields : Fields → Fields
  strip_fields end = end
  strip_fields (field k v fs) = field k (strip v) (strip_fields fs)

abbrev IsBelow : ℕ → Seen → Type 0
IsBelow n seen = All (λ (e : ℕ × TreePath). e.0 < n) seen

IsBelow-le : (m n : ℕ) (seen : Seen) → m ≤ n → IsBelow m seen → IsBelow n seen
IsBelow-le m n [] h b = tt
IsBelow-le m n (e ∷ seen) h b = (omega arith, IsBelow-le m n seen h b.1)

seen_at-IsBelow : (n : ℕ) (seen : Seen) → IsBelow n seen → seen_at n seen ≡ none
unfolding seen_at
seen_at-IsBelow n [] b = refl
seen_at-IsBelow n ((r, p) ∷ seen) b = ground (arith, seen_at-IsBelow n seen b.1)

-- The strict visit accepts a part whose references lie in [next, last) wherever those seen before
-- are smaller.
pub record IsAdmitted (next last : ℕ) (run : Seen → TreePath → Result SnapshotError Seen)
    : Type 0 where
  pub le : next ≤ last
  pub visits :
      (seen : Seen) (path : TreePath)
      → IsBelow next seen
      → (seen' : Seen) × (run seen path ≡ ok seen') × IsBelow last seen'

abbrev strict : Value → Seen → TreePath → Result SnapshotError Seen
strict v seen path = visit [] false true seen path v

abbrev strict_items : ℕ → Items → Seen → TreePath → Result SnapshotError Seen
strict_items i xs seen path = visit_items [] false true seen path i xs

abbrev strict_fields : Fields → Seen → TreePath → Result SnapshotError Seen
strict_fields fs seen path = visit_fields [] false true seen path fs

module _ {next last : ℕ} where
  pub arr-IsAdmitted :
      (xs : Items)
      → IsAdmitted (suc next) last (strict_items 0 xs)
      → IsAdmitted next last (strict (arr (fresh next) xs))
  unfolding visit
  arr-IsAdmitted xs h = record {
    le = let l = h.le in omega arith;
    visits = λ seen path b. rw (seen_at-IsBelow next seen b) (
        h.visits ((next, path) ∷ seen) path
          (omega arith, IsBelow-le next (suc next) seen (omega arith) b));
  }

  pub obj-IsAdmitted :
      (fs : Fields)
      → IsAdmitted (suc next) last (strict_fields fs)
      → IsAdmitted next last (strict (obj (fresh next) false fs))
  unfolding visit
  obj-IsAdmitted fs h = record {
    le = let l = h.le in omega arith;
    visits = λ seen path b. rw (seen_at-IsBelow next seen b) (
        h.visits ((next, path) ∷ seen) path
          (omega arith, IsBelow-le next (suc next) seen (omega arith) b));
  }

module _ {next middle last : ℕ} where
  pub cons-IsAdmitted :
      (v : Value) (xs : Items) (i : ℕ)
      → IsAdmitted next middle (strict v)
      → IsAdmitted middle last (strict_items (i + 1) xs)
      → IsAdmitted next last (strict_items i (cons v xs))
  unfolding visit
  cons-IsAdmitted v xs i h k = record {
    le = let l = h.le in let m = k.le in omega arith;
    visits = λ seen path b.
        let (seen', e, b') = h.visits seen (path ++ index i ∷ []) b in
        rw e (k.visits seen' path b');
  }

  pub field-IsAdmitted :
      (v : Value) (fs : Fields) (name : Text)
      → IsAdmitted next middle (strict v)
      → IsAdmitted middle last (strict_fields fs)
      → IsAdmitted next last (strict_fields (field name v fs))
  unfolding visit
  field-IsAdmitted v fs name h k = record {
    le = let l = h.le in let m = k.le in omega arith;
    visits = λ seen path b.
        let (seen', e, b') = h.visits seen (path ++ key name ∷ []) b in
        rw e (k.visits seen' path b');
  }

-- A value that the lenient visit accepts is cloned into one that says the same and is admitted.
pub record Cloned (v : Value) (path : TreePath) (next : ℕ) : Type 0 where
  pub copy : Value
  pub last : ℕ
  pub eq : clone [] path next v ≡ ok (copy, last)
  pub admitted : IsAdmitted next last (strict copy)
  pub content : strip copy ≡ strip v

pub record ClonedItems (i : ℕ) (xs : Items) (path : TreePath) (next : ℕ) : Type 0 where
  pub copy : Items
  pub last : ℕ
  pub eq : clone_items [] path next i xs ≡ ok (copy, last)
  pub admitted : IsAdmitted next last (strict_items i copy)
  pub content : strip_items copy ≡ strip_items xs

pub record ClonedFields (fs : Fields) (path : TreePath) (next : ℕ) : Type 0 where
  pub copy : Fields
  pub last : ℕ
  pub eq : clone_fields [] path next fs ≡ ok (copy, last)
  pub admitted : IsAdmitted next last (strict_fields copy)
  pub content : strip_fields copy ≡ strip_fields fs

-- The container's own checks passed, and the visit went on to what it holds.
pub arr_visit :
    (h : Header) (xs : Items) (seen : Seen) (path : TreePath) {seen' : Seen}
    → visit [] true false seen path (arr h xs) ≡ ok seen'
    → visit_items [] true false ((h.ref, path) ∷ seen) path 0 xs ≡ ok seen'
unfolding visit
arr_visit h xs seen path e = elim (Option-cases (seen_at h.ref seen)) [
  | inl n ↦ rw n at e
  | inr (p, f) ↦ absurd (ok-ne-err (sym (rw f at e)))
]

pub obj_visit :
    (h : Header) (symbols : Bool) (fs : Fields) (seen : Seen) (path : TreePath) {seen' : Seen}
    → visit [] true false seen path (obj h symbols fs) ≡ ok seen'
    → visit_fields [] true false ((h.ref, path) ∷ seen) path fs ≡ ok seen'
unfolding visit
obj_visit h true fs seen path e = elim (Option-cases (seen_at h.ref seen)) [
  | inl n ↦ absurd (ok-ne-err (sym (rw n at e)))
  | inr (p, f) ↦ absurd (ok-ne-err (sym (rw f at e)))
]
obj_visit h false fs seen path e = elim (Option-cases (seen_at h.ref seen)) [
  | inl n ↦ rw n at e
  | inr (p, f) ↦ absurd (ok-ne-err (sym (rw f at e)))
]
