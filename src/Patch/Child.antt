-- ===== src/Patch/Child.antt =====
-- packages/core/src/patch.ts: entering a child and putting one back, as `descend` does.
use effect_state_tree.Base.{
  ℕ, ◌≡◌, refl, sym, ap, ◌∙◌, subst, Bool, true, false, Option, none, some, arith, Bool-cases, inl,
  inr, ==_iff, ◌==◌, if◌then◌else◌,
}
use effect_state_tree.Base.Text.{Text, text_eq, text_eq_iff, text_eq_refl}
use effect_state_tree.Base.Result.{Result, ok, err, ok-injective, ok-ne-err}
use effect_state_tree.Path.{Segment, TreePath, key, index, other}
use effect_state_tree.Snapshot.{Value, Items, Fields, leaf, opaque, arr, obj, lookup}
use effect_state_tree.Snapshot.Container.{
  item, set_item, define, item-lt, item-set_item, item-set_item_self, count_items-set_item,
  lookup-define, set_item_twice, define_twice,
}
use effect_state_tree.Snapshot.Capture.{fresh}
use effect_state_tree.Snapshot.Read.{is_valid_array_index}
use effect_state_tree.Patch.{TreePatch, PathReason, missing, enter, with_child, at_depth}
use effect_state_tree.Patch.Observe.{shape, child, look_child, Same, Same-of_children}

abbrev array_entry : Bool → Option Value → Result PathReason Value
array_entry b o =
    if b then elim o [ none ↦ err missing | some v ↦ ok v ] else err PathReason.invalid_array_index

-- Where `descend` goes on in an array, the index is valid and an element stands there.
array_entry-ok :
    (b : Bool) (o : Option Value) {c : Value} → array_entry b o ≡ ok c → (b ≡ true) × (o ≡ some c)
array_entry-ok true none h = absurd (ok-ne-err (sym h))
array_entry-ok true (some v) h = (refl, ap some (ok-injective h))
array_entry-ok false o h = absurd (ok-ne-err (sym h))

property-ok :
    (o : Option Value) {c : Value}
    → ◌≡◌ {A = Result PathReason Value} (elim o [ none ↦ err missing | some v ↦ ok v ]) (ok c)
    → o ≡ some c
property-ok none h = absurd (ok-ne-err (sym h))
property-ok (some v) h = ap some (ok-injective h)

pub enter-with_child :
    (v : Value) (s : Segment) (n : ℕ) (w : Value) {c : Value}
    → enter v s ≡ ok c
    → enter (with_child n v s w) s ≡ ok w
unfolding enter with_child
enter-with_child (arr h xs) (index i) n w e =
    let (valid, found) = array_entry-ok (is_valid_array_index (index i)) (item i xs) e in
    rw (valid, item-set_item_self i w xs found)
enter-with_child (arr h xs) (key k) n w e = absurd (ok-ne-err (sym e))
enter-with_child (arr h xs) (other t) n w e = absurd (ok-ne-err (sym e))
enter-with_child (obj h b fs) (key k) n w e =
    let found : lookup k (define k w fs) ≡ some w =
      ground (arith, lookup-define k k w fs, text_eq_refl k) in
    rw (found, enter) refl
enter-with_child (obj h b fs) (index i) n w e = absurd (ok-ne-err (sym e))
enter-with_child (obj h b fs) (other t) n w e = absurd (ok-ne-err (sym e))
enter-with_child (leaf a) s n w e = absurd (ok-ne-err (sym e))
enter-with_child (opaque r fs) s n w e = absurd (ok-ne-err (sym e))

abbrev SameChildren : Value → Value → Type 0
SameChildren v w =
    (s : Segment) (p : TreePath) → look_child p (child v s) ≡ look_child p (child w s)

-- Writing over a child twice is writing the second time.
item-overwrite :
    (i j : ℕ) (w c : Value) (xs : Items) (p : TreePath)
    → item i xs ≡ some c
    → ((q : TreePath) → look_child q (some w) ≡ look_child q (some c))
    → look_child p (item j (set_item i w xs)) ≡ look_child p (item j xs)
item-overwrite i j w c xs p e same = elim (Bool-cases (i == j)) [
  | inl t ↦
      let k : i ≡ j = (==_iff i j).0 t in
      rw (item-set_item i j w xs (item-lt i xs e), t)
        (same p ∙ ap (look_child p) (sym (subst (λ x. item x xs ≡ some c) k e)))
  | inr f ↦ rw (item-set_item i j w xs (item-lt i xs e), f)
]

lookup-overwrite :
    (k j : Text) (w c : Value) (fs : Fields) (p : TreePath)
    → lookup k fs ≡ some c
    → ((q : TreePath) → look_child q (some w) ≡ look_child q (some c))
    → look_child p (lookup j (define k w fs)) ≡ look_child p (lookup j fs)
lookup-overwrite k j w c fs p e same = elim (Bool-cases (text_eq k j)) [
  | inl t ↦
      let m : k ≡ j = (text_eq_iff k j).0 t in
      rw (lookup-define, t)
        (same p ∙ ap (look_child p) (sym (subst (λ x. lookup x fs ≡ some c) m e)))
  | inr f ↦ rw (lookup-define, f)
]

-- A child that is the same as the old one makes the same container.
pub with_child-Same :
    (v : Value) (s : Segment) (n : ℕ) (w : Value) {c : Value}
    → enter v s ≡ ok c
    → Same w c
    → Same (with_child n v s w) v
unfolding enter with_child shape child
with_child-Same (arr h xs) (index i) n w {c} e same =
    let (valid, found) = array_entry-ok (is_valid_array_index (index i)) (item i xs) e in
    Same-of_children (arr (fresh n) (set_item i w xs)) (arr h xs) (rw count_items-set_item)
      (λ t p. at_item t p found)
  where
    at_item :
        (t : Segment) (p : TreePath)
        → item i xs ≡ some c
        → look_child p (child (arr (fresh n) (set_item i w xs)) t)
          ≡ look_child p (child (arr h xs) t)
    at_item (index j) p found = item-overwrite i j w c xs p found same
    at_item (key k) p found = refl
    at_item (other x) p found = refl
with_child-Same (arr h xs) (key k) n w e same = absurd (ok-ne-err (sym e))
with_child-Same (arr h xs) (other t) n w e same = absurd (ok-ne-err (sym e))
with_child-Same (obj h b fs) (key k) n w {c} e same =
    Same-of_children (obj (fresh n) false (define k w fs)) (obj h b fs) refl
      (λ t p. at_property t p (property-ok (lookup k fs) e))
  where
    at_property :
        (t : Segment) (p : TreePath)
        → lookup k fs ≡ some c
        → look_child p (child (obj (fresh n) false (define k w fs)) t)
          ≡ look_child p (child (obj h b fs) t)
    at_property (key j) p found = lookup-overwrite k j w c fs p found same
    at_property (index i) p found = refl
    at_property (other x) p found = refl
with_child-Same (obj h b fs) (index i) n w e same = absurd (ok-ne-err (sym e))
with_child-Same (obj h b fs) (other t) n w e same = absurd (ok-ne-err (sym e))
with_child-Same (leaf a) s n w e same = absurd (ok-ne-err (sym e))
with_child-Same (opaque r fs) s n w e same = absurd (ok-ne-err (sym e))

pub with_child_twice :
    (v : Value) (s : Segment) (m n : ℕ) (w w' : Value)
    → with_child n (with_child m v s w) s w' ≡ with_child n v s w'
unfolding with_child
with_child_twice (arr h xs) (index i) m n w w' = ap (arr (fresh n)) (set_item_twice i w w' xs)
with_child_twice (arr h xs) (key k) m n w w' = refl
with_child_twice (arr h xs) (other t) m n w w' = refl
with_child_twice (obj h b fs) (key k) m n w w' = ap (obj (fresh n) false) (define_twice k w w' fs)
with_child_twice (obj h b fs) (index i) m n w w' = refl
with_child_twice (obj h b fs) (other t) m n w w' = refl
with_child_twice (leaf a) s m n w w' = refl
with_child_twice (opaque r fs) s m n w w' = refl

pub at_depth-ok :
    (p : TreePatch) (d : ℕ) (r : Result PathReason Value) {c : Value}
    → at_depth p d r ≡ ok c
    → r ≡ ok c
at_depth-ok p d (ok v) h = ap ok (ok-injective h)
at_depth-ok p d (err e) h = absurd (ok-ne-err (sym h))
