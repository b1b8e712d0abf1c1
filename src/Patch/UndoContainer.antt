-- ===== src/Patch/UndoContainer.antt =====
-- packages/core/src/patch.ts: the inverse of a change of one entry of an array or an object takes it
-- back.
use effect_state_tree.Base.{
  ◌⊎◌, ℕ, suc, ◌≤◌, ◌≡◌, refl, sym, ap, subst, Bool, true, false, Option, none, some, arith,
  Bool-cases, inl, inr, ltb, if◌then◌else◌,
}
use effect_state_tree.Base.Text.{Text, text_eq_iff, text_eq_refl}
use effect_state_tree.Base.Result.{Result, ok, ok-injective, ok-ne-err}
use effect_state_tree.Path.{Segment, TreePath, key, index, other}
use effect_state_tree.Snapshot.{
  Value, Items, Fields, Header, Options, leaf, opaque, arr, obj, deep_equal, lookup, count_items,
}
use effect_state_tree.Snapshot.Container.{
  item, set_item, insert_item, remove_item, define, delete, item-lt, item-insert_item_self,
  remove_item-insert_item, insert_item-remove_item, item-set_item_self, set_item-set_item,
  set_item_self, count_items-remove_item, lookup-define, lookup-delete,
}
use effect_state_tree.Snapshot.Capture.{fresh}
use effect_state_tree.Snapshot.Read.{is_valid_array_index}
use effect_state_tree.Patch.{
  TreePatch, value_of, add, remove, replace, PatchError, AppliedOne, apply_to_array,
  apply_to_object, apply_to_container,
}
use effect_state_tree.Patch.Observe.{Same, arr-Same, obj-Same, look_child}
use effect_state_tree.Patch.UndoLeaf.{Undone, Undone-of_Same, Undone-of_unchanged, made, UndoneBy}

module _ (opts : Options) where
  -- The inverse acts on the same segment of the container.
  abbrev container : Segment → ℕ → TreePatch → Value → Result PatchError AppliedOne
  container s n p v = apply_to_container opts p n v s

  module _ (h : Header) (xs : Items) (i : ℕ) (valid : is_valid_array_index (index i) ≡ true) where
    -- Putting an element in the place of another one.
    array-back :
        {skewed : Type 0} (q : TreePath) (h' : Header) (ys : Items) (v old : Value) (n : ℕ)
        → item i ys ≡ some v
        → set_item i old ys ≡ xs
        → (deep_equal opts v old ≡ true → Same (arr h' ys) (arr h xs) ⊎ skewed)
        → Undone skewed (container (index i) n (replace q old) (arr h' ys)) (arr h' ys) (arr h xs)
    unfolding apply_to_container apply_to_array
    array-back q h' ys v old n e f kept = elim (Bool-cases (deep_equal opts v old)) [
      | inl same ↦
          Undone-of_unchanged (made (arr h' ys) (replace q v) n) (rw (valid, e, same) refl) refl
            (kept same)
      | inr differs ↦
          Undone-of_Same (made (arr (fresh n) (set_item i old ys)) (replace q v) (suc n))
            (rw (valid, e, differs) refl) (rw f (arr-Same (fresh n) h xs))
    ]

    array-insert :
        {skewed : Type 0} (q : TreePath) (v : Value) (next n : ℕ)
        → i ≤ count_items xs
        → Undone skewed
            (container (index i) n (remove q) (arr (fresh next) (insert_item i v xs)))
            (arr (fresh next) (insert_item i v xs))
            (arr h xs)
    unfolding apply_to_container apply_to_array
    array-insert q v next n le =
        Undone-of_Same (made (arr (fresh n) (remove_item i (insert_item i v xs))) (add q v) (suc n))
          (rw (valid, item-insert_item_self i v xs le) refl)
          (rw (remove_item-insert_item i v xs le) (arr-Same (fresh n) h xs))

    array-remove :
        {skewed : Type 0} (q : TreePath) (old : Value) (next n : ℕ)
        → item i xs ≡ some old
        → Undone skewed
            (container (index i) n (add q old) (arr (fresh next) (remove_item i xs)))
            (arr (fresh next) (remove_item i xs))
            (arr h xs)
    unfolding apply_to_container apply_to_array
    array-remove q old next n e =
        let room : ltb (count_items (remove_item i xs)) i ≡ false =
          ground (arith, item-lt i xs {v = old} e, count_items-remove_item i xs) in
        Undone-of_Same
          (made (arr (fresh n) (insert_item i old (remove_item i xs))) (remove q) (suc n))
          (rw (valid, room) refl) (rw (insert_item-remove_item i xs e) (arr-Same (fresh n) h xs))

    array-replace :
        (q : TreePath) (v old : Value) (next : ℕ) (b : Bool) {r : AppliedOne}
        → item i xs ≡ some old
        → deep_equal opts old v ≡ b
        → ◌≡◌ {A = Result PatchError AppliedOne}
            (if b
              then ok (made (arr h xs) (replace q old) next)
              else ok (made (arr (fresh next) (set_item i v xs)) (replace q old) (suc next)))
            (ok r)
        → UndoneBy opts (container (index i)) (replace q v) (arr h xs) r
    array-replace q v old next true e d k =
        subst (UndoneBy opts (container (index i)) (replace q v) (arr h xs)) (ok-injective k)
          (λ n. array-back q h xs old old n e (set_item_self i old xs e) (λ _. inl (λ p. refl)))
    array-replace q v old next false e d k =
        subst (UndoneBy opts (container (index i)) (replace q v) (arr h xs)) (ok-injective k) (λ n.
          array-back q (fresh next) (set_item i v xs) v old n (item-set_item_self i v xs e)
            (set_item-set_item i v xs e) (λ same. inr (same, d)))

    undo_array :
        (p : TreePatch) (next : ℕ) (o : Option Value) {r : AppliedOne}
        → item i xs ≡ o
        → apply_to_array opts p next h xs i o ≡ ok r
        → UndoneBy opts (container (index i)) p (arr h xs) r
    unfolding apply_to_array
    undo_array (add q v) next o e k = elim (Bool-cases (ltb (count_items xs) i)) [
      | inl out ↦ absurd (ok-ne-err (sym (rw out at k)))
      | inr fits ↦
          subst (UndoneBy opts (container (index i)) (add q v) (arr h xs))
            (ok-injective (rw fits at k)) (λ n. array-insert q v next n (ground arith))
    ]
    undo_array (remove q) next none e k = absurd (ok-ne-err (sym k))
    undo_array (remove q) next (some old) e k =
        subst (UndoneBy opts (container (index i)) (remove q) (arr h xs)) (ok-injective k)
          (λ n. array-remove q old next n e)
    undo_array (replace q v) next none e k = absurd (ok-ne-err (sym k))
    undo_array (replace q v) next (some old) e k =
        array-replace q v old next (deep_equal opts old v) e refl k

  module _ (h : Header) (symbols : Bool) (fs : Fields) (k : Text) where
    abbrev SameFields : Fields → Type 0
    SameFields gs = (j : Text) → lookup j gs ≡ lookup j fs

    same_fields :
        (h' : Header) (b : Bool) (gs : Fields)
        → SameFields gs
        → Same (obj h' b gs) (obj h symbols fs)
    same_fields h' b gs e = obj-Same h' h b symbols gs fs (λ j p. ap (look_child p) (e j))

    object-back :
        {skewed : Type 0} (q : TreePath) (h' : Header) (b : Bool) (gs : Fields) (v old : Value)
        (n : ℕ)
        → lookup k gs ≡ some v
        → SameFields (define k old gs)
        → (deep_equal opts v old ≡ true → Same (obj h' b gs) (obj h symbols fs) ⊎ skewed)
        → Undone skewed
            (container (key k) n (replace q old) (obj h' b gs))
            (obj h' b gs)
            (obj h symbols fs)
    unfolding apply_to_container apply_to_object
    object-back q h' b gs v old n e f kept = elim (Bool-cases (deep_equal opts v old)) [
      | inl same ↦
          Undone-of_unchanged (made (obj h' b gs) (replace q v) n) (rw (e, same) refl) refl
            (kept same)
      | inr differs ↦
          Undone-of_Same (made (obj (fresh n) false (define k old gs)) (replace q v) (suc n))
            (rw (e, differs) refl) (same_fields (fresh n) false (define k old gs) f)
    ]

    lookup_defined : (v : Value) → lookup k (define k v fs) ≡ some v
    lookup_defined v = ground (arith, lookup-define k k v fs, text_eq_refl k)

    defined_back :
        (v old : Value) → lookup k fs ≡ some old → SameFields (define k old (define k v fs))
    defined_back v old e j =
        ground
          (arith, lookup-define k j old (define k v fs), lookup-define k j v fs, text_eq_iff k j)

    object-insert :
        {skewed : Type 0} (q : TreePath) (v : Value) (next n : ℕ)
        → lookup k fs ≡ none
        → Undone skewed
            (container (key k) n (remove q) (obj (fresh next) false (define k v fs)))
            (obj (fresh next) false (define k v fs))
            (obj h symbols fs)
    unfolding apply_to_container apply_to_object
    object-insert q v next n e =
        Undone-of_Same (made (obj (fresh n) false (delete k (define k v fs))) (add q v) (suc n))
          (rw (lookup_defined v) refl)
          (same_fields (fresh n) false (delete k (define k v fs)) λ j.
            ground
              (arith, lookup-delete k j (define k v fs), lookup-define k j v fs, text_eq_iff k j))

    object-remove :
        {skewed : Type 0} (q : TreePath) (old : Value) (next n : ℕ)
        → lookup k fs ≡ some old
        → Undone skewed
            (container (key k) n (add q old) (obj (fresh next) false (delete k fs)))
            (obj (fresh next) false (delete k fs))
            (obj h symbols fs)
    unfolding apply_to_container apply_to_object
    object-remove q old next n e =
        let gone : lookup k (delete k fs) ≡ none =
          ground (arith, lookup-delete k k fs, text_eq_refl k) in
        Undone-of_Same (made (obj (fresh n) false (define k old (delete k fs))) (remove q) (suc n))
          (rw gone refl)
          (same_fields (fresh n) false (define k old (delete k fs)) λ j.
            ground
              (arith, lookup-define k j old (delete k fs), lookup-delete k j fs, text_eq_iff k j))

    object-replace :
        (p : TreePatch) (q : TreePath) (old : Value) (next : ℕ) (b : Bool) {r : AppliedOne}
        → lookup k fs ≡ some old
        → deep_equal opts old (value_of p) ≡ b
        → ◌≡◌ {A = Result PatchError AppliedOne}
            (if b
              then ok (made (obj h symbols fs) (replace q old) next)
              else ok (
                  made
                    (obj (fresh next) false (define k (value_of p) fs))
                    (replace q old)
                    (suc next)))
            (ok r)
        → UndoneBy opts (container (key k)) p (obj h symbols fs) r
    object-replace p q old next true e d m =
        subst (UndoneBy opts (container (key k)) p (obj h symbols fs)) (ok-injective m) (λ n.
          object-back q h symbols fs old old n e
            (λ j. ground (arith, lookup-define k j old fs, text_eq_iff k j)) (λ _. inl (λ p. refl)))
    object-replace p q old next false e d m =
        subst (UndoneBy opts (container (key k)) p (obj h symbols fs)) (ok-injective m) (λ n.
          object-back q (fresh next) false (define k (value_of p) fs) (value_of p) old n
            (lookup_defined (value_of p)) (defined_back (value_of p) old e) (λ same. inr (same, d)))

    undo_object :
        (p : TreePatch) (next : ℕ) (o : Option Value) {r : AppliedOne}
        → lookup k fs ≡ o
        → apply_to_object opts p next h symbols fs k o ≡ ok r
        → UndoneBy opts (container (key k)) p (obj h symbols fs) r
    unfolding apply_to_object
    undo_object (add q v) next none e m =
        subst (UndoneBy opts (container (key k)) (add q v) (obj h symbols fs)) (ok-injective m)
          (λ n. object-insert q v next n e)
    undo_object (add q v) next (some old) e m =
        object-replace (add q v) q old next (deep_equal opts old v) e refl m
    undo_object (remove q) next none e m = absurd (ok-ne-err (sym m))
    undo_object (remove q) next (some old) e m =
        subst (UndoneBy opts (container (key k)) (remove q) (obj h symbols fs)) (ok-injective m)
          (λ n. object-remove q old next n e)
    undo_object (replace q v) next none e m = absurd (ok-ne-err (sym m))
    undo_object (replace q v) next (some old) e m =
        object-replace (replace q v) q old next (deep_equal opts old v) e refl m

  -- The inverse of a change in a container applies to the container that was made, and takes it
  -- back.
  pub undo_container :
      (p : TreePatch) (next : ℕ) (v : Value) (s : Segment) {r : AppliedOne}
      → apply_to_container opts p next v s ≡ ok r
      → UndoneBy opts (λ n q w. apply_to_container opts q n w s) p v r
  unfolding apply_to_container
  undo_container p next (arr h xs) (index i) e =
      elim (Bool-cases (is_valid_array_index (index i))) [
        | inl valid ↦ undo_array h xs i valid p next (item i xs) refl (rw valid at e)
        | inr bad ↦ absurd (ok-ne-err (sym (rw bad at e)))
      ]
  undo_container p next (arr h xs) (key k) e = absurd (ok-ne-err (sym e))
  undo_container p next (arr h xs) (other t) e = absurd (ok-ne-err (sym e))
  undo_container p next (obj h symbols fs) (key k) e =
      undo_object h symbols fs k p next (lookup k fs) refl e
  undo_container p next (obj h symbols fs) (index i) e = absurd (ok-ne-err (sym e))
  undo_container p next (obj h symbols fs) (other t) e = absurd (ok-ne-err (sym e))
  undo_container p next (leaf a) s e = absurd (ok-ne-err (sym e))
  undo_container p next (opaque q fs) s e = absurd (ok-ne-err (sym e))
