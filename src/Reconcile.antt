-- ===== src/Reconcile.antt =====
-- packages/core/src/reconcile.ts: `reconcileValue` and `rootIdentityChanged`. The identity at a path
-- is Identity.antt's `identity_at` with its Schema; whether the Schema is atomic or ambiguous at a
-- path of the incoming root is a parameter. `next` counts the references of new containers.
pub mod Contains
pub mod Incoming
use effect_state_tree.Base.{
  ℕ, suc, ◌+◌, ◌==◌, Bool, true, false, not, ◌&&◌, ◌||◌, Option, none, some, List, [], ◌∷◌, ◌++◌,
  if◌then◌else◌,
}
use effect_state_tree.Base.Text.{Text, text_eq}
use effect_state_tree.Path.{TreePath, Segment, key, index}
use effect_state_tree.Snapshot.{
  Value, Items, Fields, Header, Options, leaf, opaque, arr, obj, nil, cons, end, field, undefined,
  object_is, deep_equal, lookup, count_items, count_fields,
}
use effect_state_tree.Snapshot.Container.{item}
use effect_state_tree.Snapshot.Capture.{fresh}
use effect_state_tree.Runtime.{EntityIdentity}
use effect_state_tree.Identity.{agree, entity_key}

-- `current[index]`, `current[key]` and `currentByIdentity.get(key)`, which may be undefined.
abbrev pub or_undefined : Option Value → Value
or_undefined none = leaf undefined
or_undefined (some v) = v

abbrev pub is_own : Option Value → Bool
is_own none = false
is_own (some v) = true

-- `currentByIdentity`, the latest first.
abbrev pub ByIdentity : Type 0
ByIdentity = List (Text × Value)

abbrev pub find_value : Text → ByIdentity → Option Value
find_value k [] = none
find_value k ((j, v) ∷ rest) =
    let later = find_value k rest in if text_eq j k then some v else later

-- The containers of an array's loop and of an object's: what has been built, whether it is the
-- current content so far, and the next reference.
pub record Built (A : Type 0) : Type 0 where
  pub content : A
  pub unchanged : Bool
  pub next : ℕ

module _ (opts : Options) (encode : Text → Text)
    (identity_at : Value → TreePath → Option EntityIdentity) (is_atomic : Value → TreePath → Bool)
    (current_root incoming_root : Value) where
  abbrev pub remember : Option EntityIdentity → Value → ByIdentity → ByIdentity
  remember none v seen = seen
  remember (some i) v seen = (entity_key encode i, v) ∷ seen

  unfoldable pub by_identity : TreePath → ℕ → Items → ByIdentity → ByIdentity
  unfolding entity_key
  by_identity path i nil seen = seen
  by_identity path i (cons v xs) seen =
      by_identity path (i + 1) xs
        (remember (identity_at current_root (path ++ index i ∷ [])) v seen)

  abbrev pub candidate : Option EntityIdentity → ByIdentity → Option Value → Value
  candidate none seen positional = or_undefined positional
  candidate (some i) seen positional = or_undefined (find_value (entity_key encode i) seen)

  abbrev pub equal_or_incoming : Value → Value → ℕ → Value × ℕ
  equal_or_incoming current incoming next =
      (if deep_equal opts current incoming then current else incoming, next)

  -- `unchanged ? current : freezeChangedContainer(output)`
  abbrev pub array_of : Value → Bool → Built Items → Value × ℕ
  array_of current same_length b =
      if same_length && b.unchanged
      then (current, b.next)
      else (arr (fresh b.next) b.content, suc b.next)

  abbrev pub object_of : Value → Bool → Built Fields → Value × ℕ
  object_of current same_length b =
      if same_length && b.unchanged
      then (current, b.next)
      else (obj (fresh b.next) false b.content, suc b.next)

  abbrev pub choose : Bool → Bool → Value → Value → ℕ → Value × ℕ → Value × ℕ
  choose identical atomic current incoming next containers =
      if identical
      then (current, next)
      else if atomic
      then equal_or_incoming current incoming next
      else containers

  abbrev pub with_child : Value → Value × ℕ → (ℕ → Built Items) → Built Items
  with_child old (child, next) rest =
      let b = rest next in
      record {
        content = cons child b.content;
        unchanged = object_is child old && b.unchanged;
        next = b.next;
      }

  abbrev pub with_property : Text → Option Value → Value × ℕ → (ℕ → Built Fields) → Built Fields
  with_property k old (child, next) rest =
      let b = rest next in
      record {
        content = field k child b.content;
        unchanged = (is_own old && object_is child (or_undefined old)) && b.unchanged;
        next = b.next;
      }

  unfoldable mutual
    unfolding by_identity object_is deep_equal item lookup count_items count_fields entity_key

    pub reconcile_value : Value → Value → TreePath → ℕ → Value × ℕ
    reconcile_value current (leaf a) path next =
        choose (object_is current (leaf a)) (is_atomic incoming_root path) current (leaf a) next
          (equal_or_incoming current (leaf a) next)
    reconcile_value current (opaque r fs) path next =
        choose (object_is current (opaque r fs)) (is_atomic incoming_root path) current
          (opaque r fs) next (equal_or_incoming current (opaque r fs) next)
    reconcile_value current (arr h ys) path next =
        choose (object_is current (arr h ys)) (is_atomic incoming_root path) current (arr h ys) next
          (elim current [
            | arr g xs ↦
                array_of (arr g xs) (count_items xs == count_items ys)
                  (reconcile_items xs (by_identity path 0 xs []) ys 0 path next)
            | other ↦ equal_or_incoming other (arr h ys) next
          ])
    reconcile_value current (obj h b gs) path next =
        choose (object_is current (obj h b gs)) (is_atomic incoming_root path) current (obj h b gs)
          next
          (elim current [
            | obj g c fs ↦
                object_of (obj g c fs) (count_fields gs == count_fields fs)
                  (reconcile_fields fs gs path next)
            | other ↦ equal_or_incoming other (obj h b gs) next
          ])

    pub reconcile_items : Items → ByIdentity → Items → ℕ → TreePath → ℕ → Built Items
    reconcile_items xs seen nil i path next = record {
      content = nil;
      unchanged = true;
      next = next;
    }
    reconcile_items xs seen (cons v ys) i path next =
        with_child (or_undefined (item i xs))
          (reconcile_value
            (candidate (identity_at incoming_root (path ++ index i ∷ [])) seen (item i xs)) v
            (path ++ index i ∷ []) next)
          (reconcile_items xs seen ys (i + 1) path)

    pub reconcile_fields : Fields → Fields → TreePath → ℕ → Built Fields
    reconcile_fields fs end path next = record { content = end; unchanged = true; next = next }
    reconcile_fields fs (field k v gs) path next =
        with_property k (lookup k fs)
          (reconcile_value (or_undefined (lookup k fs)) v (path ++ key k ∷ []) next)
          (reconcile_fields fs gs path)

-- `rootIdentityChanged`: both roots are entities, and not the same one.
abbrev pub changed_identity : Option EntityIdentity → Option EntityIdentity → Bool
changed_identity none after = false
changed_identity (some i) none = false
changed_identity (some i) (some j) = not (agree (some i) (some j))

unfoldable pub root_identity_changed :
    (Value → TreePath → Option EntityIdentity) → Value → Value → Bool
root_identity_changed identity_at current incoming =
    changed_identity (identity_at current []) (identity_at incoming [])
