-- ===== src/Patch/Observe.antt =====
-- What can be observed of a snapshot through packages/core/src/path.ts and patch.ts: the leaves,
-- lengths and keys at every path, and neither the references of containers nor the order of keys.
use effect_state_tree.Base.{ℕ, ◌≡◌, refl, ap, Bool, true, Option, none, some, [], ◌∷◌, arith}
use effect_state_tree.Base.Text.{Text}
use effect_state_tree.Path.{Segment, TreePath, key, index, other}
use effect_state_tree.Snapshot.{
  Value, Items, Fields, Header, Leaf, arr, obj, object_is, lookup, count_items,
}
use effect_state_tree.Snapshot.Container.{item}

pub data Shape : Type 0 where
  a_leaf : Leaf → Shape
  an_opaque : ℕ → Fields → Shape
  an_array : ℕ → Shape
  an_object : Shape

unfoldable pub shape : Value → Shape
unfolding count_items
shape (Value.leaf a) = a_leaf a
shape (Value.opaque r fs) = an_opaque r fs
shape (arr h xs) = an_array (count_items xs)
shape (obj h symbols fs) = an_object

-- The child that a patch reaches by a segment.
unfoldable pub child : Value → Segment → Option Value
unfolding item lookup
child (arr h xs) (index i) = item i xs
child (obj h symbols fs) (key k) = lookup k fs
child v s = none

unfoldable pub look : TreePath → Value → Option Shape
unfolding shape child
look [] v = some (shape v)
look (s ∷ p) v = elim (child v s) [ none ↦ none | some c ↦ look p c ]

abbrev pub look_child : TreePath → Option Value → Option Shape
look_child p o = elim o [ none ↦ none | some c ↦ look p c ]

-- The two values cannot be told apart.
abbrev pub Same : Value → Value → Type 0
Same v w = (p : TreePath) → look p v ≡ look p w

-- Two values of one shape are the same if their children are.
pub Same-of_children :
    (v w : Value)
    → shape v ≡ shape w
    → ((s : Segment) (p : TreePath) → look_child p (child v s) ≡ look_child p (child w s))
    → Same v w
unfolding look
Same-of_children v w e h [] = ap some e
Same-of_children v w e h (s ∷ p) = h s p

-- A container's header is not observed.
pub arr-Same : (h h' : Header) (xs : Items) → Same (arr h xs) (arr h' xs)
unfolding shape child
arr-Same h h' xs = Same-of_children (arr h xs) (arr h' xs) refl λ s p. header s p
  where
    header :
        (s : Segment) (p : TreePath)
        → look_child p (child (arr h xs) s) ≡ look_child p (child (arr h' xs) s)
    header (index i) p = refl
    header (key k) p = refl
    header (other t) p = refl

-- Objects with the same properties are the same, in whatever order.
pub obj-Same :
    (h h' : Header) (b b' : Bool) (fs gs : Fields)
    → ((k : Text) (p : TreePath) → look_child p (lookup k fs) ≡ look_child p (lookup k gs))
    → Same (obj h b fs) (obj h' b' gs)
unfolding shape child
obj-Same h h' b b' fs gs e = Same-of_children (obj h b fs) (obj h' b' gs) refl λ s p. property s p
  where
    property :
        (s : Segment) (p : TreePath)
        → look_child p (child (obj h b fs) s) ≡ look_child p (child (obj h' b' gs) s)
    property (key k) p = e k p
    property (index i) p = refl
    property (other t) p = refl

pub object_is_refl : (v : Value) → object_is v v ≡ true
unfolding object_is
object_is_refl v = ground arith

pub object_is_sound : (v w : Value) → object_is v w ≡ true → v ≡ w
unfolding object_is
object_is_sound v w h = ground arith
