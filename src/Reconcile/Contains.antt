-- ===== src/Reconcile/Contains.antt =====
-- packages/core/src/reconcile.ts: reading in one value all that can be read in another.
use effect_state_tree.Base.{
  ℕ, suc, ◌+◌, ◌≡◌, refl, sym, ap, ◌∙◌, Bool, true, false, ◌&&◌, Option, none, some, [], ◌∷◌,
  if◌then◌else◌, arith, some-injective,
}
use effect_state_tree.Base.Text.{Text}
use effect_state_tree.Path.{TreePath, Segment, key, index, other}
use effect_state_tree.Snapshot.{
  Value, Items, Fields, Header, arr, obj, nil, end, object_is, lookup, count_items,
}
use effect_state_tree.Snapshot.Container.{item}
use effect_state_tree.Patch.Observe.{Shape, shape, child, look, look_child, object_is_sound}
use effect_state_tree.Reconcile.{or_undefined, is_own, Built}

-- Whatever can be read in the second value is read in the first one too.
unfoldable pub Contains : Value → Value → Type 0
Contains r w = (p : TreePath) (s : Shape) → look p w ≡ some s → look p r ≡ some s

pub Contains-refl : (v : Value) → Contains v v
unfolding Contains
Contains-refl v p s h = h

pub Contains-eq : (v w : Value) → v ≡ w → Contains v w
unfolding Contains
Contains-eq v w e p s h = rw e h

look_child-Contains :
    (o o' : Option Value) (p : TreePath) (s : Shape)
    → ((c : Value) → o ≡ some c → (d : Value) × (o' ≡ some d) × Contains d c)
    → look_child p o ≡ some s
    → look_child p o' ≡ some s
unfolding Contains
look_child-Contains none o' p s h read = cc
look_child-Contains (some c) o' p s h read =
    let (d, there, inside) = h c refl in rw there (inside p s read)

Contains-child :
    (r w : Value)
    → shape r ≡ shape w
    → ((g : Segment) (c : Value)
        → child w g ≡ some c
        → (d : Value) × (child r g ≡ some d) × Contains d c)
    → Contains r w
unfolding Contains look
Contains-child r w e h [] s read = ap some e ∙ read
Contains-child r w e h (g ∷ p) s read = look_child-Contains (child w g) (child r g) p s (h g) read

-- What the loop over an array has built from the items at an index and on.
unfoldable pub ItemsContain : Items → ℕ → Items → Built Items → Type 0
ItemsContain xs i ys b =
    (j : ℕ) (v : Value)
    → item j ys ≡ some v
    → (u : Value) × (item j b.content ≡ some u)
      × Contains u v
      × (b.unchanged ≡ true → or_undefined (item (i + j) xs) ≡ u)

unfoldable pub FieldsContain : Fields → Fields → Built Fields → Type 0
FieldsContain fs gs b =
    (k : Text) (v : Value)
    → lookup k gs ≡ some v
    → (u : Value) × (lookup k b.content ≡ some u)
      × Contains u v
      × (b.unchanged ≡ true → lookup k fs ≡ some u)

pub items_end : (xs : Items) (i : ℕ) (b : Built Items) → ItemsContain xs i nil b
unfolding ItemsContain item
items_end xs i b j v e = absurd (cc e)

pub fields_end : (fs : Fields) (b : Built Fields) → FieldsContain fs end b
unfolding FieldsContain lookup
fields_end fs b k v e = absurd (cc e)

pub and_parts : (a b : Bool) → a && b ≡ true → (a ≡ true) × (b ≡ true)
and_parts true true h = (refl, refl)
and_parts true false h = cc
and_parts false b h = cc

pub taken_lem :
    {v w : Value} (b : Bool) (o : Option Value)
    → b ≡ true
    → (if b then some v else o) ≡ some w
    → v ≡ w
taken_lem true o h e = some-injective e
taken_lem false o h e = cc

pub skipped_lem :
    {w : Value} (b : Bool) (taken : Option Value) {o : Option Value}
    → b ≡ false
    → (if b then taken else o) ≡ some w
    → o ≡ some w
skipped_lem true taken h e = cc
skipped_lem false taken h e = e

pub own_lem :
    (o : Option Value) (u : Value) → is_own o && object_is u (or_undefined o) ≡ true → o ≡ some u
own_lem none u h = cc
own_lem (some v) u h = ap some (sym (object_is_sound u v h))

pub arr-Contains :
    (g h : Header) (zs ys : Items)
    → count_items zs ≡ count_items ys
    → ((j : ℕ) (v : Value) → item j ys ≡ some v → (u : Value) × (item j zs ≡ some u) × Contains u v)
    → Contains (arr g zs) (arr h ys)
unfolding shape child
arr-Contains g h zs ys same inside =
    Contains-child (arr g zs) (arr h ys) (ap Shape.an_array same) (at_segment inside)
  where
    at_segment :
        ((j : ℕ) (v : Value)
          → item j ys ≡ some v
          → (u : Value) × (item j zs ≡ some u) × Contains u v)
        → (s : Segment) (c : Value) → child (arr h ys) s ≡ some c
        → (d : Value) × (child (arr g zs) s ≡ some d) × Contains d c
    at_segment inside (index j) c e = inside j c e
    at_segment inside (key k) c e = cc
    at_segment inside (other t) c e = cc

pub obj-Contains :
    (g h : Header) (a b : Bool) (zs gs : Fields)
    → ((k : Text) (v : Value)
        → lookup k gs ≡ some v
        → (u : Value) × (lookup k zs ≡ some u) × Contains u v)
    → Contains (obj g a zs) (obj h b gs)
unfolding shape child
obj-Contains g h a b zs gs inside =
    Contains-child (obj g a zs) (obj h b gs) refl (at_segment inside)
  where
    at_segment :
        ((k : Text) (v : Value)
          → lookup k gs ≡ some v
          → (u : Value) × (lookup k zs ≡ some u) × Contains u v)
        → (s : Segment) (c : Value) → child (obj h b gs) s ≡ some c
        → (d : Value) × (child (obj g a zs) s ≡ some d) × Contains d c
    at_segment inside (key k) c e = inside k c e
    at_segment inside (index j) c e = cc
    at_segment inside (other t) c e = cc

pub zero_plus : (n : ℕ) → 0 + n ≡ n
zero_plus n = omega arith

pub plus_zero : (n : ℕ) → n + 0 ≡ n
plus_zero n = omega arith

pub plus_suc : (i j : ℕ) → i + suc j ≡ i + 1 + j
plus_suc i j = omega arith
