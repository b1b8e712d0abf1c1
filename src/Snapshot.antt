-- ===== src/Snapshot.antt =====
-- packages/core/src/snapshot.ts: tree values, interpreters of atomic leaves and the equality of
-- snapshots. Admission and capture are in the child modules.
pub mod Container
pub mod Admission
pub mod Capture
pub mod CaptureLaws
pub mod Cloned
pub mod Read
pub mod ReadLaws
use native.Mathlib.Decide.{ℕ_discrete}
use effect_state_tree.Base.{
  ℕ, suc, ◌+◌, ◌≡◌, Bool, true, false, ◌&&◌, Option, none, some, List, [], ◌∷◌, ◌==◌, if◌then◌else◌,
}
use effect_state_tree.Base.Text.{Text, text_eq}

-- Primitives and functions: `number n` is the natural number n, and `other_number b` any other
-- number by its bit pattern, with one pattern for NaN; `other k` is the k-th symbol, function or
-- big integer.
pub data Leaf : Type 0 where
  undefined null : Leaf
  boolean : Bool → Leaf
  number other_number other : ℕ → Leaf
  string : Text → Leaf

-- The reference of a container, and whether it is frozen.
pub record Header : Type 0 where
  pub ref : ℕ
  pub frozen : Bool

-- `arr` is a dense array, `obj` a plain object with its enumerable string keys in order (the flag
-- says whether it has enumerable symbol keys), and `opaque` any other object by its reference, with
-- its own data properties.
mutual
  pub data Value : Type 0 where
    leaf : Leaf → Value
    opaque : ℕ → Fields → Value
    arr : Header → Items → Value
    obj : Header → Bool → Fields → Value

  pub data Items : Type 0 where
    nil : Items
    cons : Value → Items → Items

  pub data Fields : Type 0 where
    end : Fields
    field : Text → Value → Fields → Fields

pub Value-discrete : Discrete Value
Value-discrete = hlevel ℕ_discrete

-- `Object.is`: one object is one reference with one content, so equality of reference and content
-- together is identity, and no heap is needed.
unfoldable pub object_is : Value → Value → Bool
unfolding Value-discrete ℕ_discrete
object_is v w = elim (Value-discrete v w) [ yes _ ↦ true | no _ ↦ false ]

-- An `AtomicInterpreter`: application code. `capture` gives `none` where it throws.
pub record Interpreter : Type 0 where
  pub is : Value → Bool
  pub capture : Value → Option Value
  pub is_snapshot : Value → Bool
  pub equals : Option (Value → Value → Bool)

abbrev pub Options : Type 0
Options = List Interpreter

-- The first interpreter that owns the value, with its place in the list.
unfoldable pub find_interpreter : Value → Options → Option (ℕ × Interpreter)
find_interpreter v [] = none
find_interpreter v (i ∷ rest) =
    let later = find_interpreter v rest in
    if i.is v then some (0, i) else elim later [ none ↦ none | some (n, j) ↦ some (suc n, j) ]

abbrev interpreter_equals : Interpreter → Value → Value → Bool
interpreter_equals i v w = elim i.equals [ none ↦ object_is v w | some eq ↦ eq v w ]

abbrev compare_atoms :
    Option (ℕ × Interpreter) → Option (ℕ × Interpreter) → Value → Value → Option Bool
compare_atoms none none v w = none
compare_atoms (some (m, i)) (some (n, j)) v w =
    if m == n then some (interpreter_equals i v w) else some false
compare_atoms none (some b) v w = some false
compare_atoms (some a) none v w = some false

unfoldable pub atomic_snapshot_equality : Value → Value → Options → Option Bool
unfolding find_interpreter
atomic_snapshot_equality v w opts =
    compare_atoms (find_interpreter v opts) (find_interpreter w opts) v w

unfoldable pub lookup : Text → Fields → Option Value
lookup k end = none
lookup k (field j v fs) = if text_eq j k then some v else lookup k fs

unfoldable pub count_items : Items → ℕ
count_items nil = 0
count_items (cons v xs) = suc (count_items xs)

unfoldable pub count_fields : Fields → ℕ
count_fields end = 0
count_fields (field k v fs) = suc (count_fields fs)

-- The tests that `deepEqualSnapshot` makes before it compares the containers.
abbrev shortcut : Options → Value → Value → Bool → Bool
shortcut opts v w containers =
    if object_is v w
    then true
    else elim (atomic_snapshot_equality v w opts) [ some b ↦ b | none ↦ containers ]

-- `deepEqualSnapshot`
unfoldable mutual
  unfolding object_is atomic_snapshot_equality lookup count_items count_fields

  pub deep_equal : Options → Value → Value → Bool
  deep_equal opts (leaf a) w = shortcut opts (leaf a) w false
  deep_equal opts (opaque r fs) w = shortcut opts (opaque r fs) w false
  deep_equal opts (arr h xs) w =
      shortcut opts (arr h xs) w (elim w [
        | arr _ ys ↦ count_items xs == count_items ys && items_equal opts xs ys
        | _ ↦ false
      ])
  deep_equal opts (obj h s fs) w = shortcut opts (obj h s fs) w (elim w [
    | obj _ _ gs ↦ count_fields fs == count_fields gs && fields_equal opts fs gs
    | _ ↦ false
  ])

  pub items_equal : Options → Items → Items → Bool
  items_equal opts nil ys = true
  items_equal opts (cons x xs) ys = elim ys [
    | nil ↦ false
    | cons y rest ↦ deep_equal opts x y && items_equal opts xs rest
  ]

  pub fields_equal : Options → Fields → Fields → Bool
  fields_equal opts end gs = true
  fields_equal opts (field k v fs) gs = elim (lookup k gs) [
    | none ↦ false
    | some w ↦ deep_equal opts v w && fields_equal opts fs gs
  ]
