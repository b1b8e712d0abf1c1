-- ===== src/Snapshot/Container.antt =====
-- What packages/core/src takes from JavaScript's arrays and objects: elements by index, `splice`,
-- properties by key, definition and deletion, with the laws that relate them.
use effect_state_tree.Base.{
  ℕ, zero, suc, ◌+◌, ◌<◌, ◌≤◌, ◌≡◌, refl, ap, Option, none, some, arith, ◌==◌, if◌then◌else◌,
  Bool-cases, inl, inr,
}
use effect_state_tree.Base.Text.{Text, text_eq, text_eq_iff, text_eq_refl}
use effect_state_tree.Snapshot.{Value, Items, Fields, nil, cons, end, field, lookup, count_items}

unfoldable pub item : ℕ → Items → Option Value
item i nil = none
item zero (cons v xs) = some v
item (suc i) (cons v xs) = item i xs

-- `xs[i] = v`, for an index of the array
unfoldable pub set_item : ℕ → Value → Items → Items
set_item i v nil = nil
set_item zero v (cons x xs) = cons v xs
set_item (suc i) v (cons x xs) = cons x (set_item i v xs)

-- `xs.splice(i, 0, v)`
unfoldable pub insert_item : ℕ → Value → Items → Items
insert_item zero v xs = cons v xs
insert_item (suc i) v nil = cons v nil
insert_item (suc i) v (cons x xs) = cons x (insert_item i v xs)

-- `xs.splice(i, 1)`
unfoldable pub remove_item : ℕ → Items → Items
remove_item i nil = nil
remove_item zero (cons x xs) = xs
remove_item (suc i) (cons x xs) = cons x (remove_item i xs)

-- `Object.defineProperty`: in place if the key is there, at the end if it is not
unfoldable pub define : Text → Value → Fields → Fields
define k v end = field k v end
define k v (field j w fs) = if text_eq j k then field j v fs else field j w (define k v fs)

-- `Reflect.deleteProperty`
unfoldable pub delete : Text → Fields → Fields
delete k end = end
delete k (field j w fs) = let rest = delete k fs in if text_eq j k then rest else field j w rest

pub item-lt : (i : ℕ) (xs : Items) {v : Value} → item i xs ≡ some v → i < count_items xs
unfolding item count_items
item-lt i nil h = cc
item-lt zero (cons x xs) h = omega arith
item-lt (suc i) (cons x xs) h = omega (arith, item-lt i xs h)

pub item-some : (i : ℕ) (xs : Items) → i < count_items xs → (v : Value) × (item i xs ≡ some v)
unfolding item count_items
item-some i nil h = absurd (omega arith)
item-some zero (cons x xs) h = (x, refl)
item-some (suc i) (cons x xs) h = item-some i xs (omega arith)

pub item-set_item :
    (i j : ℕ) (v : Value) (xs : Items)
    → i < count_items xs
    → item j (set_item i v xs) ≡ (if i == j then some v else item j xs)
unfolding item set_item count_items
item-set_item i j v nil h = absurd (omega arith)
item-set_item zero zero v (cons x xs) h = refl
item-set_item zero (suc j) v (cons x xs) h = ground arith
item-set_item (suc i) zero v (cons x xs) h = ground arith
item-set_item (suc i) (suc j) v (cons x xs) h = ground (arith, item-set_item i j v xs)

pub count_items-set_item :
    (i : ℕ) (v : Value) (xs : Items) → count_items (set_item i v xs) ≡ count_items xs
unfolding set_item count_items
count_items-set_item i v nil = refl
count_items-set_item zero v (cons x xs) = refl
count_items-set_item (suc i) v (cons x xs) = omega (arith, count_items-set_item i v xs)

count_items-insert_item :
    (i : ℕ) (v : Value) (xs : Items) → count_items (insert_item i v xs) ≡ count_items xs + 1
unfolding insert_item count_items
count_items-insert_item zero v xs = omega arith
count_items-insert_item (suc i) v nil = omega arith
count_items-insert_item (suc i) v (cons x xs) = omega (arith, count_items-insert_item i v xs)

pub item-insert_item_self :
    (i : ℕ) (v : Value) (xs : Items) → i ≤ count_items xs → item i (insert_item i v xs) ≡ some v
unfolding item insert_item count_items
item-insert_item_self zero v xs h = refl
item-insert_item_self (suc i) v nil h = absurd (omega arith)
item-insert_item_self (suc i) v (cons x xs) h = item-insert_item_self i v xs (omega arith)

-- Below the place of an insertion nothing moves, above it everything moves up.
item-insert_item_lt :
    (i j : ℕ) (v : Value) (xs : Items)
    → j < i
    → i ≤ count_items xs
    → item j (insert_item i v xs) ≡ item j xs
unfolding item insert_item count_items
item-insert_item_lt zero j v xs h k = absurd (omega arith)
item-insert_item_lt (suc i) j v nil h k = absurd (omega arith)
item-insert_item_lt (suc i) zero v (cons x xs) h k = refl
item-insert_item_lt (suc i) (suc j) v (cons x xs) h k =
    item-insert_item_lt i j v xs (omega arith) (omega arith)

pub remove_item-insert_item :
    (i : ℕ) (v : Value) (xs : Items) → i ≤ count_items xs → remove_item i (insert_item i v xs) ≡ xs
unfolding remove_item insert_item count_items
remove_item-insert_item zero v xs h = refl
remove_item-insert_item (suc i) v nil h = absurd (omega arith)
remove_item-insert_item (suc i) v (cons x xs) h =
    ap (cons x) (remove_item-insert_item i v xs (omega arith))

pub insert_item-remove_item :
    (i : ℕ) (xs : Items) {v : Value} → item i xs ≡ some v → insert_item i v (remove_item i xs) ≡ xs
unfolding item remove_item insert_item
insert_item-remove_item i nil h = cc
insert_item-remove_item zero (cons x xs) h = cc
insert_item-remove_item (suc i) (cons x xs) h = ap (cons x) (insert_item-remove_item i xs h)

pub count_items-remove_item :
    (i : ℕ) (xs : Items) → i < count_items xs → count_items (remove_item i xs) + 1 ≡ count_items xs
unfolding remove_item count_items
count_items-remove_item i nil h = absurd (omega arith)
count_items-remove_item zero (cons x xs) h = omega arith
count_items-remove_item (suc i) (cons x xs) h =
    omega (arith, count_items-remove_item i xs (omega arith))

pub lookup-define :
    (k j : Text) (v : Value) (fs : Fields)
    → lookup j (define k v fs) ≡ (if text_eq k j then some v else lookup j fs)
unfolding lookup define
lookup-define k j v end = refl
lookup-define k j v (field i w fs) =
    ground (arith, text_eq_iff k j, text_eq_iff i k, text_eq_iff i j, lookup-define k j v fs)

pub lookup-delete :
    (k j : Text) (fs : Fields)
    → lookup j (delete k fs) ≡ (if text_eq k j then none else lookup j fs)
unfolding lookup delete
lookup-delete k j end = ground arith
lookup-delete k j (field i w fs) =
    ground (arith, text_eq_iff k j, text_eq_iff i k, text_eq_iff i j, lookup-delete k j fs)

pub item-set_item_self :
    (i : ℕ) (v : Value) (xs : Items) {w : Value}
    → item i xs ≡ some w
    → item i (set_item i v xs) ≡ some v
unfolding item set_item
item-set_item_self i v nil h = cc
item-set_item_self zero v (cons x xs) h = refl
item-set_item_self (suc i) v (cons x xs) h = item-set_item_self i v xs h

-- Writing an element back.
pub set_item-set_item :
    (i : ℕ) (v : Value) (xs : Items) {w : Value}
    → item i xs ≡ some w
    → set_item i w (set_item i v xs) ≡ xs
unfolding item set_item
set_item-set_item i v nil h = cc
set_item-set_item zero v (cons x xs) h = cc
set_item-set_item (suc i) v (cons x xs) h = ap (cons x) (set_item-set_item i v xs h)

pub set_item_self : (i : ℕ) (v : Value) (xs : Items) → item i xs ≡ some v → set_item i v xs ≡ xs
unfolding item set_item
set_item_self i v nil h = refl
set_item_self zero v (cons x xs) h = cc
set_item_self (suc i) v (cons x xs) h = ap (cons x) (set_item_self i v xs h)

pub set_item_twice :
    (i : ℕ) (v w : Value) (xs : Items) → set_item i w (set_item i v xs) ≡ set_item i w xs
unfolding set_item
set_item_twice i v w nil = refl
set_item_twice zero v w (cons x xs) = refl
set_item_twice (suc i) v w (cons x xs) = ap (cons x) (set_item_twice i v w xs)

pub define_twice :
    (k : Text) (v w : Value) (fs : Fields) → define k w (define k v fs) ≡ define k w fs
unfolding define
define_twice k v w end = rw (text_eq_refl k)
define_twice k v w (field j x fs) = elim (Bool-cases (text_eq j k)) [
  | inl e ↦ rw (e, e)
  | inr e ↦ rw (e, e) (ap (field j x) (define_twice k v w fs))
]
