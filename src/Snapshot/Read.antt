-- ===== src/Snapshot/Read.antt =====
-- packages/core/src/path.ts: `getAtPath` on tree values. Accessors and proxies, which can throw, are
-- not tree values, so the reason `AccessError` does not occur.
use effect_state_tree.Base.{
  ℕ, ◌+◌, Bool, true, false, not, ◌&&◌, Option, none, some, [], ◌∷◌, take, ltb, if◌then◌else◌,
}
use effect_state_tree.Base.Text.{text_eq, codes}
use effect_state_tree.Base.Result.{Result, ok, err}
use effect_state_tree.Path.{Segment, TreePath, key, index, other, safe_limit}
use effect_state_tree.Path.Decimal.{parse_from, is_canonical}
use effect_state_tree.Snapshot.{Value, leaf, opaque, arr, obj, number, lookup, count_items}
use effect_state_tree.Snapshot.Container.{item}

-- `Number.isSafeInteger(segment) && segment >= 0`, for a number
unfoldable pub is_valid_array_index : Segment → Bool
is_valid_array_index (index n) = ltb n safe_limit
is_valid_array_index (key k) = false
is_valid_array_index (other t) = false

abbrev pub is_number : Segment → Bool
is_number (key k) = false
is_number (index n) = true
is_number (other t) = true

abbrev is_traversable : Value → Bool
is_traversable (leaf a) = false
is_traversable v = true

abbrev is_array : Value → Bool
is_array (arr h xs) = true
is_array v = false

-- `Object.hasOwn` and `Reflect.get`: an array also owns its length and its indexes as strings.
unfoldable pub own_property : Value → Segment → Option Value
unfolding lookup item count_items is_canonical parse_from
own_property (leaf a) s = none
own_property (opaque r fs) (key k) = lookup k fs
own_property (opaque r fs) s = none
own_property (obj h symbols fs) (key k) = lookup k fs
own_property (obj h symbols fs) s = none
own_property (arr h xs) (index n) = item n xs
own_property (arr h xs) (other t) = none
own_property (arr h xs) (key k) =
    if text_eq k (codes "length")
    then some (leaf (number (count_items xs)))
    else if is_canonical k
    then item (parse_from 0 k) xs
    else none

pub data FailureReason : Type 0 where
  invalid_array_index expected_array not_traversable missing_segment : FailureReason

-- `GetAtPathFailure`
pub record PathFailure : Type 0 where
  pub reason : FailureReason
  pub path : TreePath
  pub at : ℕ
  pub segment : Segment
  pub traversed : TreePath

abbrev pub path_failure : FailureReason → TreePath → ℕ → Segment → PathFailure
path_failure reason path at segment = record {
  reason = reason;
  path = path;
  at = at;
  segment = segment;
  traversed = take at path;
}

-- The tests of one round of the loop, before the property is read.
unfoldable pub refuse : Value → Segment → Option FailureReason
unfolding is_valid_array_index
refuse v s =
    if is_number s && not (is_valid_array_index s)
    then some invalid_array_index
    else if not (is_traversable v)
    then some not_traversable
    else if is_number s && not (is_array v)
    then some expected_array
    else none

-- The property of one round, or the reason why there is none.
unfoldable pub follow : Value → Segment → Result FailureReason Value
unfolding refuse own_property
follow v s = elim (refuse v s) [
  | some reason ↦ err reason
  | none ↦ elim (own_property v s) [ none ↦ err missing_segment | some w ↦ ok w ]
]

-- The loop of `getAtPath`, after `at` segments.
unfoldable pub get_from : TreePath → ℕ → Value → TreePath → Result PathFailure Value
get_from path at v [] = ok v
get_from path at v (s ∷ rest) = elim (follow v s) [
  | err reason ↦ err (path_failure reason path at s)
  | ok w ↦ get_from path (at + 1) w rest
]

unfoldable pub get_at_path : Value → TreePath → Result PathFailure Value
unfolding get_from follow
get_at_path root path = get_from path 0 root path
