-- ===== src/Snapshot/Admission.antt =====
-- packages/core/src/snapshot.ts: `findSnapshotError` and `validateSnapshotShape`. The `seen` map is
-- a list of references with their paths.
use effect_state_tree.Base.{
  ℕ, ◌+◌, Bool, true, false, not, ◌&&◌, ◌||◌, Option, none, some, List, [], ◌∷◌, ◌++◌, ◌==◌,
  if◌then◌else◌,
}
use effect_state_tree.Base.Result.{Result, ok, err, ◌>>=◌}
use effect_state_tree.Path.{TreePath, key, index}
use effect_state_tree.Snapshot.{
  Value, Items, Fields, Header, Options, leaf, opaque, arr, obj, nil, cons, end, field,
  find_interpreter,
}

-- `SnapshotError`: the reasons of `UnsupportedTreeNodeError` that snapshots give, and
-- `AliasedNodeError`.
pub data SnapshotError : Type 0 where
  mutable_atomic mutable_container symbol_key : TreePath → SnapshotError
  aliased : (first_path second_path : TreePath) → SnapshotError

abbrev pub Seen : Type 0
Seen = List (ℕ × TreePath)

unfoldable pub seen_at : ℕ → Seen → Option TreePath
seen_at r [] = none
seen_at r ((q, path) ∷ seen) = if q == r then some path else seen_at r seen

-- `allow` is `allowUncapturedAtomics`, `strict` is `requireFrozenContainers`.
abbrev visit_node :
    Options → Bool → Seen → TreePath → Value → Result SnapshotError Seen → Result SnapshotError Seen
visit_node opts allow seen path v rest = elim (find_interpreter v opts) [
  | some (_, i) ↦ if allow || i.is_snapshot v then ok seen else err (mutable_atomic path)
  | none ↦ rest
]

abbrev visit_container :
    Bool → Header → Bool → Seen → TreePath → Result SnapshotError Seen → Result SnapshotError Seen
visit_container strict h symbols seen path rest =
    if strict && not h.frozen then err (mutable_container path) else elim (seen_at h.ref seen) [
      | some first ↦ err (aliased first path)
      | none ↦ if symbols then err (symbol_key path) else rest
    ]

unfoldable mutual
  unfolding find_interpreter seen_at

  pub visit : Options → (allow strict : Bool) → Seen → TreePath → Value → Result SnapshotError Seen
  visit opts allow strict seen path (leaf a) = visit_node opts allow seen path (leaf a) (ok seen)
  visit opts allow strict seen path (opaque r fs) =
      visit_node opts allow seen path (opaque r fs) (err (mutable_atomic path))
  visit opts allow strict seen path (arr h xs) =
      let rest = visit_items opts allow strict ((h.ref, path) ∷ seen) path 0 xs in
      visit_node opts allow seen path (arr h xs) (visit_container strict h false seen path rest)
  visit opts allow strict seen path (obj h symbols fs) =
      let rest = visit_fields opts allow strict ((h.ref, path) ∷ seen) path fs in
      visit_node opts allow seen path (obj h symbols fs)
        (visit_container strict h symbols seen path rest)

  pub visit_items :
      Options → (allow strict : Bool) → Seen → TreePath → ℕ → Items → Result SnapshotError Seen
  visit_items opts allow strict seen path i nil = ok seen
  visit_items opts allow strict seen path i (cons v xs) =
      visit opts allow strict seen (path ++ index i ∷ []) v >>= λ seen'.
      visit_items opts allow strict seen' path (i + 1) xs

  pub visit_fields :
      Options → (allow strict : Bool) → Seen → TreePath → Fields → Result SnapshotError Seen
  visit_fields opts allow strict seen path end = ok seen
  visit_fields opts allow strict seen path (field k v fs) =
      visit opts allow strict seen (path ++ key k ∷ []) v >>= λ seen'.
      visit_fields opts allow strict seen' path fs

abbrev pub error_of : Result SnapshotError Seen → Option SnapshotError
error_of (ok _) = none
error_of (err e) = some e

unfoldable pub find_snapshot_error : Value → Options → (allow strict : Bool) → Option SnapshotError
find_snapshot_error v opts allow strict = error_of (visit opts allow strict [] [] v)

abbrev shape_result : Option SnapshotError → Result SnapshotError (Unit {0})
shape_result none = ok tt
shape_result (some e) = err e

unfoldable pub validate_snapshot_shape : Value → Options → Result SnapshotError (Unit {0})
unfolding find_snapshot_error
validate_snapshot_shape v opts = shape_result (find_snapshot_error v opts false true)
