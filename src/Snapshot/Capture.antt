-- ===== src/Snapshot/Capture.antt =====
-- packages/core/src/snapshot.ts: `cloneAndFreeze` and `captureSnapshot`. The references of new
-- containers are counted up from `next`.
use effect_state_tree.Base.{
  ℕ, suc, ◌+◌, true, false, Option, none, some, [], ◌∷◌, ◌++◌, if◌then◌else◌,
}
use effect_state_tree.Base.Result.{Result, ok, err, ◌>>=◌}
use effect_state_tree.Path.{TreePath, key, index}
use effect_state_tree.Snapshot.{
  Value, Items, Fields, Header, Interpreter, Options, leaf, opaque, arr, obj, nil, cons, end, field,
  find_interpreter,
}
use effect_state_tree.Snapshot.Admission.{
  SnapshotError, mutable_atomic, find_snapshot_error, validate_snapshot_shape,
}

-- A frozen container that the code has just made.
abbrev pub fresh : ℕ → Header
fresh next = record { ref = next; frozen = true }

abbrev clone_atom : Interpreter → TreePath → ℕ → Value → Result SnapshotError (Value × ℕ)
clone_atom i path next v = if i.is_snapshot v then ok (v, next) else elim (i.capture v) [
  | none ↦ err (mutable_atomic path)
  | some c ↦ if i.is_snapshot c then ok (c, next) else err (mutable_atomic path)
]

abbrev clone_node :
    Options
    → TreePath
    → ℕ
    → Value
    → Result SnapshotError (Value × ℕ)
    → Result SnapshotError (Value × ℕ)
clone_node opts path next v rest = elim (find_interpreter v opts) [
  | some (_, i) ↦ clone_atom i path next v
  | none ↦ rest
]

-- `cloneAndFreeze`; a container takes its reference before its children.
unfoldable mutual
  unfolding find_interpreter

  pub clone : Options → TreePath → ℕ → Value → Result SnapshotError (Value × ℕ)
  clone opts path next (leaf a) = clone_node opts path next (leaf a) (ok (leaf a, next))
  clone opts path next (opaque r fs) =
      clone_node opts path next (opaque r fs) (ok (opaque r fs, next))
  clone opts path next (arr h xs) =
      let rest = clone_items opts path (suc next) 0 xs in
      clone_node opts path next (arr h xs) (rest >>= λ (ys, n). ok (arr (fresh next) ys, n))
  clone opts path next (obj h symbols fs) =
      let rest = clone_fields opts path (suc next) fs in
      clone_node opts path next (obj h symbols fs)
        (rest >>= λ (gs, n). ok (obj (fresh next) false gs, n))

  pub clone_items : Options → TreePath → ℕ → ℕ → Items → Result SnapshotError (Items × ℕ)
  clone_items opts path next i nil = ok (nil, next)
  clone_items opts path next i (cons v xs) = clone opts (path ++ index i ∷ []) next v >>= λ (w, n).
      clone_items opts path n (i + 1) xs >>= λ (ys, m). ok (cons w ys, m)

  pub clone_fields : Options → TreePath → ℕ → Fields → Result SnapshotError (Fields × ℕ)
  clone_fields opts path next end = ok (end, next)
  clone_fields opts path next (field k v fs) = clone opts (path ++ key k ∷ []) next v >>= λ (w, n).
      clone_fields opts path n fs >>= λ (gs, m). ok (field k w gs, m)

-- An admitted value is returned as it is, and one that is only mutable is cloned.
abbrev capture_by :
    Result SnapshotError (Unit {0})
    → Option SnapshotError
    → ℕ
    → Value
    → Result SnapshotError (Value × ℕ)
    → Result SnapshotError (Value × ℕ)
capture_by (ok _) error next v cloned = ok (v, next)
capture_by (err _) none next v cloned = cloned
capture_by (err _) (some e) next v cloned = err e

unfoldable pub capture_snapshot : Value → Options → ℕ → Result SnapshotError (Value × ℕ)
capture_snapshot v opts next =
    capture_by (validate_snapshot_shape v opts) (find_snapshot_error v opts true false) next v
      (clone opts [] next v)
