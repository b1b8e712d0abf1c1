-- ===== src/Crdt.antt =====
-- packages/crdt/src/crdt.ts: which commits are broadcast, the relocation of a commit onto another
-- snapshot and the projection of pending commits. The binding is in Crdt/Binding.antt. The
-- functions of other packages that depend on the tree's Schema are parameters.
pub mod Relocate
pub mod Project
pub mod Binding
pub mod Open
pub mod Consistent
use effect_state_tree.Base.{
  ℕ, zero, suc, ◌+◌, ◌==◌, Bool, true, false, not, ◌&&◌, ◌||◌, Option, none, some, List, [], ◌∷◌,
  ◌++◌, take, drop, init, last?, length, if◌then◌else◌,
}
use effect_state_tree.Base.Text.{Text, codes}
use effect_state_tree.Base.Result.{Result, ok, err, ◌>>=◌}
use effect_state_tree.Path.{Segment, TreePath, key, index, other}
use effect_state_tree.Snapshot.{Value, arr}
use effect_state_tree.Snapshot.Read.{PathFailure, get_at_path}
use effect_state_tree.Patch.{TreePatch, add, remove, replace, path_of}
use effect_state_tree.Patch.Batch.{AppliedPatches}
use effect_state_tree.Runtime.{
  EntityIdentity, SemanticOperation, object_set, object_delete, array_splice, array_move,
  text_insert, text_delete, Envelope, SourceToken,
}
use effect_state_tree.Runtime.Context.{has_tag}
use effect_state_tree.Identity.{EntityIndex, IndexEntry, entity_key, find_entry}

abbrev pub crdt_inbound_tag : Text
crdt_inbound_tag = codes "crdt.inbound"

abbrev pub crdt_skip_tag : Text
crdt_skip_tag = codes "crdt.skip"

abbrev pub is_source : SourceToken → Option SourceToken → Bool
is_source token none = false
is_source token (some t) = t == token

unfoldable pub should_broadcast : Envelope → SourceToken → Bool
unfolding has_tag
should_broadcast commit source =
    not (is_source source commit.info.source) && not (has_tag commit.info.tags crdt_skip_tag)

-- `CrdtRebaseError`, and the errors of the index and of the patches.
pub data RebaseError (E : Type 0) : Type 0 where
  entity_missing entity_range_changed : TreePath → EntityIdentity → RebaseError E
  other_error : E → RebaseError E

abbrev pub with_path : TreePatch → TreePath → TreePatch
with_path (remove old) path = remove path
with_path (add old v) path = add path v
with_path (replace old v) path = replace path v

-- `indexes.some((index, offset) => index !== from + offset)`, from an offset on
abbrev pub is_scattered : ℕ → List ℕ → Bool
is_scattered n [] = false
is_scattered n (i ∷ is) = not (i == n) || is_scattered (suc n) is

abbrev pub operation_path : SemanticOperation → TreePath
operation_path (object_set p k v previous had) = p
operation_path (object_delete p k previous) = p
operation_path (array_splice p i n inserted removed) = p
operation_path (array_move p from to count moved) = p
operation_path (text_insert p i t) = p
operation_path (text_delete p i t) = p

module _ {E : Type 0} (encode : Text → Text)
    (identity_at : Value → TreePath → Option EntityIdentity) where
  abbrev pub moved_to :
      TreePath → EntityIdentity → TreePath → Option IndexEntry → Result (RebaseError E) TreePath
  moved_to path identity rest none = err (entity_missing path identity)
  moved_to path identity rest (some current) = ok (current.path ++ rest)

  abbrev pub relocate_at :
      EntityIndex
      → TreePath
      → Option EntityIdentity
      → TreePath
      → Result (RebaseError E) TreePath
      → Result (RebaseError E) TreePath
  relocate_at entities path none rest shallower = shallower
  relocate_at entities path (some identity) rest shallower =
      moved_to path identity rest (find_entry (entity_key encode identity) entities)

  -- The loop of `relocatePath`, from a depth down.
  unfoldable pub relocate_from :
      Value → EntityIndex → TreePath → ℕ → Result (RebaseError E) TreePath
  unfolding entity_key
  relocate_from authored entities path zero = ok path
  relocate_from authored entities path (suc depth) =
      relocate_at entities path (identity_at authored (take (suc depth) path))
        (drop (suc depth) path) (relocate_from authored entities path depth)

  unfoldable pub relocate_path : Value → EntityIndex → TreePath → Result (RebaseError E) TreePath
  unfolding relocate_from
  relocate_path authored entities path = relocate_from authored entities path (length path)

  unfoldable pub relocate_patch : Value → EntityIndex → TreePatch → Result (RebaseError E) TreePatch
  unfolding relocate_path
  relocate_patch authored entities patch =
      relocate_path authored entities (path_of patch) >>= λ path. ok (with_path patch path)

  unfoldable pub relocate_patches :
      Value → EntityIndex → List TreePatch → Result (RebaseError E) (List TreePatch)
  unfolding relocate_patch
  relocate_patches authored entities [] = ok []
  relocate_patches authored entities (p ∷ ps) = relocate_patch authored entities p >>= λ q.
      relocate_patches authored entities ps >>= λ qs. ok (q ∷ qs)

  module _ (same_path : TreePath → TreePath → Bool) where
    -- The last segment of an entity's path, where that is an index below `path`.
    abbrev pub index_below :
        TreePath → EntityIdentity → TreePath → Option Segment → Result (RebaseError E) ℕ
    index_below path identity parent (some (index i)) =
        if same_path parent path then ok i else err (entity_missing path identity)
    index_below path identity parent segment = err (entity_missing path identity)

    abbrev pub current_index :
        TreePath → EntityIdentity → Option IndexEntry → Result (RebaseError E) ℕ
    current_index path identity none = err (entity_missing path identity)
    current_index path identity (some e) = index_below path identity (init e.path) (last? e.path)

    abbrev pub current_indexes :
        EntityIndex → TreePath → List EntityIdentity → Result (RebaseError E) (List ℕ)
    current_indexes entities path [] = ok []
    current_indexes entities path (i ∷ is) =
        current_index path i (find_entry (entity_key encode i) entities) >>= λ n.
        current_indexes entities path is >>= λ ns. ok (n ∷ ns)

    abbrev pub in_array :
        TreePath → EntityIdentity → ℕ → Result PathFailure Value → Result (RebaseError E) ℕ
    in_array path first from (ok (arr h xs)) = ok from
    in_array path first from r = err (entity_range_changed path first)

    abbrev pub move_from : Value → TreePath → EntityIdentity → List ℕ → Result (RebaseError E) ℕ
    move_from authoritative path first [] = err (entity_range_changed path first)
    move_from authoritative path first (from ∷ rest) =
        if is_scattered from (from ∷ rest)
        then err (entity_range_changed path first)
        else in_array path first from (get_at_path authoritative path)

    unfoldable pub relocate_move_from :
        Value → EntityIndex → TreePath → ℕ → ℕ → List EntityIdentity → Result (RebaseError E) ℕ
    unfolding get_at_path entity_key
    relocate_move_from authoritative entities path from count [] = ok from
    relocate_move_from authoritative entities path from count (first ∷ more) =
        if length (first ∷ more) == count
        then current_indexes entities path (first ∷ more) >>= move_from authoritative path first
        else ok from

    -- The operation at another path.
    abbrev pub place :
        Value
        → EntityIndex
        → SemanticOperation
        → TreePath
        → Result (RebaseError E) SemanticOperation
    place authoritative entities (object_set old k v previous had) path =
        ok (object_set path k v previous had)
    place authoritative entities (object_delete old k previous) path =
        ok (object_delete path k previous)
    place authoritative entities (array_splice old i n inserted removed) path =
        ok (array_splice path i n inserted removed)
    place authoritative entities (text_insert old i t) path = ok (text_insert path i t)
    place authoritative entities (text_delete old i t) path = ok (text_delete path i t)
    place authoritative entities (array_move old from to count moved) path =
        relocate_move_from authoritative entities path from count moved >>= λ start.
        ok (array_move path start to count moved)

    unfoldable pub relocate_operation :
        Value → Value → EntityIndex → SemanticOperation → Result (RebaseError E) SemanticOperation
    unfolding relocate_path relocate_move_from
    relocate_operation authored authoritative entities operation =
        relocate_path authored entities (operation_path operation)
        >>= place authoritative entities operation

    unfoldable pub relocate_operations :
        Value
        → Value
        → EntityIndex
        → List SemanticOperation
        → Result (RebaseError E) (List SemanticOperation)
    unfolding relocate_operation
    relocate_operations authored authoritative entities [] = ok []
    relocate_operations authored authoritative entities (o ∷ os) =
        relocate_operation authored authoritative entities o >>= λ moved.
        relocate_operations authored authoritative entities os >>= λ rest. ok (moved ∷ rest)

    module _ (build_index : Value → Result E EntityIndex)
        (apply_tree_patches : Value → List TreePatch → Result E AppliedPatches) where
      abbrev pub other_errors : {A : Type 0} → Result E A → Result (RebaseError E) A
      other_errors (ok a) = ok a
      other_errors (err e) = err (other_error e)

      abbrev pub rebased : Envelope → Value → List SemanticOperation → AppliedPatches → Envelope
      rebased commit base operations applied = record commit {
        proposal = record commit.proposal {
          before = base;
          after = applied.snapshot;
          change = record commit.change { patches = applied.patch_set; operations = operations };
          touched_paths = applied.touched_paths;
        };
      }

      unfoldable pub rebase_commit : Envelope → Value → Result (RebaseError E) Envelope
      unfolding relocate_patches relocate_operations
      rebase_commit commit base = do
        entities ← other_errors (build_index base)
        forward ← relocate_patches commit.before entities commit.change.patches.forward
        operations ← relocate_operations commit.before base entities commit.change.operations
        applied ← other_errors (apply_tree_patches base forward)
        ok (rebased commit base operations applied)

      -- The loop of `projectPending`.
      unfoldable pub project_pending : Value → List Envelope → Result (RebaseError E) Value
      unfolding rebase_commit
      project_pending snapshot [] = ok snapshot
      project_pending snapshot (c ∷ pending) =
          rebase_commit c snapshot >>= λ next. project_pending next.after pending
