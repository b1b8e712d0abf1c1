-- ===== src/Crdt/Project.antt =====
-- packages/crdt/src/crdt.ts: rebasing onto the snapshot a commit was made on, and projecting pending
-- commits in parts.
use effect_state_tree.Base.{◌≡◌, refl, Bool, Option, List, [], ◌∷◌, ◌++◌, All, inl, inr}
use effect_state_tree.Base.Text.{Text}
use effect_state_tree.Base.Result.{Result, ok, ◌>>=◌, Result-cases}
use effect_state_tree.Path.{TreePath}
use effect_state_tree.Snapshot.{Value}
use effect_state_tree.Patch.{TreePatch, add, remove, replace}
use effect_state_tree.Patch.Batch.{AppliedPatches}
use effect_state_tree.Runtime.{
  EntityIdentity, SemanticOperation, object_set, object_delete, array_splice, array_move,
  text_insert, text_delete, Envelope,
}
use effect_state_tree.Identity.{EntityIndex}
use effect_state_tree.Crdt.{
  relocate_patch, relocate_patches, relocate_operation, relocate_operations, rebase_commit, rebased,
  project_pending,
}
use effect_state_tree.Crdt.Relocate.{IsLocating, relocate_path_own}

-- Every operation but a move, which is found again by the entities it moves.
pub IsPlaced : SemanticOperation → Type 0
IsPlaced (array_move p from to count moved) = ⊥
IsPlaced o = Unit {0}

module _ {E : Type 0} (encode : Text → Text)
    (identity_at : Value → TreePath → Option EntityIdentity)
    (same_path : TreePath → TreePath → Bool) (build_index : Value → Result E EntityIndex)
    (apply_tree_patches : Value → List TreePatch → Result E AppliedPatches) where
  relocate_patch_own :
      (v : Value) (entities : EntityIndex) (p : TreePatch)
      → IsLocating encode identity_at entities v
      → relocate_patch {E = E} encode identity_at v entities p ≡ ok p
  unfolding relocate_patch
  relocate_patch_own v entities (add path w) h =
      rw (relocate_path_own encode identity_at v entities path h)
  relocate_patch_own v entities (remove path) h =
      rw (relocate_path_own encode identity_at v entities path h)
  relocate_patch_own v entities (replace path w) h =
      rw (relocate_path_own encode identity_at v entities path h)

  relocate_patches_own :
      (v : Value) (entities : EntityIndex) (ps : List TreePatch)
      → IsLocating encode identity_at entities v
      → relocate_patches {E = E} encode identity_at v entities ps ≡ ok ps
  unfolding relocate_patches
  relocate_patches_own v entities [] h = refl
  relocate_patches_own v entities (p ∷ ps) h =
      rw (relocate_patch_own v entities p h, relocate_patches_own v entities ps h)

  relocate_operation_own :
      (v w : Value) (entities : EntityIndex) (o : SemanticOperation)
      → IsPlaced o
      → IsLocating encode identity_at entities v
      → relocate_operation {E = E} encode identity_at same_path v w entities o ≡ ok o
  unfolding relocate_operation IsPlaced
  relocate_operation_own v w entities (object_set path k x y had) placed h =
      rw (relocate_path_own {E = E} encode identity_at v entities path h)
  relocate_operation_own v w entities (object_delete path k x) placed h =
      rw (relocate_path_own {E = E} encode identity_at v entities path h)
  relocate_operation_own v w entities (array_splice path i n xs ys) placed h =
      rw (relocate_path_own {E = E} encode identity_at v entities path h)
  relocate_operation_own v w entities (text_insert path i t) placed h =
      rw (relocate_path_own {E = E} encode identity_at v entities path h)
  relocate_operation_own v w entities (text_delete path i t) placed h =
      rw (relocate_path_own {E = E} encode identity_at v entities path h)
  relocate_operation_own v w entities (array_move path from to count moved) placed h =
      elim placed [ ]

  relocate_operations_own :
      (v w : Value) (entities : EntityIndex) (os : List SemanticOperation)
      → All IsPlaced os
      → IsLocating encode identity_at entities v
      → relocate_operations {E = E} encode identity_at same_path v w entities os ≡ ok os
  unfolding relocate_operations
  relocate_operations_own v w entities [] placed h = refl
  relocate_operations_own v w entities (o ∷ os) (here, placed) h = rw (
    relocate_operation_own v w entities o here h,
    relocate_operations_own v w entities os placed h,
  )

  -- A commit without moves that is rebased onto the snapshot it was made on is what its own patches
  -- give there: nothing is relocated, and the operations stay as they are.
  rebase_commit_own :
      (commit : Envelope) (entities : EntityIndex) (applied : AppliedPatches)
      → build_index commit.before ≡ ok entities
      → IsLocating encode identity_at entities commit.before
      → All IsPlaced commit.change.operations
      → apply_tree_patches commit.before commit.change.patches.forward ≡ ok applied
      → rebase_commit encode identity_at same_path build_index apply_tree_patches commit
          commit.before
        ≡ ok (
            rebased {E = E} encode identity_at same_path build_index apply_tree_patches commit
              commit.before commit.change.operations applied)
  unfolding rebase_commit
  rebase_commit_own commit entities applied built locating placed done = rw (
    built,
    relocate_patches_own commit.before entities commit.change.patches.forward locating,
    relocate_operations_own commit.before commit.before entities commit.change.operations placed
        locating,
    done,
  )

  -- Projecting pending commits in two parts gives the projection of all of them, failures included.
  project_pending-append :
      (snapshot : Value) (xs ys : List Envelope)
      → project_pending encode identity_at same_path build_index apply_tree_patches snapshot
          (xs ++ ys)
        ≡ (project_pending encode identity_at same_path build_index apply_tree_patches snapshot xs
            >>= λ next.
                project_pending encode identity_at same_path build_index apply_tree_patches next ys)
  unfolding project_pending
  project_pending-append snapshot [] ys = refl
  project_pending-append snapshot (c ∷ xs) ys =
      elim (Result-cases
        (rebase_commit encode identity_at same_path build_index apply_tree_patches c snapshot)) [
          | inl (next, e) ↦ rw e (project_pending-append next.after xs ys)
          | inr (failure, e) ↦ rw e
        ]
