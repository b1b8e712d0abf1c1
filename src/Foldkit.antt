-- ===== src/Foldkit.antt =====
-- packages/foldkit/src/index.ts: the pure model/message/update form of a tree. `applyTreePatches`
-- and `reconcileTreeSnapshot`, under the tree's Schema, are parameters.
pub mod Refines
use effect_state_tree.Base.{
  ℕ, ◌+◌, Bool, true, false, ◌||◌, Option, none, some, List, [], ◌∷◌, map, if◌then◌else◌,
}
use effect_state_tree.Base.Text.{Text}
use effect_state_tree.Base.Result.{Result, ok, err, ◌>>=◌}
use effect_state_tree.Path.{TreePath}
use effect_state_tree.Snapshot.{Value}
use effect_state_tree.Patch.{TreePatch}
use effect_state_tree.Patch.Batch.{AppliedPatches}
use effect_state_tree.Runtime.{ChangeSet, SourceToken}
use effect_state_tree.Runtime.Context.{union_tags}
use effect_state_tree.Runtime.Store.{is_empty}

-- `FoldkitCommitContext`; metadata, which nothing reads, is left out.
pub record CommitContext : Type 0 where
  pub transaction_id : Text
  pub committed_at : ℕ
  pub label : Option Text
  pub source : Option SourceToken
  pub tags : Option (List Text)

pub data Direction : Type 0 where
  local external : Direction

-- `FoldkitTreeCommit`
pub record TreeCommit : Type 0 where
  pub transaction_id : Text
  pub revision_before : ℕ
  pub revision_after : ℕ
  pub before : Value
  pub after : Value
  pub change : ChangeSet
  pub touched_paths : List TreePath
  pub tags : List Text
  pub committed_at : ℕ
  pub direction : Direction
  pub label : Option Text
  pub source : Option SourceToken

pub record TreeState (Plugin : Type 0) : Type 0 where
  pub tree : Value
  pub revision : ℕ
  pub plugin : Plugin

pub data TreeMessage : Type 0 where
  tree_change : ChangeSet → CommitContext → TreeMessage
  tree_snapshot : Value → CommitContext → TreeMessage
  external_tree_change : ChangeSet → CommitContext → TreeMessage
  external_tree_snapshot : Value → CommitContext → TreeMessage

pub record Reduction (Plugin Command Out : Type 0) : Type 0 where
  pub state : Plugin
  pub commands : List Command
  pub out_messages : List Out

-- `FoldkitTreeUpdateResult`; `no_change` carries its state, and no commands or messages.
pub data UpdateResult (Plugin Command Out : Type 0) : Type 0 where
  no_change : TreeState Plugin → UpdateResult Plugin Command Out
  committed :
      TreeState Plugin → List Command → List Out → TreeCommit → UpdateResult Plugin Command Out

abbrev pub is_change_message : TreeMessage → Bool
is_change_message (tree_change c ctx) = true
is_change_message (external_tree_change c ctx) = true
is_change_message (tree_snapshot s ctx) = false
is_change_message (external_tree_snapshot s ctx) = false

unfoldable pub is_external_message : TreeMessage → Bool
is_external_message (external_tree_change c ctx) = true
is_external_message (external_tree_snapshot s ctx) = true
is_external_message (tree_change c ctx) = false
is_external_message (tree_snapshot s ctx) = false

abbrev pub context_of : TreeMessage → CommitContext
context_of (tree_change c ctx) = ctx
context_of (tree_snapshot s ctx) = ctx
context_of (external_tree_change c ctx) = ctx
context_of (external_tree_snapshot s ctx) = ctx

-- The change of a commit: a message's operations go with the patches that were applied.
unfoldable pub change_of : TreeMessage → AppliedPatches → ChangeSet
change_of (tree_change c ctx) applied = record c { patches = applied.patch_set }
change_of (external_tree_change c ctx) applied = record c { patches = applied.patch_set }
change_of (tree_snapshot s ctx) applied = record {
  patches = applied.patch_set;
  operations = [];
  inverse_operations = [];
}
change_of (external_tree_snapshot s ctx) applied = record {
  patches = applied.patch_set;
  operations = [];
  inverse_operations = [];
}

abbrev pub given_tags : Option (List Text) → List Text
given_tags none = []
given_tags (some tags) = tags

unfoldable pub commit_of : TreeMessage → Value → ℕ → AppliedPatches → TreeCommit
unfolding change_of is_external_message union_tags
commit_of message tree revision applied = record {
  transaction_id = (context_of message).transaction_id;
  revision_before = revision;
  revision_after = revision + 1;
  before = tree;
  after = applied.snapshot;
  change = change_of message applied;
  touched_paths = applied.touched_paths;
  tags = union_tags [] (given_tags (context_of message).tags);
  committed_at = (context_of message).committed_at;
  direction = if is_external_message message then external else local;
  label = (context_of message).label;
  source = (context_of message).source;
}

-- The application's reducer, which may be left out.
abbrev pub reduced :
    {Plugin Command Out : Type 0}
    → Option (Plugin → TreeCommit → Reduction Plugin Command Out)
    → Plugin
    → TreeCommit
    → Reduction Plugin Command Out
reduced none plugin commit = record { state = plugin; commands = []; out_messages = [] }
reduced (some reduce) plugin commit = reduce plugin commit

abbrev pub committed_result :
    {Plugin Command Out : Type 0}
    → TreeCommit
    → Reduction Plugin Command Out
    → UpdateResult Plugin Command Out
committed_result commit r =
    committed (record { tree = commit.after; revision = commit.revision_after; plugin = r.state })
      r.commands r.out_messages commit

module _ {E : Type 0} (apply_tree_patches : Value → List TreePatch → Result E AppliedPatches)
    (reconcile : Value → Value → Result E AppliedPatches) where
  unfoldable pub changed : Value → TreeMessage → Result E AppliedPatches
  changed tree (tree_change c ctx) = apply_tree_patches tree c.patches.forward
  changed tree (external_tree_change c ctx) = apply_tree_patches tree c.patches.forward
  changed tree (tree_snapshot s ctx) = reconcile tree s
  changed tree (external_tree_snapshot s ctx) = reconcile tree s

  unfoldable pub update :
      {Plugin Command Out : Type 0}
      → Option (Plugin → TreeCommit → Reduction Plugin Command Out)
      → TreeState Plugin
      → TreeMessage
      → Result E (UpdateResult Plugin Command Out)
  unfolding changed commit_of
  update reducer state message = changed state.tree message >>= λ applied. ok (
      if is_empty applied.patch_set.forward
      then no_change state
      else committed_result (commit_of message state.tree state.revision applied)
          (reduced reducer state.plugin (commit_of message state.tree state.revision applied)))

-- `makeFoldkitTree` once the initial snapshot is captured.
unfoldable pub initial_tree : {Plugin : Type 0} → Value → Plugin → TreeState Plugin
initial_tree admitted plugin = record { tree = admitted; revision = 0; plugin = plugin }

-- `makeFoldkitSubmodel`: how a parent holds a tree, and takes its outputs.
pub record Lifting (Parent Plugin Command ParentCommand Out ParentOut : Type 0) : Type 0 where
  pub get : Parent → TreeState Plugin
  pub set : Parent → TreeState Plugin → Parent
  pub map_command : Command → ParentCommand
  pub map_out_message : Out → ParentOut

pub record SubmodelResult (Parent Command Out : Type 0) : Type 0 where
  pub parent : Parent
  pub commands : List Command
  pub out_messages : List Out
  pub commit : Option TreeCommit

module _ {Parent Plugin Command ParentCommand Out ParentOut : Type 0}
    (l : Lifting Parent Plugin Command ParentCommand Out ParentOut) where
  abbrev pub lift_result :
      Parent → UpdateResult Plugin Command Out → SubmodelResult Parent ParentCommand ParentOut
  lift_result parent (no_change state) = record {
    parent = l.set parent state;
    commands = [];
    out_messages = [];
    commit = none;
  }
  lift_result parent (committed state commands out commit) = record {
    parent = l.set parent state;
    commands = map l.map_command commands;
    out_messages = map l.map_out_message out;
    commit = some commit;
  }

  unfoldable pub update_submodel :
      {E : Type 0}
      → (TreeState Plugin → TreeMessage → Result E (UpdateResult Plugin Command Out))
      → Parent
      → TreeMessage
      → Result E (SubmodelResult Parent ParentCommand ParentOut)
  update_submodel feature parent message =
      feature (l.get parent) message >>= λ result. ok (lift_result parent result)
