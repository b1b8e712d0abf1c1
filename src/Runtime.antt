-- ===== src/Runtime.antt =====
-- packages/producer/src/operations.ts, packages/runtime/src/{types,context}.ts: changes, commits and
-- the commit context. The store is in Runtime/Store.antt.
pub mod Context
pub mod Store
pub mod Linear
pub mod Notify
pub mod View
pub mod Checkpoint
pub mod Plugin
use effect_state_tree.Base.{ℕ, Bool, Option, List}
use effect_state_tree.Base.Text.{Text}
use effect_state_tree.Path.{TreePath}
use effect_state_tree.Snapshot.{Value}
use effect_state_tree.Patch.{TreePatch, PatchSet}

-- A stable id: a string, or a number by its text `String(id)`.
pub data EntityId : Type 0 where
  string_id number_id : Text → EntityId

pub record EntityIdentity : Type 0 where
  pub entity_type : Text
  pub id : EntityId

pub data SemanticOperation : Type 0 where
  object_set :
      TreePath → Text → (value previous : Value) → (had_previous : Bool) → SemanticOperation
  object_delete : TreePath → Text → (previous : Value) → SemanticOperation
  array_splice :
      TreePath → (index delete_count : ℕ) → (inserted removed : List Value) → SemanticOperation
  array_move : TreePath → (from to count : ℕ) → List EntityIdentity → SemanticOperation
  text_insert text_delete : TreePath → (index : ℕ) → Text → SemanticOperation

pub record ChangeSet : Type 0 where
  pub patches : PatchSet
  pub operations : List SemanticOperation
  pub inverse_operations : List SemanticOperation

pub record ProducedChange : Type 0 where
  pub snapshot : Value
  pub change : ChangeSet
  pub touched_paths : List TreePath

-- The two lists of operations may be left out.
pub record ApplyChangeInput : Type 0 where
  pub patches : PatchSet
  pub operations : Option (List SemanticOperation)
  pub inverse_operations : Option (List SemanticOperation)

pub record TreeActionInfo : Type 0 where
  pub id : Text
  pub name : Text

-- A `SourceToken`, by its identity.
abbrev pub SourceToken : Type 0
SourceToken = ℕ

-- What a commit inherits or is given besides its change; the tags are a set, in iteration order.
pub record CommitInfo : Type 0 where
  pub tags : List Text
  pub label : Option Text
  pub source : Option SourceToken
  pub action : Option TreeActionInfo

pub record ProposedCommit : Type 0 where
  pub transaction_id : Text
  pub revision_before : ℕ
  pub before : Value
  pub after : Value
  pub change : ChangeSet
  pub touched_paths : List TreePath
  pub info : CommitInfo

-- `ChangeEnvelope`
pub record Envelope : Type 0 where
  pub proposal : ProposedCommit
  pub open proposal use *
  pub revision_after : ℕ
  pub committed_at : ℕ
