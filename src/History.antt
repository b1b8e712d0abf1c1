-- ===== src/History.antt =====
-- packages/history/src/history.ts: history entries, their combination and `recordHistory`. The live
-- controller is in History/Controller.antt.
pub mod Controller
pub mod Entries
pub mod Moves
pub mod Reached
pub mod Limit
use effect_state_tree.Base.{
  ℕ, suc, ◌+◌, ◌-◌, Bool, true, false, ◌||◌, ◌&&◌, Option, none, some, List, [], ◌∷◌, ◌++◌,
  if◌then◌else◌, length, drop, init, last?, any, ◌==◌,
}
use effect_state_tree.Base.Text.{Text, codes, text_eq}
use effect_state_tree.Patch.{PatchSet}
use effect_state_tree.Patch.Batch.{invert_patch_set}
use effect_state_tree.Runtime.{SemanticOperation, ChangeSet, ApplyChangeInput, Envelope}
use effect_state_tree.Runtime.Context.{has_tag, or_else}
use effect_state_tree.Runtime.Store.{is_empty}

abbrev pub history_skip_tag : Text
history_skip_tag = codes "history.skip"

abbrev pub history_undo_tag : Text
history_undo_tag = codes "history.undo"

abbrev pub history_redo_tag : Text
history_redo_tag = codes "history.redo"

abbrev pub history_group_tag_prefix : Text
history_group_tag_prefix = codes "history.group:"

unfoldable pub has_any_tag : List Text → List Text → Bool
unfolding has_tag
has_any_tag tags candidates = any (has_tag tags) candidates

-- `AttachedHistoryState`
pub record Attached (A : Type 0) : Type 0 where
  pub before : A
  pub after : A

pub record HistoryEntry (A : Type 0) : Type 0 where
  pub transaction_ids : List Text
  pub label : Option Text
  pub group_id : Option Text
  pub undo : ApplyChangeInput
  pub redo : ApplyChangeInput
  pub attached : Option (Attached A)

-- The two stacks, oldest entry first.
pub record HistoryState (A : Type 0) : Type 0 where
  pub undo : List (HistoryEntry A)
  pub redo : List (HistoryEntry A)

abbrev pub empty_history : {A : Type 0} → HistoryState A
empty_history = record { undo = []; redo = [] }

-- `String.prototype.startsWith`
unfoldable pub starts_with : Text → Text → Bool
starts_with s [] = true
starts_with [] (c ∷ p) = false
starts_with (a ∷ s) (c ∷ p) = a == c && starts_with s p

-- The last of the tags that name a group, without the prefix.
unfoldable pub group_id_of : List Text → Option Text
group_id_of [] = none
group_id_of (t ∷ tags) = or_else (group_id_of tags) (
    if starts_with t history_group_tag_prefix
    then some (drop (length history_group_tag_prefix) t)
    else none)

unfoldable pub invert_change : ChangeSet → ApplyChangeInput
unfolding invert_patch_set
invert_change change = record {
  patches = invert_patch_set change.patches;
  operations = some change.inverse_operations;
  inverse_operations = some change.operations;
}

unfoldable pub forward_change : ChangeSet → ApplyChangeInput
forward_change change = record {
  patches = change.patches;
  operations = some change.operations;
  inverse_operations = some change.inverse_operations;
}

-- `operations ?? []`
abbrev pub or_empty : Option (List SemanticOperation) → List SemanticOperation
or_empty none = []
or_empty (some ops) = ops

abbrev pub span_attached :
    {A : Type 0} → Option (Attached A) → Option (Attached A) → Option (Attached A)
span_attached none b = none
span_attached (some a) none = none
span_attached (some a) (some b) = some (record { before = a.before; after = b.after })

-- The change that makes a first change and then a second one.
abbrev pub join_changes : ApplyChangeInput → ApplyChangeInput → ApplyChangeInput
join_changes first second = record {
  patches = record {
    forward = first.patches.forward ++ second.patches.forward;
    inverse = second.patches.inverse ++ first.patches.inverse;
  };
  operations = some (or_empty first.operations ++ or_empty second.operations);
  inverse_operations =
      some (or_empty second.inverse_operations ++ or_empty first.inverse_operations);
}

unfoldable pub combine_entries : {A : Type 0} → HistoryEntry A → HistoryEntry A → HistoryEntry A
combine_entries previous next = record {
  transaction_ids = previous.transaction_ids ++ next.transaction_ids;
  label = or_else next.label previous.label;
  group_id = next.group_id;
  undo = join_changes next.undo previous.undo;
  redo = join_changes previous.redo next.redo;
  attached = span_attached previous.attached next.attached;
}

unfoldable pub history_entry_from_commit :
    {A : Type 0} → Envelope → Option (Attached A) → HistoryEntry A
unfolding invert_change forward_change
history_entry_from_commit commit attached = record {
  transaction_ids = commit.transaction_id ∷ [];
  label = commit.info.label;
  group_id = group_id_of commit.info.tags;
  undo = invert_change commit.change;
  redo = forward_change commit.change;
  attached = attached;
}

-- The options of `recordHistory` that a history keeps; no limit stands for a negative one too.
pub record HistoryOptions : Type 0 where
  pub limit : Option ℕ
  pub baseline_tags : List Text

-- `previous.groupId === entry.groupId`, where the second is a string.
abbrev pub same_group : Option Text → Option Text → Bool
same_group none g = false
same_group (some p) none = false
same_group (some p) (some g) = text_eq p g

abbrev pub push_entry :
    {A : Type 0}
    → Option (HistoryEntry A)
    → List (HistoryEntry A)
    → HistoryEntry A
    → List (HistoryEntry A)
push_entry none undo entry = undo ++ entry ∷ []
push_entry (some previous) undo entry =
    if same_group previous.group_id entry.group_id
    then init undo ++ combine_entries previous entry ∷ []
    else undo ++ entry ∷ []

-- `xs.slice(-limit)`, and nothing for a limit of 0.
abbrev pub keep_last : {A : Type 0} → Option ℕ → List A → List A
keep_last none xs = xs
keep_last (some n) xs = drop (length xs - n) xs

unfoldable pub record_history :
    {A : Type 0} → HistoryOptions → Option (Attached A) → HistoryState A → Envelope → HistoryState A
unfolding history_entry_from_commit
record_history opts attached state commit =
    if has_any_tag commit.info.tags opts.baseline_tags
    then empty_history
    else if has_tag commit.info.tags history_skip_tag || is_empty commit.change.patches.forward
    then state
    else record {
      undo =
          keep_last opts.limit
            (push_entry (last? state.undo) state.undo (history_entry_from_commit commit attached));
      redo = [];
    }
