-- ===== src/History/Controller.antt =====
-- packages/history/src/history.ts: `makeHistory`. A commit that the store makes is observed by the
-- controller's reducer; `undo` and `redo` call `store.apply` with a guard on the revision.
use effect_state_tree.Base.{
  ℕ, false, Option, none, some, List, [], ◌∷◌, ◌++◌, init, last?, ◌==◌, if◌then◌else◌,
}
use effect_state_tree.Base.Text.{Text, codes}
use effect_state_tree.Base.Result.{Result, ok, err}
use effect_state_tree.Runtime.{ApplyChangeInput, ProposedCommit, Envelope}
use effect_state_tree.Runtime.Store.{CommitOptions, CommitResult}
use effect_state_tree.Runtime.Context.{or_else}
use effect_state_tree.History.{
  Attached, HistoryEntry, HistoryState, HistoryOptions, record_history, empty_history,
  history_skip_tag, history_undo_tag, history_redo_tag,
}

-- `HistoryRevisionConflict`
pub record RevisionConflict : Type 0 where
  pub expected : ℕ
  pub actual : ℕ

pub data Stack : Type 0 where
  empty_undo empty_redo : Stack

-- `HistoryActionResult`
pub data ActionResult : Type 0 where
  no_history_change : Stack → ActionResult
  applied : CommitResult → ActionResult

-- The variables of a controller, and the values given to `restoreAttached` so far, last first.
pub record Controller (A : Type 0) : Type 0 where
  pub history : HistoryState A
  pub last_attached : Option A
  pub restored : List A

abbrev pub attached_between : {A : Type 0} → Option A → Option A → Option (Attached A)
attached_between none after = none
attached_between (some a) none = none
attached_between (some a) (some b) = some (record { before = a; after = b })

-- The reducer, where `after` is what `takeAttached` gives.
unfoldable pub observe :
    {A : Type 0} → HistoryOptions → (after : Option A) → Controller A → Envelope → Controller A
observe opts after c commit = record c {
  history = record_history opts (attached_between c.last_attached after) c.history commit;
  last_attached = after;
}

unfoldable pub revision_guard : ℕ → ProposedCommit → Option RevisionConflict
revision_guard expected proposal =
    if proposal.revision_before == expected
    then none
    else some (record { expected = expected; actual = proposal.revision_before })

unfoldable pub action_options :
    {A : Type 0}
    → HistoryEntry A
    → (label action_tag : Text) → (expected : ℕ) → CommitOptions RevisionConflict
action_options entry label action_tag expected = record {
  tags = history_skip_tag ∷ action_tag ∷ [];
  label = or_else entry.label (some label);
  source = none;
  guard = some (revision_guard expected);
  guard_no_change = false;
}

-- Runs `store.apply` in its surroundings: it may run observers and may fail.
abbrev pub Apply : Type 0 → Type 0 → Type 0
Apply A F =
    ApplyChangeInput
    → CommitOptions RevisionConflict
    → Controller A
    → Controller A × Result F CommitResult

abbrev restore : {A : Type 0} → Option A → Controller A → Controller A
restore none c = c
restore (some a) c = record c { last_attached = some a; restored = a ∷ c.restored }

abbrev pub before_of : {A : Type 0} → Option (Attached A) → Option A
before_of none = none
before_of (some x) = some x.before

abbrev pub after_of : {A : Type 0} → Option (Attached A) → Option A
after_of none = none
after_of (some x) = some x.after

-- What follows `store.apply`: the stacks are replaced and the attached state is restored.
abbrev pub settle :
    {A F : Type 0}
    → HistoryState A
    → Option A
    → Controller A × Result F CommitResult
    → Controller A × Result F ActionResult
settle next attached (c, err e) = (c, err e)
settle next attached (c, ok r) = (restore attached (record c { history = next }), ok (applied r))

abbrev pub undo_entry :
    {A F : Type 0}
    → Apply A F
    → ℕ
    → Controller A
    → Option (HistoryEntry A)
    → Controller A × Result F ActionResult
undo_entry apply revision c none = (c, ok (no_history_change empty_undo))
undo_entry apply revision c (some entry) =
    settle (record { undo = init c.history.undo; redo = c.history.redo ++ entry ∷ [] })
      (before_of entry.attached)
      (apply entry.undo (action_options entry (codes "Undo") history_undo_tag revision) c)

unfoldable pub undo :
    {A F : Type 0} → Apply A F → ℕ → Controller A → Controller A × Result F ActionResult
undo apply revision c = undo_entry apply revision c (last? c.history.undo)

abbrev pub redo_entry :
    {A F : Type 0}
    → Apply A F
    → ℕ
    → Controller A
    → Option (HistoryEntry A)
    → Controller A × Result F ActionResult
redo_entry apply revision c none = (c, ok (no_history_change empty_redo))
redo_entry apply revision c (some entry) =
    settle (record { undo = c.history.undo ++ entry ∷ []; redo = init c.history.redo })
      (after_of entry.attached)
      (apply entry.redo (action_options entry (codes "Redo") history_redo_tag revision) c)

unfoldable pub redo :
    {A F : Type 0} → Apply A F → ℕ → Controller A → Controller A × Result F ActionResult
redo apply revision c = redo_entry apply revision c (last? c.history.redo)

unfoldable pub clear : {A : Type 0} → Controller A → Controller A
clear c = record c { history = empty_history }
