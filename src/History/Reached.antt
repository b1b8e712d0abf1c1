-- ===== src/History/Reached.antt =====
-- packages/history/src/history.ts: the states a history can reach, whose entries
-- are reversible.
use effect_state_tree.Base.{
  ℕ, ◌-◌, ◌≡◌, refl, ◌||◌, Option, none, some, List, [], ◌∷◌, ◌++◌, init, last?, length, All,
  All-append, Bool-cases, inl, inr, All-init, All-last?, All-drop,
}
use effect_state_tree.Runtime.{Envelope}
use effect_state_tree.Runtime.Context.{has_tag}
use effect_state_tree.Runtime.Store.{is_empty}
use effect_state_tree.History.{
  Attached, HistoryEntry, HistoryState, HistoryOptions, record_history, empty_history,
  combine_entries, has_any_tag, same_group, push_entry, keep_last, history_entry_from_commit,
  history_skip_tag,
}
use effect_state_tree.History.Entries.{
  IsReversible, combine_entries-IsReversible, history_entry_from_commit-IsReversible,
}
use effect_state_tree.History.Controller.{undo}

-- The states that a history reaches by commits, undo, redo and clear.
pub data Reached {A : Type 0} (opts : HistoryOptions) : HistoryState A → Type 0 where
  start : Reached opts empty_history
  recorded :
      {h : HistoryState A} (attached : Option (Attached A)) (commit : Envelope)
      → Reached opts h
      → Reached opts (record_history opts attached h commit)
  undone :
      {h : HistoryState A} (x : HistoryEntry A)
      → last? h.undo ≡ some x
      → Reached opts h
      → Reached opts (record { undo = init h.undo; redo = h.redo ++ x ∷ [] })
  redone :
      {h : HistoryState A} (x : HistoryEntry A)
      → last? h.redo ≡ some x
      → Reached opts h
      → Reached opts (record { undo = h.undo ++ x ∷ []; redo = init h.redo })

abbrev AllReversible : {A : Type 0} → HistoryState A → Type 0
AllReversible h = All IsReversible h.undo × All IsReversible h.redo

All-keep_last :
    {A : Type 0} (P : A → Type 0) (limit : Option ℕ) (xs : List A)
    → All P xs
    → All P (keep_last limit xs)
All-keep_last P none xs h = h
All-keep_last P (some n) xs h = All-drop P (length xs - n) xs h

push_entry-IsReversible :
    {A : Type 0} (undo : List (HistoryEntry A)) (entry : HistoryEntry A)
    (o : Option (HistoryEntry A))
    → last? undo ≡ o
    → IsReversible entry
    → All IsReversible undo
    → All IsReversible (push_entry o undo entry)
push_entry-IsReversible undo entry none e r h = All-append IsReversible undo (entry ∷ []) h (r, tt)
push_entry-IsReversible undo entry (some previous) e r h =
    elim (Bool-cases (same_group previous.group_id entry.group_id)) [
      | inl same ↦ rw same (
          All-append IsReversible (init undo) (combine_entries previous entry ∷ [])
            (All-init IsReversible undo h)
            (combine_entries-IsReversible previous entry (All-last? IsReversible undo e h) r, tt))
      | inr other ↦ rw other (All-append IsReversible undo (entry ∷ []) h (r, tt))
    ]

record_history-AllReversible :
    {A : Type 0} (opts : HistoryOptions) (attached : Option (Attached A)) (h : HistoryState A)
    (commit : Envelope)
    → AllReversible h
    → AllReversible (record_history opts attached h commit)
unfolding record_history
record_history-AllReversible opts attached h commit (u, v) =
    elim (Bool-cases (has_any_tag commit.info.tags opts.baseline_tags)) [
      | inl baseline ↦ rw baseline (tt, tt)
      | inr usual ↦
          rw usual
            (elim (Bool-cases (
              has_tag commit.info.tags history_skip_tag
              || is_empty commit.change.patches.forward)) [
                | inl skipped ↦ rw skipped (u, v)
                | inr kept ↦ rw kept (
                  All-keep_last IsReversible opts.limit _ (
                      push_entry-IsReversible h.undo (history_entry_from_commit commit attached)
                        (last? h.undo) refl (history_entry_from_commit-IsReversible commit attached)
                        u),
                  tt,
                )
              ])
    ]

-- In every state that a history reaches, the undo change of each entry is its redo change reversed.
pub Reached-AllReversible :
    {A : Type 0} (opts : HistoryOptions) {h : HistoryState A} → Reached opts h → AllReversible h
Reached-AllReversible opts start = (tt, tt)
Reached-AllReversible opts (recorded {h} attached commit before) =
    record_history-AllReversible opts attached h commit (Reached-AllReversible opts before)
Reached-AllReversible opts (undone {h} x e before) =
    let (u, v) = Reached-AllReversible opts before in
    (
      All-init IsReversible h.undo u,
      All-append IsReversible h.redo (x ∷ []) v (All-last? IsReversible h.undo e u, tt),
    )
Reached-AllReversible opts (redone {h} x e before) =
    let (u, v) = Reached-AllReversible opts before in
    (
      All-append IsReversible h.undo (x ∷ []) u (All-last? IsReversible h.redo e v, tt),
      All-init IsReversible h.redo v,
    )
