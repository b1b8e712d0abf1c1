-- ===== src/History/Entries.antt =====
-- History entries: grouping is associative, and an undo is the reverse of its redo.
use effect_state_tree.Base.{◌≡◌, refl, sym, Option, none, some, append_assoc}
use effect_state_tree.Patch.Batch.{LoopState, apply_loop, apply_loop-append}
use effect_state_tree.Snapshot.{Options}
use effect_state_tree.Base.Result.{◌>>=◌}
use effect_state_tree.Runtime.{ApplyChangeInput, Envelope}
use effect_state_tree.Runtime.Context.{or_else}
use effect_state_tree.History.{
  Attached, HistoryEntry, join_changes, span_attached, combine_entries, history_entry_from_commit,
}

join_changes_assoc :
    (a b c : ApplyChangeInput)
    → join_changes (join_changes a b) c ≡ join_changes a (join_changes b c)
join_changes_assoc a b c = simp (append_assoc)

or_else_assoc {ℓ} :
    {A : Type ℓ} (a b c : Option A) → or_else (or_else a b) c ≡ or_else a (or_else b c)
or_else_assoc none b c = refl
or_else_assoc (some a) b c = refl

span_attached_assoc :
    {A : Type 0} (a b c : Option (Attached A))
    → span_attached (span_attached a b) c ≡ span_attached a (span_attached b c)
span_attached_assoc none b c = refl
span_attached_assoc (some a) none c = refl
span_attached_assoc (some a) (some b) none = refl
span_attached_assoc (some a) (some b) (some c) = refl

-- Combining history entries is associative.
combine_entries_assoc :
    {A : Type 0} (a b c : HistoryEntry A)
    → combine_entries (combine_entries a b) c ≡ combine_entries a (combine_entries b c)
unfolding combine_entries
combine_entries_assoc a b c = rw (
  append_assoc a.transaction_ids b.transaction_ids c.transaction_ids,
  sym (or_else_assoc c.label b.label a.label),
  join_changes_assoc a.redo b.redo c.redo,
  sym (join_changes_assoc c.undo b.undo a.undo),
  span_attached_assoc a.attached b.attached c.attached,
)

-- The change with both directions exchanged.
abbrev pub swap_change : ApplyChangeInput → ApplyChangeInput
swap_change change = record {
  patches = record { forward = change.patches.inverse; inverse = change.patches.forward };
  operations = change.inverse_operations;
  inverse_operations = change.operations;
}

abbrev pub IsReversible : {A : Type 0} → HistoryEntry A → Type 0
IsReversible entry = entry.undo ≡ swap_change entry.redo

pub history_entry_from_commit-IsReversible :
    {A : Type 0} (commit : Envelope) (attached : Option (Attached A))
    → IsReversible (history_entry_from_commit commit attached)
unfolding history_entry_from_commit
history_entry_from_commit-IsReversible commit attached = refl

pub combine_entries-IsReversible :
    {A : Type 0} (previous next : HistoryEntry A)
    → IsReversible previous
    → IsReversible next
    → IsReversible (combine_entries previous next)
unfolding combine_entries
combine_entries-IsReversible previous next p n = rw (p, n)

-- The patches of a combined entry run as the patches of its parts in order: an undo first takes back
-- the later part.
pub combine_entries-replay :
    {A : Type 0} (opts : Options) (st : LoopState) (previous next : HistoryEntry A)
    → (apply_loop opts st (combine_entries previous next).undo.patches.forward ≡ (
        apply_loop opts st next.undo.patches.forward >>= λ st'.
        apply_loop opts st' previous.undo.patches.forward))
      × (apply_loop opts st (combine_entries previous next).redo.patches.forward ≡ (
          apply_loop opts st previous.redo.patches.forward >>= λ st'.
          apply_loop opts st' next.redo.patches.forward))
unfolding combine_entries
combine_entries-replay opts st previous next = (
  apply_loop-append opts st next.undo.patches.forward previous.undo.patches.forward,
  apply_loop-append opts st previous.redo.patches.forward next.redo.patches.forward,
)
