-- ===== src/Examples/HistoryExamples.antt =====
-- packages/history/src/history.ts at concrete histories.
use effect_state_tree.Base.{
  ℕ, ◌+◌, ◌≤◌, ◌≡◌, ◌≢◌, refl, false, none, some, [], ◌∷◌, length, All, arith,
}
use effect_state_tree.Base.Text.{Text, codes}
use effect_state_tree.Base.Result.{Result, ok, ◌>>=◌}
use effect_state_tree.Path.{TreePath, key}
use effect_state_tree.Snapshot.{leaf, number}
use effect_state_tree.Patch.{replace}
use effect_state_tree.Patch.Batch.{LoopState, apply_loop}
use effect_state_tree.Runtime.{Envelope, ProducedChange}
use effect_state_tree.Runtime.Store.{StoreState, Store, Attempt, read_phase}
use effect_state_tree.History.{
  HistoryEntry, HistoryState, HistoryOptions, record_history, empty_history, combine_entries,
  history_entry_from_commit, history_undo_tag,
}
use effect_state_tree.History.Entries.{combine_entries-replay, IsReversible}
use effect_state_tree.History.Moves.{stale_action_never_writes}
use effect_state_tree.History.Controller.{action_options}
use effect_state_tree.History.Reached.{Reached, start, recorded, Reached-AllReversible}
use effect_state_tree.History.Limit.{Reached-IsWithin}

abbrev path : TreePath
path = key (codes "n") ∷ []

abbrev commit : ℕ → Envelope
commit n = record {
  proposal = record {
    transaction_id = codes "t";
    revision_before = n;
    before = leaf (number n);
    after = leaf (number (n + 1));
    change = record {
      patches = record {
        forward = replace path (leaf (number (n + 1))) ∷ [];
        inverse = replace path (leaf (number n)) ∷ [];
      };
      operations = [];
      inverse_operations = [];
    };
    touched_paths = path ∷ [];
    info = record {
      tags = codes "history.group:g" ∷ [];
      label = none;
      source = none;
      action = none;
    };
  };
  revision_after = n + 1;
  committed_at = 0;
}

abbrev entry : ℕ → HistoryEntry ℕ
entry n = history_entry_from_commit (commit n) (some (record { before = n; after = n + 1 }))

abbrev blank : LoopState
blank = record { current = leaf (number 2); forward = []; inverse = []; next = 0 }

replay_example :
    (apply_loop [] blank (combine_entries (entry 0) (entry 1)).undo.patches.forward ≡ (
      apply_loop [] blank (entry 1).undo.patches.forward >>= λ st'.
      apply_loop [] st' (entry 0).undo.patches.forward))
    × (apply_loop [] blank (combine_entries (entry 0) (entry 1)).redo.patches.forward ≡ (
        apply_loop [] blank (entry 0).redo.patches.forward >>= λ st'.
        apply_loop [] st' (entry 1).redo.patches.forward))
replay_example = combine_entries-replay [] blank (entry 0) (entry 1)

abbrev options : HistoryOptions
options = record { limit = some 1; baseline_tags = codes "baseline" ∷ [] }

abbrev history_one : HistoryState ℕ
history_one = record_history options none empty_history (commit 0)

abbrev history_two : HistoryState ℕ
history_two = record_history options none history_one (commit 1)

Reached-two : Reached options history_two
Reached-two = recorded none (commit 1) (recorded none (commit 0) start)

Reached-AllReversible_example :
    All IsReversible history_two.undo × All IsReversible history_two.redo
Reached-AllReversible_example = Reached-AllReversible options Reached-two

limit_example : length history_two.undo + length history_two.redo ≤ 1
limit_example = Reached-IsWithin options 1 refl Reached-two

abbrev store : Store
store = record {
  state = record { snapshot = leaf (number 2); revision = 3 };
  is_shutdown = false;
  published = [];
}

abbrev build : StoreState → Result Text ProducedChange
build s = ok (record {
  snapshot = leaf (number 1);
  change = (commit 0).proposal.change;
  touched_paths = path ∷ [];
})

stale_example :
    read_phase build
      (action_options (entry 1) (codes "Undo") history_undo_tag 2)
      (commit 0).proposal.info
      (codes "u")
      store
    ≢ Attempt.write (commit 1).proposal
stale_example =
    stale_action_never_writes build (entry 1) (codes "Undo") history_undo_tag 2
      (commit 0).proposal.info (codes "u") store (commit 1).proposal (ground arith)
