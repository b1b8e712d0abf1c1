-- ===== src/Examples/StoreExamples.antt =====
-- packages/runtime/src/{store,context,checkpoint}.ts at concrete stores.
use effect_state_tree.Base.{some, ℕ, ◌≡◌, refl, true, false, none, [], ◌∷◌, arith}
use effect_state_tree.Base.Text.{Text, codes}
use effect_state_tree.Base.Result.{Result, ok}
use effect_state_tree.Path.{TreePath, key}
use effect_state_tree.Snapshot.{object_is, Value, leaf, obj, number, end, field}
use effect_state_tree.Snapshot.Read.{get_at_path}
use effect_state_tree.Patch.{replace}
use effect_state_tree.Runtime.{ChangeSet, ProducedChange, CommitInfo, ProposedCommit, Envelope}
use effect_state_tree.Runtime.Store.{
  StoreState, Store, CommitOptions, read_phase, write_phase, make_tree_store,
}
use effect_state_tree.Runtime.View.{StandsFor, get_snapshot, unread, read, get_snapshot-StandsFor}
use effect_state_tree.Runtime.Linear.{
  Advances-refl, Evolves, start, attempt, IsChain, Evolves-IsChain,
}
use effect_state_tree.Runtime.Notify.{
  Notifier, initial, deliver, receive, next_commit, flush, Runs, starts, called, round, CountsDown,
  Runs-CountsDown, flush_ends,
}
use effect_state_tree.Runtime.Checkpoint.{
  TreeCheckpoint, validate_tree_checkpoint, validate_tree_checkpoint_iff,
}

abbrev n_path : TreePath
n_path = key (codes "n") ∷ []

abbrev counter : ℕ → ℕ → Value
counter ref n =
    obj (record { ref = ref; frozen = true }) false (field (codes "n") (leaf (number n)) end)

abbrev change : ChangeSet
change = record {
  patches = record {
    forward = replace n_path (leaf (number 1)) ∷ [];
    inverse = replace n_path (leaf (number 0)) ∷ [];
  };
  operations = [];
  inverse_operations = [];
}

abbrev set_one : StoreState → Result Text ProducedChange
set_one state = ok (record { snapshot = counter 1 1; change = change; touched_paths = n_path ∷ [] })

abbrev plain : CommitOptions Text
plain = record { tags = []; label = none; source = none; guard = none; guard_no_change = false }

abbrev no_info : CommitInfo
no_info = record { tags = []; label = none; source = none; action = none }

abbrev origin : Store
origin = make_tree_store (counter 0 0)

-- The store after one commit, and after a second one that read before it.
abbrev after_one : Store
after_one = (write_phase (read_phase set_one plain no_info (codes "a") origin) 5 origin).0

abbrev after_race : Store
after_race = (write_phase (read_phase set_one plain no_info (codes "b") origin) 6 after_one).0

once : Evolves Text Text origin after_one
once = attempt set_one plain no_info (codes "a") 5 start start

raced : Evolves Text Text origin after_race
raced = attempt set_one plain no_info (codes "b") 6 start once

Evolves-IsChain_example : IsChain (counter 0 0) after_race.state after_race.published
Evolves-IsChain_example = Evolves-IsChain {B = Text} {E = Text} (counter 0 0) raced

abbrev proposal : ProposedCommit
proposal = record {
  transaction_id = codes "a";
  revision_before = 0;
  before = counter 0 0;
  after = counter 1 1;
  change = change;
  touched_paths = n_path ∷ [];
  info = no_info;
}

abbrev first_commit : Envelope
first_commit = record { proposal = proposal; revision_after = 1; committed_at = 5 }

abbrev waiting : Notifier
waiting = receive first_commit initial

waits : Runs waiting
waits = called first_commit starts

delivered_example :
    CountsDown
      (deliver waiting (next_commit waiting)).last_notified
      (deliver waiting (next_commit waiting)).delivered
unfolding receive
delivered_example = Runs-CountsDown (round refl waits)

abbrev second_commit : Envelope
second_commit = record first_commit { revision_after = 2 }

-- A listener commits again while it is given the first commit.
flushed_example :
    ((flush 3 ((second_commit ∷ []) ∷ []) waiting).is_flushing ≡ false)
    × (next_commit (flush 3 ((second_commit ∷ []) ∷ []) waiting) ≡ none)
unfolding receive initial
flushed_example = flush_ends 3 ((second_commit ∷ []) ∷ []) waiting (omega arith) refl waits

abbrev checkpoint : TreeCheckpoint
checkpoint = record {
  path = n_path;
  revision = 0;
  snapshot = counter 0 0;
  value = leaf (number 0);
  store = 4;
}

checkpoint_example :
    ((validate_tree_checkpoint 4 checkpoint proposal ≡ ok tt)
      → (checkpoint.store ≡ 4) × (get_at_path proposal.before n_path ≡ ok checkpoint.value))
    × ((checkpoint.store ≡ 4)
        → get_at_path proposal.before n_path ≡ ok checkpoint.value
        → validate_tree_checkpoint 4 checkpoint proposal ≡ ok tt)
checkpoint_example = validate_tree_checkpoint_iff 4 checkpoint proposal

-- A view of the whole snapshot, read before the commit and after it.
view_example :
    StandsFor
      (λ v. v)
      object_is
      (get_snapshot (λ v. v) object_is after_one.state (some (0, counter 0 0))).1
      after_one.state.snapshot
unfolding get_snapshot make_tree_store read_phase write_phase
view_example =
    get_snapshot-StandsFor (λ v. v) object_is {s = origin.state} {view = some (0, counter 0 0)}
      after_one.state (read origin.state (Advances-refl origin.state) (unread origin.state))
      record { le = omega arith; same = λ e. absurd (omega (arith, e)) }
