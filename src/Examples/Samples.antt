-- ===== src/Examples/Samples.antt =====
-- A tree with a number under the key n, and a commit that sets it.
use effect_state_tree.Base.{ℕ, ◌+◌, true, false, none, [], ◌∷◌}
use effect_state_tree.Base.Text.{codes}
use effect_state_tree.Path.{TreePath, key}
use effect_state_tree.Snapshot.{Value, leaf, obj, number, end, field}
use effect_state_tree.Patch.{replace}
use effect_state_tree.Patch.Batch.{AppliedPatches}
use effect_state_tree.Runtime.{ChangeSet, Envelope}

abbrev pub n_path : TreePath
n_path = key (codes "n") ∷ []

abbrev pub counter : ℕ → ℕ → Value
counter ref n =
    obj (record { ref = ref; frozen = true }) false (field (codes "n") (leaf (number n)) end)

abbrev pub change : ChangeSet
change = record {
  patches = record {
    forward = replace n_path (leaf (number 1)) ∷ [];
    inverse = replace n_path (leaf (number 0)) ∷ [];
  };
  operations = [];
  inverse_operations = [];
}

-- The commit of the change at a revision, from one value of n to another.
abbrev pub commit_at : ℕ → ℕ → ℕ → Envelope
commit_at revision before after = record {
  proposal = record {
    transaction_id = codes "a";
    revision_before = revision;
    before = counter 0 before;
    after = counter 1 after;
    change = change;
    touched_paths = n_path ∷ [];
    info = record { tags = []; label = none; source = none; action = none };
  };
  revision_after = revision + 1;
  committed_at = 5;
}

abbrev pub applied_to : Value → AppliedPatches
applied_to v = record {
  snapshot = v;
  patch_set = change.patches;
  touched_paths = n_path ∷ [];
  next = 2;
}
