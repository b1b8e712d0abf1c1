-- ===== src/Examples/SidecarExamples.antt =====
-- packages/runtime/src/plugin.ts, packages/devtools, packages/foldkit and packages/validation at a
-- counter.
use effect_state_tree.Base.{
  ℕ, ◌+◌, ◌==◌, ==_iff, ◌≡◌, refl, Bool, true, Option, none, some, List, [], ◌∷◌, ◌++◌, filter_by,
  if◌then◌else◌,
}
use effect_state_tree.Base.Text.{Text, codes}
use effect_state_tree.Base.Result.{Result, ok, err}
use effect_state_tree.Path.{key}
use effect_state_tree.Path.Pointer.{path_to_pointer}
use effect_state_tree.Snapshot.{Value, object_is}
use effect_state_tree.Patch.{TreePatch}
use effect_state_tree.Patch.Batch.{AppliedPatches}
use effect_state_tree.Runtime.{Envelope}
use effect_state_tree.Runtime.Plugin.{
  Reducer, attach, dispatch_all, fold_commits, flatten, dispatch_all-fold_commits,
}
use effect_state_tree.Devtools.{DevtoolsState, make_devtools_state, resume}
use effect_state_tree.Devtools.Timeline.{timeline, resume-timeline}
use effect_state_tree.Foldkit.{
  CommitContext, TreeState, tree_change, TreeCommit, Reduction, update, initial_tree,
}
use effect_state_tree.Foldkit.Refines.{store_of, attempt_of, commit_message, commit_message-update}
use effect_state_tree.Validation.{
  Issue, pointer, composite, single, also, nothing, segment, validate_tree, issues_at,
  validation_reducer, Checkpoint,
}
use effect_state_tree.Validation.Lookup.{is_at, issues_at-validate_tree}
use effect_state_tree.Validation.Checkpoints.{
  latest_valid, revisions, fold_commits-validation_reducer,
}
use effect_state_tree.Examples.Samples.{n_path, counter, change, commit_at, applied_to}

abbrev two_commits : List Envelope
two_commits = commit_at 0 0 1 ∷ commit_at 1 1 2 ∷ []

abbrev same_number : ℕ → ℕ → Bool
same_number m n = m == n

same_number_sound : (m n : ℕ) → same_number m n ≡ true → m ≡ n
same_number_sound m n = (==_iff m n).0

-- It counts the commits, and gives out each count.
abbrev counting : Reducer ℕ ℕ
counting = record { initial = 0; reduce = λ n c. (n + 1, n ∷ []) }

counting_example :
    ((dispatch_all same_number counting two_commits (attach counting)).state
      ≡ (fold_commits counting two_commits (attach counting).state).0)
    × (flatten (dispatch_all same_number counting two_commits (attach counting)).delivered
        ≡ flatten (attach counting).delivered
          ++ (fold_commits counting two_commits (attach counting).state).1)
counting_example =
    dispatch_all-fold_commits same_number same_number_sound counting two_commits (attach counting)

abbrev recorded : DevtoolsState
recorded = make_devtools_state (counter 0 0) 0

resume_example :
    resume (timeline (some 1) two_commits recorded) ≡ resume (timeline none two_commits recorded)
resume_example = resume-timeline (some 1) two_commits recorded (refl, (refl, tt))

abbrev context : CommitContext
context = record {
  transaction_id = codes "m";
  committed_at = 7;
  label = none;
  source = none;
  tags = some (codes "t" ∷ []);
}

abbrev set_one : Value → List TreePatch → Result Text AppliedPatches
set_one v ps = ok (applied_to (counter 1 1))

abbrev take_over : Value → Value → Result Text AppliedPatches
take_over v w = ok (applied_to w)

abbrev counts : Option (ℕ → TreeCommit → Reduction ℕ ℕ ℕ)
counts = some (λ n c. record { state = n + 1; commands = n ∷ []; out_messages = [] })

abbrev fresh_tree : TreeState ℕ
fresh_tree = initial_tree (counter 0 0) 0

foldkit_example :
    commit_message set_one take_over (tree_change change context) (store_of fresh_tree [])
    ≡ attempt_of
        (store_of fresh_tree [])
        (update set_one take_over counts fresh_tree (tree_change change context))
foldkit_example =
    commit_message-update set_one take_over counts (tree_change change context) fresh_tree []

abbrev two_issues : Issue
two_issues = composite (
    also (pointer (segment (key (codes "n")) ∷ []) (single (codes "low")))
      (also (single (codes "odd")) nothing))

-- The Schema refuses every value, with one issue at n and one at the root.
abbrev refusing : Value → Result Issue ℕ
refusing v = err two_issues

issues_example :
    issues_at (validate_tree refusing (counter 0 0) 3) n_path
    ≡ filter_by (is_at (path_to_pointer n_path)) (validate_tree refusing (counter 0 0) 3).issues
issues_example = issues_at-validate_tree refusing (counter 0 0) 3 n_path

-- Another one takes the value of the first commit only.
abbrev only_one : Value → Result Issue ℕ
only_one v = if object_is v (counter 1 1) then ok 1 else err two_issues

abbrev start_at : Checkpoint
start_at = record { revision = 0; snapshot = counter 0 0 }

checkpoints_example :
    (fold_commits
      (validation_reducer only_one (counter 0 0) 0)
      two_commits
      (validation_reducer only_one (counter 0 0) 0).initial).0.validated
    ≡ latest_valid only_one (revisions two_commits (start_at ∷ []))
checkpoints_example = fold_commits-validation_reducer only_one (counter 0 0) 0 two_commits
