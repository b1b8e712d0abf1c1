-- ===== src/Validation.antt =====
-- packages/validation/src/report.ts: issues by path, reports and the validation of each commit. The
-- strict decoder of a Schema is a parameter.
pub mod Lookup
pub mod Checkpoints
use effect_state_tree.Base.{
  ℕ, Bool, true, false, Option, none, some, List, [], ◌∷◌, ◌++◌, map, filter_by, if◌then◌else◌,
}
use effect_state_tree.Base.Text.{Text, text_eq}
use effect_state_tree.Base.Result.{Result, ok, err}
use effect_state_tree.Path.{Segment, TreePath, key, is_path_prefix}
use effect_state_tree.Path.Pointer.{path_to_pointer}
use effect_state_tree.Snapshot.{Value}
use effect_state_tree.Runtime.{Envelope}
use effect_state_tree.Runtime.Plugin.{Reducer}

-- A property key of an issue's path; a symbol by its text `String(symbol)`.
pub data PropertyKey : Type 0 where
  segment : Segment → PropertyKey
  symbol : Text → PropertyKey

-- `SchemaIssue.Issue`: the kinds that hold other issues, and every other kind by its text.
mutual
  pub data Issue : Type 0 where
    pointer : List PropertyKey → Issue → Issue
    filter encoding : Issue → Issue
    composite any_of : Issues → Issue
    single : Text → Issue

  pub data Issues : Type 0 where
    nothing : Issues
    also : Issue → Issues → Issues

pub record IndexedIssue : Type 0 where
  pub path : TreePath
  pub issue : Issue
  pub message : Text

abbrev pub key_segment : PropertyKey → Segment
key_segment (segment s) = s
key_segment (symbol text) = key text

abbrev pub append_path : TreePath → List PropertyKey → TreePath
append_path prefix path = prefix ++ map key_segment path

-- `walk`, with the output so far.
unfoldable mutual
  pub walk : Issue → TreePath → List IndexedIssue → List IndexedIssue
  walk (pointer keys issue) path output = walk issue (append_path path keys) output
  walk (filter issue) path output = walk issue path output
  walk (encoding issue) path output = walk issue path output
  walk (composite issues) path output = walk_all issues path output
  walk (any_of issues) path output = walk_all issues path output
  walk (single text) path output =
      output ++ (record { path = path; issue = single text; message = text }) ∷ []

  pub walk_all : Issues → TreePath → List IndexedIssue → List IndexedIssue
  walk_all nothing path output = output
  walk_all (also issue issues) path output = walk_all issues path (walk issue path output)

unfoldable pub flatten_issue : Issue → List IndexedIssue
unfolding walk walk_all
flatten_issue issue = walk issue [] []

-- A `HashMap` from pointers to the issues at them.
abbrev pub PathIndex : Type 0
PathIndex = List (Text × List IndexedIssue)

abbrev pub get : Text → PathIndex → Option (List IndexedIssue)
get name [] = none
get name ((k, issues) ∷ index) =
    let rest = get name index in if text_eq k name then some issues else rest

abbrev pub set : Text → List IndexedIssue → PathIndex → PathIndex
set name issues [] = (name, issues) ∷ []
set name issues ((k, old) ∷ index) =
    let rest = set name issues index in
    if text_eq k name then (k, issues) ∷ index else (k, old) ∷ rest

abbrev pub or_empty : Option (List IndexedIssue) → List IndexedIssue
or_empty none = []
or_empty (some issues) = issues

unfoldable pub index_issue : PathIndex → IndexedIssue → PathIndex
index_issue index issue =
    set (path_to_pointer issue.path)
      (or_empty (get (path_to_pointer issue.path) index) ++ issue ∷ []) index

-- The loop of `indexIssues`.
unfoldable pub index_issues : PathIndex → List IndexedIssue → PathIndex
unfolding index_issue
index_issues index [] = index
index_issues index (issue ∷ issues) = index_issues (index_issue index issue) issues

pub data Status : Type 0 where
  invalid valid : Status

pub record Report : Type 0 where
  pub revision : ℕ
  pub status : Status
  pub issue : Option Issue
  pub by_path : PathIndex
  pub issues : List IndexedIssue

-- `validationIssuesAt`
unfoldable pub issues_at : Report → TreePath → List IndexedIssue
issues_at report path = or_empty (get (path_to_pointer path) report.by_path)

-- `validationIssuesBelow`
unfoldable pub issues_below : Report → TreePath → List IndexedIssue
issues_below report path = filter_by (λ issue. is_path_prefix path issue.path) report.issues

-- `ValidatedCheckpoint`
pub record Checkpoint : Type 0 where
  pub revision : ℕ
  pub snapshot : Value

pub record ValidationState : Type 0 where
  pub report : Report
  pub validated : Option Checkpoint

abbrev pub found : Status → Option Issue → List IndexedIssue → ℕ → Report
found status issue issues revision = record {
  revision = revision;
  status = status;
  issue = issue;
  by_path = index_issues [] issues;
  issues = issues;
}

abbrev pub report_of : {T : Type 0} → Result Issue T → ℕ → Report
report_of (ok decoded) revision = found valid none [] revision
report_of (err issue) revision = found invalid (some issue) (flatten_issue issue) revision

abbrev pub checkpoint_of : Status → ℕ → Value → Option Checkpoint → Option Checkpoint
checkpoint_of valid revision snapshot previous =
    some (record { revision = revision; snapshot = snapshot })
checkpoint_of invalid revision snapshot previous = previous

unfoldable pub validation_state : Report → Value → Option Checkpoint → ValidationState
validation_state report snapshot previous = record {
  report = report;
  validated = checkpoint_of report.status report.revision snapshot previous;
}

module _ {T : Type 0} (decode : Value → Result Issue T) where
  unfoldable pub validate_tree : Value → ℕ → Report
  unfolding flatten_issue index_issues
  validate_tree snapshot revision = report_of (decode snapshot) revision

  -- The reducer of `makeValidationController`.
  unfoldable pub validation_reducer : Value → ℕ → Reducer ValidationState (Unit {0})
  unfolding validate_tree validation_state
  validation_reducer snapshot revision = record {
    initial = validation_state (validate_tree snapshot revision) snapshot none;
    reduce = λ state commit. (
      validation_state (validate_tree commit.proposal.after commit.revision_after)
          commit.proposal.after state.validated,
      [],
    );
  }
