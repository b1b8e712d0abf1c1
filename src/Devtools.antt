-- ===== src/Devtools.antt =====
-- packages/devtools/src/index.ts: the timeline of commits and travel in it.
pub mod Timeline
use effect_state_tree.Base.{
  ℕ, ◌+◌, ◌-◌, Bool, true, false, Option, none, some, List, [], ◌∷◌, ◌++◌, if◌then◌else◌, length,
  drop, take, last?, ◌==◌,
}
use effect_state_tree.Base.Text.{Text, codes}
use effect_state_tree.Base.Result.{Result, ok, err}
use effect_state_tree.Snapshot.{Value, leaf, undefined, null}
use effect_state_tree.Runtime.{Envelope}
use effect_state_tree.Runtime.Context.{has_tag}
use effect_state_tree.Runtime.Plugin.{Reducer}
use effect_state_tree.History.{keep_last, history_skip_tag}

abbrev pub devtools_skip_tag : Text
devtools_skip_tag = codes "devtools.skip"

abbrev pub devtools_time_travel_tag : Text
devtools_time_travel_tag = codes "devtools.time-travel"

pub record DevtoolsState : Type 0 where
  pub initial : Value
  pub initial_revision : ℕ
  pub entries : List Envelope

unfoldable pub make_devtools_state : Value → ℕ → DevtoolsState
make_devtools_state initial revision = record {
  initial = initial;
  initial_revision = revision;
  entries = [];
}

-- `entries[dropped - 1]`, where `dropped` entries fall away at the front.
abbrev pub base_of : List Envelope → List Envelope → Option Envelope
base_of entries kept = last? (take (length entries - length kept) entries)

abbrev pub is_nullish : Value → Bool
is_nullish (leaf undefined) = true
is_nullish (leaf null) = true
is_nullish v = false

-- `v ?? w`, also where a tree's root is null.
abbrev pub coalesce : Value → Value → Value
coalesce v w = if is_nullish v then w else v

-- The state that keeps the last entries and starts from the last one dropped.
abbrev pub rebase : Option Envelope → DevtoolsState → List Envelope → DevtoolsState
rebase none state kept = record state { entries = kept }
rebase (some e) state kept = record {
  initial = coalesce e.proposal.after state.initial;
  initial_revision = e.revision_after;
  entries = kept;
}

-- No limit stands for a negative one too, as in the code.
unfoldable pub record_devtools_commit : DevtoolsState → Envelope → Option ℕ → DevtoolsState
unfolding has_tag
record_devtools_commit state commit limit =
    if has_tag commit.info.tags devtools_skip_tag
    then state
    else rebase
        (base_of (state.entries ++ commit ∷ []) (keep_last limit (state.entries ++ commit ∷ [])))
        state (keep_last limit (state.entries ++ commit ∷ []))

unfoldable pub devtools_reducer : Value → ℕ → Option ℕ → Reducer DevtoolsState (Unit {0})
unfolding record_devtools_commit make_devtools_state
devtools_reducer initial revision limit = record {
  initial = make_devtools_state initial revision;
  reduce = λ state commit. (record_devtools_commit state commit limit, []);
}

abbrev pub find_entry : ℕ → List Envelope → Option Value
find_entry revision [] = none
find_entry revision (e ∷ es) =
    let rest = find_entry revision es in
    if e.revision_after == revision then some e.proposal.after else rest

unfoldable pub snapshot_at : DevtoolsState → ℕ → Option Value
snapshot_at state revision =
    if revision == state.initial_revision
    then some state.initial
    else find_entry revision state.entries

-- `state.entries.at(-1)?.after ?? state.initial`
abbrev pub after_last : Option Envelope → Value → Value
after_last none initial = initial
after_last (some e) initial = coalesce e.proposal.after initial

-- The snapshot that `resume` goes back to.
unfoldable pub latest : DevtoolsState → Value
latest state = after_last (last? state.entries) state.initial

-- What `replaceWithoutRecording` asks of the store.
pub record Travel : Type 0 where
  pub target : Value
  pub tags : List Text

abbrev pub travel_tags : List Text
travel_tags = devtools_skip_tag ∷ devtools_time_travel_tag ∷ history_skip_tag ∷ []

abbrev pub go_to : ℕ → Option Value → Result ℕ Travel
go_to revision none = err revision
go_to revision (some (leaf undefined)) = err revision
go_to revision (some v) = ok (record { target = v; tags = travel_tags })

-- `travelTo`, which takes a snapshot that is undefined for none; the failure is `DevtoolsRevisionError`.
unfoldable pub travel_to : DevtoolsState → ℕ → Result ℕ Travel
unfolding snapshot_at
travel_to state revision = go_to revision (snapshot_at state revision)

unfoldable pub resume : DevtoolsState → Travel
unfolding latest
resume state = record { target = latest state; tags = travel_tags }
