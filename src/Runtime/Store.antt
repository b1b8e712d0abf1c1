-- ===== src/Runtime/Store.antt =====
-- packages/runtime/src/store.ts: `commitProposal` of `makeTreeStore`. An attempt reads the store in
-- one transaction and writes it in another; what other fibers do between the two is in Linear.antt.
use effect_state_tree.Base.{
  ℕ, ◌+◌, Bool, true, false, not, ◌&&◌, Option, none, some, List, [], ◌∷◌, ◌==◌, if◌then◌else◌,
}
use effect_state_tree.Base.Text.{Text}
use effect_state_tree.Base.Result.{Result, ok, err, ◌>>=◌}
use effect_state_tree.Snapshot.{Value}
use effect_state_tree.Patch.{TreePatch}
use effect_state_tree.Patch.Batch.{AppliedPatches}
use effect_state_tree.Runtime.{
  ProducedChange, ApplyChangeInput, CommitInfo, ProposedCommit, Envelope, SourceToken,
}
use effect_state_tree.Runtime.Context.{union_tags, or_else}

-- `TreeStoreState`
pub record StoreState : Type 0 where
  pub snapshot : Value
  pub revision : ℕ

-- The transactional state of a store: `stateRef`, whether `commitHub` is shut down, and what has
-- been published on it, last first.
pub record Store : Type 0 where
  pub state : StoreState
  open state use *
  pub is_shutdown : Bool
  pub published : List Envelope

-- `CommitOptions`; the guard is the application's, and gives its error if it rejects. The last
-- field is `GuardNoChangeTypeId`.
pub record CommitOptions (E : Type 0) : Type 0 where
  pub tags : List Text
  pub label : Option Text
  pub source : Option SourceToken
  pub guard : Option (ProposedCommit → Option E)
  pub guard_no_change : Bool

pub data CommitResult : Type 0 where
  no_change : (revision : ℕ) → (snapshot : Value) → CommitResult
  committed : Envelope → CommitResult

-- The failures of a commit: of the builder, of the guard, or a shut down store.
pub data CommitError (B E : Type 0) : Type 0 where
  build_error : B → CommitError B E
  guard_error : E → CommitError B E
  store_shutdown : CommitError B E

-- What is fixed before the first attempt.
unfoldable pub commit_info : {E : Type 0} → CommitInfo → CommitOptions E → CommitInfo
unfolding union_tags
commit_info inherited opts = record {
  tags = union_tags inherited.tags opts.tags;
  label = or_else opts.label inherited.label;
  source = or_else opts.source inherited.source;
  action = inherited.action;
}

-- What an attempt does after its read and its guard: it has ended, it confirms that the state that
-- it left alone is current, or it writes.
pub data Attempt (B E : Type 0) : Type 0 where
  finished : Result (CommitError B E) CommitResult → Attempt B E
  confirm : StoreState → Attempt B E
  write : ProposedCommit → Attempt B E

abbrev pub is_empty : List TreePatch → Bool
is_empty [] = true
is_empty (p ∷ ps) = false

abbrev pub propose : Text → CommitInfo → StoreState → ProducedChange → ProposedCommit
propose transaction_id info before result = record {
  transaction_id = transaction_id;
  revision_before = before.revision;
  before = before.snapshot;
  after = result.snapshot;
  change = result.change;
  touched_paths = result.touched_paths;
  info = info;
}

abbrev pub run_guard : {E : Type 0} → Option (ProposedCommit → Option E) → ProposedCommit → Option E
run_guard none p = none
run_guard (some guard) p = guard p

abbrev pub guarded : {B E : Type 0} → Option E → StoreState → ProposedCommit → Attempt B E
guarded (some e) before p = finished (err (guard_error e))
guarded none before p = if is_empty p.change.patches.forward then confirm before else write p

abbrev pub built :
    {B E : Type 0}
    → CommitOptions E
    → CommitInfo
    → Text
    → StoreState
    → Result B ProducedChange
    → Attempt B E
built opts info tid before (err e) = finished (err (build_error e))
built opts info tid before (ok result) =
    if is_empty result.change.patches.forward && not opts.guard_no_change
    then finished (ok (no_change before.revision before.snapshot))
    else guarded (run_guard opts.guard (propose tid info before result)) before
        (propose tid info before result)

-- `attempt` up to its second transaction.
unfoldable pub read_phase :
    {B E : Type 0}
    → (StoreState → Result B ProducedChange)
    → CommitOptions E
    → CommitInfo
    → Text
    → Store
    → Attempt B E
read_phase build opts info tid s =
    if s.is_shutdown
    then finished (err store_shutdown)
    else built opts info tid s.state (build s.state)

pub data Outcome (B E : Type 0) : Type 0 where
  retry : Outcome B E
  result : Result (CommitError B E) CommitResult → Outcome B E

abbrev pub envelope_of : ProposedCommit → ℕ → Envelope
envelope_of p now = record {
  proposal = p;
  revision_after = p.revision_before + 1;
  committed_at = now;
}

-- The second transaction of `attempt`, at the time `now`.
unfoldable pub write_phase : {B E : Type 0} → Attempt B E → ℕ → Store → Store × Outcome B E
write_phase (finished r) now s = (s, result r)
write_phase (confirm before) now s =
    if s.is_shutdown
    then (s, result (err store_shutdown))
    else if s.revision == before.revision
    then (s, result (ok (no_change before.revision before.snapshot)))
    else (s, retry)
write_phase (write p) now s =
    if s.is_shutdown
    then (s, result (err store_shutdown))
    else if s.revision == p.revision_before
    then (
      record {
        state = record { snapshot = p.after; revision = p.revision_before + 1 };
        is_shutdown = s.is_shutdown;
        published = envelope_of p now ∷ s.published;
      },
      result (ok (committed (envelope_of p now))),
    )
    else (s, retry)

-- `shutdown`
unfoldable pub shut_down : Store → Store
shut_down s = record s { is_shutdown = true }

-- The builder of `apply`, from the function that applies patches under the tree's Schema.
unfoldable pub build_apply :
    {B : Type 0}
    → (Value → List TreePatch → Result B AppliedPatches)
    → ApplyChangeInput
    → StoreState
    → Result B ProducedChange
build_apply apply_tree_patches change state =
    apply_tree_patches state.snapshot change.patches.forward >>= λ applied. ok (record {
      snapshot = applied.snapshot;
      change = record {
        patches = applied.patch_set;
        operations = elim change.operations [ none ↦ [] | some ops ↦ ops ];
        inverse_operations = elim change.inverse_operations [ none ↦ [] | some ops ↦ ops ];
      };
      touched_paths = applied.touched_paths;
    })

-- The builder of `replace`, from the function that reconciles snapshots.
unfoldable pub build_replace :
    {B : Type 0}
    → (Value → Value → Result B AppliedPatches)
    → Value
    → StoreState
    → Result B ProducedChange
build_replace reconcile incoming state = reconcile state.snapshot incoming >>= λ reconciled.
    ok (record {
      snapshot = reconciled.snapshot;
      change = record { patches = reconciled.patch_set; operations = []; inverse_operations = [] };
      touched_paths = reconciled.touched_paths;
    })

unfoldable pub make_tree_store : Value → Store
make_tree_store admitted = record {
  state = record { snapshot = admitted; revision = 0 };
  is_shutdown = false;
  published = [];
}
