-- ===== src/Foldkit/Refines.antt =====
-- packages/foldkit/src/index.ts and packages/runtime/src/store.ts: the pure update of a tree against
-- the commit of a store that nothing else writes to meanwhile.
use effect_state_tree.Base.{
  ℕ, ◌==◌, ==_iff, ◌≡◌, refl, ap, ◌∙◌, true, false, Option, none, some, List, [], ◌∷◌, Bool-cases,
  inl, inr, if◌then◌else◌,
}
use effect_state_tree.Base.Result.{Result, ok, err, ◌>>=◌}
use effect_state_tree.Snapshot.{Value}
use effect_state_tree.Patch.{TreePatch}
use effect_state_tree.Patch.Batch.{AppliedPatches}
use effect_state_tree.Runtime.{CommitInfo, Envelope, ProducedChange}
use effect_state_tree.Runtime.Context.{or_else}
use effect_state_tree.Runtime.Store.{
  StoreState, Store, CommitOptions, CommitError, Outcome, Attempt, result, retry, build_error,
  commit_info, read_phase, write_phase, build_apply, build_replace, is_empty,
}
use effect_state_tree.Runtime.Store
use effect_state_tree.Foldkit.{
  CommitContext, TreeCommit, TreeState, TreeMessage, tree_change, tree_snapshot,
  external_tree_change, external_tree_snapshot, Reduction, UpdateResult, no_change, committed,
  context_of, given_tags, update, changed, commit_of, change_of, committed_result, reduced,
}

-- The options that a message's context stands for.
pub options_of : CommitContext → CommitOptions (Unit {0})
options_of ctx = record {
  tags = given_tags ctx.tags;
  label = ctx.label;
  source = ctx.source;
  guard = none;
  guard_no_change = false;
}

pub no_context : CommitInfo
no_context = record { tags = []; label = none; source = none; action = none }

pub store_of : {Plugin : Type 0} → TreeState Plugin → List Envelope → Store
store_of state published = record {
  state = record { snapshot = state.tree; revision = state.revision };
  is_shutdown = false;
  published = published;
}

pub envelope_of_commit : TreeCommit → Envelope
envelope_of_commit c = record {
  proposal = record {
    transaction_id = c.transaction_id;
    revision_before = c.revision_before;
    before = c.before;
    after = c.after;
    change = c.change;
    touched_paths = c.touched_paths;
    info = record { tags = c.tags; label = c.label; source = c.source; action = none };
  };
  revision_after = c.revision_after;
  committed_at = c.committed_at;
}

-- The end of a store's attempt that an update's result stands for.
pub attempt_of :
    {E Plugin Command Out : Type 0}
    → Store
    → Result E (UpdateResult Plugin Command Out)
    → Store × Outcome E (Unit {0})
attempt_of s (err e) = (s, result (err (build_error e)))
attempt_of s (ok (no_change state)) = (s, result (ok (Store.no_change state.revision state.tree)))
attempt_of s (ok (committed state commands out commit)) = (
  store_of state (envelope_of_commit commit ∷ s.published),
  result (ok (Store.committed (envelope_of_commit commit))),
)

or_else-none {ℓ} : {A : Type ℓ} (o : Option A) → or_else o none ≡ o
or_else-none none = refl
or_else-none (some a) = refl

==_refl : (n : ℕ) → n == n ≡ true
==_refl n = (==_iff n n).1 refl

forward_lem :
    (message : TreeMessage) (applied : AppliedPatches)
    → is_empty (change_of message applied).patches.forward ≡ is_empty applied.patch_set.forward
unfolding change_of
forward_lem (tree_change c ctx) applied = refl
forward_lem (external_tree_change c ctx) applied = refl
forward_lem (tree_snapshot v ctx) applied = refl
forward_lem (external_tree_snapshot v ctx) applied = refl

module _ {E : Type 0} (apply_tree_patches : Value → List TreePatch → Result E AppliedPatches)
    (reconcile : Value → Value → Result E AppliedPatches) where
  -- The builder of `apply` or `replace` for a message's change or snapshot.
  pub builder : TreeMessage → StoreState → Result E ProducedChange
  builder (tree_change c ctx) = build_apply apply_tree_patches (record {
    patches = c.patches;
    operations = some c.operations;
    inverse_operations = some c.inverse_operations;
  })
  builder (external_tree_change c ctx) = build_apply apply_tree_patches (record {
    patches = c.patches;
    operations = some c.operations;
    inverse_operations = some c.inverse_operations;
  })
  builder (tree_snapshot v ctx) = build_replace reconcile v
  builder (external_tree_snapshot v ctx) = build_replace reconcile v

  -- A commit of the message on a store, from its first transaction to its second.
  pub commit_message : TreeMessage → Store → Store × Outcome E (Unit {0})
  commit_message message s =
      let ctx = context_of message in
      write_phase
        (read_phase (builder message) (options_of ctx) (commit_info no_context (options_of ctx))
          ctx.transaction_id s)
        ctx.committed_at s

  produced : TreeMessage → AppliedPatches → ProducedChange
  produced message applied = record {
    snapshot = applied.snapshot;
    change = change_of message applied;
    touched_paths = applied.touched_paths;
  }

  builder_lem :
      (message : TreeMessage) (s : StoreState)
      → builder message s ≡ (
          changed apply_tree_patches reconcile s.snapshot message >>= λ applied.
          ok (produced message applied))
  unfolding builder build_apply build_replace changed produced change_of
  builder_lem (tree_change c ctx) s = refl
  builder_lem (external_tree_change c ctx) s = refl
  builder_lem (tree_snapshot v ctx) s = refl
  builder_lem (external_tree_snapshot v ctx) s = refl

  module _ {Plugin Command Out : Type 0}
      (reducer : Option (Plugin → TreeCommit → Reduction Plugin Command Out)) where
    -- The two sides once the message's change has been applied, or has failed.
    finished :
        (message : TreeMessage) (state : TreeState Plugin) (published : List Envelope)
        (r : Result E AppliedPatches)
        → (write_phase
            (Store.built
              (options_of (context_of message))
              (commit_info no_context (options_of (context_of message)))
              (context_of message).transaction_id
              (store_of state published).state
              (r >>= λ applied. ok (produced message applied)))
            (context_of message).committed_at
            (store_of state published))
          ≡ attempt_of (store_of state published) (
              r >>= λ applied. ok (
                if is_empty applied.patch_set.forward
                then no_change state
                else committed_result (commit_of message state.tree state.revision applied) (
                    reduced reducer state.plugin
                      (commit_of message state.tree state.revision applied))))
    unfolding write_phase commit_info options_of no_context store_of envelope_of_commit attempt_of
        produced commit_of
    finished message state published (err e) = refl
    finished message state published (ok applied) =
        elim (Bool-cases (is_empty applied.patch_set.forward)) [
          | inl none_left ↦ rw (forward_lem message applied, none_left)
          | inr some_left ↦ rw (
            forward_lem message applied,
            some_left,
            ==_refl state.revision,
            or_else-none (context_of message).label,
            or_else-none (context_of message).source,
          )
        ]

    -- A message's commit, on a store that is open and holds the tree and revision of a Foldkit state,
    -- ends as the pure update does: with the same failure, with no change, or with the update's new
    -- tree and revision in the store, and the update's commit as the one more commit that is published.
    pub commit_message-update :
        (message : TreeMessage) (state : TreeState Plugin) (published : List Envelope)
        → commit_message message (store_of state published)
          ≡ attempt_of
              (store_of state published)
              (update apply_tree_patches reconcile reducer state message)
    unfolding commit_message read_phase store_of update
    commit_message-update message state published =
        ap
          (λ r.
            write_phase
              (Store.built (options_of (context_of message))
                (commit_info no_context (options_of (context_of message)))
                (context_of message).transaction_id (store_of state published).state r)
              (context_of message).committed_at (store_of state published))
          (builder_lem message (store_of state published).state)
        ∙ finished message state published (changed apply_tree_patches reconcile state.tree message)
