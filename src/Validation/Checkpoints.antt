-- ===== src/Validation/Checkpoints.antt =====
-- packages/validation/src/report.ts: the checkpoint of the validation controller's reducer.
use effect_state_tree.Base.{
  ℕ, ◌≡◌, ap, ◌∙◌, Bool, true, false, Option, none, some, List, [], ◌∷◌, if◌then◌else◌, inl, inr,
}
use effect_state_tree.Base.Result.{Result, ok, err, Result-cases}
use effect_state_tree.Snapshot.{Value}
use effect_state_tree.Runtime.{Envelope}
use effect_state_tree.Runtime.Plugin.{fold_commits}
use effect_state_tree.Validation.{
  Issue, Checkpoint, ValidationState, validate_tree, validation_state, validation_reducer,
}

-- The states of a tree, the latest first.
pub revisions : List Envelope → List Checkpoint → List Checkpoint
revisions [] seen = seen
revisions (c ∷ cs) seen =
    revisions cs ((record { revision = c.revision_after; snapshot = c.proposal.after }) ∷ seen)

abbrev pub is_ok {ℓ} : {E A : Type ℓ} → Result E A → Bool
is_ok (ok a) = true
is_ok (err e) = false

module _ {T : Type 0} (decode : Value → Result Issue T) where
  pub passes : Value → Bool
  passes v = is_ok (decode v)

  -- The first of them that the Schema decodes.
  pub latest_valid : List Checkpoint → Option Checkpoint
  latest_valid [] = none
  latest_valid (c ∷ cs) = let rest = latest_valid cs in if passes c.snapshot then some c else rest

  state_step :
      (v : Value) (revision : ℕ) (previous : Option Checkpoint)
      → (validation_state (validate_tree decode v revision) v previous).validated
        ≡ (if passes v then some (record { revision = revision; snapshot = v }) else previous)
  unfolding validation_state validate_tree passes
  state_step v revision previous = elim (Result-cases (decode v)) [
    | inl (t, e) ↦ rw (e)
    | inr (issue, e) ↦ rw (e)
  ]

  folded :
      (snapshot : Value) (revision : ℕ) (cs : List Envelope) (state : ValidationState)
      (seen : List Checkpoint)
      → state.validated ≡ latest_valid seen
      → (fold_commits (validation_reducer decode snapshot revision) cs state).0.validated
        ≡ latest_valid (revisions cs seen)
  unfolding fold_commits validation_reducer revisions latest_valid
  folded snapshot revision [] state seen e = e
  folded snapshot revision (c ∷ cs) state seen e =
      folded snapshot revision cs
        (validation_state (validate_tree decode c.proposal.after c.revision_after) c.proposal.after
          state.validated)
        ((record { revision = c.revision_after; snapshot = c.proposal.after }) ∷ seen)
        (state_step c.proposal.after c.revision_after state.validated
          ∙ ap
              (λ o.
                if passes c.proposal.after
                then some (record { revision = c.revision_after; snapshot = c.proposal.after })
                else o)
              e)

  -- After any commits, the checkpoint of a controller is the latest state of the tree that the Schema
  -- decodes, the initial one included, and there is none where no state has decoded.
  pub fold_commits-validation_reducer :
      (snapshot : Value) (revision : ℕ) (cs : List Envelope)
      → (fold_commits
          (validation_reducer decode snapshot revision)
          cs
          (validation_reducer decode snapshot revision).initial).0.validated
        ≡ latest_valid (revisions cs ((record { revision = revision; snapshot = snapshot }) ∷ []))
  unfolding validation_reducer latest_valid
  fold_commits-validation_reducer snapshot revision cs =
      folded snapshot revision cs
        (validation_state (validate_tree decode snapshot revision) snapshot none)
        ((record { revision = revision; snapshot = snapshot }) ∷ [])
        (state_step snapshot revision none)
