-- ===== src/Tree/Admitted.antt =====
-- packages/core/src/tree.ts: what holds of the trees that are admitted, and of those that patches make.
use effect_state_tree.Base.{
  ◌∙◌, sym, none, some, Bool-cases, inl, inr, some-injective, ◌≢◌, init, last?, ℕ, ◌≡◌, ap, subst,
  false, Option, List, [], All,
}
use effect_state_tree.Base.Text.{Text}
use effect_state_tree.Base.Result.{Result, ok, err, ◌>>=◌, ok-injective, >>=-eq-ok}
use effect_state_tree.Path.{TreePath, key}
use effect_state_tree.Runtime.{EntityIdentity}
use effect_state_tree.Identity.Anchors.{agree_sound}
use effect_state_tree.Snapshot.{Value, Options}
use effect_state_tree.Snapshot.Admission.{validate_snapshot_shape}
use effect_state_tree.Snapshot.Capture.{capture_snapshot}
use effect_state_tree.Patch.{TreePatch, path_of}
use effect_state_tree.Identity.{agree, EntityAnnotation, EntityIndex, Visit, build_entity_index}
use effect_state_tree.Identity.Index.{IsLocated, build_entity_index-IsLocated}
use effect_state_tree.Reconcile.{changed_identity, root_identity_changed}
use effect_state_tree.Validation.{Issue}
use effect_state_tree.Tree.{
  atomic_descent, ambiguous_union_descent, unsupported_structural_transformation, other_reason,
  Descent, TreeError, AdmittedTree, refuse, snapshot_refused, schema_refused, index_refused,
  validate_tree_snapshot, capture_tree_snapshot,
}

-- Where the roots of both snapshots are entities, they are one entity.
abbrev pub SameRoot : (Value → TreePath → Option EntityIdentity) → Value → Value → Type 0
SameRoot identity v w =
    (i j : EntityIdentity) → identity v [] ≡ some i → identity w [] ≡ some j → i ≡ j

changed_identity-eq-false :
    (o p : Option EntityIdentity) (i j : EntityIdentity)
    → changed_identity o p ≡ false
    → o ≡ some i
    → p ≡ some j
    → i ≡ j
changed_identity-eq-false none p i j h e f = cc
changed_identity-eq-false (some x) none i j h e f = cc
changed_identity-eq-false (some x) (some y) i j h e f =
    elim (Bool-cases (agree (some x) (some y))) [
      | inl same ↦ some-injective (sym e ∙ agree_sound (some x) (some y) same ∙ f)
      | inr apart ↦ cc (rw apart at h)
    ]

pub root_identity_changed-SameRoot :
    (identity : Value → TreePath → Option EntityIdentity) (v w : Value)
    → root_identity_changed identity v w ≡ false
    → SameRoot identity v w
unfolding root_identity_changed
root_identity_changed-SameRoot identity v w h i j e f =
    changed_identity-eq-false (identity v []) (identity w []) i j h e f

pub refuse-eq-ok :
    {E A : Type 0} (f : E → TreeError) (r : Result E A) {a : A} → refuse f r ≡ ok a → r ≡ ok a
refuse-eq-ok f (ok b) e = ap ok (ok-injective e)
refuse-eq-ok f (err x) e = cc

module _ (opts : Options) (number_text : ℕ → Text) (encode : Text → Text)
    (annotation_at : Value → TreePath → Option EntityAnnotation)
    (descent : Value → TreePath → Option Descent) (decode : Value → Result Issue (Unit {0}))
    (visits : Value → List Visit) where
  -- The snapshot has an admitted shape, the Schema decodes it, and the index gives every entity that
  -- the Schema finds in it its own path.
  pub record IsAdmitted (v : Value) (entities : EntityIndex) : Type 0 where
    pub shaped : validate_snapshot_shape v opts ≡ ok tt
    pub decoded : decode v ≡ ok tt
    pub located :
        All (λ x. IsLocated number_text encode entities x.annotation x.path x.value) (visits v)

  validate_tree_snapshot-IsAdmitted :
      (v : Value) (entities : EntityIndex)
      → validate_tree_snapshot opts number_text encode annotation_at descent decode visits v
        ≡ ok entities
      → IsAdmitted v entities
  unfolding validate_tree_snapshot
  validate_tree_snapshot-IsAdmitted v entities e =
      let (s, shaped, rest) =
        >>=-eq-ok (refuse snapshot_refused (validate_snapshot_shape v opts))
          (λ _. refuse schema_refused (decode v) >>= λ _.
            refuse index_refused (build_entity_index number_text encode [] (visits v)))
          e in
      let (d, decoded, built) =
        >>=-eq-ok (refuse schema_refused (decode v))
          (λ _. refuse index_refused (build_entity_index number_text encode [] (visits v))) rest in
      record {
        shaped = refuse-eq-ok snapshot_refused (validate_snapshot_shape v opts) shaped;
        decoded = refuse-eq-ok schema_refused (decode v) decoded;
        located = build_entity_index-IsLocated number_text encode (visits v) entities (
            refuse-eq-ok index_refused (build_entity_index number_text encode [] (visits v)) built);
      }

  -- A tree that is captured is admitted: its snapshot has the shape of one, passes the Schema, and has
  -- each of its entities in the index at the entity's own path.
  capture_tree_snapshot-IsAdmitted :
      (v : Value) (next : ℕ) (t : AdmittedTree) (n : ℕ)
      → capture_tree_snapshot opts number_text encode annotation_at descent decode visits v next
        ≡ ok (t, n)
      → (capture_snapshot v opts next ≡ ok (t.snapshot, n)) × IsAdmitted t.snapshot t.entities
  unfolding capture_tree_snapshot
  capture_tree_snapshot-IsAdmitted v next t n e =
      let (r, captured, rest) =
        >>=-eq-ok (refuse snapshot_refused (capture_snapshot v opts next))
          (λ (snapshot, m).
            validate_tree_snapshot opts number_text encode annotation_at descent decode visits
              snapshot
            >>= λ entities. ok (record { snapshot = snapshot; entities = entities }, m))
          e in
      let (entities, valid, done) =
        >>=-eq-ok
          (validate_tree_snapshot opts number_text encode annotation_at descent decode visits r.0)
          (λ entities. ok (record { snapshot = r.0; entities = entities }, r.1)) rest in
      subst
        (λ (x : AdmittedTree × ℕ).
          (capture_snapshot v opts next ≡ ok (x.0.snapshot, x.1))
          × IsAdmitted x.0.snapshot x.0.entities)
        (ok-injective done)
        (
          refuse-eq-ok snapshot_refused (capture_snapshot v opts next) captured,
          validate_tree_snapshot-IsAdmitted r.0 entities valid,
        )

  -- The path is not that of the id property of an entity of the snapshot.
  abbrev pub IsNotId : Value → TreePath → Type 0
  IsNotId v path =
      (a : EntityAnnotation) → annotation_at v (init path) ≡ some a → last? path ≢ some (key a.id)

  -- The Schema does not refuse to descend along the path.
  abbrev pub IsEntered : Option Descent → Type 0
  IsEntered none = Unit {0}
  IsEntered (some other_reason) = Unit {0}
  IsEntered (some atomic_descent) = ⊥
  IsEntered (some ambiguous_union_descent) = ⊥
  IsEntered (some unsupported_structural_transformation) = ⊥

  -- Every patch lies where the Schema can be entered, and none writes the id of an entity.
  pub KeepsIds : Value → List TreePatch → Type 0
  KeepsIds v ps = All (λ p. IsEntered (descent v (path_of p)) × IsNotId v (path_of p)) ps
