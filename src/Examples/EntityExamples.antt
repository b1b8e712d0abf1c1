-- ===== src/Examples/EntityExamples.antt =====
-- packages/core/src/{identity,reconcile}.ts and the rebasing of packages/crdt/src/crdt.ts at one entity.
use effect_state_tree.Base.{
  ℕ, zero, ◌+◌, ◌≡◌, ◌≢◌, ◌⊎◌, refl, sym, ap, ◌∙◌, subst, some-injective, if◌then◌else◌, Bool, true,
  false, Option, none, some, List, [], ◌∷◌, ◌++◌, All, drop, length, arith,
}
use effect_state_tree.Base.Text.{Text, codes, text_eq, text_eq_iff}
use effect_state_tree.Base.Result.{ok}
use effect_state_tree.Path.{TreePath, key, index}
use effect_state_tree.Path.Decimal.{print}
use effect_state_tree.Snapshot.{Value, leaf, number, arr, obj, nil, lookup}
use effect_state_tree.Snapshot.Read.{get_at_path}
use effect_state_tree.Runtime.{EntityIdentity, string_id, number_id}
use effect_state_tree.Identity.{
  IndexEntry, Visit, AnchoredPath, entity_key, visit_identity, visit_entity, build_entity_index,
  resolve_anchored_path,
}
use effect_state_tree.Identity.Keys.{entity_key_injective}
use effect_state_tree.Identity.Index.{IsLocated, build_entity_index-IsLocated}
use effect_state_tree.Identity.Anchors.{IsChecked, IsMatched, resolve_anchored_path-eq-ok}
use effect_state_tree.Reconcile.{reconcile_value}
use effect_state_tree.Reconcile.Contains.{Contains}
use effect_state_tree.Reconcile.Incoming.{reconcile_value-Contains}
use effect_state_tree.Crdt.{relocate_path, relocate_from}
use effect_state_tree.Crdt.Relocate.{IsIndexOf, IsUnidentified, Deepest, relocate_path-eq-ok}
use effect_state_tree.Examples.Samples.{n_path, counter}

-- An encoding that is injective and writes no colon.
abbrev shift : Text → Text
shift [] = []
shift (c ∷ s) = (c + 59) ∷ shift s

shift_injective : (s t : Text) → shift s ≡ shift t → s ≡ t
shift_injective [] [] e = refl
shift_injective [] (c ∷ t) e = cc
shift_injective (c ∷ s) [] e = cc
shift_injective (c ∷ s) (d ∷ t) e = ground (arith, e, shift_injective s t)

shift_plain : (s : Text) → All (λ c. c ≢ b':') (shift s)
shift_plain [] = tt
shift_plain (c ∷ s) = (λ e. omega (arith, e), shift_plain s)

abbrev alice : EntityIdentity
alice = record { entity_type = codes "User"; id = string_id (codes "a") }

abbrev no_number : ℕ → Text
no_number b = []

abbrev visits : List Visit
visits =
    (record { annotation = none; path = []; value = leaf (number 1) })
    ∷ (record {
      annotation = some (record { type = codes "Item"; id = codes "n" });
      path = index 0 ∷ [];
      value = counter 0 0;
    })
    ∷ []

abbrev item : IndexEntry
item = record {
  key = shift (codes "Item") ++ b':' ∷ (codes "number" ++ b':' ∷ shift (codes "0"));
  identity = record { entity_type = codes "Item"; id = number_id (codes "0") };
  path = index 0 ∷ [];
}

index_example : All (λ v. IsLocated no_number shift (item ∷ []) v.annotation v.path v.value) visits
unfolding build_entity_index visit_entity visit_identity entity_key print lookup text_eq
index_example = build_entity_index-IsLocated no_number shift visits (item ∷ []) refl

abbrev anchored : AnchoredPath
anchored = record { path = n_path; anchors = (record { depth = 1; identity = some alice }) ∷ [] }

abbrev everywhere : Value → TreePath → Option EntityIdentity
everywhere v p = some alice

resolved_example :
    All
      (λ a. IsChecked everywhere false n_path a → IsMatched everywhere (counter 0 4) n_path a)
      anchored.anchors
    × (get_at_path (counter 0 4) n_path ≡ ok (leaf (number 4)))
unfolding resolve_anchored_path get_at_path text_eq
resolved_example =
    resolve_anchored_path-eq-ok everywhere false (counter 0 4) anchored (leaf (number 4)) refl

-- The entity stands under a key of an object, and at the start of an array.
abbrev standing : Value → TreePath → Option EntityIdentity
standing (obj h b fs) (key k ∷ []) = some alice
standing (arr h xs) (index zero ∷ []) = some alice
standing v p = none

abbrev alice_key : Text
alice_key = shift (codes "User") ++ b':' ∷ (codes "string" ++ b':' ∷ shift (codes "a"))

abbrev alice_first : IndexEntry
alice_first = record { key = alice_key; identity = alice; path = index 0 ∷ [] }

abbrev a_list : Value
a_list = arr (record { ref = 3; frozen = true }) nil

alice_key_lem : alice_key ≡ entity_key shift alice
unfolding entity_key
alice_key_lem = refl

one_found :
    (b : Bool) (x e : IndexEntry)
    → ◌≡◌ {A = Option IndexEntry} (if b then some x else none) (some e)
    → (b ≡ true) × (x ≡ e)
one_found true x e h = (refl, some-injective h)
one_found false x e h = cc

alice_first-IsIndexOf : IsIndexOf shift standing (alice_first ∷ []) a_list
unfolding IsIndexOf
alice_first-IsIndexOf i e found =
    let (same, here) = one_found (text_eq alice_key (entity_key shift i)) alice_first e found in
    let who : alice ≡ i =
      entity_key_injective shift shift_injective shift_plain alice i
        (sym alice_key_lem ∙ (text_eq_iff alice_key (entity_key shift i)).0 same) in
    subst (λ (x : IndexEntry). standing a_list x.path ≡ some i) here (ap some who)

moved_example :
    (IsUnidentified standing (counter 0 4) n_path 0 (length n_path) × ((index 0 ∷ []) ≡ n_path))
    ⊎ ((d : Deepest standing (counter 0 4) n_path (length n_path)) × (new : TreePath) × (standing
            a_list new
          ≡ some d.identity)
        × ((index 0 ∷ []) ≡ new ++ drop d.depth n_path))
unfolding relocate_path relocate_from entity_key text_eq
moved_example =
    relocate_path-eq-ok {E = Text} shift standing (counter 0 4) a_list (alice_first ∷ []) n_path
      (index 0 ∷ []) alice_first-IsIndexOf refl

abbrev no_identity : Value → TreePath → Option EntityIdentity
no_identity v p = none

abbrev never_atomic : Value → TreePath → Bool
never_atomic v p = false

never_atomic_lem : (v : Value) (p : TreePath) → never_atomic v p ≡ false
never_atomic_lem v p = refl

reconciled_example :
    Contains
      (reconcile_value [] shift no_identity never_atomic
        (counter 0 0)
        (counter 1 4)
        (counter 0 0)
        (counter 1 4)
        []
        5).0
      (counter 1 4)
reconciled_example =
    reconcile_value-Contains shift no_identity never_atomic (counter 0 0) (counter 1 4)
      never_atomic_lem (counter 0 0) (counter 1 4) [] 5
