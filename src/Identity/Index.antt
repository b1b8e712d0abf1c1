-- ===== src/Identity/Index.antt =====
-- packages/core/src/identity.ts: what a successful entity index holds.
use effect_state_tree.Base.{
  ℕ, ◌≡◌, refl, Option, none, some, List, [], ◌∷◌, All, Bool-cases, inl, inr,
}
use effect_state_tree.Base.Text.{Text, text_eq, text_eq_iff, text_eq_refl}
use effect_state_tree.Base.Result.{ok, >>=-eq-ok, ok-injective}
use effect_state_tree.Path.{TreePath}
use effect_state_tree.Snapshot.{Value}
use effect_state_tree.Runtime.{EntityIdentity}
use effect_state_tree.Identity.{
  EntityAnnotation, EntityIndex, IndexEntry, Visit, visit_identity, entity_key, find_entry,
  add_entry, visit_entity, build_entity_index,
}

module _ (number_text : ℕ → Text) (encode : Text → Text) where
  -- An annotated visit has an identity, and the index has its key at its path.
  pub IsLocated : EntityIndex → Option EntityAnnotation → TreePath → Value → Type 0
  IsLocated index none path v = Unit {0}
  IsLocated index (some a) path v =
      (i : EntityIdentity) × (visit_identity number_text a path v ≡ ok i)
      × (find_entry (entity_key encode i) index
          ≡ some (record { key = entity_key encode i; identity = i; path = path }))

  Keeps : EntityIndex → EntityIndex → Type 0
  Keeps index more =
      (k : Text) (e : IndexEntry) → find_entry k index ≡ some e → find_entry k more ≡ some e

  add_entry-Keeps :
      (index more : EntityIndex) (i : EntityIdentity) (path : TreePath) (found : Option IndexEntry)
      → find_entry (entity_key encode i) index ≡ found
      → add_entry number_text encode index i path found ≡ ok more
      → Keeps index more
        × (find_entry (entity_key encode i) more
            ≡ some (record { key = entity_key encode i; identity = i; path = path }))
  unfolding Keeps
  add_entry-Keeps index more i path (some e) h done = cc
  add_entry-Keeps index more i path none h done = (
    λ k e known. elim (Bool-cases (text_eq (entity_key encode i) k)) [
      | inl same ↦ cc (h, known, (text_eq_iff (entity_key encode i) k).0 same)
      | inr differ ↦ rw (← ok-injective done, differ) known
    ],
    rw (← ok-injective done, text_eq_refl (entity_key encode i)),
  )

  visit_entity_lem :
      (index more : EntityIndex) (annotation : Option EntityAnnotation) (path : TreePath)
      (v : Value)
      → visit_entity number_text encode index annotation path v ≡ ok more
      → Keeps index more × IsLocated more annotation path v
  unfolding visit_entity IsLocated Keeps
  visit_entity_lem index more none path v done = (λ k e known. cc (ok-injective done), tt)
  visit_entity_lem index more (some a) path v done =
      let (i, named, added) =
        >>=-eq-ok (visit_identity number_text a path v)
          (λ i. add_entry number_text encode index i path (find_entry (entity_key encode i) index))
          done in
      let (keeps, found) =
        add_entry-Keeps index more i path (find_entry (entity_key encode i) index) refl added in
      (keeps, (i, named, found))

  IsLocated-Keeps :
      (index more : EntityIndex) (annotation : Option EntityAnnotation) (path : TreePath)
      (v : Value)
      → Keeps index more
      → IsLocated index annotation path v
      → IsLocated more annotation path v
  unfolding IsLocated Keeps
  IsLocated-Keeps index more none path v keeps h = tt
  IsLocated-Keeps index more (some a) path v keeps (i, named, found) =
      (i, named, keeps (entity_key encode i) _ found)

  build_lem :
      (index done : EntityIndex) (visits : List Visit)
      → build_entity_index number_text encode index visits ≡ ok done
      → Keeps index done × All (λ v. IsLocated done v.annotation v.path v.value) visits
  unfolding build_entity_index Keeps
  build_lem index done [] e = (λ k entry known. cc (ok-injective e), tt)
  build_lem index done (v ∷ vs) e =
      let (more, first, rest) =
        >>=-eq-ok (visit_entity number_text encode index v.annotation v.path v.value)
          (λ more. build_entity_index number_text encode more vs) e in
      let (keeps, here) = visit_entity_lem index more v.annotation v.path v.value first in
      let (keeps', all) = build_lem more done vs rest in
      (
        λ k entry known. keeps' k entry (keeps k entry known),
        (IsLocated-Keeps more done v.annotation v.path v.value keeps' here, all),
      )

  -- An index that is built without an error gives, for every visit of an annotated value, the
  -- visit's own path under the key of its identity.
  pub build_entity_index-IsLocated :
      (visits : List Visit) (index : EntityIndex)
      → build_entity_index number_text encode [] visits ≡ ok index
      → All (λ v. IsLocated index v.annotation v.path v.value) visits
  build_entity_index-IsLocated visits index e = (build_lem [] index visits e).1
