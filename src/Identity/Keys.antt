-- ===== src/Identity/Keys.antt =====
-- packages/core/src/identity.ts: entity keys do not collide.
use effect_state_tree.Base.{ℕ, ◌≡◌, ◌≢◌, refl, ap, [], ◌∷◌, ◌++◌, All, arith}
use effect_state_tree.Base.Text.{Text}
use effect_state_tree.Runtime.{EntityId, string_id, number_id, EntityIdentity}
use effect_state_tree.Identity.{entity_key, type_text, id_text}

abbrev IsPlain : ℕ → Type 0
IsPlain c = c ≢ b':'

colon_split :
    (u v s t : Text)
    → All IsPlain u
    → All IsPlain v
    → u ++ b':' ∷ s ≡ v ++ b':' ∷ t
    → (u ≡ v) × (s ≡ t)
colon_split [] [] s t hu hv e = (refl, cc)
colon_split [] (c ∷ v) s t hu (h, hv) e = absurd (h (cc))
colon_split (c ∷ u) [] s t (h, hu) hv e = absurd (h (cc))
colon_split (c ∷ u) (d ∷ v) s t (h, hu) (k, hv) e =
    let (same, rest) = colon_split u v s t hu hv (cc) in (cc, rest)

type_text-IsPlain : (i : EntityId) → All IsPlain (type_text i)
type_text-IsPlain (string_id t) = omega arith
type_text-IsPlain (number_id t) = omega arith

module _ (encode : Text → Text) (encode_injective : (s t : Text) → encode s ≡ encode t → s ≡ t)
    (encode_plain : (s : Text) → All IsPlain (encode s)) where
  id_injective : (i j : EntityId) → type_text i ≡ type_text j → id_text i ≡ id_text j → i ≡ j
  id_injective (string_id s) (string_id t) kind text = ap string_id text
  id_injective (number_id s) (number_id t) kind text = ap number_id text
  id_injective (string_id s) (number_id t) kind text = ground arith
  id_injective (number_id s) (string_id t) kind text = ground arith

  -- Where the encoding of texts is injective and writes no colon, two entities with one key are the
  -- same: they agree in type, in whether the id is a string or a number, and in the id's text.
  pub entity_key_injective :
      (i j : EntityIdentity) → entity_key encode i ≡ entity_key encode j → i ≡ j
  unfolding entity_key
  entity_key_injective i j e =
      let (types, rest) =
        colon_split (encode i.entity_type) (encode j.entity_type)
          (type_text i.id ++ b':' ∷ encode (id_text i.id))
          (type_text j.id ++ b':' ∷ encode (id_text j.id)) (encode_plain i.entity_type)
          (encode_plain j.entity_type) e in
      let (kinds, ids) =
        colon_split (type_text i.id) (type_text j.id) (encode (id_text i.id))
          (encode (id_text j.id)) (type_text-IsPlain i.id) (type_text-IsPlain j.id) rest in
      cc (
        encode_injective i.entity_type j.entity_type types,
        id_injective i.id j.id kinds (encode_injective (id_text i.id) (id_text j.id) ids),
      )
