-- ===== src/Path/PointerErrors.antt =====
-- packages/core/src/path.ts: where decoding a JSON Pointer fails.
use effect_state_tree.Base.{
  ℕ, zero, suc, ◌+◌, ◌≡◌, ◌≢◌, refl, ap, ◌∙◌, List, [], ◌∷◌, ◌++◌, length, ◌==◌, arith, append-nil,
  append_assoc, inl, inr, Bool-cases, ◌⊎◌, get_elem?, some, ==_iff, subst,
}
use effect_state_tree.Base.Text.{Text}
use effect_state_tree.Base.Result.{err, Result-cases, err-injective}
use effect_state_tree.Path.{TreePath}
use effect_state_tree.Path.Token.{
  DecodeError, invalid_pointer, invalid_escape, decode_token, decode_from,
}
use effect_state_tree.Path.Pointer.{
  join_slash, split_slash, NumberSegments, token_to_segment, decode_tokens, pointer_to_path,
}

-- The error points at a '~' of `text`, which starts at the offset `pos` of the pointer.
record PointsAt (text : Text) (pos : ℕ) (e : DecodeError) : Type 0 where
  within : ℕ
  at_lem : e.at ≡ pos + within
  tilde : get_elem? text within ≡ some b'~'
  reason : e.reason ≡ invalid_escape

PointsAt-cons :
    {s : Text} {pos : ℕ} {e : DecodeError} (c : ℕ) → PointsAt s (pos + 1) e → PointsAt (c ∷ s) pos e
PointsAt-cons c p = record {
  within = suc p.within;
  at_lem = omega arith;
  tilde = p.tilde;
  reason = p.reason;
}

PointsAt-append :
    {s : Text} (t : Text) (pos : ℕ) {e : DecodeError}
    → PointsAt s (pos + length t) e
    → PointsAt (t ++ s) pos e
PointsAt-append [] pos p = record {
  within = p.within;
  at_lem = omega arith;
  tilde = p.tilde;
  reason = p.reason;
}
PointsAt-append (c ∷ t) pos p = PointsAt-cons c (
    PointsAt-append t (pos + 1)
      (record { within = p.within; at_lem = omega arith; tilde = p.tilde; reason = p.reason }))

get_elem?-append_left :
    (t s : Text) (k : ℕ) {x : ℕ} → get_elem? t k ≡ some x → get_elem? (t ++ s) k ≡ some x
get_elem?-append_left [] s k h = cc
get_elem?-append_left (c ∷ t) s zero h = h
get_elem?-append_left (c ∷ t) s (suc k) h = get_elem?-append_left t s k h

PointsAt-left :
    {t : Text} {pos : ℕ} {e : DecodeError} (s : Text) → PointsAt t pos e → PointsAt (t ++ s) pos e
PointsAt-left {t} s p = record {
  within = p.within;
  at_lem = p.at_lem;
  tilde = get_elem?-append_left t s p.within p.tilde;
  reason = p.reason;
}

decode_from-err :
    (pointer : Text) (pos : ℕ) (decoded token : Text) {e : DecodeError}
    → decode_from pointer pos decoded token ≡ err e
    → PointsAt token pos e
unfolding decode_from
decode_from-err pointer pos decoded [] h = cc
decode_from-err pointer pos decoded (c ∷ []) h = record {
  within = 0;
  at_lem = ground arith;
  tilde = ground arith;
  reason = ground arith;
}
decode_from-err pointer pos decoded (c ∷ d ∷ rest) {e} h = elim (Bool-cases (c == b'~')) [
  | inr n ↦
      PointsAt-cons c (decode_from-err pointer (pos + 1) (decoded ++ c ∷ []) (d ∷ rest) (rw n at h))
  | inl t ↦ elim (Bool-cases (d == b'0')) [
    | inl z ↦
        PointsAt-append (c ∷ d ∷ []) pos
          (decode_from-err pointer (pos + 2) (decoded ++ b'~' ∷ []) rest (rw (t, z) at h))
    | inr nz ↦ elim (Bool-cases (d == b'1')) [
      | inl o ↦
          PointsAt-append (c ∷ d ∷ []) pos
            (decode_from-err pointer (pos + 2) (decoded ++ b'/' ∷ []) rest (rw (t, nz, o) at h))
      | inr m ↦ record {
        within = 0;
        at_lem = ground arith;
        tilde = ground arith;
        reason = ground arith;
      }
    ]
  ]
]

module _ {offset : ℕ} {e : DecodeError} (t : Text) where
  PointsAt-first : (ts : List Text) → PointsAt t offset e → PointsAt (join_slash (t ∷ ts)) offset e
  unfolding join_slash
  PointsAt-first [] p = p
  PointsAt-first (u ∷ ts) p = PointsAt-left _ p

  PointsAt-later :
      (ts : List Text)
      → PointsAt (join_slash ts) (offset + length t + 1) e
      → PointsAt (join_slash (t ∷ ts)) offset e
  unfolding join_slash
  PointsAt-later [] p = let h = p.tilde in cc
  PointsAt-later (u ∷ ts) p = PointsAt-append t offset (PointsAt-cons b'/' p)

decode_tokens-err :
    (pointer : Text) (numbers : NumberSegments) (offset : ℕ) (path : TreePath) (ts : List Text)
    {e : DecodeError}
    → decode_tokens pointer numbers offset path ts ≡ err e
    → PointsAt (join_slash ts) offset e
unfolding decode_tokens decode_token join_slash
decode_tokens-err pointer numbers offset path [] h = cc
decode_tokens-err pointer numbers offset path (t ∷ ts) h =
    elim (Result-cases (decode_from pointer offset [] t)) [
      | inr (f, failed) ↦
          PointsAt-first t ts
            (decode_from-err pointer offset [] t (failed ∙ ap err (err-injective (rw failed at h))))
      | inl (d, fine) ↦ PointsAt-later t ts (
          decode_tokens-err pointer numbers (offset + length t + 1)
            (path ++ token_to_segment numbers d ∷ []) ts (rw fine at h))
    ]

join_slash-split_slash_cons :
    (t part s : Text)
    → join_slash (t ∷ split_slash part s) ≡ t ++ b'/' ∷ join_slash (split_slash part s)
unfolding join_slash split_slash
join_slash-split_slash_cons t part [] = refl
join_slash-split_slash_cons t part (c ∷ s) = elim (Bool-cases (c == b'/')) [
  | inl e ↦ rw e
  | inr e ↦ rw e (join_slash-split_slash_cons t (part ++ c ∷ []) s)
]

-- Joining what was split.
pub join_slash-split_slash : (part s : Text) → join_slash (split_slash part s) ≡ part ++ s
unfolding join_slash split_slash
join_slash-split_slash part [] = rw append-nil
join_slash-split_slash part (c ∷ s) = elim (Bool-cases (c == b'/')) [
  | inl e ↦
      rw (e, (==_iff c b'/').0 e)
        (join_slash-split_slash_cons part [] s
          ∙ ap (λ r. part ++ b'/' ∷ r) (join_slash-split_slash [] s))
  | inr e ↦ rw e (join_slash-split_slash (part ++ c ∷ []) s ∙ append_assoc part (c ∷ []) s)
]

one-add : (n : ℕ) → 1 + n ≡ suc n
one-add n = omega arith

at_tilde :
    (c : ℕ) (s : Text) {e : DecodeError}
    → PointsAt (join_slash (split_slash [] s)) 1 e
    → get_elem? (c ∷ s) e.at ≡ some b'~'
at_tilde c s p =
    rw (p.at_lem, one-add)
      (subst (λ (r : Text). get_elem? r p.within ≡ some b'~') (join_slash-split_slash [] s) p.tilde)

-- A pointer that does not decode is not empty; either it does not begin with '/', and the error is
-- at offset 0, or it does, and the error is at the offset of a '~'.
pub pointer_to_path-err :
    (pointer : Text) (numbers : NumberSegments) {e : DecodeError}
    → pointer_to_path pointer numbers ≡ err e
    → (pointer ≢ [])
      × (((e.reason ≡ invalid_pointer) × (e.at ≡ 0) × (get_elem? pointer 0 ≢ some b'/'))
          ⊎ ((e.reason ≡ invalid_escape)
              × (get_elem? pointer 0 ≡ some b'/')
              × (get_elem? pointer e.at ≡ some b'~')))
unfolding pointer_to_path
pointer_to_path-err [] numbers h = cc
pointer_to_path-err (c ∷ s) numbers h = (
  λ k. cc k,
  elim (Bool-cases (c == b'/')) [
    | inr n ↦ inl (ground arith, ground arith, ground arith)
    | inl t ↦
        let found = decode_tokens-err (c ∷ s) numbers 1 [] (split_slash [] s) (rw t at h) in
        inr (found.reason, ap some ((==_iff c b'/').0 t), at_tilde c s found)
  ],
)
