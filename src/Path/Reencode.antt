-- ===== src/Path/Reencode.antt =====
-- packages/core/src/path.ts: a pointer that decodes is the encoding of the path it decodes to.
use effect_state_tree.Base.{
  ℕ, ◌+◌, ◌≡◌, ◌≢◌, refl, sym, ap, ◌∙◌, false, List, [], ◌∷◌, ◌++◌, map, length, ◌==◌, arith,
  append-nil, append_assoc, All, inl, inr, Bool-cases, subst, ==_iff, All-append,
}
use effect_state_tree.Base.Text.{Text}
use effect_state_tree.Base.Result.{ok, >>=-eq-ok, ok-injective, ok-ne-err}
use effect_state_tree.Path.{key, TreePath}
use effect_state_tree.Path.Token.{
  escape_token, escape_token-nil, escape_token-cons, decode_token, decode_from, escape_char,
}
use effect_state_tree.Path.PointerErrors.{join_slash-split_slash}
use effect_state_tree.Path.Pointer.{
  segment_text, join_slash, split_slash, path_to_pointer, strings, token_to_segment, decode_tokens,
  pointer_to_path,
}

abbrev NoSlash : Text → Type 0
NoSlash t = All (λ c. c ≢ b'/') t

-- What is decoded is the text so far and a token that escapes to the text read.
record Escapes (decoded token d : Text) : Type 0 where
  text : Text
  decodes : d ≡ decoded ++ text
  escapes : escape_token text ≡ token

Escapes-cons :
    {decoded token d : Text} (c : ℕ)
    → Escapes (decoded ++ c ∷ []) token d
    → Escapes decoded (escape_char c ++ token) d
Escapes-cons {decoded} c h = record {
  text = c ∷ h.text;
  decodes = h.decodes ∙ append_assoc decoded (c ∷ []) h.text;
  escapes = escape_token-cons c h.text ∙ ap (λ t. escape_char c ++ t) h.escapes;
}

Escapes-nil : (decoded : Text) → Escapes decoded [] decoded
Escapes-nil decoded = record {
  text = [];
  decodes = sym (append-nil decoded);
  escapes = escape_token-nil;
}

escape_char-plain : (c : ℕ) → c == b'~' ≡ false → c ≢ b'/' → escape_char c ≡ c ∷ []
escape_char-plain c h n = ground arith

Escapes-plain :
    {decoded token d : Text} (c : ℕ)
    → c == b'~' ≡ false
    → c ≢ b'/'
    → Escapes (decoded ++ c ∷ []) token d
    → Escapes decoded (c ∷ token) d
Escapes-plain {decoded} {token} {d} c h n p =
    subst (λ (t : Text). Escapes decoded (t ++ token) d) (escape_char-plain c h n)
      (Escapes-cons c p)

decode_from-Escapes :
    (pointer : Text) (pos : ℕ) (decoded token : Text) {d : Text}
    → NoSlash token
    → decode_from pointer pos decoded token ≡ ok d
    → Escapes decoded token d
unfolding decode_from
decode_from-Escapes pointer pos decoded [] n h =
    subst (λ (t : Text). Escapes decoded [] t) (ok-injective h) (Escapes-nil decoded)
decode_from-Escapes pointer pos decoded (c ∷ []) n h = elim (Bool-cases (c == b'~')) [
  | inl e ↦ absurd (ok-ne-err (sym (rw e at h)))
  | inr e ↦ Escapes-plain c e n.0 (
      subst (λ (t : Text). Escapes (decoded ++ c ∷ []) [] t) (ok-injective (rw e at h))
        (Escapes-nil (decoded ++ c ∷ [])))
]
decode_from-Escapes pointer pos decoded (c ∷ d ∷ rest) n h = elim (Bool-cases (c == b'~')) [
  | inr e ↦
      Escapes-plain c e n.0
        (decode_from-Escapes pointer (pos + 1) (decoded ++ c ∷ []) (d ∷ rest) n.1 (rw e at h))
  | inl e ↦ elim (Bool-cases (d == b'0')) [
    | inl z ↦
        rw ((==_iff c b'~').0 e, (==_iff d b'0').0 z)
          (Escapes-cons b'~' (
            decode_from-Escapes pointer (pos + 2) (decoded ++ b'~' ∷ []) rest n.1.1
              (rw (e, z) at h)))
    | inr nz ↦ elim (Bool-cases (d == b'1')) [
      | inl o ↦
          rw ((==_iff c b'~').0 e, (==_iff d b'1').0 o)
            (Escapes-cons b'/' (
              decode_from-Escapes pointer (pos + 2) (decoded ++ b'/' ∷ []) rest n.1.1
                (rw (e, nz, o) at h)))
      | inr m ↦ absurd (ok-ne-err (sym (rw (e, nz, m) at h)))
    ]
  ]
]

split_slash-NoSlash : (part s : Text) → NoSlash part → All NoSlash (split_slash part s)
unfolding split_slash
split_slash-NoSlash part [] h = (h, tt)
split_slash-NoSlash part (c ∷ s) h = elim (Bool-cases (c == b'/')) [
  | inl e ↦ rw e (h, split_slash-NoSlash [] s tt)
  | inr e ↦ rw e (
      split_slash-NoSlash (part ++ c ∷ []) s
        (All-append _ part (c ∷ []) h ((λ p. ground arith), tt)))
]

nil-ne-split_slash : (part s : Text) → [] ≡ split_slash part s → ⊥
unfolding split_slash
nil-ne-split_slash part [] h = cc
nil-ne-split_slash part (c ∷ s) h = elim (Bool-cases (c == b'/')) [
  | inl e ↦ let f = rw e at h in cc
  | inr e ↦ nil-ne-split_slash (part ++ c ∷ []) s (rw e at h)
]

abbrev encoded : TreePath → List Text
encoded = map (λ s. escape_token (segment_text s))

decode_tokens-encoded :
    (pointer : Text) (offset : ℕ) (done : TreePath) (ts : List Text) {path : TreePath}
    → All NoSlash ts
    → decode_tokens pointer strings offset done ts ≡ ok path
    → (more : TreePath) × (path ≡ done ++ more) × (encoded more ≡ ts)
unfolding decode_tokens decode_token token_to_segment segment_text
decode_tokens-encoded pointer offset done [] n h =
    ([], ok-injective (sym h) ∙ sym (append-nil done), refl)
decode_tokens-encoded pointer offset done (t ∷ ts) n h =
    let (d, fine, next) = >>=-eq-ok (decode_token pointer t offset) _ h in
    let this : Escapes [] t d = decode_from-Escapes pointer offset [] t n.0 fine in
    let (more, p, q) =
      decode_tokens-encoded pointer (offset + length t + 1)
        (done ++ token_to_segment strings d ∷ []) ts n.1 next in
    (key d ∷ more, p ∙ append_assoc done (key d ∷ []) more, cc (this.escapes, q))

-- A path whose tokens are those of a split pointer.
path_to_pointer-encoded :
    (path : TreePath) (s : Text) → encoded path ≡ split_slash [] s → path_to_pointer path ≡ b'/' ∷ s
unfolding path_to_pointer
path_to_pointer-encoded [] s h = absurd (nil-ne-split_slash [] s h)
path_to_pointer-encoded (k ∷ path) s h =
    ap (b'/' ∷◌) (ap join_slash h ∙ join_slash-split_slash [] s)

-- When a pointer decodes in `strings` mode, the path that it gives encodes to the same pointer.
path_to_pointer-pointer_to_path :
    (pointer : Text) {path : TreePath}
    → pointer_to_path pointer strings ≡ ok path
    → path_to_pointer path ≡ pointer
unfolding pointer_to_path
path_to_pointer-pointer_to_path [] h =
    subst (λ (p : TreePath). path_to_pointer p ≡ []) (ok-injective h)
      (unfold path_to_pointer in refl)
path_to_pointer-pointer_to_path (c ∷ s) h = elim (Bool-cases (c == b'/')) [
  | inr e ↦ absurd (ok-ne-err (sym (rw e at h)))
  | inl e ↦
      let (more, p, q) =
        decode_tokens-encoded (c ∷ s) 1 [] (split_slash [] s) (split_slash-NoSlash [] s tt)
          (rw e at h) in
      rw p (path_to_pointer-encoded more s q ∙ cc ((==_iff c b'/').0 e))
]
