-- ===== src/Path/Token.antt =====
-- packages/core/src/path.ts: `escapeJsonPointerToken` and `decodeJsonPointerToken`.
use effect_state_tree.Base.{
  ℕ, ◌+◌, ◌≡◌, ◌≢◌, refl, ◌∙◌, [], ◌∷◌, ◌++◌, ◌==◌, if◌then◌else◌, arith, append-nil, append_assoc,
  All, Bool-cases, inl, inr,
}
use effect_state_tree.Base.Text.{Text, codes}
use effect_state_tree.Base.Result.{Result, ok, err}

pub data Reason : Type 0 where
  invalid_pointer invalid_escape : Reason

-- `JsonPointerDecodeError` without its message, which its reason determines.
pub record DecodeError : Type 0 where
  pub pointer : Text
  pub reason : Reason
  pub at : ℕ

-- `text.replace(/c/g, by)` for a single character.
unfoldable pub replace_all : ℕ → Text → Text → Text
replace_all c by [] = []
replace_all c by (d ∷ s) = (if d == c then by else d ∷ []) ++ replace_all c by s

unfoldable pub escape_token : Text → Text
unfolding replace_all
escape_token token = replace_all b'/' (codes "~1") (replace_all b'~' (codes "~0") token)

-- The loop of `decodeJsonPointerToken`; `pos` is the offset in the pointer of the text left.
unfoldable pub decode_from : Text → ℕ → Text → Text → Result DecodeError Text
decode_from pointer pos decoded [] = ok decoded
decode_from pointer pos decoded (c ∷ []) =
    if c == b'~'
    then err (record { pointer = pointer; reason = invalid_escape; at = pos })
    else ok (decoded ++ c ∷ [])
decode_from pointer pos decoded (c ∷ d ∷ rest) =
    let plain = decode_from pointer (pos + 1) (decoded ++ c ∷ []) (d ∷ rest) in
    let tilde = decode_from pointer (pos + 2) (decoded ++ b'~' ∷ []) rest in
    let slash = decode_from pointer (pos + 2) (decoded ++ b'/' ∷ []) rest in
    if c == b'~'
    then if d == b'0'
      then tilde
      else if d == b'1'
      then slash
      else err (record { pointer = pointer; reason = invalid_escape; at = pos })
    else plain

unfoldable pub decode_token : Text → Text → ℕ → Result DecodeError Text
unfolding decode_from
decode_token pointer token offset = decode_from pointer offset [] token

-- Escaping works character by character.
abbrev pub escape_char : ℕ → Text
escape_char c = if c == b'~' then codes "~0" else if c == b'/' then codes "~1" else c ∷ []

pub escape_token-cons : (c : ℕ) (s : Text) → escape_token (c ∷ s) ≡ escape_char c ++ escape_token s
unfolding escape_token
escape_token-cons c s = ground arith

pub escape_token-nil : escape_token [] ≡ []
unfolding escape_token
escape_token-nil = refl

decode_from-plain :
    (pointer : Text) (pos c : ℕ) (decoded rest : Text)
    → c ≢ b'~'
    → decode_from pointer pos decoded (c ∷ rest)
      ≡ decode_from pointer (pos + 1) (decoded ++ c ∷ []) rest
unfolding decode_from
decode_from-plain pointer pos c decoded [] h = ground arith
decode_from-plain pointer pos c decoded (d ∷ rest) h = ground arith

module _ (pointer : Text) (pos : ℕ) (decoded rest : Text) where
  decode_from-tilde :
      decode_from pointer pos decoded (b'~' ∷ b'0' ∷ rest)
      ≡ decode_from pointer (pos + 2) (decoded ++ b'~' ∷ []) rest
  unfolding decode_from
  decode_from-tilde = refl

  decode_from-slash :
      decode_from pointer pos decoded (b'~' ∷ b'1' ∷ rest)
      ≡ decode_from pointer (pos + 2) (decoded ++ b'/' ∷ []) rest
  unfolding decode_from
  decode_from-slash = refl

decode_from-escape :
    (pointer : Text) (pos : ℕ) (decoded token : Text)
    → decode_from pointer pos decoded (escape_token token) ≡ ok (decoded ++ token)
decode_from-escape pointer pos decoded [] =
    rw escape_token-nil (unfold decode_from in rw append-nil)
decode_from-escape pointer pos decoded (c ∷ s) = elim (Bool-cases (c == b'~')) [
  | inl t ↦
      let e : c ≡ b'~' = ground arith in
      rw (escape_token-cons, e)
        (decode_from-tilde pointer pos decoded (escape_token s)
          ∙ decode_from-escape pointer (pos + 2) (decoded ++ b'~' ∷ []) s
          ∙ simp append_assoc)
  | inr n ↦ elim (Bool-cases (c == b'/')) [
    | inl t ↦
        let e : c ≡ b'/' = ground arith in
        rw (escape_token-cons, e)
          (decode_from-slash pointer pos decoded (escape_token s)
            ∙ decode_from-escape pointer (pos + 2) (decoded ++ b'/' ∷ []) s
            ∙ simp append_assoc)
    | inr m ↦
        rw (escape_token-cons, n, m)
          (decode_from-plain pointer pos c decoded (escape_token s) (ground arith)
            ∙ decode_from-escape pointer (pos + 1) (decoded ++ c ∷ []) s
            ∙ simp append_assoc)
  ]
]

-- Decoding an escaped token gives the token back, wherever it stands in whatever pointer.
pub decode_token-escape_token :
    (pointer token : Text) (offset : ℕ)
    → decode_token pointer (escape_token token) offset ≡ ok token
unfolding decode_token
decode_token-escape_token pointer token offset = decode_from-escape pointer offset [] token

-- An escaped token holds no separator.
pub escape_token-NoSlash : (token : Text) → All (λ c. c ≢ b'/') (escape_token token)
escape_token-NoSlash [] = rw escape_token-nil tt
escape_token-NoSlash (c ∷ s) = rw escape_token-cons (
    let rest = escape_token-NoSlash s in
    elim (Bool-cases (c == b'~')) [
      | inl t ↦ rw t (omega arith, (omega arith, rest))
      | inr n ↦ elim (Bool-cases (c == b'/')) [
        | inl t ↦ rw (n, t) (omega arith, (omega arith, rest))
        | inr m ↦ rw (n, m) (ground arith, rest)
      ]
    ])
