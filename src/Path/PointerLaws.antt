-- ===== src/Path/PointerLaws.antt =====
-- packages/core/src/path.ts: JSON Pointers and tuple paths are encoded and decoded without loss.
use effect_state_tree.Base.{
  ℕ, ◌+◌, ◌<◌, ◌≡◌, ◌≢◌, refl, ap, ◌∙◌, false, List, [], ◌∷◌, ◌++◌, map, length, arith, append-nil,
  append_assoc, All,
}
use effect_state_tree.Base.Text.{Text}
use effect_state_tree.Base.Result.{ok}
use effect_state_tree.Path.{Segment, key, index, other, TreePath, safe_limit}
use effect_state_tree.Path.Decimal.{is_canonical, parse-print, is_canonical-print}
use effect_state_tree.Path.Token.{escape_token, decode_token-escape_token, escape_token-NoSlash}
use effect_state_tree.Path.Pointer.{
  segment_text, join_slash, split_slash, path_to_pointer, NumberSegments, canonical,
  token_to_segment, decode_tokens, pointer_to_path,
}

abbrev NoSlash : Text → Type 0
NoSlash t = All (λ c. c ≢ b'/') t

split_slash-plain : (part t : Text) → NoSlash t → split_slash part t ≡ (part ++ t) ∷ []
unfolding split_slash
split_slash-plain part [] h = rw append-nil
split_slash-plain part (c ∷ t) (p, h) =
    ground (arith, split_slash-plain (part ++ c ∷ []) t h, append_assoc part (c ∷ []) t)

split_slash-append :
    (part t s : Text)
    → NoSlash t
    → split_slash part (t ++ b'/' ∷ s) ≡ (part ++ t) ∷ split_slash [] s
unfolding split_slash
split_slash-append part [] s h = rw append-nil
split_slash-append part (c ∷ t) s (p, h) =
    ground (arith, split_slash-append (part ++ c ∷ []) t s h, append_assoc part (c ∷ []) t)

-- Splitting what was joined from tokens without separators.
split_slash-join_slash :
    (t : Text) (ts : List Text)
    → All NoSlash (t ∷ ts)
    → split_slash [] (join_slash (t ∷ ts)) ≡ t ∷ ts
unfolding join_slash
split_slash-join_slash t [] h = split_slash-plain [] t h.0
split_slash-join_slash t (u ∷ ts) h =
    split_slash-append [] t (join_slash (u ∷ ts)) h.0 ∙ ap (t ∷◌) (split_slash-join_slash u ts h.1)

tokens-NoSlash : (path : TreePath) → All NoSlash (map (λ t. escape_token (segment_text t)) path)
tokens-NoSlash [] = tt
tokens-NoSlash (s ∷ path) = (escape_token-NoSlash (segment_text s), tokens-NoSlash path)

decode_tokens-map :
    (pointer : Text) (numbers : NumberSegments) (offset : ℕ) (done path : TreePath)
    → decode_tokens pointer numbers offset done (map (λ t. escape_token (segment_text t)) path)
      ≡ ok (done ++ map (λ t. token_to_segment numbers (segment_text t)) path)
unfolding decode_tokens
decode_tokens-map pointer numbers offset done [] = rw append-nil
decode_tokens-map pointer numbers offset done (s ∷ path) =
    rw (decode_token-escape_token pointer (segment_text s) offset) (
      decode_tokens-map pointer numbers (offset + length (escape_token (segment_text s)) + 1)
        (done ++ token_to_segment numbers (segment_text s) ∷ []) path
      ∙ simp append_assoc)

-- Decoding an encoded path reads back the text of every segment, in either mode.
pointer_to_path-path_to_pointer :
    (numbers : NumberSegments) (path : TreePath)
    → pointer_to_path (path_to_pointer path) numbers
      ≡ ok (map (λ s. token_to_segment numbers (segment_text s)) path)
unfolding pointer_to_path path_to_pointer
pointer_to_path-path_to_pointer numbers [] = refl
pointer_to_path-path_to_pointer numbers (s ∷ path) =
    rw
      (split_slash-join_slash (escape_token (segment_text s))
        (map (λ t. escape_token (segment_text t)) path) (tokens-NoSlash (s ∷ path)))
      (decode_tokens-map (path_to_pointer (s ∷ path)) numbers 1 [] (s ∷ path))

-- The segments that a pointer keeps apart in canonical mode: safe indexes, and keys that do not
-- look like one.
abbrev pub IsRepresentable : Segment → Type 0
IsRepresentable (key t) = is_canonical t ≡ false
IsRepresentable (index n) = n < safe_limit
IsRepresentable (other t) = ⊥

token_to_segment-segment_text :
    (s : Segment) → IsRepresentable s → token_to_segment canonical (segment_text s) ≡ s
unfolding token_to_segment segment_text
token_to_segment-segment_text (key t) h = rw h
token_to_segment-segment_text (index n) h = ground (arith, is_canonical-print n, parse-print n)
token_to_segment-segment_text (other t) h = absurd h

map-token_to_segment :
    (path : TreePath)
    → All IsRepresentable path
    → map (λ s. token_to_segment canonical (segment_text s)) path ≡ path
map-token_to_segment [] h = refl
map-token_to_segment (s ∷ path) (p, h) =
    cc (token_to_segment-segment_text s p, map-token_to_segment path h)

-- A path of safe indexes and of keys that are not canonical indexes survives the trip through a
-- JSON Pointer.
pub pointer_roundtrip :
    (path : TreePath)
    → All IsRepresentable path
    → pointer_to_path (path_to_pointer path) canonical ≡ ok path
pointer_roundtrip path h =
    pointer_to_path-path_to_pointer canonical path ∙ ap ok (map-token_to_segment path h)
