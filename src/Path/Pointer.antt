-- ===== src/Path/Pointer.antt =====
-- packages/core/src/path.ts: `pathToJsonPointer` and `jsonPointerToPath`.
use effect_state_tree.Base.{ℕ, ◌+◌, List, [], ◌∷◌, ◌++◌, map, length, ltb, ◌==◌, if◌then◌else◌}
use effect_state_tree.Base.Text.{Text}
use effect_state_tree.Base.Result.{Result, ok, err, ◌>>=◌}
use effect_state_tree.Path.{Segment, key, index, other, TreePath, safe_limit}
use effect_state_tree.Path.Decimal.{print, parse_from, is_canonical}
use effect_state_tree.Path.Token.{DecodeError, invalid_pointer, escape_token, decode_token}

-- `String(segment)`
unfoldable pub segment_text : Segment → Text
segment_text (key t) = t
segment_text (index n) = print n
segment_text (other t) = t

-- `tokens.join('/')`
unfoldable pub join_slash : List Text → Text
join_slash [] = []
join_slash (t ∷ ts) = elim ts [ [] ↦ t | _ ∷ _ ↦ t ++ b'/' ∷ join_slash ts ]

-- `text.split('/')`, with the part read so far
unfoldable pub split_slash : Text → Text → List Text
split_slash part [] = part ∷ []
split_slash part (c ∷ s) =
    let closed = part ∷ split_slash [] s in
    let longer = split_slash (part ++ c ∷ []) s in if c == b'/' then closed else longer

unfoldable pub path_to_pointer : TreePath → Text
unfolding join_slash segment_text
path_to_pointer [] = []
path_to_pointer (s ∷ path) = b'/' ∷ join_slash (map (λ t. escape_token (segment_text t)) (s ∷ path))

-- The option `numberSegments`.
pub data NumberSegments : Type 0 where
  canonical strings : NumberSegments

unfoldable pub token_to_segment : NumberSegments → Text → Segment
token_to_segment strings token = key token
token_to_segment canonical token =
    if is_canonical token
    then (if ltb (parse_from 0 token) safe_limit then index (parse_from 0 token) else key token)
    else key token

-- The loop of `jsonPointerToPath` over the tokens left.
unfoldable pub decode_tokens :
    Text → NumberSegments → ℕ → TreePath → List Text → Result DecodeError TreePath
decode_tokens pointer numbers offset path [] = ok path
decode_tokens pointer numbers offset path (t ∷ ts) = decode_token pointer t offset >>= λ decoded.
    decode_tokens pointer numbers (offset + length t + 1)
      (path ++ token_to_segment numbers decoded ∷ []) ts

unfoldable pub pointer_to_path : Text → NumberSegments → Result DecodeError TreePath
unfolding decode_tokens token_to_segment split_slash
pointer_to_path [] numbers = ok []
pointer_to_path (c ∷ s) numbers =
    if c == b'/'
    then decode_tokens (c ∷ s) numbers 1 [] (split_slash [] s)
    else err (record { pointer = c ∷ s; reason = invalid_pointer; at = 0 })
