-- ===== src/Path/Decimal.antt =====
-- `String(n)`, `Number(text)` and the pattern of a canonical array index, for natural numbers:
-- what packages/core/src/path.ts takes from the language.
use effect_state_tree.Base.{
  ℕ, zero, suc, ◌+◌, ◌-◌, ◌*◌, ◌/◌, ◌%◌, ◌<◌, ◌≡◌, refl, ap, ◌∙◌, Bool, true, false, ◌&&◌, [], ◌∷◌,
  ltb, leb, ◌==◌, if◌then◌else◌, arith, Bool-cases, inl, inr,
}
use effect_state_tree.Base.Text.{Text}

-- The digits of `n` before `acc`; the fuel exceeds the number of digits.
print_from : ℕ → ℕ → Text → Text
print_from zero n acc = acc
print_from (suc fuel) n acc =
    let more = print_from fuel (n / 10) ((b'0' + n % 10) ∷ acc) in
    if ltb n 10 then (b'0' + n) ∷ acc else more

unfoldable pub print : ℕ → Text
unfolding print_from
print n = print_from (suc n) n []

unfoldable pub parse_from : ℕ → Text → ℕ
parse_from n [] = n
parse_from n (d ∷ ds) = parse_from (n * 10 + (d - b'0')) ds

abbrev pub is_digit : ℕ → Bool
is_digit d = leb b'0' d && leb d b'9'

unfoldable pub all_digits : Text → Bool
all_digits [] = true
all_digits (d ∷ ds) = is_digit d && all_digits ds

-- /^(?:0|[1-9][0-9]*)$/
unfoldable pub is_canonical : Text → Bool
unfolding all_digits
is_canonical [] = false
is_canonical (d ∷ ds) =
    if d == b'0' then elim ds [ [] ↦ true | _ ∷ _ ↦ false ] else is_digit d && all_digits ds

parse-print_from :
    (fuel n : ℕ) (acc : Text) → n < fuel → parse_from 0 (print_from fuel n acc) ≡ parse_from n acc
unfolding print_from parse_from
parse-print_from zero n acc h = absurd (omega arith)
parse-print_from (suc fuel) n acc h = elim (Bool-cases (ltb n 10)) [
  | inl small ↦ rw small (ap (λ k. parse_from k acc) (omega arith))
  | inr large ↦ rw large (
      parse-print_from fuel (n / 10) ((b'0' + n % 10) ∷ acc) (ground arith)
      ∙ ap (λ k. parse_from k acc) (omega arith))
]

-- Parsing what was printed gives the number back.
pub parse-print : (n : ℕ) → parse_from 0 (print n) ≡ n
unfolding print parse_from
parse-print n = parse-print_from (suc n) n [] (omega arith)

print_from-canonical :
    (fuel n : ℕ) (acc : Text)
    → n < fuel
    → 0 < n
    → all_digits acc ≡ true
    → is_canonical (print_from fuel n acc) ≡ true
unfolding print_from is_canonical
print_from-canonical zero n acc h p d = absurd (omega arith)
print_from-canonical (suc fuel) n acc h p d = elim (Bool-cases (ltb n 10)) [
  | inl small ↦ rw small (ground arith)
  | inr large ↦ rw large (
      print_from-canonical fuel (n / 10) ((b'0' + n % 10) ∷ acc) (ground arith) (ground arith)
        (ground arith))
]

-- A printed number has the form of a canonical array index.
pub is_canonical-print : (n : ℕ) → is_canonical (print n) ≡ true
unfolding print is_canonical
is_canonical-print zero = refl
is_canonical-print (suc n) =
    print_from-canonical (suc (suc n)) (suc n) [] (omega arith) (omega arith) refl
