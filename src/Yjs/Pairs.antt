-- ===== src/Yjs/Pairs.antt =====
-- packages/yjs/src/yjs.ts: what the two loops over pairs decide.
use effect_state_tree.Base.{
  ℕ, zero, suc, ◌+◌, ◌==◌, ◌≡◌, ◌≢◌, ◌↔◌, refl, sym, subst, Bool, true, false, ◌||◌, some, List, [],
  ◌∷◌, get_elem?, if◌then◌else◌, arith, some-injective, ==_iff, Bool-cases, inl, inr,
}
use effect_state_tree.Yjs.{disturbs_other, any_disturbs}

pub or_parts : (a b : Bool) → a || b ≡ false → (a ≡ false) × (b ≡ false)
or_parts true b h = cc
or_parts false b h = (refl, h)

zero_plus : (n : ℕ) → 0 + n ≡ n
zero_plus n = omega arith

plus_zero : (n : ℕ) → n ≡ n + 0
plus_zero n = omega arith

plus_suc : (i k : ℕ) → i + 1 + k ≡ i + suc k
plus_suc i k = omega arith

pub if_no : (x : Bool) {y : Bool} (b : Bool) → b ≡ false → (if b then x else y) ≡ false → y ≡ false
if_no x true e h = cc
if_no x false e h = h

pub if_yes : {x : Bool} (y b : Bool) → b ≡ true → (if b then x else y) ≡ false → x ≡ false
if_yes y true e h = h
if_yes y false e h = cc

module _ {A : Type 0} (disturbs : A → A → Bool) where
  -- What one round of the inner loop finds, and what the rest does.
  round_lem :
      (i j : ℕ) (b rest : Bool)
      → (if i == j then rest else b || rest) ≡ false
      → (rest ≡ false) × (i ≢ j → b ≡ false)
  round_lem i j b rest h = elim (Bool-cases (i == j)) [
    | inl e ↦ (ground (arith, e), λ n. absurd (n ((==_iff i j).0 e)))
    | inr e ↦ let (x, y) = or_parts b rest (ground (arith, e)) in (y, λ n. x)
  ]

  disturbs_other-none :
      (l : A) (i : ℕ) (rs : List A) (j : ℕ)
      → disturbs_other disturbs l i rs j ≡ false
      → (k : ℕ) (r : A) → i ≢ j + k
      → get_elem? rs k ≡ some r
      → disturbs l r ≡ false
  unfolding disturbs_other
  disturbs_other-none l i [] j h k r n e = cc
  disturbs_other-none l i (x ∷ rs) j h zero r n e =
      let (rest, here) = round_lem i j (disturbs l x) (disturbs_other disturbs l i rs (j + 1)) h in
      subst (λ y. disturbs l y ≡ false) (some-injective e)
        (here (λ (q : i ≡ j). n (omega (arith, q))))
  disturbs_other-none l i (x ∷ rs) j h (suc k) r n e =
      let (rest, here) = round_lem i j (disturbs l x) (disturbs_other disturbs l i rs (j + 1)) h in
      disturbs_other-none l i rs (j + 1) rest k r (λ q. n (omega (arith, q))) e

  none-disturbs_other :
      (l : A) (i : ℕ) (rs : List A) (j : ℕ)
      → ((k : ℕ) (r : A) → i ≢ j + k → get_elem? rs k ≡ some r → disturbs l r ≡ false)
      → disturbs_other disturbs l i rs j ≡ false
  unfolding disturbs_other
  none-disturbs_other l i [] j h = refl
  none-disturbs_other l i (x ∷ rs) j h =
      let rest =
        none-disturbs_other l i rs (j + 1) (λ k r n e. h (suc k) r (λ q. n (omega (arith, q))) e) in
      elim (Bool-cases (i == j)) [
        | inl e ↦ ground (arith, e, rest)
        | inr e ↦
            let apart : i ≢ j + 0 = λ q. cc (e, (==_iff i j).1 (omega (arith, q))) in
            let here = h 0 x apart refl in ground (arith, e, rest, here)
      ]

  -- No two of the elements at different indexes disturb each other.
  unfoldable pub AreApart : List A → Type 0
  AreApart xs =
      (i j : ℕ) (l r : A)
      → i ≢ j
      → get_elem? xs i ≡ some l
      → get_elem? xs j ≡ some r
      → disturbs l r ≡ false

  any_disturbs-none :
      (all : List A) (i : ℕ) (ls : List A)
      → any_disturbs disturbs all i ls ≡ false
      → (k : ℕ) (l : A) → get_elem? ls k ≡ some l
      → disturbs_other disturbs l (i + k) all 0 ≡ false
  unfolding any_disturbs
  any_disturbs-none all i [] h k l e = cc
  any_disturbs-none all i (x ∷ ls) h zero l e =
      let (here, rest) =
        or_parts (disturbs_other disturbs x i all 0) (any_disturbs disturbs all (i + 1) ls) h in
      subst (λ n. disturbs_other disturbs l n all 0 ≡ false) (plus_zero i)
        (subst (λ y. disturbs_other disturbs y i all 0 ≡ false) (some-injective e) here)
  any_disturbs-none all i (x ∷ ls) h (suc k) l e =
      let (here, rest) =
        or_parts (disturbs_other disturbs x i all 0) (any_disturbs disturbs all (i + 1) ls) h in
      subst (λ n. disturbs_other disturbs l n all 0 ≡ false) (plus_suc i k)
        (any_disturbs-none all (i + 1) ls rest k l e)

  none-any_disturbs :
      (all : List A) (i : ℕ) (ls : List A)
      → ((k : ℕ) (l : A)
          → get_elem? ls k ≡ some l
          → disturbs_other disturbs l (i + k) all 0 ≡ false)
      → any_disturbs disturbs all i ls ≡ false
  unfolding any_disturbs
  none-any_disturbs all i [] h = refl
  none-any_disturbs all i (x ∷ ls) h =
      let here =
        subst (λ n. disturbs_other disturbs x n all 0 ≡ false) (sym (plus_zero i)) (h 0 x refl) in
      let rest = none-any_disturbs all (i + 1) ls (λ k l e.
        subst (λ n. disturbs_other disturbs l n all 0 ≡ false) (sym (plus_suc i k))
          (h (suc k) l e)) in
      rw (here, rest)

  pub any_disturbs_iff : (xs : List A) → (any_disturbs disturbs xs 0 xs ≡ false) ↔ AreApart xs
  unfolding AreApart
  any_disturbs_iff xs = (
    λ h i j l r n at_i at_j.
        disturbs_other-none l i xs 0
          (subst (λ m. disturbs_other disturbs l m xs 0 ≡ false) (zero_plus i)
            (any_disturbs-none xs 0 xs h i l at_i))
          j r (λ q. n (omega (arith, q))) at_j,
    λ h. none-any_disturbs xs 0 xs (λ i l at_i.
        none-disturbs_other l (0 + i) xs 0
          (λ j r n at_j. h i j l r (λ q. n (omega (arith, q))) at_i at_j)),
  )
