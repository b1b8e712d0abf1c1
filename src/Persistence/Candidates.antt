-- ===== src/Persistence/Candidates.antt =====
-- packages/persistence/src/persistence.ts: when a round of `migrateEnvelope` has one candidate.
use effect_state_tree.Base.{
  ◌⊎◌, ◌++◌, ℕ, ◌≤◌, ◌≡◌, refl, sym, ap, ◌∙◌, subst, ◌&&◌, List, [], ◌∷◌, Bool-cases, inl, inr,
  arith, leb, ◌==◌, All,
}
use effect_state_tree.Persistence.{Migration, candidates}

-- A migration that a round for this version and target may use.
abbrev pub Fits : {E V : Type 0} → ℕ → ℕ → Migration E V → Type 0
Fits version target m = (m.from ≡ version) × (m.to ≤ target)

abbrev pub Unfit : {E V : Type 0} → ℕ → ℕ → Migration E V → Type 0
Unfit version target m = ¬ Fits version target m

-- The migration stands in the list, and no other entry of the list fits.
pub record IsOnly {E V : Type 0} (version target : ℕ) (ms : List (Migration E V))
    (m : Migration E V) : Type 0 where
  pub before : List (Migration E V)
  pub after : List (Migration E V)
  pub stands : ms ≡ before ++ m ∷ after
  pub fits : Fits version target m
  pub none_before : All (Unfit version target) before
  pub none_after : All (Unfit version target) after

module _ {E V : Type 0} (version target : ℕ) where
  candidates-Unfit :
      (m : Migration E V) (ms : List (Migration E V))
      → Unfit version target m
      → candidates version target (m ∷ ms) ≡ candidates version target ms
  unfolding candidates
  candidates-Unfit m ms h = elim (Bool-cases (m.from == version && leb m.to target)) [
    | inl e ↦ absurd (h (ground arith, ground arith))
    | inr e ↦ rw e
  ]

  candidates-Fits :
      (m : Migration E V) (ms : List (Migration E V))
      → Fits version target m
      → candidates version target (m ∷ ms) ≡ m ∷ candidates version target ms
  unfolding candidates
  candidates-Fits m ms h = ground (arith, h.0, h.1)

  candidates-none :
      (ms : List (Migration E V))
      → All (Unfit version target) ms
      → candidates version target ms ≡ []
  unfolding candidates
  candidates-none [] h = refl
  candidates-none (m ∷ ms) h = candidates-Unfit m ms h.0 ∙ candidates-none ms h.1

  Fits-cases : (m : Migration E V) → Fits version target m ⊎ Unfit version target m
  Fits-cases m = elim (Bool-cases (m.from == version && leb m.to target)) [
    | inl e ↦ inl (ground arith, ground arith)
    | inr e ↦ inr (λ (x, y). ground (arith, x, y))
  ]

  none-candidates :
      (ms : List (Migration E V))
      → candidates version target ms ≡ []
      → All (Unfit version target) ms
  none-candidates [] h = tt
  none-candidates (m ∷ ms) h = elim (Fits-cases m) [
    | inl f ↦ cc (h, candidates-Fits m ms f)
    | inr u ↦ (u, none-candidates ms (sym (candidates-Unfit m ms u) ∙ h))
  ]

  candidates-before :
      (before rest : List (Migration E V))
      → All (Unfit version target) before
      → candidates version target (before ++ rest) ≡ candidates version target rest
  candidates-before [] rest h = refl
  candidates-before (m ∷ before) rest h =
      candidates-Unfit m (before ++ rest) h.0 ∙ candidates-before before rest h.1

  -- The list of candidates is one migration exactly when that is the only entry that fits.
  pub IsOnly-candidates :
      (ms : List (Migration E V)) (m : Migration E V)
      → IsOnly version target ms m
      → candidates version target ms ≡ m ∷ []
  IsOnly-candidates ms m only =
      ap (candidates version target) only.stands
      ∙ candidates-before only.before (m ∷ only.after) only.none_before
      ∙ candidates-Fits m only.after only.fits
      ∙ ap (m ∷◌) (candidates-none only.after only.none_after)

  pub candidates-IsOnly :
      (ms : List (Migration E V)) (m : Migration E V)
      → candidates version target ms ≡ m ∷ []
      → IsOnly version target ms m
  unfolding candidates
  candidates-IsOnly [] m h = absurd (cc h)
  candidates-IsOnly (x ∷ ms) m h = elim (Fits-cases x) [
    | inl f ↦
        let both : x ∷ candidates version target ms ≡ m ∷ [] = sym (candidates-Fits x ms f) ∙ h in
        let same : x ≡ m = cc both in
        let rest : candidates version target ms ≡ [] = cc both in
        record {
          before = [];
          after = ms;
          stands = ap (◌∷ ms) same;
          fits = subst (Fits version target) same f;
          none_before = tt;
          none_after = none-candidates ms rest;
        }
    | inr u ↦
        let only = candidates-IsOnly ms m (sym (candidates-Unfit x ms u) ∙ h) in
        record {
          before = x ∷ only.before;
          after = only.after;
          stands = ap (x ∷◌) only.stands;
          fits = only.fits;
          none_before = (u, only.none_before);
          none_after = only.none_after;
        }
  ]
