-- ===== src/Patch/UndoLeaf.antt =====
-- packages/core/src/patch.ts: what it means that an inverse takes a patch back, and that it does at
-- the root.
use effect_state_tree.Base.{
  ℕ, ◌≡◌, refl, sym, subst, Bool, true, false, [], Bool-cases, inl, inr, ◌⊎◌, if◌then◌else◌,
}
use effect_state_tree.Base.Result.{Result, ok, ok-injective, ok-ne-err}
use effect_state_tree.Snapshot.{Value, Options, deep_equal}
use effect_state_tree.Patch.{
  TreePatch, value_of, add, remove, replace, PatchError, AppliedOne, apply_at_target,
}
use effect_state_tree.Patch.Observe.{Same}

-- A run on `after` succeeds and gives back what `before` says, or it changes nothing and the two
-- values that it compares are `skewed`.
pub record Undone (skewed : Type 0) (run : Result PatchError AppliedOne) (after before : Value)
    : Type 0 where
  pub result : AppliedOne
  pub runs : run ≡ ok result
  pub restores : Same result.snapshot before ⊎ ((result.snapshot ≡ after) × skewed)

module _ {skewed : Type 0} {run : Result PatchError AppliedOne} {after before : Value}
    (r : AppliedOne) where
  pub Undone-of_Same : run ≡ ok r → Same r.snapshot before → Undone skewed run after before
  Undone-of_Same e h = record { result = r; runs = e; restores = inl h }

  pub Undone-of_unchanged :
      run ≡ ok r → r.snapshot ≡ after → Same after before ⊎ skewed → Undone skewed run after before
  Undone-of_unchanged e h o = record {
    result = r;
    runs = e;
    restores = elim o [
      | inl same ↦ inl (subst (λ v. Same v before) (sym h) same)
      | inr skew ↦ inr (h, skew)
    ];
  }

abbrev pub made : Value → TreePatch → ℕ → AppliedOne
made v p n = record { snapshot = v; inverse = p; next = n }

module _ (opts : Options) where
  -- The value that a patch writes is taken for the one that its inverse writes, but not the other way
  -- round.
  abbrev pub IsSkewed : TreePatch → TreePatch → Type 0
  IsSkewed p q =
      (deep_equal opts (value_of p) (value_of q) ≡ true)
      × (deep_equal opts (value_of q) (value_of p) ≡ false)

  -- The inverse that applying `p` to `before` has made takes it back.
  abbrev pub UndoneBy :
      (ℕ → TreePatch → Value → Result PatchError AppliedOne)
      → TreePatch
      → Value
      → AppliedOne
      → Type 0
  UndoneBy run p before r =
      (n : ℕ) → Undone (IsSkewed p r.inverse) (run n r.inverse r.snapshot) r.snapshot before

  abbrev target : ℕ → TreePatch → Value → Result PatchError AppliedOne
  target n p v = apply_at_target opts p n v

  target-back :
      {skewed : Type 0} (v current : Value) (n : ℕ)
      → (deep_equal opts v current ≡ true → Same v current ⊎ skewed)
      → Undone skewed (target n (replace [] current) v) v current
  unfolding apply_at_target
  target-back v current n kept = elim (Bool-cases (deep_equal opts v current)) [
    | inl e ↦ Undone-of_unchanged (made v (replace [] v) n) (rw e refl) refl (kept e)
    | inr e ↦ Undone-of_Same (made current (replace [] v) n) (rw e refl) (λ p. refl)
  ]

  target-forward :
      (p : TreePatch) (current : Value) (next : ℕ) (b : Bool) {r : AppliedOne}
      → deep_equal opts current (value_of p) ≡ b
      → ◌≡◌ {A = Result PatchError AppliedOne}
          (if b
            then ok (made current (replace [] current) next)
            else ok (made (value_of p) (replace [] current) next))
          (ok r)
      → UndoneBy target p current r
  target-forward p current next true e h =
      subst (UndoneBy target p current) (ok-injective h)
        (λ n. target-back current current n (λ _. inl (λ q. refl)))
  target-forward p current next false e h =
      subst (UndoneBy target p current) (ok-injective h)
        (λ n. target-back (value_of p) current n (λ same. inr (same, e)))

  pub undo_target :
      (p : TreePatch) (next : ℕ) (current : Value) {r : AppliedOne}
      → apply_at_target opts p next current ≡ ok r
      → UndoneBy (λ n q v. apply_at_target opts q n v) p current r
  unfolding apply_at_target
  undo_target (remove q) next current h = absurd (ok-ne-err (sym h))
  undo_target (add q v) next current h =
      target-forward (add q v) current next (deep_equal opts current v) refl h
  undo_target (replace q v) next current h =
      target-forward (replace q v) current next (deep_equal opts current v) refl h
