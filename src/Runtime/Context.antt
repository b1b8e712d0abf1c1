-- ===== src/Runtime/Context.antt =====
-- packages/runtime/src/context.ts: `mergeCommitContext` and the values that `commitProposal` of
-- store.ts takes from the context and from its options.
use effect_state_tree.Base.{
  ◌≡◌, refl, Bool, ◌||◌, Option, none, some, List, [], ◌∷◌, ◌++◌, if◌then◌else◌, arith, any,
  Bool-cases, inl, inr,
}
use effect_state_tree.Base.Text.{Text, text_eq, text_eq_iff}
use effect_state_tree.Runtime.{CommitInfo, TreeActionInfo, SourceToken}

-- `HashSet.has`
unfoldable pub has_tag : List Text → Text → Bool
has_tag tags t = any (λ u. text_eq u t) tags

-- `HashSet.union` with a set made from an iterable
unfoldable pub union_tags : List Text → List Text → List Text
unfolding has_tag
union_tags tags [] = tags
union_tags tags (t ∷ more) = union_tags (if has_tag tags t then tags else tags ++ t ∷ []) more

-- `a ?? b`
abbrev pub or_else {ℓ} : {A : Type ℓ} → Option A → Option A → Option A
or_else none b = b
or_else (some a) b = some a

-- `CommitContextPatch`
pub record ContextPatch : Type 0 where
  pub tags : List Text
  pub label : Option Text
  pub source : Option SourceToken
  pub action : Option TreeActionInfo

unfoldable pub merge_commit_context : CommitInfo → ContextPatch → CommitInfo
unfolding union_tags
merge_commit_context current patch = record {
  tags = union_tags current.tags patch.tags;
  label = or_else patch.label current.label;
  source = or_else patch.source current.source;
  action = or_else patch.action current.action;
}

any-append : (p : Text → Bool) (xs ys : List Text) → any p (xs ++ ys) ≡ any p xs || any p ys
any-append p [] ys = refl
any-append p (x ∷ xs) ys = ground (arith, any-append p xs ys)

has_tag-snoc :
    (tags : List Text) (t u : Text) → has_tag (tags ++ u ∷ []) t ≡ has_tag tags t || text_eq u t
unfolding has_tag
has_tag-snoc tags t u = ground (arith, any-append (λ v. text_eq v t) tags (u ∷ []))

-- A union has the tags of both sides and no others.
has_tag-union_tags :
    (tags more : List Text) (t : Text)
    → has_tag (union_tags tags more) t ≡ has_tag tags t || has_tag more t
unfolding union_tags
has_tag-union_tags tags [] t = ground arith
has_tag-union_tags tags (u ∷ more) t = elim (Bool-cases (has_tag tags u)) [
  | inl old ↦ rw old (ground (arith, has_tag-union_tags tags more t, text_eq_iff u t, old))
  | inr new ↦
      rw new (ground (arith, has_tag-union_tags (tags ++ u ∷ []) more t, has_tag-snoc tags t u))
]
