-- ===== src/Patch/Undo.antt =====
-- packages/core/src/patch.ts: the inverse patch of `applyOne` takes its change back.
use effect_state_tree.Base.{
  true, false, ℕ, suc, ◌+◌, ◌≡◌, refl, sym, ap, ◌∙◌, subst, Bool, Option, none, some, [], ◌∷◌,
  arith, Bool-cases, inl, inr,
}
use effect_state_tree.Base.Text.{Text}
use effect_state_tree.Base.Result.{ok, ok-injective, ok-ne-err, >>=-eq-ok}
use effect_state_tree.Path.{Segment, TreePath, key, index, other}
use effect_state_tree.Snapshot.{
  Value, Items, Fields, Header, Options, leaf, opaque, arr, obj, object_is, lookup,
}
use effect_state_tree.Snapshot.Container.{item}
use effect_state_tree.Snapshot.Read.{is_valid_array_index}
use effect_state_tree.Patch.{
  TreePatch, add, remove, replace, path_of, AppliedOne, enter, with_child, rebuild, descend,
  apply_at_target, apply_to_array, apply_to_object, apply_to_container, apply_one, at_depth,
}
use effect_state_tree.Patch.Observe.{Same, object_is_refl, object_is_sound}
use effect_state_tree.Patch.UndoLeaf.{
  Undone, IsSkewed, Undone-of_Same, Undone-of_unchanged, undo_target,
}
use effect_state_tree.Patch.UndoContainer.{undo_container}
use effect_state_tree.Patch.Child.{enter-with_child, with_child-Same, with_child_twice, at_depth-ok}

differs : (v w : Value) → v ≡ w → object_is v w ≡ false → ⊥
differs v w e h = cc (h, subst (λ x. object_is v x ≡ true) e (object_is_refl v))

module _ (opts : Options) where
  -- What a container with a child put back tells is what it told before.
  kept_child :
      (a v b c : Value) (s : Segment)
      → enter a s ≡ ok b
      → Same b c
      → ((m : ℕ) (w : Value) → Same w c → Same (with_child m a s w) v)
      → Same a v
  kept_child a v b c s e same back p =
      sym (with_child-Same a s 0 b e (λ q. refl) p) ∙ back 0 b same p

  -- The step of `descend` from a child that the inverse takes back to its container.
  resume :
      {skewed : Type 0} (q : TreePatch) (n d : ℕ) (a v : Value) (s t : Segment) (rest : TreePath)
      (b c : Value)
      → enter a s ≡ ok b
      → Undone skewed (descend opts q n (d + 1) b (t ∷ rest)) b c
      → ((m : ℕ) (w : Value) → Same w c → Same (with_child m a s w) v)
      → Undone skewed (descend opts q n d a (s ∷ t ∷ rest)) a v
  unfolding descend rebuild
  resume q n d a v s t rest b c e u back = elim (Bool-cases (object_is u.result.snapshot b)) [
    | inl same ↦
        let unchanged : u.result.snapshot ≡ b = object_is_sound u.result.snapshot b same in
        Undone-of_unchanged
          (record { snapshot = a; inverse = u.result.inverse; next = u.result.next })
          (rw (e, u.runs, same) refl) refl
          (elim u.restores [
            | inl told ↦ inl (kept_child a v b c s e (subst (λ x. Same x c) unchanged told) back)
            | inr (_, skew) ↦ inr skew
          ])
    | inr changed ↦
        Undone-of_Same
          (record {
            snapshot = with_child u.result.next a s u.result.snapshot;
            inverse = u.result.inverse;
            next = suc u.result.next;
          })
          (rw (e, u.runs, changed) refl)
          (back u.result.next u.result.snapshot (elim u.restores [
            | inl told ↦ told
            | inr (unchanged, _) ↦ absurd (differs u.result.snapshot b unchanged changed)
          ]))
  ]

  abbrev Undoes : TreePatch → Value → TreePath → AppliedOne → Type 0
  Undoes p v path r =
      (n e : ℕ)
      → Undone (IsSkewed opts p r.inverse) (descend opts r.inverse n e r.snapshot path) r.snapshot v

  undo_rebuild :
      (p : TreePatch) (v c : Value) (s t : Segment) (rest : TreePath) (r : AppliedOne)
      → enter v s ≡ ok c
      → Undoes p c (t ∷ rest) r
      → Undoes p v (s ∷ t ∷ rest) (rebuild v s c r)
  unfolding rebuild
  undo_rebuild p v c s t rest r e ih = elim (Bool-cases (object_is r.snapshot c)) [
    | inl same ↦ rw same (λ n d.
        resume r.inverse n d v v s t rest c c e
          (subst
            (λ x.
              Undone (IsSkewed opts p r.inverse) (descend opts r.inverse n (d + 1) x (t ∷ rest)) x
                c)
            (object_is_sound r.snapshot c same) (ih n (d + 1)))
          (λ m w k. with_child-Same v s m w e k))
    | inr changed ↦ rw changed (λ n d.
        resume r.inverse n d (with_child r.next v s r.snapshot) v s t rest r.snapshot c
          (enter-with_child v s r.next r.snapshot e) (ih n (d + 1))
          (λ m w k.
            subst (λ x. Same x v) (sym (with_child_twice v s r.next m r.snapshot w))
              (with_child-Same v s m w e k)))
  ]

  undo_descend :
      (p : TreePatch) (next d : ℕ) (v : Value) (path : TreePath) {r : AppliedOne}
      → descend opts p next d v path ≡ ok r
      → Undoes p v path r
  unfolding descend
  undo_descend p next d v [] h = λ n e. undo_target opts p next v h n
  undo_descend p next d v (s ∷ []) h = λ n e. undo_container opts p next v s h n
  undo_descend p next d v (s ∷ t ∷ rest) h =
      let (c, found, more) = >>=-eq-ok (at_depth p d (enter v s)) _ h in
      let (rc, inner, made) = >>=-eq-ok (descend opts p next (d + 1) c (t ∷ rest)) _ more in
      subst (Undoes p v (s ∷ t ∷ rest)) (ok-injective made) (
        undo_rebuild p v c s t rest rc (at_depth-ok p d (enter v s) found)
          (undo_descend p next (d + 1) c (t ∷ rest) inner))

  array-inverse_path :
      (p : TreePatch) (next : ℕ) (h : Header) (xs : Items) (i : ℕ) (o : Option Value)
      {r : AppliedOne}
      → apply_to_array opts p next h xs i o ≡ ok r
      → path_of r.inverse ≡ path_of p
  unfolding apply_to_array
  array-inverse_path (add q v) next h xs i o e = ground arith
  array-inverse_path (remove q) next h xs i none e = absurd (ok-ne-err (sym e))
  array-inverse_path (remove q) next h xs i (some w) e = ground arith
  array-inverse_path (replace q v) next h xs i none e = absurd (ok-ne-err (sym e))
  array-inverse_path (replace q v) next h xs i (some w) e = ground arith

  object-inverse_path :
      (p : TreePatch) (next : ℕ) (h : Header) (b : Bool) (fs : Fields) (k : Text) (o : Option Value)
      {r : AppliedOne}
      → apply_to_object opts p next h b fs k o ≡ ok r
      → path_of r.inverse ≡ path_of p
  unfolding apply_to_object
  object-inverse_path (add q v) next h b fs k none e = ground arith
  object-inverse_path (add q v) next h b fs k (some w) e = ground arith
  object-inverse_path (remove q) next h b fs k none e = absurd (ok-ne-err (sym e))
  object-inverse_path (remove q) next h b fs k (some w) e = ground arith
  object-inverse_path (replace q v) next h b fs k none e = absurd (ok-ne-err (sym e))
  object-inverse_path (replace q v) next h b fs k (some w) e = ground arith

  container-inverse_path :
      (p : TreePatch) (next : ℕ) (v : Value) (s : Segment) {r : AppliedOne}
      → apply_to_container opts p next v s ≡ ok r
      → path_of r.inverse ≡ path_of p
  unfolding apply_to_container
  container-inverse_path p next (arr h xs) (index i) e =
      elim (Bool-cases (is_valid_array_index (index i))) [
        | inl valid ↦ array-inverse_path p next h xs i (item i xs) (rw valid at e)
        | inr bad ↦ absurd (ok-ne-err (sym (rw bad at e)))
      ]
  container-inverse_path p next (arr h xs) (key k) e = absurd (ok-ne-err (sym e))
  container-inverse_path p next (arr h xs) (other t) e = absurd (ok-ne-err (sym e))
  container-inverse_path p next (obj h b fs) (key k) e =
      object-inverse_path p next h b fs k (lookup k fs) e
  container-inverse_path p next (obj h b fs) (index i) e = absurd (ok-ne-err (sym e))
  container-inverse_path p next (obj h b fs) (other t) e = absurd (ok-ne-err (sym e))
  container-inverse_path p next (leaf a) s e = absurd (ok-ne-err (sym e))
  container-inverse_path p next (opaque q fs) s e = absurd (ok-ne-err (sym e))

  rebuild-inverse :
      (v c : Value) (s : Segment) (r : AppliedOne) → (rebuild v s c r).inverse ≡ r.inverse
  unfolding rebuild
  rebuild-inverse v c s r = ground arith

  descend-inverse_path :
      (p : TreePatch) (next d : ℕ) (v : Value) (s : Segment) (path : TreePath) {r : AppliedOne}
      → descend opts p next d v (s ∷ path) ≡ ok r
      → path_of r.inverse ≡ path_of p
  unfolding descend
  descend-inverse_path p next d v s [] h = container-inverse_path p next v s h
  descend-inverse_path p next d v s (t ∷ rest) h =
      let (c, found, more) = >>=-eq-ok (at_depth p d (enter v s)) _ h in
      let (rc, inner, made) = >>=-eq-ok (descend opts p next (d + 1) c (t ∷ rest)) _ more in
      ap (λ (x : AppliedOne). path_of x.inverse) (sym (ok-injective made))
      ∙ ap path_of (rebuild-inverse v c s rc)
      ∙ descend-inverse_path p next (d + 1) c t rest inner

  target-inverse_path :
      (p : TreePatch) (next : ℕ) (v : Value) {r : AppliedOne}
      → apply_at_target opts p next v ≡ ok r
      → path_of r.inverse ≡ []
  unfolding apply_at_target
  target-inverse_path (remove q) next v e = absurd (ok-ne-err (sym e))
  target-inverse_path (add q w) next v e = ground arith
  target-inverse_path (replace q w) next v e = ground arith

  pub inverse_path :
      (p : TreePatch) (next : ℕ) (v : Value) (path : TreePath) {r : AppliedOne}
      → path_of p ≡ path
      → descend opts p next 0 v path ≡ ok r
      → path_of r.inverse ≡ path
  unfolding descend
  inverse_path p next v [] e h = target-inverse_path p next v h
  inverse_path p next v (s ∷ path) e h = descend-inverse_path p next 0 v s path h ∙ e

  -- Applied to the snapshot that a patch made, the patch's inverse succeeds, and the result cannot be
  -- told apart from the original: it has the same leaves, lengths and keys at every path. The one
  -- exception is an equality of snapshots that takes the patch's value for the one that its inverse
  -- writes but not the other way round: then the inverse may change nothing.
  pub undo_apply_one :
      (p : TreePatch) (next : ℕ) (v : Value) {r : AppliedOne}
      → apply_one opts p next v ≡ ok r
      → (n : ℕ)
      → Undone (IsSkewed opts p r.inverse) (apply_one opts r.inverse n r.snapshot) r.snapshot v
  unfolding apply_one
  undo_apply_one p next v {r} h n =
      let e : path_of r.inverse ≡ path_of p = inverse_path p next v (path_of p) refl h in
      subst
        (λ q.
          Undone (IsSkewed opts p r.inverse) (descend opts r.inverse n 0 r.snapshot q) r.snapshot v)
        (sym e) (undo_descend p next 0 v (path_of p) h n 0)
