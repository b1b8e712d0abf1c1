-- ===== src/Reconcile/Incoming.antt =====
-- packages/core/src/reconcile.ts: what can be read in the incoming value can be read in the result.
use effect_state_tree.Base.{
  ℕ, zero, suc, ◌+◌, ◌≡◌, refl, sym, ap, ◌∙◌, subst, Bool, true, false, ◌&&◌, ◌==◌, Option, some,
  [], ◌∷◌, ◌++◌, Bool-cases, inl, inr, arith, some-injective, ==_iff,
}
use effect_state_tree.Base.Text.{Text, text_eq, text_eq_iff}
use effect_state_tree.Path.{TreePath, key, index}
use effect_state_tree.Snapshot.{
  Value, Items, Fields, Header, Leaf, leaf, opaque, arr, obj, nil, cons, end, field, object_is,
  deep_equal, lookup, count_items, count_fields, atomic_snapshot_equality, find_interpreter,
}
use effect_state_tree.Snapshot.Container.{item, item-lt, item-some}
use effect_state_tree.Patch.Observe.{object_is_sound}
use effect_state_tree.Runtime.{EntityIdentity}
use effect_state_tree.Reconcile.{
  or_undefined, is_own, ByIdentity, Built, equal_or_incoming, array_of, object_of, choose,
  with_child, with_property, reconcile_value, reconcile_items, reconcile_fields, candidate,
  by_identity,
}
use effect_state_tree.Reconcile.Contains.{
  Contains-refl, Contains-eq, ItemsContain, FieldsContain, items_end, fields_end, and_parts,
  taken_lem, skipped_lem, own_lem, arr-Contains, obj-Contains, zero_plus, plus_zero, plus_suc,
  Contains,
}

-- Without interpreters, values that are not containers of one kind are equal only if they are one.
deep_equal-leaf : (v : Value) (a : Leaf) → deep_equal [] v (leaf a) ≡ true → v ≡ leaf a
unfolding deep_equal atomic_snapshot_equality find_interpreter
deep_equal-leaf (leaf b) a h = ground (arith, object_is_sound (leaf b) (leaf a))
deep_equal-leaf (opaque r fs) a h = ground (arith, object_is_sound (opaque r fs) (leaf a))
deep_equal-leaf (arr g xs) a h = ground (arith, object_is_sound (arr g xs) (leaf a))
deep_equal-leaf (obj g c fs) a h = ground (arith, object_is_sound (obj g c fs) (leaf a))

deep_equal-opaque :
    (v : Value) (r : ℕ) (gs : Fields) → deep_equal [] v (opaque r gs) ≡ true → v ≡ opaque r gs
unfolding deep_equal atomic_snapshot_equality find_interpreter
deep_equal-opaque (leaf b) r gs h = ground (arith, object_is_sound (leaf b) (opaque r gs))
deep_equal-opaque (opaque q fs) r gs h = ground (arith, object_is_sound (opaque q fs) (opaque r gs))
deep_equal-opaque (arr g xs) r gs h = ground (arith, object_is_sound (arr g xs) (opaque r gs))
deep_equal-opaque (obj g c fs) r gs h = ground (arith, object_is_sound (obj g c fs) (opaque r gs))

module _ (encode : Text → Text) (identity_at : Value → TreePath → Option EntityIdentity)
    (is_atomic : Value → TreePath → Bool) (current_root incoming_root : Value)
    (none_atomic : (v : Value) (p : TreePath) → is_atomic v p ≡ false) where
  array_of-Contains :
      (g h : Header) (xs ys : Items) (b : Built Items)
      → count_items b.content ≡ count_items ys
      → ItemsContain xs 0 ys b
      → Contains
          (array_of [] encode identity_at is_atomic current_root incoming_root
            (arr g xs)
            (count_items xs == count_items ys)
            b).0
          (arr h ys)
  unfolding ItemsContain
  array_of-Contains g h xs ys b counted inside =
      elim (Bool-cases ((count_items xs == count_items ys) && b.unchanged)) [
        | inl kept ↦
            let (same, unchanged) = and_parts (count_items xs == count_items ys) b.unchanged kept in
            let count : count_items xs ≡ count_items ys =
              (==_iff (count_items xs) (count_items ys)).0 same in
            rw kept (
              arr-Contains g h xs ys count
                (λ j v e. kept_item xs ys b count unchanged inside j v e))
        | inr changed ↦ rw changed (
            arr-Contains _ h b.content ys counted
              (λ j v e. let (u, there, within, was) = inside j v e in (u, there, within)))
      ]
    where
      kept_item :
          (xs ys : Items) (b : Built Items)
          → count_items xs ≡ count_items ys
          → b.unchanged ≡ true
          → ((j : ℕ) (v : Value)
              → item j ys ≡ some v
              → (u : Value) × (item j b.content ≡ some u)
                × Contains u v
                × (b.unchanged ≡ true → or_undefined (item (0 + j) xs) ≡ u))
          → (j : ℕ) (v : Value) → item j ys ≡ some v
          → (u : Value) × (item j xs ≡ some u) × Contains u v
      kept_item xs ys b count unchanged inside j v e =
          let (u, there, within, was) = inside j v e in
          let (x, here) = item-some j xs (omega (arith, count, item-lt j ys e)) in
          (
            u,
            here
                ∙ ap some (
                    sym (ap or_undefined here)
                    ∙ sym (ap (λ n. or_undefined (item n xs)) (zero_plus j))
                    ∙ was unchanged),
            within,
          )

  object_of-Contains :
      (g h : Header) (c d : Bool) (fs gs : Fields) (same : Bool) (b : Built Fields)
      → FieldsContain fs gs b
      → Contains
          (object_of [] encode identity_at is_atomic current_root incoming_root
            (obj g c fs)
            same
            b).0
          (obj h d gs)
  unfolding FieldsContain
  object_of-Contains g h c d fs gs same b inside = elim (Bool-cases (same && b.unchanged)) [
    | inl kept ↦ rw kept (
        obj-Contains g h c d fs gs (λ k v e.
          let (u, there, within, was) = inside k v e in
          (u, was (and_parts same b.unchanged kept).1, within)))
    | inr changed ↦ rw changed (
        obj-Contains _ h false d b.content gs
          (λ k v e. let (u, there, within, was) = inside k v e in (u, there, within)))
  ]

  with_child-ItemsContain :
      (xs ys : Items) (i : ℕ) (v : Value) (r : Value × ℕ) (rest : ℕ → Built Items)
      → Contains r.0 v
      → ItemsContain xs (i + 1) ys (rest r.1)
      → ItemsContain xs i (cons v ys) (
          with_child [] encode identity_at is_atomic current_root incoming_root
            (or_undefined (item i xs))
            r
            rest)
  unfolding ItemsContain item
  with_child-ItemsContain xs ys i v r rest here later zero w e = (
    r.0,
    refl,
    subst (Contains r.0) (some-injective e) here,
    λ u.
        ap (λ n. or_undefined (item n xs)) (plus_zero i)
        ∙ sym (
            object_is_sound r.0 (or_undefined (item i xs))
              (and_parts (object_is r.0 (or_undefined (item i xs))) (rest r.1).unchanged u).0),
  )
  with_child-ItemsContain xs ys i v r rest here later (suc j) w e =
      let (u, there, within, was) = later j w e in
      (
        u,
        there,
        within,
        λ unchanged.
            ap (λ n. or_undefined (item n xs)) (plus_suc i j)
            ∙ was
                (and_parts (object_is r.0 (or_undefined (item i xs))) (rest r.1).unchanged
                  unchanged).1,
      )

  with_property-FieldsContain :
      (fs gs : Fields) (k : Text) (v : Value) (r : Value × ℕ) (rest : ℕ → Built Fields)
      → Contains r.0 v
      → FieldsContain fs gs (rest r.1)
      → FieldsContain fs (field k v gs) (
          with_property [] encode identity_at is_atomic current_root incoming_root k
            (lookup k fs)
            r
            rest)
  unfolding FieldsContain lookup
  with_property-FieldsContain fs gs k v r rest here later j w e = elim (Bool-cases (text_eq k j)) [
    | inl same ↦ (
      r.0,
      rw same refl,
      subst (Contains r.0) (taken_lem (text_eq k j) (lookup j gs) same e) here,
      λ u.
          subst (λ t. lookup t fs ≡ some r.0) ((text_eq_iff k j).0 same)
            (own_lem (lookup k fs) r.0
              (and_parts (is_own (lookup k fs) && object_is r.0 (or_undefined (lookup k fs)))
                (rest r.1).unchanged u).0),
    )
    | inr differ ↦
        let (u, there, within, was) = later j w (skipped_lem (text_eq k j) (some v) differ e) in
        (
          u,
          rw differ there,
          within,
          λ unchanged.
              was
                (and_parts (is_own (lookup k fs) && object_is r.0 (or_undefined (lookup k fs)))
                  (rest r.1).unchanged unchanged).1,
        )
  ]

  choose-Contains :
      (current incoming : Value) (path : TreePath) (next : ℕ) (containers : Value × ℕ)
      → Contains containers.0 incoming
      → Contains
          (choose [] encode identity_at is_atomic current_root incoming_root
            (object_is current incoming)
            (is_atomic incoming_root path)
            current
            incoming
            next
            containers).0
          incoming
  choose-Contains current incoming path next containers h =
      elim (Bool-cases (object_is current incoming)) [
        | inl same ↦ rw same (Contains-eq current incoming (object_is_sound current incoming same))
        | inr differ ↦ rw (differ, none_atomic incoming_root path) h
      ]

  equal_or_incoming-Contains :
      (current incoming : Value) (next : ℕ)
      → (deep_equal [] current incoming ≡ true → current ≡ incoming)
      → Contains
          (equal_or_incoming [] encode identity_at is_atomic current_root incoming_root current
            incoming next).0
          incoming
  equal_or_incoming-Contains current incoming next h =
      elim (Bool-cases (deep_equal [] current incoming)) [
        | inl same ↦ rw same (Contains-eq current incoming (h same))
        | inr differ ↦ rw differ (Contains-refl incoming)
      ]

  reconcile_items_counted :
      (xs ys : Items) (seen : ByIdentity) (i : ℕ) (path : TreePath) (next : ℕ)
      → count_items
          (reconcile_items [] encode identity_at is_atomic current_root incoming_root xs seen ys i
            path next).content
        ≡ count_items ys
  unfolding reconcile_items count_items
  reconcile_items_counted xs nil seen i path next = refl
  reconcile_items_counted xs (cons v ys) seen i path next =
      ap suc (reconcile_items_counted xs ys seen (i + 1) path _)

  mutual
    unfolding reconcile_value reconcile_items reconcile_fields

    containers-Contains :
        (current incoming : Value) (path : TreePath) (next : ℕ)
        → Contains
            (reconcile_value [] encode identity_at is_atomic current_root incoming_root current
              incoming path next).0
            incoming
    containers-Contains current (leaf a) path next =
        choose-Contains current (leaf a) path next _
          (equal_or_incoming-Contains current (leaf a) next (deep_equal-leaf current a))
    containers-Contains current (opaque r fs) path next =
        choose-Contains current (opaque r fs) path next _
          (equal_or_incoming-Contains current (opaque r fs) next (deep_equal-opaque current r fs))
    containers-Contains (arr g xs) (arr h ys) path next =
        choose-Contains (arr g xs) (arr h ys) path next _ (
          array_of-Contains g h xs ys
            (reconcile_items [] encode identity_at is_atomic current_root incoming_root xs
              (by_identity [] encode identity_at is_atomic current_root incoming_root path 0 xs [])
              ys 0 path next)
            (reconcile_items_counted xs ys _ 0 path next) (items-Contain xs ys _ 0 path next))
    containers-Contains current (arr h ys) path next =
        rw (none_atomic incoming_root path) (Contains-refl (arr h ys))
    containers-Contains (obj g c fs) (obj h d gs) path next =
        choose-Contains (obj g c fs) (obj h d gs) path next _ (
          object_of-Contains g h c d fs gs (count_fields gs == count_fields fs)
            (reconcile_fields [] encode identity_at is_atomic current_root incoming_root fs gs path
              next)
            (fields-Contain fs gs path next))
    containers-Contains current (obj h d gs) path next =
        rw (none_atomic incoming_root path) (Contains-refl (obj h d gs))

    items-Contain :
        (xs ys : Items) (seen : ByIdentity) (i : ℕ) (path : TreePath) (next : ℕ)
        → ItemsContain xs i ys (
            reconcile_items [] encode identity_at is_atomic current_root incoming_root xs seen ys i
              path next)
    items-Contain xs nil seen i path next = items_end xs i _
    items-Contain xs (cons v ys) seen i path next =
        let old =
          candidate [] encode identity_at is_atomic current_root incoming_root
            (identity_at incoming_root (path ++ index i ∷ [])) seen (item i xs) in
        let r =
          reconcile_value [] encode identity_at is_atomic current_root incoming_root old v
            (path ++ index i ∷ []) next in
        with_child-ItemsContain xs ys i v r
          (reconcile_items [] encode identity_at is_atomic current_root incoming_root xs seen ys
            (i + 1) path)
          (containers-Contains old v (path ++ index i ∷ []) next)
          (items-Contain xs ys seen (i + 1) path r.1)

    fields-Contain :
        (fs gs : Fields) (path : TreePath) (next : ℕ)
        → FieldsContain fs gs (
            reconcile_fields [] encode identity_at is_atomic current_root incoming_root fs gs path
              next)
    fields-Contain fs end path next = fields_end fs _
    fields-Contain fs (field k v gs) path next =
        let r =
          reconcile_value [] encode identity_at is_atomic current_root incoming_root
            (or_undefined (lookup k fs)) v (path ++ key k ∷ []) next in
        with_property-FieldsContain fs gs k v r
          (reconcile_fields [] encode identity_at is_atomic current_root incoming_root fs gs path)
          (containers-Contains (or_undefined (lookup k fs)) v (path ++ key k ∷ []) next)
          (fields-Contain fs gs path r.1)

  -- Where the Schema is nowhere atomic or ambiguous and no interpreter owns a value, reconciling loses
  -- nothing of the incoming value, whatever the identities and the current value are: every leaf,
  -- array length and object of the incoming value is read at its path in the result too.
  pub reconcile_value-Contains :
      (current incoming : Value) (path : TreePath) (next : ℕ)
      → Contains
          (reconcile_value [] encode identity_at is_atomic current_root incoming_root current
            incoming path next).0
          incoming
  reconcile_value-Contains current incoming path next =
      containers-Contains current incoming path next
