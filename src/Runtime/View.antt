-- ===== src/Runtime/View.antt =====
-- packages/runtime/src/store.ts: `shouldNotifyView` and the views that `select` makes. `equals` and
-- the selector are the application's; `cachedRevision` of -1 is `none`.
use effect_state_tree.Base.{
  ℕ, ◌≡◌, refl, sym, ◌∙◌, subst, Bool, true, Option, none, some, List, [], ◌∷◌, any, ◌==◌,
  if◌then◌else◌, Bool-cases, inl, inr, ◌⊎◌, ==_iff,
}
use effect_state_tree.Path.{TreePath, paths_overlap}
use effect_state_tree.Snapshot.{Value}
use effect_state_tree.Runtime.{Envelope}
use effect_state_tree.Runtime.Store.{StoreState}
use effect_state_tree.Runtime.Linear.{Advances}

-- No list of watched paths stands for an empty one too, as in the code.
unfoldable pub should_notify_view : Option (List TreePath) → List TreePath → Bool
unfolding paths_overlap
should_notify_view none touched = true
should_notify_view (some []) touched = true
should_notify_view (some (w ∷ watched)) touched =
    any (λ dependency. any (λ path. paths_overlap dependency path) touched) (w ∷ watched)

-- The variables of a view: the revision last seen with the value for it.
abbrev pub View : Type 0 → Type 0
View A = Option (ℕ × A)

module _ {A : Type 0} (selector : Value → A) (equals : A → A → Bool) where
  abbrev refreshed : StoreState → View A → A
  refreshed state none = selector state.snapshot
  refreshed state (some (revision, cached)) =
      if revision == state.revision
      then cached
      else if equals cached (selector state.snapshot)
      then cached
      else selector state.snapshot

  -- `getSnapshot`
  unfoldable pub get_snapshot : StoreState → View A → View A × A
  get_snapshot state view = (some (state.revision, refreshed state view), refreshed state view)

  -- A listener of `observe`, with the value it has given last: what it gives for a commit, if any.
  unfoldable pub notify_view :
      Option (List TreePath) → StoreState → Envelope → View A → A → (View A × A) × Option A
  unfolding get_snapshot should_notify_view
  notify_view paths state commit view previous =
      if should_notify_view paths commit.touched_paths
      then (if equals previous (refreshed state view)
          then ((some (state.revision, refreshed state view), previous), none)
          else (
            (some (state.revision, refreshed state view), refreshed state view),
            some (refreshed state view),
          ))
      else ((view, previous), none)

  -- A value that stands for the selection of a snapshot: it is the selection, or was found equal.
  abbrev pub StandsFor : A → Value → Type 0
  StandsFor a v = (a ≡ selector v) ⊎ (equals a (selector v) ≡ true)

  -- The reads of a view, each at a state that the store has advanced to since the one before.
  pub data Viewed : StoreState → View A → Type 0 where
    unread : (s : StoreState) → Viewed s none
    read :
        {s : StoreState} {view : View A} (t : StoreState)
        → Advances s t
        → Viewed s view
        → Viewed t (get_snapshot t view).0

  abbrev IsCurrent : StoreState → View A → Type 0
  IsCurrent s none = Unit
  IsCurrent s (some (revision, a)) = (revision ≡ s.revision) × StandsFor a s.snapshot

  refreshed-StandsFor :
      (s t : StoreState) (view : View A)
      → Advances s t
      → IsCurrent s view
      → StandsFor (refreshed t view) t.snapshot
  refreshed-StandsFor s t none go c = inl refl
  refreshed-StandsFor s t (some (revision, a)) go (r, stands) =
      elim (Bool-cases (revision == t.revision)) [
        | inl same ↦
            let here : s ≡ t = go.same (sym r ∙ (==_iff revision t.revision).0 same) in
            rw same (subst (λ (x : StoreState). StandsFor a x.snapshot) here stands)
        | inr moved ↦ elim (Bool-cases (equals a (selector t.snapshot))) [
          | inl kept ↦ rw (moved, kept) (inr kept)
          | inr changed ↦ rw (moved, changed) (inl refl)
        ]
      ]

  Viewed-IsCurrent : {s : StoreState} {view : View A} → Viewed s view → IsCurrent s view
  unfolding get_snapshot
  Viewed-IsCurrent (unread s) = tt
  Viewed-IsCurrent (read {s} {view} t go before) =
      (refl, refreshed-StandsFor s t view go (Viewed-IsCurrent before))

  -- However often a view has been read while the store advanced, `getSnapshot` gives the selection of
  -- the current snapshot, or a value that `equals` found equal to it.
  pub get_snapshot-StandsFor :
      {s : StoreState} {view : View A} (t : StoreState)
      → Viewed s view
      → Advances s t
      → StandsFor (get_snapshot t view).1 t.snapshot
  unfolding get_snapshot
  get_snapshot-StandsFor {s} {view} t seen go =
      refreshed-StandsFor s t view go (Viewed-IsCurrent seen)
