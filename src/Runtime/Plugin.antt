-- ===== src/Runtime/Plugin.antt =====
-- packages/runtime/src/plugin.ts: `reduceCommit` and the live controller of a commit reducer. A
-- listener that throws is reported and skipped, so listeners keep no state here.
use effect_state_tree.Base.{
  ℕ, ◌+◌, ◌≡◌, refl, sym, ap, ◌∙◌, Bool, true, List, [], ◌∷◌, ◌++◌, if◌then◌else◌, Bool-cases, inl,
  inr, append_assoc, append-nil,
}
use effect_state_tree.Runtime.{Envelope}

-- `CommitReducer` of packages/runtime/src/types.ts
pub record Reducer (State Command : Type 0) : Type 0 where
  pub initial : State
  pub reduce : State → Envelope → State × List Command

-- The variables of a controller, with the number of times that its listeners have been called and
-- the batches given to `onCommands`, in order.
pub record Live (State Command : Type 0) : Type 0 where
  pub state : State
  pub notified : ℕ
  pub delivered : List (List Command)

unfoldable pub reduce_commit :
    {State Command : Type 0} → Reducer State Command → State → Envelope → State × List Command
reduce_commit reducer state commit = reducer.reduce state commit

unfoldable pub attach : {State Command : Type 0} → Reducer State Command → Live State Command
attach reducer = record { state = reducer.initial; notified = 0; delivered = [] }

module _ {State Command : Type 0} (equals : State → State → Bool) where
  unfoldable pub set_state : State → Live State Command → Live State Command
  set_state next live =
      if equals live.state next
      then live
      else record live { state = next; notified = live.notified + 1 }

  abbrev with_commands : List Command → Live State Command → Live State Command
  with_commands [] live = live
  with_commands (c ∷ commands) live = record live {
    delivered = live.delivered ++ (c ∷ commands) ∷ [];
  }

  unfoldable pub dispatch :
      Reducer State Command → Envelope → Live State Command → Live State Command × List Command
  unfolding set_state reduce_commit
  dispatch reducer commit live =
      let (next, commands) = reduce_commit reducer live.state commit in
      (with_commands commands (set_state next live), commands)

  -- The controller after a sequence of commits, in order.
  pub dispatch_all : Reducer State Command → List Envelope → Live State Command → Live State Command
  dispatch_all reducer [] live = live
  dispatch_all reducer (c ∷ cs) live = dispatch_all reducer cs (dispatch reducer c live).0

abbrev pub flatten {ℓ} : {A : Type ℓ} → List (List A) → List A
flatten [] = []
flatten (xs ∷ xss) = xs ++ flatten xss

-- The pure fold of a reducer: the last state, and all commands in order.
unfoldable pub fold_commits :
    {State Command : Type 0} → Reducer State Command → List Envelope → State → State × List Command
fold_commits reducer [] state = (state, [])
fold_commits reducer (c ∷ cs) state =
    let (next, commands) = reducer.reduce state c in
    let (last, more) = fold_commits reducer cs next in (last, commands ++ more)

flatten-snoc {ℓ} :
    {A : Type ℓ} (xss : List (List A)) (xs : List A) → flatten (xss ++ xs ∷ []) ≡ flatten xss ++ xs
flatten-snoc [] xs = append-nil xs
flatten-snoc (ys ∷ xss) xs =
    ap (ys ++◌) (flatten-snoc xss xs) ∙ sym (append_assoc ys (flatten xss) xs)

module _ {State Command : Type 0} (equals : State → State → Bool)
    (sound : (a b : State) → equals a b ≡ true → a ≡ b) (reducer : Reducer State Command) where
  set_state-state :
      (next : State) (live : Live State Command) → (set_state equals next live).state ≡ next
  unfolding set_state
  set_state-state next live = elim (Bool-cases (equals live.state next)) [
    | inl same ↦ rw same (sound live.state next same)
    | inr changed ↦ rw changed refl
  ]

  set_state-delivered :
      (next : State) (live : Live State Command)
      → (set_state equals next live).delivered ≡ live.delivered
  unfolding set_state
  set_state-delivered next live = elim (Bool-cases (equals live.state next)) [
    | inl same ↦ rw same refl
    | inr changed ↦ rw changed refl
  ]

  with_commands-state :
      (commands : List Command) (live : Live State Command)
      → (with_commands equals commands live).state ≡ live.state
  with_commands-state [] live = refl
  with_commands-state (c ∷ commands) live = refl

  with_commands-delivered :
      (commands : List Command) (live : Live State Command)
      → flatten (with_commands equals commands live).delivered ≡ flatten live.delivered ++ commands
  with_commands-delivered [] live = sym (append-nil (flatten live.delivered))
  with_commands-delivered (c ∷ commands) live = flatten-snoc live.delivered (c ∷ commands)

  dispatch_step :
      (c : Envelope) (live : Live State Command)
      → ((dispatch equals reducer c live).0.state ≡ (reducer.reduce live.state c).0)
        × (flatten (dispatch equals reducer c live).0.delivered
            ≡ flatten live.delivered ++ (reducer.reduce live.state c).1)
  unfolding dispatch reduce_commit
  dispatch_step c live =
      let next = (reducer.reduce live.state c).0 in
      let commands = (reducer.reduce live.state c).1 in
      (
        with_commands-state commands (set_state equals next live) ∙ set_state-state next live,
        with_commands-delivered commands (set_state equals next live)
            ∙ ap (λ d. flatten d ++ commands) (set_state-delivered next live),
      )

  -- A controller whose equality is sound follows the pure fold of its reducer: after any commits it
  -- has the fold's state, and has delivered exactly the fold's commands, in order.
  pub dispatch_all-fold_commits :
      (cs : List Envelope) (live : Live State Command)
      → ((dispatch_all equals reducer cs live).state ≡ (fold_commits reducer cs live.state).0)
        × (flatten (dispatch_all equals reducer cs live).delivered
            ≡ flatten live.delivered ++ (fold_commits reducer cs live.state).1)
  unfolding dispatch_all fold_commits dispatch
  dispatch_all-fold_commits [] live = (refl, sym (append-nil (flatten live.delivered)))
  dispatch_all-fold_commits (c ∷ cs) live =
      let (next, delivered) = dispatch_step c live in
      let (last, all) = dispatch_all-fold_commits cs (dispatch equals reducer c live).0 in
      (
        last ∙ ap (λ s. (fold_commits reducer cs s).0) next,
        all
            ∙ ap (flatten (dispatch equals reducer c live).0.delivered ++◌)
                (ap (λ s. (fold_commits reducer cs s).1) next)
            ∙ ap (◌++ (fold_commits reducer cs (reducer.reduce live.state c).0).1) delivered
            ∙ append_assoc (flatten live.delivered) (reducer.reduce live.state c).1
                (fold_commits reducer cs (reducer.reduce live.state c).0).1,
      )
