-- ===== src/Runtime/Linear.antt =====
-- packages/runtime/src/store.ts: commits of any number of fibers, interleaved between their reads
-- and their writes, form one sequence of transitions.
use effect_state_tree.Base.{
  ℕ, ◌+◌, ◌≤◌, ◌≡◌, refl, sym, ◌∙◌, subst, true, not, ◌&&◌, Option, none, some, List, [], ◌∷◌, ◌==◌,
  ==_iff, arith, Bool-cases, inl, inr,
}
use effect_state_tree.Base.Text.{Text}
use effect_state_tree.Base.Result.{Result, ok, err}
use effect_state_tree.Snapshot.{Value}
use effect_state_tree.Runtime.{ProducedChange, CommitInfo, ProposedCommit, Envelope}
use effect_state_tree.Runtime.Store.{
  StoreState, Store, CommitOptions, store_shutdown, Attempt, finished, confirm, write, read_phase,
  write_phase, shut_down, make_tree_store, guarded, built, is_empty, run_guard, propose,
}

module _ (B E : Type 0) where
  -- The stores that can follow `s`: a fiber may end an attempt that it began at any store passed
  -- since, whatever it builds and whatever its guard says, and the store may be shut down.
  pub data Evolves : Store → Store → Type 0 where
    start : {s : Store} → Evolves s s
    attempt :
        {s read now : Store} (build : StoreState → Result B ProducedChange) (opts : CommitOptions E)
        (info : CommitInfo) (tid : Text) (time : ℕ)
        → Evolves s read
        → Evolves read now
        → Evolves s (write_phase (read_phase build opts info tid read) time now).0
    close : {s now : Store} → Evolves s now → Evolves s (shut_down now)

-- The state is the old one, or the revision has grown.
pub record Advances (s t : StoreState) : Type 0 where
  pub le : s.revision ≤ t.revision
  pub same : s.revision ≡ t.revision → s ≡ t

pub Advances-refl : (s : StoreState) → Advances s s
Advances-refl s = record { le = omega arith; same = λ _. refl }

Advances-trans : {s t u : StoreState} → Advances s t → Advances t u → Advances s u
Advances-trans h k = record {
  le = let a = h.le in let b = k.le in omega arith;
  same = λ e. let a = h.le in let b = k.le in h.same (omega arith) ∙ k.same (omega arith);
}

Advances-write :
    {B E : Type 0} (a : Attempt B E) (time : ℕ) (s : Store)
    → Advances s.state (write_phase a time s).0.state
unfolding write_phase
Advances-write (finished r) time s = Advances-refl s.state
Advances-write (confirm before) time s = elim (Bool-cases s.is_shutdown) [
  | inl down ↦ rw down (Advances-refl s.state)
  | inr up ↦ elim (Bool-cases (s.state.revision == before.revision)) [
    | inl same ↦ rw (up, same) (Advances-refl s.state)
    | inr moved ↦ rw (up, moved) (Advances-refl s.state)
  ]
]
Advances-write (write p) time s = elim (Bool-cases s.is_shutdown) [
  | inl down ↦ rw down (Advances-refl s.state)
  | inr up ↦ elim (Bool-cases (s.state.revision == p.revision_before)) [
    | inl same ↦ rw (up, same) (record { le = ground arith; same = λ e. absurd (ground arith) })
    | inr moved ↦ rw (up, moved) (Advances-refl s.state)
  ]
]

Advances-Evolves : {B E : Type 0} {s t : Store} → Evolves B E s t → Advances s.state t.state
unfolding shut_down
Advances-Evolves start = Advances-refl _
Advances-Evolves (attempt {now = now} build opts info tid time r n) =
    Advances-trans (Advances-trans (Advances-Evolves r) (Advances-Evolves n))
      (Advances-write _ time now)
Advances-Evolves (close e) = Advances-Evolves e

-- Each published envelope was built on the state that the one before it left, the newest left the
-- current state, and the first was built on `origin`, at revision 0.
abbrev pub IsChain : Value → StoreState → List Envelope → Type 0
IsChain origin state [] = (state.snapshot ≡ origin) × (state.revision ≡ 0)
IsChain origin state (e ∷ es) =
    (state.snapshot ≡ e.proposal.after)
    × (state.revision ≡ e.revision_after)
    × (e.revision_after ≡ e.proposal.revision_before + 1)
    × IsChain origin
        (record { snapshot = e.proposal.before; revision = e.proposal.revision_before }) es

-- A proposal is about the state that was read.
abbrev Reads : {B E : Type 0} → StoreState → Attempt B E → Type 0
Reads s (finished r) = Unit
Reads s (confirm before) = Unit
Reads s (write p) = (p.before ≡ s.snapshot) × (p.revision_before ≡ s.revision)

Reads-guarded :
    (B : Type 0) {E : Type 0} (o : Option E) (s : StoreState) (p : ProposedCommit)
    → (p.before ≡ s.snapshot) × (p.revision_before ≡ s.revision)
    → Reads s (guarded {B = B} o s p)
Reads-guarded B (some e) s p h = tt
Reads-guarded B none s p h = elim (Bool-cases (is_empty p.change.patches.forward)) [
  | inl empty ↦ rw empty tt
  | inr more ↦ rw more h
]

Reads-built :
    {B E : Type 0} (opts : CommitOptions E) (info : CommitInfo) (tid : Text) (s : StoreState)
    (r : Result B ProducedChange)
    → Reads s (built opts info tid s r)
Reads-built opts info tid s (err e) = tt
Reads-built {B} opts info tid s (ok made) =
    elim (Bool-cases (is_empty made.change.patches.forward && not opts.guard_no_change)) [
      | inl skip ↦ rw skip tt
      | inr go ↦ rw go (
          Reads-guarded B (run_guard opts.guard (propose tid info s made)) s
            (propose tid info s made) (refl, refl))
    ]

Reads-read_phase :
    {B E : Type 0} (build : StoreState → Result B ProducedChange) (opts : CommitOptions E)
    (info : CommitInfo) (tid : Text) (s : Store)
    → Reads s.state (read_phase build opts info tid s)
unfolding read_phase
Reads-read_phase build opts info tid s = elim (Bool-cases s.is_shutdown) [
  | inl down ↦ rw down tt
  | inr up ↦ rw up (Reads-built opts info tid s.state (build s.state))
]

IsLinear-write :
    {B E : Type 0} (origin : Value) (a : Attempt B E) (time : ℕ) (read : StoreState) (now : Store)
    → Reads read a
    → Advances read now.state
    → IsChain origin now.state now.published
    → let t : Store = (write_phase a time now).0 in IsChain origin t.state t.published
unfolding write_phase
IsLinear-write origin (finished r) time read now d v c = c
IsLinear-write origin (confirm before) time read now d v c = elim (Bool-cases now.is_shutdown) [
  | inl down ↦ rw down c
  | inr up ↦ elim (Bool-cases (now.state.revision == before.revision)) [
    | inl same ↦ rw (up, same) c
    | inr moved ↦ rw (up, moved) c
  ]
]
IsLinear-write origin (write p) time read now d v c = elim (Bool-cases now.is_shutdown) [
  | inl down ↦ rw down c
  | inr up ↦ elim (Bool-cases (now.state.revision == p.revision_before)) [
    | inr moved ↦ rw (up, moved) c
    | inl same ↦
        let current : now.state.revision ≡ p.revision_before = (==_iff _ _).0 same in
        let unmoved : read ≡ now.state = v.same (sym d.1 ∙ sym current) in
        rw (up, same)
          (
            refl,
            refl,
            refl,
            subst (λ x. IsChain origin x now.published) (the_state now p unmoved d) c,
          )
  ]
]
  where
    the_state :
        (now : Store) (p : ProposedCommit)
        → read ≡ now.state
        → (p.before ≡ read.snapshot) × (p.revision_before ≡ read.revision)
        → now.state ≡ record { snapshot = p.before; revision = p.revision_before }
    the_state now p e d = sym e ∙ λ i. record { snapshot = sym d.0 i; revision = sym d.1 i }

IsChain-Evolves :
    {B E : Type 0} (origin : Value) {s t : Store}
    → Evolves B E s t
    → IsChain origin s.state s.published
    → IsChain origin t.state t.published
unfolding shut_down
IsChain-Evolves origin start c = c
IsChain-Evolves origin (attempt {read = read} {now = now} build opts info tid time r n) c =
    IsLinear-write origin (read_phase build opts info tid read) time read.state now
      (Reads-read_phase build opts info tid read) (Advances-Evolves n)
      (IsChain-Evolves origin n (IsChain-Evolves origin r c))
IsChain-Evolves origin (close e) c = IsChain-Evolves origin e c

-- Whatever fibers commit to a store made from a snapshot, and however their reads and writes are
-- interleaved, its published envelopes are one chain of transitions from that snapshot to the
-- current one, with consecutive revisions: no update is lost and none is built on a stale snapshot.
pub Evolves-IsChain :
    {B E : Type 0} (origin : Value) {t : Store}
    → Evolves B E (make_tree_store origin) t
    → IsChain origin t.state t.published
unfolding make_tree_store
Evolves-IsChain origin e = IsChain-Evolves origin e (refl, refl)

read_phase-shutdown :
    {B E : Type 0} (build : StoreState → Result B ProducedChange) (opts : CommitOptions E)
    (info : CommitInfo) (tid : Text) (s : Store)
    → s.is_shutdown ≡ true
    → read_phase build opts info tid s ≡ finished (err store_shutdown)
unfolding read_phase
read_phase-shutdown build opts info tid s h = rw h

-- Once a store is shut down, its state and what it has published stay as they are.
shut_down_final :
    {B E : Type 0} {s t : Store}
    → s.is_shutdown ≡ true
    → Evolves B E s t
    → (t.state ≡ s.state) × (t.published ≡ s.published) × (t.is_shutdown ≡ true)
unfolding shut_down write_phase
shut_down_final h start = (refl, refl, h)
shut_down_final h (attempt {read = read} build opts info tid time r n) =
    let (a, b, c) = shut_down_final h r in
    let (x, y, z) = shut_down_final c n in
    rw (read_phase-shutdown build opts info tid read c) (x ∙ a, y ∙ b, z)
shut_down_final h (close e) = let (a, b, c) = shut_down_final h e in (a, b, refl)
