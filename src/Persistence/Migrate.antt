-- ===== src/Persistence/Migrate.antt =====
-- packages/persistence/src/persistence.ts: `migrateEnvelope` always ends, and succeeds along chains
-- of migrations only.
use effect_state_tree.Base.{
  ℕ, zero, suc, ◌-◌, ◌≤◌, ◌<◌, ◌≡◌, refl, sym, ap, ◌∙◌, subst, true, Option, some, List, [], ◌∷◌,
  Bool-cases, inl, inr, ◌↔◌, arith, ltb, leb, some-injective,
}
use effect_state_tree.Base.Result.{
  Result, ok, err, >>=-eq-ok, ok-injective, ok-ne-err, Result-cases,
}
use effect_state_tree.Persistence.{
  PersistedEnvelope, Migration, MigrateError, candidates, choose, migrate_round, migrate_loop,
  migrate_envelope, lift_migration, version_error,
}
use effect_state_tree.Persistence.Candidates.{IsOnly, IsOnly-candidates, candidates-IsOnly}

-- A chain of migrations from one version and payload to another: each is the only one of the list
-- that leaves from the version and does not go beyond the target, and raises the version.
pub data Chain {E V : Type 0} (ms : List (Migration E V)) (target : ℕ) : ℕ → V → V → Type 0 where
  done : (w : V) → Chain ms target target w w
  step :
      {version : ℕ} {v w z : V} (m : Migration E V)
      → IsOnly version target ms m
      → version < m.to
      → m.migrate v ≡ ok w
      → Chain ms target m.to w z
      → Chain ms target version v z

abbrev Chosen : {E V : Type 0} → ℕ → List (Migration E V) → Migration E V → Type 0
Chosen version l m = (l ≡ m ∷ []) × (version < m.to)

choose-Chosen :
    {E V : Type 0} (version target : ℕ) (l : List (Migration E V)) {m : Migration E V}
    → choose version target l ≡ ok m
    → Chosen version l m
unfolding choose
choose-Chosen version target [] h = absurd (ok-ne-err (sym h))
choose-Chosen version target (n ∷ []) {m} h = elim (Bool-cases (leb n.to version)) [
  | inl e ↦ absurd (ok-ne-err (sym (rw e at h)))
  | inr e ↦
      let same : n ≡ m = ok-injective (rw e at h) in
      subst (Chosen version (n ∷ [])) same (refl, ground arith)
]
choose-Chosen version target (n ∷ k ∷ l) h = absurd (ok-ne-err (sym h))

lift_migration-ok : {E A : Type 0} {a : A} (r : Result E A) → lift_migration r ≡ ok a → r ≡ ok a
lift_migration-ok (ok b) h = ap ok (ok-injective h)
lift_migration-ok (err e) h = absurd (ok-ne-err (sym h))

-- A round that succeeds has used its one candidate.
migrate_round-ok :
    {E V : Type 0} (ms : List (Migration E V)) (target version : ℕ) (v : V) {next : ℕ} {w : V}
    → migrate_round ms target version v ≡ ok (next, w)
    → (m : Migration E V) × Chosen version (candidates version target ms) m
      × (m.migrate v ≡ ok w)
      × (m.to ≡ next)
unfolding migrate_round
migrate_round-ok ms target version v h =
    let (m, chosen, rest) = >>=-eq-ok (choose version target (candidates version target ms)) _ h in
    let (w, migrated, made) = >>=-eq-ok (lift_migration (m.migrate v)) _ rest in
    (
      m,
      choose-Chosen version target _ chosen,
      lift_migration-ok (m.migrate v) migrated ∙ ap (λ p. ok (p.1)) (ok-injective made),
      ap (λ p. p.0) (ok-injective made),
    )

migrate_loop_ends :
    {E V : Type 0} (fuel : ℕ) (ms : List (Migration E V)) (target version : ℕ) (v : V)
    → target - version ≤ fuel
    → (r : Result (MigrateError E) V) × (migrate_loop fuel ms target version v ≡ some r)
unfolding migrate_loop
migrate_loop_ends zero ms target version v enough = elim (Bool-cases (ltb version target)) [
  | inl below ↦ absurd (ground arith)
  | inr reached ↦ rw reached (ok v, refl)
]
migrate_loop_ends (suc fuel) ms target version v enough = elim (Bool-cases (ltb version target)) [
  | inl below ↦ elim (Result-cases (migrate_round ms target version v)) [
    | inl ((next, w), e) ↦
        let (m, (_, more), _, to) = migrate_round-ok ms target version v e in
        rw (below, e) (migrate_loop_ends fuel ms target next w (ground (arith, more, to, below)))
    | inr (x, e) ↦ rw (below, e) (err x, refl)
  ]
  | inr reached ↦ rw reached (ok v, refl)
]

-- Migrating ends for every envelope, target and list of migrations: the version rises in each round.
pub migrate_envelope_ends :
    {E V : Type 0} (envelope : PersistedEnvelope V) (target : ℕ) (ms : List (Migration E V))
    → (r : Result (MigrateError E) V) × (migrate_envelope envelope target ms ≡ some r)
unfolding migrate_envelope
migrate_envelope_ends envelope target ms = elim (Bool-cases (ltb target envelope.version)) [
  | inl newer ↦ rw newer (err (version_error envelope.version target), refl)
  | inr old ↦ rw old (
      migrate_loop_ends (target - envelope.version) ms target envelope.version envelope.value
        (omega arith))
]

at_target :
    {E V : Type 0} (ms : List (Migration E V)) (target version : ℕ) (v : V) {z : V}
    → version ≡ target
    → ◌≡◌ {A = Option (Result (MigrateError E) V)} (some (ok v)) (some (ok z))
    → Chain ms target version v z
at_target ms target version v {z} here h =
    subst (λ x. Chain ms target x v z) (sym here)
      (subst (Chain ms target target v) (ok-injective (some-injective h)) (done v))

migrate_loop_sound :
    {E V : Type 0} (fuel : ℕ) (ms : List (Migration E V)) (target version : ℕ) (v : V) {z : V}
    → version ≤ target
    → migrate_loop fuel ms target version v ≡ some (ok z)
    → Chain ms target version v z
unfolding migrate_loop
migrate_loop_sound zero ms target version v low h = elim (Bool-cases (ltb version target)) [
  | inl below ↦ cc (rw below at h)
  | inr reached ↦ at_target ms target version v (ground arith) (rw reached at h)
]
migrate_loop_sound (suc fuel) ms target version v {z} low h =
    elim (Bool-cases (ltb version target)) [
      | inl below ↦ elim (Result-cases (migrate_round ms target version v)) [
        | inl ((next, w), e) ↦
            let (m, (only, more), migrated, to) = migrate_round-ok ms target version v e in
            let sole = candidates-IsOnly version target ms m only in
            let rest : Chain ms target next w z =
              migrate_loop_sound fuel ms target next w (subst (λ x. x ≤ target) to sole.fits.1)
                (rw (below, e) at h) in
            step m sole more migrated (subst (λ x. Chain ms target x w z) (sym to) rest)
        | inr (x, e) ↦ absurd (ok-ne-err (sym (some-injective (rw (below, e) at h))))
      ]
      | inr reached ↦ at_target ms target version v (ground arith) (rw reached at h)
    ]

choose-only :
    {E V : Type 0} (version target : ℕ) (m : Migration E V)
    → version < m.to
    → choose version target (m ∷ []) ≡ ok m
unfolding choose
choose-only version target m more = ground arith

migrate_round-only :
    {E V : Type 0} (ms : List (Migration E V)) (target version : ℕ) (v : V) {w : V}
    (m : Migration E V)
    → candidates version target ms ≡ m ∷ []
    → version < m.to
    → m.migrate v ≡ ok w
    → migrate_round ms target version v ≡ ok (m.to, w)
unfolding migrate_round
migrate_round-only ms target version v m only more migrated =
    rw (only, choose-only version target m more, migrated)

Chain-le :
    {E V : Type 0} (ms : List (Migration E V)) (target : ℕ) {version : ℕ} {v z : V}
    → Chain ms target version v z
    → version ≤ target
Chain-le ms target (done w) = omega arith
Chain-le ms target (step m only more migrated rest) = omega (arith, only.fits.1, more)

migrate_loop_complete :
    {E V : Type 0} (fuel : ℕ) (ms : List (Migration E V)) (target : ℕ) {version : ℕ} {v z : V}
    → Chain ms target version v z
    → target - version ≤ fuel
    → migrate_loop fuel ms target version v ≡ some (ok z)
unfolding migrate_loop
migrate_loop_complete zero ms target (done w) enough = ground arith
migrate_loop_complete (suc fuel) ms target (done w) enough = ground arith
migrate_loop_complete zero ms target (step m only more migrated rest) enough =
    absurd (ground (arith, only.fits.1, more))
migrate_loop_complete (suc fuel) ms target {version} {v} (step m only more migrated rest) enough =
    let below : ltb version target ≡ true = ground (arith, only.fits.1, more) in
    rw
      (
        below,
        migrate_round-only ms target version v m (IsOnly-candidates version target ms m only) more
            migrated,
      )
      (migrate_loop_complete fuel ms target rest (ground (arith, only.fits.1, more)))

-- Migrating succeeds with a payload exactly when a chain of migrations, each the only one of the list
-- that leaves from its version and does not go beyond the target, and each raising the version, leads from the envelope's version and payload to the target and this payload.
pub migrate_envelope_iff :
    {E V : Type 0} (envelope : PersistedEnvelope V) (target : ℕ) (ms : List (Migration E V)) (z : V)
    → (migrate_envelope envelope target ms ≡ some (ok z))
      ↔ Chain ms target envelope.version envelope.value z
unfolding migrate_envelope
migrate_envelope_iff envelope target ms z = elim (Bool-cases (ltb target envelope.version)) [
  | inl newer ↦ rw newer (
    λ h. absurd (ok-ne-err (sym (some-injective h))),
    λ chain. absurd (ground (arith, Chain-le ms target chain)),
  )
  | inr old ↦ rw old (
    λ h.
        migrate_loop_sound (target - envelope.version) ms target envelope.version envelope.value
          (ground arith) h,
    λ chain. migrate_loop_complete (target - envelope.version) ms target chain (omega arith),
  )
]
