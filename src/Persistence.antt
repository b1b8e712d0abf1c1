-- ===== src/Persistence.antt =====
-- packages/persistence/src/persistence.ts: `shouldSave` and `migrateEnvelope`. The binding and its
-- writer are in Persistence/Binding.antt.
pub mod Candidates
pub mod Migrate
pub mod Binding
pub mod Queue
pub mod Delivery
pub mod Reports
pub mod Barrier
use effect_state_tree.Base.{
  ℕ, zero, suc, ◌-◌, Bool, true, false, not, ◌&&◌, Option, none, some, List, [], ◌∷◌, if◌then◌else◌,
  any, ltb, leb, ◌==◌,
}
use effect_state_tree.Base.Text.{Text, codes}
use effect_state_tree.Base.Result.{Result, ok, err, ◌>>=◌}
use effect_state_tree.Runtime.{SourceToken, Envelope}
use effect_state_tree.Runtime.Context.{has_tag}

abbrev pub persistence_skip_tag : Text
persistence_skip_tag = codes "persistence.skip"

-- `a === b` on a source that may be missing.
abbrev pub is_source : Option SourceToken → SourceToken → Bool
is_source none s = false
is_source (some t) s = t == s

unfoldable pub should_save : Envelope → SourceToken → List Text → Bool
unfolding has_tag
should_save commit source skip_tags =
    not (is_source commit.info.source source)
    && not (has_tag commit.info.tags persistence_skip_tag)
    && not (any (has_tag commit.info.tags) skip_tags)

-- `PersistedEnvelope`; the payload is not read by this package.
pub record PersistedEnvelope (V : Type 0) : Type 0 where
  pub version : ℕ
  pub value : V

pub record Migration (E V : Type 0) : Type 0 where
  pub from : ℕ
  pub to : ℕ
  pub migrate : V → Result E V

pub data PathReason : Type 0 where
  missing ambiguous invalid : PathReason

pub data MigrateError (E : Type 0) : Type 0 where
  version_error : (stored supported : ℕ) → MigrateError E
  path_error : (from target : ℕ) → PathReason → MigrateError E
  migration_error : E → MigrateError E

-- `migrations.filter(…)`
unfoldable pub candidates : {E V : Type 0} → ℕ → ℕ → List (Migration E V) → List (Migration E V)
candidates version target [] = []
candidates version target (m ∷ ms) =
    let rest = candidates version target ms in
    if m.from == version && leb m.to target then m ∷ rest else rest

-- The one candidate of a round of the loop.
unfoldable pub choose :
    {E V : Type 0} → ℕ → ℕ → List (Migration E V) → Result (MigrateError E) (Migration E V)
choose version target [] = err (path_error version target missing)
choose version target (m ∷ []) =
    if leb m.to version then err (path_error version target invalid) else ok m
choose version target (m ∷ _ ∷ _) = err (path_error version target ambiguous)

abbrev pub lift_migration : {E A : Type 0} → Result E A → Result (MigrateError E) A
lift_migration (ok a) = ok a
lift_migration (err e) = err (migration_error e)

-- A round of the loop: the next version and payload.
unfoldable pub migrate_round :
    {E V : Type 0}
    → List (Migration E V)
    → (target version : ℕ) → V
    → Result (MigrateError E) (ℕ × V)
unfolding choose candidates
migrate_round migrations target version value =
    choose version target (candidates version target migrations) >>= λ m.
    lift_migration (m.migrate value) >>= λ w. ok (m.to, w)

abbrev pub after_round :
    {E V : Type 0}
    → Result (MigrateError E) (ℕ × V)
    → (ℕ → V → Option (Result (MigrateError E) V))
    → Option (Result (MigrateError E) V)
after_round (ok (version, value)) more = more version value
after_round (err e) more = some (err e)

-- The loop, on fuel; it ends with none if the fuel does.
unfoldable pub migrate_loop :
    {E V : Type 0}
    → ℕ
    → List (Migration E V)
    → (target version : ℕ) → V
    → Option (Result (MigrateError E) V)
unfolding migrate_round
migrate_loop zero migrations target version value =
    if ltb version target then none else some (ok value)
migrate_loop (suc fuel) migrations target version value =
    if ltb version target
    then after_round (migrate_round migrations target version value)
        (λ next w. migrate_loop fuel migrations target next w)
    else some (ok value)

unfoldable pub migrate_envelope :
    {E V : Type 0}
    → PersistedEnvelope V
    → ℕ
    → List (Migration E V)
    → Option (Result (MigrateError E) V)
unfolding migrate_loop
migrate_envelope envelope target migrations =
    if ltb target envelope.version
    then some (err (version_error envelope.version target))
    else migrate_loop (target - envelope.version) migrations target envelope.version envelope.value
