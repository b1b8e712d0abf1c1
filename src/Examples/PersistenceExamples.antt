-- ===== src/Examples/PersistenceExamples.antt =====
-- packages/persistence/src/persistence.ts at concrete envelopes and bindings.
use effect_state_tree.Base.{
  ℕ, ◌+◌, ◌≡◌, ◌≢◌, refl, false, not, none, some, List, [], ◌∷◌, ◌++◌, map,
}
use effect_state_tree.Base.Text.{Text, codes}
use effect_state_tree.Base.Result.{Result, ok}
use effect_state_tree.Snapshot.{leaf, number}
use effect_state_tree.Runtime.{Envelope}
use effect_state_tree.Runtime.Context.{or_else}
use effect_state_tree.Persistence.{
  PersistedEnvelope, Migration, MigrateError, migrate_envelope, should_save,
}
use effect_state_tree.Persistence.Migrate.{Chain, migrate_envelope_ends, migrate_envelope_iff}
use effect_state_tree.Persistence.Binding.{
  Work, Outcome, saved, not_encoded, not_saved, flush_barrier, Binding, bound, aborted,
  offer_commit, close, abort, writer_step, finish_close, completion, delete,
}
use effect_state_tree.Persistence.Queue.{in_hand, tried}
use effect_state_tree.Persistence.Delivery.{
  Runs, starts, offered, closes, aborts, writes, finishes, Runs-in_order,
}
use effect_state_tree.Persistence.Reports.{NoneReported, AllSaved, closed_all}
use effect_state_tree.Persistence.Barrier.{
  write_each, first_failure, work_messages, write_each-barrier,
}

abbrev twice : Migration Text ℕ
twice = record { from = 1; to = 2; migrate = λ n. ok (n + n) }

abbrev next : Migration Text ℕ
next = record { from = 2; to = 4; migrate = λ n. ok (n + 1) }

abbrev stored : PersistedEnvelope ℕ
stored = record { version = 1; value = 5 }

migrate_ends_example :
    (r : Result (MigrateError Text) ℕ) × (migrate_envelope stored 4 (twice ∷ next ∷ []) ≡ some r)
migrate_ends_example = migrate_envelope_ends stored 4 (twice ∷ next ∷ [])

migrate_example : Chain (next ∷ twice ∷ []) 4 1 5 11
unfolding migrate_envelope
migrate_example = (migrate_envelope_iff stored 4 (next ∷ twice ∷ []) 11).0 refl

abbrev commit : ℕ → Envelope
commit n = record {
  proposal = record {
    transaction_id = codes "t";
    revision_before = n;
    before = leaf (number n);
    after = leaf (number (n + 1));
    change = record {
      patches = record { forward = []; inverse = [] };
      operations = [];
      inverse_operations = [];
    };
    touched_paths = [];
    info = record { tags = []; label = none; source = none; action = none };
  };
  revision_after = n + 1;
  committed_at = 0;
}

abbrev offered_two : Binding Text
offered_two = offer_commit 1 [] (commit 1) (offer_commit 1 [] (commit 0) bound)

abbrev work : ℕ → Work
work n = record { snapshot = leaf (number n); revision = n }

offers : Runs 1 [] (work 1 ∷ work 2 ∷ []) offered_two
unfolding should_save offer_commit bound
offers = offered (commit 1) (offered (commit 0) starts)

abbrev aborted_late : Binding Text
aborted_late = abort (writer_step saved offered_two)

in_order_example :
    (dropped : List Work) × (in_hand aborted_late ++ dropped ≡ work 1 ∷ work 2 ∷ [])
    × (aborted_late.phase ≢ aborted → dropped ≡ [])
in_order_example = Runs-in_order 1 [] (aborts (writes saved offers))

abbrev closed_two : Binding Text
closed_two =
    finish_close (writer_step saved (writer_step saved (writer_step (saved) (close offered_two).0)))

closed_example :
    (tried closed_two.attempts ≡ work 1 ∷ work 2 ∷ [])
    × (NoneReported closed_two → AllSaved closed_two.attempts)
unfolding should_save offer_commit bound close writer_step finish_close
closed_example =
    closed_all 1 [] (finishes (writes saved (writes saved (writes saved (closes offers))))) refl

abbrev saves : List (Work × Outcome Text)
saves =
    (work 1, saved)
    ∷ (work 2, not_saved (codes "disk"))
    ∷ (work 3, not_encoded (codes "shape"))
    ∷ []

abbrev busy : Binding Text
busy = record bound { queue = work_messages saves ++ flush_barrier 1 false ∷ []; waiters = 1 ∷ [] }

barrier_example : write_each (map (λ s. s.1) saves ++ saved ∷ []) busy ≡ record busy {
  queue = [];
  waiters = delete 1 busy.waiters;
  unreported_failure = none;
  running = not false;
  completed =
      (1, completion (or_else busy.unreported_failure (first_failure saves))) ∷ busy.completed;
  attempts = busy.attempts ++ saves;
}
unfolding bound
barrier_example = write_each-barrier saves 1 false [] busy refl refl
