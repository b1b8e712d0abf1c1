-- ===== src/Persistence/Binding.antt =====
-- packages/persistence/src/persistence.ts: the binding that `bindPersistence` returns and its writer.
-- Each operation, and each message that the writer takes, is one step; what comes of `persist` on it,
-- which encodes the snapshot and has the storage save it, is given.
use effect_state_tree.Base.{
  ℕ, ◌+◌, Bool, true, false, not, ◌&&◌, Option, none, some, List, [], ◌∷◌, ◌++◌, if◌then◌else◌,
  ◌==◌,
}
use effect_state_tree.Base.Text.{Text}
use effect_state_tree.Base.Result.{Result, ok, err}
use effect_state_tree.Snapshot.{Value}
use effect_state_tree.Runtime.{SourceToken, Envelope}
use effect_state_tree.Runtime.Context.{or_else}
use effect_state_tree.Persistence.{should_save}

-- `PersistWork`
pub record Work : Type 0 where
  pub snapshot : Value
  pub revision : ℕ

-- `WriterMessage`; an acknowledgement is a number.
pub data Message : Type 0 where
  persist_work : Work → Message
  flush_barrier : (acknowledgement : ℕ) → (close : Bool) → Message

-- `BindingState`
pub data Phase : Type 0 where
  opened closing closed aborted : Phase

-- `PersistenceFlushError`, over the failures of a save.
pub data FlushError (F : Type 0) : Type 0 where
  write_failure : F → FlushError F
  binding_aborted : FlushError F

-- What comes of `persist`: a snapshot that cannot be encoded is not given to the storage, whose save
-- may fail too.
pub data Outcome (F : Type 0) : Type 0 where
  saved : Outcome F
  not_encoded not_saved : F → Outcome F

abbrev pub failure_of : {F : Type 0} → Outcome F → Option F
failure_of saved = none
failure_of (not_encoded f) = some f
failure_of (not_saved f) = some f

-- The variables of a binding, with the completed acknowledgements, last first, and the work on which
-- the writer has called `persist`, in order, each with what came of it. The acknowledgement of `close` is 0.
pub record Binding (F : Type 0) : Type 0 where
  pub phase : Phase
  pub queue : List Message
  pub waiters : List ℕ
  pub next_acknowledgement : ℕ
  pub unreported_failure : Option F
  pub running : Bool
  pub completed : List (ℕ × Result (FlushError F) Unit)
  pub attempts : List (Work × Outcome F)

unfoldable pub bound : {F : Type 0} → Binding F
bound = record {
  phase = opened;
  queue = [];
  waiters = [];
  next_acknowledgement = 1;
  unreported_failure = none;
  running = true;
  completed = [];
  attempts = [];
}

abbrev pub is_open : Phase → Bool
is_open opened = true
is_open _ = false

abbrev pub work_of : Envelope → Work
work_of commit = record { snapshot = commit.after; revision = commit.revision_after }

unfoldable pub offer_commit :
    {F : Type 0} → SourceToken → List Text → Envelope → Binding F → Binding F
offer_commit source skip_tags commit b =
    if is_open b.phase && should_save commit source skip_tags
    then record b { queue = b.queue ++ persist_work (work_of commit) ∷ [] }
    else b

-- What a call of `flush` or `close` waits for, or its failure.
pub data Waits (F : Type 0) : Type 0 where
  fails : FlushError F → Waits F
  awaits awaits_close : ℕ → Waits F

abbrev add_barrier : {F : Type 0} → (acknowledgement : ℕ) → (close : Bool) → Binding F → Binding F
add_barrier acknowledgement close b = record b {
  waiters = b.waiters ++ acknowledgement ∷ [];
  queue = b.queue ++ flush_barrier acknowledgement close ∷ [];
}

abbrev pub flush_in : {F : Type 0} → Phase → Binding F → Binding F × Waits F
flush_in aborted b = (b, fails binding_aborted)
flush_in opened b = (
  add_barrier b.next_acknowledgement false
      (record b { next_acknowledgement = b.next_acknowledgement + 1 }),
  awaits b.next_acknowledgement,
)
flush_in closing b = (b, awaits_close 0)
flush_in closed b = (b, awaits_close 0)

unfoldable pub flush : {F : Type 0} → Binding F → Binding F × Waits F
flush b = flush_in b.phase b

abbrev pub close_in : {F : Type 0} → Phase → Binding F → Binding F × Waits F
close_in aborted b = (b, fails binding_aborted)
close_in opened b = (add_barrier 0 true (record b { phase = closing }), awaits_close 0)
close_in closing b = (b, awaits_close 0)
close_in closed b = (b, awaits_close 0)

unfoldable pub close : {F : Type 0} → Binding F → Binding F × Waits F
close b = close_in b.phase b

abbrev pub fail_waiters :
    {F : Type 0}
    → List ℕ
    → List (ℕ × Result (FlushError F) Unit)
    → List (ℕ × Result (FlushError F) Unit)
fail_waiters [] done = done
fail_waiters (a ∷ more) done = fail_waiters more ((a, err binding_aborted) ∷ done)

abbrev pub abort_in : {F : Type 0} → Phase → Binding F → Binding F
abort_in aborted b = b
abort_in closed b = b
abort_in opened b = record b {
  phase = aborted;
  completed = fail_waiters b.waiters b.completed;
  queue = [];
  running = false;
}
abort_in closing b = record b {
  phase = aborted;
  completed = fail_waiters b.waiters b.completed;
  queue = [];
  running = false;
}

unfoldable pub abort : {F : Type 0} → Binding F → Binding F
abort b = abort_in b.phase b

-- `Set.delete`
abbrev pub delete : ℕ → List ℕ → List ℕ
delete a [] = []
delete a (x ∷ xs) = let rest = delete a xs in if x == a then rest else x ∷ rest

abbrev pub completion : {F : Type 0} → Option F → Result (FlushError F) Unit
completion none = ok tt
completion (some f) = err (write_failure f)

-- A round of `runWriter`: `outcome` is what comes of `persist`, if the message is work.
abbrev pub take_message : {F : Type 0} → Outcome F → List Message → Binding F → Binding F
take_message outcome [] b = b
take_message outcome (persist_work w ∷ rest) b = record b {
  queue = rest;
  unreported_failure = or_else b.unreported_failure (failure_of outcome);
  attempts = b.attempts ++ (w, outcome) ∷ [];
}
take_message outcome (flush_barrier a closes ∷ rest) b = record b {
  queue = rest;
  unreported_failure = none;
  completed = (a, completion b.unreported_failure) ∷ b.completed;
  waiters = delete a b.waiters;
  running = not closes;
}

unfoldable pub writer_step : {F : Type 0} → Outcome F → Binding F → Binding F
writer_step outcome b = if b.running then take_message outcome b.queue b else b

-- The end of `awaitClose`, once the writer has completed the barrier of `close` and has ended.
abbrev pub closed_in : {F : Type 0} → Phase → Binding F → Binding F
closed_in closing b = if b.running then b else record b { phase = closed; queue = [] }
closed_in opened b = b
closed_in closed b = b
closed_in aborted b = b

unfoldable pub finish_close : {F : Type 0} → Binding F → Binding F
finish_close b = closed_in b.phase b
