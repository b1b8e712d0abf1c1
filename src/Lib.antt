-- ===== src/Lib.antt =====
-- effect-state-tree: a library of immutable, patch-based state trees on Effect. This development
-- models its pure core and the state machines around it.
--
-- The parts. A tree's state is a canonical snapshot, a frozen value in which no container occurs
-- twice. Patches at tuple paths change it and come with their inverses. A store keeps a snapshot and
-- a revision; a commit reads them, builds a change, is guarded, and writes only if the revision is
-- still the one that it read. Each commit is published and given to the listeners in the order of
-- the revisions. History and persistence are such listeners: one records inverse changes and
-- replays them through the store, the other saves snapshots by a writer of its own.
--
-- The files.
--   Base: lists, texts (a string is the list of its UTF-16 units) and `Result`.
--   Path: packages/core/src/path.ts. A segment is a key, a natural number, or another number by its
--     text. Path/Token and Path/Pointer are the JSON Pointer codec, Path/Decimal the text of indexes.
--   Snapshot: packages/core/src/snapshot.ts. Primitives, arrays, plain objects and other objects
--     are the constructors of `Value`. A container carries its reference and whether it is frozen,
--     so `Object.is` is equality, and a new container takes the next number as its reference.
--     Snapshot/Admission is `findSnapshotError`, Snapshot/Capture `captureSnapshot`, Snapshot/Read
--     `getAtPath` of packages/core/src/path.ts.
--   Patch: packages/core/src/patch.ts. `apply_one` is `applyOne`, Patch/Batch `applyPatches`,
--     Patch/Diff `diffPatches`, whose removal of duplicates is a parameter.
--   Runtime: packages/runtime/src and the data of packages/producer/src. Runtime/Store splits an
--     attempt of `commitProposal` at its second transaction into `read_phase` and `write_phase`;
--     Runtime/Linear lets any commits come between the two. Runtime/Notify is `flushNotifications`,
--     Runtime/Checkpoint the checkpoints, Runtime/Context the commit context,
--     Runtime/View the views of `select`.
--   History: packages/history/src/history.ts. History/Controller is `makeHistory`, where
--     `store.apply` with the observers it runs is a parameter, and History/Reached the states that a
--     history takes.
--   Persistence: packages/persistence/src/persistence.ts. Persistence/Migrate is about
--     `migrateEnvelope`; Persistence/Binding has a step for each call of a binding and for each
--     message that its writer takes, where what comes of encoding and saving is given.
--   Runtime/Plugin: packages/runtime/src/plugin.ts, a reducer of commits and its live controller.
--   Devtools: packages/devtools/src/index.ts, the timeline of commits and what time travel goes to.
--   Foldkit: packages/foldkit/src/index.ts; Foldkit/Refines compares its pure update to a commit.
--   Validation: packages/validation/src/report.ts. A report is made by a decoder that is a parameter;
--     Validation/Lookup is about its index, Validation/Checkpoints about the controller's reducer.
--   Identity: packages/core/src/identity.ts and `identityAt` of packages/core/src/spec.ts. The visits
--     of `walkSchemaValue` are a list, and the annotation that the Schema has at a path is a parameter.
--   Reconcile: packages/core/src/reconcile.ts. Whether the Schema is atomic or ambiguous at a path is
--     a parameter; Reconcile/Incoming compares the result to the incoming value.
--   Tree: packages/core/src/tree.ts, over a Schema whose annotations, paths, decoder and order of
--     visits are parameters. Tree/Reconciled is `reconcile` of packages/core/src/reconcile.ts.
--   Crdt: packages/crdt/src/crdt.ts. Crdt itself is the rebasing of commits, Crdt/Binding has a step
--     for each event of a binding, and Crdt/Consistent the states that these steps reach.
--   Yjs: packages/yjs/src/yjs.ts, the tests on pairs of operations and of patches that precede a plan.
--   Draft: packages/draft/src/draft.ts. `submit` is split at its request, which takes any time.
--   Examples: the theorems at concrete inputs.
--
-- Bounds and fuel. Recursion is structural but in three places. The text of a number has as much
-- fuel as the number and one more. The loop of `flushNotifications` ends with more fuel than there
-- are pending commits and commits that the listeners make meanwhile, which are given, and finitely
-- many; if the listeners never stopped committing, it would not end. The loop of `migrateEnvelope` has
-- the distance to the target version as its fuel, for each round raises the version. Safe integers
-- are below 2 ^ 53.
--
-- Not modelled. The Schema-driven parts (specs, codecs, JSON Patch), the Immer producer, the
-- adapters of Loro and Yjs but for the tests of Yjs.antt, and the bindings of frameworks rest on
-- packages that are not in the repository. Commit metadata, accessors, proxies, prototypes, sparse
-- arrays and the order that JavaScript gives to integer keys are left out of the values. The
-- application's interpreters and guards, the storage, the clock, the decoders of a Schema,
-- `encodeURIComponent` (of well-formed strings) and the equality of paths of a utility library are
-- parameters; the stores and drafts take reconciliation and the application of patches as
-- parameters too, since both ask the Schema.
pub mod Base
pub mod Path
pub mod Snapshot
pub mod Patch
pub mod Runtime
pub mod History
pub mod Persistence
pub mod Validation
pub mod Draft
pub mod Devtools
pub mod Foldkit
pub mod Identity
pub mod Reconcile
pub mod Tree
pub mod Crdt
pub mod Yjs
pub mod Examples
