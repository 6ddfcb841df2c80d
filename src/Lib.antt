-- ===== src/Lib.antt =====
-- The execution kernel of ParallelPlay: how commands become events, events become state, and both
-- become rows of a database.
--
-- A client sends a command to `SqliteKernel.execute` (packages/kernel/src/sqlite-kernel.ts). In
-- one transaction it looks for a receipt of the command's idempotency key, loads the event log
-- through the schemas of its events and replays it, asks `decide` (packages/kernel/src/domain.ts)
-- for the events of the command or for a failure, stores the events, evolves the state by each
-- (`evolve`, packages/kernel/src/model.ts) and stores a receipt. Programs have runs, runs have
-- jobs, jobs have attempts; an outbox holds the messages to drivers and verifiers. Workers hold
-- jobs and messages by leases with fencing tokens.
--
-- Files, by part:
--   Prelude     shared helpers: native numbers, lists, texts, JavaScript's `Map` as an association
--               list in the order of insertion.
--   Canonical   packages/kernel/src/canonical.ts: canonical JSON, `canonical_digest`.
--   Evidence    packages/kernel/src/evidence.ts: the digests of revisions, manifests and receipts.
--   Model       packages/kernel/src/schema.ts: statuses, states and events.
--   Evolve      packages/kernel/src/model.ts: `evolve`, by the entity that an event changes.
--   Decide      packages/kernel/src/domain.ts: one function for each command, by the entity that it
--               is for, and the lists of events that cancellation and failure share.
--   Kernel      `decide` on the type of commands; the schemas by which `loadEvents`
--               (packages/kernel/src/projections.ts) reads payloads; the event log; and `execute` on a
--               connection, with the tables of the transaction that is under way.
--   Workflow    packages/kernel/src/schema.ts: the check of a workflow's graph of steps, and what
--               `run.schedule` can rely on after it.
--   Outbound    packages/kernel/src/outbound-authority.ts and packages/contracts/src/index.ts: the
--               policies that permit effects outside, the grants, receipts and failures of effects.
--   Replay      `execute` as one atomic step, its receipts, what its log reads back as, and the
--               numbers of its rows.
--   Artifacts   packages/runtime/src/artifact-store.ts: the content-addressed store of artifacts.
--   Secrets     packages/runtime/src/secret-provider.ts: the handles to secrets of the environment.
--   Lifecycle   the life of jobs and runs: leases, attempt budgets, endings.
--   Guards      what single commands let through.
--   Examples    a run with one job, on which the theorems are applied.
--
-- State is passed explicitly: `decide` takes a `ProjectionState` and answers a `Decision`, which is
-- a list of events, a failure with its code and message, or an exception; `evolve` answers `none`
-- where the code throws. Identifiers and digests are texts that are compared for equality. Instants
-- are milliseconds: the code's fixed-width texts are ordered alike. In Outbound they are the texts
-- themselves, since an expiry may come in another form. SHA-256 is a parameter (`Host`), as are the
-- random identifiers, the collation and the outbound adapters (`Platform`, `Adapter`).
-- Loops over maps and lists are structural recursions. Two functions run on fuel: the decimal digits
-- of a number, with one more than the number, and the search for cycles of a workflow, with one more
-- than there are steps, since every step under way is another key of the map of dependencies.
--
-- The outbound authority keeps a table of its own events. Each operation replays it, checks its
-- input against what the replay gives, and appends at most two events in one transaction.
--
-- Reading a payload back trims its free texts and refuses those of a wrong length or value;
-- identifiers, digests, numbers and nested documents are taken to be valid, as the command's schema
-- found them. The keys of documents are taken not to be `__proto__`.
--
-- Left out: the summaries of the events and the data of a reply; the details of a failure beside
-- its code and message; the members of a document that are only hashed or passed on; the commands
-- and events of milestones, program graphs, driver events, attention, the advisor and the
-- portfolio; the projection tables, which `execute` writes from the state that is modelled;
-- `deriveOutcomeEvents`, which yields nothing for a run without a milestone, and the modelled
-- commands make no other. Workers, adapters and the applications are asynchronous input and output
-- around these commands.
pub mod Prelude
pub mod Canonical
pub mod Model
pub mod Evidence
pub mod Evolve
pub mod Decide
pub mod Kernel
pub mod Workflow
pub mod Outbound
pub mod Artifacts
pub mod Secrets
pub mod Replay
pub mod Lifecycle
pub mod Guards
pub mod Examples
