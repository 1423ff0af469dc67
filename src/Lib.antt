-- ===== src/Lib.antt =====
-- Agentis: the store of the local daemon, packages/cli/src. The daemon keeps the owner's tasks, the runs
-- of two bots (Mara and Ivo), approvals, handoffs, messages and a journal of events in one SQLite
-- database. Clients send commands (`applyCommand`), providers report on their runs (`mutateForEngine`), a
-- timer sweeps what is overdue (`sweepRunTimeouts`), a restart interrupts what was active
-- (`interruptActive`), and browsers open sessions and follow the journal (`transitionsAfter`).
--
-- What is modelled, by file:
--   Schema, Versions: the types of schema.ts, provider-contract.ts and store.ts, the limits of versions.ts.
--   StoreDb: the tables as lists of rows in one record `Db`, and `emit`, `message` and `withTxn` of
--     store-db.ts. `Env` holds what comes from outside: random identifiers (the k-th draw), SHA-256, byte
--     lengths, path joins, whether a file can be written, the file system, JSON.parse and the decoding of a
--     handoff decision.
--   Lifecycle: run-lifecycle.ts. Profile: provider-profile.ts. Receipts: the receipts of refusals.
--   VerifiedFile: `readVerifiedFile` of verified-file.ts. Its read loop runs on fuel, the size of the
--     buffer; each round but the last adds a byte, so that is enough.
--   Json, Prompt: `publicPendingPrompt` of store.ts.
--   Handoff, Handoff/Propose, Handoff/Decide: handoff-store.ts.
--   Commands/Submit, Approval, Control, LoadSession, Dispatch: the seven commands and `applyCommand`.
--   Engine, Engine/Progress, Waiting, Outcome: the transactions of `mutateForEngine`.
--   Sweep: `sweepRunTimeouts` and `interruptActive`. Browser: browser sessions. Replay: `transitionsAfter`.
--   Snapshot, Snapshot/Public: `readSnapshot`, `workspaceSnapshot` and the public projections.
--   Web, Web/Refresh, Actions, Events: the browser's `WorkspaceStore` of packages/cli/web/src/
--     workspace-store.ts. Each method is cut at its awaits, an event is what runs between two, and what
--     awaits a refresh goes on as the refresh ends. The record also holds what the page has: open event
--     sources, calls made, refreshes ended.
--   Stream: the subscribers and the pump of sse.ts; whether a write fills the connection's buffer is a
--     parameter, by the number of writes before it.
--   Failure: `classifyFailure`. Drive, Drive/Fake: `driveAfterCommit` with the fake provider, `providerBrief` and
--     `failRun` of engine.ts; Drive/Reactions, Drive/Effects: `applyReceiptEffects`, one effect each and all
--     of them. `Platform` holds the calls of the Codex and Claude adapters, each one action on the store.
--   Http: `parseAuthorization` of auth.ts and the cookies; Http/Authority: `authorizeRead`,
--     `authorizeMutation`; Http/Command, Http/Requests: the handler `command` of http-api.ts, and all of
--     them. `Dependencies` holds SHA-256, `decodeURIComponent` and the provider's readiness, `Times` what
--     the clock gives, `Draws` what is drawn at random.
--   System: the step relation, one constructor for each transaction, and sequences of steps.
-- Where the lemmas stand:
--   Runs: how each operation changes the rows of `runs` (Evolution, Lifecycle, Commands, Engine, Sweeps),
--     what takes a slot (Starts), the limits (Caps), what a run keeps (Persists), and stop-all (StopAll).
--   Journal: what each operation adds to the events and the messages, and idempotency.
--   Lifecycle/Finish, Handoff/Accept, Commands/Once, Commands/Authority, Engine/Budget, Engine/Delivery,
--     Browser/Bootstrap, Browser/Setup, Replay/Window, Stream/Delivery, Stream/Pump, Sweep/Overwrites,
--     VerifiedFile/Reads, Prompt/Questions, System/Safety, System/Latch, System/Reports, Snapshot/Secrets,
--     Drive/Fake/Delivers, Drive/Effects/Launched and Replayed, Http/Credentials, Protected, Guarded and
--     Again,
--     Web/Sound, Web/Refresh/Sound, Rounds and Quiet, Web/Events/Sound, Retry and Ends, Web/Dispose: the
--     properties of their parents.
--   Tests: concrete stores, and the theorems at them.
--
-- A transaction is a function from the database to a result, and a thrown error carries no database, which
-- is the rollback. SQL is written out: a SELECT of one row is the first row that matches, an UPDATE maps
-- the rows that match, a PRIMARY KEY or UNIQUE constraint is a test before the insert that throws. Numbers
-- are natural numbers, since times, counts and sequence numbers are never negative. A step by which a
-- driver reports a provider's state may say 'loading' only of a run that is already loading, as the
-- drivers do, which test it first.
--
-- Not modelled: the listening of the HTTP server, the opening of event streams, the two provider adapters,
-- the command line, the containers and the views of the web client.
pub mod Prelude
pub mod Schema
pub mod Versions
pub mod StoreDb
pub mod Receipts
pub mod Lifecycle
pub mod Profile
pub mod VerifiedFile
pub mod Json
pub mod Prompt
pub mod Handoff
pub mod Http
pub mod Commands
pub mod Engine
pub mod Sweep
pub mod Browser
pub mod Replay
pub mod Snapshot
pub mod Stream
pub mod Failure
pub mod Drive
pub mod Web
pub mod Runs
pub mod Journal
pub mod System
pub mod Tests
