-- ===== src/Lib.antt =====
-- Horseness: an authority for agent work. Clients propose deltas to a canonical JSON document; the
-- authority admits them, schedules tasks as attempts at providers, and resolves the tasks from the
-- receipts that come back. This library models the rules that these decisions rest on, which stand in
-- packages/domain and packages/policy, the parts of packages/orchestrator that keep forks and
-- receipts by them, the frames of packages/protocol, the consent and the journal of
-- packages/installer, the restore of packages/store-sqlite, and the commands of apps/cli.
--
-- Parts and files (paths from the repository's root):
--   Cli              apps/cli/src/parser.ts: `parseCliInvocationV1` (Parser), and the arguments that
--                    are printed from an invocation (Printing); apps/cli/src/registry.ts: the commands
--                    by their names (Registry), the call of a protocol method from its options
--                    (Coordinator), and the options of a call (Fields, Calls); apps/cli/src/runtime.ts:
--                    `runCliV1` (Runtime), and what it executes (Executed).
--   Common           shared names: Boolean tests, `Result`, sets as lists, the stable sort of
--                    `Array.prototype.sort`, lists up to their order (Common/Rearranged), the
--                    `Map` of the runtime as a list of entries (Common/Maps), and `split` at a
--                    character with `filter` of what is empty (Common/Splitting).
--   Domain/Canonical packages/domain/src/canonical.ts: texts as lists of UTF-16 units, JSON values,
--                    and `assertJsonValue` as `assert_json`.
--   Domain/Delta     packages/domain/src/delta.ts: `validatePointer` (Pointer), scopes (Scope),
--                    `parentAndKey`, `readAt` and the mutation of a container (Document), and
--                    `applyDelta` (Apply). The source mutates a container inside a clone in place;
--                    here `put_parent` rebuilds the document on the way to that container, which is
--                    the same since a clone shares no object. Its digests are the record `Digests`.
--   Domain/Forks     packages/domain/src/context.ts: fork pins, sealed, verified, created from a
--                    parent and refreshed; their digest and identifier are parameters.
--   Domain/Policy    packages/domain/src/policy.ts: roles, capabilities and `authorizeCommand`,
--                    `combinePolicyDecisions`, whose `localeCompare` is a parameter, and
--                    `authorizeAdmission` of packages/orchestrator/src/authorization.
--   Domain/Tasks     packages/domain/src/tasks.ts: the lifecycle of a task and its schedulability
--                    (Lifecycle), an attempt generation at a provider, `reduceDispatch` (Dispatch),
--                    retries (Retry), `resolveTask` (Resolution), dependency edges and their
--                    evaluation (Dependencies), and the search for cycles (Acyclic).
--   Domain/Events    packages/domain/src/events.ts: the envelopes of a chain of events, sealed and
--                    verified, over any format of payload.
--   Domain/Workspace packages/domain/src/events.ts: the events of a workspace, the reducer of its
--                    state with admissions, grants and quotas (Ledger), its genesis and its replay.
--   Domain/Receipts  packages/domain/src/receipts.ts: attempt receipts, sealed and verified.
--   Engine           packages/policy/src: policy documents and the order of texts by their bytes
--                    (Order), what a rule asks (Rules), the decision of a document (Evaluator), and
--                    `evaluateAdmission` (Inputs, Admission) and `evaluateExecutionPolicy`
--                    (Execution); the checks of a document and the reference to the active policy,
--                    `activatePolicy` and `deactivatePolicy` (Lifecycle, References).
--   Installer        packages/installer/src/consent/index.ts: the consent to an installation, created
--                    and asserted; packages/installer/src/journal/index.ts: the journal of a generation
--                    as the text of its file, read and appended to under its lock (Journal), with the
--                    chain of its records (Journal/Chain) and runs of appends (Journal/Appends).
--   Orchestrator     packages/orchestrator/src: the registry of forks (Forks), a projection of three
--                    maps that `create_projected_fork`, `refresh_projected_fork` and
--                    `reuse_projected_fork` keep; and the receipt projection (Receipts), the step
--                    from a task and a receipt to its resolution.
--   Protocol         packages/protocol/src/transports/framing.ts: frames of lines, written and read
--                    from chunks of bytes.
--   Store            packages/store-sqlite/src/restore/index.ts: the files as slots (Places), the code
--                    as programs over them (Program) whose outcome is read off (Outcomes, Removal),
--                    `recoverInterruptedRestore` and the restore of a backup (Restore, Replacement),
--                    and where its retained backup may not be (Locations, Contained); and what holds
--                    of recovery (Recovery, Forward, Recovered, Reboots), of each write of the
--                    replacement (Writes, Replaced, Atomic) and of a whole run (Retained,
--                    Restored, Uninterrupted).
--   Tests            runs at concrete inputs.
--
-- How they interact: a task works on a fork of the document, whose pin `refreshForkPin` moves on;
-- `applyDelta` reads each pointer with `validatePointer` under the scope of the task; the
-- evaluation of dependencies feeds `deriveSchedulability`; a schedulable task gets an attempt
-- generation, which `reduceDispatch` takes through the launch, the provider's handle,
-- cancellation and reconciliation to an outcome; `scheduleRetry` follows an outcome and
-- `authorizeDuplicateRiskGeneration` an unknown one; `resolveTask` arbitrates between the
-- generations, and the receipt projection calls it on each authenticated receipt. The fork registry
-- is the client of the fork pins: what it stores is sealed and verified by them. A proposal is decided
-- by `evaluateAdmission` under the pinned and the current policy, and the workspace's reducer records
-- the decision and charges the quota; its events form a chain that the replay verifies and reduces. A
-- restore first recovers what an earlier one left, then replaces the live files behind a journal of its
-- own, which the next recovery reads. The command line reads its arguments
-- once to look its command up in the registry, and again by the definition of that command.
--
-- Conventions: a thrown `DomainError` is an `err` with its code; the errors of tasks.ts are the one
-- type `TaskError`. Enumerations of strings are data types, `null` and a missing member are `none`,
-- and numbers that the source counts with are ℕ. Names are the source's in snake case. What a part takes
-- from the JavaScript runtime or from a digest is a record of functions, with a record of the laws
-- that a theorem needs of them. A capability that the source keeps in a `WeakSet` is its content
-- with the flag whether it was issued. A program over files is run with the number of writes that it may
-- still make: when none is left the process ends there, with no handler run, and the write that was
-- under way may leave its slot torn. The files in use are those of one token; a new restore draws a
-- token whose siblings are absent, and the siblings of earlier tokens stay where they are, as
-- `leftovers`. `verifyAuthority`, `verifyBackup`, the identity of a backup and the functions of
-- `node:path` are parameters.
--
-- Fuel: the recursion of `visit` in `assertAcyclic` is bounded by one more than the number of tasks,
-- since each task on the way is in `visiting`, and running out is an error of its own, which is shown
-- not to occur for checked edges. The loop over the lines of a frame, `drain`, is bounded by the number
-- of the pending bytes, since each line takes at least its newline. All else is structural recursion.
--
-- Not modelled: SHA-256 and so the digests of values (parameters); the checks that an untyped value
-- has the shape of its type, which the types give; cyclic and exotic JavaScript objects, so also an
-- object member named `__proto__`, which an assignment does not create; the clock check
-- `assertEvaluationClock`; the other records of context.ts; the sealing of proposals; `approvalIsValid`;
-- the canonical document and the operational state that events.ts replays; the issuing of
-- capabilities from the store; the lock of the installer's journal, and its dates, JSON and hashes
-- (parameters); the checks of a restore that its paths are files or directories and no links, the
-- errors of its reads and writes, and the reservation of a directory by `createBackup`; the workflow
-- commands of the command line and the texts that it writes; the backpressure of streams; and the
-- schedulers, databases, sockets, adapters and hosts.
pub mod Cli
pub mod Common
pub mod Domain
pub mod Engine
pub mod Installer
pub mod Orchestrator
pub mod Protocol
pub mod Store
pub mod Tests
