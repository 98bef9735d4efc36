-- ===== src/Lib.antt =====
-- The session of codevil: the orchestrator of packages/worker, a durable object that owns one
-- session, its sandbox and its clients.
--
-- A session moves through the states of packages/shared/src/session.ts (Session) while it works off
-- agent runs. Clients send messages over WebSockets (ClientMessages, CliHandlers); the agent in the
-- sandbox sends others (SandboxHandlers); timers fire (Alarm, Lifecycle, Teardown). Each handler
-- changes the session's meta and tables, logs events, and sends messages to the sandbox.
--
-- - Room, Host/Records, Host/Messages: the records of packages/shared/src (room.ts,
--   session-meta-schema.ts, questions.ts, annotations.ts, messages-cli.ts, messages-sandbox.ts) and
--   the tables of packages/worker/src/orchestrator.ts.
-- - Host: the session as a record, and transition, sendToSandbox, trackCost, updateDirectory and
--   revokePreview of packages/worker/src/orchestrator.ts.
-- - AgentRuns, Coordinator: packages/worker/src/agent-runs.ts and
--   packages/worker/src/orchestrator/agent-run-coordinator.ts, the active run and the queue.
-- - CliHandlers, ClientMessages: packages/worker/src/orchestrator/cli-handlers.ts, and the
--   authorization and dispatch of packages/worker/src/ws-authorization.ts and orchestrator.ts.
-- - SandboxHandlers: packages/worker/src/orchestrator/sandbox-handlers.ts.
-- - QuestionsStore, QuestionAnswer: questions-store.ts, question-answer.ts and question-policy.ts.
-- - PlanRevisions, Annotations: plan-revisions-store.ts, plan-revision-actions.ts, annotations.ts.
-- - Connection, Lifecycle, Alarm, Activity: sandbox-connection.ts, sandbox-lifecycle.ts, alarm.ts and
--   the deadlines of sandbox-session-lifecycle.ts.
-- - Pausing: pausing and resuming the sandbox and renewing its lease, sandbox-session-lifecycle.ts.
-- - Reconnecting: the sandbox's sockets and alarm() of packages/worker/src/orchestrator.ts.
-- - Preview, Teardown: the preview commands and the end of a session, sandbox-session-lifecycle.ts.
-- - EventLog: event-log.ts of packages/worker/src/orchestrator, and snapshot-frame.ts and
--   replay-batch.ts of packages/worker/src: what is stored, broadcast, and sent to a client that joins.
-- - Projections: projections.ts, projection-reducers.ts and session-snapshot-schema.ts of
--   packages/shared/src, the state that clients fold from the events. Projections/Clients puts it in
--   the place of the state that the event log keeps.
-- - Snapshots: packages/worker/src/orchestrator/event-log-limits.ts, whose loop runs on fuel, one for
--   each entry of the history, since each turn takes one away.
-- - DirectoryQueue: packages/worker/src/orchestrator/directory-update-queue.ts.
-- - CacheJob: packages/worker/src/orchestrator/workspace-cache-job.ts.
-- - AgentSocket, VerificationLoop: socket-client.ts, and verification.ts with package-manager.ts, of
--   packages/sandbox-image/src, the agent's side of the connection and its verify and repair loop.
-- - WebClient: connectWebSocket of packages/web/src/lib/ws-client.ts, the browser's side.
-- - Consistency, Invariant: what is true of a session between two handlers, and the steps it takes.
-- - Base, Text, Examples, Tests: shared helpers, concrete sessions, and the theorems at these.
--
-- A function `handleX` of the source is `handle_x` here, a field keeps its name, and an operation
-- that mutates the session takes it and returns it. A handler's early return is an `if`; where its
-- body is long the part after a guard is a definition of its own beside it. A session is one whose
-- meta is loaded, so that the source's `if (!host.meta) return` is passed. Lists of events and of
-- the messages that a session sent have the newest first. Times are milliseconds, the clock stands still while a
-- handler runs, costs are counted in whole units, and generated identifiers are arguments.
--
-- `startAgentRun` and `finishRunAndDrainQueue` call one another. Here the circle is a recursion on
-- the session's queue, whose head each turn removes. The attempts to resume a sandbox (three), to
-- store a workspace (three) and to verify a repository are the bounds of their loops in the source.
--
-- An operation that waits for a service is one definition for each part between two waits, and what
-- the service answers is an argument, so that other handlers may run in between. The steps of
-- Invariant are these parts, in any order that the parts' own guards let through; a pull request that
-- handleBranchPushed asked for settles in any later state but that in which verification is retried.
--
-- Left out: the tracer, notifications to other services, the slug in the name of a branch, tokens and
-- the greeting of a socket, cards in conversations, and what a call of the sandbox's provider or of
-- GitHub does beyond its result. The validation, redaction and shortening of a logged event are one
-- argument of the event log, and what an event adds to the chat and the activity is one of the
-- projections. The tables of the directory, the HTTP layer, and what else is in packages/web
-- and packages/sandbox-image, with packages/cli, packages/admin-cli and packages/site, are not modelled.
pub mod Base
pub mod Text
pub mod Reconnecting
pub mod Session
pub mod Room
pub mod AgentRuns
pub mod Connection
pub mod Lifecycle
pub mod AgentSocket
pub mod Alarm
pub mod Host
pub mod QuestionsStore
pub mod Activity
pub mod Consistency
pub mod Coordinator
pub mod Annotations
pub mod Pausing
pub mod PlanRevisions
pub mod Projections
pub mod QuestionAnswer
pub mod Preview
pub mod CacheJob
pub mod CliHandlers
pub mod Teardown
pub mod SandboxHandlers
pub mod ClientMessages
pub mod Invariant
pub mod EventLog
pub mod Examples
pub mod Tests
pub mod VerificationLoop
pub mod WebClient
pub mod Snapshots
pub mod DirectoryQueue
