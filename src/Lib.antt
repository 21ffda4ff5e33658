-- ===== src/Lib.antt =====
-- TellyQ: a queue of videos that a television plays.
--
-- The program decides from telemetry what has happened on a receiver, and from that and a durable
-- queue what may happen next. Three parts carry this core. The playback policy
-- (tellyq/domain/policy.py) folds observations, receipts and intents into the snapshot of one
-- session. The queue policy (tellyq/domain/queue_policy.py) reads a queue, the owner's authority, a
-- session and what the receiver shows, and returns one decision: to start an item, to settle the
-- attempt that runs, to hold, or that the queue is complete. The queue store
-- (tellyq/queue_store.py) makes each change of a queue one transaction with an expected revision,
-- and keeps the journal of commands from which the receiver is driven.
--
-- Which file models which part:
--   Values      tellyq/domain/values.py: requests, receipts, observations, evidence, sessions. A
--               constructor that checks its fields is a record and a function `check_…`.
--   Policy      tellyq/domain/policy.py: `observe` with its helpers (Observe, Media, Attribution),
--               the other functions on a session (Intents), and runs of events (Runs), with the
--               release boundary that tellyq/application.py sets and withdraws. Validity,
--               History, Completion, Confirmation, Expiry and Runs.Safety hold the proofs.
--   Queue       tellyq/domain/queue.py and tellyq/domain/native_queue.py: the durable records.
--   QueuePolicy tellyq/domain/queue_policy.py: `decide_queue` (Decide) over tests of the queue, the
--               receiver and the completion (Queues, Receivers), and decision identities (Identity).
--               Material, Outcomes and Evidence hold the proofs.
--   QueueStore  tellyq/queue_store.py: `_load`'s tests (Rows, NativeRows), the transaction
--               (Transactions), the operations (Starts, Controls, Transitions, Settlements) and
--               sequences of calls (Operations). Advances, Bodies, Writes, Additions, Histories,
--               Dispatch, Retries, Restarts and Endings hold the proofs.
--               The operations on successors that the receiver manages stand in NativeRequests,
--               Stagings, NativeTransitions, Adoptions and Exits; their proofs in Bodies,
--               NativeDispatch and NativeAdoption. Commits and Transacted carry Writes.
--   QueueExecution  tellyq/queue_execution.py: `QueueExecutor` (Execute) over the record of the
--               store's operations (Port), with requests and results (Requests). Laws says what is
--               asked of a store; Effects, Rounds, Watched, Runs and Once hold the proofs, Stored
--               shows that the store of QueueStore keeps the laws, and Composed puts both together.
--   NativeExecution  tellyq/native_queue_execution.py: `NativeQueueExecutor` (Execute) with its
--               requests and results (Requests), over the same port. Laws, Runs, Once and Stored as
--               above.
--   Handoff     tellyq/handoff.py: `track_release` (Tracking) and `release_decision` (Release) with
--               what they tell (Diagnostics). Vetoes and Eligibility hold the proofs.
--   SessionStore  tellyq/session_store.py: the record of a session (Records) and the store of records
--               (Files). Restored and Saved hold the proofs.
--   Youtube     tellyq/youtube_state.py: `interpret_player_state` (State), with its proof in Phases.
--   Examples    tests at concrete inputs.
-- The parts meet in the records of Values and Queue: the queue policy tests the completion that the
-- playback policy recorded, and its decisions are what the store is asked to prepare and settle.
-- The executor calls the store and a device; the handoff reads the session that the playback policy
-- completed, and the session store keeps that session's request, revision and intent to stop.
--
-- State and errors. Sessions are immutable in the source: an operation is a function from a session
-- to a session. The database is passed from operation to operation. An exception is a value of
-- `Fault`, and an operation that can raise returns a `Result`; a transaction that raises is rolled
-- back, so that its caller keeps the database that it had.
--
-- The executor's store, device and guard act on a world, which an action returns changed, also
-- where it raises: other owners of the database may have changed it between two calls.
--
-- Numbers and times. Monotonic instants, durations and media positions are natural counts of ticks
-- of a millisecond: the infinities, the negative numbers and the values that are not numbers, which
-- `require_instant` rejects, have no counterpart. A wall-clock time is a count of ticks with the
-- mark of its timezone. Counters such as revisions are Python integers, with no bound. Recursion is
-- on the structure of lists; the digits of a length are written on fuel equal to the number, which
-- is more than it has.
--
-- The database. A queue's rows in all tables are one snapshot, in the order of the rows' numbers,
-- and a primary key or a unique column is a test before an insertion. The body of a transaction
-- sees and returns the rows of its own queue: that each statement's WHERE clause touches only these
-- is assumed, and so is what SQLite does with a statement. A value that its column's type or the
-- source's row readers refuse (an empty identity, an unknown word of an enum, a negative number)
-- has no counterpart in these snapshots.
--
-- Files of sessions. A file holds a flat record of named values; a value that no field may have is
-- `other`. The path of an attempt's file is a parameter, and so are the name of a new connection
-- and the clock at a restart.
--
-- Parameters. SHA-256, the ISO form of a timestamp and the text of a float, which enter the
-- identity of a decision, are functions of the record `Digests`. The digest is of any string of
-- characters; a Python string with lone surrogates, which `encode` refuses, has no counterpart. The
-- device and the guard of an execution are arguments; what they answer is free.
--
-- Not modelled. In tellyq/queue_store.py: opening a file and its schema, SQLite itself, and reading
-- the earlier format's file before its import. Of the rest: the lifecycle, the application but for
-- the two changes named above, the tasks, the runner's protocol, the service and the adapters of
-- the receiver (tellyq/lifecycle.py, tellyq/playback_task.py and their neighbours), which call the
-- parts above; tellyq/state.py reads and writes files.
mod Prelude
pub mod Values
pub mod Policy
pub mod Queue
pub mod QueuePolicy
pub mod QueueStore
pub mod QueueExecution
pub mod NativeExecution
pub mod Handoff
pub mod SessionStore
pub mod Youtube
mod Examples
