-- ===== src/Lib.antt =====
-- Verification of the Stellar analytics dashboard's indexer. The indexer reads ledgers from Horizon,
-- through a circuit breaker, and writes them to PostgreSQL. It polls new ledgers, backfills old ones
-- under checkpoints, skips what its idempotency records say is done, puts ledgers that fail into a
-- dead letter queue, retries them by a job, and looks for gaps in what was stored. Each of these
-- parts keeps a small state, in memory, in a file or in a table, and promises something of it over
-- any calls, errors and restarts; that is what is modelled here.
--
-- The files, and the code that each is about:
--
-- - Prelude: tests on native numbers, lists, texts, decimal numerals, sorting and signed integers,
--   which the other files share.
-- - Breaker: packages/indexer/src/circuit-breaker/CircuitBreaker.ts, of which
--   packages/api/src/services/circuit-breaker.ts is a copy. `execute` is split into `start`, up to
--   the call of the callback, and `settle`, after it, so that calls interleave.
-- - Gaps: gap detection. Gaps.Service is packages/indexer/src/backfill/GapDetectionService.ts and
--   Gaps.Legacy is indexer/src/gap-detector.ts; both use Gaps.Table (the queries), Gaps.Scan (the
--   walk over ascending numbers) and Gaps.Merge (the merge of gaps). A table is the list of its
--   sequence numbers.
-- - DeadLetter: indexer/src/error-recovery/DeadLetterQueue.ts, and DeadLetter.Job is
--   indexer/src/error-recovery/RecoveryJob.ts.
-- - Idempotency: packages/indexer/src/idempotency/IdempotencyTracker.ts. Keys has the hashes,
--   Records the queries, Tracker the class, Tracking the two namespaces of wrappers.
-- - Backfill: Backfill.Checkpoint is packages/indexer/src/backfill/BackfillCheckpointManager.ts;
--   Backfill.Run is backfillFromSequence, backfillLedgers and processLedgerBatch of
--   packages/indexer/src/services/indexer-service.ts. Promise.all over processLedger is a parameter:
--   what the concurrent processing of a batch's ledgers comes to.
-- - Ingest: processLedger and its transactions, of the same file, over the tracker of Idempotency
--   and the queue of DeadLetter.
-- - Service: start, stop, initializeLastProcessedLedger, startRealtimeStreaming and startBackfill of
--   the same file. The stream's callbacks are events; a ledger is in processing between its message
--   and the end of processLedger. They also come while start waits for Horizon and for the backfill.
-- - Horizon: what is between the indexer and Horizon. Horizon.Errors is
--   packages/indexer/src/services/retry-config.ts, Horizon.Retry is retryWithBackoff and
--   executeWithRetry of packages/indexer/src/services/stellar-service.ts, over the circuit breaker
--   of Breaker; in Horizon.Retry.Requests requests begin and end in any order.
-- - RateLimit: RateLimit.Sliding is packages/indexer/src/rate-limiter/RateLimiter.ts; Entries,
--   Memory, Postgres and Fixed are api/src/rateLimit.ts, whose limiter takes either store.
-- - Schema: packages/indexer/src/database/schema-version.ts. Semver has the static functions, Table
--   the table schema_version, Migrations validateMigrations.
-- - Retention: archiveAndDelete of packages/indexer/src/services/retention-service.ts. The store
--   counts the queries that are still answered, so that any of them may fail.
-- - Pagination: packages/api/src/utils/pagination.ts; the conversions of Node's Buffer are
--   arguments.
-- - Legacy: the older indexer. Legacy.Workers is runWithConcurrency of indexer/src/backfill.ts,
--   Legacy.Ledgers its processOneLedger and Legacy.Backfill its runBackfill, with the row of the
--   ledger that indexer/src/loader.ts writes, and Legacy.Checkpoint is indexer/src/checkpoint.ts,
--   which runs the same statements as Backfill.Checkpoint.
--
-- Functions bear the names of the source in snake case. State is passed and returned; an error is a
-- value. Times are milliseconds, arguments of the operations. A table is a list of rows. What the
-- source awaits from outside (Horizon, callbacks, the work of a caller) is an argument. A call of a
-- tracker, of the queue or of the manager is one step: the source runs them on one thread, and
-- withIdempotency holds a lock of its key and a transaction while it runs.
--
-- Bounds. Numbers are natural numbers without a bound, as sequence numbers, counts and times stay
-- below 2 ^ 53; the hashes of keys wrap at 2 ^ 32 as in the source. Loops are recursion on their
-- lists, and the loop over the batches of a backfill is on fuel, the number of sequences left, which
-- is enough as a batch has at least one. Archiving is on fuel, the number of rows and one, as each
-- round deletes one at least. The retries of a request are on fuel, one more than the attempts
-- allowed; the legacy backfill follows a list of rounds, one for each turn of its loop, and has a
-- result of its own where the list is too short. Subtractions that may be negative give integers
-- (seconds to wait, total ledgers).
--
-- Two things that the models take as given. Where the service asks for Horizon's latest ledger, the
-- answer is the ledger record that the type of getLatestLedger declares, although it returns the
-- page of the SDK's call. Whether PostgreSQL accepts the upsert of an idempotency record is a flag
-- of the database, accepts_upsert, as the statement's `attempts = attempts + 1` is ambiguous and is
-- rejected; theorems on what is recorded say what the flag does to them.
--
-- Not modelled: logs and metrics, failures of disk writes and, but for the upsert of a record, the
-- legacy backfill and the retention, of queries, the tracker of ingestion progress, the rest of the
-- API, the frontends, and the tests.
pub mod Backfill
pub mod Breaker
pub mod DeadLetter
pub mod Gaps
pub mod Horizon
pub mod Idempotency
pub mod Ingest
pub mod Legacy
pub mod Pagination
mod Prelude
pub mod RateLimit
pub mod Retention
pub mod Schema
pub mod Service
