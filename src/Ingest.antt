-- ===== src/Ingest.antt =====
-- processLedger, processTransactionsForLedger and processTransaction of
-- packages/indexer/src/services/indexer-service.ts. The records of ledgers and transactions are their
-- keys. A number that is given as an idempotency key stands for its decimal text, which PostgreSQL makes
-- of it. The tracker has a connection of its own: what it records stays when the ledger's
-- transaction is rolled back. Validation comes before: the ledger and its transactions are valid.
-- Metrics and logs are left out.
pub mod Keys
pub mod Rollback
pub mod Whole
pub mod Loss
pub mod Commit
mod Examples
use stellar_analytics_dashbo.Prelude.{
  ℕ, suc, ◌+◌, Bool, true, false, Option, none, some, List, [], ◌∷◌, ◌++◌, String, if◌then◌else◌,
  any, ◌==◌,
}
use stellar_analytics_dashbo.Prelude.Text.{str_eq}
use stellar_analytics_dashbo.Prelude.Decimal.{decimal}
use stellar_analytics_dashbo.DeadLetter.{DeadLetterQueue, push, remove}
use stellar_analytics_dashbo.Idempotency.{IdempotencyTracker, Database, Runtime}
use stellar_analytics_dashbo.Idempotency.Tracker.{
  Answer, returned, thrown, Failure, work_failed, upsert_rejected, has, add_key, should_skip,
  mark_processed,
}
use stellar_analytics_dashbo.Idempotency.Tracking.{
  opts_of, mark_transaction_processed, filter_duplicate_tx_hashes,
}

pub record Ledger : Type 0 where
  pub sequence : ℕ
  pub successful_transaction_count : ℕ
  pub failed_transaction_count : ℕ
  pub operation_count : ℕ

-- The rows of the tables ledgers and transactions, by their keys.
pub record Store : Type 0 where
  pub ledgers : List ℕ
  pub transactions : List String

-- What Horizon gives of a ledger's transactions: their hashes, nothing while the circuit is open, or an
-- error.
pub data Fetched : Type 0 where
  hashes : List String → Fetched
  circuit_open : Fetched
  fetch_error : String → Fetched

-- The calls of processLedger that are not modelled: an error, or none. Operations are those of a
-- transaction (processOperationsForTransaction); the network metrics those of a ledger.
pub record Calls : Type 0 where
  pub get_transactions_for_ledger : ℕ → Fetched
  pub process_operations : String → Option String
  pub update_network_metrics : Ledger → Option String

pub record State (P : Type 0) : Type 0 where
  pub idempotency : IdempotencyTracker
  pub db : Database P Store
  pub dlq : DeadLetterQueue

abbrev pub message : Failure String → String
message (work_failed e) = e
message upsert_rejected = "column reference is ambiguous"

-- INSERT … ON CONFLICT DO UPDATE, which keeps the key.
unfoldable pub insert_ledger : ℕ → Store → Store
insert_ledger sequence store = record store {
  ledgers =
      if any (λ x. x == sequence) store.ledgers
      then store.ledgers
      else store.ledgers ++ sequence ∷ [];
}

unfoldable pub insert_transaction : String → Store → Store
insert_transaction hash store = record store { transactions = add_key hash store.transactions }

module _ {P : Type 0} (rt : Runtime P) (calls : Calls) where
  -- The loop over the transactions. The tables of the database are those inside the transaction.
  unfoldable pub process_transactions :
      IdempotencyTracker
      → Database P Store
      → List String
      → List String
      → ℕ
      → ℕ
      → IdempotencyTracker × Database P Store × Option String
  process_transactions t db duplicates [] sequence now = (t, db, none)
  process_transactions t db duplicates (hash ∷ rest) sequence now =
      let stored = record db { tables = insert_transaction hash db.tables } in
      let (t', db', answer) = mark_transaction_processed rt t stored hash sequence now in
      let skipped = process_transactions t db duplicates rest sequence now in
      let went_on = process_transactions t' db' duplicates rest sequence now in
      if has duplicates hash then skipped else elim (calls.process_operations hash) [
        | some error ↦ (t, stored, some error)
        | none ↦ elim answer [ thrown f ↦ (t', db', some (message f)) | returned r ↦ went_on ]
      ]

  unfoldable pub process_transactions_for_ledger :
      IdempotencyTracker
      → Database P Store
      → ℕ
      → ℕ
      → IdempotencyTracker × Database P Store × Option String
  process_transactions_for_ledger t db sequence now =
      elim (calls.get_transactions_for_ledger sequence) [
        | circuit_open ↦ (t, db, none)
        | fetch_error error ↦ (t, db, some error)
        | hashes hs ↦
            let (t', (unprocessed, duplicates)) = filter_duplicate_tx_hashes t db hs in
            process_transactions t' db duplicates hs sequence now
      ]

  -- After the commit: what is left to do, or the error that it throws.
  unfoldable pub finish_ledger : State P → Ledger → ℕ → State P × Option String
  finish_ledger s ledger now =
      let done = record s { dlq = remove s.dlq ledger.sequence } in
      let counted = ledger.successful_transaction_count + ledger.failed_transaction_count in
      let (t', db', answer) =
        mark_processed rt done.idempotency done.db (decimal ledger.sequence) (decimal counted)
          ledger.operation_count (opts_of none none none) now in
      elim (calls.update_network_metrics ledger) [
        | some error ↦ (record done { dlq = push done.dlq ledger.sequence error now }, some error)
        | none ↦ elim answer [
          | thrown f ↦ (
            record done { dlq = push done.dlq ledger.sequence (message f) now },
            some (message f),
          )
          | returned r ↦ (record done { idempotency = t'; db = db' }, none)
        ]
      ]

  unfoldable pub process_ledger : State P → Ledger → ℕ → State P × Option String
  process_ledger s ledger now =
      let (t, skips) = should_skip s.idempotency s.db (decimal ledger.sequence) in
      let begun = record s.db { tables = insert_ledger ledger.sequence s.db.tables } in
      let (t', db', error) = process_transactions_for_ledger t begun ledger.sequence now in
      if skips then (record s { idempotency = t }, none) else elim error [
        | some e ↦ (
          record {
            idempotency = t';
            db = record db' { tables = s.db.tables };
            dlq = push s.dlq ledger.sequence e now;
          },
          some e,
        )
        | none ↦ finish_ledger (record s { idempotency = t'; db = db' }) ledger now
      ]
