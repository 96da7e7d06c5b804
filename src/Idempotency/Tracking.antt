-- ===== src/Idempotency/Tracking.antt =====
-- LedgerTracking and TransactionTracking of IdempotencyTracker.ts. The checks that
-- filterDuplicateTxHashes starts together run one after the other.
use Prim.Native.String.{◌++◌ as append}
use stellar_analytics_dashbo.Prelude.{
  ℕ, ◌≡◌, Bool, true, false, Option, none, some, List, [], ◌∷◌, String, if◌then◌else◌,
}
use stellar_analytics_dashbo.Prelude.Decimal.{decimal, decimal_injective, append_cancel}
use stellar_analytics_dashbo.Idempotency.{
  ProcessedRecord, WriteOptions, Runtime, IdempotencyTracker, Database,
}
use stellar_analytics_dashbo.Idempotency.Tracker.{
  Answer, returned, thrown, Failure, Result, executed, skipped, is_processed, mark_processed,
  with_idempotency,
}

unfoldable pub ledger_key : ℕ → String
ledger_key sequence = append "ledger:" (decimal sequence)

unfoldable pub build_tx_key : String → String
build_tx_key tx_hash = append "tx:" tx_hash

abbrev pub opts_of : {P : Type 0} → Option ℕ → Option ℕ → Option String → WriteOptions P
opts_of tx_count op_count checksum = record {
  tx_count = tx_count;
  op_count = op_count;
  checksum = checksum;
  metadata = none;
  strategy = none;
  payload = none;
}

-- JSON.stringify({ ledgerSequence }).
abbrev sequence_metadata : ℕ → String
sequence_metadata sequence = append "{\"ledgerSequence\":" (append (decimal sequence) "}")

-- The answer is whether the work was executed.
was_executed : {P T E : Type 0} → Answer (Result P T) (Failure E) → Answer Bool (Failure E)
was_executed (thrown f) = thrown f
was_executed (returned (skipped r)) = returned false
was_executed (returned (executed result r)) = returned true

module _ {P D : Type 0} where
  unfoldable pub is_ledger_processed :
      IdempotencyTracker → Database P D → ℕ → IdempotencyTracker × Bool
  is_ledger_processed t db sequence = is_processed t db (ledger_key sequence)

  unfoldable pub is_transaction_processed :
      IdempotencyTracker → Database P D → String → IdempotencyTracker × Bool
  is_transaction_processed t db tx_hash = is_processed t db (build_tx_key tx_hash)

  -- (unprocessed, duplicates)
  unfoldable pub filter_duplicate_tx_hashes :
      IdempotencyTracker
      → Database P D
      → List String
      → IdempotencyTracker × (List String × List String)
  filter_duplicate_tx_hashes t db [] = (t, ([], []))
  filter_duplicate_tx_hashes t db (hash ∷ hashes) =
      let (t', processed) = is_transaction_processed t db hash in
      let (t'', (unprocessed, duplicates)) = filter_duplicate_tx_hashes t' db hashes in
      (
        t'',
        if processed then (unprocessed, hash ∷ duplicates) else (hash ∷ unprocessed, duplicates),
      )

  module _ (rt : Runtime P) {E : Type 0} where
    unfoldable pub track_ledger_sequence :
        IdempotencyTracker
        → Database P D
        → ℕ
        → ℕ
        → ℕ
        → Option String
        → ℕ
        → IdempotencyTracker × Database P D × Answer (ProcessedRecord P) (Failure E)
    track_ledger_sequence t db sequence tx_count op_count checksum now =
        mark_processed rt t db "ledger" (ledger_key sequence) sequence
          (opts_of (some tx_count) (some op_count) checksum) now

    unfoldable pub mark_transaction_processed :
        IdempotencyTracker
        → Database P D
        → String
        → ℕ
        → ℕ
        → IdempotencyTracker × Database P D × Answer (ProcessedRecord P) (Failure E)
    mark_transaction_processed t db tx_hash sequence now =
        mark_processed rt t db "tx" (build_tx_key tx_hash) sequence
          (record (opts_of none none none) { metadata = some (sequence_metadata sequence) }) now

  unfoldable pub with_ledger_idempotency :
      {T E : Type 0}
      → Runtime P
      → IdempotencyTracker
      → Database P D
      → ℕ
      → (D → Answer (T × D) E)
      → Option ℕ
      → Option ℕ
      → Option String
      → ℕ
      → IdempotencyTracker × Database P D × Answer Bool (Failure E)
  unfolding was_executed
  with_ledger_idempotency rt t db sequence work tx_count op_count checksum now =
      let x =
        with_idempotency rt t db "ledger" (ledger_key sequence) sequence work
          (opts_of tx_count op_count checksum) now in
      (x.0, x.1, was_executed x.2)

-- Different ledgers have different keys.
pub ledger_key_injective : (a b : ℕ) → ledger_key a ≡ ledger_key b → a ≡ b
unfolding ledger_key
ledger_key_injective a b e = decimal_injective a b (append_cancel "ledger:" _ _ e)
