-- ===== src/Ingest/Examples.antt =====
-- Runs of processLedger of indexer-service.ts, and its theorems at concrete inputs.
use stellar_analytics_dashbo.Prelude.{
  ℕ, All, ◌≡◌, ◌≢◌, ◌⊎◌, refl, true, false, none, some, [], ◌∷◌, if◌then◌else◌,
}
use stellar_analytics_dashbo.Prelude.Text.{str_eq}
use stellar_analytics_dashbo.Prelude.Decimal.{decimal}
use stellar_analytics_dashbo.DeadLetter.{absent}
use stellar_analytics_dashbo.Idempotency.{skip, Runtime}
use stellar_analytics_dashbo.Idempotency.Records.{exists_record}
use stellar_analytics_dashbo.Idempotency.Tracker.{
  should_skip, is_processed, mark_processed, mark_processed_with_client,
}
use stellar_analytics_dashbo.Idempotency.Tracking.{
  build_tx_key, mark_transaction_processed, filter_duplicate_tx_hashes, is_transaction_processed,
}
use stellar_analytics_dashbo.Idempotency.Cache.{IsCoherent}
use stellar_analytics_dashbo.Idempotency.Reads.{is_recorded}
use stellar_analytics_dashbo.Ingest.{
  Ledger, Calls, State, hashes, circuit_open, insert_ledger, process_transactions,
  process_transactions_for_ledger, finish_ledger, process_ledger,
}
use stellar_analytics_dashbo.Ingest.Keys.{process_ledger-skip}
use stellar_analytics_dashbo.Ingest.Loss.{stores, process_ledger-stores, process_ledger-is_recorded}
use stellar_analytics_dashbo.Ingest.Commit.{is_stored, IsComplete, process_ledger-is_stored}

abbrev runtime : Runtime ℕ
runtime = record { char_codes = λ p. p ∷ []; hex = λ n. "00000000" }

-- Horizon has two transactions, and the operations of the second one fail.
abbrev failing : Calls
failing = record {
  get_transactions_for_ledger = λ n. hashes ("aa" ∷ "bb" ∷ []);
  process_operations = λ h. if str_eq h "bb" then some "timeout" else none;
  update_network_metrics = λ l. none;
}

abbrev idle : Calls
idle = record failing { get_transactions_for_ledger = λ n. circuit_open }

abbrev fresh : State ℕ
fresh = record {
  idempotency = record {
    processed_cache = [];
    sequence_to_key_map = [];
    initialized = true;
    warm_cache_size = 10;
    retention_days = 0;
    default_strategy = skip;
  };
  db = record {
    records = [];
    tables = record { ledgers = 6 ∷ []; transactions = [] };
    accepts_upsert = true;
  };
  dlq = record {
    failed_ledgers = [];
    max_retries = 5;
    base_delay_ms = 1000;
    persist_enabled = false;
    state_file = absent;
    dlq_file = [];
  };
}

-- Ledger 100 has five transactions.
abbrev hundred : Ledger
hundred = record {
  sequence = 100;
  successful_transaction_count = 3;
  failed_transaction_count = 2;
  operation_count = 9;
}

abbrev five : Ledger
five = record hundred { sequence = 5 }

not_skipped : (should_skip fresh.idempotency fresh.db (decimal 100)).1 ≡ false
unfolding should_skip is_processed exists_record
not_skipped = refl

ends : (process_ledger runtime idle fresh hundred 1).1 ≡ none
unfolding process_ledger process_transactions_for_ledger finish_ledger mark_processed
    mark_processed_with_client should_skip is_processed exists_record
ends = refl

process_ledger-skip_example :
    let s' = (process_ledger runtime idle fresh hundred 1).0 in
    ((process_ledger runtime idle s' five 2).0.db ≡ s'.db)
    × ((process_ledger runtime idle s' five 2).1 ≡ none)
process_ledger-skip_example =
    process_ledger-skip runtime idle fresh hundred five 1 2 not_skipped ends refl

fresh-IsCoherent : IsCoherent fresh.idempotency fresh.db.records
fresh-IsCoherent key h = cc

fails :
    let (t, _) = should_skip fresh.idempotency fresh.db (decimal 100) in
    let begun = record fresh.db { tables = insert_ledger 100 fresh.db.tables } in
    (process_transactions_for_ledger runtime failing t begun 100 1).2 ≡ some "timeout"
unfolding process_transactions_for_ledger process_transactions filter_duplicate_tx_hashes
    is_transaction_processed is_processed exists_record mark_transaction_processed mark_processed
    mark_processed_with_client should_skip
fails = refl

new : is_recorded fresh.db "aa" ≡ false
unfolding exists_record
new = refl

process_ledger-is_recorded_example :
    let (s', answer) = process_ledger runtime failing fresh hundred 1 in
    (answer ≡ some "timeout") × (s'.db.tables ≡ fresh.db.tables) × (is_recorded s'.db "aa" ≡ true)
process_ledger-is_recorded_example =
    process_ledger-is_recorded runtime failing fresh hundred 1 "aa" ("bb" ∷ []) "timeout"
      fresh-IsCoherent not_skipped new refl refl fails

-- The transaction "aa" is recorded, but not stored.
abbrev lost : State ℕ
lost = record fresh {
  db = record fresh.db {
    records =
        record {
          id = record { entity_type = "tx"; entity_key = "tx:aa"; timestamp = 1 };
          entity_type = "tx";
          entity_key = "tx:aa";
          sequence = 100;
          processed_at = 1;
          tx_count = 0;
          op_count = 0;
          checksum = none;
          payload = none;
          metadata = "{}";
          strategy = skip;
          attempts = 1;
          last_error = none;
        }
        ∷ [];
  };
}

lost_recorded : is_recorded lost.db "aa" ≡ true
unfolding exists_record build_tx_key
lost_recorded = refl

lost-IsCoherent : IsCoherent lost.idempotency lost.db.records
lost-IsCoherent key h = cc

process_ledger-stores_example :
    stores (process_ledger runtime failing lost hundred 9).0 "aa" ≡ stores lost "aa"
process_ledger-stores_example =
    process_ledger-stores runtime failing lost hundred 9 "aa" lost-IsCoherent lost_recorded

process_ledger-is_stored_example :
    let (s', answer) = process_ledger runtime failing fresh hundred 1 in
    ((s'.db.tables ≡ fresh.db.tables)
      × ((answer ≢ none) ⊎ ((should_skip fresh.idempotency fresh.db (decimal 100)).1 ≡ true)))
    ⊎ ((is_stored s' 100 ≡ true) × All (IsComplete fresh.db s'.db.tables) ("aa" ∷ "bb" ∷ []))
process_ledger-is_stored_example =
    process_ledger-is_stored runtime failing fresh hundred 1 fresh-IsCoherent
