-- ===== src/Service/Examples.antt =====
-- Streams and starts of indexer-service.ts, and their theorems at concrete inputs.
use stellar_analytics_dashbo.Prelude.{ℕ, ◌≡◌, refl, true, false, none, [], ◌∷◌, arith}
use stellar_analytics_dashbo.Idempotency.{Database}
use stellar_analytics_dashbo.Backfill.Checkpoint.{find_resumable_job}
use stellar_analytics_dashbo.Prelude.Sort.{sort}
use stellar_analytics_dashbo.Idempotency.Tracker.{get_last_processed_sequence}
use stellar_analytics_dashbo.Idempotency.Records.{last_sequence}
use stellar_analytics_dashbo.Service.{
  IndexerService, sequence, Started, start, Realtime, message, processed, is_in, run,
  after_initialize, after_backfill, start_backfill, initialize_last_processed_ledger, step,
  on_message, on_processed, latest_ledger,
}
use stellar_analytics_dashbo.Service.Streaming.{overtaken-regresses}
use stellar_analytics_dashbo.Service.Startup.{backfilled, start-misses}

abbrev service : IndexerService
service = record { is_running = false; last_processed_ledger = 4; websocket_reconnect_attempts = 0 }

abbrev idle : Realtime
idle = record { service = service; processing = []; timers = []; streams = 1 }

overtaken-regresses_example :
    ((run (message 5 ∷ message 6 ∷ processed 6 ∷ []) idle).service.last_processed_ledger ≡ 6)
    × ((run
          (message 5 ∷ message 6 ∷ processed 6 ∷ processed 5 ∷ [])
          idle).service.last_processed_ledger
        ≡ 5)
    × (is_in
          (run (message 5 ∷ message 6 ∷ processed 6 ∷ processed 5 ∷ message 6 ∷ []) idle).processing
          6
        ≡ true)
overtaken-regresses_example = overtaken-regresses 5 6 idle refl (omega arith) (omega arith)

abbrev database : Database ℕ ℕ
database = record { records = []; tables = 0; accepts_upsert = true }

abbrev stopped : Realtime
stopped = record { service = service; processing = []; timers = []; streams = 0 }

-- Horizon is at ledger 100 when the indexer starts, with ledger 60 as the last one stored; ledger 101 comes
-- while the backfill works.
abbrev started : Started
started =
    start stopped (record { rows = []; next_id = 1 }) database (59 ∷ 60 ∷ []) (sequence 100) []
      (sequence 100) (message 101 ∷ []) false

start-misses_example :
    (backfilled started.backfills 95 ≡ false)
    × (is_in (run (processed 101 ∷ []) started.realtime).processing 95 ≡ false)
start-misses_example =
    start-misses stopped (record { rows = []; next_id = 1 }) database (59 ∷ 60 ∷ []) (sequence 100)
      100 [] (message 101 ∷ []) (processed 101 ∷ []) false 100 95 (omega arith) (omega arith)
      (omega arith) (omega arith) (omega arith) refl

-- A ledger that the stream brings before startBackfill looks leaves nothing to backfill.
overtaken_start :
    (start stopped
      (record { rows = []; next_id = 1 })
      database
      (59 ∷ 60 ∷ [])
      (sequence 100)
      (message 101 ∷ processed 101 ∷ [])
      (sequence 101)
      []
      false).backfills
    ≡ none
unfolding start after_initialize after_backfill start_backfill initialize_last_processed_ledger run
    step on_message on_processed latest_ledger find_resumable_job sort get_last_processed_sequence
    last_sequence
overtaken_start = refl
