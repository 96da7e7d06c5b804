-- ===== src/Idempotency/Examples.antt =====
-- Runs of IdempotencyTracker.ts, and its theorems at concrete inputs.
use stellar_analytics_dashbo.Prelude.{
  ℕ, ◌+◌, ◌≡◌, refl, true, false, none, some, List, [], ◌∷◌, String, arith,
}
use stellar_analytics_dashbo.Idempotency.{
  skip, merge, update_latest, ProcessedRecord, WriteOptions, Runtime, IdempotencyTracker, Database,
}
use stellar_analytics_dashbo.Idempotency.Records.{
  exists_record, select_record, new_record, attempted, upsert, last_sequence,
}
use stellar_analytics_dashbo.Idempotency.Tracker.{
  Answer, returned, executed, resolve_conflict, get_record, is_processed, with_idempotency,
  execute_work, mark_processed_with_client, add_key, set_sequence, get_last_processed_sequence,
}
use stellar_analytics_dashbo.Idempotency.Cache.{IsCoherent}
use stellar_analytics_dashbo.Idempotency.Coherence.{
  initializes, checks, works, unmarks, run, run-IsCoherent, Op,
}
use stellar_analytics_dashbo.Idempotency.Outcome.{Outcome, with_idempotency-Outcome}
use stellar_analytics_dashbo.Idempotency.ExactlyOnce.{Call, calls, executed_once}
use stellar_analytics_dashbo.Idempotency.Attempts.{Mark}
use stellar_analytics_dashbo.Idempotency.Reads.{is_processed-exists_record}

-- Payloads are numbers, and the other tables are one number.
abbrev runtime : Runtime ℕ
runtime = record { char_codes = λ p. p ∷ []; hex = λ n. "00000000" }

abbrev tracker : IdempotencyTracker
tracker = record {
  processed_cache = [];
  sequence_to_key_map = [];
  initialized = false;
  warm_cache_size = 10;
  retention_days = 0;
  default_strategy = skip;
}

abbrev opts : WriteOptions ℕ
opts = record {
  tx_count = none;
  op_count = none;
  checksum = some "cafe";
  metadata = none;
  strategy = none;
  payload = some 4;
}

abbrev database : Database ℕ ℕ
database = record { records = []; tables = 40; accepts_upsert = true }

abbrev row : ProcessedRecord ℕ
row = record {
  id = record { entity_type = "ledger"; entity_key = "ledger:7"; timestamp = 9 };
  entity_type = "ledger";
  entity_key = "ledger:7";
  sequence = 7;
  processed_at = 9;
  tx_count = 0;
  op_count = 0;
  checksum = some "cafe";
  payload = some 4;
  metadata = "{}";
  strategy = skip;
  attempts = 1;
  last_error = none;
}

abbrev after : Database ℕ ℕ
after = record database { records = row ∷ []; tables = 41 }

abbrev cached : IdempotencyTracker
cached = record tracker {
  processed_cache = "ledger:7" ∷ [];
  sequence_to_key_map = (7, "ledger:7") ∷ [];
}

-- Work that counts in the tables, and answers what it found there.
abbrev work : ℕ → Answer (ℕ × ℕ) String
work n = returned (n, n + 1)

executes :
    with_idempotency runtime tracker database "ledger" "ledger:7" 7 work opts 9
    ≡ (cached, after, returned (executed 40 row))
unfolding with_idempotency execute_work mark_processed_with_client upsert new_record get_record
    select_record add_key set_sequence
executes = refl

abbrev seven : ℕ
seven = 7

with_idempotency-Outcome_example :
    let (t', db', answer) =
      with_idempotency runtime tracker database "ledger" "ledger:7" 7 work opts 9 in
    Outcome tracker database "ledger" "ledger:7" work t' db' answer
with_idempotency-Outcome_example =
    with_idempotency-Outcome runtime tracker database "ledger" "ledger:7" 7 work opts 9

abbrev replay : Call ℕ ℕ ℕ String
replay = record {
  tracker = tracker;
  entity_type = "ledger";
  sequence = 7;
  work = work;
  opts = opts;
  now = 99;
}

executed_once_example : calls runtime "ledger:7" after (replay ∷ replay ∷ []) ≡ after
executed_once_example =
    executed_once runtime "ledger:7" tracker cached database after "ledger" 7 work opts 9 40 row
      (replay ∷ replay ∷ []) executes (refl, (refl, tt))

abbrev merging : WriteOptions ℕ
merging = record opts { strategy = some merge }

abbrev twice : List (Mark ℕ)
twice =
    record { sequence = 7; opts = opts; now = 10 }
    ∷ record { sequence = 8; opts = opts; now = 11 }
    ∷ []

abbrev rejecting : Database ℕ ℕ
rejecting = record database { accepts_upsert = false }

-- The same key again with another checksum, by a tracker that has not cached it.
abbrev changed : WriteOptions ℕ
changed = record opts { checksum = some "beef"; strategy = some update_latest }

abbrev later : Database ℕ ℕ
later = record after { records = attempted row ∷ []; tables = 42 }

executes_again :
    with_idempotency runtime tracker after "ledger" "ledger:7" 7 work changed 99
    ≡ (cached, later, returned (executed 41 (attempted row)))
unfolding with_idempotency execute_work mark_processed_with_client upsert new_record get_record
    select_record add_key set_sequence resolve_conflict
executes_again = refl

cached-IsCoherent : IsCoherent cached after.records
unfolding exists_record
cached-IsCoherent key h = ground arith

abbrev ops : List (Op ℕ ℕ ℕ String)
ops =
    initializes
    ∷ checks "ledger:8"
    ∷ works "ledger" "ledger:8" 8 work opts 50
    ∷ unmarks "ledger:7"
    ∷ []

run-IsCoherent_example : let x = run runtime (cached, after) ops in IsCoherent x.0 x.1.records
run-IsCoherent_example = run-IsCoherent runtime cached after ops cached-IsCoherent

is_processed-exists_record_example :
    (is_processed cached after "ledger:7").1 ≡ exists_record "ledger:7" after.records
is_processed-exists_record_example =
    is_processed-exists_record cached after "ledger:7" cached-IsCoherent

abbrev hashes : List String
hashes = "aa" ∷ "bb" ∷ "aa" ∷ []

last_known : get_last_processed_sequence after ≡ some 7
unfolding get_last_processed_sequence last_sequence
last_known = refl
