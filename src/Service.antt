-- ===== src/Service.antt =====
-- start, stop, initializeLastProcessedLedger, startRealtimeStreaming and startBackfill of
-- packages/indexer/src/services/indexer-service.ts. The handler of a streamed ledger awaits
-- processLedger, so other events may come between; the machine keeps the ledgers whose processing is
-- under way. The stream is open before startBackfill begins, so its events also come between the parts of
-- start. Setting up the tracker and waiting for the rate limiter are left out.
pub mod Streaming
pub mod Startup
mod Examples
use stellar_analytics_dashbo.Prelude.{
  ℕ, zero, suc, ◌+◌, ◌-◌, ◌*◌, ◌^◌, Bool, true, false, Option, none, some, List, [], ◌∷◌, ltb, leb,
  ◌==◌, if◌then◌else◌, any, min,
}
use stellar_analytics_dashbo.Backfill.Checkpoint.{
  BackfillJob, BackfillCheckpointManager, Table, new, find_resumable_job,
}
use stellar_analytics_dashbo.Backfill.Run.{truthy}
use stellar_analytics_dashbo.Idempotency.{Database}
use stellar_analytics_dashbo.Idempotency.Tracker.{get_last_processed_sequence}

pub record IndexerService : Type 0 where
  pub is_running : Bool
  pub last_processed_ledger : ℕ
  pub websocket_reconnect_attempts : ℕ

-- INDEXER.WEBSOCKET_MAX_RECONNECT_ATTEMPTS.
abbrev pub max_reconnect_attempts : ℕ
max_reconnect_attempts = 10

-- The manager that initializeLastProcessedLedger makes.
abbrev pub realtime : BackfillCheckpointManager
realtime = record {
  job_id = "indexer-realtime";
  network = "public";
  start_sequence = 1;
  end_sequence = 2 ^ 53 - 1;
}

-- What getLatestLedger gives.
pub data Latest : Type 0 where
  sequence : ℕ → Latest
  circuit_open fetch_error : Latest

-- SELECT sequence FROM ledgers ORDER BY sequence DESC LIMIT 1.
unfoldable pub latest_ledger : List ℕ → Option ℕ
latest_ledger [] = none
latest_ledger (x ∷ xs) = elim (latest_ledger xs) [
  | none ↦ some x
  | some y ↦ some (if ltb y x then x else y)
]

unfoldable pub from_horizon : Latest → Option ℕ
from_horizon (sequence n) = some (n - 1)
from_horizon circuit_open = none
from_horizon fetch_error = none

abbrev pub last_of_job : Option BackfillJob → Option ℕ
last_of_job none = none
last_of_job (some j) = truthy j.last_processed_sequence

abbrev pub or_try : Option ℕ → Option ℕ → Option ℕ
or_try none next = next
or_try (some n) next = some n

-- The last processed ledger, or an error: of a job in progress, else of the idempotency records, else of
-- the ledgers, else the one before Horizon's latest.
unfoldable pub initialize_last_processed_ledger :
    {P D : Type 0} → Table → Database P D → List ℕ → Latest → Option ℕ
unfolding from_horizon
initialize_last_processed_ledger checkpoints db ledgers latest =
    or_try (last_of_job (find_resumable_job realtime checkpoints)) (
      or_try (get_last_processed_sequence db)
        (or_try (latest_ledger ledgers) (from_horizon latest)))

-- The ranges that startBackfill backfills; `none` is an error.
unfoldable pub start_backfill : IndexerService → Latest → Option (Option (ℕ × ℕ))
start_backfill s (sequence n) = some (
    if ltb (s.last_processed_ledger + 10) n
    then some (s.last_processed_ledger + 1, n - 10)
    else none)
start_backfill s circuit_open = some none
start_backfill s fetch_error = none

unfoldable pub stop : IndexerService → IndexerService
stop s = record s { is_running = false }

-- The stream: ledgers under way, timers set for a reconnection, and streams opened.
pub record Realtime : Type 0 where
  pub service : IndexerService
  pub processing : List ℕ
  pub timers : List ℕ
  pub streams : ℕ

pub data Event : Type 0 where
  message : ℕ → Event
  processed : ℕ → Event
  process_fails : ℕ → Event
  stream_error : Event
  timer_fires : ℕ → Event
  stops : Event

abbrev pub is_in : List ℕ → ℕ → Bool
is_in xs x = any (λ y. y == x) xs

unfoldable pub drop_one : ℕ → List ℕ → List ℕ
drop_one x [] = []
drop_one x (y ∷ ys) = if y == x then ys else y ∷ drop_one x ys

abbrev pub connected : IndexerService → IndexerService
connected s = record s { websocket_reconnect_attempts = 0 }

-- The handler up to `await this.processLedger(ledger)`.
unfoldable pub on_message : ℕ → Realtime → Realtime
on_message n r =
    if ltb r.service.last_processed_ledger n
    then record r { processing = n ∷ r.processing }
    else record r { service = connected r.service }

-- The rest of the handler.
unfoldable pub on_processed : ℕ → Realtime → Realtime
on_processed n r =
    if is_in r.processing n
    then record r {
      service = connected (record r.service { last_processed_ledger = n });
      processing = drop_one n r.processing;
    }
    else r

unfoldable pub reconnect_delay : ℕ → ℕ
reconnect_delay attempts = min (1000 * 2 ^ attempts) 30000

unfoldable pub on_error : Realtime → Realtime
on_error r =
    let attempts = suc r.service.websocket_reconnect_attempts in
    let r' = record r { service = record r.service { websocket_reconnect_attempts = attempts } } in
    if ltb max_reconnect_attempts attempts
    then r'
    else record r' { timers = reconnect_delay attempts ∷ r'.timers }

unfoldable pub on_timer : ℕ → Realtime → Realtime
on_timer delay r =
    let r' = record r { timers = drop_one delay r.timers } in
    if is_in r.timers delay
    then (if r.service.is_running then record r' { streams = suc r'.streams } else r')
    else r

unfoldable pub step : Event → Realtime → Realtime
step (message n) r = on_message n r
step (processed n) r = on_processed n r
step (process_fails n) r = record r { processing = drop_one n r.processing }
step stream_error r = on_error r
step (timer_fires delay) r = on_timer delay r
step stops r = record r { service = stop r.service }

unfoldable pub run : List Event → Realtime → Realtime
run [] r = r
run (e ∷ es) r = run es (step e r)

-- What a call of start does: the service and its stream after it, the range that it backfills, and
-- whether it throws.
pub record Started : Type 0 where
  pub realtime : Realtime
  pub backfills : Option (ℕ × ℕ)
  pub threw : Bool

-- The handler of an error in start.
unfoldable pub fail : Realtime → Option (ℕ × ℕ) → Started
fail r range = record {
  realtime = record r { service = record r.service { is_running = false } };
  backfills = range;
  threw = true;
}

-- What startBackfill has found decides; `meanwhile` are the events while backfillLedgers works, and `fails`
-- tells whether it throws.
unfoldable pub after_backfill : Realtime → List Event → Bool → Option (Option (ℕ × ℕ)) → Started
after_backfill r meanwhile fails none = fail r none
after_backfill r meanwhile fails (some none) = record {
  realtime = r;
  backfills = none;
  threw = false;
}
after_backfill r meanwhile fails (some (some range)) =
    let r' = run meanwhile r in
    if fails
    then fail r' (some range)
    else record { realtime = r'; backfills = some range; threw = false }

-- The stream is open when startBackfill asks Horizon for the latest ledger, so the events `before` its
-- answer move the last processed ledger.
unfoldable pub after_initialize :
    Realtime → List Event → List Event → Latest → Bool → Option ℕ → Started
unfolding after_backfill fail
after_initialize r before meanwhile latest fails none = fail r none
after_initialize r before meanwhile latest fails (some last) =
    let opened : Realtime = record r {
      service = record r.service { last_processed_ledger = last };
      streams = suc r.streams;
    } in
    let r' = run before opened in
    after_backfill r' meanwhile fails (start_backfill r'.service latest)

-- Horizon is asked for its latest ledger once in initializeLastProcessedLedger, if at all, and once in
-- startBackfill.
unfoldable pub start :
    {P D : Type 0}
    → Realtime
    → Table
    → Database P D
    → List ℕ
    → Latest
    → List Event
    → Latest
    → List Event
    → Bool
    → Started
unfolding after_initialize
start r checkpoints db ledgers latest before latest' meanwhile fails =
    if r.service.is_running
    then record { realtime = r; backfills = none; threw = false }
    else after_initialize (record r { service = record r.service { is_running = true } }) before
        meanwhile latest' fails (initialize_last_processed_ledger checkpoints db ledgers latest)
