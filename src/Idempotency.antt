-- ===== src/Idempotency.antt =====
-- packages/indexer/src/idempotency/IdempotencyTracker.ts: the records and the tracker's own state (here),
-- its keys (Keys), the queries on idempotency_records (Records), its operations (Tracker).
pub mod Keys
pub mod Records
pub mod Tracker
pub mod Tracking
pub mod Execution
pub mod Outcome
pub mod Cache
pub mod Coherence
pub mod ExactlyOnce
pub mod Attempts
pub mod Reads
mod Examples
use stellar_analytics_dashbo.Prelude.{ℕ, Bool, Option, List, String}

pub data ConflictResolutionStrategy : Type 0 where
  skip merge update_latest dual_state : ConflictResolutionStrategy

-- The text of a record's id is made of these three.
pub record RecordId : Type 0 where
  pub entity_type : String
  pub entity_key : String
  pub timestamp : ℕ

-- P is the type of the payloads that are not falsy. Metadata is its JSON text.
pub record ProcessedRecord (P : Type 0) : Type 0 where
  pub id : RecordId
  pub entity_type : String
  pub entity_key : String
  pub sequence : ℕ
  pub processed_at : ℕ
  pub tx_count : ℕ
  pub op_count : ℕ
  pub checksum : Option String
  pub payload : Option P
  pub metadata : String
  pub strategy : ConflictResolutionStrategy
  pub attempts : ℕ
  pub last_error : Option String

pub record IdempotencyOptions : Type 0 where
  pub warm_cache_size : Option ℕ
  pub retention_days : Option ℕ
  pub default_strategy : Option ConflictResolutionStrategy

pub record WriteOptions (P : Type 0) : Type 0 where
  pub tx_count : Option ℕ
  pub op_count : Option ℕ
  pub checksum : Option String
  pub metadata : Option String
  pub strategy : Option ConflictResolutionStrategy
  pub payload : Option P

pub record IdempotencyTracker : Type 0 where
  pub processed_cache : List String
  pub sequence_to_key_map : List (ℕ × String)
  pub initialized : Bool
  pub warm_cache_size : ℕ
  pub retention_days : ℕ
  pub default_strategy : ConflictResolutionStrategy

-- What JavaScript gives of a payload and of a number: the char codes of JSON.stringify with the sorted
-- keys, and toString(16) padded to eight digits.
pub record Runtime (P : Type 0) : Type 0 where
  pub char_codes : P → List ℕ
  pub hex : ℕ → String

-- The database: the rows of idempotency_records, the other tables (D), and whether it accepts the
-- statement of `markProcessed`. PostgreSQL rejects it, as the column `attempts` is ambiguous there.
pub record Database (P D : Type 0) : Type 0 where
  pub records : List (ProcessedRecord P)
  pub tables : D
  pub accepts_upsert : Bool
