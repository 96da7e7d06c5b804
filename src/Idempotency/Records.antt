-- ===== src/Idempotency/Records.antt =====
-- The queries on idempotency_records that IdempotencyTracker.ts makes. A table is the list of its rows
-- in the order in which a query without ORDER BY returns them. `updated_at` is never read.
use stellar_analytics_dashbo.Prelude.{
  ℕ, ◌+◌, ◌*◌, Bool, ◌&&◌, not, Option, none, some, List, [], ◌∷◌, String, if◌then◌else◌, map, leb,
  find, any, filter, or_default, take,
}
use stellar_analytics_dashbo.Prelude.Text.{str_eq}
use stellar_analytics_dashbo.Prelude.Sort.{sort}
use stellar_analytics_dashbo.Gaps.Table.{greatest, count_range}
use stellar_analytics_dashbo.Idempotency.{
  ConflictResolutionStrategy, ProcessedRecord, WriteOptions, Runtime,
}
use stellar_analytics_dashbo.Idempotency.Keys.{compute_checksum}

module _ {P : Type 0} where
  abbrev pub has_key : String → ProcessedRecord P → Bool
  has_key entity_key r = str_eq r.entity_key entity_key

  abbrev pub is_row : String → String → ProcessedRecord P → Bool
  is_row entity_type entity_key r = str_eq r.entity_type entity_type && has_key entity_key r

  -- SELECT … WHERE entity_key = $1, of which the code takes the first row.
  unfoldable pub select_record : String → List (ProcessedRecord P) → Option (ProcessedRecord P)
  select_record entity_key = find (has_key entity_key)

  -- SELECT EXISTS(SELECT 1 … WHERE entity_key = $1).
  unfoldable pub exists_record : String → List (ProcessedRecord P) → Bool
  exists_record entity_key = any (has_key entity_key)

  -- SELECT sequence … ORDER BY sequence DESC LIMIT 1.
  unfoldable pub last_sequence : List (ProcessedRecord P) → Option ℕ
  last_sequence records = greatest (map (λ r. r.sequence) records)

  -- SELECT COUNT(*) … WHERE sequence >= $1 AND sequence <= $2.
  unfoldable pub count_sequences : ℕ → ℕ → List (ProcessedRecord P) → ℕ
  count_sequences from to records = count_range from to (map (λ r. r.sequence) records)

  -- SELECT … ORDER BY processed_at DESC LIMIT $1.
  unfoldable pub most_recent : ℕ → List (ProcessedRecord P) → List (ProcessedRecord P)
  most_recent limit records = take limit (sort (λ a b. leb b.processed_at a.processed_at) records)

  -- DELETE … WHERE entity_key = $1.
  unfoldable pub delete_record : String → List (ProcessedRecord P) → List (ProcessedRecord P)
  delete_record entity_key = filter (λ r. not (has_key entity_key r))

  -- DELETE … WHERE processed_at < NOW() - days.
  unfoldable pub delete_older : ℕ → ℕ → List (ProcessedRecord P) → List (ProcessedRecord P)
  delete_older days now = filter (λ r. leb now (r.processed_at + days * 86400000))

  -- The VALUES of the INSERT.
  unfoldable pub new_record :
      Runtime P
      → ConflictResolutionStrategy
      → String
      → String
      → ℕ
      → WriteOptions P
      → ℕ
      → ProcessedRecord P
  new_record rt default_strategy entity_type entity_key sequence opts now = record {
    id = record { entity_type = entity_type; entity_key = entity_key; timestamp = now };
    entity_type = entity_type;
    entity_key = entity_key;
    sequence = sequence;
    processed_at = now;
    tx_count = or_default opts.tx_count 0;
    op_count = or_default opts.op_count 0;
    checksum = elim opts.checksum [
      | some given ↦ some given
      | none ↦ elim opts.payload [ some p ↦ some (compute_checksum rt p) | none ↦ none ]
    ];
    payload = opts.payload;
    metadata = or_default opts.metadata "{}";
    strategy = or_default opts.strategy default_strategy;
    attempts = 1;
    last_error = none;
  }

  abbrev pub attempted : ProcessedRecord P → ProcessedRecord P
  attempted r = record r { attempts = r.attempts + 1 }

  -- INSERT … ON CONFLICT (entity_type, entity_key) DO UPDATE SET attempts = attempts + 1 RETURNING ….
  unfoldable pub upsert :
      ProcessedRecord P → List (ProcessedRecord P) → List (ProcessedRecord P) × ProcessedRecord P
  upsert new [] = (new ∷ [], new)
  upsert new (r ∷ rs) =
      let (rows, returned) = upsert new rs in
      if is_row new.entity_type new.entity_key r
      then (attempted r ∷ rs, attempted r)
      else (r ∷ rows, returned)
