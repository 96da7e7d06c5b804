-- ===== src/Idempotency/Tracker.antt =====
-- The class of IdempotencyTracker.ts and the wrappers LedgerTracking and TransactionTracking. Each
-- operation is one step: withIdempotency holds the advisory lock of its key from its first query to the
-- end of its transaction. NOW() and Date.now() are one clock, an argument. The queries succeed, save
-- the upsert, and the work of a caller touches no row of idempotency_records.
use stellar_analytics_dashbo.Prelude.{
  ℕ, ◌-◌, Bool, true, false, not, Option, none, some, List, [], ◌∷◌, ◌++◌, String, if◌then◌else◌,
  ltb, ◌==◌, any, filter, length, or_default,
}
use stellar_analytics_dashbo.Prelude.Text.{str_eq}
use stellar_analytics_dashbo.Idempotency.{
  ConflictResolutionStrategy, skip, merge, update_latest, dual_state, ProcessedRecord, WriteOptions,
  Runtime, IdempotencyOptions, IdempotencyTracker, Database,
}
use stellar_analytics_dashbo.Idempotency.Records.{
  select_record, exists_record, last_sequence, count_sequences, most_recent, delete_record,
  delete_older, new_record, upsert,
}

-- A call that returns, or one that throws.
pub data Answer (A E : Type 0) : Type 0 where
  returned : A → Answer A E
  thrown : E → Answer A E

-- What a failing call throws: the work's own error, or the database's.
pub data Failure (E : Type 0) : Type 0 where
  work_failed : E → Failure E
  upsert_rejected : Failure E

-- { executed, result, record }.
pub data Result (P T : Type 0) : Type 0 where
  executed : T → ProcessedRecord P → Result P T
  skipped : Option (ProcessedRecord P) → Result P T

abbrev pub has : List String → String → Bool
has keys key = any (λ k. str_eq k key) keys

-- Set.add, Set.delete and Map.set.
unfoldable pub add_key : String → List String → List String
add_key key keys = if has keys key then keys else keys ++ key ∷ []

unfoldable pub delete_key : String → List String → List String
delete_key key = filter (λ k. not (str_eq k key))

unfoldable pub set_sequence : ℕ → String → List (ℕ × String) → List (ℕ × String)
set_sequence sequence key entries = (sequence, key) ∷ filter (λ e. not (e.0 == sequence)) entries

unfoldable pub new : IdempotencyOptions → IdempotencyTracker
new o = record {
  processed_cache = [];
  sequence_to_key_map = [];
  initialized = false;
  warm_cache_size = or_default o.warm_cache_size 10000;
  retention_days = or_default o.retention_days 0;
  default_strategy = or_default o.default_strategy skip;
}

abbrev pub cache_key : String → IdempotencyTracker → IdempotencyTracker
cache_key key t = record t { processed_cache = add_key key t.processed_cache }

abbrev pub cache_record : ℕ → String → IdempotencyTracker → IdempotencyTracker
cache_record sequence key t = record (cache_key key t) {
  sequence_to_key_map = set_sequence sequence key t.sequence_to_key_map;
}

-- `Set.clear` and `Map.clear`.
unfoldable pub clear_cache : IdempotencyTracker → IdempotencyTracker
clear_cache t = record t { processed_cache = []; sequence_to_key_map = [] }

unfoldable pub evict_from_cache : IdempotencyTracker → String → IdempotencyTracker
evict_from_cache t key = record t { processed_cache = delete_key key t.processed_cache }

unfoldable pub cache_size : IdempotencyTracker → ℕ
cache_size t = length t.processed_cache

module _ {P : Type 0} where
  unfoldable pub warm : List (ProcessedRecord P) → IdempotencyTracker → IdempotencyTracker
  warm [] t = t
  warm (r ∷ rows) t = warm rows (cache_record r.sequence r.entity_key t)

  unfoldable pub resolve_conflict :
      ProcessedRecord P → ConflictResolutionStrategy → WriteOptions P → Bool
  resolve_conflict existing skip opts = false
  resolve_conflict existing update_latest opts = elim opts.payload [
    | none ↦ false
    | some p ↦ elim opts.checksum [
      | none ↦ false
      | some given ↦
          if str_eq given ""
          then false
          else elim existing.checksum [ none ↦ true | some old ↦ not (str_eq given old) ]
    ]
  ]
  resolve_conflict existing merge opts = true
  resolve_conflict existing dual_state opts = true

module _ {P D : Type 0} where
  unfoldable pub initialize : IdempotencyTracker → Database P D → IdempotencyTracker
  initialize t db =
      if t.initialized
      then t
      else record (warm (most_recent t.warm_cache_size db.records) t) { initialized = true }

  unfoldable pub is_processed :
      IdempotencyTracker → Database P D → String → IdempotencyTracker × Bool
  is_processed t db key =
      if has t.processed_cache key
      then (t, true)
      else let exists = exists_record key db.records in
        (if exists then cache_key key t else t, exists)

  -- `getRecord` and `getRecordWithClient`.
  unfoldable pub get_record : Database P D → String → Option (ProcessedRecord P)
  get_record db key = select_record key db.records

  unfoldable pub get_last_processed_sequence : Database P D → Option ℕ
  get_last_processed_sequence db = last_sequence db.records

  unfoldable pub count_in_range : Database P D → ℕ → ℕ → ℕ
  count_in_range db from to = count_sequences from to db.records

  unfoldable pub should_skip :
      IdempotencyTracker → Database P D → String → IdempotencyTracker × Bool
  should_skip = is_processed

  unfoldable pub unmark :
      IdempotencyTracker → Database P D → String → IdempotencyTracker × Database P D
  unmark t db key = (evict_from_cache t key, record db { records = delete_record key db.records })

  -- `deleted` is the rowCount of the DELETE.
  unfoldable pub cleanup :
      IdempotencyTracker → Database P D → ℕ → IdempotencyTracker × Database P D × ℕ
  cleanup t db now =
      if t.retention_days == 0
      then (t, db, 0)
      else let kept = delete_older t.retention_days now db.records in
        let deleted = length db.records - length kept in
        (
          if ltb 0 deleted then record (clear_cache t) { initialized = false } else t,
          record db { records = kept },
          deleted,
        )

module _ {P D : Type 0} (rt : Runtime P) where
  -- `markProcessedWithClient`: none where the database rejects the statement.
  unfoldable pub mark_processed_with_client :
      IdempotencyTracker
      → Database P D
      → String
      → String
      → ℕ
      → WriteOptions P
      → ℕ
      → Option (Database P D × ProcessedRecord P)
  mark_processed_with_client t db entity_type key sequence opts now =
      let new = new_record rt t.default_strategy entity_type key sequence opts now in
      let (rows, record_result) = upsert new db.records in
      if db.accepts_upsert then some (record db { records = rows }, record_result) else none

  unfoldable pub mark_processed :
      {E : Type 0}
      → IdempotencyTracker
      → Database P D
      → String
      → String
      → ℕ
      → WriteOptions P
      → ℕ
      → IdempotencyTracker × Database P D × Answer (ProcessedRecord P) (Failure E)
  mark_processed t db entity_type key sequence opts now =
      elim (mark_processed_with_client t db entity_type key sequence opts now) [
        | none ↦ (t, db, thrown upsert_rejected)
        | some (db', r) ↦ (cache_record sequence key t, db', returned r)
      ]

  module _ {T E : Type 0} where
    -- Steps 4 and 5 of withIdempotency, and its ROLLBACK where one of them throws.
    unfoldable pub execute_work :
        IdempotencyTracker
        → Database P D
        → String
        → String
        → ℕ
        → (D → Answer (T × D) E)
        → WriteOptions P
        → ℕ
        → IdempotencyTracker × Database P D × Answer (Result P T) (Failure E)
    execute_work t db entity_type key sequence work opts now = elim (work db.tables) [
      | thrown e ↦ (t, db, thrown (work_failed e))
      | returned (result, tables) ↦
          let begun = record db { tables = tables } in
          elim (mark_processed_with_client t begun entity_type key sequence opts now) [
            | none ↦ (t, db, thrown upsert_rejected)
            | some (db', r) ↦ (cache_record sequence key t, db', returned (executed result r))
          ]
    ]

    unfoldable pub with_idempotency :
        IdempotencyTracker
        → Database P D
        → String
        → String
        → ℕ
        → (D → Answer (T × D) E)
        → WriteOptions P
        → ℕ
        → IdempotencyTracker × Database P D × Answer (Result P T) (Failure E)
    with_idempotency t db entity_type key sequence work opts now =
        if has t.processed_cache key
        then (t, db, returned (skipped (get_record db key)))
        else elim (get_record db key) [
          | none ↦ execute_work t db entity_type key sequence work opts now
          | some existing ↦
              if resolve_conflict existing (or_default opts.strategy t.default_strategy) opts
              then execute_work t db entity_type key sequence work opts now
              else (cache_key key t, db, returned (skipped (some existing)))
        ]
