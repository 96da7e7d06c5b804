-- ===== src/Idempotency/Execution.antt =====
-- The steps that withIdempotency of IdempotencyTracker.ts is made of: the cache, the upsert, the work.
use stellar_analytics_dashbo.Prelude.{
  ℕ, suc, ◌≡◌, refl, ◌∙◌, true, false, ◌||◌, none, some, List, [], ◌∷◌, ◌++◌, String, if◌then◌else◌,
  arith, find, length, or_default, Bool-cases, inl, inr, subst, ◌≢◌, ◌⊎◌,
}
use stellar_analytics_dashbo.Prelude.Text.{str_eq, str_eq_refl, str_eq_left, str_eq_path}
use stellar_analytics_dashbo.Idempotency.{
  ProcessedRecord, WriteOptions, Runtime, IdempotencyTracker, Database,
}
use stellar_analytics_dashbo.Idempotency.Records.{
  has_key, is_row, select_record, exists_record, new_record, attempted, upsert,
}
use stellar_analytics_dashbo.Idempotency.Tracker.{
  Answer, returned, thrown, work_failed, upsert_rejected, executed, skipped, has, add_key,
  cache_key, cache_record, get_record, resolve_conflict, mark_processed_with_client, execute_work,
  with_idempotency,
}

has-same :
    (key k : String) (keys : List String)
    → str_eq key k ≡ true
    → has keys key ≡ true
    → has keys k ≡ true
has-same key k keys same e = subst (λ x. has keys x ≡ true) (str_eq_path key k same) e

has-append :
    (key k : String) (keys : List String) → has (keys ++ key ∷ []) k ≡ (has keys k || str_eq key k)
has-append key k [] = ground arith
has-append key k (x ∷ keys) = ground (arith, has-append key k keys)

pub has-add_key :
    (key k : String) (keys : List String) → has (add_key key keys) k ≡ (has keys k || str_eq key k)
unfolding add_key
has-add_key key k keys = elim (Bool-cases (has keys key)) [
  | inl e ↦ elim (Bool-cases (str_eq key k)) [
    | inl same ↦ rw (e, has-same key k keys same e) refl
    | inr other ↦ rw (e, other) (ground arith)
  ]
  | inr e ↦ rw (e, has-append key k keys) refl
]

pub has-add_key_same : (key : String) (keys : List String) → has (add_key key keys) key ≡ true
has-add_key_same key keys = has-add_key key key keys ∙ rw (str_eq_refl key) (ground arith)

module _ {P : Type 0} where
  pub upsert-exists_record :
      (new : ProcessedRecord P) (k : String) (rs : List (ProcessedRecord P))
      → exists_record k (upsert new rs).0 ≡ (exists_record k rs || has_key k new)
  unfolding upsert exists_record
  upsert-exists_record new k [] = ground arith
  upsert-exists_record new k (r ∷ rs) =
      ground (arith, upsert-exists_record new k rs, str_eq_left r.entity_key new.entity_key k)

  -- The row that the upsert returns is the row of the type and key.
  pub upsert-find :
      (new : ProcessedRecord P) (rs : List (ProcessedRecord P))
      → find (is_row new.entity_type new.entity_key) (upsert new rs).0 ≡ some (upsert new rs).1
  unfolding upsert
  upsert-find new [] = rw (str_eq_refl new.entity_type, str_eq_refl new.entity_key) refl
  upsert-find new (r ∷ rs) = ground (arith, upsert-find new rs)

  pub upsert-own :
      (new : ProcessedRecord P) (rs : List (ProcessedRecord P))
      → exists_record new.entity_key (upsert new rs).0 ≡ true
  upsert-own new rs =
      upsert-exists_record new new.entity_key rs ∙ rw (str_eq_refl new.entity_key) (ground arith)

  -- A row that was there is kept, with one attempt more.
  pub upsert-kept :
      (new old : ProcessedRecord P) (rs : List (ProcessedRecord P))
      → find (is_row new.entity_type new.entity_key) rs ≡ some old
      → ((upsert new rs).1 ≡ attempted old) × (length (upsert new rs).0 ≡ length rs)
  unfolding upsert
  upsert-kept new old [] e = cc
  upsert-kept new old (r ∷ rs) e = ground (arith, upsert-kept new old rs)

  pub upsert-added :
      (new : ProcessedRecord P) (rs : List (ProcessedRecord P))
      → find (is_row new.entity_type new.entity_key) rs ≡ none
      → ((upsert new rs).1 ≡ new) × (length (upsert new rs).0 ≡ suc (length rs))
  unfolding upsert
  upsert-added new [] e = (refl, refl)
  upsert-added new (r ∷ rs) e = ground (arith, upsert-added new rs)

  pub select_none :
      (k : String) (rs : List (ProcessedRecord P))
      → select_record k rs ≡ none
      → exists_record k rs ≡ false
  unfolding select_record exists_record
  select_none k [] e = refl
  select_none k (r ∷ rs) e = ground (arith, select_none k rs)

  pub select_some :
      (k : String) (rs : List (ProcessedRecord P)) (x : ProcessedRecord P)
      → select_record k rs ≡ some x
      → exists_record k rs ≡ true
  unfolding select_record exists_record
  select_some k [] x e = cc
  select_some k (r ∷ rs) x e = ground (arith, select_some k rs x)

  pub select_exists :
      (k : String) (rs : List (ProcessedRecord P))
      → exists_record k rs ≡ true
      → select_record k rs ≢ none
  select_exists k rs e n = ground (arith, select_none k rs n)

pub work-cases :
    {A E : Type 0} (a : Answer A E) → ((e : E) × (a ≡ thrown e)) ⊎ ((r : A) × (a ≡ returned r))
work-cases (thrown e) = inl (e, refl)
work-cases (returned r) = inr (r, refl)

module _ {P D T E : Type 0} where
  module _ (rt : Runtime P) where
    pub execute_thrown :
        (t : IdempotencyTracker) (db : Database P D) (ty key : String) (sequence : ℕ)
        (work : D → Answer (T × D) E) (opts : WriteOptions P) (now : ℕ) (e : E)
        → work db.tables ≡ thrown e
        → execute_work rt t db ty key sequence work opts now ≡ (t, db, thrown (work_failed e))
    unfolding execute_work
    execute_thrown t db ty key sequence work opts now e is = rw (is, execute_work) refl

    pub execute_rejected :
        (t : IdempotencyTracker) (db : Database P D) (ty key : String) (sequence : ℕ)
        (work : D → Answer (T × D) E) (opts : WriteOptions P) (now : ℕ) (r : T × D)
        → work db.tables ≡ returned r
        → db.accepts_upsert ≡ false
        → execute_work rt t db ty key sequence work opts now ≡ (t, db, thrown upsert_rejected)
    unfolding execute_work mark_processed_with_client
    execute_rejected t db ty key sequence work opts now r is rejects =
        rw (is, execute_work) (ground arith)

    pub execute_done :
        (t : IdempotencyTracker) (db : Database P D) (ty key : String) (sequence : ℕ)
        (work : D → Answer (T × D) E) (opts : WriteOptions P) (now : ℕ) (r : T × D)
        → work db.tables ≡ returned r
        → db.accepts_upsert ≡ true
        → let new = new_record rt t.default_strategy ty key sequence opts now in
          let (rows, record_result) = upsert new db.records in
          execute_work rt t db ty key sequence work opts now ≡ (
            cache_record sequence key t,
            record db { records = rows; tables = r.1 },
            returned (executed r.0 record_result),
          )
    unfolding execute_work mark_processed_with_client
    execute_done t db ty key sequence work opts now r is ok =
        rw (is, ok, execute_work, mark_processed_with_client) refl

    pub with_cached :
        (t : IdempotencyTracker) (db : Database P D) (ty key : String) (sequence : ℕ)
        (work : D → Answer (T × D) E) (opts : WriteOptions P) (now : ℕ)
        → has t.processed_cache key ≡ true
        → with_idempotency rt t db ty key sequence work opts now
          ≡ (t, db, returned (skipped (get_record db key)))
    unfolding with_idempotency
    with_cached t db ty key sequence work opts now e = rw (e, with_idempotency) refl

    pub with_unknown :
        (t : IdempotencyTracker) (db : Database P D) (ty key : String) (sequence : ℕ)
        (work : D → Answer (T × D) E) (opts : WriteOptions P) (now : ℕ)
        → has t.processed_cache key ≡ false
        → get_record db key ≡ none
        → with_idempotency rt t db ty key sequence work opts now
          ≡ execute_work rt t db ty key sequence work opts now
    unfolding with_idempotency
    with_unknown t db ty key sequence work opts now e n = rw (e, n, with_idempotency) refl

    pub with_conflict :
        (t : IdempotencyTracker) (db : Database P D) (ty key : String) (sequence : ℕ)
        (work : D → Answer (T × D) E) (opts : WriteOptions P) (now : ℕ)
        (existing : ProcessedRecord P)
        → has t.processed_cache key ≡ false
        → get_record db key ≡ some existing
        → with_idempotency rt t db ty key sequence work opts now ≡ (
            if resolve_conflict existing (or_default opts.strategy t.default_strategy) opts
            then execute_work rt t db ty key sequence work opts now
            else (cache_key key t, db, returned (skipped (some existing))))
    unfolding with_idempotency
    with_conflict t db ty key sequence work opts now existing e is =
        rw (e, is, with_idempotency) refl
