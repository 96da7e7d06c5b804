-- ===== src/Idempotency/Coherence.antt =====
-- The cache of IdempotencyTracker.ts against the table, while one tracker is the only writer.
use stellar_analytics_dashbo.Prelude.{
  ℕ, ◌-◌, sym, ◌∙◌, false, List, [], ◌∷◌, String, ltb, ◌==◌, arith, length, or_default, Bool-cases,
  Option-cases, inl, inr, subst,
}
use stellar_analytics_dashbo.Idempotency.{
  ProcessedRecord, WriteOptions, Runtime, IdempotencyTracker, Database,
}
use stellar_analytics_dashbo.Idempotency.Records.{exists_record, most_recent, delete_older}
use stellar_analytics_dashbo.Idempotency.Tracker.{
  Answer, Failure, Result, has, get_record, resolve_conflict, clear_cache, evict_from_cache, warm,
  initialize, is_processed, unmark, cleanup, mark_processed_with_client, mark_processed,
  execute_work, with_idempotency,
}
use stellar_analytics_dashbo.Idempotency.Execution.{
  with_cached, with_unknown, with_conflict, select_some, work-cases, execute_thrown,
  execute_rejected, execute_done,
}
use stellar_analytics_dashbo.Idempotency.Cache.{
  IsCoherent, has-warm, most_recent-exists_record, has-delete_key, delete-exists_record,
  delete_older-all, add-IsCoherent, known-IsCoherent, upserted,
}

module _ {P : Type 0} where
  warm-IsCoherent :
      (n : ℕ) (t : IdempotencyTracker) (rows : List (ProcessedRecord P))
      → IsCoherent t rows
      → IsCoherent (warm (most_recent n rows) t) rows
  warm-IsCoherent n t rows c key h =
      let held = sym (has-warm (most_recent n rows) t key) ∙ h in
      elim (Bool-cases (has t.processed_cache key)) [
        | inl e ↦ c key e
        | inr e ↦ most_recent-exists_record n rows key (ground arith)
      ]

module _ {P D : Type 0} where
  initialize-IsCoherent :
      (t : IdempotencyTracker) (db : Database P D)
      → IsCoherent t db.records
      → IsCoherent (initialize t db) db.records
  unfolding initialize
  initialize-IsCoherent t db c = elim (Bool-cases t.initialized) [
    | inl e ↦ rw (e, initialize) c
    | inr e ↦
        rw (e, initialize)
          (warm-IsCoherent t.warm_cache_size (record t { initialized = false }) db.records c)
  ]

  pub is_processed-IsCoherent :
      (t : IdempotencyTracker) (db : Database P D) (key : String)
      → IsCoherent t db.records
      → IsCoherent (is_processed t db key).0 db.records
  unfolding is_processed
  is_processed-IsCoherent t db key c = elim (Bool-cases (has t.processed_cache key)) [
    | inl e ↦ rw (e, is_processed) c
    | inr e ↦ elim (Bool-cases (exists_record key db.records)) [
      | inl known ↦ rw (e, is_processed, known) (known-IsCoherent t db.records key c known)
      | inr unknown ↦ rw (e, is_processed, unknown) c
    ]
  ]

  cleanup-IsCoherent :
      (t : IdempotencyTracker) (db : Database P D) (now : ℕ)
      → IsCoherent t db.records
      → let x = cleanup t db now in IsCoherent x.0 x.1.records
  unfolding cleanup clear_cache
  cleanup-IsCoherent t db now c =
      let kept = delete_older t.retention_days now db.records in
      elim (Bool-cases (t.retention_days == 0)) [
        | inl e ↦ rw (e, cleanup) c
        | inr e ↦ elim (Bool-cases (ltb 0 (length db.records - length kept))) [
          | inl some_deleted ↦ rw (e, cleanup, some_deleted) (λ k h. cc)
          | inr none_deleted ↦
              rw (e, cleanup, none_deleted)
                (subst (IsCoherent t)
                  (sym (delete_older-all t.retention_days now db.records (ground arith))) c)
        ]
      ]

module _ {P D : Type 0} (rt : Runtime P) where
  mark_processed-IsCoherent :
      (E : Type 0) (t : IdempotencyTracker) (db : Database P D) (ty key : String) (sequence : ℕ)
      (opts : WriteOptions P) (now : ℕ)
      → IsCoherent t db.records
      → let x = mark_processed rt {E = E} t db ty key sequence opts now in
        IsCoherent x.0 x.1.records
  unfolding mark_processed mark_processed_with_client
  mark_processed-IsCoherent E t db ty key sequence opts now c =
      elim (Bool-cases db.accepts_upsert) [
        | inl ok ↦
            rw (ok, mark_processed, mark_processed_with_client)
              (add-IsCoherent t db.records _ key c
                (upserted rt t db.records ty key sequence opts now))
        | inr rejects ↦ rw (rejects, mark_processed, mark_processed_with_client) c
      ]

-- What the callers of a tracker do with it, in any order.
pub data Op (P D T E : Type 0) : Type 0 where
  initializes : Op P D T E
  checks : String → Op P D T E
  marks : String → String → ℕ → WriteOptions P → ℕ → Op P D T E
  works : String → String → ℕ → (D → Answer (T × D) E) → WriteOptions P → ℕ → Op P D T E
  unmarks evicts : String → Op P D T E
  cleans : ℕ → Op P D T E
  clears : Op P D T E

module _ {P D T E : Type 0} (rt : Runtime P) where
  unfoldable pub step :
      IdempotencyTracker × Database P D → Op P D T E → IdempotencyTracker × Database P D
  step (t, db) initializes = (initialize t db, db)
  step (t, db) (checks key) = ((is_processed t db key).0, db)
  step (t, db) (marks ty key sequence opts now) =
      let x = mark_processed rt {E = E} t db ty key sequence opts now in (x.0, x.1)
  step (t, db) (works ty key sequence work opts now) =
      let x = with_idempotency rt t db ty key sequence work opts now in (x.0, x.1)
  step (t, db) (unmarks key) = unmark t db key
  step (t, db) (evicts key) = (evict_from_cache t key, db)
  step (t, db) (cleans now) = let x = cleanup t db now in (x.0, x.1)
  step (t, db) clears = (clear_cache t, db)

  unfoldable pub run :
      IdempotencyTracker × Database P D → List (Op P D T E) → IdempotencyTracker × Database P D
  run s [] = s
  run s (op ∷ ops) = run (step s op) ops

  execute_work-IsCoherent :
      (t : IdempotencyTracker) (db : Database P D) (ty key : String) (sequence : ℕ)
      (work : D → Answer (T × D) E) (opts : WriteOptions P) (now : ℕ)
      → IsCoherent t db.records
      → let x = execute_work rt t db ty key sequence work opts now in IsCoherent x.0 x.1.records
  execute_work-IsCoherent t db ty key sequence work opts now c =
      let Goal = λ (x : IdempotencyTracker × Database P D × Answer (Result P T) (Failure E)).
        IsCoherent x.0 x.1.records in
      elim (work-cases (work db.tables)) [
        | inl (e, is) ↦
            subst Goal (sym (execute_thrown rt t db ty key sequence work opts now e is)) c
        | inr (r, is) ↦ elim (Bool-cases db.accepts_upsert) [
          | inl ok ↦ subst Goal (sym (execute_done rt t db ty key sequence work opts now r is ok)) (
              add-IsCoherent t db.records _ key c
                (upserted rt t db.records ty key sequence opts now))
          | inr rejects ↦
              subst Goal (sym (execute_rejected rt t db ty key sequence work opts now r is rejects))
                c
        ]
      ]

  with_idempotency-IsCoherent :
      (t : IdempotencyTracker) (db : Database P D) (ty key : String) (sequence : ℕ)
      (work : D → Answer (T × D) E) (opts : WriteOptions P) (now : ℕ)
      → IsCoherent t db.records
      → let x = with_idempotency rt t db ty key sequence work opts now in IsCoherent x.0 x.1.records
  unfolding get_record
  with_idempotency-IsCoherent t db ty key sequence work opts now c =
      let Goal = λ (x : IdempotencyTracker × Database P D × Answer (Result P T) (Failure E)).
        IsCoherent x.0 x.1.records in
      let done = execute_work-IsCoherent t db ty key sequence work opts now c in
      elim (Bool-cases (has t.processed_cache key)) [
        | inl e ↦ subst Goal (sym (with_cached rt t db ty key sequence work opts now e)) c
        | inr e ↦ elim (Option-cases (get_record db key)) [
          | inl n ↦ subst Goal (sym (with_unknown rt t db ty key sequence work opts now e n)) done
          | inr (x, is) ↦
              let goes = resolve_conflict x (or_default opts.strategy t.default_strategy) opts in
              subst Goal (sym (with_conflict rt t db ty key sequence work opts now x e is))
                (elim (Bool-cases goes) [
                  | inl yields ↦ rw yields done
                  | inr stays ↦
                      rw stays
                        (known-IsCoherent t db.records key c (select_some key db.records x is))
                ])
        ]
      ]

  step-IsCoherent :
      (t : IdempotencyTracker) (db : Database P D) (op : Op P D T E)
      → IsCoherent t db.records
      → let x = step (t, db) op in IsCoherent x.0 x.1.records
  unfolding step unmark evict_from_cache clear_cache
  step-IsCoherent t db initializes c = initialize-IsCoherent t db c
  step-IsCoherent t db (checks key) c = is_processed-IsCoherent t db key c
  step-IsCoherent t db (marks ty key sequence opts now) c =
      mark_processed-IsCoherent rt E t db ty key sequence opts now c
  step-IsCoherent t db (works ty key sequence work opts now) c =
      with_idempotency-IsCoherent t db ty key sequence work opts now c
  step-IsCoherent t db (unmarks key) c = λ k h.
      let (had, other) = has-delete_key key k t.processed_cache h in
      delete-exists_record key k db.records other ∙ c k had
  step-IsCoherent t db (evicts key) c = λ k h. c k (has-delete_key key k t.processed_cache h).0
  step-IsCoherent t db (cleans now) c = cleanup-IsCoherent t db now c
  step-IsCoherent t db clears c = λ k h. cc

  -- As long as the calls of one tracker are all that changes the table, every key in its cache has a row in
  -- the table, after any calls of any kind, also ones that fail.
  pub run-IsCoherent :
      (t : IdempotencyTracker) (db : Database P D) (ops : List (Op P D T E))
      → IsCoherent t db.records
      → let x = run (t, db) ops in IsCoherent x.0 x.1.records
  unfolding run
  run-IsCoherent t db [] c = c
  run-IsCoherent t db (op ∷ ops) c =
      let x = step (t, db) op in run-IsCoherent x.0 x.1 ops (step-IsCoherent t db op c)
