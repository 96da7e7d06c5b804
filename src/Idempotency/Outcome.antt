-- ===== src/Idempotency/Outcome.antt =====
-- What IdempotencyTracker.ts promises of one call of withIdempotency: its work is done whole, or not at
-- all.
use stellar_analytics_dashbo.Prelude.{
  ℕ, ◌≡◌, refl, sym, true, ◌||◌, Option, none, some, List, String, find, or_default, Bool-cases,
  Option-cases, inl, inr, subst,
}
use stellar_analytics_dashbo.Idempotency.{
  ProcessedRecord, WriteOptions, Runtime, IdempotencyTracker, Database,
}
use stellar_analytics_dashbo.Idempotency.Records.{
  is_row, exists_record, new_record, attempted, upsert,
}
use stellar_analytics_dashbo.Idempotency.Tracker.{
  Answer, returned, thrown, Failure, Result, executed, skipped, has, get_record, resolve_conflict,
  execute_work, with_idempotency,
}
use stellar_analytics_dashbo.Idempotency.Execution.{
  has-add_key_same, upsert-find, upsert-kept, upsert-added, upsert-own, with_cached, with_unknown,
  with_conflict, select_some, work-cases, execute_thrown, execute_rejected, execute_done,
}

abbrev pub find_row :
    {P : Type 0} → String → String → List (ProcessedRecord P) → Option (ProcessedRecord P)
find_row entity_type key = find (is_row entity_type key)

-- What becomes of a row that was there.
abbrev pub IsNext : {P : Type 0} → Option (ProcessedRecord P) → ProcessedRecord P → Type 0
IsNext none r = r.attempts ≡ 1
IsNext (some old) r = r ≡ attempted old

upsert-IsNext :
    {P : Type 0} (new : ProcessedRecord P) (rs : List (ProcessedRecord P))
    → new.attempts ≡ 1
    → IsNext (find_row new.entity_type new.entity_key rs) (upsert new rs).1
upsert-IsNext new rs one = elim (Option-cases (find_row new.entity_type new.entity_key rs)) [
  | inl e ↦ rw (e, (upsert-added new rs e).0) one
  | inr (old, e) ↦ rw e (upsert-kept new old rs e).0
]

module _ {P D T E : Type 0} where
  -- What a call may answer, and the state it then leaves.
  abbrev pub Outcome :
      IdempotencyTracker
      → Database P D
      → String
      → String
      → (D → Answer (T × D) E)
      → IdempotencyTracker
      → Database P D
      → Answer (Result P T) (Failure E)
      → Type 0
  Outcome t db entity_type key work t' db' (thrown f) = (t' ≡ t) × (db' ≡ db)
  Outcome t db entity_type key work t' db' (returned (skipped r)) =
      (db' ≡ db) × ((has t.processed_cache key || exists_record key db.records) ≡ true)
  Outcome t db entity_type key work t' db' (returned (executed result r)) =
      (work db.tables ≡ returned (result, db'.tables))
      × (find_row entity_type key db'.records ≡ some r)
      × IsNext (find_row entity_type key db.records) r
      × (has t'.processed_cache key ≡ true)
      × (exists_record key db'.records ≡ true)

  module _ (rt : Runtime P) where
    execute_work-Outcome :
        (t : IdempotencyTracker) (db : Database P D) (ty key : String) (sequence : ℕ)
        (work : D → Answer (T × D) E) (opts : WriteOptions P) (now : ℕ)
        → let x = execute_work rt t db ty key sequence work opts now in
          Outcome t db ty key work x.0 x.1 x.2
    unfolding new_record
    execute_work-Outcome t db ty key sequence work opts now =
        let Goal = λ (x : IdempotencyTracker × Database P D × Answer (Result P T) (Failure E)).
          Outcome t db ty key work x.0 x.1 x.2 in
        let new = new_record rt t.default_strategy ty key sequence opts now in
        elim (work-cases (work db.tables)) [
          | inl (e, is) ↦
              subst Goal (sym (execute_thrown rt t db ty key sequence work opts now e is))
                (refl, refl)
          | inr (r, is) ↦ elim (Bool-cases db.accepts_upsert) [
            | inl ok ↦
                subst Goal (sym (execute_done rt t db ty key sequence work opts now r is ok)) (
                  is,
                  upsert-find new db.records,
                  upsert-IsNext new db.records refl,
                  has-add_key_same key t.processed_cache,
                  upsert-own new db.records,
                )
            | inr rejects ↦
                subst Goal
                  (sym (execute_rejected rt t db ty key sequence work opts now r is rejects))
                  (refl, refl)
          ]
        ]

    -- A call of withIdempotency has one of three outcomes. It throws, and then the tracker and the whole
    -- database are as before, also where the work wrote to the database; it skips, and then the database is
    -- as before and the key was cached or recorded; or the work was executed, and then its tables are
    -- committed, together with the record that is returned, and the key is cached and recorded: a row of the
    -- type and key that was there is kept with one attempt more, else the record has one attempt.
    pub with_idempotency-Outcome :
        (t : IdempotencyTracker) (db : Database P D) (ty key : String) (sequence : ℕ)
        (work : D → Answer (T × D) E) (opts : WriteOptions P) (now : ℕ)
        → let (t', db', answer) = with_idempotency rt t db ty key sequence work opts now in
          Outcome t db ty key work t' db' answer
    unfolding get_record
    with_idempotency-Outcome t db ty key sequence work opts now =
        let Goal = λ (x : IdempotencyTracker × Database P D × Answer (Result P T) (Failure E)).
          Outcome t db ty key work x.0 x.1 x.2 in
        let done = execute_work-Outcome t db ty key sequence work opts now in
        elim (Bool-cases (has t.processed_cache key)) [
          | inl e ↦
              subst Goal (sym (with_cached rt t db ty key sequence work opts now e))
                (refl, rw e refl)
          | inr e ↦ elim (Option-cases (get_record db key)) [
            | inl n ↦ subst Goal (sym (with_unknown rt t db ty key sequence work opts now e n)) done
            | inr (x, is) ↦
                let goes = resolve_conflict x (or_default opts.strategy t.default_strategy) opts in
                subst Goal (sym (with_conflict rt t db ty key sequence work opts now x e is))
                  (elim (Bool-cases goes) [
                    | inl yields ↦ rw yields done
                    | inr stays ↦ rw stays (refl, rw (e, select_some key db.records x is) refl)
                  ])
          ]
        ]
