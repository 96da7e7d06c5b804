-- ===== src/Idempotency/Attempts.antt =====
-- What repeated calls of IdempotencyTracker.ts do to the row of a key.
use stellar_analytics_dashbo.Prelude.{
  ℕ, suc, ◌+◌, ◌≡◌, refl, sym, ap, ◌∙◌, true, false, none, some, List, [], ◌∷◌, String, arith,
  length, or_default, Bool-cases, Option-cases, inl, inr, subst,
}
use stellar_analytics_dashbo.Idempotency.{
  update_latest, ProcessedRecord, WriteOptions, Runtime, IdempotencyTracker, Database,
}
use stellar_analytics_dashbo.Idempotency.Records.{new_record, attempted, upsert}
use stellar_analytics_dashbo.Idempotency.Tracker.{
  Answer, returned, executed, has, get_record, resolve_conflict, mark_processed_with_client,
  execute_work, with_idempotency,
}
use stellar_analytics_dashbo.Idempotency.Execution.{
  upsert-find, upsert-kept, upsert-added, with_cached, with_unknown, with_conflict, work-cases,
  execute_thrown, execute_rejected,
}
use stellar_analytics_dashbo.Idempotency.Outcome.{
  find_row, IsNext, Outcome, with_idempotency-Outcome,
}
use stellar_analytics_dashbo.Idempotency.Tracker.{mark_processed}

-- A call of markProcessed for a key.
pub record Mark (P : Type 0) : Type 0 where
  pub sequence : ℕ
  pub opts : WriteOptions P
  pub now : ℕ

module _ {P D : Type 0} (rt : Runtime P) (E : Type 0) (ty key : String) where
  unfoldable pub marks :
      IdempotencyTracker → Database P D → List (Mark P) → IdempotencyTracker × Database P D
  marks t db [] = (t, db)
  marks t db (m ∷ ms) =
      let x = mark_processed rt {E = E} t db ty key m.sequence m.opts m.now in marks x.0 x.1 ms

module _ {P D : Type 0} (rt : Runtime P) (E : Type 0) (ty key : String) where
  mark_records :
      (t : IdempotencyTracker) (db : Database P D) (m : Mark P)
      → db.accepts_upsert ≡ true
      → let x = mark_processed rt {E = E} t db ty key m.sequence m.opts m.now in
        let new = new_record rt t.default_strategy ty key m.sequence m.opts m.now in
        (x.1.records ≡ (upsert new db.records).0) × (x.1.accepts_upsert ≡ true)
  unfolding mark_processed mark_processed_with_client
  mark_records t db m ok = rw (ok, mark_processed, mark_processed_with_client) (refl, refl)

  marks-kept :
      (t : IdempotencyTracker) (db : Database P D) (ms : List (Mark P)) (r : ProcessedRecord P)
      → db.accepts_upsert ≡ true
      → find_row ty key db.records ≡ some r
      → let x = marks rt E ty key t db ms in
        (find_row ty key x.1.records ≡ some (record r { attempts = r.attempts + length ms }))
        × (length x.1.records ≡ length db.records)
  unfolding marks new_record
  marks-kept t db [] r ok is = (is ∙ ap (λ n. some (record r { attempts = n })) (omega arith), refl)
  marks-kept t db (m ∷ ms) r ok is =
      let new = new_record rt t.default_strategy ty key m.sequence m.opts m.now in
      let x = mark_processed rt {E = E} t db ty key m.sequence m.opts m.now in
      let (rows, ok') = mark_records t db m ok in
      let (kept, len) = upsert-kept new r db.records is in
      let found =
        subst (λ rows. find_row ty key rows ≡ some (attempted r)) (sym rows)
          (upsert-find new db.records ∙ ap some kept) in
      let (row, len') = marks-kept x.0 x.1 ms (attempted r) ok' found in
      (row ∙ ap (λ n. some (record r { attempts = n })) (omega arith), len' ∙ ap length rows ∙ len)

  -- However often a key is marked, it has one row, with the sequence and the options of the first mark, and
  -- its attempts count the marks.
  pub marks-find_row :
      (t : IdempotencyTracker) (db : Database P D) (m : Mark P) (ms : List (Mark P))
      → db.accepts_upsert ≡ true
      → find_row ty key db.records ≡ none
      → let x = marks rt E ty key t db (m ∷ ms) in
        let first = new_record rt t.default_strategy ty key m.sequence m.opts m.now in
        (find_row ty key x.1.records ≡ some (record first { attempts = 1 + length ms }))
        × (length x.1.records ≡ suc (length db.records))
  unfolding marks new_record
  marks-find_row t db m ms ok is =
      let new = new_record rt t.default_strategy ty key m.sequence m.opts m.now in
      let x = mark_processed rt {E = E} t db ty key m.sequence m.opts m.now in
      let (rows, ok') = mark_records t db m ok in
      let (fresh, len) = upsert-added new db.records is in
      let found =
        subst (λ rows. find_row ty key rows ≡ some new) (sym rows)
          (upsert-find new db.records ∙ ap some fresh) in
      let (row, len') = marks-kept x.0 x.1 ms new ok' found in (row, len' ∙ ap length rows ∙ len)

module _ {P D T E : Type 0} (rt : Runtime P) (key : String) where
  -- Where the database rejects the upsert, as PostgreSQL does for the ambiguous column, no call of
  -- withIdempotency ever changes the database: no work is committed.
  pub rejected-with_idempotency :
      (t : IdempotencyTracker) (db : Database P D) (ty : String) (sequence : ℕ)
      (work : D → Answer (T × D) E) (opts : WriteOptions P) (now : ℕ)
      → db.accepts_upsert ≡ false
      → (with_idempotency rt t db ty key sequence work opts now).1 ≡ db
  unfolding get_record
  rejected-with_idempotency t db ty sequence work opts now rejects =
      let done : (execute_work rt t db ty key sequence work opts now).1 ≡ db =
        elim (work-cases (work db.tables)) [
          | inl (e, is) ↦ ap (λ x. x.1) (execute_thrown rt t db ty key sequence work opts now e is)
          | inr (r, is) ↦
              ap (λ x. x.1) (execute_rejected rt t db ty key sequence work opts now r is rejects)
        ] in
      elim (Bool-cases (has t.processed_cache key)) [
        | inl e ↦ ap (λ x. x.1) (with_cached rt t db ty key sequence work opts now e)
        | inr e ↦ elim (Option-cases (get_record db key)) [
          | inl n ↦ ap (λ x. x.1) (with_unknown rt t db ty key sequence work opts now e n) ∙ done
          | inr (x, is) ↦
              ap (λ x. x.1) (with_conflict rt t db ty key sequence work opts now x e is)
              ∙ elim (Bool-cases
                  (resolve_conflict x (or_default opts.strategy t.default_strategy) opts)) [
                    | inl yields ↦ rw yields done
                    | inr stays ↦ rw stays refl
                  ]
        ]
      ]

  -- An execution over a row that is there leaves the row's checksum, payload and sequence as they were.
  -- So the same options meet the same conflict again: with UPDATE_LATEST and a changed payload, every
  -- submission of that payload past the cache executes its work once more.
  pub executed-resolve_conflict :
      (t t' : IdempotencyTracker) (db db' : Database P D) (ty : String) (sequence : ℕ)
      (work : D → Answer (T × D) E) (opts : WriteOptions P) (now : ℕ) (result : T)
      (old r : ProcessedRecord P)
      → find_row ty key db.records ≡ some old
      → with_idempotency rt t db ty key sequence work opts now
        ≡ (t', db', returned (executed result r))
      → (find_row ty key db'.records ≡ some (attempted old))
        × (resolve_conflict (attempted old) update_latest opts
            ≡ resolve_conflict old update_latest opts)
  unfolding resolve_conflict
  executed-resolve_conflict t t' db db' ty sequence work opts now result old r is e =
      let (_, row, next, _, _) =
        subst (λ x. Outcome t db ty key work x.0 x.1 x.2) e
          (with_idempotency-Outcome rt t db ty key sequence work opts now) in
      (row ∙ ap some (subst (λ o. IsNext o r) is next), refl)
