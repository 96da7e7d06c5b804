-- ===== src/Idempotency/ExactlyOnce.antt =====
-- What IdempotencyTracker.ts promises of a key over many calls of withIdempotency, by any trackers on the
-- same database, at different times: its work is done once.
use stellar_analytics_dashbo.Prelude.{
  ℕ, ◌≡◌, refl, ap, ◌∙◌, true, none, List, [], ◌∷◌, String, or_default, Bool-cases, Option-cases,
  inl, inr, All, subst, ◌≢◌,
}
use stellar_analytics_dashbo.Idempotency.{
  skip, ProcessedRecord, WriteOptions, Runtime, IdempotencyTracker, Database,
}
use stellar_analytics_dashbo.Idempotency.Records.{exists_record}
use stellar_analytics_dashbo.Idempotency.Tracker.{
  Answer, returned, executed, skipped, has, get_record, resolve_conflict, with_idempotency,
}
use stellar_analytics_dashbo.Idempotency.Execution.{with_cached, with_conflict, select_exists}
use stellar_analytics_dashbo.Idempotency.Outcome.{Outcome, with_idempotency-Outcome}

-- A call for a key, by a tracker in any state: a retry, a replay after a restart, another process.
pub record Call (P D T E : Type 0) : Type 0 where
  pub tracker : IdempotencyTracker
  pub entity_type : String
  pub sequence : ℕ
  pub work : D → Answer (T × D) E
  pub opts : WriteOptions P
  pub now : ℕ

module _ {P D T E : Type 0} (rt : Runtime P) (key : String) where
  unfoldable pub call : Database P D → Call P D T E → Database P D
  call db c = (with_idempotency rt c.tracker db c.entity_type key c.sequence c.work c.opts c.now).1

  unfoldable pub calls : Database P D → List (Call P D T E) → Database P D
  calls db [] = db
  calls db (c ∷ cs) = calls (call db c) cs

  abbrev pub Skips : Call P D T E → Type 0
  Skips c = or_default c.opts.strategy c.tracker.default_strategy ≡ skip

  call-recorded :
      (db : Database P D) (c : Call P D T E)
      → exists_record key db.records ≡ true
      → Skips c
      → call db c ≡ db
  unfolding call get_record resolve_conflict
  call-recorded db c h s = elim (Bool-cases (has c.tracker.processed_cache key)) [
    | inl e ↦
        ap (λ x. x.1)
          (with_cached rt c.tracker db c.entity_type key c.sequence c.work c.opts c.now e)
    | inr e ↦ elim (Option-cases (get_record db key)) [
      | inl n ↦ elim (select_exists key db.records h n) [ ]
      | inr (x, is) ↦
          ap (λ x. x.1)
            (with_conflict rt c.tracker db c.entity_type key c.sequence c.work c.opts c.now x e is)
          ∙ rw s refl
    ]
  ]

  calls-recorded :
      (db : Database P D) (cs : List (Call P D T E))
      → exists_record key db.records ≡ true
      → All Skips cs
      → calls db cs ≡ db
  unfolding calls
  calls-recorded db [] h s = refl
  calls-recorded db (c ∷ cs) h s =
      let same = call-recorded db c h s.0 in ap (λ x. calls x cs) same ∙ calls-recorded db cs h s.1

  -- Once work was executed for a key, no later calls for the key change the database, whichever trackers
  -- make them, also with an empty cache, and whatever their work would do, as long as they use the SKIP
  -- strategy.
  pub executed_once :
      (t t' : IdempotencyTracker) (db db' : Database P D) (ty : String) (sequence : ℕ)
      (work : D → Answer (T × D) E) (opts : WriteOptions P) (now : ℕ) (result : T)
      (r : ProcessedRecord P) (cs : List (Call P D T E))
      → with_idempotency rt t db ty key sequence work opts now
        ≡ (t', db', returned (executed result r))
      → All Skips cs
      → calls db' cs ≡ db'
  executed_once t t' db db' ty sequence work opts now result r cs e s =
      let (_, _, _, _, recorded) =
        subst (λ x. Outcome t db ty key work x.0 x.1 x.2) e
          (with_idempotency-Outcome rt t db ty key sequence work opts now) in
      calls-recorded db' cs recorded s

  -- The tracker that executed it skips every later call for the key, whatever its type, work, options and
  -- strategy, and answers with a stored record.
  pub executed_skips :
      (t t' : IdempotencyTracker) (db db' : Database P D) (ty ty' : String) (sequence sequence' : ℕ)
      (work work' : D → Answer (T × D) E) (opts opts' : WriteOptions P) (now now' : ℕ) (result : T)
      (r : ProcessedRecord P)
      → with_idempotency rt t db ty key sequence work opts now
        ≡ (t', db', returned (executed result r))
      → (with_idempotency rt t' db' ty' key sequence' work' opts' now'
          ≡ (t', db', returned (skipped (get_record db' key))))
        × (get_record db' key ≢ none)
  unfolding get_record
  executed_skips t t' db db' ty ty' sequence sequence' work work' opts opts' now now' result r e =
      let (_, _, _, cached, recorded) =
        subst (λ x. Outcome t db ty key work x.0 x.1 x.2) e
          (with_idempotency-Outcome rt t db ty key sequence work opts now) in
      (
        with_cached rt t' db' ty' key sequence' work' opts' now' cached,
        select_exists key db'.records recorded,
      )
