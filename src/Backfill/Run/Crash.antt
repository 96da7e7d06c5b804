-- ===== src/Backfill/Run/Crash.antt =====
-- Crashes of backfillLedgers of indexer-service.ts, and the run after one.
use stellar_analytics_dashbo.Prelude.{ℕ, Option, some, if◌then◌else◌, ◌>>=◌}
use stellar_analytics_dashbo.Backfill.Checkpoint.{
  Status, BackfillJob, Table, new, create_job, load_job,
}
use stellar_analytics_dashbo.Backfill.Run.{
  Indexer, State, job_id_of, start_of, resumes, run_batches,
}

abbrev status_of : Option BackfillJob → Option Status
status_of o = do j ← o; some j.status

module _ {W L : Type 0} (indexer : Indexer W L) where
  -- What backfillLedgers has done after its first batches.
  abbrev pub first_batches : ℕ → ℕ → ℕ → W → Table → ℕ → State W
  first_batches count start end w t now =
      let m = new (job_id_of start end) (some "public") start end in
      let from = start_of start (load_job m t) in
      let begun = if resumes (load_job m t) then t else create_job m t now in
      (run_batches indexer count m from from.resume_from
        (record { world = w; table = begun; processed = from.processed }) now).0
