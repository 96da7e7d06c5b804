-- ===== src/Backfill/Run/Complete.antt =====
-- A backfill whose batches all return, from its start or from a checkpoint, and the job that it leaves.
use stellar_analytics_dashbo.Prelude.{
  ℕ, ◌+◌, ◌-◌, ◌≤◌, ◌<◌, ◌≡◌, true, Option, none, some, if◌then◌else◌, ltb, is_some, ◌>>=◌, List,
  min, subst, refl, ◌∙◌, arith, Bool-cases, inl, inr, Option-cases,
}
use stellar_analytics_dashbo.Backfill.Checkpoint.{
  Status, BackfillJob, CheckpointProgress, BackfillCheckpointManager, Table, new, create_job,
  load_job, mark_completed, completed,
}
use stellar_analytics_dashbo.Backfill.Checkpoint.Jobs.{apply, completes, creates, apply-find}
use stellar_analytics_dashbo.Backfill.Run.{
  Indexer, finished, State, job_id_of, start_of, resumes, next_seq, truthy, backfill_ledgers,
}
use stellar_analytics_dashbo.Prelude.Text.{str_eq_refl}
use stellar_analytics_dashbo.Backfill.Run.Batches.{Tiles, Returns, batches, run_batches-Worked}

-- A job's status, last sequence and count.
abbrev pub progress_of : Option BackfillJob → Option (Status × Option ℕ × ℕ)
progress_of o = do j ← o; some (j.status, j.last_processed_sequence, j.processed_count)

resumes-is_some : (o : Option BackfillJob) → resumes o ≡ true → is_some o ≡ true
unfolding resumes
resumes-is_some none e = cc
resumes-is_some (some j) e = refl

pub begun-is_some :
    (m : BackfillCheckpointManager) (t : Table) (now : ℕ)
    → is_some (load_job m (if resumes (load_job m t) then t else create_job m t now)) ≡ true
unfolding load_job apply
begun-is_some m t now = elim (Bool-cases (resumes (load_job m t))) [
  | inl e ↦ rw e (resumes-is_some (load_job m t) e)
  | inr e ↦ rw e (ground (arith, apply-find m creates t now m.job_id, str_eq_refl m.job_id))
]

pub completed-progress :
    (m : BackfillCheckpointManager) (t : Table) (p : CheckpointProgress) (now : ℕ)
    → is_some (load_job m t) ≡ true
    → progress_of (load_job m (mark_completed m t p now))
      ≡ some (completed, p.last_processed_sequence, p.processed_count)
unfolding load_job apply
completed-progress m t p now is =
    ground (arith, apply-find m (completes p) t now m.job_id, str_eq_refl m.job_id)

-- Where all ledgers from the start on are counted, the test for completion holds.
pub next_seq-done :
    (existing : Option BackfillJob) (start end : ℕ)
    → let from = start_of start existing in
      from.resume_from ≤ end + 1
      → ltb end (next_seq existing from (from.processed + (end + 1 - from.resume_from))) ≡ true
unfolding next_seq
next_seq-done none start end h = ground arith
next_seq-done (some j) start end h = elim (Option-cases (truthy j.last_processed_sequence)) [
  | inl e ↦ rw (e, next_seq) (ground arith)
  | inr (last, e) ↦ rw (e, next_seq) (ground arith)
]

module _ {W L : Type 0} (indexer : Indexer W L) where
  -- A backfill whose batches do not throw, on an indexer that keeps running, ends by its condition. It has
  -- called processLedgerBatch on consecutive ranges of at most a batch size, which make up the sequences
  -- from where it starts to the end with none left out or repeated, and leaves its job completed, with the
  -- end as last sequence and every ledger counted. It starts where its job says: behind the last
  -- sequence of a job in progress, else at the start. What a batch does with its range is its own matter:
  -- it also returns where the circuit is open or a ledger could not be fetched, and counts as a whole.
  pub backfill_ledgers-each :
      (start end : ℕ) (w : W) (t : Table) (now : ℕ)
      → Returns indexer
      → 0 < indexer.backfill_batch_size
      → let m = new (job_id_of start end) (some "public") start end in
        let from = start_of start (load_job m t) in
        from.resume_from ≤ end + 1
        → let (s, loop_end) = backfill_ledgers indexer start end w t now in
          ((rs : List (ℕ × ℕ)) × (s.world ≡ batches indexer w rs)
            × Tiles indexer.backfill_batch_size from.resume_from end rs)
          × (loop_end ≡ finished)
          × (progress_of (load_job m s.table)
              ≡ some (completed, some end, from.processed + (end + 1 - from.resume_from)))
  unfolding backfill_ledgers new
  backfill_ledgers-each start end w t now returns size reach =
      let m = new (job_id_of start end) (some "public") start end in
      let existing = load_job m t in
      let from = start_of start existing in
      let begun = if resumes existing then t else create_job m t now in
      let state : State W = record { world = w; table = begun; processed = from.processed } in
      let ((rs, world, tiles), processed, ending, row) =
        run_batches-Worked indexer (end + 1 - from.resume_from) m from from.resume_from state now
          returns size (omega arith) in
      let first : min from.resume_from (end + 1) ≡ from.resume_from = omega arith in
      rw (ending, backfill_ledgers, processed, next_seq-done existing start end reach)
        (
          (rs, world, subst (λ n. Tiles indexer.backfill_batch_size n end rs) first tiles),
          refl,
          completed-progress m _ _ now (row ∙ begun-is_some m t now),
        )
