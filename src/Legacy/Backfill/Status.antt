-- ===== src/Legacy/Backfill/Status.antt =====
-- What indexer/src/backfill.ts leaves in the row of its job.
use stellar_analytics_dashbo.Prelude.{
  ℕ, ◌≡◌, inl, inr, refl, ◌∙◌, true, Option, none, some, List, [], ◌∷◌, arith, find, Bool-cases,
  Option-cases, is_some, All,
}
use stellar_analytics_dashbo.Backfill.Checkpoint.{
  Status, completed, failed, BackfillJob, BackfillCheckpointManager, Table, is_job,
  CheckpointProgress, load_job, ended, with_progress,
}
use stellar_analytics_dashbo.Backfill.Checkpoint.Jobs.{
  Operation, apply, creates, saves, completes, cancels, fails, apply-find, next_job,
}
use stellar_analytics_dashbo.Prelude.Text.{str_eq_refl}
use stellar_analytics_dashbo.Legacy.Checkpoint
use stellar_analytics_dashbo.Legacy.Workers.{Workers}
use stellar_analytics_dashbo.Legacy.Backfill.Rounds.{run_batches-keeps}
use stellar_analytics_dashbo.Legacy.Ledgers.{BackfillOptions, Calls, Processing}
use stellar_analytics_dashbo.Legacy.Backfill.{
  Round, Loop, run_batches, cancel, after_batch, workers_of, job_id_of, finish, begin_backfill,
  begin_existing, begin_fresh, progress_of, BackfillResult, failure_message,
}

abbrev pub HasRow : BackfillOptions → Table → Type 0
HasRow o t = is_some (find (is_job (job_id_of o)) t.rows) ≡ true

own :
    (m : BackfillCheckpointManager) (op : Operation) (t : Table) (now : ℕ)
    → find (is_job m.job_id) (apply m op t now).rows
      ≡ next_job m op t.next_id now (find (is_job m.job_id) t.rows)
own m op t now = apply-find m op t now m.job_id ∙ rw (str_eq_refl m.job_id) refl

created :
    (m : BackfillCheckpointManager) (id now : ℕ) (r : Option BackfillJob)
    → is_some (next_job m creates id now r) ≡ true
created m id now none = refl
created m id now (some j) = refl

saved :
    (m : BackfillCheckpointManager) (p : CheckpointProgress) (id now : ℕ) (r : Option BackfillJob)
    → is_some r ≡ true
    → is_some (next_job m (saves p) id now r) ≡ true
saved m p id now none h = h
saved m p id now (some j) h = refl

cancelled_too :
    (m : BackfillCheckpointManager) (p : CheckpointProgress) (id now : ℕ) (r : Option BackfillJob)
    → is_some r ≡ true
    → is_some (next_job m (cancels p) id now r) ≡ true
cancelled_too m p id now none h = h
cancelled_too m p id now (some j) h = refl

All-rounds : (rounds : List Round) → All (λ (r : Round). Unit {0}) rounds
All-rounds [] = tt
All-rounds (r ∷ rs) = (tt, All-rounds rs)

module _ (o : BackfillOptions) where
  -- A row stays through what a run does to its job before it ends.
  create-HasRow :
      (t : Table) (now : ℕ)
      → HasRow o (
          Checkpoint.create_checkpoint
            (job_id_of o)
            o.network
            o.start_sequence
            o.end_sequence
            t
            now)
  unfolding Checkpoint.create_checkpoint apply
  create-HasRow t now =
      let m = Checkpoint.job (job_id_of o) o.network o.start_sequence o.end_sequence in
      rw (own m creates t now) (created m t.next_id now (find (is_job (job_id_of o)) t.rows))

  save-HasRow :
      (p : CheckpointProgress) (t : Table) (now : ℕ)
      → HasRow o t
      → HasRow o (Checkpoint.save (job_id_of o) p t now)
  unfolding Checkpoint.save apply
  save-HasRow p t now h =
      let m = Checkpoint.named (job_id_of o) in
      rw (own m (saves p) t now) (saved m p t.next_id now (find (is_job (job_id_of o)) t.rows) h)

  cancel-HasRow :
      (p : CheckpointProgress) (t : Table) (now : ℕ)
      → HasRow o t
      → HasRow o (Checkpoint.mark_checkpoint_cancelled (job_id_of o) p t now)
  unfolding Checkpoint.mark_checkpoint_cancelled apply
  cancel-HasRow p t now h =
      let m = Checkpoint.named (job_id_of o) in
      rw (own m (cancels p) t now)
        (cancelled_too m p t.next_id now (find (is_job (job_id_of o)) t.rows) h)

  begin_existing-HasRow :
      (ledgers : List ℕ) (t : Table) (now : ℕ) (r : Option BackfillJob)
      → find (is_job (job_id_of o)) t.rows ≡ r
      → HasRow o (begin_existing o ledgers t now r).checkpoints
  unfolding begin_existing begin_fresh
  begin_existing-HasRow ledgers t now none e = create-HasRow t now
  begin_existing-HasRow ledgers t now (some j) e =
      ground (arith, create-HasRow t now, Option-cases j.last_processed_sequence)

  pub begin_backfill-HasRow :
      (ledgers : List ℕ) (t : Table) (now : ℕ)
      → o.pool ≡ true
      → HasRow o (begin_backfill o ledgers t now).checkpoints
  unfolding begin_backfill Checkpoint.load_checkpoint load_job
  begin_backfill-HasRow ledgers t now h =
      ground (arith, begin_existing-HasRow ledgers t now (find (is_job (job_id_of o)) t.rows) refl)

  pub cancel_loop-HasRow :
      (now : ℕ) (l : Loop) → HasRow o l.checkpoints → HasRow o (cancel o now l).checkpoints
  unfolding cancel
  cancel_loop-HasRow now l h =
      ground (arith, cancel-HasRow (progress_of l.last l.counters) l.checkpoints now)

  after_batch-HasRow :
      (now : ℕ) (w : Workers (List ℕ) Processing) (l : Loop)
      → HasRow o l.checkpoints
      → HasRow o (after_batch o now w l).checkpoints
  unfolding after_batch
  after_batch-HasRow now w l h = elim (Bool-cases o.pool) [
    | inl pool ↦ simp pool (save-HasRow _ l.checkpoints now h)
    | inr dry ↦ simp dry h
  ]

  pub run_batches-HasRow :
      (calls : Calls) (rounds : List Round) (l l' : Loop)
      → HasRow o l.checkpoints
      → run_batches o calls rounds l ≡ some l'
      → HasRow o l'.checkpoints
  run_batches-HasRow calls rounds l l' h e =
      run_batches-keeps o calls (λ l. HasRow o l.checkpoints) (λ r. Unit)
        (λ r l q go done. after_batch-HasRow r.now (workers_of o calls r.events l) l)
        (λ r l q stop. cancel_loop-HasRow r.now l) rounds l l' (All-rounds rounds) h e

-- The status with which a run ends: completed, if no ledger failed in this run.
abbrev pub status_of : Option ℕ → Status
status_of none = completed
status_of (some sequence) = failed

-- The row is as the run reports, and has its status.
abbrev pub Reports : BackfillOptions → BackfillResult → BackfillJob → Type 0
Reports o r j =
    (j.status ≡ status_of r.resume_from)
    × (j.processed_count ≡ r.processed)
    × (j.skipped_count ≡ r.skipped)
    × (j.failed_count ≡ r.failed)

module _ (o : BackfillOptions) (last : Option ℕ) (now : ℕ) (l : Loop) (pool : o.pool ≡ true) where
  finish_completed :
      l.counters.last_failed ≡ none
      → finish o last now l
        ≡ Checkpoint.mark_checkpoint_completed
            (job_id_of o)
            (progress_of (some o.end_sequence) l.counters)
            l.checkpoints
            now
  unfolding finish
  finish_completed e = ground arith

  finish_failed :
      (sequence : ℕ)
      → l.counters.last_failed ≡ some sequence
      → finish o last now l
        ≡ Checkpoint.mark_checkpoint_failed
            (job_id_of o)
            (failure_message l.counters.failed sequence)
            (progress_of last l.counters)
            l.checkpoints
            now
  unfolding finish
  finish_failed sequence e = ground arith

  -- The row of the job at the end, and its last sequence if the run completed.
  pub finish-row :
      HasRow o l.checkpoints
      → (j : BackfillJob) × (find (is_job (job_id_of o)) (finish o last now l).rows ≡ some j)
        × (j.status ≡ status_of l.counters.last_failed)
        × (j.processed_count ≡ l.counters.processed)
        × (j.skipped_count ≡ l.counters.skipped)
        × (j.failed_count ≡ l.counters.failed)
        × (l.counters.last_failed ≡ none → j.last_processed_sequence ≡ some o.end_sequence)
  unfolding Checkpoint.mark_checkpoint_completed Checkpoint.mark_checkpoint_failed apply
  finish-row h = elim (Option-cases (find (is_job (job_id_of o)) l.checkpoints.rows)) [
    | inl missing ↦ absurd (ground arith)
    | inr (j, there) ↦ elim (Option-cases l.counters.last_failed) [
      | inl e ↦ (
        ended completed now (with_progress (progress_of (some o.end_sequence) l.counters) now j),
        rw
            (
              finish_completed e,
              own (Checkpoint.named (job_id_of o))
                  (completes (progress_of (some o.end_sequence) l.counters)) l.checkpoints now,
              there,
            )
            refl,
        rw e refl,
        refl,
        refl,
        refl,
        λ n. refl,
      )
      | inr (sequence, e) ↦ (
        record (ended failed now (with_progress (progress_of last l.counters) now j)) {
          error_message = some (failure_message l.counters.failed sequence);
        },
        rw
            (
              finish_failed sequence e,
              own (Checkpoint.named (job_id_of o))
                  (fails (failure_message l.counters.failed sequence) (progress_of last l.counters))
                  l.checkpoints now,
              there,
            )
            refl,
        rw e refl,
        refl,
        refl,
        refl,
        λ n. absurd (ground arith),
      )
    ]
  ]
