-- ===== src/Backfill/Run/Flaws.antt =====
-- Where the job that backfillLedgers leaves does not say what was done.
use stellar_analytics_dashbo.Prelude.{
  ℕ, zero, suc, ◌+◌, ◌-◌, ◌≤◌, ◌<◌, ◌≡◌, true, false, none, some, List, [], ◌∷◌, if◌then◌else◌, ltb,
  ◌⊎◌, is_some, refl, ap, ◌∙◌, arith, inl, inr,
}
use stellar_analytics_dashbo.Backfill.Checkpoint.{
  BackfillJob, CheckpointProgress, BackfillCheckpointManager, Table, new, create_job, load_job,
  mark_cancelled, completed, in_progress,
}
use stellar_analytics_dashbo.Backfill.Checkpoint.Jobs.{apply, cancels, apply-find}
use stellar_analytics_dashbo.Backfill.Run.{
  circuit_open, returned, Indexer, stopped, State, Start, job_id_of, start_of, resumes, next_seq,
  fetch_ledgers, process_ledgers, process_ledger_batch, run_batches, backfill_ledgers,
}
use stellar_analytics_dashbo.Backfill.Run.Complete.{
  progress_of, backfill_ledgers-each, begun-is_some, completed-progress,
}
use stellar_analytics_dashbo.Backfill.Run.Batches.{Returns, batches, le→ltb_false}

cancel-is_some :
    (m : BackfillCheckpointManager) (t : Table) (p : CheckpointProgress) (now : ℕ)
    → is_some (load_job m (mark_cancelled m t p now)) ≡ is_some (load_job m t)
unfolding load_job apply
cancel-is_some m t p now = ground (arith, apply-find m (cancels p) t now m.job_id)

module _ {W L : Type 0} (indexer : Indexer W L) where
  abbrev pub CircuitOpen : Type 0
  CircuitOpen = (w : W) (k : ℕ) → indexer.get_ledger w k ≡ (w, circuit_open)

  fetch_open :
      (w : W) (a n : ℕ)
      → CircuitOpen
      → (fetch_ledgers indexer w a n ≡ (w, some [])) ⊎ (fetch_ledgers indexer w a n ≡ (w, none))
  unfolding fetch_ledgers
  fetch_open w a zero is_open = inl refl
  fetch_open w a (suc n) is_open =
      inr (rw (fetch_ledgers, is_open w a) (ap (λ x. (x.0, none)) (is_open w a)))

  batch_open : (w : W) (a b : ℕ) → CircuitOpen → process_ledger_batch indexer w a b ≡ (w, returned)
  unfolding process_ledger_batch process_ledgers
  batch_open w a b is_open = elim (fetch_open w a (b + 1 - a) is_open) [
    | inl e ↦ rw (e, process_ledger_batch) (ap (λ x. (x.0, returned)) e)
    | inr e ↦ rw (e, process_ledger_batch) (ap (λ x. (x.0, returned)) e)
  ]

  batches_open : (w : W) (rs : List (ℕ × ℕ)) → CircuitOpen → batches indexer w rs ≡ w
  unfolding batches
  batches_open w [] is_open = refl
  batches_open w ((a, b) ∷ rs) is_open = rw (batch_open w a b is_open) (batches_open w rs is_open)

  -- While the circuit is open, every batch returns without an error. So a backfill that starts at or below
  -- its end leaves its job completed up to the end, with all ledgers counted, though it has processed none
  -- and changed nothing else.
  pub open_circuit_completes :
      (start end : ℕ) (w : W) (t : Table) (now : ℕ)
      → CircuitOpen
      → ((w' : W) → indexer.is_running w' ≡ true)
      → 0 < indexer.backfill_batch_size
      → start ≤ end
      → load_job (new (job_id_of start end) (some "public") start end) t ≡ none
      → let (s, loop_end) = backfill_ledgers indexer start end w t now in
        (s.world ≡ w)
        × (progress_of (load_job (new (job_id_of start end) (some "public") start end) s.table)
            ≡ some (completed, some end, end + 1 - start))
  unfolding start_of
  open_circuit_completes start end w t now is_open running size below missing =
      let from : start_of start (load_job (new (job_id_of start end) (some "public") start end) t)
          ≡ record { resume_from = start; processed = 0; skipped = 0; failed = 0 } =
        rw missing refl in
      let first = ap (λ (x : Start). x.resume_from) from in
      let returns : Returns indexer =
        (running, λ x a b. ap (λ y. y.1) (batch_open x a b is_open)) in
      let ((rs, world, _), _, job) =
        backfill_ledgers-each indexer start end w t now returns size (omega (arith, first)) in
      let counted : 0 + (end + 1 - start) ≡ end + 1 - start = omega arith in
      (
        world ∙ batches_open w rs is_open,
        job
            ∙ ap
                (λ (x : Start). some (completed, some end, x.processed + (end + 1 - x.resume_from)))
                from
            ∙ ap (λ n. some (completed, some end, n)) counted,
      )

  run_batches-stopped :
      (fuel : ℕ) (m : BackfillCheckpointManager) (from : Start) (sequence : ℕ) (s : State W)
      (now : ℕ)
      → indexer.is_running s.world ≡ false
      → sequence ≤ m.end_sequence
      → 0 < fuel
      → run_batches indexer fuel m from sequence s now ≡ (
        record s {
          table =
              mark_cancelled m s.table
                (record {
                  last_processed_sequence = some (sequence - 1);
                  processed_count = s.processed;
                  skipped_count = from.skipped;
                  failed_count = from.failed;
                })
                now;
        },
        stopped,
      )
  unfolding run_batches
  run_batches-stopped zero m from sequence s now halted below enough = elim enough [ ]
  run_batches-stopped (suc fuel) m from sequence s now halted below enough =
      rw (le→ltb_false m.end_sequence sequence below, halted) refl

  -- A backfill resumed after a crash, on an indexer that is not running any more, does nothing; but where the
  -- last sequence and the counts of the job add up to the end, which they do from the middle of the
  -- range on, the job is completed.
  pub stopped_completes :
      (start end last : ℕ) (w : W) (t : Table) (now : ℕ) (j : BackfillJob)
      → indexer.is_running w ≡ false
      → load_job (new (job_id_of start end) (some "public") start end) t ≡ some j
      → j.status ≡ in_progress
      → j.last_processed_sequence ≡ some (suc last)
      → suc last < end
      → end ≤ suc last + j.processed_count + j.skipped_count
      → let (s, loop_end) = backfill_ledgers indexer start end w t now in
        (s.world ≡ w)
        × (loop_end ≡ stopped)
        × (progress_of (load_job (new (job_id_of start end) (some "public") start end) s.table)
            ≡ some (completed, some end, j.processed_count))
  unfolding backfill_ledgers start_of next_seq new
  stopped_completes start end last w t now j halted found running at_last before counts =
      let m = new (job_id_of start end) (some "public") start end in
      let existing = load_job m t in
      let from = start_of start existing in
      let begun = if resumes existing then t else create_job m t now in
      let state : State W = record { world = w; table = begun; processed = from.processed } in
      let known : from ≡ record {
        resume_from = suc last + 1;
        processed = j.processed_count;
        skipped = j.skipped_count;
        failed = j.failed_count;
      } =
        rw (found, at_last, running) refl in
      let first = ap (λ (x : Start). x.resume_from) known in
      let done : ltb end (next_seq existing from from.processed) ≡ true =
        rw (found, at_last, running) (ground arith) in
      let ran =
        run_batches-stopped (end + 1 - from.resume_from) m from from.resume_from state now halted
          (omega (arith, first)) (omega (arith, first)) in
      rw (ran, backfill_ledgers, ap (λ x. x.0.processed) ran, done)
        (
          ap (λ x. x.0.world) ran,
          refl,
          completed-progress m _ _ now (
                ap (λ x. is_some (load_job m x.0.table)) ran
                ∙ cancel-is_some m begun _ now
                ∙ begun-is_some m t now)
              ∙ ap (λ (x : Start). some (completed, some end, x.processed)) known,
        )
