-- ===== src/Backfill/Run/Batches.antt =====
-- The loop of backfillLedgers over batches that all return.
use stellar_analytics_dashbo.Prelude.{
  ℕ, zero, suc, ◌+◌, ◌-◌, ◌≤◌, ◌<◌, ◌≡◌, true, false, some, ltb, min, List, [], ◌∷◌, is_some, refl,
  sym, subst, ◌∙◌, arith, Bool-cases, inl, inr,
}
use stellar_analytics_dashbo.Backfill.Checkpoint.{
  CheckpointProgress, BackfillCheckpointManager, Table, load_job, save_checkpoint,
}
use stellar_analytics_dashbo.Backfill.Checkpoint.Jobs.{apply, saves, apply-find}
use stellar_analytics_dashbo.Backfill.Run.{
  returned, Indexer, LoopEnd, finished, State, Start, process_ledger_batch, run_batches,
}

pub le→ltb_false : (a b : ℕ) → b ≤ a → ltb a b ≡ false
le→ltb_false a b h = ground arith

-- Batches that make up the ranges from a sequence to the end: each starts behind the one before it, and has
-- one sequence at least and `size` at most.
unfoldable pub Tiles : ℕ → ℕ → ℕ → List (ℕ × ℕ) → Type 0
Tiles size sequence end [] = sequence ≡ end + 1
Tiles size sequence end ((a, b) ∷ rest) =
    (a ≡ sequence) × (a ≤ b) × (b < a + size) × Tiles size (b + 1) end rest

save-is_some :
    (m : BackfillCheckpointManager) (t : Table) (p : CheckpointProgress) (now : ℕ)
    → is_some (load_job m (save_checkpoint m t p now)) ≡ is_some (load_job m t)
unfolding load_job apply
save-is_some m t p now = ground (arith, apply-find m (saves p) t now m.job_id)

module _ {W L : Type 0} (indexer : Indexer W L) where
  -- The indexer runs on, and no batch throws.
  abbrev pub Returns : Type 0
  Returns =
      ((w : W) → indexer.is_running w ≡ true)
      × ((w : W) (a b : ℕ) → (process_ledger_batch indexer w a b).1 ≡ returned)

  -- What processLedgerBatch does on one range after another.
  unfoldable pub batches : W → List (ℕ × ℕ) → W
  batches w [] = w
  batches w ((a, b) ∷ rest) = batches (process_ledger_batch indexer w a b).0 rest

  abbrev pub batch_end_of : BackfillCheckpointManager → ℕ → ℕ
  batch_end_of m sequence = min (sequence + indexer.backfill_batch_size - 1) m.end_sequence

  abbrev pub saved_state : BackfillCheckpointManager → Start → ℕ → State W → ℕ → State W
  saved_state m from sequence s now =
      let batch_end = batch_end_of m sequence in
      let processed = s.processed + (batch_end + 1 - sequence) in
      record {
        world = (process_ledger_batch indexer s.world sequence batch_end).0;
        table =
            save_checkpoint m s.table
              (record {
                last_processed_sequence = some batch_end;
                processed_count = processed;
                skipped_count = from.skipped;
                failed_count = from.failed;
              })
              now;
        processed = processed;
      }

  pub run_batches-step :
      (fuel : ℕ) (m : BackfillCheckpointManager) (from : Start) (sequence : ℕ) (s : State W)
      (now : ℕ)
      → Returns
      → sequence ≤ m.end_sequence
      → run_batches indexer (suc fuel) m from sequence s now
        ≡ run_batches indexer fuel m from
            (sequence + indexer.backfill_batch_size)
            (saved_state m from sequence s now)
            now
  unfolding run_batches
  run_batches-step fuel m from sequence s now (runs, batch) below =
      rw
        (
          runs s.world,
          batch s.world sequence (batch_end_of m sequence),
          le→ltb_false m.end_sequence sequence below,
        )
        refl

  run_batches-end :
      (fuel : ℕ) (m : BackfillCheckpointManager) (from : Start) (sequence : ℕ) (s : State W)
      (now : ℕ)
      → ltb m.end_sequence sequence ≡ true
      → run_batches indexer (suc fuel) m from sequence s now ≡ (s, finished)
  unfolding run_batches
  run_batches-end fuel m from sequence s now e = rw e refl

  abbrev pub Worked : BackfillCheckpointManager → ℕ → State W → State W × LoopEnd → Type 0
  Worked m sequence s (s', end) =
      let last = m.end_sequence in
      ((rs : List (ℕ × ℕ)) × (s'.world ≡ batches s.world rs)
        × Tiles indexer.backfill_batch_size (min sequence (last + 1)) last rs)
      × (s'.processed ≡ s.processed + (last + 1 - sequence))
      × (end ≡ finished)
      × (is_some (load_job m s'.table) ≡ is_some (load_job m s.table))

  nothing_left :
      (m : BackfillCheckpointManager) (sequence : ℕ) (s : State W)
      → m.end_sequence < sequence
      → Worked m sequence s (s, finished)
  unfolding Tiles batches
  nothing_left m sequence s over = (([], refl, omega arith), omega arith, refl, refl)

  pub run_batches-Worked :
      (fuel : ℕ) (m : BackfillCheckpointManager) (from : Start) (sequence : ℕ) (s : State W)
      (now : ℕ)
      → Returns
      → 0 < indexer.backfill_batch_size
      → m.end_sequence + 1 - sequence ≤ fuel
      → Worked m sequence s (run_batches indexer fuel m from sequence s now)
  unfolding run_batches Tiles batches
  run_batches-Worked zero m from sequence s now returns size enough =
      nothing_left m sequence s (omega arith)
  run_batches-Worked (suc fuel) m from sequence s now returns size enough =
      elim (Bool-cases (ltb m.end_sequence sequence)) [
        | inl e ↦
            subst (Worked m sequence s) (sym (run_batches-end fuel m from sequence s now e))
              (nothing_left m sequence s (ground arith))
        | inr e ↦
            let next = sequence + indexer.backfill_batch_size in
            let batch_end = batch_end_of m sequence in
            let below : sequence ≤ m.end_sequence = ground arith in
            let ((rs, world, tiles), processed, ending, row) =
              run_batches-Worked fuel m from next (saved_state m from sequence s now) now returns
                size (omega arith) in
            let behind : min next (m.end_sequence + 1) ≡ batch_end + 1 = omega arith in
            subst (Worked m sequence s)
              (sym (run_batches-step fuel m from sequence s now returns below))
              (
                (
                  (sequence, batch_end) ∷ rs,
                  world,
                  (
                    omega arith,
                    omega arith,
                    omega arith,
                    subst (λ n. Tiles indexer.backfill_batch_size n m.end_sequence rs) behind tiles,
                  ),
                ),
                processed ∙ omega arith,
                ending,
                row ∙ save-is_some m s.table _ now,
              )
      ]
