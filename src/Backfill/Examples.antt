-- ===== src/Backfill/Examples.antt =====
-- Runs of the backfill of indexer-service.ts and of BackfillCheckpointManager.ts, and their theorems at
-- concrete inputs.
use stellar_analytics_dashbo.Prelude.{
  ℕ, zero, suc, ◌+◌, ◌-◌, ◌≡◌, refl, true, false, none, some, List, [], ◌∷◌, ◌++◌, find,
  if◌then◌else◌, arith,
}
use stellar_analytics_dashbo.Prelude.Text.{str_eq}
use stellar_analytics_dashbo.Prelude.Decimal.{decimal, digits, digit}
use stellar_analytics_dashbo.Prelude.Int.{pos}
use stellar_analytics_dashbo.Backfill.Checkpoint.{
  in_progress, completed, BackfillJob, CheckpointProgress, BackfillCheckpointManager, Table, new,
  is_job, load_job, save_checkpoint, update, create_job, first_row,
}
use stellar_analytics_dashbo.Backfill.Checkpoint.Jobs.{apply, saves, next_job, apply-find}
use stellar_analytics_dashbo.Backfill.Run.{
  ledger, circuit_open, returned, Indexer, fetch_ledgers, process_ledgers, process_ledger_batch,
  run_batches, resumes, next_seq, finished, job_id_of, start_of, backfill_ledgers,
}
use stellar_analytics_dashbo.Backfill.Run.Batches.{Tiles, Returns, batches}
use stellar_analytics_dashbo.Backfill.Run.Complete.{progress_of, backfill_ledgers-each}
use stellar_analytics_dashbo.Backfill.Run.Crash.{first_batches}
use stellar_analytics_dashbo.Backfill.Run.Flaws.{open_circuit_completes}

-- The job of ledgers 5 to 9, in progress after ledger 7.
abbrev job : BackfillJob
job = record {
  id = 1;
  job_id = "backfill:5-9";
  network = "public";
  start_sequence = 5;
  end_sequence = 9;
  last_processed_sequence = some 7;
  total_ledgers = pos 5;
  processed_count = 3;
  skipped_count = 0;
  failed_count = 0;
  status = in_progress;
  error_message = none;
  started_at = 10;
  updated_at = 20;
  completed_at = none;
}

abbrev table : Table
table = record { rows = job ∷ []; next_id = 2 }

abbrev empty : Table
empty = record { rows = []; next_id = 1 }

-- An indexer that keeps the list of the ledgers it processed.
abbrev indexer : Indexer (List ℕ) ℕ
indexer = record {
  is_running = λ w. true;
  get_ledger = λ w k. (w, ledger k);
  process_together = λ w l ls. (w ++ l ∷ ls, returned);
  backfill_batch_size = 2;
}

abbrev manager : BackfillCheckpointManager
manager = record {
  job_id = "backfill:5-9";
  network = "public";
  start_sequence = 5;
  end_sequence = 9;
}

abbrev progress : CheckpointProgress
progress = record {
  last_processed_sequence = some 8;
  processed_count = 4;
  skipped_count = 0;
  failed_count = 0;
}

apply-find_example : find (is_job "backfill:5-9") (apply manager (saves progress) table 30).rows ≡ (
    if str_eq "backfill:5-9" "backfill:5-9"
    then next_job manager (saves progress) 2 30 (find (is_job "backfill:5-9") table.rows)
    else find (is_job "backfill:5-9") table.rows)
apply-find_example = apply-find manager (saves progress) table 30 "backfill:5-9"

loads : load_job (new (job_id_of 5 9) (some "public") 5 9) table ≡ some job
unfolding load_job new job_id_of decimal digits digit
loads = refl

fetches : (w : List ℕ) (k n : ℕ) → (ls : List ℕ) × ((fetch_ledgers indexer w k n).1 ≡ some ls)
unfolding fetch_ledgers
fetches w k zero = ([], refl)
fetches w k (suc n) = let (ls, e) = fetches w (suc k) n in (k ∷ ls, rw e refl)

no_throw : (w ls : List ℕ) → (process_ledgers indexer w ls).1 ≡ returned
unfolding process_ledgers
no_throw w [] = refl
no_throw w (l ∷ ls) = refl

indexer_returns : Returns indexer
unfolding process_ledger_batch
indexer_returns = (
  λ w. refl,
  λ w a b. let (ls, e) = fetches w a (b + 1 - a) in rw (e, process_ledger_batch) (no_throw _ ls),
)

backfill_ledgers-each_example :
    let m = new (job_id_of 5 9) (some "public") 5 9 in
    let from = start_of 5 (load_job m empty) in
    let (s, loop_end) = backfill_ledgers indexer 5 9 [] empty 30 in
    ((rs : List (ℕ × ℕ)) × (s.world ≡ batches indexer [] rs) × Tiles 2 from.resume_from 9 rs)
    × (loop_end ≡ finished)
    × (progress_of (load_job m s.table)
        ≡ some (completed, some 9, from.processed + (10 - from.resume_from)))
unfolding start_of load_job
backfill_ledgers-each_example =
    backfill_ledgers-each indexer 5 9 [] empty 30 indexer_returns (omega arith) (omega arith)

-- After the crash ledger 7 is processed again, and none is left out.
resumed_run :
    (backfill_ledgers indexer 5 9
      (5 ∷ 6 ∷ 7 ∷ [])
      (first_batches indexer 1 5 9 [] empty 30).table
      60).0.world
    ≡ 5 ∷ 6 ∷ 7 ∷ 7 ∷ 8 ∷ 9 ∷ []
unfolding backfill_ledgers run_batches process_ledger_batch process_ledgers fetch_ledgers start_of
    load_job resumes new job_id_of decimal digits digit save_checkpoint update create_job first_row
    next_seq
resumed_run = refl

abbrev broken : Indexer (List ℕ) ℕ
broken = record indexer { get_ledger = λ w k. (w, circuit_open) }

nothing_there : load_job (new (job_id_of 5 9) (some "public") 5 9) empty ≡ none
unfolding load_job
nothing_there = refl

open_circuit_completes_example :
    let (s, loop_end) = backfill_ledgers broken 5 9 [] empty 30 in
    (s.world ≡ [])
    × (progress_of (load_job (new (job_id_of 5 9) (some "public") 5 9) s.table)
        ≡ some (completed, some 9, 9 + 1 - 5))
open_circuit_completes_example =
    open_circuit_completes broken 5 9 [] empty 30 (λ w k. refl) (λ w. refl) (omega arith)
      (omega arith) nothing_there

abbrev halted : Indexer (List ℕ) ℕ
halted = record indexer { is_running = λ w. false }
