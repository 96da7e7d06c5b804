-- ===== src/Legacy/Examples.antt =====
-- Runs of indexer/src/backfill.ts, and its theorems at concrete inputs.
use stellar_analytics_dashbo.Prelude.{
  ℕ, suc, zero, ◌+◌, ◌≤◌, ◌≡◌, ◌⊎◌, inl, refl, ap, true, false, none, some, List, [], ◌∷◌, ◌++◌,
  arith, find, length, is_some,
}
use stellar_analytics_dashbo.Prelude.Decimal.{decimal, digits, digit}
use stellar_analytics_dashbo.Backfill.Checkpoint.{completed, BackfillJob, Table, is_job, load_job}
use stellar_analytics_dashbo.Legacy.Checkpoint.{load_checkpoint}
use stellar_analytics_dashbo.Legacy.Workers.{
  Settled, fulfilled, rejected, Workers, Event, settles, is_in, start_workers, run, is_done,
  begin_workers, take_next, step, settle, erase,
}
use stellar_analytics_dashbo.Legacy.Workers.Validity.{Distinct}
use stellar_analytics_dashbo.Legacy.Workers.Ends.{settled, in_flight_bounded, run_ends}
use stellar_analytics_dashbo.Legacy.Ledgers.{
  BackfillOptions, Calls, task_of, process_one_ledger, is_ledger_indexed, write_ingested_data,
  insert_ledger,
}
use stellar_analytics_dashbo.Legacy.Backfill.{
  Round, Outcome, returned, BackfillResult, job_id_of, begin_backfill, run_backfill, sequences,
  sequences_from, run_batches, workers_of, after_batch, tally, count_result, begin_existing,
  begin_fresh, return_loop, finish,
}
use stellar_analytics_dashbo.Legacy.Backfill.Status.{Reports}
use stellar_analytics_dashbo.Legacy.Backfill.Ends.{run_backfill-status, aborted_completes}
use stellar_analytics_dashbo.Legacy.Backfill.Tasks.{total}
use stellar_analytics_dashbo.Legacy.Backfill.Complete.{run_backfill-total, run_backfill-stores}

-- Three tasks, of which the second fails, on two workers; the second settles first.
abbrev numbers : ℕ → ℕ → Settled ℕ × ℕ
numbers (suc zero) s = (rejected "second", s + 1)
numbers i s = (fulfilled i, s + 1)

abbrev pool : List Event → Workers ℕ ℕ
pool es = run numbers es (start_workers 2 3 false 0)

abbrev all_settle : List Event
all_settle = settles 1 ∷ settles 0 ∷ settles 2 ∷ []

pool_second : (pool (settles 1 ∷ [])).in_flight ≡ 2 ∷ 0 ∷ []
unfolding run start_workers begin_workers take_next step settle erase
pool_second = refl

pool_ends : is_done (pool all_settle) ≡ true
unfolding run start_workers begin_workers take_next step settle erase
pool_ends = refl

in_flight_bounded_example :
    (length (pool (settles 1 ∷ [])).in_flight ≤ 2) × Distinct (pool (settles 1 ∷ [])).in_flight
in_flight_bounded_example = in_flight_bounded numbers 2 3 false 0 (settles 1 ∷ [])

run_ends_example :
    (settled numbers (settles 1 ∷ []) (start_workers 2 3 false 0) ≤ 3)
    × (fs : List Event) × (is_done (pool ((settles 1 ∷ []) ++ fs)) ≡ true)
run_ends_example = run_ends numbers 2 3 false 0 (settles 1 ∷ [])

-- Ledgers 5 to 7 in batches of two; ledger 6 is stored already.
abbrev options : BackfillOptions
options = record {
  network = "testnet";
  start_sequence = 5;
  end_sequence = 7;
  pool = true;
  account = false;
  backfill_concurrency = 2;
  backfill_batch_size = 2;
}

abbrev calls : Calls
calls = record { fetch_one_ledger = λ q. none; query_fails = λ q. false; write_error = λ q. none }

abbrev no_jobs : Table
no_jobs = record { rows = []; next_id = 1 }

abbrev rounds : List Round
rounds =
    record { signal = false; events = settles 0 ∷ settles 1 ∷ []; now = 20 }
    ∷ record { signal = false; events = settles 0 ∷ []; now = 30 }
    ∷ []

abbrev outcome : Outcome
outcome = run_backfill options calls rounds (6 ∷ []) no_jobs 10 40

abbrev result_of : Outcome → BackfillResult
result_of (returned r ledgers t) = r
result_of o = record { processed = 0; skipped = 0; failed = 0; resume_from = none }

abbrev ledgers_of : Outcome → List ℕ
ledgers_of (returned r ledgers t) = ledgers
ledgers_of o = []

abbrev table_of : Outcome → Table
table_of (returned r ledgers t) = t
table_of o = no_jobs

outcome_result :
    result_of outcome ≡ record { processed = 2; skipped = 1; failed = 0; resume_from = none }
unfolding run_backfill begin_backfill begin_existing begin_fresh sequences sequences_from
    run_batches workers_of after_batch tally count_result task_of process_one_ledger
    is_ledger_indexed write_ingested_data insert_ledger return_loop finish run start_workers
    begin_workers take_next step settle erase load_checkpoint load_job job_id_of decimal digits
    digit
outcome_result = refl

outcome_returned : outcome ≡ returned (result_of outcome) (ledgers_of outcome) (table_of outcome)
unfolding run_backfill begin_backfill begin_existing begin_fresh sequences sequences_from
    run_batches workers_of after_batch tally count_result task_of process_one_ledger
    is_ledger_indexed write_ingested_data insert_ledger return_loop finish run start_workers
    begin_workers take_next step settle erase load_checkpoint load_job job_id_of decimal digits
    digit
outcome_returned = refl

run_backfill-status_example :
    (j : BackfillJob) × (find (is_job (job_id_of options)) (table_of outcome).rows ≡ some j)
    × Reports options (result_of outcome) j
    × ((is_some (result_of outcome).resume_from ≡ true) ⊎ (j.last_processed_sequence ≡ some 7))
run_backfill-status_example =
    run_backfill-status options calls rounds (6 ∷ []) no_jobs 10 40 refl outcome_returned

not_loaded : load_checkpoint (job_id_of options) no_jobs ≡ none
unfolding load_checkpoint load_job
not_loaded = refl

aborted_completes_example :
    (t' : Table) × (run_backfill options calls
        (record { signal = true; events = []; now = 20 } ∷ [])
        []
        no_jobs
        10
        40
      ≡ returned (record { processed = 0; skipped = 0; failed = 0; resume_from = none }) [] t')
    × (j : BackfillJob) × (find (is_job (job_id_of options)) t'.rows ≡ some j)
    × (j.status ≡ completed)
    × (j.last_processed_sequence ≡ some 7)
aborted_completes_example =
    aborted_completes options calls [] 20 [] [] no_jobs 10 40 refl (omega arith) not_loaded

run_backfill-total_example :
    (result_of outcome).processed + (result_of outcome).skipped + (result_of outcome).failed
    ≡ total (begin_backfill options (6 ∷ []) no_jobs 10).counters
      + length (begin_backfill options (6 ∷ []) no_jobs 10).rest
run_backfill-total_example =
    run_backfill-total options calls (omega arith) rounds (6 ∷ []) no_jobs 10 40
      ((refl, refl), ((refl, refl), tt)) outcome_returned

none_failed : (result_of outcome).resume_from ≡ none
none_failed = ap BackfillResult.resume_from outcome_result

seven_left : is_in (begin_backfill options (6 ∷ []) no_jobs 10).rest 7 ≡ true
unfolding begin_backfill begin_existing begin_fresh sequences sequences_from load_checkpoint
    load_job
seven_left = refl

run_backfill-stores_example : is_in (ledgers_of outcome) 7 ≡ true
run_backfill-stores_example =
    run_backfill-stores options calls (omega arith) rounds (6 ∷ []) no_jobs 10 40 refl
      ((refl, refl), ((refl, refl), tt)) outcome_returned none_failed 7 (inl seven_left)
