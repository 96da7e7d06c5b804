-- ===== src/Backfill/Run.antt =====
-- backfillFromSequence, backfillLedgers and processLedgerBatch of
-- packages/indexer/src/services/indexer-service.ts. W is the state that fetching and processing work on.
-- Sequences are positive, as the callers check: `sequence - 1` is no truncation. NOW() is the same in
-- one run. The progress tracker, logs and metrics are left out.
pub mod Batches
pub mod Complete
pub mod Crash
pub mod Flaws
use Prim.Native.String.{◌++◌ as append}
use stellar_analytics_dashbo.Prelude.{
  ℕ, zero, suc, ◌+◌, ◌-◌, ◌≤◌, ◌<◌, ◌≡◌, Bool, true, false, ◌&&◌, ◌||◌, not, Option, none, some,
  List, [], ◌∷◌, ◌++◌, String, if◌then◌else◌, map, ltb, leb, ◌==◌, find, any, filter, or_default,
  min, max,
}
use stellar_analytics_dashbo.Prelude.Decimal.{decimal}
use stellar_analytics_dashbo.Backfill.Checkpoint.{
  BackfillJob, CheckpointProgress, BackfillCheckpointManager, Table, new, is_in_progress,
  create_job, load_job, save_checkpoint, mark_completed, mark_cancelled,
}

-- What fetching a ledger gives: the ledger, CircuitOpenError, or another error.
pub data Fetched (L : Type 0) : Type 0 where
  ledger : L → Fetched L
  circuit_open fetch_error : Fetched L

-- How a batch ends: it returns, or the processing of a ledger throws.
pub data BatchEnd : Type 0 where
  returned : BatchEnd
  thrown : String → BatchEnd

pub record Indexer (W L : Type 0) : Type 0 where
  pub is_running : W → Bool
  pub get_ledger : W → ℕ → W × Fetched L
  pub process_together : W → L → List L → W × BatchEnd
  pub backfill_batch_size : ℕ

-- How the loop over the batches ends: by its condition, by `break`, or by an error.
pub data LoopEnd : Type 0 where
  finished stopped failed : LoopEnd

pub record State (W : Type 0) : Type 0 where
  pub world : W
  pub table : Table
  pub processed : ℕ

-- Where a run starts and with which counts.
pub record Start : Type 0 where
  pub resume_from : ℕ
  pub processed : ℕ
  pub skipped : ℕ
  pub failed : ℕ

unfoldable pub job_id_of : ℕ → ℕ → String
job_id_of start end = append "backfill:" (append (decimal start) (append "-" (decimal end)))

-- A number that is truthy.
abbrev pub truthy : Option ℕ → Option ℕ
truthy none = none
truthy (some zero) = none
truthy (some (suc n)) = some (suc n)

unfoldable pub start_of : ℕ → Option BackfillJob → Start
start_of start existing =
    let fresh : Start = record { resume_from = start; processed = 0; skipped = 0; failed = 0 } in
    elim existing [
      | none ↦ fresh
      | some j ↦ elim (truthy j.last_processed_sequence) [
        | none ↦ fresh
        | some last ↦
            if is_in_progress j.status
            then record {
              resume_from = last + 1;
              processed = j.processed_count;
              skipped = j.skipped_count;
              failed = j.failed_count;
            }
            else fresh
      ]
    ]

-- `existingJob && status === 'in_progress' && lastProcessedSequence`.
unfoldable pub resumes : Option BackfillJob → Bool
resumes none = false
resumes (some j) = elim (truthy j.last_processed_sequence) [
  | none ↦ false
  | some last ↦ is_in_progress j.status
]

-- One more than `lastSeq`.
unfoldable pub next_seq : Option BackfillJob → Start → ℕ → ℕ
next_seq existing from processed =
    let reached : Option ℕ = elim existing [
      | none ↦ none
      | some j ↦ truthy j.last_processed_sequence
    ] in
    elim reached [
      | none ↦ from.resume_from + processed + from.skipped
      | some last ↦ max (last + 1) from.resume_from + (processed + from.skipped)
    ]

module _ {W L : Type 0} (indexer : Indexer W L) where
  -- The loop over `count` sequences: none where CircuitOpenError ends the batch.
  unfoldable pub fetch_ledgers : W → ℕ → ℕ → W × Option (List L)
  fetch_ledgers w sequence zero = (w, some [])
  fetch_ledgers w sequence (suc count) =
      let (w', fetched) = indexer.get_ledger w sequence in
      let (w'', rest) = fetch_ledgers w' (suc sequence) count in
      elim fetched [
        | circuit_open ↦ (w', none)
        | fetch_error ↦ (w'', rest)
        | ledger l ↦ (w'', elim rest [ none ↦ none | some ls ↦ some (l ∷ ls) ])
      ]

  -- Promise.all of no ledgers returns at once. Of a ledger and more, processLedger runs on all of them
  -- at the same time, and their parts interleave: what this comes to is a parameter.
  unfoldable pub process_ledgers : W → List L → W × BatchEnd
  process_ledgers w [] = (w, returned)
  process_ledgers w (l ∷ ls) = indexer.process_together w l ls

  unfoldable pub process_ledger_batch : W → ℕ → ℕ → W × BatchEnd
  process_ledger_batch w start end =
      let (w', fetched) = fetch_ledgers w start (end + 1 - start) in
      elim fetched [ none ↦ (w', returned) | some ls ↦ process_ledgers w' ls ]

  -- The loop. In the handler of a batch's error, `failedCount` is no variable: the error that this throws
  -- leaves backfillLedgers before the job is marked as failed.
  unfoldable pub run_batches :
      ℕ → BackfillCheckpointManager → Start → ℕ → State W → ℕ → State W × LoopEnd
  run_batches zero m from sequence s now = (s, finished)
  run_batches (suc fuel) m from sequence s now =
      let batch_end = min (sequence + indexer.backfill_batch_size - 1) m.end_sequence in
      let (w', end) = process_ledger_batch s.world sequence batch_end in
      let processed = s.processed + (batch_end + 1 - sequence) in
      let saved : State W = record {
        world = w';
        table =
            save_checkpoint m s.table
              (record {
                last_processed_sequence = some batch_end;
                processed_count = processed;
                skipped_count = from.skipped;
                failed_count = from.failed;
              })
              now;
        processed = processed;
      } in
      let rest = run_batches fuel m from (sequence + indexer.backfill_batch_size) saved now in
      if ltb m.end_sequence sequence
      then (s, finished)
      else if not (indexer.is_running s.world)
      then (
        record s {
          table =
              mark_cancelled m s.table
                (record {
                  last_processed_sequence = some (sequence - 1);
                  processed_count = s.processed;
                  skipped_count = from.skipped;
                  failed_count = from.failed;
                })
                now;
        },
        stopped,
      )
      else elim end [ thrown message ↦ (record s { world = w' }, failed) | returned ↦ rest ]

  -- The fuel is the number of sequences left: a batch has one at least.
  unfoldable pub backfill_ledgers : ℕ → ℕ → W → Table → ℕ → State W × LoopEnd
  backfill_ledgers start end w t now =
      let m = new (job_id_of start end) (some "public") start end in
      let existing = load_job m t in
      let from = start_of start existing in
      let begun = if resumes existing then t else create_job m t now in
      let (s, loop_end) =
        run_batches (end + 1 - from.resume_from) m from from.resume_from
          (record { world = w; table = begun; processed = from.processed }) now in
      let completed = record s {
        table =
            mark_completed m s.table
              (record {
                last_processed_sequence = some end;
                processed_count = s.processed;
                skipped_count = from.skipped;
                failed_count = from.failed;
              })
              now;
      } in
      elim loop_end [
        | failed ↦ (s, failed)
        | finished ↦
            (if ltb end (next_seq existing from s.processed) then completed else s, finished)
        | stopped ↦ (if ltb end (next_seq existing from s.processed) then completed else s, stopped)
      ]

  -- backfillFromSequence, with the end that it resolves: the end that was asked for where it is positive,
  -- else ten ledgers behind the latest.
  unfoldable pub resolve_end : ℕ → Option ℕ → ℕ → ℕ
  resolve_end start asked latest = or_default (truthy asked) (max (latest - 10) start)

  unfoldable pub backfill_from_sequence : ℕ → ℕ → W → Table → ℕ → State W × LoopEnd
  backfill_from_sequence start end w t now =
      if ltb end start
      then (record { world = w; table = t; processed = 0 }, finished)
      else let m = new (job_id_of start end) (some "public") start end in
        backfill_ledgers (start_of start (load_job m t)).resume_from end w t now
