-- ===== src/Legacy/Backfill.antt =====
-- indexer/src/backfill.ts but for its worker pool. The table ledgers is the list of its sequence
-- numbers. What happens while a run awaits is a list of rounds, one for each batch: whether the
-- signal has aborted by then, and the events of the batch's worker pool. A run whose rounds are used
-- up still awaits. The signal is only read; progress reports, delays and logs are left out. Sequence
-- numbers start at 1.
pub mod Rounds
pub mod Tasks
pub mod Status
pub mod Ends
pub mod Quiet
pub mod Complete
use Prim.Native.String.{◌++◌}
use stellar_analytics_dashbo.Prelude.{
  ℕ, zero, suc, ◌+◌, ◌-◌, Bool, true, false, ◌||◌, not, Option, none, some, List, [], ◌∷◌, String,
  ltb, if◌then◌else◌, length, take, drop, get_elem?,
}
use stellar_analytics_dashbo.Prelude.Decimal.{decimal}
use stellar_analytics_dashbo.Backfill.Checkpoint.{
  BackfillJob, CheckpointProgress, Table, is_in_progress,
}
use stellar_analytics_dashbo.Legacy.Checkpoint.{
  create_checkpoint, save, mark_checkpoint_completed, mark_checkpoint_failed,
  mark_checkpoint_cancelled, load_checkpoint,
}
use stellar_analytics_dashbo.Legacy.Workers.{
  Settled, fulfilled, rejected, Workers, Event, is_in, start_workers, run, is_done,
}
use stellar_analytics_dashbo.Legacy.Ledgers.{
  BackfillOptions, Calls, Processing, insert_ledger, is_ledger_indexed, process_one_ledger,
  processed, skipped, task_of, write_ingested_data,
}

pub record Counters : Type 0 where
  pub processed : ℕ
  pub skipped : ℕ
  pub failed : ℕ
  pub last_failed : Option ℕ

unfoldable pub count_result : ℕ → Option (Settled Processing) → Counters → Counters
count_result sequence none c = c
count_result sequence (some (fulfilled Processing.skipped)) c = record c { skipped = suc c.skipped }
count_result sequence (some (fulfilled Processing.processed)) c = record c {
  processed = suc c.processed;
}
count_result sequence (some (rejected e)) c = record c {
  failed = suc c.failed;
  last_failed = some sequence;
}

-- `results.forEach`, which passes over holes. The batch is read from index `i` on.
unfoldable pub tally : (ℕ → Option (Settled Processing)) → ℕ → List ℕ → Counters → Counters
tally results i [] c = c
tally results i (sequence ∷ batch) c =
    tally results (suc i) batch (count_result sequence (results i) c)

abbrev pub last_of : List ℕ → Option ℕ
last_of [] = none
last_of (x ∷ []) = some x
last_of (x ∷ y ∷ xs) = last_of (y ∷ xs)

abbrev pub is_nil : List ℕ → Bool
is_nil [] = true
is_nil (x ∷ xs) = false

-- What goes on in a batch: the signal before it, its events, and the time that the database has after.
pub record Round : Type 0 where
  pub signal : Bool
  pub events : List Event
  pub now : ℕ

-- Between two batches. `last` is the sequence before those that are left.
pub record Loop : Type 0 where
  pub ledgers : List ℕ
  pub checkpoints : Table
  pub counters : Counters
  pub aborted : Bool
  pub last : Option ℕ
  pub rest : List ℕ

abbrev pub progress_of : Option ℕ → Counters → CheckpointProgress
progress_of last c = record {
  last_processed_sequence = last;
  processed_count = c.processed;
  skipped_count = c.skipped;
  failed_count = c.failed;
}

unfoldable pub job_id_of : BackfillOptions → String
job_id_of o =
    "backfill:"
    ++ (o.network ++ (":" ++ (decimal o.start_sequence ++ ("-" ++ decimal o.end_sequence))))

-- The loop is left by an abort.
unfoldable pub cancel : BackfillOptions → ℕ → Loop → Loop
cancel o now l = record l {
  aborted = true;
  checkpoints =
      if o.pool
      then mark_checkpoint_cancelled (job_id_of o) (progress_of l.last l.counters) l.checkpoints now
      else l.checkpoints;
}

abbrev pub batch_of : BackfillOptions → Loop → List ℕ
batch_of o l = take o.backfill_batch_size l.rest

-- The worker pool of the next batch, after its events.
unfoldable pub workers_of :
    BackfillOptions → Calls → List Event → Loop → Workers (List ℕ) Processing
workers_of o calls events l =
    run (task_of o calls (batch_of o l)) events
      (start_workers o.backfill_concurrency (length (batch_of o l)) l.aborted l.ledgers)

unfoldable pub after_batch : BackfillOptions → ℕ → Workers (List ℕ) Processing → Loop → Loop
after_batch o now w l =
    let counters = tally w.results 0 (batch_of o l) l.counters in
    let last = last_of (batch_of o l) in
    record {
      ledgers = w.state;
      checkpoints =
          if o.pool
          then save (job_id_of o) (progress_of last counters) l.checkpoints now
          else l.checkpoints;
      counters = counters;
      aborted = w.aborted;
      last = last;
      rest = drop o.backfill_batch_size l.rest;
    }

unfoldable pub run_batches : BackfillOptions → Calls → List Round → Loop → Option Loop
run_batches o calls [] l = if is_nil l.rest then some l else none
run_batches o calls (r ∷ rs) l =
    let w = workers_of o calls r.events l in
    let next = run_batches o calls rs (after_batch o r.now w l) in
    if is_nil l.rest
    then some l
    else if l.aborted || r.signal
    then some (cancel o r.now l)
    else if is_done w
    then next
    else none

pub record BackfillResult : Type 0 where
  pub processed : ℕ
  pub skipped : ℕ
  pub failed : ℕ
  pub resume_from : Option ℕ

pub data Outcome : Type 0 where
  thrown : Outcome
  awaiting : Outcome
  returned : BackfillResult → List ℕ → Table → Outcome

-- for (seq = from; seq <= to; seq++).
unfoldable pub sequences_from : ℕ → ℕ → List ℕ
sequences_from zero seq = []
sequences_from (suc n) seq = seq ∷ sequences_from n (seq + 1)

unfoldable pub sequences : ℕ → ℕ → List ℕ
sequences from to = sequences_from (to + 1 - from) from

-- The error message of markCheckpointFailed.
unfoldable pub failure_message : ℕ → ℕ → String
failure_message count last_failed =
    "Backfill completed with "
    ++ (decimal count ++ (" failed ledger(s). Last failed: " ++ decimal last_failed))

-- The final status, with the last sequence to work on.
unfoldable pub finish : BackfillOptions → Option ℕ → ℕ → Loop → Table
finish o last now l = if not o.pool then l.checkpoints else elim l.counters.last_failed [
  | some sequence ↦
      mark_checkpoint_failed (job_id_of o) (failure_message l.counters.failed sequence)
        (progress_of last l.counters) l.checkpoints now
  | none ↦
      mark_checkpoint_completed (job_id_of o) (progress_of (some o.end_sequence) l.counters)
        l.checkpoints now
]

abbrev pub no_counts : Counters
no_counts = record { processed = 0; skipped = 0; failed = 0; last_failed = none }

abbrev pub loop_at : ℕ → Counters → List ℕ → Table → ℕ → Loop
loop_at from c ledgers checkpoints to = record {
  ledgers = ledgers;
  checkpoints = checkpoints;
  counters = c;
  aborted = false;
  last = some (from - 1);
  rest = sequences from to;
}

unfoldable pub begin_fresh : BackfillOptions → List ℕ → Table → ℕ → Loop
begin_fresh o ledgers checkpoints now =
    loop_at o.start_sequence no_counts ledgers
      (create_checkpoint (job_id_of o) o.network o.start_sequence o.end_sequence checkpoints now)
      o.end_sequence

unfoldable pub begin_existing : BackfillOptions → List ℕ → Table → ℕ → Option BackfillJob → Loop
begin_existing o ledgers checkpoints now none = begin_fresh o ledgers checkpoints now
begin_existing o ledgers checkpoints now (some job) =
    if not (is_in_progress job.status)
    then begin_fresh o ledgers checkpoints now
    else elim job.last_processed_sequence [
      | none ↦ begin_fresh o ledgers checkpoints now
      | some last ↦
          loop_at (last + 1)
            (record {
              processed = job.processed_count;
              skipped = job.skipped_count;
              failed = job.failed_count;
              last_failed = none;
            })
            ledgers checkpoints o.end_sequence
    ]

-- The loop at its start: from the checkpoint of a job in progress, else from the start.
unfoldable pub begin_backfill : BackfillOptions → List ℕ → Table → ℕ → Loop
begin_backfill o ledgers checkpoints now =
    if o.pool
    then begin_existing o ledgers checkpoints now (load_checkpoint (job_id_of o) checkpoints)
    else loop_at o.start_sequence no_counts ledgers checkpoints o.end_sequence

abbrev pub or_else : Option ℕ → Option ℕ → Option ℕ
or_else none d = d
or_else (some x) d = some x

unfoldable pub return_loop : BackfillOptions → Loop → ℕ → Option Loop → Outcome
return_loop o first now none = awaiting
return_loop o first now (some l) =
    returned
      (record {
        processed = l.counters.processed;
        skipped = l.counters.skipped;
        failed = l.counters.failed;
        resume_from = l.counters.last_failed;
      })
      l.ledgers (finish o (or_else (last_of first.rest) first.last) now l)

-- `now` is the time of its first query, `end` of its last.
unfoldable pub run_backfill :
    BackfillOptions → Calls → List Round → List ℕ → Table → ℕ → ℕ → Outcome
run_backfill o calls rounds ledgers checkpoints now end =
    let first = begin_backfill o ledgers checkpoints now in
    if ltb o.end_sequence o.start_sequence
    then thrown
    else return_loop o first end (run_batches o calls rounds first)
