-- ===== src/Legacy/Checkpoint.antt =====
-- indexer/src/checkpoint.ts. Its queries on the table backfill_checkpoints are those of
-- packages/indexer/src/backfill/BackfillCheckpointManager.ts, with the job's id for a manager.
use stellar_analytics_dashbo.Prelude.{ℕ, Option, String}
use stellar_analytics_dashbo.Backfill.Checkpoint.{
  BackfillJob, CheckpointProgress, BackfillCheckpointManager, Table, create_job, load_job,
  save_checkpoint, mark_completed, mark_failed, mark_cancelled,
}

-- What a query needs of a job.
abbrev pub job : String → String → ℕ → ℕ → BackfillCheckpointManager
job job_id network start_sequence end_sequence = record {
  job_id = job_id;
  network = network;
  start_sequence = start_sequence;
  end_sequence = end_sequence;
}

abbrev pub named : String → BackfillCheckpointManager
named job_id = job job_id "" 0 0

unfoldable pub create_checkpoint : String → String → ℕ → ℕ → Table → ℕ → Table
create_checkpoint job_id network start_sequence end_sequence t now =
    create_job (job job_id network start_sequence end_sequence) t now

unfoldable pub save : String → CheckpointProgress → Table → ℕ → Table
save job_id progress t now = save_checkpoint (named job_id) t progress now

unfoldable pub mark_checkpoint_completed : String → CheckpointProgress → Table → ℕ → Table
mark_checkpoint_completed job_id progress t now = mark_completed (named job_id) t progress now

unfoldable pub mark_checkpoint_failed : String → String → CheckpointProgress → Table → ℕ → Table
mark_checkpoint_failed job_id error_message progress t now =
    mark_failed (named job_id) t error_message progress now

unfoldable pub mark_checkpoint_cancelled : String → CheckpointProgress → Table → ℕ → Table
mark_checkpoint_cancelled job_id progress t now = mark_cancelled (named job_id) t progress now

unfoldable pub load_checkpoint : String → Table → Option BackfillJob
load_checkpoint job_id t = load_job (named job_id) t
