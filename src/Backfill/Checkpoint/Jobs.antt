-- ===== src/Backfill/Checkpoint/Jobs.antt =====
-- What each operation of BackfillCheckpointManager.ts does to the rows of its job, and of other jobs.
use stellar_analytics_dashbo.Prelude.{
  ℕ, ◌+◌, ◌≡◌, true, not, Option, none, some, List, [], ◌∷◌, ◌++◌, String, if◌then◌else◌, find, any,
  filter, refl, arith, ◌∙◌, Bool-cases, inl, inr, ap, ◌>>=◌, is_some,
}
use stellar_analytics_dashbo.Prelude.Text.{str_eq, str_eq_left, str_eq_right, str_eq_path}
use stellar_analytics_dashbo.Prelude.Int.{sub_ℕ}
use stellar_analytics_dashbo.Backfill.Checkpoint.{
  Status, in_progress, completed, failed, cancelled, BackfillJob, CheckpointProgress,
  BackfillCheckpointManager, Table, is_job, first_row, reopened, update, create_job,
  save_checkpoint, mark_completed, mark_failed, mark_cancelled, delete_job,
}

-- One operation of a manager.
pub data Operation : Type 0 where
  creates deletes : Operation
  saves completes cancels : CheckpointProgress → Operation
  fails : String → CheckpointProgress → Operation

unfoldable pub apply : BackfillCheckpointManager → Operation → Table → ℕ → Table
apply m creates t now = create_job m t now
apply m deletes t now = delete_job m t
apply m (saves p) t now = save_checkpoint m t p now
apply m (completes p) t now = mark_completed m t p now
apply m (cancels p) t now = mark_cancelled m t p now
apply m (fails message p) t now = mark_failed m t message p now

-- The columns of a row that operations change.
pub record Columns : Type 0 where
  pub last_processed_sequence : Option ℕ
  pub processed_count : ℕ
  pub skipped_count : ℕ
  pub failed_count : ℕ
  pub status : Status
  pub error_message : Option String
  pub completed_at : Option ℕ

-- The row of a job at a time, with the columns that no operation changes.
abbrev pub row_with : BackfillJob → ℕ → Columns → BackfillJob
row_with j now c = record {
  id = j.id;
  job_id = j.job_id;
  network = j.network;
  start_sequence = j.start_sequence;
  end_sequence = j.end_sequence;
  last_processed_sequence = c.last_processed_sequence;
  total_ledgers = j.total_ledgers;
  processed_count = c.processed_count;
  skipped_count = c.skipped_count;
  failed_count = c.failed_count;
  status = c.status;
  error_message = c.error_message;
  started_at = j.started_at;
  updated_at = now;
  completed_at = c.completed_at;
}

-- The progress, with the other columns.
abbrev pub columns : CheckpointProgress → Status → Option String → Option ℕ → Columns
columns p status error_message completed_at = record {
  last_processed_sequence = p.last_processed_sequence;
  processed_count = p.processed_count;
  skipped_count = p.skipped_count;
  failed_count = p.failed_count;
  status = status;
  error_message = error_message;
  completed_at = completed_at;
}

-- What becomes of the job's own row, column by column; a missing row is updated to none.
abbrev pub next_job :
    BackfillCheckpointManager → Operation → ℕ → ℕ → Option BackfillJob → Option BackfillJob
next_job m creates id now none = some (record {
  id = id;
  job_id = m.job_id;
  network = m.network;
  start_sequence = m.start_sequence;
  end_sequence = m.end_sequence;
  last_processed_sequence = none;
  total_ledgers = sub_ℕ (m.end_sequence + 1) m.start_sequence;
  processed_count = 0;
  skipped_count = 0;
  failed_count = 0;
  status = in_progress;
  error_message = none;
  started_at = now;
  updated_at = now;
  completed_at = none;
})
next_job m creates id now (some j) = some (
    row_with j now (record {
      last_processed_sequence = j.last_processed_sequence;
      processed_count = j.processed_count;
      skipped_count = j.skipped_count;
      failed_count = j.failed_count;
      status = in_progress;
      error_message = none;
      completed_at = none;
    }))
next_job m deletes id now o = none
next_job m (saves p) id now o = do
  j ← o
  some (row_with j now (columns p j.status j.error_message j.completed_at))
next_job m (completes p) id now o = do
  j ← o
  some (row_with j now (columns p completed j.error_message (some now)))
next_job m (cancels p) id now o = do
  j ← o
  some (row_with j now (columns p cancelled j.error_message (some now)))
next_job m (fails message p) id now o = do
  j ← o
  some (row_with j now (columns p failed (some message) (some now)))

-- A change of a row that keeps its job.
abbrev Keeps : (BackfillJob → BackfillJob) → Type 0
Keeps f = (j : BackfillJob) → (f j).job_id ≡ j.job_id

find-update :
    (k job_id : String) (f : BackfillJob → BackfillJob) (js : List BackfillJob)
    → Keeps f
    → find (is_job k) (update job_id f js)
      ≡ (if str_eq job_id k then (do j ← find (is_job k) js; some (f j)) else find (is_job k) js)
unfolding update
find-update k job_id f [] keeps = ground arith
find-update k job_id f (j ∷ js) keeps = ground (
  arith,
  find-update k job_id f js,
  keeps j,
  str_eq_left j.job_id job_id k,
  str_eq_right job_id k j.job_id,
)

find-delete :
    (k job_id : String) (js : List BackfillJob)
    → find (is_job k) (filter (λ j. not (is_job job_id j)) js)
      ≡ (if str_eq job_id k then none else find (is_job k) js)
find-delete k job_id [] = ground arith
find-delete k job_id (j ∷ js) =
    ground (
      arith,
      find-delete k job_id js,
      str_eq_left j.job_id job_id k,
      str_eq_right job_id k j.job_id,
    )

find-append :
    (k : String) (js : List BackfillJob) (j : BackfillJob)
    → find (is_job k) (js ++ j ∷ [])
      ≡ elim (find (is_job k) js) [ some x ↦ some x | none ↦ if is_job k j then some j else none ]
find-append k [] j = ground arith
find-append k (x ∷ js) j = ground (arith, find-append k js j)

any-find : (k : String) (js : List BackfillJob) → any (is_job k) js ≡ is_some (find (is_job k) js)
any-find k [] = ground arith
any-find k (j ∷ js) = ground (arith, any-find k js)

any-same :
    (job_id k : String) (js : List BackfillJob)
    → str_eq job_id k ≡ true
    → any (is_job job_id) js ≡ is_some (find (is_job k) js)
any-same job_id k js e = ap (λ x. any (is_job x) js) (str_eq_path job_id k e) ∙ any-find k js

create_job-find :
    (m : BackfillCheckpointManager) (t : Table) (now : ℕ) (k : String)
    → find (is_job k) (create_job m t now).rows ≡ (
        if str_eq m.job_id k
        then next_job m creates t.next_id now (find (is_job k) t.rows)
        else find (is_job k) t.rows)
unfolding create_job first_row
create_job-find m t now k = elim (Bool-cases (any (is_job m.job_id) t.rows)) [
  | inl present ↦
      rw (present, create_job)
        (ground (
          arith,
          find-update k m.job_id (reopened now) t.rows (λ j. refl),
          any-same m.job_id k t.rows,
        ))
  | inr missing ↦
      rw (missing, create_job)
        (ground
          (arith, find-append k t.rows (first_row m t.next_id now), any-same m.job_id k t.rows))
]

-- The table as a map from job ids to rows, after an operation of a manager: the row of the manager's job
-- has the columns that the operation gives it, all of them stated, and every other job keeps its row.
-- createJob reopens a row that is there, with its progress, and else adds a row without progress.
-- Every other operation leaves a missing row missing. A save sets the last sequence and the three counts;
-- an end also sets the status and the time, and a failure the message. No operation changes the range, the
-- network or the start of a job, and each stamps its row.
pub apply-find :
    (m : BackfillCheckpointManager) (op : Operation) (t : Table) (now : ℕ) (k : String)
    → find (is_job k) (apply m op t now).rows ≡ (
        if str_eq m.job_id k
        then next_job m op t.next_id now (find (is_job k) t.rows)
        else find (is_job k) t.rows)
unfolding apply delete_job save_checkpoint mark_completed mark_failed mark_cancelled
apply-find m creates t now k = create_job-find m t now k
apply-find m deletes t now k = find-delete k m.job_id t.rows
apply-find m (saves p) t now k = find-update k m.job_id _ t.rows (λ j. refl)
apply-find m (completes p) t now k = find-update k m.job_id _ t.rows (λ j. refl)
apply-find m (cancels p) t now k = find-update k m.job_id _ t.rows (λ j. refl)
apply-find m (fails message p) t now k = find-update k m.job_id _ t.rows (λ j. refl)
