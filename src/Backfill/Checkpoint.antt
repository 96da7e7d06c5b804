-- ===== src/Backfill/Checkpoint.antt =====
-- packages/indexer/src/backfill/BackfillCheckpointManager.ts. The table backfill_checkpoints is the list of
-- its rows, with the next value of its serial. NOW() is an argument; the queries succeed.
pub mod Jobs
pub mod Resume
use stellar_analytics_dashbo.Prelude.{
  ℕ, zero, suc, ◌+◌, ◌-◌, ◌≤◌, ◌<◌, ◌≡◌, Bool, true, false, ◌&&◌, ◌||◌, not, Option, none, some,
  List, [], ◌∷◌, ◌++◌, String, if◌then◌else◌, map, ltb, leb, ◌==◌, find, any, filter, or_default,
}
use stellar_analytics_dashbo.Prelude.Int.{ℤ, sub_ℕ}
use stellar_analytics_dashbo.Prelude.Text.{str_eq}
use stellar_analytics_dashbo.Prelude.Sort.{sort}

pub data Status : Type 0 where
  in_progress completed failed cancelled : Status

pub record BackfillJob : Type 0 where
  pub id : ℕ
  pub job_id : String
  pub network : String
  pub start_sequence : ℕ
  pub end_sequence : ℕ
  pub last_processed_sequence : Option ℕ
  pub total_ledgers : ℤ
  pub processed_count : ℕ
  pub skipped_count : ℕ
  pub failed_count : ℕ
  pub status : Status
  pub error_message : Option String
  pub started_at : ℕ
  pub updated_at : ℕ
  pub completed_at : Option ℕ

pub record CheckpointProgress : Type 0 where
  pub last_processed_sequence : Option ℕ
  pub processed_count : ℕ
  pub skipped_count : ℕ
  pub failed_count : ℕ

pub record BackfillCheckpointManager : Type 0 where
  pub job_id : String
  pub network : String
  pub start_sequence : ℕ
  pub end_sequence : ℕ

pub record Table : Type 0 where
  pub rows : List BackfillJob
  pub next_id : ℕ

unfoldable pub new : String → Option String → ℕ → ℕ → BackfillCheckpointManager
new job_id network start_sequence end_sequence = record {
  job_id = job_id;
  network = or_default network "public";
  start_sequence = start_sequence;
  end_sequence = end_sequence;
}

abbrev pub is_job : String → BackfillJob → Bool
is_job job_id j = str_eq j.job_id job_id

abbrev pub is_in_progress : Status → Bool
is_in_progress in_progress = true
is_in_progress completed = false
is_in_progress failed = false
is_in_progress cancelled = false

-- The row that the INSERT of createJob makes, with the defaults of the table.
unfoldable pub first_row : BackfillCheckpointManager → ℕ → ℕ → BackfillJob
first_row m id now = record {
  id = id;
  job_id = m.job_id;
  network = m.network;
  start_sequence = m.start_sequence;
  end_sequence = m.end_sequence;
  last_processed_sequence = none;
  total_ledgers = sub_ℕ (m.end_sequence + 1) m.start_sequence;
  processed_count = 0;
  skipped_count = 0;
  failed_count = 0;
  status = in_progress;
  error_message = none;
  started_at = now;
  updated_at = now;
  completed_at = none;
}

-- ON CONFLICT (job_id) DO UPDATE SET ….
abbrev pub reopened : ℕ → BackfillJob → BackfillJob
reopened now j = record j {
  status = in_progress;
  error_message = none;
  completed_at = none;
  updated_at = now;
}

-- UPDATE … WHERE job_id = $n.
unfoldable pub update : String → (BackfillJob → BackfillJob) → List BackfillJob → List BackfillJob
update job_id f = map (λ j. if is_job job_id j then f j else j)

-- The serial advances also where the row exists.
unfoldable pub create_job : BackfillCheckpointManager → Table → ℕ → Table
create_job m t now = record {
  rows =
      if any (is_job m.job_id) t.rows
      then update m.job_id (reopened now) t.rows
      else t.rows ++ first_row m t.next_id now ∷ [];
  next_id = suc t.next_id;
}

unfoldable pub load_job : BackfillCheckpointManager → Table → Option BackfillJob
load_job m t = find (is_job m.job_id) t.rows

abbrev pub is_resumable : String → BackfillJob → Bool
is_resumable network j = str_eq j.network network && is_in_progress j.status

-- ORDER BY updated_at DESC.
abbrev pub updated_later : BackfillJob → BackfillJob → Bool
updated_later a b = leb b.updated_at a.updated_at

abbrev head : List BackfillJob → Option BackfillJob
head [] = none
head (j ∷ js) = some j

unfoldable pub find_resumable_job : BackfillCheckpointManager → Table → Option BackfillJob
find_resumable_job m t = head (sort updated_later (filter (is_resumable m.network) t.rows))

abbrev pub with_progress : CheckpointProgress → ℕ → BackfillJob → BackfillJob
with_progress p now j = record j {
  last_processed_sequence = p.last_processed_sequence;
  processed_count = p.processed_count;
  skipped_count = p.skipped_count;
  failed_count = p.failed_count;
  updated_at = now;
}

abbrev pub ended : Status → ℕ → BackfillJob → BackfillJob
ended status now j = record j { status = status; completed_at = some now }

unfoldable pub save_checkpoint : BackfillCheckpointManager → Table → CheckpointProgress → ℕ → Table
save_checkpoint m t p now = record t { rows = update m.job_id (with_progress p now) t.rows }

unfoldable pub mark_completed : BackfillCheckpointManager → Table → CheckpointProgress → ℕ → Table
mark_completed m t p now = record t {
  rows = update m.job_id (λ j. ended completed now (with_progress p now j)) t.rows;
}

unfoldable pub mark_failed :
    BackfillCheckpointManager → Table → String → CheckpointProgress → ℕ → Table
mark_failed m t message p now = record t {
  rows =
      update m.job_id
        (λ j. record (ended failed now (with_progress p now j)) { error_message = some message })
        t.rows;
}

unfoldable pub mark_cancelled : BackfillCheckpointManager → Table → CheckpointProgress → ℕ → Table
mark_cancelled m t p now = record t {
  rows = update m.job_id (λ j. ended cancelled now (with_progress p now j)) t.rows;
}

unfoldable pub delete_job : BackfillCheckpointManager → Table → Table
delete_job m t = record t { rows = filter (λ j. not (is_job m.job_id j)) t.rows }
