-- ===== src/Gaps/Service.antt =====
-- packages/indexer/src/backfill/GapDetectionService.ts. The two tables are their `sequence` columns,
-- and stay as they are while a report is made; Horizon's answer, the clock and the callback are
-- arguments. Progress messages are left out.
pub mod Detection
pub mod Lag
pub mod Report
pub mod Recovery
use stellar_analytics_dashbo.Prelude.{
  ℕ, suc, ◌+◌, ◌-◌, ◌≡◌, refl, Bool, true, false, ◌&&◌, ◌||◌, Option, none, some, List, [], ◌∷◌,
  ◌++◌, String, if◌then◌else◌, length, map, sum, ltb, leb, ◌==◌, min, max, or_default,
}
use stellar_analytics_dashbo.Prelude.Sort.{sort}
use stellar_analytics_dashbo.Gaps.Table.{
  unless_complete, least, greatest, select_all, select_range, count_range, distinct,
}
use stellar_analytics_dashbo.Gaps.Scan.{Range, scan}
use stellar_analytics_dashbo.Gaps.Merge.{merge_gaps}

pub data DetectionMethod : Type 0 where
  db_scan idempotency_scan horizon_lag dlq_failed : DetectionMethod

pub record LedgerGap : Type 0 where
  pub range : Range
  pub open range use *
  pub detection_method : DetectionMethod

abbrev pub tag : DetectionMethod → Range → LedgerGap
tag m r = record { range = r; detection_method = m }

pub record Tables : Type 0 where
  pub ledgers : List ℕ
  pub idempotency_records : List ℕ

unfoldable pub detect_gaps_from_db : Tables → List LedgerGap
detect_gaps_from_db db =
    unless_complete db.ledgers
      λ min_seq max_seq. map (tag db_scan) (scan min_seq (select_all db.ledgers) max_seq)

-- `prevSeq` starts at `startSeq - 1`; the one caller passes a `startSeq` above 0.
unfoldable pub find_gaps_in_range : Tables → ℕ → ℕ → List LedgerGap
find_gaps_in_range db start_seq end_seq =
    map (tag horizon_lag) (scan (start_seq - 1) (select_range start_seq end_seq db.ledgers) end_seq)

-- `horizonSeq - 10 - lastProcessedLedger <= 1`, as an inequation between integers.
unfoldable pub detect_gaps_from_horizon_lag : Tables → ℕ → ℕ → List LedgerGap
unfolding find_gaps_in_range
detect_gaps_from_horizon_lag db horizon_seq last_processed =
    let start_seq = last_processed + 1 in
    let end_seq = horizon_seq - 10 in
    if leb horizon_seq (last_processed + 11)
    then []
    else if leb start_seq end_seq
    then (if ltb (count_range start_seq end_seq db.ledgers) (end_seq - start_seq + 1)
        then find_gaps_in_range db start_seq end_seq
        else [])
    else []

unfoldable pub detect_gaps_from_idempotency : Tables → List LedgerGap
detect_gaps_from_idempotency db = unless_complete db.idempotency_records λ min_seq max_seq.
    map (tag idempotency_scan)
      (scan min_seq (distinct (select_range min_seq max_seq db.idempotency_records)) max_seq)

-- `methodPriority[m] ?? 0`.
abbrev pub method_priority : DetectionMethod → ℕ
method_priority db_scan = 3
method_priority idempotency_scan = 2
method_priority horizon_lag = 1
method_priority dlq_failed = 0

abbrev pub join : LedgerGap → LedgerGap → LedgerGap
join last current =
    let new_end = max last.end_sequence current.end_sequence in
    let new_start = min last.start_sequence current.start_sequence in
    record {
      range = record {
        start_sequence = new_start;
        end_sequence = new_end;
        gap_size = new_end - new_start + 1;
      };
      detection_method =
          if leb (method_priority current.detection_method) (method_priority last.detection_method)
          then last.detection_method
          else current.detection_method;
    }

unfoldable pub merge : List LedgerGap → List LedgerGap
merge = merge_gaps (λ g. g.range) join

pub record GapDetectionReport : Type 0 where
  pub gaps : List LedgerGap
  pub total_missing : ℕ
  pub db_ledger_count : ℕ
  pub horizon_latest_sequence : ℕ
  pub db_min_sequence : Option ℕ
  pub db_max_sequence : Option ℕ
  pub scanned_at : ℕ

-- `horizon` is none where Horizon's answer is an error, which is caught.
unfoldable pub generate_report : Tables → Option ℕ → ℕ → GapDetectionReport
generate_report db horizon now =
    let all_gaps = merge (detect_gaps_from_db db ++ detect_gaps_from_idempotency db) in
    record {
      gaps = all_gaps;
      total_missing = sum (map (λ g. g.gap_size) all_gaps);
      db_ledger_count = length db.ledgers;
      horizon_latest_sequence = or_default horizon 0;
      db_min_sequence = least db.ledgers;
      db_max_sequence = greatest db.ledgers;
      scanned_at = now;
    }

pub record GapRecoveryResult : Type 0 where
  pub gaps_found : ℕ
  pub total_missing : ℕ
  pub gaps_recovered : ℕ
  pub ledgers_recovered : ℕ
  pub failures : List (LedgerGap × String)
  pub duration_ms : ℕ

abbrev pub by_start : LedgerGap → LedgerGap → Bool
by_start a b = leb a.start_sequence b.start_sequence

-- The callback changes the world it works in, and fails with a message or succeeds.
module _ {S : Type 0} (backfill : S → ℕ → ℕ → S × Option String) where
  recover_one : S → GapRecoveryResult → LedgerGap → S × GapRecoveryResult
  recover_one s r gap =
      let (s', failure) = backfill s gap.start_sequence gap.end_sequence in
      elim failure [
        | none ↦ (
          s',
          record r {
            gaps_recovered = r.gaps_recovered + 1;
            ledgers_recovered = r.ledgers_recovered + gap.gap_size;
          },
        )
        | some message ↦ (s', record r { failures = r.failures ++ (gap, message) ∷ [] })
      ]

  recover_all : S → GapRecoveryResult → List LedgerGap → S × GapRecoveryResult
  recover_all s r [] = (s, r)
  recover_all s r (gap ∷ gaps) = let (s', r') = recover_one s r gap in recover_all s' r' gaps

  -- `started` and `finished` are the two readings of the clock.
  pub recover_missing_ledgers : Tables → Option ℕ → ℕ → ℕ → S → S × GapRecoveryResult
  recover_missing_ledgers db horizon started finished s =
      let report = generate_report db horizon started in
      let result : GapRecoveryResult = record {
        gaps_found = length report.gaps;
        total_missing = report.total_missing;
        gaps_recovered = 0;
        ledgers_recovered = 0;
        failures = [];
        duration_ms = 0;
      } in
      if length report.gaps == 0
      then (s, record result { duration_ms = finished - started })
      else (let (s', r) = recover_all s result (sort by_start report.gaps) in
          (s', record r { duration_ms = finished - started }))
