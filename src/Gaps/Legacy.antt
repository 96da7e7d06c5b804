-- ===== src/Gaps/Legacy.antt =====
-- indexer/src/gap-detector.ts. The `ledgers` table is its `sequence` column; Horizon's answers, the
-- clock and the callback are arguments. Progress messages are left out.
pub mod Report
pub mod Recovery
use stellar_analytics_dashbo.Prelude.{
  ℕ, suc, ◌+◌, ◌-◌, ◌≡◌, refl, Bool, true, false, ◌&&◌, ◌||◌, Option, none, some, List, [], ◌∷◌,
  ◌++◌, String, if◌then◌else◌, length, map, sum, ltb, leb, ◌==◌, min, max, or_default,
}
use stellar_analytics_dashbo.Prelude.Sort.{sort}
use stellar_analytics_dashbo.Gaps.Table.{
  unless_complete, least, greatest, select_all, select_range, count_range,
}
use stellar_analytics_dashbo.Gaps.Scan.{Range, scan}
use stellar_analytics_dashbo.Gaps.Merge.{merge_gaps}

abbrev pub LedgerGap : Type 0
LedgerGap = Range

-- What asking Horizon for its latest ledger gives: an error, or the records of the page.
pub data Answer : Type 0 where
  unreachable empty_page : Answer
  latest : ℕ → Answer

-- `records[0]?.sequence ?? 0`, where it does not throw.
abbrev pub sequence_of : Answer → Option ℕ
sequence_of unreachable = none
sequence_of empty_page = some 0
sequence_of (latest n) = some n

unfoldable pub detect_ledger_gaps : List ℕ → List LedgerGap
detect_ledger_gaps t = unless_complete t λ min_seq max_seq. scan min_seq (select_all t) max_seq

-- `none` where the request throws. `gap <= 1` is an inequation between integers.
unfoldable pub detect_horizon_lag : List ℕ → Answer → ℕ → Option (List LedgerGap)
detect_horizon_lag t answer last_processed = elim (sequence_of answer) [
  | none ↦ none
  | some horizon_seq ↦
      let start_seq = last_processed + 1 in
      let end_seq = horizon_seq - 10 in
      some (
        if leb horizon_seq (last_processed + 11)
        then []
        else if ltb (count_range start_seq end_seq t) (end_seq - start_seq + 1)
        then scan (start_seq - 1) (select_range start_seq end_seq t) end_seq
        else [])
]

abbrev pub join : LedgerGap → LedgerGap → LedgerGap
join last current = record {
  start_sequence = min last.start_sequence current.start_sequence;
  end_sequence = max last.end_sequence current.end_sequence;
  gap_size =
      max last.end_sequence current.end_sequence
      - min last.start_sequence current.start_sequence
      + 1;
}

unfoldable pub merge : List LedgerGap → List LedgerGap
merge = merge_gaps (λ g. g) join

pub record GapReport : Type 0 where
  pub gaps : List LedgerGap
  pub total_missing : ℕ
  pub db_ledger_count : ℕ
  pub horizon_latest_sequence : ℕ
  pub db_min_sequence : Option ℕ
  pub db_max_sequence : Option ℕ
  pub scanned_at : ℕ

-- The lag's gaps, where a last processed ledger is given and Horizon answers.
abbrev pub lag_gaps : List ℕ → Answer → Option ℕ → List LedgerGap
lag_gaps t answer none = []
lag_gaps t answer (some last) = or_default (detect_horizon_lag t answer last) []

-- Horizon is asked twice: for the lag, and for the report's own field.
unfoldable pub generate_gap_report : List ℕ → Answer → Answer → Option ℕ → ℕ → GapReport
generate_gap_report t answer again last_processed now =
    let all_gaps = merge (detect_ledger_gaps t ++ lag_gaps t answer last_processed) in
    record {
      gaps = all_gaps;
      total_missing = sum (map (λ g. g.gap_size) all_gaps);
      db_ledger_count = length t;
      horizon_latest_sequence = or_default (sequence_of again) 0;
      db_min_sequence = least t;
      db_max_sequence = greatest t;
      scanned_at = now;
    }

pub record GapRecoveryResult : Type 0 where
  pub gaps_found : ℕ
  pub gaps_recovered : ℕ
  pub ledgers_recovered : ℕ
  pub failures : List (LedgerGap × String)
  pub duration_ms : ℕ

abbrev pub by_start : LedgerGap → LedgerGap → Bool
by_start a b = leb a.start_sequence b.start_sequence

module _ {S : Type 0} (backfill : S → ℕ → ℕ → S × Option String) where
  recover_one : S → GapRecoveryResult → LedgerGap → S × GapRecoveryResult
  recover_one s r gap =
      let (s', failure) = backfill s gap.start_sequence gap.end_sequence in
      elim failure [
        | none ↦ (
          s',
          record r {
            gaps_recovered = r.gaps_recovered + 1;
            ledgers_recovered = r.ledgers_recovered + gap.gap_size;
          },
        )
        | some message ↦ (s', record r { failures = r.failures ++ (gap, message) ∷ [] })
      ]

  recover_all : S → GapRecoveryResult → List LedgerGap → S × GapRecoveryResult
  recover_all s r [] = (s, r)
  recover_all s r (gap ∷ gaps) = let (s', r') = recover_one s r gap in recover_all s' r' gaps

  -- The report is made with no last processed ledger.
  pub recover_missing_ledgers : List ℕ → Answer → ℕ → ℕ → S → S × GapRecoveryResult
  recover_missing_ledgers t answer started finished s =
      let report = generate_gap_report t answer answer none started in
      let result : GapRecoveryResult = record {
        gaps_found = length report.gaps;
        gaps_recovered = 0;
        ledgers_recovered = 0;
        failures = [];
        duration_ms = 0;
      } in
      if length report.gaps == 0
      then (s, record result { duration_ms = finished - started })
      else (let (s', r) = recover_all s result (sort by_start report.gaps) in
          (s', record r { duration_ms = finished - started }))
