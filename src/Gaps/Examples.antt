-- ===== src/Gaps/Examples.antt =====
-- GapDetectionService.ts and gap-detector.ts on small tables, and their theorems there.
use stellar_analytics_dashbo.Prelude.{
  ℕ, suc, ◌<◌, ◌≡◌, ◌+◌, ◌-◌, ◌&&◌, not, ltb, refl, true, false, ◌||◌, Option, none, some, [], ◌∷◌,
  arith, leb, String,
}
use stellar_analytics_dashbo.Prelude.Sort.{sort}
use stellar_analytics_dashbo.Gaps.Table.{contains, IsUnique, select_all, select_range, distinct}
use stellar_analytics_dashbo.Gaps.Scan.{scan, covers, AreRanges}
use stellar_analytics_dashbo.Gaps.Merge.{merge_gaps, merge_from, SeparatedFrom}
use stellar_analytics_dashbo.Gaps.Service.{
  Tables, db_scan, tag, detect_gaps_from_db, detect_gaps_from_horizon_lag,
  detect_gaps_from_idempotency, merge, generate_report,
}
use stellar_analytics_dashbo.Gaps.Service.Detection.{ranges, missing, covers-detect_gaps_from_db}
use stellar_analytics_dashbo.Gaps.Service.Lag.{covers-detect_gaps_from_horizon_lag}
use stellar_analytics_dashbo.Gaps.Legacy.{latest, generate_gap_report}
use stellar_analytics_dashbo.Gaps.Legacy.Report.{covers-generate_gap_report}
use stellar_analytics_dashbo.Gaps.Service.Report.{covers-generate_report}

abbrev db : Tables
db = record { ledgers = 8 ∷ 5 ∷ 12 ∷ 6 ∷ []; idempotency_records = 5 ∷ 5 ∷ 9 ∷ [] }

-- Three records of ledger 5 and one of 7: as many as the range is long.
abbrev crowded : Tables
crowded = record { ledgers = []; idempotency_records = 5 ∷ 5 ∷ 5 ∷ 7 ∷ [] }

ledgers-IsUnique : IsUnique db.ledgers
ledgers-IsUnique = (refl, (refl, (refl, (refl, tt))))

db_gaps :
    detect_gaps_from_db db
    ≡ tag db_scan (record { start_sequence = 7; end_sequence = 7; gap_size = 1 })
      ∷ tag db_scan (record { start_sequence = 9; end_sequence = 11; gap_size = 3 })
      ∷ []
unfolding detect_gaps_from_db scan select_all sort
db_gaps = refl

merged_gaps :
    (generate_report db (some 40) 0).gaps
    ≡ tag db_scan (record { start_sequence = 6; end_sequence = 11; gap_size = 6 }) ∷ []
unfolding generate_report detect_gaps_from_db detect_gaps_from_idempotency merge merge_gaps
    merge_from scan select_all select_range distinct sort
merged_gaps = refl

covers-detect_gaps_from_db_example : covers 10 (ranges (detect_gaps_from_db db)) ≡ true
covers-detect_gaps_from_db_example = covers-detect_gaps_from_db 10 db ledgers-IsUnique refl

covers-detect_gaps_from_horizon_lag_example :
    covers 13 (ranges (detect_gaps_from_horizon_lag db 40 11)) ≡ true
covers-detect_gaps_from_horizon_lag_example =
    covers-detect_gaps_from_horizon_lag 13 40 11 db ledgers-IsUnique

covers-generate_report_example :
    let gaps = ranges (generate_report db (some 40) 0).gaps in
    ((n : ℕ)
      → covers n gaps ≡ (
          covers n (ranges (detect_gaps_from_db db))
          || covers n (ranges (detect_gaps_from_idempotency db))))
    × AreRanges gaps
    × SeparatedFrom 0 gaps
covers-generate_report_example = covers-generate_report db (some 40) 0

-- Horizon is at 40 and ledger 25 was the last processed: 7 and 9 to 11 are missing, and 26 to 30.
covers-generate_gap_report_example :
    let gaps = (generate_gap_report db.ledgers (latest 40) (latest 40) (some 25) 0).gaps in
    ((n : ℕ)
      → covers n gaps ≡ (
          missing n db.ledgers
          || (ltb (25 + 11) 40 && ltb 25 n && leb n (40 - 10) && not (contains n db.ledgers))))
    × AreRanges gaps
    × SeparatedFrom 0 gaps
covers-generate_gap_report_example =
    covers-generate_gap_report db.ledgers (latest 40) (latest 40) 40 25 0 ledgers-IsUnique refl refl

reported_below_12 :
    (n : ℕ) → covers n (ranges (generate_report db (some 40) 0).gaps) ≡ true → n < 12
reported_below_12 n e = let covered = rw merged_gaps at e in ground (arith, covered)

-- A callback that fails on every gap beyond ledger 8, and counts its calls.
abbrev backfill : ℕ → ℕ → ℕ → ℕ × Option String
backfill calls from to = (suc calls, elim (leb from 8) [ true ↦ none | false ↦ some "gone" ])
