-- ===== src/Gaps/Legacy/Recovery.antt =====
-- `recoverMissingLedgers` of gap-detector.ts: its accounts.
use stellar_analytics_dashbo.Prelude.{
  ℕ, suc, ◌+◌, ◌≡◌, refl, true, Option, none, List, [], ◌∷◌, ◌++◌, arith, length, map, sum,
  length-append, ◌==◌, Option-cases, Bool-cases, inl, inr, String,
}
use stellar_analytics_dashbo.Prelude.Sort.{sort, length-sort, sum-sort}
use stellar_analytics_dashbo.Gaps.Legacy.{
  LedgerGap, Answer, GapRecoveryResult, GapReport, generate_gap_report, recover_one, recover_all,
  recover_missing_ledgers, by_start,
}

-- The ledgers of the gaps that failed.
abbrev pub failed_ledgers : List (LedgerGap × String) → ℕ
failed_ledgers fs = sum (map (λ f. f.0.gap_size) fs)

failed_ledgers-append :
    (fs : List (LedgerGap × String)) (g : LedgerGap) (m : String)
    → failed_ledgers (fs ++ (g, m) ∷ []) ≡ failed_ledgers fs + g.gap_size
failed_ledgers-append [] g m = omega arith
failed_ledgers-append (f ∷ fs) g m = omega (arith, failed_ledgers-append fs g m)

total_missing-sum :
    (t : List ℕ) (answer again : Answer) (last : Option ℕ) (now : ℕ)
    → (generate_gap_report t answer again last now).total_missing
      ≡ sum (map (λ g. g.gap_size) (generate_gap_report t answer again last now).gaps)
unfolding generate_gap_report
total_missing-sum t answer again last now = refl

no_gaps : (gaps : List LedgerGap) → (length gaps == 0) ≡ true → sum (map (λ g. g.gap_size) gaps) ≡ 0
no_gaps [] e = refl
no_gaps (g ∷ gaps) e = ground arith

abbrev opening : GapReport → GapRecoveryResult
opening report = record {
  gaps_found = length report.gaps;
  gaps_recovered = 0;
  ledgers_recovered = 0;
  failures = [];
  duration_ms = 0;
}

module _ {S : Type 0} (backfill : S → ℕ → ℕ → S × Option String) where
  recover_one_counts :
      (s : S) (r : GapRecoveryResult) (gap : LedgerGap)
      → let r' = (recover_one backfill s r gap).1 in
        (r'.gaps_recovered + length r'.failures ≡ suc (r.gaps_recovered + length r.failures))
        × (r'.ledgers_recovered + failed_ledgers r'.failures
            ≡ r.ledgers_recovered + failed_ledgers r.failures + gap.gap_size)
        × (r'.gaps_found ≡ r.gaps_found)
  unfolding recover_one
  recover_one_counts s r gap =
      elim (Option-cases (backfill s gap.start_sequence gap.end_sequence).1) [
        | inl e ↦ rw (e, recover_one) (omega arith, omega arith, refl)
        | inr (m, e) ↦
            rw (e, recover_one)
              (
                omega (arith, length-append r.failures ((gap, m) ∷ [])),
                omega (arith, failed_ledgers-append r.failures gap m),
                refl,
              )
      ]

  recover_all_counts :
      (s : S) (r : GapRecoveryResult) (gaps : List LedgerGap)
      → let r' = (recover_all backfill s r gaps).1 in
        (r'.gaps_recovered + length r'.failures
          ≡ r.gaps_recovered + length r.failures + length gaps)
        × (r'.ledgers_recovered + failed_ledgers r'.failures
            ≡ r.ledgers_recovered + failed_ledgers r.failures + sum (map (λ g. g.gap_size) gaps))
        × (r'.gaps_found ≡ r.gaps_found)
  unfolding recover_all
  recover_all_counts s r [] = omega arith
  recover_all_counts s r (gap ∷ gaps) =
      let (s', r') = recover_one backfill s r gap in
      omega (arith, recover_one_counts s r gap, recover_all_counts s' r' gaps)

  -- Whatever the callback does, every gap of the report is either recovered or among the failures,
  -- and so is every missing ledger.
  pub legacy_recovery_accounts :
      (t : List ℕ) (answer : Answer) (started finished : ℕ) (s : S)
      → let r = (recover_missing_ledgers backfill t answer started finished s).1 in
        (r.gaps_found ≡ length (generate_gap_report t answer answer none started).gaps)
        × (r.gaps_recovered + length r.failures ≡ r.gaps_found)
        × (r.ledgers_recovered + failed_ledgers r.failures
            ≡ (generate_gap_report t answer answer none started).total_missing)
  unfolding recover_missing_ledgers
  legacy_recovery_accounts t answer started finished s =
      let report = generate_gap_report t answer answer none started in
      elim (Bool-cases (length report.gaps == 0)) [
        | inl e ↦
            rw (e, recover_missing_ledgers)
              (
                refl,
                ground arith,
                ground (arith, no_gaps report.gaps, total_missing-sum t answer answer none started),
              )
        | inr e ↦
            let counts = recover_all_counts s (opening report) (sort by_start report.gaps) in
            rw (e, recover_missing_ledgers)
              (
                omega (arith, counts),
                omega (arith, counts, length-sort by_start report.gaps),
                omega (
                  arith,
                  counts,
                  sum-sort (λ g. g.gap_size) by_start report.gaps,
                  total_missing-sum t answer answer none started,
                ),
              )
      ]
