-- ===== src/Gaps/Service/Report.antt =====
-- The report of GapDetectionService.ts: what its merged gaps cover, and what its total counts.
use stellar_analytics_dashbo.Prelude.{
  ℕ, ◌+◌, ◌-◌, ◌<◌, ◌≡◌, refl, sym, ◌∙◌, Bool, true, false, ◌||◌, Option, List, [], ◌∷◌, ◌++◌,
  if◌then◌else◌, length, map, sum, leb, ◌==◌, Option-cases, inl, inr, or_assoc,
}
use stellar_analytics_dashbo.Gaps.Table.{
  unless_complete, least, greatest, select_all, select_range, distinct,
}
use stellar_analytics_dashbo.Gaps.Scan.{within, covers, scan, AreRanges, scan-AreRanges, total}
use stellar_analytics_dashbo.Gaps.Merge.{SeparatedFrom}
use stellar_analytics_dashbo.Gaps.Merge.Cover.{covers-merge_gaps, merge_gaps-SeparatedFrom}
use stellar_analytics_dashbo.Gaps.Tally.{tally, total-tally, ends_below}
use stellar_analytics_dashbo.Gaps.Service.{
  LedgerGap, db_scan, idempotency_scan, Tables, detect_gaps_from_db, detect_gaps_from_idempotency,
  merge, join, generate_report,
}
use stellar_analytics_dashbo.Gaps.Service.Detection.{ranges, ranges-map-tag}

-- Merging keeps what the gaps cover, and leaves them ascending and apart.
pub covers-merge :
    (n : ℕ) (gaps : List LedgerGap)
    → AreRanges (ranges gaps)
    → covers n (ranges (merge gaps)) ≡ covers n (ranges gaps)
unfolding merge
covers-merge n gaps h = covers-merge_gaps (λ g. g.range) join (λ a b. refl) n gaps h

pub merge-SeparatedFrom :
    (gaps : List LedgerGap)
    → AreRanges (ranges gaps)
    → AreRanges (ranges (merge gaps)) × SeparatedFrom 0 (ranges (merge gaps))
unfolding merge
merge-SeparatedFrom gaps h = merge_gaps-SeparatedFrom (λ g. g.range) join (λ a b. refl) gaps h

guarded :
    (empty full : Bool) (gaps : List LedgerGap)
    → AreRanges (ranges gaps)
    → AreRanges (ranges (if empty then [] else if full then [] else gaps))
guarded true full gaps h = tt
guarded false true gaps h = tt
guarded false false gaps h = h

append-AreRanges :
    (xs ys : List LedgerGap)
    → AreRanges (ranges xs)
    → AreRanges (ranges ys)
    → AreRanges (ranges (xs ++ ys))
append-AreRanges [] ys h k = k
append-AreRanges (x ∷ xs) ys h k = (h.0, append-AreRanges xs ys h.1 k)

covers-append :
    (n : ℕ) (xs ys : List LedgerGap)
    → covers n (ranges (xs ++ ys)) ≡ (covers n (ranges xs) || covers n (ranges ys))
covers-append n [] ys = refl
covers-append n (x ∷ xs) ys =
    rw (covers-append n xs ys)
      (sym (or_assoc (within n x.range) (covers n (ranges xs)) (covers n (ranges ys))))

unless_complete-AreRanges :
    (t : List ℕ) (f : ℕ → ℕ → List LedgerGap)
    → ((m k : ℕ) → AreRanges (ranges (f m k)))
    → AreRanges (ranges (unless_complete t f))
unless_complete-AreRanges t f h = elim (Option-cases (least t)) [
  | inl l ↦ rw (l, unless_complete) tt
  | inr (m, l) ↦ elim (Option-cases (greatest t)) [
    | inl g ↦ rw (l, unless_complete, g) tt
    | inr (k, g) ↦
        rw (l, unless_complete, g)
          (guarded (m == 0 || k == 0 || length t == 0) (leb (k - m + 1) (length t)) (f m k) (h m k))
  ]
]

detected-AreRanges :
    (db : Tables) → AreRanges (ranges (detect_gaps_from_db db ++ detect_gaps_from_idempotency db))
unfolding detect_gaps_from_db detect_gaps_from_idempotency
detected-AreRanges db =
    append-AreRanges (detect_gaps_from_db db) (detect_gaps_from_idempotency db)
      (unless_complete-AreRanges db.ledgers _ (λ m k.
        rw (ranges-map-tag db_scan (scan m (select_all db.ledgers) k))
          (scan-AreRanges m (select_all db.ledgers) k)))
      (unless_complete-AreRanges db.idempotency_records _ (λ m k.
        rw
          (ranges-map-tag idempotency_scan
            (scan m (distinct (select_range m k db.idempotency_records)) k))
          (scan-AreRanges m (distinct (select_range m k db.idempotency_records)) k)))

-- The report covers what either detector found and nothing else; its gaps ascend, do not touch, are
-- not empty, and are as long as they say.
pub covers-generate_report :
    (db : Tables) (horizon : Option ℕ) (now : ℕ)
    → let gaps = ranges (generate_report db horizon now).gaps in
      ((n : ℕ)
        → covers n gaps ≡ (
            covers n (ranges (detect_gaps_from_db db))
            || covers n (ranges (detect_gaps_from_idempotency db))))
      × AreRanges gaps
      × SeparatedFrom 0 gaps
unfolding generate_report
covers-generate_report db horizon now =
    let found = detect_gaps_from_db db ++ detect_gaps_from_idempotency db in
    let (are, apart) = merge-SeparatedFrom found (detected-AreRanges db) in
    (
      λ n.
          covers-merge n found (detected-AreRanges db)
          ∙ covers-append n (detect_gaps_from_db db) (detect_gaps_from_idempotency db),
      are,
      apart,
    )

sum-ranges : (gaps : List LedgerGap) → sum (map (λ g. g.gap_size) gaps) ≡ total (ranges gaps)
sum-ranges [] = refl
sum-ranges (g ∷ gaps) = rw (sum-ranges gaps)

total_of_ranges :
    (db : Tables) (horizon : Option ℕ) (now : ℕ)
    → (generate_report db horizon now).total_missing
      ≡ total (ranges (generate_report db horizon now).gaps)
unfolding generate_report
total_of_ranges db horizon now =
    sum-ranges (merge (detect_gaps_from_db db ++ detect_gaps_from_idempotency db))

-- `totalMissing` counts each missing sequence number once: it is the number of sequence numbers that
-- the reported gaps cover, below any bound that they stay below.
pub total_missing-tally :
    (db : Tables) (horizon : Option ℕ) (now k : ℕ)
    → ((n : ℕ) → covers n (ranges (generate_report db horizon now).gaps) ≡ true → n < k)
    → (generate_report db horizon now).total_missing
      ≡ tally (λ n. covers n (ranges (generate_report db horizon now).gaps)) k
total_missing-tally db horizon now k b =
    let (_, are, apart) = covers-generate_report db horizon now in
    total_of_ranges db horizon now
    ∙ total-tally 0 k (ranges (generate_report db horizon now).gaps) apart are
        (ends_below k (ranges (generate_report db horizon now).gaps) are b)
