-- ===== src/Gaps/Legacy/Report.antt =====
-- The report of gap-detector.ts. Its scan and its lag find what those of the service find on the same ledgers.
use stellar_analytics_dashbo.Prelude.{
  ℕ, ◌+◌, ◌-◌, ◌≡◌, refl, sym, ap, subst, ◌∙◌, Bool, true, false, ◌&&◌, ◌||◌, not, Option, none,
  some, List, [], ◌∷◌, ◌++◌, arith, if◌then◌else◌, length, map, ltb, leb, ◌==◌, Option-cases,
  Bool-cases, inl, inr, or_default, or_assoc, ap₂,
}
use stellar_analytics_dashbo.Gaps.Table.{
  unless_complete, least, greatest, contains, count_range, IsUnique, select_all, select_range,
}
use stellar_analytics_dashbo.Gaps.Scan.{within, Range, covers, scan, AreRanges, scan-AreRanges}
use stellar_analytics_dashbo.Gaps.Merge.{SeparatedFrom}
use stellar_analytics_dashbo.Gaps.Merge.Cover.{covers-merge_gaps, merge_gaps-SeparatedFrom}
use stellar_analytics_dashbo.Gaps.Service
use stellar_analytics_dashbo.Gaps.Service.{Tables, tag, db_scan, horizon_lag}
use stellar_analytics_dashbo.Gaps.Service.Detection.{
  ranges, missing, ranges-map-tag, covers-detect_gaps_from_db,
}
use stellar_analytics_dashbo.Gaps.Service.Lag.{
  lag_near, lag_step, covers-detect_gaps_from_horizon_lag,
}
use stellar_analytics_dashbo.Gaps.Legacy.{
  Answer, sequence_of, detect_ledger_gaps, detect_horizon_lag, merge, join, lag_gaps,
  generate_gap_report,
}

guarded_ranges :
    (empty full : Bool) (xs : List Service.LedgerGap) (ys : List Range)
    → ranges xs ≡ ys
    → ranges (if empty then [] else if full then [] else xs)
      ≡ (if empty then [] else if full then [] else ys)
guarded_ranges true full xs ys h = refl
guarded_ranges false true xs ys h = refl
guarded_ranges false false xs ys h = h

find_gaps_ranges :
    (a b : ℕ) (db : Tables)
    → ranges (Service.find_gaps_in_range db a b) ≡ scan (a - 1) (select_range a b db.ledgers) b
unfolding Service.find_gaps_in_range
find_gaps_ranges a b db = ranges-map-tag horizon_lag (scan (a - 1) (select_range a b db.ledgers) b)

ranges-unless_complete :
    (t : List ℕ) (f : ℕ → ℕ → List Service.LedgerGap) (g : ℕ → ℕ → List Range)
    → ((m k : ℕ) → ranges (f m k) ≡ g m k)
    → ranges (unless_complete t f) ≡ unless_complete t g
ranges-unless_complete t f g h = elim (Option-cases (least t)) [
  | inl l ↦ rw (l, unless_complete)
  | inr (m, l) ↦ elim (Option-cases (greatest t)) [
    | inl e ↦ rw (l, unless_complete, e)
    | inr (k, e) ↦
        rw (l, unless_complete, e)
          (guarded_ranges (m == 0 || k == 0 || length t == 0) (leb (k - m + 1) (length t)) (f m k)
            (g m k) (h m k))
  ]
]

-- On the same table the legacy scan and the service's DB scan give the same ranges.
pub detect_ledger_gaps-agrees :
    (db : Tables) → ranges (Service.detect_gaps_from_db db) ≡ detect_ledger_gaps db.ledgers
unfolding detect_ledger_gaps Service.detect_gaps_from_db
detect_ledger_gaps-agrees db =
    ranges-unless_complete db.ledgers (λ m k. map (tag db_scan) (scan m (select_all db.ledgers) k))
      (λ m k. scan m (select_all db.ledgers) k)
      (λ m k. ranges-map-tag db_scan (scan m (select_all db.ledgers) k))

lag_agrees :
    (db : Tables) (answer : Answer) (h last : ℕ)
    → sequence_of answer ≡ some h
    → detect_horizon_lag db.ledgers answer last
      ≡ some (ranges (Service.detect_gaps_from_horizon_lag db h last))
unfolding detect_horizon_lag
lag_agrees db answer h last e =
    rw (e, detect_horizon_lag)
      (elim (Bool-cases (leb h (last + 11))) [
        | inl near ↦ rw (near, lag_near h last db near)
        | inr far ↦
            rw (far, lag_step h last db (ground arith))
              (elim (Bool-cases
                (ltb (count_range (last + 1) (h - 10) db.ledgers) (h - 10 - (last + 1) + 1))) [
                  | inl lacking ↦
                      rw lacking (ap some (sym (find_gaps_ranges (last + 1) (h - 10) db)))
                  | inr full ↦ rw full
                ])
      ])

guarded-AreRanges :
    (empty full : Bool) (rs : List Range)
    → AreRanges rs
    → AreRanges (if empty then [] else if full then [] else rs)
guarded-AreRanges true full rs h = tt
guarded-AreRanges false true rs h = tt
guarded-AreRanges false false rs h = h

detect_ledger_gaps-AreRanges : (t : List ℕ) → AreRanges (detect_ledger_gaps t)
unfolding detect_ledger_gaps
detect_ledger_gaps-AreRanges t = elim (Option-cases (least t)) [
  | inl l ↦ rw (l, unless_complete) tt
  | inr (m, l) ↦ elim (Option-cases (greatest t)) [
    | inl g ↦ rw (l, unless_complete, g) tt
    | inr (k, g) ↦
        rw (l, unless_complete, g)
          (guarded-AreRanges (m == 0 || k == 0 || length t == 0) (leb (k - m + 1) (length t))
            (scan m (select_all t) k) (scan-AreRanges m (select_all t) k))
  ]
]

lag_guard-AreRanges :
    (near lacking : Bool) (rs : List Range)
    → AreRanges rs
    → AreRanges (if near then [] else if lacking then rs else [])
lag_guard-AreRanges true lacking rs h = tt
lag_guard-AreRanges false true rs h = h
lag_guard-AreRanges false false rs h = tt

lag_gaps-AreRanges :
    (t : List ℕ) (answer : Answer) (last : Option ℕ) → AreRanges (lag_gaps t answer last)
unfolding detect_horizon_lag
lag_gaps-AreRanges t answer none = tt
lag_gaps-AreRanges t answer (some last) = elim (Option-cases (sequence_of answer)) [
  | inl e ↦ rw (e, detect_horizon_lag) tt
  | inr (h, e) ↦
      rw (e, detect_horizon_lag)
        (lag_guard-AreRanges (leb h (last + 11))
          (ltb (count_range (last + 1) (h - 10) t) (h - 10 - (last + 1) + 1))
          (scan (last + 1 - 1) (select_range (last + 1) (h - 10) t) (h - 10))
          (scan-AreRanges (last + 1 - 1) (select_range (last + 1) (h - 10) t) (h - 10)))
]

append-AreRanges : (xs ys : List Range) → AreRanges xs → AreRanges ys → AreRanges (xs ++ ys)
append-AreRanges [] ys h k = k
append-AreRanges (x ∷ xs) ys h k = (h.0, append-AreRanges xs ys h.1 k)

covers-append : (n : ℕ) (xs ys : List Range) → covers n (xs ++ ys) ≡ (covers n xs || covers n ys)
covers-append n [] ys = refl
covers-append n (x ∷ xs) ys =
    rw (covers-append n xs ys) (sym (or_assoc (within n x) (covers n xs) (covers n ys)))

map_id : (rs : List Range) → map (λ g. g) rs ≡ rs
map_id [] = refl
map_id (r ∷ rs) = rw (map_id rs)

covers-merge : (n : ℕ) (gaps : List Range) → AreRanges gaps → covers n (merge gaps) ≡ covers n gaps
unfolding merge
covers-merge n gaps h =
    subst (λ rs. covers n rs ≡ covers n gaps) (map_id (merge gaps))
      (covers-merge_gaps (λ g. g) join (λ a b. refl) n gaps (subst AreRanges (sym (map_id gaps)) h)
        ∙ ap (covers n) (map_id gaps))

merge-AreRanges :
    (gaps : List Range) → AreRanges gaps → AreRanges (merge gaps) × SeparatedFrom 0 (merge gaps)
unfolding merge
merge-AreRanges gaps h =
    subst (λ rs. AreRanges rs × SeparatedFrom 0 rs) (map_id (merge gaps))
      (merge_gaps-SeparatedFrom (λ g. g) join (λ a b. refl) gaps
        (subst AreRanges (sym (map_id gaps)) h))

-- The legacy report, made with a last processed ledger and an answer of Horizon, covers exactly the
-- ledgers missing between the first and the last, and those missing up to ten below Horizon's latest
-- if the last processed one is more than eleven behind. Its gaps ascend and do not touch, and have the
-- lengths that they state. The sequences are positive and each is stored once, as the primary key has it.
pub covers-generate_gap_report :
    (t : List ℕ) (answer again : Answer) (h last now : ℕ)
    → IsUnique t
    → contains 0 t ≡ false
    → sequence_of answer ≡ some h
    → let gaps = (generate_gap_report t answer again (some last) now).gaps in
      ((n : ℕ)
        → covers n gaps ≡ (
            missing n t
            || (ltb (last + 11) h && ltb last n && leb n (h - 10) && not (contains n t))))
      × AreRanges gaps
      × SeparatedFrom 0 gaps
unfolding generate_gap_report
covers-generate_gap_report t answer again h last now u z e =
    let db : Tables = record { ledgers = t; idempotency_records = [] } in
    let found = detect_ledger_gaps t ++ lag_gaps t answer (some last) in
    let are : AreRanges found =
      append-AreRanges (detect_ledger_gaps t) (lag_gaps t answer (some last))
        (detect_ledger_gaps-AreRanges t) (lag_gaps-AreRanges t answer (some last)) in
    (
      λ n.
          covers-merge n found are
          ∙ covers-append n (detect_ledger_gaps t) (lag_gaps t answer (some last))
          ∙ ap₂ (λ a b. covers n a || covers n b) (sym (detect_ledger_gaps-agrees db))
              (ap (λ o. or_default o []) (lag_agrees db answer h last e))
          ∙ ap₂ (λ a b. a || b) (covers-detect_gaps_from_db n db u z)
              (covers-detect_gaps_from_horizon_lag n h last db u),
      (merge-AreRanges found are).0,
      (merge-AreRanges found are).1,
    )
