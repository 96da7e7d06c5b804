-- ===== src/Gaps/Service/Lag.antt =====
-- The other two detectors of GapDetectionService.ts: behind Horizon, and among the idempotency records.
use stellar_analytics_dashbo.Prelude.{
  ℕ, ◌+◌, ◌-◌, ◌≤◌, ◌<◌, ◌≡◌, lt→leb_false, le→leb, sym, ap, ◌∙◌, true, false, ◌&&◌, not, some,
  List, [], arith, if◌then◌else◌, length, map, ltb, leb, Bool-cases, inl, inr,
}
use stellar_analytics_dashbo.Prelude.Sort.{SortedFrom-weaken}
use stellar_analytics_dashbo.Gaps.Table.{
  contains, least, greatest, select_range, count_range, distinct, IsUnique, contains-select_range,
  contains-distinct, select_range-SortedFrom, select_range_below, distinct-SortedFrom,
  distinct_below,
}
use stellar_analytics_dashbo.Gaps.Scan.{covers, scan, covers-scan}
use stellar_analytics_dashbo.Gaps.Exact.{full-scan, select_range-IsUnique, length-select_range}
use stellar_analytics_dashbo.Gaps.Service.{
  idempotency_scan, horizon_lag, tag, Tables, detect_gaps_from_horizon_lag,
  detect_gaps_from_idempotency, find_gaps_in_range,
}
use stellar_analytics_dashbo.Gaps.Service.Detection.{
  ranges, missing, ranges-map-tag, bounds-missing, unless_complete-some,
}

lag-scan :
    (n start upper : ℕ) (t : List ℕ)
    → covers n (scan start (select_range (start + 1) upper t) upper)
      ≡ (ltb start n && leb n upper && not (contains n t))
lag-scan n start upper t =
    covers-scan n start (select_range (start + 1) upper t) upper
      (SortedFrom-weaken (λ x. x) start (start + 1) _ (omega arith)
        (select_range-SortedFrom (start + 1) upper t))
      (select_range_below (start + 1) upper t)
    ∙ rw (contains-select_range n (start + 1) upper t) (ground arith)

lag_full :
    (n start upper : ℕ) (t : List ℕ)
    → IsUnique t
    → start ≤ upper
    → upper ≤ count_range (start + 1) upper t + start
    → (ltb start n && leb n upper && not (contains n t)) ≡ false
lag_full n start upper t u h full =
    sym (lag-scan n start upper t)
    ∙ full-scan n start (select_range (start + 1) upper t) upper
        (SortedFrom-weaken (λ x. x) start (start + 1) _ (omega arith)
          (select_range-SortedFrom (start + 1) upper t))
        (select_range-IsUnique (start + 1) upper t u) h (select_range_below (start + 1) upper t)
        (rw
          (contains-select_range start (start + 1) upper t, length-select_range (start + 1) upper t)
          (ground arith))

find_gaps-scan :
    (last upper : ℕ) (db : Tables)
    → ranges (find_gaps_in_range db (last + 1) upper)
      ≡ scan last (select_range (last + 1) upper db.ledgers) upper
unfolding find_gaps_in_range
find_gaps-scan last upper db =
    ranges-map-tag horizon_lag _
    ∙ ap (λ s. scan s (select_range (last + 1) upper db.ledgers) upper) (omega arith)

-- Beyond eleven ledgers the count alone decides whether the scan is made.
pub lag_step :
    (horizon last : ℕ) (db : Tables)
    → last + 11 < horizon
    → detect_gaps_from_horizon_lag db horizon last ≡ (
        if ltb (count_range (last + 1) (horizon - 10) db.ledgers) (horizon - 10 - (last + 1) + 1)
        then find_gaps_in_range db (last + 1) (horizon - 10)
        else [])
unfolding detect_gaps_from_horizon_lag
lag_step horizon last db h =
    rw (lt→leb_false horizon (last + 11) h, le→leb (last + 1) (horizon - 10) (omega arith))

pub lag_near :
    (horizon last : ℕ) (db : Tables)
    → leb horizon (last + 11) ≡ true
    → detect_gaps_from_horizon_lag db horizon last ≡ []
unfolding detect_gaps_from_horizon_lag
lag_near horizon last db e = rw e

-- Against Horizon the gaps found are exactly the ledgers that the table lacks above the last
-- processed one, up to ten below Horizon's latest; within eleven of Horizon nothing is reported.
pub covers-detect_gaps_from_horizon_lag :
    (n horizon last : ℕ) (db : Tables)
    → IsUnique db.ledgers
    → covers n (ranges (detect_gaps_from_horizon_lag db horizon last)) ≡ (
        ltb (last + 11) horizon
        && ltb last n
        && leb n (horizon - 10)
        && not (contains n db.ledgers))
covers-detect_gaps_from_horizon_lag n horizon last db u =
    elim (Bool-cases (leb horizon (last + 11))) [
      | inl near ↦ rw (lag_near horizon last db near) (ground arith)
      | inr far ↦
          elim (Bool-cases (
            ltb (count_range (last + 1) (horizon - 10) db.ledgers)
              (horizon - 10 - (last + 1) + 1))) [
                | inl lacking ↦
                    rw
                      (
                        lag_step horizon last db (ground arith),
                        lacking,
                        find_gaps-scan last (horizon - 10) db,
                        lag-scan n last (horizon - 10) db.ledgers,
                      )
                      (ground arith)
                | inr full ↦
                    rw (lag_step horizon last db (ground arith), full)
                      (ground (
                        arith,
                        lag_full n last (horizon - 10) db.ledgers u (ground arith) (ground arith),
                      ))
              ]
    ]

distinct-scan :
    (n m k : ℕ) (t : List ℕ)
    → least t ≡ some m
    → greatest t ≡ some k
    → covers n (scan m (distinct (select_range m k t)) k) ≡ missing n t
distinct-scan n m k t l g =
    covers-scan n m (distinct (select_range m k t)) k
      (distinct-SortedFrom m (select_range m k t) (select_range-SortedFrom m k t))
      (distinct_below k (select_range m k t) (select_range_below m k t))
    ∙ rw
        (
          contains-distinct n (select_range m k t),
          contains-select_range n m k t,
          bounds-missing n m k t l g,
        )
        (ground arith)

-- Among the idempotency records the gaps are exact as long as there are fewer records than the range
-- is long. Since several records may bear one sequence number, a longer table hides every gap.
pub covers-detect_gaps_from_idempotency :
    (n m k : ℕ) (db : Tables)
    → contains 0 db.idempotency_records ≡ false
    → least db.idempotency_records ≡ some m
    → greatest db.idempotency_records ≡ some k
    → covers n (ranges (detect_gaps_from_idempotency db))
      ≡ (ltb (length db.idempotency_records) (k - m + 1) && missing n db.idempotency_records)
unfolding detect_gaps_from_idempotency
covers-detect_gaps_from_idempotency n m k db z l g =
    rw
      (unless_complete-some db.idempotency_records
        (λ m k.
          map (tag idempotency_scan)
            (scan m (distinct (select_range m k db.idempotency_records)) k))
        m k l g z)
      (elim (Bool-cases (leb (k - m + 1) (length db.idempotency_records))) [
        | inl full ↦ rw full (ground arith)
        | inr lacking ↦
            rw
              (
                lacking,
                ranges-map-tag idempotency_scan,
                distinct-scan n m k db.idempotency_records l g,
              )
              (ground arith)
      ])
