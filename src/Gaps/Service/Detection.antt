-- ===== src/Gaps/Service/Detection.antt =====
-- What the detectors of GapDetectionService.ts find, against the tables they look at.
use stellar_analytics_dashbo.Prelude.{
  ℕ, suc, ◌+◌, ◌-◌, ◌≤◌, ◌<◌, ◌≡◌, refl, zero, tests, ==_iff, sym, subst, ◌∙◌, Bool, true, false,
  ◌&&◌, ◌||◌, not, some, List, [], ◌∷◌, arith, if◌then◌else◌, length, any, map, ltb, leb, ◌==◌,
  Option-cases, Bool-cases, inl, inr,
}
use stellar_analytics_dashbo.Gaps.Table.{
  unless_complete, contains, least, greatest, select_all, IsUnique, contains-select_all,
  select_all-SortedFrom, least_below, greatest_above, contains-least, least-none, greatest-none,
  any_le-least, any_ge-greatest, least-le-greatest, any-select_all, length-select_all,
}
use stellar_analytics_dashbo.Gaps.Scan.{Range, covers, scan, covers-scan}
use stellar_analytics_dashbo.Gaps.Exact.{full-scan, select_all-IsUnique}
use stellar_analytics_dashbo.Gaps.Service.{
  LedgerGap, DetectionMethod, db_scan, tag, Tables, detect_gaps_from_db,
}

abbrev pub ranges : List LedgerGap → List Range
ranges = map (λ g. g.range)

-- The number lies between two rows of the table and is none of them.
abbrev pub missing : ℕ → List ℕ → Bool
missing n t = any (λ x. leb x n) t && any (λ x. leb n x) t && not (contains n t)

pub ranges-map-tag : (m : DetectionMethod) (rs : List Range) → ranges (map (tag m) rs) ≡ rs
ranges-map-tag m [] = refl
ranges-map-tag m (r ∷ rs) = rw (ranges-map-tag m rs)

at_least :
    (n m k : ℕ) (t : List ℕ)
    → contains m t ≡ true
    → (leb m n && leb n k && not (contains n t)) ≡ (ltb m n && leb n k && not (contains n t))
at_least n m k t c = elim (Bool-cases (m == n)) [
  | inl e ↦ rw (subst (λ q. contains q t ≡ true) ((==_iff m n).0 e) c) (ground arith)
  | inr e ↦ ground arith
]

above_zero : (t : List ℕ) (m : ℕ) → contains m t ≡ true → contains 0 t ≡ false → 0 < m
above_zero t zero c z = cc
above_zero t (suc m) c z = omega arith

pub positive :
    (t : List ℕ) (m k : ℕ)
    → contains m t ≡ true
    → 0 < m
    → m ≤ k
    → (m == 0 || k == 0 || length t == 0) ≡ false
positive [] m k c z h = cc
positive (x ∷ t) m k c z h = ground arith

-- `n` is missing exactly when it lies strictly between MIN and MAX and is no row.
pub bounds-missing :
    (n m k : ℕ) (t : List ℕ)
    → least t ≡ some m
    → greatest t ≡ some k
    → missing n t ≡ (ltb m n && leb n k && not (contains n t))
bounds-missing n m k t l g =
    rw (any_le-least n t m l, any_ge-greatest n t k g) (at_least n m k t (contains-least t m l))

-- On a table of numbers above 0 only the count decides whether the scan is made.
pub unless_complete-some :
    (t : List ℕ) (f : ℕ → ℕ → List LedgerGap) (m k : ℕ)
    → least t ≡ some m
    → greatest t ≡ some k
    → contains 0 t ≡ false
    → unless_complete t f ≡ (if leb (k - m + 1) (length t) then [] else f m k)
unless_complete-some t f m k l g z =
    rw (l, unless_complete, g)
      (rw (
        positive t m k (contains-least t m l) (above_zero t m (contains-least t m l) z)
          (least-le-greatest t m k l g)))

-- The three cases of a detector: no row, enough rows, and a scan.
module _ (n : ℕ) (t : List ℕ) (f : ℕ → ℕ → List LedgerGap) (z : contains 0 t ≡ false)
    (full : (m k : ℕ)
      → least t ≡ some m
      → greatest t ≡ some k
      → m ≤ k
      → leb (k - m + 1) (length t) ≡ true
      → missing n t ≡ false)
    (scanned : (m k : ℕ)
      → least t ≡ some m
      → greatest t ≡ some k
      → covers n (ranges (f m k)) ≡ missing n t) where
  covers-unless_complete : covers n (ranges (unless_complete t f)) ≡ missing n t
  covers-unless_complete = elim (Option-cases (least t)) [
    | inl l ↦ ground (arith, l, least-none t l)
    | inr (m, l) ↦ elim (Option-cases (greatest t)) [
      | inl g ↦ ground (arith, g, greatest-none t g)
      | inr (k, g) ↦ elim (Bool-cases (leb (k - m + 1) (length t))) [
        | inl e ↦
            rw (unless_complete-some t f m k l g z, e)
              (sym (full m k l g (least-le-greatest t m k l g) e))
        | inr e ↦ rw (unless_complete-some t f m k l g z, e) (scanned m k l g)
      ]
    ]
  ]

covers-db_scan :
    (n : ℕ) (t : List ℕ) (m k : ℕ)
    → least t ≡ some m
    → greatest t ≡ some k
    → covers n (scan m (select_all t) k) ≡ missing n t
covers-db_scan n t m k l g =
    covers-scan n m (select_all t) k (select_all-SortedFrom m t (least_below t m l))
      (any-select_all (λ x. ltb k x) t ∙ greatest_above t k g)
    ∙ rw (contains-select_all n t, bounds-missing n m k t l g)

full_count :
    (n : ℕ) (t : List ℕ) (m k : ℕ)
    → IsUnique t
    → least t ≡ some m
    → greatest t ≡ some k
    → m ≤ k
    → leb (k - m + 1) (length t) ≡ true
    → missing n t ≡ false
full_count n t m k u l g h e =
    sym (covers-db_scan n t m k l g)
    ∙ full-scan n m (select_all t) k (select_all-SortedFrom m t (least_below t m l))
        (select_all-IsUnique t u) h (any-select_all (λ x. ltb k x) t ∙ greatest_above t k g)
        (rw (contains-select_all m t, contains-least t m l, length-select_all t) (omega (tests)))

-- A table that is a primary key column of sequence numbers above 0 is reported exactly: the gaps
-- that the DB scan finds cover a number if and only if it lies between two ledgers and is not one.
pub covers-detect_gaps_from_db :
    (n : ℕ) (db : Tables)
    → IsUnique db.ledgers
    → contains 0 db.ledgers ≡ false
    → covers n (ranges (detect_gaps_from_db db)) ≡ missing n db.ledgers
unfolding detect_gaps_from_db
covers-detect_gaps_from_db n db u z =
    covers-unless_complete n db.ledgers
      (λ m k. map (tag db_scan) (scan m (select_all db.ledgers) k)) z
      (λ m k l g h e. full_count n db.ledgers m k u l g h e)
      (λ m k l g.
        rw (ranges-map-tag db_scan (scan m (select_all db.ledgers) k))
          (covers-db_scan n db.ledgers m k l g))
