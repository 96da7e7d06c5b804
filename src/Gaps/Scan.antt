-- ===== src/Gaps/Scan.antt =====
-- The walk through ascending rows that finds the jumps, and what it covers.
use stellar_analytics_dashbo.Prelude.{
  ℕ, ◌+◌, ◌-◌, ◌≤◌, ◌<◌, ◌≡◌, refl, Bool, false, ◌&&◌, not, List, [], ◌∷◌, ◌++◌, arith,
  if◌then◌else◌, any, map, sum, ltb, leb, All, Bool-cases, inl, inr,
}
use stellar_analytics_dashbo.Prelude.Sort.{SortedFrom}
use stellar_analytics_dashbo.Gaps.Table.{contains}

-- The fields that the two gap types share.
pub record Range : Type 0 where
  pub start_sequence : ℕ
  pub end_sequence : ℕ
  pub gap_size : ℕ

abbrev pub within : ℕ → Range → Bool
within n r = leb r.start_sequence n && leb n r.end_sequence

-- Some range of the list holds `n`.
abbrev pub covers : ℕ → List Range → Bool
covers n = any (within n)

-- The `for` loop over the rows: `prevSeq` starts at `prev`, and what is pushed is returned with the
-- final `prevSeq`. `seq - 1` and `seq - prevSeq - 1` are only taken above `prevSeq + 1`.
pub walk : ℕ → List ℕ → List Range × ℕ
walk prev [] = ([], prev)
walk prev (seq ∷ rows) =
    let (gaps, last) = walk seq rows in
    if ltb (prev + 1) seq
    then (
      record { start_sequence = prev + 1; end_sequence = seq - 1; gap_size = seq - prev - 1 }
          ∷ gaps,
      last,
    )
    else (gaps, last)

-- The gap between the last row and the end of the range, if there is one.
abbrev pub tail_gap : ℕ → ℕ → List Range
tail_gap prev upper =
    if ltb prev upper
    then record { start_sequence = prev + 1; end_sequence = upper; gap_size = upper - prev } ∷ []
    else []

unfoldable pub scan : ℕ → List ℕ → ℕ → List Range
unfolding walk
scan prev rows upper = let (gaps, last) = walk prev rows in gaps ++ tail_gap last upper

abbrev pub jump : ℕ → ℕ → Range
jump prev seq = record {
  start_sequence = prev + 1;
  end_sequence = seq - 1;
  gap_size = seq - prev - 1;
}

pub scan-nil : (prev upper : ℕ) → scan prev [] upper ≡ tail_gap prev upper
unfolding scan
scan-nil prev upper = refl

-- One round of the loop.
pub scan-cons :
    (prev seq : ℕ) (rows : List ℕ) (upper : ℕ)
    → scan prev (seq ∷ rows) upper
      ≡ (if ltb (prev + 1) seq then jump prev seq ∷ scan seq rows upper else scan seq rows upper)
unfolding scan
scan-cons prev seq rows upper = elim (Bool-cases (ltb (prev + 1) seq)) [
  | inl e ↦ rw (e, walk)
  | inr e ↦ rw (e, walk)
]

pub not-contains_below :
    (n lo : ℕ) (rows : List ℕ) → SortedFrom (λ x. x) lo rows → n < lo → contains n rows ≡ false
not-contains_below n lo [] s h = refl
not-contains_below n lo (x ∷ rows) s h = ground (arith, not-contains_below n x rows s.1)

-- On ascending rows from `prev` on, none above `upper`, the scan covers what is missing and no more.
pub covers-scan :
    (n prev : ℕ) (rows : List ℕ) (upper : ℕ)
    → SortedFrom (λ x. x) prev rows
    → any (λ x. ltb upper x) rows ≡ false
    → covers n (scan prev rows upper) ≡ (ltb prev n && leb n upper && not (contains n rows))
covers-scan n prev [] upper s b = rw (scan-nil prev upper) (ground arith)
covers-scan n prev (x ∷ rows) upper s b =
    rw (scan-cons prev x rows upper)
      (ground (arith, covers-scan n x rows upper s.1, not-contains_below n x rows s.1))

-- Every range is as long as it says, and not empty.
abbrev pub IsRange : Range → Type 0
IsRange r =
    (r.start_sequence ≤ r.end_sequence) × (r.end_sequence + 1 ≡ r.start_sequence + r.gap_size)

abbrev pub AreRanges : List Range → Type 0
AreRanges = All IsRange

pub scan-AreRanges : (prev : ℕ) (rows : List ℕ) (upper : ℕ) → AreRanges (scan prev rows upper)
scan-AreRanges prev [] upper = rw (scan-nil prev upper) (ground arith)
scan-AreRanges prev (x ∷ rows) upper =
    rw (scan-cons prev x rows upper) (ground (arith, scan-AreRanges x rows upper))

abbrev pub total : List Range → ℕ
total rs = sum (map (λ r. r.gap_size) rs)
