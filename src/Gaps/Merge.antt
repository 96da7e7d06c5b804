-- ===== src/Gaps/Merge.antt =====
-- `mergeGaps` of GapDetectionService.ts and of gap-detector.ts, over either gap type `G`: `range`
-- reads a gap's bounds, and `join` is the object literal that replaces two overlapping gaps.
pub mod Cover
use stellar_analytics_dashbo.Prelude.{
  ℕ, zero, suc, ◌+◌, ◌-◌, ◌≤◌, ◌<◌, ◌≡◌, refl, sym, ap, ◌∙◌, Bool, true, false, ◌&&◌, ◌||◌, not,
  List, [], ◌∷◌, arith, if◌then◌else◌, length, any, map, sum, ltb, leb, ◌==◌, min, max, Bool-cases,
  inl, inr, All,
}
use stellar_analytics_dashbo.Prelude.Sort.{sort, SortedFrom, any-sort, sort-SortedFrom, sum-sort}
use stellar_analytics_dashbo.Gaps.Scan.{Range, within, covers, IsRange, AreRanges, total}

-- What both literals give the joined gap's bounds and size.
abbrev pub join_range : Range → Range → Range
join_range a b =
    let new_start = min a.start_sequence b.start_sequence in
    let new_end = max a.end_sequence b.end_sequence in
    record {
      start_sequence = new_start;
      end_sequence = new_end;
      gap_size = new_end - new_start + 1;
    }

-- The comparator: by start, and the larger range first.
abbrev pub earlier : Range → Range → Bool
earlier a b =
    if a.start_sequence == b.start_sequence
    then leb b.end_sequence a.end_sequence
    else ltb a.start_sequence b.start_sequence

module _ {G : Type 0} (range : G → Range) (join : G → G → G) where
  -- The loop: `last` is the end of `merged`, the list the gaps still to come.
  unfoldable pub merge_from : G → List G → List G
  merge_from last [] = last ∷ []
  merge_from last (current ∷ rest) =
      elim (leb (range current).start_sequence ((range last).end_sequence + 1)) [
        | true ↦ merge_from (join last current) rest
        | false ↦ last ∷ merge_from current rest
      ]

  merge_sorted : List G → List G
  merge_sorted [] = []
  merge_sorted (first ∷ rest) = merge_from first rest

  unfoldable pub merge_gaps : List G → List G
  unfolding merge_sorted
  merge_gaps gaps =
      if leb (length gaps) 1
      then gaps
      else merge_sorted (sort (λ a b. earlier (range a) (range b)) gaps)

-- No two ranges touch, and they ascend from `lo`.
abbrev pub SeparatedFrom : ℕ → List Range → Type 0
SeparatedFrom lo [] = Unit
SeparatedFrom lo (r ∷ rs) = (lo ≤ r.start_sequence) × SeparatedFrom (r.end_sequence + 2) rs

pub SeparatedFrom-weaken :
    (lo hi : ℕ) (rs : List Range) → lo ≤ hi → SeparatedFrom hi rs → SeparatedFrom lo rs
SeparatedFrom-weaken lo hi [] h s = tt
SeparatedFrom-weaken lo hi (r ∷ rs) h s = (omega arith, s.1)
