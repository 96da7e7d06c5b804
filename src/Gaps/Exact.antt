-- ===== src/Gaps/Exact.antt =====
-- Why comparing COUNT(*) with the length of the range is a sound shortcut on a primary key column.
use stellar_analytics_dashbo.Prelude.{
  ℕ, ◌+◌, ◌≤◌, ◌≡◌, refl, ◌∙◌, Bool, false, List, [], ◌∷◌, arith, if◌then◌else◌, length, any, ltb,
  leb, ◌==◌, filter,
}
use stellar_analytics_dashbo.Prelude.Sort.{
  sort, insert, SortedFrom, any-sort, any-insert, length-sort,
}
use stellar_analytics_dashbo.Gaps.Table.{
  contains, select_all, select_range, count_range, in_range, IsUnique,
}
use stellar_analytics_dashbo.Gaps.Scan.{
  Range, covers, scan, scan-nil, scan-cons, AreRanges, total, not-contains_below, scan-AreRanges,
}

-- On ascending rows with no repetition, the gaps and the rows fill the range.
pub total-scan :
    (prev : ℕ) (rows : List ℕ) (upper : ℕ)
    → SortedFrom (λ x. x) prev rows
    → IsUnique rows
    → prev ≤ upper
    → any (λ x. ltb upper x) rows ≡ false
    → total (scan prev rows upper) + length rows + prev
      ≡ upper + (if contains prev rows then 1 else 0)
total-scan prev [] upper s u h b = rw (scan-nil prev upper) (ground arith)
total-scan prev (x ∷ rows) upper s u h b =
    rw (scan-cons prev x rows upper)
      (ground (arith, total-scan x rows upper s.1 u.1, not-contains_below prev x rows s.1))

pub total_zero-covers :
    (n : ℕ) (rs : List Range) → AreRanges rs → total rs ≡ 0 → covers n rs ≡ false
total_zero-covers n [] h e = refl
total_zero-covers n (r ∷ rs) h e = ground (arith, total_zero-covers n rs h.1)

insert-IsUnique :
    (a : ℕ) (xs : List ℕ) → contains a xs ≡ false → IsUnique xs → IsUnique (insert leb a xs)
unfolding insert
insert-IsUnique a [] h u = (refl, tt)
insert-IsUnique a (x ∷ xs) h u =
    ground (arith, any-insert (λ y. y == x) leb a xs, insert-IsUnique a xs)

sort-IsUnique : (xs : List ℕ) → IsUnique xs → IsUnique (sort leb xs)
unfolding sort
sort-IsUnique [] u = tt
sort-IsUnique (x ∷ xs) u =
    insert-IsUnique x (sort leb xs) (any-sort (λ y. y == x) leb xs ∙ u.0) (sort-IsUnique xs u.1)

contains-filter :
    (p : ℕ → Bool) (x : ℕ) (xs : List ℕ) → contains x xs ≡ false → contains x (filter p xs) ≡ false
contains-filter p x [] h = refl
contains-filter p x (y ∷ xs) h = ground (arith, contains-filter p x xs)

filter-IsUnique : (p : ℕ → Bool) (xs : List ℕ) → IsUnique xs → IsUnique (filter p xs)
filter-IsUnique p [] u = tt
filter-IsUnique p (x ∷ xs) u = ground (arith, filter-IsUnique p xs u.1, contains-filter p x xs u.0)

pub select_all-IsUnique : (t : List ℕ) → IsUnique t → IsUnique (select_all t)
unfolding select_all
select_all-IsUnique t u = sort-IsUnique t u

pub select_range-IsUnique : (a b : ℕ) (t : List ℕ) → IsUnique t → IsUnique (select_range a b t)
unfolding select_range
select_range-IsUnique a b t u =
    sort-IsUnique (filter (in_range a b) t) (filter-IsUnique (in_range a b) t u)

pub length-select_range : (a b : ℕ) (t : List ℕ) → length (select_range a b t) ≡ count_range a b t
unfolding select_range count_range
length-select_range a b t = length-sort leb (filter (in_range a b) t)

-- A full count leaves nothing for the scan to find.
pub full-scan :
    (n prev : ℕ) (rows : List ℕ) (upper : ℕ)
    → SortedFrom (λ x. x) prev rows
    → IsUnique rows
    → prev ≤ upper
    → any (λ x. ltb upper x) rows ≡ false
    → upper + (if contains prev rows then 1 else 0) ≤ length rows + prev
    → covers n (scan prev rows upper) ≡ false
full-scan n prev rows upper s u h b full =
    total_zero-covers n (scan prev rows upper) (scan-AreRanges prev rows upper)
      (omega (arith, total-scan prev rows upper s u h b))
