-- ===== src/Gaps/Merge/Cover.antt =====
-- `mergeGaps` forgets no missing sequence number, makes none up, and leaves the gaps apart.
use native.Mathlib.Nat.{le_refl}
use stellar_analytics_dashbo.Prelude.{
  ℕ, ◌+◌, ◌≤◌, ◌≡◌, refl, sym, subst, ◌∙◌, true, false, ◌||◌, List, [], ◌∷◌, arith, length, any,
  map, ltb, leb, Bool-cases, inl, inr, or_assoc, tests,
}
use stellar_analytics_dashbo.Prelude.Sort.{
  sort, SortedFrom, SortedFrom-weaken, any-map-sort, All-map-sort, sort-SortedFrom,
}
use stellar_analytics_dashbo.Gaps.Scan.{Range, within, covers, IsRange, AreRanges}
use stellar_analytics_dashbo.Gaps.Merge.{
  join_range, earlier, merge_from, merge_sorted, merge_gaps, SeparatedFrom, SeparatedFrom-weaken,
}

earlier-le : (a b : Range) → earlier a b ≡ true → a.start_sequence ≤ b.start_sequence
earlier-le a b e = ground arith

not_earlier-le : (a b : Range) → earlier a b ≡ false → b.start_sequence ≤ a.start_sequence
not_earlier-le a b e = ground arith

none_below_zero : {G : Type 0} (key : G → ℕ) (gs : List G) → any (λ g. ltb (key g) 0) gs ≡ false
none_below_zero key [] = refl
none_below_zero key (g ∷ gs) = ground (arith, none_below_zero key gs)

join_range-IsRange : (a b : Range) → IsRange a → IsRange b → IsRange (join_range a b)
join_range-IsRange a b h k = (omega arith, omega arith)

within-join_range :
    (n : ℕ) (a b : Range)
    → IsRange a
    → IsRange b
    → a.start_sequence ≤ b.start_sequence
    → leb b.start_sequence (a.end_sequence + 1) ≡ true
    → within n (join_range a b) ≡ (within n a || within n b)
within-join_range n a b h k s e = ground arith

module _ {G : Type 0} (range : G → Range) (join : G → G → G)
    (range-join : (a b : G) → range (join a b) ≡ join_range (range a) (range b)) where
  -- The joined gap is a range, and starts where the earlier one did.
  join-IsRange : (a b : G) → IsRange (range a) → IsRange (range b) → IsRange (range (join a b))
  join-IsRange a b h k =
      subst IsRange (sym (range-join a b)) (join_range-IsRange (range a) (range b) h k)

  start-join :
      (a b : G)
      → (range a).start_sequence ≤ (range b).start_sequence
      → (range (join a b)).start_sequence ≡ (range a).start_sequence
  start-join a b h = rw (range-join a b) (omega arith)

  join-SortedFrom :
      (a b : G) (rest : List G)
      → SortedFrom (λ g. (range g).start_sequence) (range a).start_sequence (b ∷ rest)
      → SortedFrom (λ g. (range g).start_sequence) (range (join a b)).start_sequence rest
  join-SortedFrom a b rest s =
      SortedFrom-weaken (λ g. (range g).start_sequence) (range (join a b)).start_sequence
        (range b).start_sequence rest (omega (arith, start-join a b s.0)) s.1

  covers-merge_from :
      (n : ℕ) (last : G) (rest : List G)
      → SortedFrom (λ g. (range g).start_sequence) (range last).start_sequence rest
      → IsRange (range last)
      → AreRanges (map range rest)
      → covers n (map range (merge_from range join last rest))
        ≡ (within n (range last) || covers n (map range rest))
  unfolding merge_from
  covers-merge_from n last [] s l h = refl
  covers-merge_from n last (c ∷ rest) s l h =
      elim (Bool-cases (leb (range c).start_sequence ((range last).end_sequence + 1))) [
        | inl e ↦
            rw (e, merge_from)
              (covers-merge_from n (join last c) rest (join-SortedFrom last c rest s)
                  (join-IsRange last c l h.0) h.1
                ∙ rw (
                  range-join last c,
                  within-join_range n (range last) (range c) l h.0 s.0 e,
                  or_assoc,
                ))
        | inr e ↦ rw (e, merge_from) (rw (covers-merge_from n c rest s.1 h.0 h.1))
      ]

  merge_from-SeparatedFrom :
      (last : G) (rest : List G)
      → SortedFrom (λ g. (range g).start_sequence) (range last).start_sequence rest
      → IsRange (range last)
      → AreRanges (map range rest)
      → AreRanges (map range (merge_from range join last rest))
        × SeparatedFrom (range last).start_sequence (map range (merge_from range join last rest))
  unfolding merge_from
  merge_from-SeparatedFrom last [] s l h = ((l, tt), (le_refl _, tt))
  merge_from-SeparatedFrom last (c ∷ rest) s l h =
      elim (Bool-cases (leb (range c).start_sequence ((range last).end_sequence + 1))) [
        | inl e ↦
            let (are, sep) =
              merge_from-SeparatedFrom (join last c) rest (join-SortedFrom last c rest s)
                (join-IsRange last c l h.0) h.1 in
            rw (e, merge_from)
              (
                are,
                subst (λ k. SeparatedFrom k (map range (merge_from range join (join last c) rest)))
                    (start-join last c s.0) sep,
              )
        | inr e ↦
            let (are, sep) = merge_from-SeparatedFrom c rest s.1 h.0 h.1 in
            rw (e, merge_from)
              (
                (l, are),
                (
                  le_refl _,
                  SeparatedFrom-weaken ((range last).end_sequence + 2) (range c).start_sequence _
                      (ground arith) sep,
                ),
              )
      ]

  covers-merge_sorted :
      (n : ℕ) (gaps : List G)
      → SortedFrom (λ g. (range g).start_sequence) 0 gaps
      → AreRanges (map range gaps)
      → covers n (map range (merge_sorted range join gaps)) ≡ covers n (map range gaps)
  unfolding merge_sorted
  covers-merge_sorted n [] s h = refl
  covers-merge_sorted n (first ∷ rest) s h = covers-merge_from n first rest s.1 h.0 h.1

  merge_sorted-SeparatedFrom :
      (gaps : List G)
      → SortedFrom (λ g. (range g).start_sequence) 0 gaps
      → AreRanges (map range gaps)
      → AreRanges (map range (merge_sorted range join gaps))
        × SeparatedFrom 0 (map range (merge_sorted range join gaps))
  unfolding merge_sorted
  merge_sorted-SeparatedFrom [] s h = (tt, tt)
  merge_sorted-SeparatedFrom (first ∷ rest) s h =
      let (are, sep) = merge_from-SeparatedFrom first rest s.1 h.0 h.1 in
      (are, SeparatedFrom-weaken 0 (range first).start_sequence _ (omega arith) sep)

  by_start :
      (gaps : List G)
      → SortedFrom
          (λ g. (range g).start_sequence)
          0
          (sort (λ a b. earlier (range a) (range b)) gaps)
  by_start gaps =
      sort-SortedFrom (λ g. (range g).start_sequence) (λ a b. earlier (range a) (range b))
        (λ a b e. earlier-le (range a) (range b) e) (λ a b e. not_earlier-le (range a) (range b) e)
        0 gaps (none_below_zero (λ g. (range g).start_sequence) gaps)

  at_most_one : (gaps : List G) → leb (length gaps) 1 ≡ true → SeparatedFrom 0 (map range gaps)
  at_most_one [] e = tt
  at_most_one (g ∷ []) e = (omega arith, tt)
  at_most_one (g ∷ h ∷ gaps) e = absurd (omega (tests))

  pub covers-merge_gaps :
      (n : ℕ) (gaps : List G)
      → AreRanges (map range gaps)
      → covers n (map range (merge_gaps range join gaps)) ≡ covers n (map range gaps)
  unfolding merge_gaps
  covers-merge_gaps n gaps h = elim (Bool-cases (leb (length gaps) 1)) [
    | inl e ↦ rw e
    | inr e ↦ rw e (
        covers-merge_sorted n (sort (λ a b. earlier (range a) (range b)) gaps) (by_start gaps)
          (All-map-sort IsRange range (λ a b. earlier (range a) (range b)) gaps h)
        ∙ any-map-sort (within n) range (λ a b. earlier (range a) (range b)) gaps)
  ]

  pub merge_gaps-SeparatedFrom :
      (gaps : List G)
      → AreRanges (map range gaps)
      → AreRanges (map range (merge_gaps range join gaps))
        × SeparatedFrom 0 (map range (merge_gaps range join gaps))
  unfolding merge_gaps
  merge_gaps-SeparatedFrom gaps h = elim (Bool-cases (leb (length gaps) 1)) [
    | inl e ↦ rw e (h, at_most_one gaps e)
    | inr e ↦ rw e (
        merge_sorted-SeparatedFrom (sort (λ a b. earlier (range a) (range b)) gaps) (by_start gaps)
          (All-map-sort IsRange range (λ a b. earlier (range a) (range b)) gaps h))
  ]
