-- ===== src/Gaps/Table.antt =====
-- The queries on a table's `sequence` column that GapDetectionService.ts and gap-detector.ts make.
-- A table is the list of its rows' sequence numbers, in any order.
use stellar_analytics_dashbo.Prelude.{
  ℕ, ◌+◌, ◌-◌, ◌≤◌, ◌≡◌, refl, sym, subst, ◌∙◌, Bool-cases, ==_iff, Bool, true, false, ◌&&◌, ◌||◌,
  Option, none, some, List, [], ◌∷◌, arith, if◌then◌else◌, length, any, ltb, leb, ◌==◌, min, max,
  Option-cases, inl, inr, filter,
}
use stellar_analytics_dashbo.Prelude.Sort.{sort, SortedFrom, any-sort, sort-SortedFrom, length-sort}

abbrev pub contains : ℕ → List ℕ → Bool
contains n = any (λ x. x == n)

-- MIN(sequence) and MAX(sequence): NULL on the empty table.
abbrev pub least : List ℕ → Option ℕ
least [] = none
least (x ∷ xs) = elim (least xs) [ none ↦ some x | some m ↦ some (min x m) ]

abbrev pub greatest : List ℕ → Option ℕ
greatest [] = none
greatest (x ∷ xs) = elim (greatest xs) [ none ↦ some x | some m ↦ some (max x m) ]

-- SELECT sequence … ORDER BY sequence ASC.
unfoldable pub select_all : List ℕ → List ℕ
select_all t = sort leb t

-- … WHERE sequence >= $1 AND sequence <= $2 ORDER BY sequence ASC.
abbrev pub in_range : ℕ → ℕ → ℕ → Bool
in_range a b n = leb a n && leb n b

unfoldable pub select_range : ℕ → ℕ → List ℕ → List ℕ
select_range a b t = sort leb (filter (in_range a b) t)

-- SELECT COUNT(*) … WHERE sequence >= $1 AND sequence <= $2.
unfoldable pub count_range : ℕ → ℕ → List ℕ → ℕ
count_range a b t = length (filter (in_range a b) t)

-- SELECT DISTINCT, on an ascending list.
distinct_after : ℕ → List ℕ → List ℕ
distinct_after p [] = []
distinct_after p (x ∷ xs) = if p == x then distinct_after p xs else x ∷ distinct_after x xs

unfoldable pub distinct : List ℕ → List ℕ
unfolding distinct_after
distinct [] = []
distinct (x ∷ xs) = x ∷ distinct_after x xs

-- What the detectors do with MIN, MAX and COUNT: nothing on an empty table, or one that starts or
-- ends at 0, nor where COUNT reaches the length of the range.
abbrev pub unless_complete : {G : Type 0} → List ℕ → (ℕ → ℕ → List G) → List G
unless_complete rows find_gaps = elim (least rows) [
  | none ↦ []
  | some min_seq ↦ elim (greatest rows) [
    | none ↦ []
    | some max_seq ↦
        if min_seq == 0 || max_seq == 0 || length rows == 0
        then []
        else if leb (max_seq - min_seq + 1) (length rows)
        then []
        else find_gaps min_seq max_seq
  ]
]

-- A primary key column: no sequence number twice.
abbrev pub IsUnique : List ℕ → Type 0
IsUnique [] = Unit
IsUnique (x ∷ xs) = (contains x xs ≡ false) × IsUnique xs

pub any-select_all : (p : ℕ → Bool) (t : List ℕ) → any p (select_all t) ≡ any p t
unfolding select_all
any-select_all p t = any-sort p leb t

pub length-select_all : (t : List ℕ) → length (select_all t) ≡ length t
unfolding select_all
length-select_all t = length-sort leb t

pub contains-select_all : (n : ℕ) (t : List ℕ) → contains n (select_all t) ≡ contains n t
unfolding select_all
contains-select_all n t = any-sort (λ x. x == n) leb t

pub select_all-SortedFrom :
    (lo : ℕ) (t : List ℕ) → any (λ x. ltb x lo) t ≡ false → SortedFrom (λ x. x) lo (select_all t)
unfolding select_all
select_all-SortedFrom lo t h =
    sort-SortedFrom (λ x. x) leb (λ a b e. ground arith) (λ a b e. ground arith) lo t h

any-filter-range :
    (n a b : ℕ) (t : List ℕ)
    → contains n (filter (in_range a b) t) ≡ (in_range a b n && contains n t)
any-filter-range n a b [] = ground arith
any-filter-range n a b (x ∷ t) = ground (arith, any-filter-range n a b t)

pub contains-select_range :
    (n a b : ℕ) (t : List ℕ) → contains n (select_range a b t) ≡ (in_range a b n && contains n t)
unfolding select_range
contains-select_range n a b t =
    any-sort (λ x. x == n) leb (filter (in_range a b) t) ∙ any-filter-range n a b t

filter-range_above : (a b : ℕ) (t : List ℕ) → any (λ x. ltb x a) (filter (in_range a b) t) ≡ false
filter-range_above a b [] = refl
filter-range_above a b (x ∷ t) = ground (arith, filter-range_above a b t)

filter-range_below : (a b : ℕ) (t : List ℕ) → any (λ x. ltb b x) (filter (in_range a b) t) ≡ false
filter-range_below a b [] = refl
filter-range_below a b (x ∷ t) = ground (arith, filter-range_below a b t)

pub select_range-SortedFrom : (a b : ℕ) (t : List ℕ) → SortedFrom (λ x. x) a (select_range a b t)
unfolding select_range
select_range-SortedFrom a b t =
    sort-SortedFrom (λ x. x) leb (λ a b e. ground arith) (λ a b e. ground arith) a
      (filter (in_range a b) t) (filter-range_above a b t)

pub select_range_below : (a b : ℕ) (t : List ℕ) → any (λ x. ltb b x) (select_range a b t) ≡ false
unfolding select_range
select_range_below a b t =
    any-sort (λ x. ltb b x) leb (filter (in_range a b) t) ∙ filter-range_below a b t

any_below_weaken :
    (lo m : ℕ) (t : List ℕ) → lo ≤ m → any (λ x. ltb x m) t ≡ false → any (λ x. ltb x lo) t ≡ false
any_below_weaken lo m [] h e = refl
any_below_weaken lo m (x ∷ t) h e = ground (arith, any_below_weaken lo m t h)

any_above_weaken :
    (hi m : ℕ) (t : List ℕ) → m ≤ hi → any (λ x. ltb m x) t ≡ false → any (λ x. ltb hi x) t ≡ false
any_above_weaken hi m [] h e = refl
any_above_weaken hi m (x ∷ t) h e = ground (arith, any_above_weaken hi m t h)

pub least-none : (t : List ℕ) → least t ≡ none → t ≡ []
least-none [] e = refl
least-none (x ∷ t) e = ground arith

pub greatest-none : (t : List ℕ) → greatest t ≡ none → t ≡ []
greatest-none [] e = refl
greatest-none (x ∷ t) e = ground arith

-- The least and the greatest bound every row, and stand in the table.
pub least_below : (t : List ℕ) (m : ℕ) → least t ≡ some m → any (λ x. ltb x m) t ≡ false
least_below [] m e = refl
least_below (x ∷ t) m e = elim (Option-cases (least t)) [
  | inl nothing ↦ rw (least-none t nothing) (ground (arith, least-none t nothing))
  | inr (k, found) ↦ ground (arith, least_below t k found, any_below_weaken m k t)
]

pub greatest_above : (t : List ℕ) (m : ℕ) → greatest t ≡ some m → any (λ x. ltb m x) t ≡ false
greatest_above [] m e = refl
greatest_above (x ∷ t) m e = elim (Option-cases (greatest t)) [
  | inl nothing ↦ rw (greatest-none t nothing) (ground (arith, greatest-none t nothing))
  | inr (k, found) ↦ ground (arith, greatest_above t k found, any_above_weaken m k t)
]

pub contains-least : (t : List ℕ) (m : ℕ) → least t ≡ some m → contains m t ≡ true
contains-least [] m e = cc
contains-least (x ∷ t) m e = elim (Option-cases (least t)) [
  | inl nothing ↦ ground arith
  | inr (k, found) ↦ ground (arith, contains-least t k found)
]

pub contains-greatest : (t : List ℕ) (m : ℕ) → greatest t ≡ some m → contains m t ≡ true
contains-greatest [] m e = cc
contains-greatest (x ∷ t) m e = elim (Option-cases (greatest t)) [
  | inl nothing ↦ ground arith
  | inr (k, found) ↦ ground (arith, contains-greatest t k found)
]

-- Deduplication forgets no row, keeps the order, and leaves it strict.
contains-distinct_after :
    (n p : ℕ) (t : List ℕ) → (p == n) ≡ false → contains n (distinct_after p t) ≡ contains n t
unfolding distinct_after
contains-distinct_after n p [] h = refl
contains-distinct_after n p (x ∷ t) h =
    ground (arith, contains-distinct_after n p t h, contains-distinct_after n x t)

pub contains-distinct : (n : ℕ) (t : List ℕ) → contains n (distinct t) ≡ contains n t
unfolding distinct
contains-distinct n [] = refl
contains-distinct n (x ∷ t) = ground (arith, contains-distinct_after n x t)

pub any_le-least : (n : ℕ) (t : List ℕ) (m : ℕ) → least t ≡ some m → any (λ x. leb x n) t ≡ leb m n
any_le-least n [] m e = cc
any_le-least n (x ∷ t) m e = elim (Option-cases (least t)) [
  | inl nothing ↦ rw (least-none t nothing) (ground (arith, least-none t nothing))
  | inr (k, found) ↦ ground (arith, any_le-least n t k found)
]

pub any_ge-greatest :
    (n : ℕ) (t : List ℕ) (m : ℕ) → greatest t ≡ some m → any (λ x. leb n x) t ≡ leb n m
any_ge-greatest n [] m e = cc
any_ge-greatest n (x ∷ t) m e = elim (Option-cases (greatest t)) [
  | inl nothing ↦ rw (greatest-none t nothing) (ground (arith, greatest-none t nothing))
  | inr (k, found) ↦ ground (arith, any_ge-greatest n t k found)
]

le_of_bound : (t : List ℕ) (m k : ℕ) → any (λ x. ltb k x) t ≡ false → contains m t ≡ true → m ≤ k
le_of_bound [] m k b c = cc
le_of_bound (x ∷ t) m k b c = ground (arith, le_of_bound t m k)

pub least-le-greatest : (t : List ℕ) (m k : ℕ) → least t ≡ some m → greatest t ≡ some k → m ≤ k
least-le-greatest t m k l g = le_of_bound t m k (greatest_above t k g) (contains-least t m l)

distinct_after-SortedFrom :
    (p : ℕ) (t : List ℕ) → SortedFrom (λ x. x) p t → SortedFrom (λ x. x) p (distinct_after p t)
unfolding distinct_after
distinct_after-SortedFrom p [] s = tt
distinct_after-SortedFrom p (x ∷ t) s = elim (Bool-cases (p == x)) [
  | inl e ↦ rw e (
      distinct_after-SortedFrom p t
        (subst (λ q. SortedFrom (λ x. x) q t) (sym ((==_iff p x).0 e)) s.1))
  | inr e ↦ rw e (s.0, distinct_after-SortedFrom x t s.1)
]

pub distinct-SortedFrom :
    (lo : ℕ) (t : List ℕ) → SortedFrom (λ x. x) lo t → SortedFrom (λ x. x) lo (distinct t)
unfolding distinct
distinct-SortedFrom lo [] s = tt
distinct-SortedFrom lo (x ∷ t) s = (s.0, distinct_after-SortedFrom x t s.1)

distinct_after_below :
    (hi p : ℕ) (t : List ℕ)
    → any (λ x. ltb hi x) t ≡ false
    → any (λ x. ltb hi x) (distinct_after p t) ≡ false
unfolding distinct_after
distinct_after_below hi p [] h = refl
distinct_after_below hi p (x ∷ t) h =
    ground (arith, distinct_after_below hi p t, distinct_after_below hi x t)

pub distinct_below :
    (hi : ℕ) (t : List ℕ) → any (λ x. ltb hi x) t ≡ false → any (λ x. ltb hi x) (distinct t) ≡ false
unfolding distinct
distinct_below hi [] h = refl
distinct_below hi (x ∷ t) h = ground (arith, distinct_after_below hi x t)
