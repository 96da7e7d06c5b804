-- ===== src/Prelude/Sort.antt =====
-- `Array.prototype.sort` and SQL's `ORDER BY`, as a stable insertion sort by a Boolean test.
use stellar_analytics_dashbo.Prelude.{
  ℕ, suc, ◌+◌, ◌≤◌, ◌≡◌, refl, ◌∙◌, Bool, true, false, ◌||◌, List, [], ◌∷◌, arith, if◌then◌else◌,
  length, any, map, sum, ltb, All, Bool-cases, inl, inr,
}

module _ {A : Type 0} where
  unfoldable pub insert : (A → A → Bool) → A → List A → List A
  insert before a [] = a ∷ []
  insert before a (x ∷ xs) = if before a x then a ∷ x ∷ xs else x ∷ insert before a xs

  unfoldable pub sort : (A → A → Bool) → List A → List A
  unfolding insert
  sort before [] = []
  sort before (x ∷ xs) = insert before x (sort before xs)

  length-insert :
      (before : A → A → Bool) (a : A) (xs : List A) → length (insert before a xs) ≡ suc (length xs)
  unfolding insert
  length-insert before a [] = refl
  length-insert before a (x ∷ xs) = ground (arith, length-insert before a xs)

  pub length-sort : (before : A → A → Bool) (xs : List A) → length (sort before xs) ≡ length xs
  unfolding sort
  length-sort before [] = refl
  length-sort before (x ∷ xs) =
      omega (arith, length-insert before x (sort before xs), length-sort before xs)

  pub any-insert :
      (p : A → Bool) (before : A → A → Bool) (a : A) (xs : List A)
      → any p (insert before a xs) ≡ (p a || any p xs)
  unfolding insert
  any-insert p before a [] = refl
  any-insert p before a (x ∷ xs) = ground (arith, any-insert p before a xs)

  pub any-sort :
      (p : A → Bool) (before : A → A → Bool) (xs : List A) → any p (sort before xs) ≡ any p xs
  unfolding sort
  any-sort p before [] = refl
  any-sort p before (x ∷ xs) = any-insert p before x (sort before xs) ∙ rw (any-sort p before xs)

  sum-insert :
      (f : A → ℕ) (before : A → A → Bool) (a : A) (xs : List A)
      → sum (map f (insert before a xs)) ≡ f a + sum (map f xs)
  unfolding insert
  sum-insert f before a [] = refl
  sum-insert f before a (x ∷ xs) = ground (arith, sum-insert f before a xs)

  pub sum-sort :
      (f : A → ℕ) (before : A → A → Bool) (xs : List A)
      → sum (map f (sort before xs)) ≡ sum (map f xs)
  unfolding sort
  sum-sort f before [] = refl
  sum-sort f before (x ∷ xs) =
      omega (arith, sum-insert f before x (sort before xs), sum-sort f before xs)

  any-map :
      {B : Type 0} (p : B → Bool) (f : A → B) (xs : List A)
      → any p (map f xs) ≡ any (λ x. p (f x)) xs
  any-map p f [] = refl
  any-map p f (x ∷ xs) = rw (any-map p f xs)

  pub any-map-sort :
      {B : Type 0} (p : B → Bool) (f : A → B) (before : A → A → Bool) (xs : List A)
      → any p (map f (sort before xs)) ≡ any p (map f xs)
  any-map-sort p f before xs =
      rw (any-map p f xs, any-map p f (sort before xs)) (any-sort (λ x. p (f x)) before xs)

  All-map-insert :
      {B : Type 0} (P : B → Type 0) (f : A → B) (before : A → A → Bool) (a : A) (xs : List A)
      → P (f a)
      → All P (map f xs)
      → All P (map f (insert before a xs))
  unfolding insert
  All-map-insert P f before a [] h s = (h, tt)
  All-map-insert P f before a (x ∷ xs) h s = elim (Bool-cases (before a x)) [
    | inl e ↦ rw e (h, s)
    | inr e ↦ rw e (s.0, All-map-insert P f before a xs h s.1)
  ]

  pub All-map-sort :
      {B : Type 0} (P : B → Type 0) (f : A → B) (before : A → A → Bool) (xs : List A)
      → All P (map f xs)
      → All P (map f (sort before xs))
  unfolding sort
  All-map-sort P f before [] h = tt
  All-map-sort P f before (x ∷ xs) h =
      All-map-insert P f before x (sort before xs) h.0 (All-map-sort P f before xs h.1)

  -- Ascending by `key`, from `lo` on.
  abbrev pub SortedFrom : (A → ℕ) → ℕ → List A → Type 0
  SortedFrom key lo [] = Unit
  SortedFrom key lo (x ∷ xs) = (lo ≤ key x) × SortedFrom key (key x) xs

  pub SortedFrom-weaken :
      (key : A → ℕ) (lo hi : ℕ) (xs : List A)
      → lo ≤ hi
      → SortedFrom key hi xs
      → SortedFrom key lo xs
  SortedFrom-weaken key lo hi [] h s = tt
  SortedFrom-weaken key lo hi (x ∷ xs) h s = (omega arith, s.1)

  module _ (key : A → ℕ) (before : A → A → Bool)
      (before_le : (a b : A) → before a b ≡ true → key a ≤ key b)
      (after_le : (a b : A) → before a b ≡ false → key b ≤ key a) where
    insert-SortedFrom :
        (lo : ℕ) (a : A) (xs : List A)
        → lo ≤ key a
        → SortedFrom key lo xs
        → SortedFrom key lo (insert before a xs)
    unfolding insert
    insert-SortedFrom lo a [] h s = (h, tt)
    insert-SortedFrom lo a (x ∷ xs) h s =
        ground (arith, before_le a x, after_le a x, insert-SortedFrom (key x) a xs)

    pub sort-SortedFrom :
        (lo : ℕ) (xs : List A)
        → any (λ x. ltb (key x) lo) xs ≡ false
        → SortedFrom key lo (sort before xs)
    unfolding sort
    sort-SortedFrom lo [] h = tt
    sort-SortedFrom lo (x ∷ xs) h =
        ground (arith, sort-SortedFrom lo xs, insert-SortedFrom lo x (sort before xs))
