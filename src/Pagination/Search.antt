-- ===== src/Pagination/Search.antt =====
-- Positions in lists of distinct elements, as `findIndex`, `indexOf` and `slice` of pagination.ts use them.
use stellar_analytics_dashbo.Prelude.{
  ℕ, zero, suc, ◌+◌, ◌-◌, ◌≤◌, ◌<◌, ◌≡◌, ◌⊎◌, inl, inr, refl, ap, Bool, true, false, some, List, [],
  ◌∷◌, ◌++◌, map, length, take, drop, All, arith, Bool-cases, or_default,
}
use mathlib.Core.Option
use stellar_analytics_dashbo.Pagination.{find_index, last_of}

module _ {A : Type 0} where
  -- No element stands for a later one.
  abbrev pub Distinct : (A → A → Bool) → List A → Type 0
  Distinct same [] = Unit
  Distinct same (x ∷ xs) = All (λ y. same x y ≡ false) xs × Distinct same xs

  All-middle : (P : A → Type 0) (xs : List A) (x : A) (ys : List A) → All P (xs ++ x ∷ ys) → P x
  All-middle P [] x ys h = h.0
  All-middle P (z ∷ zs) x ys h = All-middle P zs x ys h.1

  pub find_index-middle :
      (same : A → A → Bool) (xs : List A) (x : A) (ys : List A)
      → same x x ≡ true
      → Distinct same (xs ++ x ∷ ys)
      → find_index (λ y. same y x) (xs ++ x ∷ ys) ≡ some (length xs)
  find_index-middle same [] x ys r d = rw r refl
  find_index-middle same (z ∷ zs) x ys r d =
      rw (All-middle (λ y. same z y ≡ false) zs x ys d.0)
        (ap (Option.map suc) (find_index-middle same zs x ys r d.1))

  pub drop-middle : (xs : List A) (x : A) (ys : List A) → drop (length xs + 1) (xs ++ x ∷ ys) ≡ ys
  drop-middle [] x ys = refl
  drop-middle (z ∷ zs) x ys =
      let e : suc (length zs) + 1 ≡ suc (length zs + 1) = omega arith in rw e (drop-middle zs x ys)

  pub drop-length : (xs ys : List A) → drop (length xs) (xs ++ ys) ≡ ys
  drop-length [] ys = refl
  drop-length (z ∷ zs) ys = drop-length zs ys

  pub take-length : (xs ys : List A) → take (length xs) (xs ++ ys) ≡ xs
  take-length [] ys = refl
  take-length (z ∷ zs) ys = ap (λ ws. z ∷ ws) (take-length zs ys)

  pub take-all : (k : ℕ) (xs : List A) → length xs ≤ k → take k xs ≡ xs
  take-all zero [] h = refl
  take-all zero (x ∷ xs) h = absurd (omega arith)
  take-all (suc k) [] h = refl
  take-all (suc k) (x ∷ xs) h = ap (λ ys. x ∷ ys) (take-all k xs (omega arith))

  pub take-drop : (k : ℕ) (xs : List A) → take k xs ++ drop k xs ≡ xs
  take-drop zero xs = refl
  take-drop (suc k) [] = refl
  take-drop (suc k) (x ∷ xs) = ap (λ ys. x ∷ ys) (take-drop k xs)

  pub length-drop : (k : ℕ) (xs : List A) → length (drop k xs) ≡ length xs - k
  length-drop zero xs = omega arith
  length-drop (suc k) [] = omega arith
  length-drop (suc k) (x ∷ xs) = omega (arith, length-drop k xs)

  pub length-take :
      (k : ℕ) (xs : List A)
      → 0 < k
      → 0 < length xs
      → (0 < length (take k xs)) × (length (drop k xs) < length xs)
  length-take zero xs p h = absurd (omega arith)
  length-take (suc k) [] p h = absurd (omega arith)
  length-take (suc k) (x ∷ xs) p h = (omega arith, omega (arith, length-drop k xs))

  -- A list is empty or has a last element.
  pub has_last : (xs : List A) → (xs ≡ []) ⊎ ((i : List A) × (x : A) × (xs ≡ i ++ x ∷ []))
  has_last [] = inl refl
  has_last (x ∷ xs) = elim (has_last xs) [
    | inl e ↦ inr ([], x, ap (λ ys. x ∷ ys) e)
    | inr (i, y, e) ↦ inr (x ∷ i, y, ap (λ ys. x ∷ ys) e)
  ]

  pub last_of-append : (xs : List A) (x : A) → last_of (xs ++ x ∷ []) ≡ some x
  last_of-append [] x = refl
  last_of-append (y ∷ ys) x = ap (λ o. some (or_default o y)) (last_of-append ys x)

  pub append-one : (xs : List A) (x : A) (ys : List A) → (xs ++ x ∷ []) ++ ys ≡ xs ++ x ∷ ys
  append-one [] x ys = refl
  append-one (z ∷ zs) x ys = ap (λ ws. z ∷ ws) (append-one zs x ys)

module _ {A B : Type 0} where
  pub find_index-map :
      (p : B → Bool) (f : A → B) (xs : List A)
      → find_index p (map f xs) ≡ find_index (λ x. p (f x)) xs
  find_index-map p f [] = refl
  find_index-map p f (x ∷ xs) = elim (Bool-cases (p (f x))) [
    | inl e ↦ rw e refl
    | inr e ↦ rw e (ap (Option.map suc) (find_index-map p f xs))
  ]

  pub map-append : (f : A → B) (xs ys : List A) → map f (xs ++ ys) ≡ map f xs ++ map f ys
  map-append f [] ys = refl
  map-append f (x ∷ xs) ys = ap (λ zs. f x ∷ zs) (map-append f xs ys)

  pub length-map : (f : A → B) (xs : List A) → length (map f xs) ≡ length xs
  length-map f [] = refl
  length-map f (x ∷ xs) = ap suc (length-map f xs)

  pub map-take : (f : A → B) (k : ℕ) (xs : List A) → take k (map f xs) ≡ map f (take k xs)
  map-take f zero xs = refl
  map-take f (suc k) [] = refl
  map-take f (suc k) (x ∷ xs) = ap (λ ys. f x ∷ ys) (map-take f k xs)

  pub map-drop : (f : A → B) (k : ℕ) (xs : List A) → drop k (map f xs) ≡ map f (drop k xs)
  map-drop f zero xs = refl
  map-drop f (suc k) [] = refl
  map-drop f (suc k) (x ∷ xs) = map-drop f k xs
