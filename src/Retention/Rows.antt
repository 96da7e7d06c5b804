-- ===== src/Retention/Rows.antt =====
-- Old and young rows, and what their selection and deletion in retention-service.ts leave.
use stellar_analytics_dashbo.Prelude.{
  ℕ, zero, suc, ◌+◌, ◌≤◌, ◌<◌, ◌≡◌, inl, inr, refl, ap, Bool, true, false, not, List, [], ◌∷◌,
  String, length, take, filter, All, arith, Bool-cases, length-filter-le,
}
use stellar_analytics_dashbo.Prelude.Text.{str_eq_refl}
use stellar_analytics_dashbo.Retention.{Row, has, is_old, delete_rows, select_old}

module _ {V : Type 0} where
  abbrev pub young : ℕ → List (Row V) → List (Row V)
  young cutoff rows = filter (λ r. not (is_old cutoff r)) rows

  -- No old row has the id of a young one, as where ids are unique.
  abbrev pub Apart : ℕ → List (Row V) → List (Row V) → Type 0
  Apart cutoff all rows =
      All (λ r. is_old cutoff r ≡ false → has r.id (filter (is_old cutoff) all) ≡ false) rows

  -- Rows that are selected are deleted, each for itself.
  delete-length :
      (n : ℕ) (p : Row V → Bool) (old rows : List (Row V))
      → All (λ r. has r.id old ≡ true) (take n (filter p rows))
      → length (delete_rows old rows) + length (take n (filter p rows)) ≤ length rows
  unfolding delete_rows
  delete-length zero p old rows h = omega (arith, length-filter-le (λ r. not (has r.id old)) rows)
  delete-length (suc n) p old [] h = omega arith
  delete-length (suc n) p old (r ∷ rows) h = elim (Bool-cases (p r)) [
    | inl t ↦
        let h' = rw t at h in rw t (rw (h'.0) (omega (arith, delete-length n p old rows h'.1)))
    | inr f ↦ let h' = rw f at h in rw f (ground (arith, delete-length (suc n) p old rows h'))
  ]

  has-more :
      (r : Row V) (rows xs : List (Row V))
      → All (λ x. has x.id rows ≡ true) xs
      → All (λ x. has x.id (r ∷ rows) ≡ true) xs
  has-more r rows [] h = tt
  has-more r rows (x ∷ xs) h = (ground (arith, h.0), has-more r rows xs h.1)

  has_self : (rows : List (Row V)) → All (λ r. has r.id rows ≡ true) rows
  has_self [] = tt
  has_self (r ∷ rows) = (rw (str_eq_refl r.id) refl, has-more r rows rows (has_self rows))

  pub none-old :
      (cutoff : ℕ) (rows : List (Row V))
      → filter (is_old cutoff) rows ≡ []
      → rows ≡ young cutoff rows
  none-old cutoff [] e = refl
  none-old cutoff (r ∷ rows) e = elim (Bool-cases (is_old cutoff r)) [
    | inl t ↦ absurd (ground arith)
    | inr f ↦ rw f (ap (λ xs. r ∷ xs) (none-old cutoff rows (rw f at e)))
  ]

  has-take : (k : String) (n : ℕ) (xs : List (Row V)) → has k xs ≡ false → has k (take n xs) ≡ false
  has-take k zero xs h = refl
  has-take k (suc n) [] h = refl
  has-take k (suc n) (x ∷ xs) h = ground (arith, has-take k n xs)

  -- Deleting old rows leaves the young ones where they are.
  young-delete :
      (cutoff n : ℕ) (all rows : List (Row V))
      → Apart cutoff all rows
      → young cutoff (delete_rows (take n (filter (is_old cutoff) all)) rows) ≡ young cutoff rows
  unfolding delete_rows
  young-delete cutoff n all [] h = refl
  young-delete cutoff n all (r ∷ rows) h = elim (Bool-cases (is_old cutoff r)) [
    | inl t ↦ rw t (elim (Bool-cases (has r.id (take n (filter (is_old cutoff) all)))) [
      | inl d ↦ rw d (young-delete cutoff n all rows h.1)
      | inr k ↦ rw k (rw t (young-delete cutoff n all rows h.1))
    ])
    | inr f ↦
        rw (has-take r.id n (filter (is_old cutoff) all) (h.0 f))
          (rw f (ap (λ xs. r ∷ xs) (young-delete cutoff n all rows h.1)))
  ]

  has-filter :
      (k : String) (p q : Row V → Bool) (xs : List (Row V))
      → has k (filter p xs) ≡ false
      → has k (filter p (filter q xs)) ≡ false
  has-filter k p q [] h = refl
  has-filter k p q (x ∷ xs) h = elim (Bool-cases (p x)) [
    | inl t ↦ ground (arith, rw t at h, has-filter k p q xs)
    | inr f ↦ ground (arith, rw f at h, has-filter k p q xs)
  ]

  -- Rows that are apart stay so when some are deleted.
  pub delete-Apart :
      (cutoff : ℕ) (old all rows : List (Row V))
      → Apart cutoff all rows
      → Apart cutoff (delete_rows old all) (delete_rows old rows)
  unfolding delete_rows
  delete-Apart cutoff old all [] h = tt
  delete-Apart cutoff old all (r ∷ rows) h = elim (Bool-cases (has r.id old)) [
    | inl t ↦ rw t (delete-Apart cutoff old all rows h.1)
    | inr f ↦ rw f (
      λ y. has-filter r.id (is_old cutoff) (λ x. not (has x.id old)) all (h.0 y),
      delete-Apart cutoff old all rows h.1,
    )
  ]

  pub selected-length :
      (cutoff : ℕ) (rows : List (Row V))
      → length (delete_rows (select_old cutoff rows) rows) + length (select_old cutoff rows)
        ≤ length rows
  unfolding select_old
  selected-length cutoff rows =
      delete-length 1000 (is_old cutoff) (select_old cutoff rows) rows
        (has_self (take 1000 (filter (is_old cutoff) rows)))

  pub young-selected :
      (cutoff : ℕ) (rows : List (Row V))
      → Apart cutoff rows rows
      → young cutoff (delete_rows (select_old cutoff rows) rows) ≡ young cutoff rows
  unfolding select_old
  young-selected cutoff rows h = young-delete cutoff 1000 rows rows h

  take-none : (n : ℕ) (xs : List (Row V)) → 0 < n → take n xs ≡ [] → xs ≡ []
  take-none zero xs pos e = absurd (omega arith)
  take-none (suc n) [] pos e = refl
  take-none (suc n) (x ∷ xs) pos e = cc

  pub none-selected :
      (cutoff : ℕ) (rows : List (Row V))
      → select_old cutoff rows ≡ []
      → filter (is_old cutoff) rows ≡ []
  unfolding select_old
  none-selected cutoff rows e = take-none 1000 (filter (is_old cutoff) rows) (omega arith) e
