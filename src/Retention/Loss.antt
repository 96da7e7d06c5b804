-- ===== src/Retention/Loss.antt =====
-- The retention of retention-service.ts ends, and loses no row, wherever it fails.
use stellar_analytics_dashbo.Prelude.{
  ℕ, zero, suc, ◌≡◌, inl, inr, refl, ap, subst, ◌∙◌, Bool, true, false, not, ◌&&◌, ◌||◌, Option,
  none, some, List, [], ◌∷◌, ◌++◌, String, length, arith, Bool-cases,
}
use stellar_analytics_dashbo.Prelude.Text.{str_eq, str_eq_path}
use stellar_analytics_dashbo.Retention.{
  Row, Store, has, insert_archive, delete_rows, select_old, query_at, archive_records,
  after_records, with_records, archive_from, archive_and_delete,
}

module _ {V : Type 0} where
  has-append : (k : String) (xs ys : List (Row V)) → has k (xs ++ ys) ≡ (has k xs || has k ys)
  has-append k [] ys = refl
  has-append k (x ∷ xs) ys = ground (arith, has-append k xs ys)

  -- What the archive has after an insert.
  has-insert :
      (k : String) (r : Row V) (a : List (Row V))
      → has k (insert_archive r a) ≡ (has k a || str_eq r.id k)
  unfolding insert_archive
  has-insert k r a = elim (Bool-cases (has r.id a)) [
    | inl t ↦ rw t (elim (Bool-cases (str_eq r.id k)) [
      | inl s ↦
          (rw s (let there = subst (λ i. has i a ≡ true) (str_eq_path r.id k s) t in rw there refl))
      | inr n ↦ rw n (ground arith)
    ])
    | inr f ↦ rw f (has-append k a (r ∷ []) ∙ ground arith)
  ]

  has-delete :
      (k : String) (old xs : List (Row V))
      → has k (delete_rows old xs) ≡ (has k xs && not (has k old))
  unfolding delete_rows
  has-delete k old [] = refl
  has-delete k old (x ∷ xs) = elim (Bool-cases (str_eq x.id k)) [
    | inl t ↦
        let same : has x.id old ≡ has k old = ap (λ i. has i old) (str_eq_path x.id k t) in
        rw same (ground (arith, has-delete k old xs))
    | inr f ↦ ground (arith, has-delete k old xs)
  ]

  -- What the loop over the records does to the store.
  pub record Archived (rs : List (Row V)) (s : Store V) (r : Store V × Bool) : Type 0 where
    pub same_rows : r.0.rows ≡ s.rows
    pub grows : (k : String) → has k s.archive ≡ true → has k r.0.archive ≡ true
    pub holds : r.1 ≡ false → (k : String) → has k rs ≡ true → has k r.0.archive ≡ true

  -- Only the answered queries count.
  query-Archived :
      (n : ℕ) (r : Row V) (rs : List (Row V)) (s : Store V)
      → ((s' : Store V) → Archived rs s' (archive_records rs s'))
      → Archived (r ∷ rs) s (
          query_at n s
            (s, true)
            (λ s'. archive_records rs (record s' { archive = insert_archive r s'.archive })))
  query-Archived zero r rs s more = record {
    same_rows = refl;
    grows = λ k h. h;
    holds = λ e k h. cc;
  }
  query-Archived (suc n) r rs s more =
      let s' = record s { archive = insert_archive r s.archive; left = n } in
      let m = more s' in
      record {
        same_rows = m.same_rows;
        grows = λ k h. m.grows k (rw (has-insert k r s.archive) (ground arith));
        holds = λ e k h. elim (Bool-cases (str_eq r.id k)) [
          | inl t ↦ m.grows k (rw (has-insert k r s.archive) (ground arith))
          | inr f ↦ m.holds e k (rw f at h)
        ];
      }

  pub archive_records-Archived :
      (rs : List (Row V)) (s : Store V) → Archived rs s (archive_records rs s)
  unfolding archive_records
  archive_records-Archived [] s = record { same_rows = refl; grows = λ k h. h; holds = λ e k h. cc }
  archive_records-Archived (r ∷ rs) s = query-Archived s.left r rs s (archive_records-Archived rs)

  -- A row with the id is in the table or in the archive.
  abbrev pub Kept : String → Store V → Type 0
  Kept k s = (has k s.rows || has k s.archive) ≡ true

  abbrev pub Keeps : Store V → Option (Store V × Bool) → Type 0
  Keeps s none = Unit
  Keeps s (some r) = (k : String) → Kept k s → Kept k r.0

  Keeps-trans :
      (s t : Store V) (o : Option (Store V × Bool))
      → ((k : String) → Kept k s → Kept k t)
      → Keeps t o
      → Keeps s o
  Keeps-trans s t none f h = tt
  Keeps-trans s t (some r) f h = λ k i. h k (f k i)

  after-Keeps :
      (n : ℕ) (old : List (Row V)) (next : Store V → Option (Store V × Bool)) (s s' : Store V)
      → ((t : Store V) → Keeps t (next t))
      → Archived old s (s', false)
      → Keeps s
          (query_at n s' (some (s', true)) (λ t. next (record t { rows = delete_rows old t.rows })))
  after-Keeps zero old next s s' more a =
      λ k h. rw (ap (has k) a.same_rows) (ground (arith, a.grows k))
  after-Keeps (suc n) old next s s' more a =
      let t = record s' { rows = delete_rows old s'.rows; left = n } in
      Keeps-trans s t (next t)
        (λ k h.
          rw (has-delete k old s'.rows)
            (rw (ap (has k) a.same_rows) (ground (arith, a.grows k, a.holds refl k))))
        (more t)

  with-Keeps :
      (old : List (Row V)) (next : Store V → Option (Store V × Bool)) (s : Store V)
      (r : Store V × Bool)
      → ((t : Store V) → Keeps t (next t))
      → Archived old s r
      → Keeps s (after_records old next r)
  with-Keeps old next s (s', true) more a =
      λ k h. rw (ap (has k) a.same_rows) (ground (arith, a.grows k))
  with-Keeps old next s (s', false) more a = after-Keeps s'.left old next s s' more a

  round-Keeps :
      (old : List (Row V)) (next : Store V → Option (Store V × Bool)) (s : Store V)
      → ((t : Store V) → Keeps t (next t))
      → Keeps s (with_records old next s)
  round-Keeps [] next s more = λ k h. h
  round-Keeps (r ∷ rs) next s more =
      with-Keeps (r ∷ rs) next s (archive_records (r ∷ rs) s) more
        (archive_records-Archived (r ∷ rs) s)

  query-Keeps :
      (n cutoff : ℕ) (next : Store V → Option (Store V × Bool)) (s : Store V)
      → ((t : Store V) → Keeps t (next t))
      → Keeps s
          (query_at n s (some (s, true)) (λ s'. with_records (select_old cutoff s'.rows) next s'))
  query-Keeps zero cutoff next s more = λ k h. h
  query-Keeps (suc n) cutoff next s more =
      let s' = record s { left = n } in
      Keeps-trans s s' (with_records (select_old cutoff s.rows) next s') (λ k h. h)
        (round-Keeps (select_old cutoff s.rows) next s' more)

  archive_from-Keeps : (fuel cutoff : ℕ) (s : Store V) → Keeps s (archive_from fuel cutoff s)
  unfolding archive_from
  archive_from-Keeps zero cutoff s = tt
  archive_from-Keeps (suc fuel) cutoff s =
      query-Keeps s.left cutoff (archive_from fuel cutoff) s (archive_from-Keeps fuel cutoff)

  pub nothing_lost : (cutoff : ℕ) (s : Store V) → Keeps s (archive_and_delete cutoff s)
  unfolding archive_and_delete
  nothing_lost cutoff s = archive_from-Keeps (suc (length s.rows)) cutoff s
