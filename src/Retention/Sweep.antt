-- ===== src/Retention/Sweep.antt =====
-- The retention of retention-service.ts ends, and moves just the old rows.
use stellar_analytics_dashbo.Prelude.{
  ℕ, zero, suc, ◌+◌, ◌*◌, ◌≤◌, ◌<◌, ◌≡◌, refl, ap, sym, subst, ◌∙◌, Bool, true, false, Option, some,
  List, [], ◌∷◌, String, length, arith,
}
use stellar_analytics_dashbo.Retention.{
  Row, Store, insert_archive, delete_rows, select_old, query_at, archive_records, after_records,
  with_records, archive_from, archive_and_delete,
}
use stellar_analytics_dashbo.Retention.Loss.{Kept, Keeps, nothing_lost}
use stellar_analytics_dashbo.Retention.Rows.{
  young, Apart, none-old, delete-Apart, selected-length, young-selected, none-selected,
}

module _ {V : Type 0} where
  -- What an answered loop over the records leaves.
  record Answered (rs : List (Row V)) (s : Store V) (r : Store V × Bool) : Type 0 where
    same_rows : r.0.rows ≡ s.rows
    enough : length rs ≤ s.left → (r.1 ≡ false) × (r.0.left + length rs ≡ s.left)

  query-Answered :
      (n : ℕ) (r : Row V) (rs : List (Row V)) (s : Store V)
      → n ≡ s.left
      → ((s' : Store V) → Answered rs s' (archive_records rs s'))
      → Answered (r ∷ rs) s (
          query_at n s
            (s, true)
            (λ s'. archive_records rs (record s' { archive = insert_archive r s'.archive })))
  query-Answered zero r rs s e more = record {
    same_rows = refl;
    enough = λ h. absurd (omega arith);
  }
  query-Answered (suc n) r rs s e more =
      let m = more (record s { archive = insert_archive r s.archive; left = n }) in
      record { same_rows = m.same_rows; enough = λ h. ground (arith, m.enough (omega arith)) }

  archive_records-Answered :
      (rs : List (Row V)) (s : Store V) → Answered rs s (archive_records rs s)
  unfolding archive_records
  archive_records-Answered [] s = record { same_rows = refl; enough = λ h. (refl, omega arith) }
  archive_records-Answered (r ∷ rs) s =
      query-Answered s.left r rs s refl (archive_records-Answered rs)

  -- What a run from a store comes to: it ends; it leaves the young rows, unless it threw; and it does not
  -- throw if the database answers three queries for each row and one more.
  record Sweeps (cutoff : ℕ) (s : Store V) (r : Store V × Bool) : Type 0 where
    leaves : r.1 ≡ false → Apart cutoff s.rows s.rows → r.0.rows ≡ young cutoff s.rows
    answered : 3 * length s.rows < s.left → r.1 ≡ false

  abbrev Ends : ℕ → Store V → Option (Store V × Bool) → Type 0
  Ends cutoff s o = (r : Store V × Bool) × (o ≡ some r) × Sweeps cutoff s r

  -- The same of what follows the answered SELECT of a round.
  record SweepsRest (cutoff : ℕ) (s : Store V) (r : Store V × Bool) : Type 0 where
    leaves : r.1 ≡ false → Apart cutoff s.rows s.rows → r.0.rows ≡ young cutoff s.rows
    answered : 3 * length s.rows ≤ s.left → r.1 ≡ false

  abbrev EndsRest : ℕ → Store V → Option (Store V × Bool) → Type 0
  EndsRest cutoff s o = (r : Store V × Bool) × (o ≡ some r) × SweepsRest cutoff s r

  after-Ends :
      (n cutoff : ℕ) (next : Store V → Option (Store V × Bool)) (s s' : Store V)
      → n ≡ s'.left
      → 0 < length (select_old cutoff s.rows)
      → ((t : Store V) → length t.rows < length s.rows → Ends cutoff t (next t))
      → Answered (select_old cutoff s.rows) s (s', false)
      → EndsRest cutoff s (
          query_at n s'
            (some (s', true))
            (λ t. next (record t { rows = delete_rows (select_old cutoff s.rows) t.rows })))
  after-Ends zero cutoff next s s' e some_old more a = (
    (s', true),
    refl,
    record {
      leaves = λ f. cc;
      answered = λ h. absurd (ground (arith, a.enough, selected-length cutoff s.rows));
    },
  )
  after-Ends (suc n) cutoff next s s' e some_old more a =
      let old = select_old cutoff s.rows in
      let t = record s' { rows = delete_rows old s'.rows; left = n } in
      let q : t.rows ≡ delete_rows old s.rows = ap (delete_rows old) a.same_rows in
      let shorter : length t.rows + length old ≤ length s.rows =
        subst (λ rs. length rs + length old ≤ length s.rows) (sym q)
          (selected-length cutoff s.rows) in
      let (r, ran, sw) = more t (omega (arith, shorter)) in
      (
        r,
        ran,
        record {
          leaves = λ f h.
              sw.leaves f
                (subst (λ rs. Apart cutoff rs rs) (sym q) (delete-Apart cutoff old s.rows s.rows h))
              ∙ ap (young cutoff) q
              ∙ young-selected cutoff s.rows h;
          answered = λ h. sw.answered (omega (arith, shorter, a.enough (omega (arith, shorter))));
        },
      )

  records-Ends :
      (cutoff : ℕ) (next : Store V → Option (Store V × Bool)) (s : Store V) (r : Store V × Bool)
      → 0 < length (select_old cutoff s.rows)
      → ((t : Store V) → length t.rows < length s.rows → Ends cutoff t (next t))
      → Answered (select_old cutoff s.rows) s r
      → EndsRest cutoff s (after_records (select_old cutoff s.rows) next r)
  records-Ends cutoff next s (s', true) some_old more a = (
    (s', true),
    refl,
    record {
      leaves = λ f. cc;
      answered = λ h. absurd (ground (arith, a.enough, selected-length cutoff s.rows));
    },
  )
  records-Ends cutoff next s (s', false) some_old more a =
      after-Ends s'.left cutoff next s s' refl some_old more a

  with_records-Ends :
      (cutoff : ℕ) (next : Store V → Option (Store V × Bool)) (s : Store V) (old : List (Row V))
      → select_old cutoff s.rows ≡ old
      → ((t : Store V) → length t.rows < length s.rows → Ends cutoff t (next t))
      → EndsRest cutoff s (with_records old next s)
  with_records-Ends cutoff next s [] e more = (
    (s, false),
    refl,
    record {
      leaves = λ f h. none-old cutoff s.rows (none-selected cutoff s.rows e);
      answered = λ h. refl;
    },
  )
  with_records-Ends cutoff next s (r ∷ rs) e more =
      let positive : 0 < length (r ∷ rs) = omega arith in
      subst (λ old. EndsRest cutoff s (after_records old next (archive_records old s))) e
        (records-Ends cutoff next s (archive_records (select_old cutoff s.rows) s)
          (subst (λ old. 0 < length old) (sym e) positive) more
          (archive_records-Answered (select_old cutoff s.rows) s))

  query-Ends :
      (n cutoff : ℕ) (next : Store V → Option (Store V × Bool)) (s : Store V)
      → n ≡ s.left
      → ((t : Store V) → length t.rows < length s.rows → Ends cutoff t (next t))
      → Ends cutoff s
          (query_at n s (some (s, true)) (λ s'. with_records (select_old cutoff s'.rows) next s'))
  query-Ends zero cutoff next s e more =
      ((s, true), refl, record { leaves = λ f. cc; answered = λ h. absurd (omega arith) })
  query-Ends (suc n) cutoff next s e more =
      let s' = record s { left = n } in
      let (r, ran, sw) = with_records-Ends cutoff next s' (select_old cutoff s.rows) refl more in
      (r, ran, record { leaves = sw.leaves; answered = λ h. sw.answered (omega arith) })

  archive_from-Ends :
      (fuel cutoff : ℕ) (s : Store V)
      → length s.rows < fuel
      → Ends cutoff s (archive_from fuel cutoff s)
  unfolding archive_from
  archive_from-Ends zero cutoff s h = absurd (omega arith)
  archive_from-Ends (suc fuel) cutoff s h =
      query-Ends s.left cutoff (archive_from fuel cutoff) s refl
        (λ t lt. archive_from-Ends fuel cutoff t (omega arith))

  pub archive_and_delete-ends :
      (cutoff : ℕ) (s : Store V) → (r : Store V × Bool) × (archive_and_delete cutoff s ≡ some r)
  unfolding archive_and_delete
  archive_and_delete-ends cutoff s =
      let (r, ran, sw) = archive_from-Ends (suc (length s.rows)) cutoff s (omega arith) in (r, ran)

  -- If no old row has the id of a young one, and the database answers three queries for each row and one
  -- more, archiving ends without an error and leaves just the young rows, in their order.
  pub archive_and_delete-young :
      (cutoff : ℕ) (s : Store V)
      → Apart cutoff s.rows s.rows
      → 3 * length s.rows < s.left
      → (s' : Store V) × (archive_and_delete cutoff s ≡ some (s', false))
        × (s'.rows ≡ young cutoff s.rows)
  unfolding archive_and_delete
  archive_and_delete-young cutoff s apart enough =
      let ((s', threw), ran, sw) = archive_from-Ends (suc (length s.rows)) cutoff s (omega arith) in
      let fine : threw ≡ false = sw.answered enough in
      (s', ran ∙ ap (λ b. some (s', b)) fine, sw.leaves fine apart)

  -- Wherever a query fails, archiving ends and no row is lost: an id that the table or the archive had is in
  -- one of them after.
  pub archive_and_delete-Kept :
      (cutoff : ℕ) (s : Store V) (k : String)
      → Kept k s
      → (r : Store V × Bool) × (archive_and_delete cutoff s ≡ some r) × Kept k r.0
  archive_and_delete-Kept cutoff s k h =
      let (r, ran) = archive_and_delete-ends cutoff s in
      (r, ran, subst (Keeps s) ran (nothing_lost cutoff s) k h)
