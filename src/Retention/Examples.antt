-- ===== src/Retention/Examples.antt =====
-- Tests of the retention, and the theorems at a concrete table.
use stellar_analytics_dashbo.Prelude.{ℕ, ◌≡◌, refl, Bool, true, false, some, [], ◌∷◌, String, arith}
use stellar_analytics_dashbo.Retention.{
  Row, Store, insert_archive, delete_rows, select_old, archive_records, archive_from,
  archive_and_delete, cutoff_of,
}
use stellar_analytics_dashbo.Retention.Loss.{Kept}
use stellar_analytics_dashbo.Retention.Rows.{young, Apart}
use stellar_analytics_dashbo.Retention.Sweep.{archive_and_delete-Kept, archive_and_delete-young}

abbrev row : String → ℕ → Row ℕ
row id at = record { id = id; created_at = at; columns = 0 }

abbrev store : ℕ → Store ℕ
store left = record {
  rows = row "a" 5 ∷ row "b" 20 ∷ row "c" 7 ∷ [];
  archive = row "c" 7 ∷ [];
  left = left;
}

moved :
    archive_and_delete 10 (store 20)
    ≡ some
        (record { rows = row "b" 20 ∷ []; archive = row "c" 7 ∷ row "a" 5 ∷ []; left = 15 }, false)
unfolding archive_and_delete archive_from select_old archive_records insert_archive delete_rows
moved = refl

-- The deletion fails: the rows are in both tables.
failed :
    archive_and_delete 10 (store 3)
    ≡ some (record (store 0) { archive = row "c" 7 ∷ row "a" 5 ∷ [] }, true)
unfolding archive_and_delete archive_from select_old archive_records insert_archive delete_rows
failed = refl

half_a_year : cutoff_of 20000000000 180 ≡ 4448000000
half_a_year = refl

archive_and_delete-Kept_example :
    (r : Store ℕ × Bool) × (archive_and_delete 10 (store 3) ≡ some r) × Kept "a" r.0
archive_and_delete-Kept_example = archive_and_delete-Kept 10 (store 3) "a" refl

apart : Apart 10 (store 20).rows (store 20).rows
apart = (λ e. cc, (λ e. refl, (λ e. cc, tt)))

archive_and_delete-young_example :
    (s : Store ℕ) × (archive_and_delete 10 (store 20) ≡ some (s, false))
    × (s.rows ≡ young 10 (store 20).rows)
archive_and_delete-young_example = archive_and_delete-young 10 (store 20) apart (omega arith)
