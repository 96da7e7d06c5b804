-- ===== src/Retention.antt =====
-- The moving of old rows to archives in packages/indexer/src/services/retention-service.ts. A row has its id, which is the primary key
-- of its table and of the archive, its time and its other columns; `left` is the number of queries that the database still answers, so that
-- each query may be the one that fails.
pub mod Rows
pub mod Loss
pub mod Sweep
mod Examples
use stellar_analytics_dashbo.Prelude.{
  ℕ, zero, suc, ◌+◌, ◌-◌, ◌*◌, Bool, true, false, not, Option, none, some, List, [], ◌∷◌, ◌++◌,
  String, ltb, if◌then◌else◌, length, take, filter, any,
}
use stellar_analytics_dashbo.Prelude.Text.{str_eq}

pub record Row (V : Type 0) : Type 0 where
  pub id : String
  pub created_at : ℕ
  pub columns : V

pub record Store (V : Type 0) : Type 0 where
  pub rows : List (Row V)
  pub archive : List (Row V)
  pub left : ℕ

module _ {V : Type 0} where
  abbrev pub has : String → List (Row V) → Bool
  has id rows = any (λ r. str_eq r.id id) rows

  abbrev pub is_old : ℕ → Row V → Bool
  is_old cutoff r = ltb r.created_at cutoff

  -- INSERT … ON CONFLICT DO NOTHING.
  unfoldable pub insert_archive : Row V → List (Row V) → List (Row V)
  insert_archive r archive = if has r.id archive then archive else archive ++ r ∷ []

  -- DELETE … WHERE id IN (…).
  unfoldable pub delete_rows : List (Row V) → List (Row V) → List (Row V)
  delete_rows old rows = filter (λ r. not (has r.id old)) rows

  -- SELECT … WHERE created_at < $1 LIMIT 1000.
  unfoldable pub select_old : ℕ → List (Row V) → List (Row V)
  select_old cutoff rows = take 1000 (filter (is_old cutoff) rows)

  -- A query: what happens if it fails, and what if it is answered.
  abbrev pub query_at {ℓ} : {B : Type ℓ} → ℕ → Store V → B → (Store V → B) → B
  query_at zero s fails answers = fails
  query_at (suc n) s fails answers = answers (record s { left = n })

  abbrev pub query {ℓ} : {B : Type ℓ} → Store V → B → (Store V → B) → B
  query s fails answers = query_at s.left s fails answers

  -- The `for` loop; whether it threw.
  unfoldable pub archive_records : List (Row V) → Store V → Store V × Bool
  archive_records [] s = (s, false)
  archive_records (r ∷ rs) s =
      query s (s, true)
        (λ s'. archive_records rs (record s' { archive = insert_archive r s'.archive }))

  abbrev pub after_records :
      List (Row V) → (Store V → Option (Store V × Bool)) → Store V × Bool → Option (Store V × Bool)
  after_records old next (s, true) = some (s, true)
  after_records old next (s, false) =
      query s (some (s, true)) (λ s'. next (record s' { rows = delete_rows old s'.rows }))

  abbrev pub with_records :
      List (Row V) → (Store V → Option (Store V × Bool)) → Store V → Option (Store V × Bool)
  with_records [] next s = some (s, false)
  with_records (r ∷ rs) next s = after_records (r ∷ rs) next (archive_records (r ∷ rs) s)

  -- `while (true)`, on fuel.
  unfoldable pub archive_from : ℕ → ℕ → Store V → Option (Store V × Bool)
  archive_from zero cutoff s = none
  archive_from (suc fuel) cutoff s =
      query s (some (s, true))
        (λ s'. with_records (select_old cutoff s'.rows) (archive_from fuel cutoff) s')

  -- As many rounds as there are rows, and one.
  unfoldable pub archive_and_delete : ℕ → Store V → Option (Store V × Bool)
  archive_and_delete cutoff s = archive_from (suc (length s.rows)) cutoff s

-- `now.getTime() - days * 24 * 60 * 60 * 1000`.
abbrev pub cutoff_of : ℕ → ℕ → ℕ
cutoff_of now days = now - days * 24 * 60 * 60 * 1000
