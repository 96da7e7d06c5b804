-- ===== src/Idempotency/Cache.antt =====
-- The cache of IdempotencyTracker.ts: the keys it holds, and what the queries do to them.
use stellar_analytics_dashbo.Prelude.{
  ℕ, zero, suc, ◌+◌, ◌*◌, ◌≤◌, ◌≡◌, refl, sym, ◌∙◌, Bool, true, false, ◌||◌, List, [], ◌∷◌, String,
  leb, arith, any, length, take, Bool-cases, inl, inr, subst, length-filter-le,
}
use stellar_analytics_dashbo.Prelude.Text.{str_eq, str_eq_left, str_eq_right, str_eq_path}
use stellar_analytics_dashbo.Prelude.Sort.{sort, any-sort}
use stellar_analytics_dashbo.Idempotency.{
  ProcessedRecord, WriteOptions, Runtime, IdempotencyTracker,
}
use stellar_analytics_dashbo.Idempotency.Records.{
  has_key, exists_record, new_record, upsert, most_recent, delete_record, delete_older,
}
use stellar_analytics_dashbo.Idempotency.Tracker.{has, delete_key, cache_key, cache_record, warm}
use stellar_analytics_dashbo.Idempotency.Execution.{has-add_key, upsert-exists_record}

module _ {P : Type 0} where
  -- Every key of the cache has a row in the table.
  abbrev pub IsCoherent : IdempotencyTracker → List (ProcessedRecord P) → Type 0
  IsCoherent t rows =
      (key : String) → has t.processed_cache key ≡ true → exists_record key rows ≡ true

any-take :
    {A : Type 0} (p : A → Bool) (n : ℕ) (xs : List A) → any p (take n xs) ≡ true → any p xs ≡ true
any-take p zero xs h = cc
any-take p (suc n) [] h = cc
any-take p (suc n) (x ∷ xs) h = ground (arith, any-take p n xs)

pub has-delete_key :
    (key k : String) (keys : List String)
    → has (delete_key key keys) k ≡ true
    → (has keys k ≡ true) × (str_eq key k ≡ false)
unfolding delete_key
has-delete_key key k [] h = cc
has-delete_key key k (x ∷ keys) h = ground (arith, has-delete_key key k keys, str_eq_right key k x)

module _ {P : Type 0} where
  pub has-warm :
      (rows : List (ProcessedRecord P)) (t : IdempotencyTracker) (key : String)
      → has (warm rows t).processed_cache key
        ≡ (has t.processed_cache key || exists_record key rows)
  unfolding warm exists_record
  has-warm [] t key = ground arith
  has-warm (r ∷ rows) t key =
      has-warm rows (cache_record r.sequence r.entity_key t) key
      ∙ ground (arith, has-add_key r.entity_key key t.processed_cache)

  pub most_recent-exists_record :
      (n : ℕ) (rows : List (ProcessedRecord P)) (key : String)
      → exists_record key (most_recent n rows) ≡ true
      → exists_record key rows ≡ true
  unfolding most_recent exists_record
  most_recent-exists_record n rows key h =
      let before = λ (a b : ProcessedRecord P). leb b.processed_at a.processed_at in
      sym (any-sort (has_key key) before rows) ∙ any-take (has_key key) n (sort before rows) h

  pub delete-exists_record :
      (key k : String) (rows : List (ProcessedRecord P))
      → str_eq key k ≡ false
      → exists_record k (delete_record key rows) ≡ exists_record k rows
  unfolding delete_record exists_record
  delete-exists_record key k [] h = refl
  delete-exists_record key k (r ∷ rows) h =
      ground (arith, delete-exists_record key k rows, str_eq_left r.entity_key key k)

  pub delete_older-all :
      (days now : ℕ) (rows : List (ProcessedRecord P))
      → length rows ≤ length (delete_older days now rows)
      → delete_older days now rows ≡ rows
  unfolding delete_older
  delete_older-all days now [] h = refl
  delete_older-all days now (r ∷ rows) h = ground (
    arith,
    delete_older-all days now rows,
    length-filter-le (λ x. leb now (x.processed_at + days * 86400000)) rows,
  )

  pub add-IsCoherent :
      (t : IdempotencyTracker) (rows rows' : List (ProcessedRecord P)) (key : String)
      → IsCoherent t rows
      → ((k : String) → exists_record k rows' ≡ (exists_record k rows || str_eq key k))
      → IsCoherent (cache_key key t) rows'
  add-IsCoherent t rows rows' key c grows k h =
      grows k ∙ ground (arith, has-add_key key k t.processed_cache, c k)

  pub known-IsCoherent :
      (t : IdempotencyTracker) (rows : List (ProcessedRecord P)) (key : String)
      → IsCoherent t rows
      → exists_record key rows ≡ true
      → IsCoherent (cache_key key t) rows
  known-IsCoherent t rows key c known = add-IsCoherent t rows rows key c (λ k.
      elim (Bool-cases (str_eq key k)) [
        | inl e ↦
            let here = subst (λ x. exists_record x rows ≡ true) (str_eq_path key k e) known in
            rw here refl
        | inr e ↦ ground arith
      ])

  pub upserted :
      (rt : Runtime P) (t : IdempotencyTracker) (rows : List (ProcessedRecord P)) (ty key : String)
      (sequence : ℕ) (opts : WriteOptions P) (now : ℕ) (k : String)
      → exists_record k (upsert (new_record rt t.default_strategy ty key sequence opts now) rows).0
        ≡ (exists_record k rows || str_eq key k)
  unfolding new_record
  upserted rt t rows ty key sequence opts now k =
      upsert-exists_record (new_record rt t.default_strategy ty key sequence opts now) k rows
