-- ===== src/Idempotency/Reads.antt =====
-- What the reads of IdempotencyTracker.ts answer, while its cache is coherent with the table.
use stellar_analytics_dashbo.Prelude.{
  ℕ, ◌≤◌, ◌≡◌, refl, sym, Bool, not, none, some, List, [], ◌∷◌, String, map, ltb, leb, arith,
  filter, length, Bool-cases, Option-cases, inl, inr,
}
use stellar_analytics_dashbo.Idempotency.{IdempotencyTracker, Database}
use stellar_analytics_dashbo.Idempotency.Records.{exists_record}
use stellar_analytics_dashbo.Idempotency.Tracker.{has, is_processed}
use stellar_analytics_dashbo.Idempotency.Cache.{IsCoherent}
use stellar_analytics_dashbo.Idempotency.Tracking.{
  build_tx_key, is_transaction_processed, filter_duplicate_tx_hashes,
}
use stellar_analytics_dashbo.Idempotency.Records.{last_sequence, count_sequences}
use stellar_analytics_dashbo.Idempotency.Tracker.{get_last_processed_sequence, count_in_range}
use stellar_analytics_dashbo.Idempotency.Coherence.{is_processed-IsCoherent}
use stellar_analytics_dashbo.Gaps.Table.{greatest, count_range, in_range}

module _ {P D : Type 0} where
  -- With a coherent cache, isProcessed answers whether the table has a row of the key.
  pub is_processed-exists_record :
      (t : IdempotencyTracker) (db : Database P D) (key : String)
      → IsCoherent t db.records
      → (is_processed t db key).1 ≡ exists_record key db.records
  unfolding is_processed
  is_processed-exists_record t db key c = elim (Bool-cases (has t.processed_cache key)) [
    | inl e ↦ rw (e, is_processed) (sym (c key e))
    | inr e ↦ rw (e, is_processed) refl
  ]

  abbrev pub is_recorded : Database P D → String → Bool
  is_recorded db hash = exists_record (build_tx_key hash) db.records

  -- With a coherent cache, filterDuplicateTxHashes splits the hashes, in their order and with repetitions,
  -- into those without a row in the table and those with one.
  pub filter_duplicate_tx_hashes-filter :
      (t : IdempotencyTracker) (db : Database P D) (hashes : List String)
      → IsCoherent t db.records
      → (filter_duplicate_tx_hashes t db hashes).1
        ≡ (filter (λ h. not (is_recorded db h)) hashes, filter (is_recorded db) hashes)
  unfolding filter_duplicate_tx_hashes is_transaction_processed
  filter_duplicate_tx_hashes-filter t db [] c = refl
  filter_duplicate_tx_hashes-filter t db (hash ∷ hashes) c =
      let key = build_tx_key hash in
      let t' = (is_processed t db key).0 in
      let rest =
        filter_duplicate_tx_hashes-filter t' db hashes (is_processed-IsCoherent t db key c) in
      rw (is_processed-exists_record t db key c) (ground (arith, rest))

greatest-none : (ns : List ℕ) → greatest ns ≡ none → ns ≡ []
greatest-none [] e = refl
greatest-none (n ∷ ns) e = elim (Option-cases (greatest ns)) [
  | inl none_left ↦ ground arith
  | inr (m, is) ↦ ground arith
]

greatest-count :
    (ns : List ℕ) (m from to : ℕ)
    → greatest ns ≡ some m
    → m ≤ to
    → ltb 0 (length (filter (in_range from to) ns)) ≡ leb from m
greatest-count [] m from to e h = cc
greatest-count (n ∷ ns) m from to e h = elim (Option-cases (greatest ns)) [
  | inl none_left ↦ rw (greatest-none ns none_left) (ground arith)
  | inr (k, is) ↦ ground (arith, greatest-count ns k from to is)
]

-- getLastProcessedSequence answers the end of what countInRange counts: where it is m, a range that
-- reaches m has rows exactly if it starts at m or below.
pub last_sequence-count :
    {P D : Type 0} (db : Database P D) (m from to : ℕ)
    → get_last_processed_sequence db ≡ some m
    → m ≤ to
    → ltb 0 (count_in_range db from to) ≡ leb from m
unfolding get_last_processed_sequence count_in_range last_sequence count_sequences count_range
last_sequence-count db m from to e h =
    greatest-count (map (λ r. r.sequence) db.records) m from to e h
