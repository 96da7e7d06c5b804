-- ===== src/Ingest/Commit.antt =====
-- What processLedger of indexer-service.ts commits.
use stellar_analytics_dashbo.Prelude.{
  ℕ, ◌≡◌, ◌≢◌, refl, ap, sym, subst, ◌∙◌, All, filter, false, Bool, true, Option, none, List, [],
  ◌∷◌, String, Bool-cases, Option-cases, inl, inr, arith, ◌⊎◌, ◌++◌,
}
use stellar_analytics_dashbo.Prelude.Decimal.{decimal}
use stellar_analytics_dashbo.Idempotency.{IdempotencyTracker, Database, Runtime}
use stellar_analytics_dashbo.Idempotency.Tracker.{should_skip, has}
use stellar_analytics_dashbo.Idempotency.Cache.{IsCoherent}
use stellar_analytics_dashbo.Idempotency.Coherence.{is_processed-IsCoherent}
use stellar_analytics_dashbo.Idempotency.Reads.{is_recorded, filter_duplicate_tx_hashes-filter}
use stellar_analytics_dashbo.Ingest.Whole.{IsDone, process_transactions-All}
use stellar_analytics_dashbo.Ingest.{
  Ledger, Store, Calls, State, process_transactions_for_ledger, insert_ledger, finish_ledger,
  process_ledger, process_transactions, Fetched, hashes, circuit_open, fetch_error,
}
use stellar_analytics_dashbo.Prelude.{any, ◌||◌, ◌==◌}
use stellar_analytics_dashbo.Idempotency.Tracking.{filter_duplicate_tx_hashes}
use stellar_analytics_dashbo.Ingest.Rollback.{process_transactions-Kept}
use stellar_analytics_dashbo.Ingest.Loss.{has-filter_out, fetched-cases, finish_ledger-tables}

abbrev pub is_stored : {P : Type 0} → State P → ℕ → Bool
is_stored s sequence = any (λ x. x == sequence) s.db.tables.ledgers

abbrev pub hashes_of : Fetched → List String
hashes_of (hashes hs) = hs
hashes_of circuit_open = []
hashes_of (fetch_error e) = []

-- A transaction is recorded in a database, or stored in the tables.
abbrev pub IsComplete : {P : Type 0} → Database P Store → Store → String → Type 0
IsComplete db tables h = (is_recorded db h || has tables.transactions h) ≡ true

any-append :
    (k : ℕ) (xs : List ℕ) (y : ℕ)
    → any (λ x. x == k) (xs ++ y ∷ []) ≡ (any (λ x. x == k) xs || y == k)
any-append k [] y = ground arith
any-append k (x ∷ xs) y = ground (arith, any-append k xs y)

insert_ledger-any :
    (sequence : ℕ) (store : Store)
    → any (λ x. x == sequence) (insert_ledger sequence store).ledgers ≡ true
unfolding insert_ledger
insert_ledger-any sequence store = ground (arith, any-append sequence store.ledgers sequence)

complete :
    {P : Type 0} (db : Database P Store) (tables : Store) (duplicates hs xs : List String)
    → duplicates ≡ filter (is_recorded db) hs
    → All (IsDone duplicates tables.transactions) xs
    → All (IsComplete db tables) xs
complete db tables duplicates hs [] e h = tt
complete db tables duplicates hs (x ∷ xs) e h = (
  elim (Bool-cases (is_recorded db x)) [
    | inl known ↦ rw known refl
    | inr unknown ↦
        let out : has duplicates x ≡ false =
          ap (λ ds. has ds x) e ∙ has-filter_out (is_recorded db) hs x unknown in
        rw unknown (rw out at h.0)
  ],
  complete db tables duplicates hs xs e h.1,
)

module _ {P : Type 0} (rt : Runtime P) (calls : Calls) where
  loop-ledgers :
      (t : IdempotencyTracker) (db : Database P Store) (sequence now : ℕ)
      → (process_transactions_for_ledger rt calls t db sequence now).1.tables.ledgers
        ≡ db.tables.ledgers
  unfolding process_transactions_for_ledger
  loop-ledgers t db sequence now =
      elim (fetched-cases (calls.get_transactions_for_ledger sequence)) [
        | inr (inl e) ↦ rw (e, process_transactions_for_ledger) refl
        | inr (inr (error, e)) ↦ rw (e, process_transactions_for_ledger) refl
        | inl (hs, e) ↦
            let y = filter_duplicate_tx_hashes t db hs in
            rw (e, process_transactions_for_ledger)
              (process_transactions-Kept rt calls y.0 db y.1.1 hs sequence now "" "").0
      ]

  -- Every transaction that Horizon gave is recorded from before, or stored.
  loop-IsComplete :
      (t : IdempotencyTracker) (db : Database P Store) (sequence now : ℕ)
      → IsCoherent t db.records
      → let x = process_transactions_for_ledger rt calls t db sequence now in
        x.2 ≡ none
        → All (IsComplete db x.1.tables) (hashes_of (calls.get_transactions_for_ledger sequence))
  unfolding process_transactions_for_ledger
  loop-IsComplete t db sequence now coherent =
      elim (fetched-cases (calls.get_transactions_for_ledger sequence)) [
        | inr (inl e) ↦ rw (e, process_transactions_for_ledger) (λ fine. tt)
        | inr (inr (error, e)) ↦ rw (e, process_transactions_for_ledger) (λ fine. tt)
        | inl (hs, e) ↦
            let y = filter_duplicate_tx_hashes t db hs in
            let duplicates : y.1.1 ≡ filter (is_recorded db) hs =
              ap (λ z. z.1) (filter_duplicate_tx_hashes-filter t db hs coherent) in
            rw (e, process_transactions_for_ledger)
              (λ fine.
                complete db (process_transactions rt calls y.0 db y.1.1 hs sequence now).1.tables
                  y.1.1 hs hs duplicates
                  (process_transactions-All rt calls y.0 db y.1.1 hs sequence now fine))
      ]

  -- processLedger is all or nothing on the tables. Either they are as they were, and it has thrown or skipped
  -- the ledger; or the ledger is stored with every transaction that Horizon gave for it, but for those that
  -- were recorded as processed before. It may throw after this. While the circuit is open Horizon gives no
  -- transactions. The cache is coherent with the table of records.
  pub process_ledger-is_stored :
      (s : State P) (l : Ledger) (now : ℕ)
      → IsCoherent s.idempotency s.db.records
      → let (s', answer) = process_ledger rt calls s l now in
        ((s'.db.tables ≡ s.db.tables)
          × ((answer ≢ none) ⊎ ((should_skip s.idempotency s.db (decimal l.sequence)).1 ≡ true)))
        ⊎ ((is_stored s' l.sequence ≡ true)
            × All
                (IsComplete s.db s'.db.tables)
                (hashes_of (calls.get_transactions_for_ledger l.sequence)))
  unfolding process_ledger should_skip
  process_ledger-is_stored s l now coherent =
      let t = (should_skip s.idempotency s.db (decimal l.sequence)).0 in
      let begun = record s.db { tables = insert_ledger l.sequence s.db.tables } in
      let x = process_transactions_for_ledger rt calls t begun l.sequence now in
      let s' : State P = record s { idempotency = x.0; db = x.1 } in
      elim (Bool-cases (should_skip s.idempotency s.db (decimal l.sequence)).1) [
        | inl e ↦ rw (e, process_ledger) (inl (refl, inr refl))
        | inr goes ↦ elim (Option-cases x.2) [
          | inr (error, is) ↦ rw (goes, process_ledger, is) (inl (refl, inl (λ e. cc)))
          | inl is ↦
              let same : process_ledger rt calls s l now ≡ finish_ledger rt calls s' l now =
                rw (goes, process_ledger, is) refl in
              let tables : (process_ledger rt calls s l now).0.db.tables ≡ x.1.tables =
                ap (λ (y : State P × Option String). y.0.db.tables) same
                ∙ finish_ledger-tables rt calls s' l now in
              let coherent' =
                is_processed-IsCoherent s.idempotency s.db (decimal l.sequence) coherent in
              inr (
                ap (λ (y : Store). any (λ n. n == l.sequence) y.ledgers) tables
                    ∙ ap (any (λ n. n == l.sequence)) (loop-ledgers t begun l.sequence now)
                    ∙ insert_ledger-any l.sequence s.db.tables,
                subst
                    (λ y.
                      All (IsComplete s.db y)
                        (hashes_of (calls.get_transactions_for_ledger l.sequence)))
                    (sym tables) (loop-IsComplete t begun l.sequence now coherent' is),
              )
        ]
      ]
