-- ===== src/Ingest/Rollback.antt =====
-- What processLedger of indexer-service.ts keeps of a ledger whose transaction is rolled back.
use stellar_analytics_dashbo.Prelude.{
  ℕ, ◌≡◌, refl, ap, ◌∙◌, Bool, true, false, Option, List, [], ◌∷◌, String, Bool-cases, Option-cases,
  inl, inr, arith,
}
use stellar_analytics_dashbo.Idempotency.{IdempotencyTracker, ProcessedRecord, Database, Runtime}
use stellar_analytics_dashbo.Idempotency.Records.{exists_record}
use stellar_analytics_dashbo.Idempotency.Tracker.{
  has, returned, mark_processed, mark_processed_with_client,
}
use stellar_analytics_dashbo.Idempotency.Execution.{work-cases, has-add_key}
use stellar_analytics_dashbo.Ingest.{Store, Calls, process_transactions, insert_transaction}
use stellar_analytics_dashbo.Prelude.{not, ◌||◌, ◌&&◌}
use stellar_analytics_dashbo.Prelude.Text.{str_eq, str_eq_path}
use stellar_analytics_dashbo.Idempotency.Cache.{upserted}
use stellar_analytics_dashbo.Idempotency.Tracking.{build_tx_key, mark_transaction_processed}

pub insert_transaction-has :
    (hash h : String) (store : Store)
    → has (insert_transaction hash store).transactions h
      ≡ (has store.transactions h || str_eq hash h)
unfolding insert_transaction
insert_transaction-has hash h store = has-add_key hash h store.transactions

insert_transaction-ledgers :
    (hash : String) (store : Store) → (insert_transaction hash store).ledgers ≡ store.ledgers
unfolding insert_transaction
insert_transaction-ledgers hash store = refl

-- The loop passes a transaction over: it is a duplicate, or not among the transactions.
abbrev pub is_passed : List String → List String → String → Bool
is_passed duplicates txs h = has duplicates h || not (has txs h)

passed_on :
    (duplicates rest : List String) (hash h : String)
    → is_passed duplicates (hash ∷ rest) h ≡ true
    → is_passed duplicates rest h ≡ true
passed_on duplicates rest hash h e = ground arith

different :
    (duplicates rest : List String) (hash h : String)
    → has duplicates hash ≡ false
    → is_passed duplicates (hash ∷ rest) h ≡ true
    → str_eq hash h ≡ false
different duplicates rest hash h out in_them = elim (Bool-cases (str_eq hash h)) [
  | inr e ↦ e
  | inl e ↦ let same = ap (has duplicates) (str_eq_path hash h e) in ground arith
]

module _ {P : Type 0} (rt : Runtime P) where
  -- What marking does to the database: its tables stay, and no record is lost.
  pub mark-keeps :
      (t : IdempotencyTracker) (db : Database P Store) (hash : String) (sequence now : ℕ)
      (k : String)
      → let x = mark_transaction_processed rt {E = String} t db hash sequence now in
        (x.1.tables ≡ db.tables)
        × (x.1.accepts_upsert ≡ db.accepts_upsert)
        × (exists_record k x.1.records
            ≡ (exists_record k db.records || (db.accepts_upsert && str_eq (build_tx_key hash) k)))
  unfolding mark_transaction_processed mark_processed mark_processed_with_client
  mark-keeps t db hash sequence now k = elim (Bool-cases db.accepts_upsert) [
    | inl ok ↦
        rw (ok, mark_transaction_processed, mark_processed, mark_processed_with_client)
          (refl, refl, upserted rt t db.records "tx" (build_tx_key hash) sequence _ now k)
    | inr rejects ↦
        rw (rejects, mark_transaction_processed, mark_processed, mark_processed_with_client)
          (refl, rejects, ground arith)
  ]

  -- Marking returns only where the upsert is taken.
  pub mark-returns :
      (t : IdempotencyTracker) (db : Database P Store) (hash : String) (sequence now : ℕ)
      (r : ProcessedRecord P)
      → (mark_transaction_processed rt {E = String} t db hash sequence now).2 ≡ returned r
      → db.accepts_upsert ≡ true
  unfolding mark_transaction_processed mark_processed mark_processed_with_client
  mark-returns t db hash sequence now r e = elim (Bool-cases db.accepts_upsert) [
    | inl ok ↦ ok
    | inr rejects ↦
        let refused =
          rw (rejects, mark_transaction_processed, mark_processed, mark_processed_with_client) at
            e in
        cc
  ]

  module _ (calls : Calls) where
    -- What the loop keeps: the ledgers, the records, and the duplicates that are not stored.
    abbrev pub Kept :
        Database P Store
        → List String
        → List String
        → String
        → String
        → IdempotencyTracker × Database P Store × Option String
        → Type 0
    Kept db duplicates txs k h x =
        (x.1.tables.ledgers ≡ db.tables.ledgers)
        × (exists_record k db.records ≡ true → exists_record k x.1.records ≡ true)
        × (is_passed duplicates txs h ≡ true
            → has x.1.tables.transactions h ≡ has db.tables.transactions h)

    pub process_transactions-Kept :
        (t : IdempotencyTracker) (db : Database P Store) (duplicates txs : List String)
        (sequence now : ℕ) (k h : String)
        → Kept db duplicates txs k h
            (process_transactions rt calls t db duplicates txs sequence now)
    unfolding process_transactions
    process_transactions-Kept t db duplicates [] sequence now k h = (refl, λ e. e, λ e. refl)
    process_transactions-Kept t db duplicates (hash ∷ rest) sequence now k h =
        let stored = record db { tables = insert_transaction hash db.tables } in
        let x = mark_transaction_processed rt {E = String} t stored hash sequence now in
        let (tables, _, records) = mark-keeps t stored hash sequence now k in
        let ledgers = insert_transaction-ledgers hash db.tables in
        elim (Bool-cases (has duplicates hash)) [
          | inl dup ↦
              rw (dup, process_transactions)
                (let (ls, ks, hs) =
                    process_transactions-Kept t db duplicates rest sequence now k h in
                  (ls, ks, λ e. hs (passed_on duplicates rest hash h e)))
          | inr new ↦
              let not_added = λ (e : is_passed duplicates (hash ∷ rest) h ≡ true).
                insert_transaction-has hash h db.tables
                ∙ rw (different duplicates rest hash h new e) (ground arith) in
              elim (Option-cases (calls.process_operations hash)) [
                | inr (error, is) ↦ rw (new, process_transactions, is) (ledgers, λ e. e, not_added)
                | inl is ↦
                    let here = ap (λ (s : Store). s.ledgers) tables ∙ ledgers in
                    let known = λ (e : exists_record k db.records ≡ true). records ∙ rw e refl in
                    let there = λ (e : is_passed duplicates (hash ∷ rest) h ≡ true).
                      ap (λ (s : Store). has s.transactions h) tables ∙ not_added e in
                    elim (work-cases x.2) [
                      | inl (f, fails) ↦
                          rw (new, process_transactions, is, fails) (here, known, there)
                      | inr (r, ok) ↦
                          let (ls, ks, hs) =
                            process_transactions-Kept x.0 x.1 duplicates rest sequence now k h in
                          rw (new, process_transactions, is, ok)
                            (
                              ls ∙ here,
                              λ e. ks (known e),
                              λ e. hs (passed_on duplicates rest hash h e) ∙ there e,
                            )
                    ]
              ]
        ]
