-- ===== src/Ingest/Loss.antt =====
-- What is lost where processLedger of indexer-service.ts rolls a ledger back.
use stellar_analytics_dashbo.Prelude.{
  ℕ, ◌+◌, ◌≡◌, refl, ap, sym, ◌∙◌, Bool, true, false, Option, none, some, List, [], ◌∷◌, String,
  Bool-cases, Option-cases, inl, inr, arith, ◌⊎◌,
}
use stellar_analytics_dashbo.Prelude.Decimal.{decimal}
use stellar_analytics_dashbo.Idempotency.{IdempotencyTracker, Database, Runtime, WriteOptions}
use stellar_analytics_dashbo.Idempotency.Records.{exists_record}
use stellar_analytics_dashbo.Idempotency.Tracker.{
  has, should_skip, mark_processed, mark_processed_with_client,
}
use stellar_analytics_dashbo.Idempotency.Tracking.{opts_of}
use stellar_analytics_dashbo.Idempotency.Execution.{work-cases}
use stellar_analytics_dashbo.Ingest.{
  Ledger, Store, Calls, State, process_transactions_for_ledger, insert_ledger, finish_ledger,
  process_ledger, process_transactions, insert_transaction, hashes, Fetched, circuit_open,
  fetch_error,
}
use stellar_analytics_dashbo.Prelude.{filter}
use stellar_analytics_dashbo.Prelude.Text.{str_eq, str_eq_refl, str_eq_path}
use stellar_analytics_dashbo.Idempotency.Cache.{IsCoherent}
use stellar_analytics_dashbo.Idempotency.Coherence.{is_processed-IsCoherent}
use stellar_analytics_dashbo.Idempotency.Tracking.{
  build_tx_key, mark_transaction_processed, filter_duplicate_tx_hashes,
}
use stellar_analytics_dashbo.Idempotency.Reads.{is_recorded, filter_duplicate_tx_hashes-filter}
use stellar_analytics_dashbo.Ingest.Rollback.{
  is_passed, mark-keeps, mark-returns, process_transactions-Kept,
}

abbrev pub stores : {P : Type 0} → State P → String → Bool
stores s hash = has s.db.tables.transactions hash

pub fetched-cases :
    (x : Fetched)
    → ((hs : List String) × (x ≡ hashes hs))
      ⊎ ((x ≡ circuit_open) ⊎ ((e : String) × (x ≡ fetch_error e)))
fetched-cases (hashes hs) = inl (hs, refl)
fetched-cases circuit_open = inr (inl refl)
fetched-cases (fetch_error e) = inr (inr (e, refl))

same_test : (p : String → Bool) (x h : String) → str_eq x h ≡ true → p x ≡ p h
same_test p x h e = ap p (str_eq_path x h e)

pub has-filter_out :
    (p : String → Bool) (hs : List String) (h : String) → p h ≡ false → has (filter p hs) h ≡ false
has-filter_out p [] h out = refl
has-filter_out p (x ∷ hs) h out = ground (arith, has-filter_out p hs h, same_test p x h)

has-filter :
    (p : String → Bool) (hs : List String) (h : String)
    → has hs h ≡ true
    → p h ≡ true
    → has (filter p hs) h ≡ true
has-filter p [] h e holds = cc
has-filter p (x ∷ hs) h e holds = ground (arith, has-filter p hs h, same_test p x h)

mark_processed-tables :
    {P : Type 0} (rt : Runtime P) (t : IdempotencyTracker) (db : Database P Store) (ty key : String)
    (sequence : ℕ) (opts : WriteOptions P) (now : ℕ)
    → (mark_processed rt {E = String} t db ty key sequence opts now).1.tables ≡ db.tables
unfolding mark_processed mark_processed_with_client
mark_processed-tables rt t db ty key sequence opts now = elim (Bool-cases db.accepts_upsert) [
  | inl ok ↦ rw (ok, mark_processed, mark_processed_with_client) refl
  | inr rejects ↦ rw (rejects, mark_processed, mark_processed_with_client) refl
]

module _ {P : Type 0} (rt : Runtime P) (calls : Calls) where
  pub finish_ledger-tables :
      (s : State P) (l : Ledger) (now : ℕ)
      → (finish_ledger rt calls s l now).0.db.tables ≡ s.db.tables
  unfolding finish_ledger
  finish_ledger-tables s l now =
      let counted = l.successful_transaction_count + l.failed_transaction_count in
      let x =
        mark_processed rt {E = String} s.idempotency s.db (decimal l.sequence) (decimal counted)
          l.operation_count (opts_of none none none) now in
      elim (Option-cases (calls.update_network_metrics l)) [
        | inr (error, is) ↦ rw (is, finish_ledger) refl
        | inl is ↦ elim (work-cases x.2) [
          | inl (f, fails) ↦ rw (is, finish_ledger, fails) refl
          | inr (r, returns) ↦
              rw (is, finish_ledger, returns)
                (mark_processed-tables rt s.idempotency s.db (decimal l.sequence) (decimal counted)
                  l.operation_count (opts_of none none none) now)
        ]
      ]

  loop_stores :
      (t : IdempotencyTracker) (db : Database P Store) (sequence now : ℕ) (hash : String)
      → IsCoherent t db.records
      → is_recorded db hash ≡ true
      → has (process_transactions_for_ledger rt calls t db sequence now).1.tables.transactions hash
        ≡ has db.tables.transactions hash
  unfolding process_transactions_for_ledger
  loop_stores t db sequence now hash coherent known =
      elim (fetched-cases (calls.get_transactions_for_ledger sequence)) [
        | inr (inl e) ↦ rw (e, process_transactions_for_ledger) refl
        | inr (inr (error, e)) ↦ rw (e, process_transactions_for_ledger) refl
        | inl (hs, e) ↦
            let y = filter_duplicate_tx_hashes t db hs in
            let passed : is_passed y.1.1 hs hash ≡ true = elim (Bool-cases (has hs hash)) [
              | inl among ↦
                  let dup : has y.1.1 hash ≡ true =
                    ap (λ z. has z.1 hash) (filter_duplicate_tx_hashes-filter t db hs coherent)
                    ∙ has-filter (is_recorded db) hs hash among known in
                  rw dup refl
              | inr out ↦ rw out (ground arith)
            ] in
            let (_, _, kept) =
              process_transactions-Kept rt calls y.0 db y.1.1 hs sequence now "" hash in
            rw (e, process_transactions_for_ledger) (kept passed)
      ]

  -- The first transaction, if it is new and processed, is recorded just if the database takes the upsert.
  first_recorded :
      (t : IdempotencyTracker) (db : Database P Store) (duplicates rest : List String)
      (first : String) (sequence now : ℕ)
      → has duplicates first ≡ false
      → is_recorded db first ≡ false
      → calls.process_operations first ≡ none
      → is_recorded
          (process_transactions rt calls t db duplicates (first ∷ rest) sequence now).1
          first
        ≡ db.accepts_upsert
  unfolding process_transactions
  first_recorded t db duplicates rest first sequence now new unknown done =
      let key = build_tx_key first in
      let stored = record db { tables = insert_transaction first db.tables } in
      let x = mark_transaction_processed rt {E = String} t stored first sequence now in
      let marked : exists_record key x.1.records ≡ db.accepts_upsert =
        (mark-keeps rt t stored first sequence now key).2
        ∙ rw (unknown, str_eq_refl key) (ground arith) in
      elim (work-cases x.2) [
        | inl (f, fails) ↦ rw (new, process_transactions, done, fails) marked
        | inr (r, returns) ↦
            let ok = mark-returns rt t stored first sequence now r returns in
            let (_, keeps, _) =
              process_transactions-Kept rt calls x.0 x.1 duplicates rest sequence now key first in
            rw (new, process_transactions, done, returns) (keeps (marked ∙ ok) ∙ sym ok)
      ]

  -- A transaction whose key is recorded is not stored: whatever becomes of a ledger, and whichever
  -- transactions Horizon gives for it, processing it leaves a recorded transaction stored or not stored,
  -- as it was. The cache is coherent with the table of records.
  pub process_ledger-stores :
      (s : State P) (l : Ledger) (now : ℕ) (hash : String)
      → IsCoherent s.idempotency s.db.records
      → is_recorded s.db hash ≡ true
      → stores (process_ledger rt calls s l now).0 hash ≡ stores s hash
  unfolding process_ledger should_skip insert_ledger
  process_ledger-stores s l now hash coherent known =
      let t = (should_skip s.idempotency s.db (decimal l.sequence)).0 in
      let begun = record s.db { tables = insert_ledger l.sequence s.db.tables } in
      let x = process_transactions_for_ledger rt calls t begun l.sequence now in
      let s' : State P = record s { idempotency = x.0; db = x.1 } in
      elim (Bool-cases (should_skip s.idempotency s.db (decimal l.sequence)).1) [
        | inl e ↦ rw (e, process_ledger) refl
        | inr goes ↦ elim (Option-cases x.2) [
          | inr (error, is) ↦ rw (goes, process_ledger, is) refl
          | inl is ↦
              let same : process_ledger rt calls s l now ≡ finish_ledger rt calls s' l now =
                rw (goes, process_ledger, is) refl in
              ap (λ (y : State P × Option String). stores y.0 hash) same
              ∙ ap (λ (y : Store). has y.transactions hash) (finish_ledger-tables s' l now)
              ∙ loop_stores t begun l.sequence now hash
                  (is_processed-IsCoherent s.idempotency s.db (decimal l.sequence) coherent) known
        ]
      ]

  -- The tracker records a transaction on a connection of its own. Where its cache is coherent, and a
  -- ledger's first transaction is new, its operations are processed, and the loop over the transactions
  -- fails, be it at the first one: the ledger's tables are rolled back, and the first transaction stays
  -- recorded as processed just if the database takes the upsert of a record at all.
  pub process_ledger-is_recorded :
      (s : State P) (l : Ledger) (now : ℕ) (first : String) (rest : List String) (error : String)
      → IsCoherent s.idempotency s.db.records
      → (should_skip s.idempotency s.db (decimal l.sequence)).1 ≡ false
      → is_recorded s.db first ≡ false
      → calls.get_transactions_for_ledger l.sequence ≡ hashes (first ∷ rest)
      → calls.process_operations first ≡ none
      → (let (t, _) = should_skip s.idempotency s.db (decimal l.sequence) in
          let begun = record s.db { tables = insert_ledger l.sequence s.db.tables } in
          (process_transactions_for_ledger rt calls t begun l.sequence now).2 ≡ some error)
      → let (s', answer) = process_ledger rt calls s l now in
        (answer ≡ some error)
        × (s'.db.tables ≡ s.db.tables)
        × (is_recorded s'.db first ≡ s.db.accepts_upsert)
  unfolding process_ledger process_transactions_for_ledger should_skip
  process_ledger-is_recorded s l now first rest error coherent goes new fetched done fails =
      let t = (should_skip s.idempotency s.db (decimal l.sequence)).0 in
      let begun = record s.db { tables = insert_ledger l.sequence s.db.tables } in
      let split =
        filter_duplicate_tx_hashes-filter t begun (first ∷ rest)
          (is_processed-IsCoherent s.idempotency s.db (decimal l.sequence) coherent) in
      let y = filter_duplicate_tx_hashes t begun (first ∷ rest) in
      let out : has y.1.1 first ≡ false =
        ap (λ z. has z.1 first) split
        ∙ has-filter_out (is_recorded begun) (first ∷ rest) first new in
      let recorded = first_recorded y.0 begun y.1.1 rest first l.sequence now out new done in
      let ran : process_transactions_for_ledger rt calls t begun l.sequence now
          ≡ process_transactions rt calls y.0 begun y.1.1 (first ∷ rest) l.sequence now =
        rw (fetched, process_transactions_for_ledger) refl in
      rw (goes, process_ledger, fails) (refl, refl, ap (λ z. is_recorded z.1 first) ran ∙ recorded)
