-- ===== src/Ingest/Whole.antt =====
-- The loop over a ledger's transactions of indexer-service.ts stores each, if it ends without an error.
use stellar_analytics_dashbo.Prelude.{
  ℕ, ◌≡◌, refl, ap, ◌∙◌, true, ◌||◌, Option, none, List, [], ◌∷◌, String, All, Bool-cases,
  Option-cases, inl, inr, arith,
}
use stellar_analytics_dashbo.Prelude.Text.{str_eq_refl}
use stellar_analytics_dashbo.Idempotency.{IdempotencyTracker, Database, Runtime}
use stellar_analytics_dashbo.Idempotency.Tracker.{has}
use stellar_analytics_dashbo.Idempotency.Execution.{work-cases}
use stellar_analytics_dashbo.Idempotency.Tracking.{mark_transaction_processed}
use stellar_analytics_dashbo.Ingest.{Store, Calls, process_transactions, insert_transaction}
use stellar_analytics_dashbo.Ingest.Rollback.{insert_transaction-has, mark-keeps}

-- A transaction is among the duplicates, or stored.
abbrev pub IsDone : List String → List String → String → Type 0
IsDone duplicates stored h = (has duplicates h || has stored h) ≡ true

module _ {P : Type 0} (rt : Runtime P) (calls : Calls) where
  -- What is stored stays; and all is done, unless there is an error.
  record Whole (db : Database P Store) (duplicates txs : List String)
      (x : IdempotencyTracker × Database P Store × Option String) : Type 0 where
    grows :
        (h : String) → has db.tables.transactions h ≡ true → has x.1.tables.transactions h ≡ true
    done : x.2 ≡ none → All (IsDone duplicates x.1.tables.transactions) txs

  process_transactions-Whole :
      (t : IdempotencyTracker) (db : Database P Store) (duplicates txs : List String)
      (sequence now : ℕ)
      → Whole db duplicates txs (process_transactions rt calls t db duplicates txs sequence now)
  unfolding process_transactions
  process_transactions-Whole t db duplicates [] sequence now = record {
    grows = λ h e. e;
    done = λ e. tt;
  }
  process_transactions-Whole t db duplicates (hash ∷ rest) sequence now =
      let stored = record db { tables = insert_transaction hash db.tables } in
      let x = mark_transaction_processed rt {E = String} t stored hash sequence now in
      let tables = (mark-keeps rt t stored hash sequence now hash).0 in
      let added : (h : String)
          → has db.tables.transactions h ≡ true
          → has stored.tables.transactions h ≡ true =
        λ h e. insert_transaction-has hash h db.tables ∙ rw e refl in
      elim (Bool-cases (has duplicates hash)) [
        | inl dup ↦
            let more = process_transactions-Whole t db duplicates rest sequence now in
            rw (dup, process_transactions)
              (record { grows = more.grows; done = λ e. (ground arith, more.done e) })
        | inr new ↦ elim (Option-cases (calls.process_operations hash)) [
          | inr (error, is) ↦
              rw (new, process_transactions, is) (record { grows = added; done = λ e. cc })
          | inl is ↦
              let kept : (h : String)
                  → has db.tables.transactions h ≡ true
                  → has x.1.tables.transactions h ≡ true =
                λ h e. ap (λ (s : Store). has s.transactions h) tables ∙ added h e in
              elim (work-cases x.2) [
                | inl (f, fails) ↦
                    rw (new, process_transactions, is, fails)
                      (record { grows = kept; done = λ e. cc })
                | inr (r, ok) ↦
                    let more = process_transactions-Whole x.0 x.1 duplicates rest sequence now in
                    let here : has x.1.tables.transactions hash ≡ true =
                      ap (λ (s : Store). has s.transactions hash) tables
                      ∙ insert_transaction-has hash hash db.tables
                      ∙ rw (str_eq_refl hash) (ground arith) in
                    rw (new, process_transactions, is, ok)
                      (record {
                        grows = λ h e. more.grows h (kept h e);
                        done = λ e. (ground (arith, more.grows hash here), more.done e);
                      })
              ]
        ]
      ]

  -- The loop over a ledger's transactions, where it ends without an error.
  pub process_transactions-All :
      (t : IdempotencyTracker) (db : Database P Store) (duplicates txs : List String)
      (sequence now : ℕ)
      → let x = process_transactions rt calls t db duplicates txs sequence now in
        x.2 ≡ none → All (IsDone duplicates x.1.tables.transactions) txs
  process_transactions-All t db duplicates txs sequence now e =
      (process_transactions-Whole t db duplicates txs sequence now).done e
