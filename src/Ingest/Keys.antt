-- ===== src/Ingest/Keys.antt =====
-- Which ledgers processLedger takes to be processed.
use stellar_analytics_dashbo.Prelude.{
  ℕ, ◌+◌, ◌≡◌, refl, sym, ap, subst, ◌∙◌, true, false, Option, none, some, String, Bool-cases,
  Option-cases, inl, inr, ◌⊎◌,
}
use stellar_analytics_dashbo.Prelude.Decimal.{decimal}
use stellar_analytics_dashbo.Idempotency.{IdempotencyTracker, Database, ProcessedRecord, Runtime}
use stellar_analytics_dashbo.Idempotency.Records.{exists_record, new_record}
use stellar_analytics_dashbo.Idempotency.Tracker.{
  returned, thrown, Failure, has, is_processed, should_skip, mark_processed,
  mark_processed_with_client,
}
use stellar_analytics_dashbo.Idempotency.Tracking.{opts_of}
use stellar_analytics_dashbo.Idempotency.Execution.{upsert-own}
use stellar_analytics_dashbo.Ingest.{
  Ledger, Store, Calls, State, message, process_transactions_for_ledger, insert_ledger,
  finish_ledger, process_ledger,
}

module _ {P : Type 0} (rt : Runtime P) where
  marked-exists_record :
      (t : IdempotencyTracker) (db : Database P Store) (ty key : String) (sequence now : ℕ)
      → let x = mark_processed rt {E = String} t db ty key sequence (opts_of none none none) now in
        ((r : ProcessedRecord P) × (x.2 ≡ returned r) × (exists_record key x.1.records ≡ true))
        ⊎ ((f : Failure String) × (x.2 ≡ thrown f))
  unfolding mark_processed mark_processed_with_client new_record
  marked-exists_record t db ty key sequence now = elim (Bool-cases db.accepts_upsert) [
    | inl ok ↦
        let new = new_record rt t.default_strategy ty key sequence (opts_of none none none) now in
        inl
          (rw (ok, mark_processed, mark_processed_with_client) (_, refl, upsert-own new db.records))
    | inr rejects ↦ inr (rw (rejects, mark_processed, mark_processed_with_client) (_, refl))
  ]

  -- The key that processLedger marks: the number of the ledger's transactions.
  abbrev pub marked_key : Ledger → String
  marked_key l = decimal (l.successful_transaction_count + l.failed_transaction_count)

  module _ (calls : Calls) where
    finish_ledger-exists_record :
        (s : State P) (l : Ledger) (now : ℕ)
        → (finish_ledger rt calls s l now).1 ≡ none
        → exists_record (marked_key l) (finish_ledger rt calls s l now).0.db.records ≡ true
    unfolding finish_ledger
    finish_ledger-exists_record s l now e = elim (Option-cases (calls.update_network_metrics l)) [
      | inr (error, is) ↦
          let throws : (finish_ledger rt calls s l now).1 ≡ some error =
            rw (is, finish_ledger) refl in
          cc
      | inl is ↦
          elim (marked-exists_record s.idempotency s.db (decimal l.sequence) (marked_key l)
            l.operation_count now) [
              | inl (r, ok, known) ↦ rw (is, finish_ledger, ok) known
              | inr (f, fails) ↦
                  let throws : (finish_ledger rt calls s l now).1 ≡ some (message f) =
                    rw (is, finish_ledger, fails) refl in
                  cc
            ]
    ]

    skip_ledger :
        (s : State P) (l : Ledger) (now : ℕ)
        → (should_skip s.idempotency s.db (decimal l.sequence)).1 ≡ true
        → ((process_ledger rt calls s l now).0.db ≡ s.db)
          × ((process_ledger rt calls s l now).1 ≡ none)
    unfolding process_ledger
    skip_ledger s l now e = rw (e, process_ledger) (refl, refl)

    process_ledger-exists_record :
        (s : State P) (l : Ledger) (now : ℕ)
        → (should_skip s.idempotency s.db (decimal l.sequence)).1 ≡ false
        → (process_ledger rt calls s l now).1 ≡ none
        → exists_record (marked_key l) (process_ledger rt calls s l now).0.db.records ≡ true
    unfolding process_ledger
    process_ledger-exists_record s l now goes e =
        let t = (should_skip s.idempotency s.db (decimal l.sequence)).0 in
        let begun = record s.db { tables = insert_ledger l.sequence s.db.tables } in
        let x = process_transactions_for_ledger rt calls t begun l.sequence now in
        let s' : State P = record s { idempotency = x.0; db = x.1 } in
        elim (Option-cases x.2) [
          | inr (error, is) ↦
              let throws : (process_ledger rt calls s l now).1 ≡ some error =
                rw (goes, process_ledger, is) refl in
              cc
          | inl is ↦
              let same : process_ledger rt calls s l now ≡ finish_ledger rt calls s' l now =
                rw (goes, process_ledger, is) refl in
              subst
                (λ (y : State P × Option String).
                  exists_record (marked_key l) y.0.db.records ≡ true)
                (sym same) (finish_ledger-exists_record s' l now (sym (ap (λ y. y.1) same) ∙ e))
        ]

    recorded_skips :
        (s : State P) (key : String)
        → exists_record key s.db.records ≡ true
        → (should_skip s.idempotency s.db key).1 ≡ true
    unfolding should_skip is_processed
    recorded_skips s key known = elim (Bool-cases (has s.idempotency.processed_cache key)) [
      | inl e ↦ rw (e, should_skip, is_processed) refl
      | inr e ↦ rw (e, should_skip, is_processed, known) refl
    ]

    -- What processLedger marks as processed is not the ledger but the number of its transactions. So once a
    -- ledger is processed without an error, the ledger whose sequence is that number is taken to be
    -- processed: processLedger answers without an error and leaves the database as it is, though that
    -- ledger was never read.
    pub process_ledger-skip :
        (s : State P) (l other : Ledger) (now later : ℕ)
        → (should_skip s.idempotency s.db (decimal l.sequence)).1 ≡ false
        → (process_ledger rt calls s l now).1 ≡ none
        → other.sequence ≡ l.successful_transaction_count + l.failed_transaction_count
        → let s' = (process_ledger rt calls s l now).0 in
          ((process_ledger rt calls s' other later).0.db ≡ s'.db)
          × ((process_ledger rt calls s' other later).1 ≡ none)
    process_ledger-skip s l other now later goes ends same =
        let s' = (process_ledger rt calls s l now).0 in
        skip_ledger s' other later (
          recorded_skips s' (decimal other.sequence) (
            subst (λ n. exists_record (decimal n) s'.db.records ≡ true) (sym same)
              (process_ledger-exists_record s l now goes ends)))
