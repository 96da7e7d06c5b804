-- ===== src/Legacy/Ledgers.antt =====
-- One ledger of a backfill in indexer/src/backfill.ts: whether it is indexed, and its processing. The table ledgers is the list of
-- its sequence numbers.
use stellar_analytics_dashbo.Prelude.{
  ℕ, Bool, false, ◌||◌, not, Option, none, some, List, ◌∷◌, String, if◌then◌else◌, get_elem?,
}
use stellar_analytics_dashbo.Legacy.Workers.{Settled, fulfilled, rejected, is_in}

-- `pool` tells whether there is a database, `account` whether an account is given to filter by.
pub record BackfillOptions : Type 0 where
  pub network : String
  pub start_sequence : ℕ
  pub end_sequence : ℕ
  pub pool : Bool
  pub account : Bool
  pub backfill_concurrency : ℕ
  pub backfill_batch_size : ℕ

-- The calls of Horizon and the database for a ledger: the error of fetching and normalising it, if
-- any, whether the query of isLedgerIndexed fails, and the error of writing it, if any.
pub record Calls : Type 0 where
  pub fetch_one_ledger : ℕ → Option String
  pub query_fails : ℕ → Bool
  pub write_error : ℕ → Option String

pub data Processing : Type 0 where
  processed skipped : Processing

unfoldable pub is_ledger_indexed : BackfillOptions → Calls → ℕ → List ℕ → Bool
is_ledger_indexed o calls sequence ledgers =
    if not o.pool || o.account
    then false
    else if calls.query_fails sequence
    then false
    else is_in ledgers sequence

-- ON CONFLICT (sequence) DO NOTHING.
unfoldable pub insert_ledger : ℕ → List ℕ → List ℕ
insert_ledger sequence ledgers = if is_in ledgers sequence then ledgers else sequence ∷ ledgers

-- The row of the ledger; without a database nothing is written.
unfoldable pub write_ingested_data :
    BackfillOptions → Calls → ℕ → List ℕ → Settled Processing × List ℕ
write_ingested_data o calls sequence ledgers =
    if not o.pool then (fulfilled processed, ledgers) else elim (calls.write_error sequence) [
      | some e ↦ (rejected e, ledgers)
      | none ↦ (fulfilled processed, insert_ledger sequence ledgers)
    ]

unfoldable pub process_one_ledger :
    BackfillOptions → Calls → ℕ → List ℕ → Settled Processing × List ℕ
process_one_ledger o calls sequence ledgers =
    if is_ledger_indexed o calls sequence ledgers
    then (fulfilled skipped, ledgers)
    else elim (calls.fetch_one_ledger sequence) [
      | some e ↦ (rejected e, ledgers)
      | none ↦ write_ingested_data o calls sequence ledgers
    ]

-- `tasks[index]()`.
unfoldable pub task_of : BackfillOptions → Calls → List ℕ → ℕ → List ℕ → Settled Processing × List ℕ
task_of o calls batch index ledgers = elim (get_elem? batch index) [
  | some sequence ↦ process_one_ledger o calls sequence ledgers
  | none ↦ (rejected "tasks[index] is not a function", ledgers)
]
