-- ===== src/DeadLetter.antt =====
-- indexer/src/error-recovery: DeadLetterQueue.ts (here) and RecoveryJob.ts (Job). A Date is its
-- milliseconds, none where it is invalid; the clock is an argument. The state file is what JSON.parse
-- makes of its text, since the queue writes it by JSON.stringify and toISOString and reads it by their
-- inverses; the DLQ file is the list of the entries logged in it. Disk writes succeed.
pub mod Persistence
pub mod Attempts
pub mod Validity
pub mod Job
mod Examples
use stellar_analytics_dashbo.Prelude.{
  ℕ, zero, suc, ◌+◌, ◌*◌, ◌^◌, Bool, true, false, ◌&&◌, ◌||◌, not, Option, none, some, List, [],
  ◌∷◌, ◌++◌, String, if◌then◌else◌, length, map, filter, find, any, ltb, leb, ◌==◌, min, or_default,
  ◌>>=◌,
}

pub record RetryableLedger : Type 0 where
  pub sequence : ℕ
  pub attempt_count : ℕ
  pub first_failed_at : ℕ
  pub last_failed_at : ℕ
  pub last_error : String

-- An element of the parsed array. A field is none where it has not the type that the loader asks
-- for; a date is none where it does not parse.
pub record PersistedLedger : Type 0 where
  pub sequence : Option ℕ
  pub attempt_count : Option ℕ
  pub first_failed_at : Option ℕ
  pub last_failed_at : Option ℕ
  pub last_error : Option String

pub data Entry : Type 0 where
  falsy : Entry
  object : PersistedLedger → Entry

-- The state file: not there, unreadable or no JSON, blank, JSON but no array, or an array.
pub data StateFile : Type 0 where
  absent corrupt blank no_array : StateFile
  entries : List Entry → StateFile

pub record DeadLetterQueue : Type 0 where
  pub failed_ledgers : List RetryableLedger
  pub max_retries : ℕ
  pub base_delay_ms : ℕ
  pub persist_enabled : Bool
  pub state_file : StateFile
  pub dlq_file : List RetryableLedger

pub record Options : Type 0 where
  pub max_retries : Option ℕ
  pub base_delay_ms : Option ℕ
  pub persist : Option Bool
  pub load_on_init : Option Bool

abbrev pub to_persisted : RetryableLedger → Entry
to_persisted l = object (record {
  sequence = some l.sequence;
  attempt_count = some l.attempt_count;
  first_failed_at = some l.first_failed_at;
  last_failed_at = some l.last_failed_at;
  last_error = some l.last_error;
})

-- `filter`, `map` and `filter` of the loader, on one element.
abbrev pub from_persisted : PersistedLedger → Option RetryableLedger
from_persisted p = do
  sequence ← p.sequence
  attempt_count ← p.attempt_count
  last_error ← p.last_error
  first_failed_at ← p.first_failed_at
  last_failed_at ← p.last_failed_at
  some (record {
    sequence = sequence;
    attempt_count = attempt_count;
    first_failed_at = first_failed_at;
    last_failed_at = last_failed_at;
    last_error = last_error;
  })

abbrev from_entry : Entry → Option RetryableLedger
from_entry falsy = none
from_entry (object p) = from_persisted p

abbrev pub load_entries : List Entry → List RetryableLedger
load_entries [] = []
load_entries (e ∷ es) = elim (from_entry e) [
  | none ↦ load_entries es
  | some l ↦ l ∷ load_entries es
]

unfoldable pub persist_state : DeadLetterQueue → DeadLetterQueue
persist_state q =
    if q.persist_enabled
    then record q { state_file = entries (map to_persisted q.failed_ledgers) }
    else q

unfoldable pub loaded : StateFile → List RetryableLedger → List RetryableLedger
loaded absent ls = ls
loaded corrupt ls = []
loaded blank ls = []
loaded no_array ls = ls
loaded (entries es) ls = load_entries es

unfoldable pub load_from_disk : DeadLetterQueue → DeadLetterQueue
unfolding loaded
load_from_disk q =
    if q.persist_enabled
    then record q { failed_ledgers = loaded q.state_file q.failed_ledgers }
    else q

-- The constructor, on the files as they are.
unfoldable pub new : Options → StateFile → List RetryableLedger → DeadLetterQueue
new o state_file dlq_file =
    let q : DeadLetterQueue = record {
      failed_ledgers = [];
      max_retries = or_default o.max_retries 5;
      base_delay_ms = or_default o.base_delay_ms 1000;
      persist_enabled = or_default o.persist true;
      state_file = state_file;
      dlq_file = dlq_file;
    } in
    if q.persist_enabled && or_default o.load_on_init true then load_from_disk q else q

abbrev pub is_for : ℕ → RetryableLedger → Bool
is_for sequence l = l.sequence == sequence

unfoldable pub remove : DeadLetterQueue → ℕ → DeadLetterQueue
remove q sequence =
    let kept = filter (λ l. not (is_for sequence l)) q.failed_ledgers in
    let q' = record q { failed_ledgers = kept } in
    if length kept == length q.failed_ledgers then q' else persist_state q'

-- `existing` is the first entry of the sequence, changed in place.
unfoldable pub update_first :
    ℕ → (RetryableLedger → RetryableLedger) → List RetryableLedger → List RetryableLedger
update_first sequence f [] = []
update_first sequence f (l ∷ ls) =
    if is_for sequence l then f l ∷ ls else l ∷ update_first sequence f ls

abbrev pub failed_again : String → ℕ → RetryableLedger → RetryableLedger
failed_again message now l = record l {
  attempt_count = suc l.attempt_count;
  last_failed_at = now;
  last_error = message;
}

-- The log line is written whether or not the state is persisted.
abbrev pub write_to_dlq_file : DeadLetterQueue → RetryableLedger → DeadLetterQueue
write_to_dlq_file q l = record q { dlq_file = q.dlq_file ++ l ∷ [] }

unfoldable pub push : DeadLetterQueue → ℕ → String → ℕ → DeadLetterQueue
push q sequence message now = elim (find (is_for sequence) q.failed_ledgers) [
  | some found ↦
      let existing = failed_again message now found in
      let q' = record q {
        failed_ledgers = update_first sequence (failed_again message now) q.failed_ledgers;
      } in
      if leb q.max_retries existing.attempt_count
      then remove (write_to_dlq_file q' existing) existing.sequence
      else persist_state q'
  | none ↦ persist_state (record q {
    failed_ledgers =
        q.failed_ledgers
        ++ record {
          sequence = sequence;
          attempt_count = 1;
          first_failed_at = now;
          last_failed_at = now;
          last_error = message;
        }
          ∷ [];
  })
]

unfoldable pub calculate_backoff : DeadLetterQueue → ℕ → ℕ
calculate_backoff q attempt = min (q.base_delay_ms * 2 ^ attempt) 300000

-- Whether the filter of `getReadyForRetry` keeps the entry.
abbrev pub is_ready : DeadLetterQueue → ℕ → RetryableLedger → Bool
is_ready q now l =
    if leb q.max_retries l.attempt_count
    then false
    else leb (l.last_failed_at + calculate_backoff q l.attempt_count) now

unfoldable pub get_ready_for_retry : DeadLetterQueue → ℕ → List RetryableLedger
get_ready_for_retry q now = filter (is_ready q now) q.failed_ledgers

unfoldable pub clear : DeadLetterQueue → DeadLetterQueue
clear q = persist_state (record q { failed_ledgers = [] })

unfoldable pub get_all : DeadLetterQueue → List RetryableLedger
get_all q = q.failed_ledgers

unfoldable pub size : DeadLetterQueue → ℕ
size q = length q.failed_ledgers

-- What the indexer does to a queue, in any order.
pub data Call : Type 0 where
  pushes : ℕ → String → ℕ → Call
  removes : ℕ → Call
  clears : Call

unfoldable pub step : DeadLetterQueue → Call → DeadLetterQueue
step q (pushes sequence message now) = push q sequence message now
step q (removes sequence) = remove q sequence
step q clears = clear q

unfoldable pub run : DeadLetterQueue → List Call → DeadLetterQueue
run q [] = q
run q (c ∷ cs) = run (step q c) cs
