-- ===== src/DeadLetter/Attempts.antt =====
-- How DeadLetterQueue.ts counts attempts: one entry a ledger, up to the limit, then the log.
use stellar_analytics_dashbo.Prelude.{
  ℕ, suc, ◌≤◌, ◌<◌, ◌≡◌, false, not, Option, none, some, List, [], ◌∷◌, ◌++◌, String, if◌then◌else◌,
  filter, find, any, leb, ◌==◌, arith, Option-cases, Bool-cases, inl, inr, All, leb→le, ◌>>=◌,
  le→leb, lt→leb_false,
}
use stellar_analytics_dashbo.DeadLetter.{
  RetryableLedger, DeadLetterQueue, persist_state, is_for, remove, update_first, push, failed_again,
}

abbrev pub IsUnique : List RetryableLedger → Type 0
IsUnique [] = Unit
IsUnique (l ∷ ls) = (any (is_for l.sequence) ls ≡ false) × IsUnique ls

abbrev pub WithinLimit : ℕ → RetryableLedger → Type 0
WithinLimit limit l = (0 < l.attempt_count) × (l.attempt_count < limit)

pub record IsValid (q : DeadLetterQueue) : Type 0 where
  pub retries : 1 < q.max_retries
  pub unique : IsUnique q.failed_ledgers
  pub counted : All (WithinLimit q.max_retries) q.failed_ledgers

abbrev pub lookup : ℕ → List RetryableLedger → Option RetryableLedger
lookup k = find (is_for k)

-- The entry that a first failure makes.
abbrev pub fresh : ℕ → String → ℕ → RetryableLedger
fresh sequence message now = record {
  sequence = sequence;
  attempt_count = 1;
  first_failed_at = now;
  last_failed_at = now;
  last_error = message;
}

pub persisted_ledgers :
    (q : DeadLetterQueue)
    → ((persist_state q).failed_ledgers ≡ q.failed_ledgers)
      × ((persist_state q).max_retries ≡ q.max_retries)
      × ((persist_state q).dlq_file ≡ q.dlq_file)
unfolding persist_state
persisted_ledgers q = ground arith

pub remove_ledgers :
    (q : DeadLetterQueue) (s : ℕ)
    → ((remove q s).failed_ledgers ≡ filter (λ l. not (is_for s l)) q.failed_ledgers)
      × ((remove q s).max_retries ≡ q.max_retries)
      × ((remove q s).dlq_file ≡ q.dlq_file)
unfolding remove persist_state
remove_ledgers q s = ground arith

-- What `push` leaves in memory and in the log.
pub push_spent :
    (q : DeadLetterQueue) (s : ℕ) (m : String) (now : ℕ) (l : RetryableLedger)
    → lookup s q.failed_ledgers ≡ some l
    → q.max_retries ≤ suc l.attempt_count
    → ((push q s m now).failed_ledgers
        ≡ filter
            (λ x. not (is_for l.sequence x))
            (update_first s (failed_again m now) q.failed_ledgers))
      × ((push q s m now).max_retries ≡ q.max_retries)
      × ((push q s m now).dlq_file ≡ q.dlq_file ++ failed_again m now l ∷ [])
unfolding push
push_spent q s m now l e h =
    rw (e, push, le→leb q.max_retries (suc l.attempt_count) h) (remove_ledgers _ l.sequence)

pub push_again :
    (q : DeadLetterQueue) (s : ℕ) (m : String) (now : ℕ) (l : RetryableLedger)
    → lookup s q.failed_ledgers ≡ some l
    → suc l.attempt_count < q.max_retries
    → ((push q s m now).failed_ledgers ≡ update_first s (failed_again m now) q.failed_ledgers)
      × ((push q s m now).max_retries ≡ q.max_retries)
      × ((push q s m now).dlq_file ≡ q.dlq_file)
unfolding push
push_again q s m now l e h =
    rw (e, push, lt→leb_false q.max_retries (suc l.attempt_count) h) (persisted_ledgers _)

pub push_first :
    (q : DeadLetterQueue) (s : ℕ) (m : String) (now : ℕ)
    → lookup s q.failed_ledgers ≡ none
    → ((push q s m now).failed_ledgers ≡ q.failed_ledgers ++ fresh s m now ∷ [])
      × ((push q s m now).max_retries ≡ q.max_retries)
      × ((push q s m now).dlq_file ≡ q.dlq_file)
unfolding push
push_first q s m now e = rw (e, push) (persisted_ledgers _)

lookup-update_first :
    (k s : ℕ) (m : String) (now : ℕ) (ls : List RetryableLedger)
    → lookup k (update_first s (failed_again m now) ls)
      ≡ (if s == k then (do l ← lookup s ls; some (failed_again m now l)) else lookup k ls)
unfolding update_first
lookup-update_first k s m now [] = ground arith
lookup-update_first k s m now (l ∷ ls) = ground (arith, lookup-update_first k s m now ls)

lookup-filter :
    (k s : ℕ) (ls : List RetryableLedger)
    → lookup k (filter (λ l. not (is_for s l)) ls) ≡ (if s == k then none else lookup k ls)
lookup-filter k s [] = ground arith
lookup-filter k s (l ∷ ls) = ground (arith, lookup-filter k s ls)

lookup-append :
    (k : ℕ) (ls : List RetryableLedger) (l : RetryableLedger)
    → lookup k (ls ++ l ∷ [])
      ≡ elim (lookup k ls) [ some x ↦ some x | none ↦ if is_for k l then some l else none ]
lookup-append k [] l = ground arith
lookup-append k (x ∷ ls) l = ground (arith, lookup-append k ls l)

pub lookup_sequence :
    (s : ℕ) (ls : List RetryableLedger) (l : RetryableLedger)
    → lookup s ls ≡ some l
    → l.sequence ≡ s
lookup_sequence s [] l e = cc
lookup_sequence s (x ∷ ls) l e = ground (arith, lookup_sequence s ls l)

-- The queue as a map from sequence numbers to entries, after a push: a ledger that is not queued
-- gets a first attempt, one that is gets one more, and at the limit it leaves the queue. Every other
-- ledger keeps its entry, and the log grows by the ledger's entry exactly when it leaves.
pub push-lookup :
    (q : DeadLetterQueue) (s k : ℕ) (m : String) (now : ℕ)
    → (lookup k (push q s m now).failed_ledgers ≡ (
        if s == k
        then elim (lookup s q.failed_ledgers) [
          | none ↦ some (fresh s m now)
          | some l ↦
              if leb q.max_retries (suc l.attempt_count) then none else some (failed_again m now l)
        ]
        else lookup k q.failed_ledgers))
      × ((push q s m now).dlq_file ≡ elim (lookup s q.failed_ledgers) [
        | none ↦ q.dlq_file
        | some l ↦
            if leb q.max_retries (suc l.attempt_count)
            then q.dlq_file ++ failed_again m now l ∷ []
            else q.dlq_file
      ])
push-lookup q s k m now = elim (Option-cases (lookup s q.failed_ledgers)) [
  | inl e ↦
      let (ls, _, log) = push_first q s m now e in
      rw (ls, log, lookup-append k q.failed_ledgers (fresh s m now)) (ground arith)
  | inr (l, e) ↦ elim (Bool-cases (leb q.max_retries (suc l.attempt_count))) [
    | inl spent ↦
        let (ls, _, log) = push_spent q s m now l e (leb→le _ _ spent) in
        rw
          (
            ls,
            log,
            lookup-filter k l.sequence (update_first s (failed_again m now) q.failed_ledgers),
            lookup-update_first k s m now q.failed_ledgers,
            e,
            spent,
          )
          (ground (arith, lookup_sequence s q.failed_ledgers l e))
    | inr again ↦
        let (ls, _, log) = push_again q s m now l e (ground arith) in
        rw (ls, log, lookup-update_first k s m now q.failed_ledgers, e, again) (ground arith)
  ]
]
