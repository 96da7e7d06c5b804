-- ===== src/DeadLetter/Job.antt =====
-- indexer/src/error-recovery/RecoveryJob.ts. The retry processor is code of the caller: a function of
-- its own state W, which says whether the ledger was reprocessed and which calls of the queue it made
-- on the way. The job keeps the intervals of the timers that it has set.
use stellar_analytics_dashbo.Prelude.{
  ℕ, ◌+◌, ◌≡◌, refl, ◌∙◌, Bool, true, false, ◌&&◌, not, Option, none, List, [], ◌∷◌, ◌++◌,
  if◌then◌else◌, length, filter, any, ◌==◌, arith, Bool-cases, inl, inr, or_default, length-append,
}
use stellar_analytics_dashbo.DeadLetter.{
  RetryableLedger, DeadLetterQueue, is_for, remove, removes, get_ready_for_retry, Call, run, step,
  size, get_all,
}
use stellar_analytics_dashbo.DeadLetter.Attempts.{IsValid, remove_ledgers}
use stellar_analytics_dashbo.DeadLetter.Validity.{step-IsValid, run-IsValid}

pub record RecoveryJob : Type 0 where
  pub is_processing : Bool
  pub timers : List ℕ

pub record Attempt (W : Type 0) : Type 0 where
  pub world : W
  pub calls : List Call
  pub success : Bool

-- The queue, and what the retry processor works on.
pub record State (W : Type 0) : Type 0 where
  pub dlq : DeadLetterQueue
  pub world : W

pub record Stats : Type 0 where
  pub failed_ledgers_count : ℕ
  pub is_processing : Bool
  pub ledgers : List RetryableLedger

module _ {W : Type 0} (retry_processor : W → ℕ → Attempt W) where
  unfoldable pub retry_one : State W → ℕ → State W
  retry_one s sequence =
      let attempt = retry_processor s.world sequence in
      let dlq = run s.dlq attempt.calls in
      record { dlq = if attempt.success then remove dlq sequence else dlq; world = attempt.world }

  unfoldable pub retry_all : State W → List RetryableLedger → State W
  retry_all s [] = s
  retry_all s (l ∷ ls) = retry_all (retry_one s l.sequence) ls

  unfoldable pub process_retry_queue : RecoveryJob → State W → ℕ → State W
  process_retry_queue job s now =
      if not job.is_processing then s else retry_all s (get_ready_for_retry s.dlq now)

  unfoldable pub start : RecoveryJob → Option ℕ → State W → ℕ → RecoveryJob × State W
  start job interval_ms s now =
      if job.is_processing
      then (job, s)
      else let started = record job { is_processing = true } in
        (
          record started { timers = job.timers ++ or_default interval_ms 60000 ∷ [] },
          process_retry_queue started s now,
        )

  retry_one-IsValid : (s : State W) (k : ℕ) → IsValid s.dlq → IsValid (retry_one s k).dlq
  unfolding retry_one step
  retry_one-IsValid s k v =
      let attempt = retry_processor s.world k in
      let v' = run-IsValid s.dlq attempt.calls v in
      elim (Bool-cases attempt.success) [
        | inl e ↦ rw e (step-IsValid (run s.dlq attempt.calls) (removes k) v')
        | inr e ↦ rw e v'
      ]

  retry_all-IsValid :
      (s : State W) (ls : List RetryableLedger) → IsValid s.dlq → IsValid (retry_all s ls).dlq
  unfolding retry_all
  retry_all-IsValid s [] v = v
  retry_all-IsValid s (l ∷ ls) v =
      retry_all-IsValid (retry_one s l.sequence) ls (retry_one-IsValid s l.sequence v)

  any-removed :
      (k s : ℕ) (ls : List RetryableLedger)
      → any (is_for k) (filter (λ l. not (is_for s l)) ls) ≡ (any (is_for k) ls && not (s == k))
  any-removed k s [] = refl
  any-removed k s (l ∷ ls) = ground (arith, any-removed k s ls)

  any-remove :
      (k s : ℕ) (q : DeadLetterQueue)
      → any (is_for k) (remove q s).failed_ledgers
        ≡ (any (is_for k) q.failed_ledgers && not (s == k))
  any-remove k s q = rw (remove_ledgers q s).0 (any-removed k s q.failed_ledgers)

  -- The processor makes no call of the queue and its answer depends on the ledger alone.
  abbrev pub Decides : (ℕ → Bool) → Type 0
  Decides ok =
      (w : W) (k : ℕ) → ((retry_processor w k).calls ≡ []) × ((retry_processor w k).success ≡ ok k)

  any-retry_one :
      (ok : ℕ → Bool) (s : State W) (k t : ℕ)
      → Decides ok
      → any (is_for k) (retry_one s t).dlq.failed_ledgers
        ≡ (any (is_for k) s.dlq.failed_ledgers && not (t == k && ok t))
  unfolding retry_one run
  any-retry_one ok s k t d =
      let (no_calls, answer) = d s.world t in
      rw (no_calls, answer) (ground (arith, any-remove k t s.dlq))

  any-retry_all :
      (ok : ℕ → Bool) (s : State W) (k : ℕ) (ls : List RetryableLedger)
      → Decides ok
      → any (is_for k) (retry_all s ls).dlq.failed_ledgers
        ≡ (any (is_for k) s.dlq.failed_ledgers && not (any (is_for k) ls && ok k))
  unfolding retry_all
  any-retry_all ok s k [] d = ground arith
  any-retry_all ok s k (l ∷ ls) d =
      any-retry_all ok (retry_one s l.sequence) k ls d
      ∙ ground (arith, any-retry_one ok s k l.sequence d)

  -- A round keeps the queue valid, whatever calls of the queue the processor makes.
  pub process_retry_queue-IsValid :
      (job : RecoveryJob) (s : State W) (now : ℕ)
      → IsValid s.dlq
      → IsValid (process_retry_queue job s now).dlq
  unfolding process_retry_queue
  process_retry_queue-IsValid job s now v = elim (Bool-cases job.is_processing) [
    | inl e ↦ rw e (retry_all-IsValid s (get_ready_for_retry s.dlq now) v)
    | inr e ↦ rw e v
  ]

  -- The first round of a job that starts takes exactly those ledgers out of the queue that are ready and
  -- that the processor, which makes no calls of the queue and whose answer depends on the ledger alone,
  -- reprocesses.
  pub start-any :
      (ok : ℕ → Bool) (job : RecoveryJob) (interval : Option ℕ) (s : State W) (now k : ℕ)
      → Decides ok
      → job.is_processing ≡ false
      → any (is_for k) (start job interval s now).1.dlq.failed_ledgers ≡ (
          any (is_for k) s.dlq.failed_ledgers
          && not (any (is_for k) (get_ready_for_retry s.dlq now) && ok k))
  unfolding start process_retry_queue
  start-any ok job interval s now k d e =
      rw e (any-retry_all ok s k (get_ready_for_retry s.dlq now) d)

unfoldable pub stop : RecoveryJob → RecoveryJob
stop job = record job { is_processing = false }

unfoldable pub get_stats : {W : Type 0} → RecoveryJob → State W → Stats
get_stats job s = record {
  failed_ledgers_count = size s.dlq;
  is_processing = job.is_processing;
  ledgers = get_all s.dlq;
}

-- Start and stop, at each of the given times.
unfoldable pub restarts :
    {W : Type 0} → (W → ℕ → Attempt W) → RecoveryJob → State W → List ℕ → RecoveryJob × State W
restarts p job s [] = (job, s)
restarts p job s (t ∷ ts) =
    let (started, s') = start p job none s t in restarts p (stop started) s' ts

-- `stop` clears no timer: each time a stopped job is started and stopped again, it has one timer more,
-- and every later round of the job is run by all of them.
pub restarts-timers :
    {W : Type 0} (p : W → ℕ → Attempt W) (job : RecoveryJob) (s : State W) (ts : List ℕ)
    → job.is_processing ≡ false
    → length (restarts p job s ts).0.timers ≡ length job.timers + length ts
unfolding restarts start stop
restarts-timers p job s [] e = omega arith
restarts-timers p job s (t ∷ ts) e =
    let (started, s') = start p job none s t in
    restarts-timers p (stop started) s' ts refl
    ∙ rw (e, length-append job.timers (60000 ∷ [])) (omega arith)
