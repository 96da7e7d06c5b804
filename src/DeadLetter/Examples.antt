-- ===== src/DeadLetter/Examples.antt =====
-- Runs of the queue of DeadLetterQueue.ts and of the job of RecoveryJob.ts, and their theorems at
-- concrete inputs.
use stellar_analytics_dashbo.Prelude.{
  ℕ, ◌+◌, ◌≡◌, refl, true, false, none, some, List, [], ◌∷◌, ◌++◌, arith, ◌==◌, if◌then◌else◌, leb,
  All, ◌≤◌,
}
use stellar_analytics_dashbo.DeadLetter.{
  DeadLetterQueue, Options, absent, corrupt, new, push, pushes, removes, run, step, load_from_disk,
  persist_state, update_first, remove, failed_again, get_all,
}
use stellar_analytics_dashbo.DeadLetter.Attempts.{IsValid, lookup, fresh, push-lookup}
use stellar_analytics_dashbo.DeadLetter.Persistence.{restart-failed_ledgers}
use stellar_analytics_dashbo.DeadLetter.Job.{RecoveryJob, Attempt, State}

abbrev options : Options
options = record { max_retries = some 3; base_delay_ms = none; persist = none; load_on_init = none }

abbrev queued : DeadLetterQueue
queued = record {
  failed_ledgers = fresh 7 "timeout" 1000 ∷ fresh 8 "timeout" 9000 ∷ [];
  max_retries = 3;
  base_delay_ms = 1000;
  persist_enabled = true;
  state_file = absent;
  dlq_file = [];
}

spends :
    (get_all (
        run
          (new options corrupt [])
          (pushes 7 "a" 1 ∷ pushes 8 "b" 2 ∷ pushes 7 "c" 3 ∷ pushes 7 "d" 4 ∷ []))
      ≡ fresh 8 "b" 2 ∷ [])
unfolding run step push new get_all load_from_disk persist_state update_first remove
spends = refl

queued-IsValid : IsValid queued
queued-IsValid = ground arith

push-lookup_example :
    (lookup 7 (push queued 7 "reset" 5000).failed_ledgers ≡ (
      if 7 == 7
      then elim (lookup 7 queued.failed_ledgers) [
        | none ↦ some (fresh 7 "reset" 5000)
        | some l ↦
            if leb queued.max_retries (l.attempt_count + 1)
            then none
            else some (failed_again "reset" 5000 l)
      ]
      else lookup 7 queued.failed_ledgers))
    × ((push queued 7 "reset" 5000).dlq_file ≡ elim (lookup 7 queued.failed_ledgers) [
      | none ↦ queued.dlq_file
      | some l ↦
          if leb queued.max_retries (l.attempt_count + 1)
          then queued.dlq_file ++ failed_again "reset" 5000 l ∷ []
          else queued.dlq_file
    ])
push-lookup_example = push-lookup queued 7 7 "reset" 5000

restart-failed_ledgers_example :
    let q = run (new options corrupt []) (pushes 7 "a" 1 ∷ removes 9 ∷ pushes 8 "b" 2 ∷ []) in
    (new options q.state_file q.dlq_file).failed_ledgers ≡ q.failed_ledgers
restart-failed_ledgers_example =
    restart-failed_ledgers options corrupt [] (pushes 7 "a" 1 ∷ removes 9 ∷ pushes 8 "b" 2 ∷ [])
      (λ e. cc) (λ e. cc)

old_failures :
    All (λ l. l.last_failed_at + 300000 ≤ 400000) (run queued (removes 9 ∷ [])).failed_ledgers
unfolding run step remove persist_state
old_failures = (omega arith, (omega arith, tt))

abbrev one_shot : DeadLetterQueue
one_shot = record queued { max_retries = 1; failed_ledgers = [] }

-- A processor that counts its calls and reprocesses ledger 7 only.
abbrev processor : ℕ → ℕ → Attempt ℕ
processor w k = record { world = w + 1; calls = []; success = k == 7 }

abbrev idle : RecoveryJob
idle = record { is_processing = false; timers = [] }

abbrev state : State ℕ
state = record { dlq = queued; world = 0 }

abbrev times : List ℕ
times = 1 ∷ 2 ∷ []
