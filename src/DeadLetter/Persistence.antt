-- ===== src/DeadLetter/Persistence.antt =====
-- What DeadLetterQueue.ts keeps over a restart.
use stellar_analytics_dashbo.Prelude.{
  ℕ, suc, ◌≡◌, ◌≢◌, refl, sym, ap, subst, ◌∙◌, Bool, true, false, not, some, List, [], ◌∷◌, ◌++◌,
  String, length, length-filter-le, map, filter, find, any, leb, ◌==◌, arith, Option-cases,
  Bool-cases, inl, inr,
}
use stellar_analytics_dashbo.DeadLetter.{
  RetryableLedger, StateFile, DeadLetterQueue, Options, to_persisted, load_entries, persist_state,
  load_from_disk, loaded, new, is_for, remove, update_first, push, clear, Call, pushes, removes,
  clears, step, run, failed_again,
}

-- A fresh queue on the same files holds what this one holds.
abbrev pub IsSaved : DeadLetterQueue → Type 0
IsSaved q = loaded q.state_file [] ≡ q.failed_ledgers

load-persisted : (ls : List RetryableLedger) → load_entries (map to_persisted ls) ≡ ls
load-persisted [] = refl
load-persisted (l ∷ ls) = ap (◌∷◌ l) (load-persisted ls)

persist_state-IsSaved : (q : DeadLetterQueue) → q.persist_enabled ≡ true → IsSaved (persist_state q)
unfolding persist_state loaded
persist_state-IsSaved q e = rw e (load-persisted q.failed_ledgers)

filter_same :
    (p : RetryableLedger → Bool) (ls : List RetryableLedger)
    → (length (filter p ls) == length ls) ≡ true
    → filter p ls ≡ ls
filter_same p [] e = refl
filter_same p (l ∷ ls) e = ground (arith, filter_same p ls, length-filter-le p ls)

filter_less :
    (sequence : ℕ) (ls : List RetryableLedger)
    → any (is_for sequence) ls ≡ true
    → (length (filter (λ l. not (is_for sequence l)) ls) == length ls) ≡ false
filter_less sequence [] h = cc
filter_less sequence (l ∷ ls) h =
    ground (arith, filter_less sequence ls, length-filter-le (λ l. not (is_for sequence l)) ls)

find-is_for :
    (sequence : ℕ) (found : RetryableLedger) (ls : List RetryableLedger)
    → find (is_for sequence) ls ≡ some found
    → found.sequence ≡ sequence
find-is_for sequence found [] e = cc
find-is_for sequence found (l ∷ ls) e = ground (arith, find-is_for sequence found ls)

update_first_present :
    (sequence : ℕ) (message : String) (now : ℕ) (found : RetryableLedger)
    (ls : List RetryableLedger)
    → find (is_for sequence) ls ≡ some found
    → any (is_for sequence) (update_first sequence (failed_again message now) ls) ≡ true
unfolding update_first
update_first_present sequence message now found [] e = cc
update_first_present sequence message now found (l ∷ ls) e =
    ground (arith, update_first_present sequence message now found ls)

remove-IsSaved :
    (q : DeadLetterQueue) (sequence : ℕ)
    → q.persist_enabled ≡ true
    → IsSaved q
    → IsSaved (remove q sequence)
unfolding remove
remove-IsSaved q sequence e s =
    let kept = filter (λ l. not (is_for sequence l)) q.failed_ledgers in
    elim (Bool-cases (length kept == length q.failed_ledgers)) [
      | inl same ↦
          rw same (s ∙ sym (filter_same (λ l. not (is_for sequence l)) q.failed_ledgers same))
      | inr less ↦ rw less (persist_state-IsSaved (record q { failed_ledgers = kept }) e)
    ]

-- Where an entry is removed for good the state is written, whatever it was before.
remove_present-IsSaved :
    (q : DeadLetterQueue) (sequence : ℕ)
    → q.persist_enabled ≡ true
    → any (is_for sequence) q.failed_ledgers ≡ true
    → IsSaved (remove q sequence)
unfolding remove
remove_present-IsSaved q sequence e h = rw (filter_less sequence q.failed_ledgers h) (
    persist_state-IsSaved
      (record q { failed_ledgers = filter (λ l. not (is_for sequence l)) q.failed_ledgers }) e)

push-IsSaved :
    (q : DeadLetterQueue) (sequence : ℕ) (message : String) (now : ℕ)
    → q.persist_enabled ≡ true
    → IsSaved (push q sequence message now)
unfolding push
push-IsSaved q sequence message now e =
    elim (Option-cases (find (is_for sequence) q.failed_ledgers)) [
      | inl none_found ↦ rw (none_found, push) (persist_state-IsSaved _ e)
      | inr (found, is) ↦
          let changed = update_first sequence (failed_again message now) q.failed_ledgers in
          let q' = record q {
            failed_ledgers = changed;
            dlq_file = q.dlq_file ++ failed_again message now found ∷ [];
          } in
          elim (Bool-cases (leb q.max_retries (suc found.attempt_count))) [
            | inl spent ↦
                rw (is, push, spent)
                  (subst (λ k. IsSaved (remove q' k))
                    (sym (find-is_for sequence found q.failed_ledgers is))
                    (remove_present-IsSaved q' sequence e
                      (update_first_present sequence message now found q.failed_ledgers is)))
            | inr again ↦ rw (is, push, again) (persist_state-IsSaved _ e)
          ]
    ]

step-IsSaved :
    (q : DeadLetterQueue) (c : Call) → q.persist_enabled ≡ true → IsSaved q → IsSaved (step q c)
unfolding step clear
step-IsSaved q (pushes sequence message now) e s = push-IsSaved q sequence message now e
step-IsSaved q (removes sequence) e s = remove-IsSaved q sequence e s
step-IsSaved q clears e s = persist_state-IsSaved (record q { failed_ledgers = [] }) e

step-persist_enabled :
    (q : DeadLetterQueue) (c : Call) → (step q c).persist_enabled ≡ q.persist_enabled
unfolding step push remove clear persist_state
step-persist_enabled q (pushes sequence message now) = ground arith
step-persist_enabled q (removes sequence) = ground arith
step-persist_enabled q clears = ground arith

run-IsSaved :
    (q : DeadLetterQueue) (cs : List Call)
    → q.persist_enabled ≡ true
    → IsSaved q
    → IsSaved (run q cs)
unfolding run
run-IsSaved q [] e s = s
run-IsSaved q (c ∷ cs) e s =
    run-IsSaved (step q c) cs (step-persist_enabled q c ∙ e) (step-IsSaved q c e s)

new-IsSaved :
    (o : Options) (file : StateFile) (log : List RetryableLedger)
    → o.persist ≢ some false
    → o.load_on_init ≢ some false
    → ((new o file log).persist_enabled ≡ true) × IsSaved (new o file log)
unfolding new load_from_disk
new-IsSaved o file log p l = ground arith

new-loads :
    (o : Options) (file : StateFile) (log : List RetryableLedger)
    → o.persist ≢ some false
    → o.load_on_init ≢ some false
    → (new o file log).failed_ledgers ≡ loaded file []
unfolding new load_from_disk
new-loads o file log p l = ground arith

-- Nothing is lost by a restart. A persisting queue that loads on start is made on any state file, also
-- a missing or corrupt one; after any calls, a queue made anew on the files it leaves holds exactly
-- the entries that it held.
pub restart-failed_ledgers :
    (o : Options) (file : StateFile) (log : List RetryableLedger) (cs : List Call)
    → o.persist ≢ some false
    → o.load_on_init ≢ some false
    → let q = run (new o file log) cs in
      (new o q.state_file q.dlq_file).failed_ledgers ≡ q.failed_ledgers
restart-failed_ledgers o file log cs p l =
    let q = run (new o file log) cs in
    let (enabled, saved) = new-IsSaved o file log p l in
    new-loads o q.state_file q.dlq_file p l ∙ run-IsSaved (new o file log) cs enabled saved
