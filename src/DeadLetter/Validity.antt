-- ===== src/DeadLetter/Validity.antt =====
-- What holds of a DeadLetterQueue between two calls, and when its entries come up for retry.
use stellar_analytics_dashbo.Prelude.{
  ℕ, suc, ◌+◌, ◌≤◌, ◌<◌, ◌≡◌, refl, sym, subst, ◌∙◌, true, false, ◌||◌, not, none, some, List, [],
  ◌∷◌, ◌++◌, String, filter, any, leb, arith, Option-cases, Bool-cases, inl, inr, All, leb→le,
  le→leb, lt→leb_false,
}
use stellar_analytics_dashbo.DeadLetter.{
  RetryableLedger, DeadLetterQueue, is_for, remove, update_first, push, clear, Call, pushes,
  removes, clears, step, run, failed_again, calculate_backoff, is_ready, get_ready_for_retry,
}
use stellar_analytics_dashbo.DeadLetter.Attempts.{
  IsUnique, WithinLimit, IsValid, lookup, fresh, push_spent, push_again, push_first, remove_ledgers,
  persisted_ledgers, lookup_sequence,
}

any-update_first :
    (k s : ℕ) (m : String) (now : ℕ) (ls : List RetryableLedger)
    → any (is_for k) (update_first s (failed_again m now) ls) ≡ any (is_for k) ls
unfolding update_first
any-update_first k s m now [] = refl
any-update_first k s m now (l ∷ ls) = ground (arith, any-update_first k s m now ls)

update_first-IsUnique :
    (s : ℕ) (m : String) (now : ℕ) (ls : List RetryableLedger)
    → IsUnique ls
    → IsUnique (update_first s (failed_again m now) ls)
unfolding update_first
update_first-IsUnique s m now [] u = tt
update_first-IsUnique s m now (l ∷ ls) u =
    ground (arith, any-update_first l.sequence s m now ls, update_first-IsUnique s m now ls)

any-filter :
    (k s : ℕ) (ls : List RetryableLedger)
    → any (is_for k) ls ≡ false
    → any (is_for k) (filter (λ l. not (is_for s l)) ls) ≡ false
any-filter k s [] h = refl
any-filter k s (l ∷ ls) h = ground (arith, any-filter k s ls)

filter-IsUnique :
    (s : ℕ) (ls : List RetryableLedger) → IsUnique ls → IsUnique (filter (λ l. not (is_for s l)) ls)
filter-IsUnique s [] u = tt
filter-IsUnique s (l ∷ ls) u = ground (arith, any-filter l.sequence s ls, filter-IsUnique s ls)

absent_any : (s : ℕ) (ls : List RetryableLedger) → lookup s ls ≡ none → any (is_for s) ls ≡ false
absent_any s [] e = refl
absent_any s (l ∷ ls) e = ground (arith, absent_any s ls)

any-append :
    (k : ℕ) (ls : List RetryableLedger) (l : RetryableLedger)
    → any (is_for k) (ls ++ l ∷ []) ≡ (any (is_for k) ls || is_for k l)
any-append k [] l = ground arith
any-append k (x ∷ ls) l = ground (arith, any-append k ls l)

append-IsUnique :
    (ls : List RetryableLedger) (l : RetryableLedger)
    → any (is_for l.sequence) ls ≡ false
    → IsUnique ls
    → IsUnique (ls ++ l ∷ [])
append-IsUnique [] l h u = (refl, tt)
append-IsUnique (x ∷ ls) l h u = ground (arith, any-append x.sequence ls l, append-IsUnique ls l)

All-update_first :
    (limit s : ℕ) (m : String) (now : ℕ) (ls : List RetryableLedger) (l : RetryableLedger)
    → lookup s ls ≡ some l
    → suc l.attempt_count < limit
    → All (WithinLimit limit) ls
    → All (WithinLimit limit) (update_first s (failed_again m now) ls)
unfolding update_first
All-update_first limit s m now [] l e h a = tt
All-update_first limit s m now (x ∷ ls) l e h a =
    ground (arith, All-update_first limit s m now ls l)

All-filter :
    (limit s : ℕ) (m : String) (now : ℕ) (ls : List RetryableLedger)
    → All (WithinLimit limit) ls
    → All (WithinLimit limit) (filter (λ l. not (is_for s l)) ls)
All-filter limit s m now [] a = tt
All-filter limit s m now (x ∷ ls) a = ground (arith, All-filter limit s m now ls a.1)

-- The entries that leave are the only ones that the update put over the limit.
All-filter-update_first :
    (limit s : ℕ) (m : String) (now : ℕ) (ls : List RetryableLedger)
    → All (WithinLimit limit) ls
    → All
        (WithinLimit limit)
        (filter (λ l. not (is_for s l)) (update_first s (failed_again m now) ls))
unfolding update_first
All-filter-update_first limit s m now [] a = tt
All-filter-update_first limit s m now (x ∷ ls) a =
    ground (arith, All-filter-update_first limit s m now ls a.1, All-filter limit s m now ls a.1)

All-append :
    (limit : ℕ) (ls : List RetryableLedger) (l : RetryableLedger)
    → All (WithinLimit limit) ls
    → WithinLimit limit l
    → All (WithinLimit limit) (ls ++ l ∷ [])
All-append limit [] l a h = (h, tt)
All-append limit (x ∷ ls) l a h = (a.0, All-append limit ls l a.1 h)

IsValid-of :
    (q q' : DeadLetterQueue) (ls : List RetryableLedger)
    → q'.failed_ledgers ≡ ls
    → q'.max_retries ≡ q.max_retries
    → 1 < q.max_retries
    → IsUnique ls
    → All (WithinLimit q.max_retries) ls
    → IsValid q'
IsValid-of q q' ls e r h u a = record {
  retries = omega arith;
  unique = rw e u;
  counted = rw (e, r) a;
}

push-IsValid :
    (q : DeadLetterQueue) (s : ℕ) (m : String) (now : ℕ) → IsValid q → IsValid (push q s m now)
push-IsValid q s m now v = elim (Option-cases (lookup s q.failed_ledgers)) [
  | inl e ↦
      let (ls, r, _) = push_first q s m now e in
      IsValid-of q (push q s m now) (q.failed_ledgers ++ fresh s m now ∷ []) ls r v.retries
        (append-IsUnique q.failed_ledgers (fresh s m now) (absent_any s q.failed_ledgers e)
          v.unique)
        (All-append q.max_retries q.failed_ledgers (fresh s m now) v.counted
          (omega arith, v.retries))
  | inr (l, e) ↦ elim (Bool-cases (leb q.max_retries (suc l.attempt_count))) [
    | inl spent ↦
        let (ls, r, _) = push_spent q s m now l e (leb→le _ _ spent) in
        IsValid-of q (push q s m now) _ ls r v.retries
          (filter-IsUnique l.sequence _ (update_first-IsUnique s m now q.failed_ledgers v.unique))
          (subst
            (λ k. All (WithinLimit q.max_retries) (
              filter (λ x. not (is_for k x))
                (update_first s (failed_again m now) q.failed_ledgers)))
            (sym (lookup_sequence s q.failed_ledgers l e))
            (All-filter-update_first q.max_retries s m now q.failed_ledgers v.counted))
    | inr again ↦
        let below : suc l.attempt_count < q.max_retries = ground arith in
        let (ls, r, _) = push_again q s m now l e below in
        IsValid-of q (push q s m now) _ ls r v.retries
          (update_first-IsUnique s m now q.failed_ledgers v.unique)
          (All-update_first q.max_retries s m now q.failed_ledgers l e below v.counted)
  ]
]

-- Every call keeps one entry a ledger, each with at least one attempt and fewer than the limit.
pub step-IsValid : (q : DeadLetterQueue) (c : Call) → IsValid q → IsValid (step q c)
unfolding step clear
step-IsValid q (pushes s m now) v = push-IsValid q s m now v
step-IsValid q (removes s) v =
    let (ls, r, _) = remove_ledgers q s in
    IsValid-of q (remove q s) _ ls r v.retries (filter-IsUnique s q.failed_ledgers v.unique)
      (All-filter q.max_retries s "" 0 q.failed_ledgers v.counted)
step-IsValid q clears v =
    let (ls, r, _) = persisted_ledgers (record q { failed_ledgers = [] }) in
    IsValid-of q (clear q) [] ls r v.retries tt tt

pub run-IsValid : (q : DeadLetterQueue) (cs : List Call) → IsValid q → IsValid (run q cs)
unfolding run
run-IsValid q [] v = v
run-IsValid q (c ∷ cs) v = run-IsValid (step q c) cs (step-IsValid q c v)

backoff_ready :
    (q : DeadLetterQueue) (now : ℕ) (l : RetryableLedger)
    → WithinLimit q.max_retries l
    → l.last_failed_at + 300000 ≤ now
    → is_ready q now l ≡ true
unfolding calculate_backoff
backoff_ready q now l a b =
    rw (lt→leb_false q.max_retries l.attempt_count a.1) (le→leb _ _ (omega arith))

filter-All :
    (q : DeadLetterQueue) (now : ℕ) (ls : List RetryableLedger)
    → All (WithinLimit q.max_retries) ls
    → All (λ l. l.last_failed_at + 300000 ≤ now) ls
    → filter (is_ready q now) ls ≡ ls
filter-All q now [] a b = refl
filter-All q now (l ∷ ls) a b = rw (backoff_ready q now l a.0 b.0, filter-All q now ls a.1 b.1)

-- No entry waits for ever: after any calls on a valid queue, five minutes past the last failures
-- every entry is ready for retry, however often it has failed.
pub All-ready :
    (q : DeadLetterQueue) (cs : List Call) (now : ℕ)
    → IsValid q
    → All (λ l. l.last_failed_at + 300000 ≤ now) (run q cs).failed_ledgers
    → get_ready_for_retry (run q cs) now ≡ (run q cs).failed_ledgers
unfolding get_ready_for_retry
All-ready q cs now v late =
    filter-All (run q cs) now (run q cs).failed_ledgers (run-IsValid q cs v).counted late

-- With a limit of one attempt the first failure is queued as spent already: it is never ready, and
-- is not in the log.
pub single_attempt_stuck :
    (q : DeadLetterQueue) (s : ℕ) (m : String) (now later : ℕ)
    → q.max_retries ≡ 1
    → q.failed_ledgers ≡ []
    → let q' = push q s m now in
      (q'.failed_ledgers ≡ fresh s m now ∷ [])
      × (get_ready_for_retry q' later ≡ [])
      × (q'.dlq_file ≡ q.dlq_file)
unfolding get_ready_for_retry
single_attempt_stuck q s m now later one empty =
    let first = push_first q s m now (rw empty) in
    (first.0 ∙ rw empty, rw first.0 (ground (arith, first)), first.2)
