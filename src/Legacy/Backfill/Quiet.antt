-- ===== src/Legacy/Backfill/Quiet.antt =====
-- The batches of indexer/src/backfill.ts that no abort disturbs.
use stellar_analytics_dashbo.Prelude.{
  ℕ, zero, suc, ◌+◌, ◌<◌, ◌≤◌, ◌≡◌, inl, inr, ◌⊎◌, refl, ◌∙◌, Bool, true, false, some, List, [],
  ◌∷◌, ltb, ◌==◌, arith, Bool-cases, length, take, drop, get_elem?, is_some, any, min,
}
use stellar_analytics_dashbo.Legacy.Workers.{
  Settled, Workers, Event, settles, aborts, is_in, take_next, begin_workers, start_workers, settle,
  step, run, is_done,
}
use stellar_analytics_dashbo.Legacy.Workers.Ends.{done-results}
use stellar_analytics_dashbo.Legacy.Ledgers.{BackfillOptions, Calls, Processing, task_of}
use stellar_analytics_dashbo.Legacy.Backfill.{Round, Loop, batch_of, workers_of}

abbrev pub is_abort : Event → Bool
is_abort (settles i) = false
is_abort aborts = true

-- The signal does not abort before or in the batch.
abbrev pub IsQuiet : Round → Type 0
IsQuiet r = (r.signal ≡ false) × (any is_abort r.events ≡ false)

module _ {S T : Type 0} where
  take_next-aborted : (w : Workers S T) → (take_next w).aborted ≡ w.aborted
  unfolding take_next
  take_next-aborted w = ground arith

  begin_workers-aborted : (n : ℕ) (w : Workers S T) → (begin_workers n w).aborted ≡ w.aborted
  unfolding begin_workers
  begin_workers-aborted zero w = refl
  begin_workers-aborted (suc n) w = begin_workers-aborted n (take_next w) ∙ take_next-aborted w

  settle-aborted :
      (task : ℕ → S → Settled T × S) (i : ℕ) (w : Workers S T)
      → (settle task i w).aborted ≡ w.aborted
  unfolding settle
  settle-aborted task i w = take_next-aborted _

  step-aborted :
      (task : ℕ → S → Settled T × S) (e : Event) (w : Workers S T)
      → is_abort e ≡ false
      → (step task e w).aborted ≡ w.aborted
  unfolding step
  step-aborted task (settles i) w h = elim (Bool-cases (is_in w.in_flight i)) [
    | inl e ↦ rw (e, step) (settle-aborted task i w)
    | inr e ↦ rw (e, step) refl
  ]
  step-aborted task aborts w h = cc

  run-aborted :
      (task : ℕ → S → Settled T × S) (es : List Event) (w : Workers S T)
      → any is_abort es ≡ false
      → (run task es w).aborted ≡ w.aborted
  unfolding run
  run-aborted task [] w h = refl
  run-aborted task (e ∷ es) w h =
      run-aborted task es (step task e w) (ground arith) ∙ step-aborted task e w (ground arith)

pub length-take-drop : (n : ℕ) (xs : List ℕ) → length (take n xs) + length (drop n xs) ≡ length xs
length-take-drop zero xs = omega arith
length-take-drop (suc n) [] = refl
length-take-drop (suc n) (x ∷ xs) = omega (arith, length-take-drop n xs)

pub is_in-take-drop :
    (n : ℕ) (xs : List ℕ) (x : ℕ)
    → is_in xs x ≡ true
    → (is_in (take n xs) x ≡ true) ⊎ (is_in (drop n xs) x ≡ true)
is_in-take-drop zero xs x h = inr h
is_in-take-drop (suc n) [] x h = inl h
is_in-take-drop (suc n) (y ∷ xs) x h = ground (arith, is_in-take-drop n xs x)

pub index_of :
    (xs : List ℕ) (x : ℕ)
    → is_in xs x ≡ true
    → (i : ℕ) × (i < length xs) × (get_elem? xs i ≡ some x)
index_of [] x h = cc
index_of (y ∷ xs) x h = elim (Bool-cases (y == x)) [
  | inl here ↦ (0, omega arith, ground arith)
  | inr there ↦ let (i, lt, e) = index_of xs x (ground arith) in (suc i, omega arith, e)
]

module _ (o : BackfillOptions) (calls : Calls) (workers : 0 < o.backfill_concurrency) where
  pub quiet-aborted :
      (r : Round) (l : Loop)
      → IsQuiet r
      → l.aborted ≡ false
      → (workers_of o calls r.events l).aborted ≡ false
  unfolding workers_of start_workers
  quiet-aborted r l q go =
      run-aborted (task_of o calls (batch_of o l)) r.events _ q.1
      ∙ begin_workers-aborted {T = Processing} (min o.backfill_concurrency (length (batch_of o l)))
          _
      ∙ go

  batch-done :
      (r : Round) (l : Loop)
      → is_done (workers_of o calls r.events l) ≡ true
      → ((i : ℕ)
          → is_some ((workers_of o calls r.events l).results i)
            ≡ ltb i (workers_of o calls r.events l).next_index)
        × ((workers_of o calls r.events l).next_index ≤ length (batch_of o l))
        × (((workers_of o calls r.events l).aborted ≡ true)
            ⊎ ((workers_of o calls r.events l).next_index ≡ length (batch_of o l)))
  unfolding workers_of
  batch-done r l done =
      done-results (task_of o calls (batch_of o l)) o.backfill_concurrency (length (batch_of o l))
        l.aborted l.ledgers r.events workers done

  -- Without an abort, every ledger of the batch has a result.
  pub batch-results :
      (r : Round) (l : Loop)
      → IsQuiet r
      → l.aborted ≡ false
      → is_done (workers_of o calls r.events l) ≡ true
      → (j : ℕ) → j < length (batch_of o l)
      → is_some ((workers_of o calls r.events l).results j) ≡ true
  batch-results r l q go done j lt =
      let (some_below, within, end) = batch-done r l done in
      elim end [
        | inl stop ↦ absurd (ground (arith, quiet-aborted r l q go))
        | inr all ↦ some_below j ∙ ground arith
      ]
