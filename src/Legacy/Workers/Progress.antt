-- ===== src/Legacy/Workers/Progress.antt =====
-- The worker pool of indexer/src/backfill.ts makes progress: its workers are busy while there are tasks.
use stellar_analytics_dashbo.Prelude.{
  ℕ, zero, suc, ◌+◌, ◌≤◌, ◌≡◌, ◌⊎◌, inl, inr, refl, Bool, true, List, [], ◌∷◌, length, min, arith,
  Bool-cases,
}
use stellar_analytics_dashbo.Legacy.Workers.{
  Settled, Workers, Event, settles, aborts, is_in, take_next, begin_workers, start_workers, settle,
  step, run,
}
use stellar_analytics_dashbo.Legacy.Workers.Validity.{IsValid, length-erase, step-IsValid}

-- Every worker that has not ended is busy.
abbrev pub IsBusy : {S T : Type 0} → ℕ → Workers S T → Type 0
IsBusy limit w = (w.aborted ≡ true) ⊎ (w.next_index ≡ w.count) ⊎ (limit ≤ length w.in_flight)

module _ {S T : Type 0} where
  -- A worker that looks for a task leaves the pool busy, if it is one short of it.
  take_next-IsBusy :
      (limit : ℕ) (w : Workers S T)
      → w.next_index ≤ w.count
      → limit ≤ suc (length w.in_flight)
      → IsBusy limit (take_next w)
  unfolding take_next
  take_next-IsBusy limit w h room = ground arith

  take_next-stays-IsBusy :
      (limit : ℕ) (w : Workers S T)
      → w.next_index ≤ w.count
      → IsBusy limit w
      → IsBusy limit (take_next w)
  unfolding take_next
  take_next-stays-IsBusy limit w h busy = ground arith

  take_next-grows :
      (limit n : ℕ) (w : Workers S T)
      → w.next_index ≤ w.count
      → limit ≤ length w.in_flight + suc n
      → IsBusy limit (take_next w) ⊎ (limit ≤ length (take_next w).in_flight + n)
  unfolding take_next
  take_next-grows limit n w h room = ground arith

  take_next-within :
      (w : Workers S T) → w.next_index ≤ w.count → (take_next w).next_index ≤ (take_next w).count
  unfolding take_next
  take_next-within w h = ground arith

  begin_workers-stays-IsBusy :
      (limit n : ℕ) (w : Workers S T)
      → w.next_index ≤ w.count
      → IsBusy limit w
      → IsBusy limit (begin_workers n w)
  unfolding begin_workers
  begin_workers-stays-IsBusy limit zero w h busy = busy
  begin_workers-stays-IsBusy limit (suc n) w h busy =
      begin_workers-stays-IsBusy limit n (take_next w) (take_next-within w h)
        (take_next-stays-IsBusy limit w h busy)

  begin_workers-IsBusy :
      (limit n : ℕ) (w : Workers S T)
      → w.next_index ≤ w.count
      → limit ≤ length w.in_flight + n
      → IsBusy limit (begin_workers n w)
  unfolding begin_workers
  begin_workers-IsBusy limit zero w h room = inr (inr (omega arith))
  begin_workers-IsBusy limit (suc n) w h room = elim (take_next-grows limit n w h room) [
    | inl busy ↦ begin_workers-stays-IsBusy limit n (take_next w) (take_next-within w h) busy
    | inr more ↦ begin_workers-IsBusy limit n (take_next w) (take_next-within w h) more
  ]

  settle-IsBusy :
      (limit : ℕ) (task : ℕ → S → Settled T × S) (i : ℕ) (w : Workers S T)
      → w.next_index ≤ w.count
      → is_in w.in_flight i ≡ true
      → IsBusy limit w
      → IsBusy limit (settle task i w)
  unfolding settle
  settle-IsBusy limit task i w h e (inl a) = take_next-stays-IsBusy limit _ h (inl a)
  settle-IsBusy limit task i w h e (inr (inl a)) = take_next-stays-IsBusy limit _ h (inr (inl a))
  settle-IsBusy limit task i w h e (inr (inr a)) =
      take_next-IsBusy limit _ h (omega (arith, length-erase i w.in_flight e))

  step-IsBusy :
      (limit : ℕ) (task : ℕ → S → Settled T × S) (e : Event) (w : Workers S T)
      → w.next_index ≤ w.count
      → IsBusy limit w
      → IsBusy limit (step task e w)
  unfolding step
  step-IsBusy limit task (settles i) w h b = elim (Bool-cases (is_in w.in_flight i)) [
    | inl e ↦ rw (e, step) (settle-IsBusy limit task i w h e b)
    | inr e ↦ rw (e, step) b
  ]
  step-IsBusy limit task aborts w h b = inl refl

  pub run-IsBusy :
      {limit : ℕ} (task : ℕ → S → Settled T × S) (es : List Event) (w : Workers S T)
      → IsValid limit w
      → IsBusy limit w
      → IsBusy limit (run task es w)
  unfolding run
  run-IsBusy task [] w v b = b
  run-IsBusy {limit} task (e ∷ es) w v b =
      run-IsBusy task es (step task e w) (step-IsValid task e w v)
        (step-IsBusy limit task e w v.within b)

pub start_workers-IsBusy :
    (T : Type 0) {S : Type 0} (concurrency count : ℕ) (aborted : Bool) (s : S)
    → IsBusy {S = S} {T = T} (min concurrency count) (start_workers concurrency count aborted s)
unfolding start_workers
start_workers-IsBusy T concurrency count aborted s =
    begin_workers-IsBusy (min concurrency count) (min concurrency count) _ (omega arith)
      (omega arith)
