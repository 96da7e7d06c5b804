-- ===== src/Legacy/Workers/Ends.antt =====
-- The worker pool of indexer/src/backfill.ts comes to its end, and what its results are then.
use stellar_analytics_dashbo.Prelude.{
  ℕ, zero, suc, ◌+◌, ◌≤◌, ◌<◌, ◌≡◌, ◌⊎◌, inl, inr, refl, ◌∙◌, Bool, true, false, List, [], ◌∷◌,
  ◌++◌, ltb, if◌then◌else◌, length, min, arith, is_some, Bool-cases,
}
use stellar_analytics_dashbo.Legacy.Workers.{
  Settled, Workers, Event, settles, aborts, is_in, take_next, begin_workers, start_workers, settle,
  step, run, is_done, is_empty,
}
use stellar_analytics_dashbo.Legacy.Workers.Validity.{
  Distinct, rounds, run-IsValid, start_workers-IsValid, settle-rounds, start_workers-rounds,
}
use stellar_analytics_dashbo.Legacy.Workers.Progress.{IsBusy, run-IsBusy, start_workers-IsBusy}

abbrev one : {S T : Type 0} → Event → Workers S T → ℕ
one (settles i) w = if is_in w.in_flight i then 1 else 0
one aborts w = 0

-- How many of the events are that a task settles.
abbrev pub settled : {S T : Type 0} → (ℕ → S → Settled T × S) → List Event → Workers S T → ℕ
settled task [] w = 0
settled task (e ∷ es) w = one e w + settled task es (step task e w)

abbrev with_first : List ℕ → (ℕ → List Event) → List Event
with_first [] f = []
with_first (i ∷ is) f = f i

is_empty-length : (is : List ℕ) → length is ≡ 0 → is_empty is ≡ true
is_empty-length [] h = refl
is_empty-length (i ∷ is) h = absurd (omega arith)

module _ {S T : Type 0} (task : ℕ → S → Settled T × S) where
  step-rounds : (e : Event) (w : Workers S T) → one e w + rounds (step task e w) ≡ rounds w
  unfolding step
  step-rounds (settles i) w = elim (Bool-cases (is_in w.in_flight i)) [
    | inl h ↦ rw (h, step) (omega (arith, settle-rounds task i w h))
    | inr h ↦ rw (h, step) (omega arith)
  ]
  step-rounds aborts w = omega arith

  run-rounds :
      (es : List Event) (w : Workers S T) → settled task es w + rounds (run task es w) ≡ rounds w
  unfolding run
  run-rounds [] w = omega arith
  run-rounds (e ∷ es) w = omega (arith, step-rounds e w, run-rounds es (step task e w))

  -- The tasks in flight settle, one after another, until none is left.
  drain : ℕ → Workers S T → List Event
  drain zero w = []
  drain (suc n) w = with_first w.in_flight (λ i. settles i ∷ drain n (step task (settles i) w))

  drain_from :
      (n : ℕ) (w : Workers S T) (is : List ℕ)
      → w.in_flight ≡ is
      → ((i : ℕ)
          → is_in w.in_flight i ≡ true
          → is_done (run task (drain n (step task (settles i) w)) (step task (settles i) w)) ≡ true)
      → is_done (run task (drain (suc n) w) w) ≡ true
  unfolding drain run
  drain_from n w [] e h = simp e
  drain_from n w (i ∷ is) e h = simp e (h i (ground arith))

  drained : (n : ℕ) (w : Workers S T) → rounds w ≤ n → is_done (run task (drain n w) w) ≡ true
  unfolding drain run
  drained zero w h = is_empty-length w.in_flight (omega arith)
  drained (suc n) w h =
      drain_from n w w.in_flight refl
        (λ i e. drained n (step task (settles i) w) (ground (arith, step-rounds (settles i) w)))

  run-append :
      (es fs : List Event) (w : Workers S T) → run task (es ++ fs) w ≡ run task fs (run task es w)
  unfolding run
  run-append [] fs w = refl
  run-append (e ∷ es) fs w = run-append es fs (step task e w)

begin_workers-count : {S T : Type 0} (n : ℕ) (w : Workers S T) → (begin_workers n w).count ≡ w.count
unfolding begin_workers take_next
begin_workers-count zero w = refl
begin_workers-count (suc n) w = begin_workers-count n (take_next w) ∙ ground arith

step-count :
    {S T : Type 0} (task : ℕ → S → Settled T × S) (e : Event) (w : Workers S T)
    → (step task e w).count ≡ w.count
unfolding step settle take_next
step-count task (settles i) w = ground arith
step-count task aborts w = refl

run-count :
    {S T : Type 0} (task : ℕ → S → Settled T × S) (es : List Event) (w : Workers S T)
    → (run task es w).count ≡ w.count
unfolding run
run-count task [] w = refl
run-count task (e ∷ es) w = run-count task es (step task e w) ∙ step-count task e w

start_workers-count :
    (T : Type 0) {S : Type 0} (concurrency count : ℕ) (aborted : Bool) (s : S)
    → Workers.count {S = S} {T = T} (start_workers concurrency count aborted s) ≡ count
unfolding start_workers
start_workers-count T concurrency count aborted s =
    begin_workers-count {T = T} (min concurrency count) _

is_empty-none :
    (is : List ℕ) → is_empty is ≡ true → (length is ≡ 0) × ((i : ℕ) → is_in is i ≡ false)
is_empty-none [] h = (refl, λ i. refl)
is_empty-none (i ∷ is) h = cc

-- At any time at most `concurrency` tasks are in flight, no task twice.
pub in_flight_bounded :
    {S T : Type 0} (task : ℕ → S → Settled T × S) (concurrency count : ℕ) (aborted : Bool) (s : S)
    (es : List Event)
    → let w = run task es (start_workers concurrency count aborted s) in
      (length w.in_flight ≤ concurrency) × Distinct w.in_flight
in_flight_bounded {S} {T} task concurrency count aborted s es =
    let v = run-IsValid task es _ (start_workers-IsValid T concurrency count aborted s) in
    (omega (arith, v.bounded), v.distinct)

-- The pool ends: whatever has happened, no more tasks have settled than there are, and settling those
-- in flight, one after another, makes it resolve.
pub run_ends :
    {S T : Type 0} (task : ℕ → S → Settled T × S) (concurrency count : ℕ) (aborted : Bool) (s : S)
    (es : List Event)
    → let w = start_workers concurrency count aborted s in
      (settled task es w ≤ count) × (fs : List Event) × (is_done (run task (es ++ fs) w) ≡ true)
run_ends {S} {T} task concurrency count aborted s es =
    let w : Workers S T = start_workers concurrency count aborted s in
    let n = rounds (run task es w) in
    (
      omega (arith, run-rounds task es w, start_workers-rounds T concurrency count aborted s),
      drain task n (run task es w),
      rw (run-append task es (drain task n (run task es w)) w)
          (drained task n (run task es w) (omega arith)),
    )

ended :
    {S T : Type 0} {concurrency count : ℕ} (w : Workers S T)
    → IsBusy (min concurrency count) w
    → w.count ≡ count
    → w.next_index ≤ w.count
    → 0 < concurrency
    → length w.in_flight ≡ 0
    → (w.aborted ≡ true) ⊎ (w.next_index ≡ count)
ended w (inl a) same within pos empty = inl a
ended w (inr (inl e)) same within pos empty = inr (omega arith)
ended w (inr (inr b)) same within pos empty = inr (omega arith)

-- Once the pool has resolved, the first tasks have their results and the rest are holes; where there
-- are workers and the signal has not aborted, there are no holes.
pub done-results :
    {S T : Type 0} (task : ℕ → S → Settled T × S) (concurrency count : ℕ) (aborted : Bool) (s : S)
    (es : List Event)
    → 0 < concurrency
    → let w = run task es (start_workers concurrency count aborted s) in
      is_done w ≡ true
      → ((i : ℕ) → is_some (w.results i) ≡ ltb i w.next_index)
        × (w.next_index ≤ count)
        × ((w.aborted ≡ true) ⊎ (w.next_index ≡ count))
done-results {S} {T} task concurrency count aborted s es pos done =
    let w : Workers S T = run task es (start_workers concurrency count aborted s) in
    let v = run-IsValid task es _ (start_workers-IsValid T concurrency count aborted s) in
    let busy =
      run-IsBusy task es _ (start_workers-IsValid T concurrency count aborted s)
        (start_workers-IsBusy T concurrency count aborted s) in
    let same : w.count ≡ count =
      run-count task es _ ∙ start_workers-count T concurrency count aborted s in
    let (empty, absent) = is_empty-none w.in_flight done in
    (
      λ i. ground (arith, v.taken i, v.fresh i, absent i),
      omega (arith, v.within),
      ended w busy same v.within pos empty,
    )
