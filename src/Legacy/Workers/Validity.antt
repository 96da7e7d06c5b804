-- ===== src/Legacy/Workers/Validity.antt =====
-- What holds of the worker pool of indexer/src/backfill.ts after any events.
use stellar_analytics_dashbo.Prelude.{
  ℕ, zero, suc, ◌+◌, ◌-◌, ◌≤◌, ◌<◌, ◌≡◌, inl, inr, refl, ◌∙◌, Bool, true, false, ◌&&◌, not, none,
  List, [], ◌∷◌, ltb, ◌==◌, if◌then◌else◌, length, min, arith, is_some, Bool-cases,
}
use stellar_analytics_dashbo.Legacy.Workers.{
  Settled, Workers, Event, settles, aborts, is_in, erase, take_next, begin_workers, start_workers,
  settle, step, run,
}

abbrev pub Distinct : List ℕ → Type 0
Distinct [] = Unit
Distinct (i ∷ is) = (is_in is i ≡ false) × Distinct is

pub erase-is_in :
    (i j : ℕ) (is : List ℕ)
    → Distinct is
    → is_in (erase i is) j ≡ (if i == j then false else is_in is j)
unfolding erase
erase-is_in i j [] d = ground arith
erase-is_in i j (k ∷ is) d = ground (arith, erase-is_in i j is d.1)

pub erase-Distinct : (i : ℕ) (is : List ℕ) → Distinct is → Distinct (erase i is)
unfolding erase
erase-Distinct i [] d = tt
erase-Distinct i (k ∷ is) d = ground (arith, erase-Distinct i is d.1, erase-is_in i k is d.1)

pub length-erase : (i : ℕ) (is : List ℕ) → is_in is i ≡ true → length is ≡ suc (length (erase i is))
unfolding erase
length-erase i [] h = ground arith
length-erase i (k ∷ is) h = ground (arith, length-erase i is)

-- A task is waiting, in flight or settled: those taken are the ones below `next_index`.
pub record IsValid {S T : Type 0} (limit : ℕ) (w : Workers S T) : Type 0 where
  pub within : w.next_index ≤ w.count
  pub distinct : Distinct w.in_flight
  pub below : (i : ℕ) → is_in w.in_flight i ≡ true → i < w.next_index
  pub taken : (i : ℕ) → i < w.next_index → is_in w.in_flight i ≡ not (is_some (w.results i))
  pub fresh : (i : ℕ) → w.next_index ≤ i → w.results i ≡ none
  pub bounded : length w.in_flight ≤ limit

-- How many tasks still settle, at most.
abbrev pub rounds : {S T : Type 0} → Workers S T → ℕ
rounds w = (w.count - w.next_index) + length w.in_flight

module _ {S T : Type 0} where
  length-take_next : (w : Workers S T) → length (take_next w).in_flight ≤ suc (length w.in_flight)
  unfolding take_next
  length-take_next w = ground arith

  take_next-IsValid :
      {limit : ℕ} (w : Workers S T)
      → IsValid limit w
      → length w.in_flight < limit
      → IsValid limit (take_next w)
  unfolding take_next
  take_next-IsValid {limit} w v room =
      elim (Bool-cases (ltb w.next_index w.count && not w.aborted)) [
        | inl e ↦
            rw (e, take_next)
              (record {
                within = ground (arith, v.within);
                distinct = (ground (arith, v.below w.next_index), v.distinct);
                below = λ i h. ground (arith, v.below i);
                taken = λ i h. ground (arith, v.taken i, v.below i, v.fresh i);
                fresh = λ i h. v.fresh i (omega arith);
                bounded = omega arith;
              })
        | inr e ↦ rw (e, take_next) v
      ]

  pub take_next-rounds : (w : Workers S T) → rounds (take_next w) ≡ rounds w
  unfolding take_next
  take_next-rounds w = ground arith

  settle-IsValid :
      {limit : ℕ} (task : ℕ → S → Settled T × S) (i : ℕ) (w : Workers S T)
      → IsValid limit w
      → is_in w.in_flight i ≡ true
      → IsValid limit (settle task i w)
  unfolding settle
  settle-IsValid task i w v h =
      take_next-IsValid _
        (record {
          within = v.within;
          distinct = erase-Distinct i w.in_flight v.distinct;
          below = λ j k. ground (arith, v.below j, erase-is_in i j w.in_flight v.distinct);
          taken = λ j k. ground (arith, v.taken j, erase-is_in i j w.in_flight v.distinct);
          fresh = λ j k. ground (arith, v.fresh j, v.below i);
          bounded = omega (arith, v.bounded, length-erase i w.in_flight h);
        })
        (omega (arith, v.bounded, length-erase i w.in_flight h))

  pub settle-rounds :
      (task : ℕ → S → Settled T × S) (i : ℕ) (w : Workers S T)
      → is_in w.in_flight i ≡ true
      → suc (rounds (settle task i w)) ≡ rounds w
  unfolding settle
  settle-rounds task i w h =
      let e : rounds (settle task i w) ≡ (w.count - w.next_index) + length (erase i w.in_flight) =
        take_next-rounds _ in
      omega (arith, length-erase i w.in_flight h)

  pub step-IsValid :
      {limit : ℕ} (task : ℕ → S → Settled T × S) (e : Event) (w : Workers S T)
      → IsValid limit w
      → IsValid limit (step task e w)
  unfolding step
  step-IsValid task (settles i) w v = elim (Bool-cases (is_in w.in_flight i)) [
    | inl h ↦ rw (h, step) (settle-IsValid task i w v h)
    | inr h ↦ rw (h, step) v
  ]
  step-IsValid task aborts w v = record {
    within = v.within;
    distinct = v.distinct;
    below = v.below;
    taken = v.taken;
    fresh = v.fresh;
    bounded = v.bounded;
  }

  begin_workers-IsValid :
      {limit : ℕ} (n : ℕ) (w : Workers S T)
      → IsValid limit w
      → length w.in_flight + n ≤ limit
      → IsValid limit (begin_workers n w)
  unfolding begin_workers
  begin_workers-IsValid zero w v h = v
  begin_workers-IsValid (suc n) w v h =
      begin_workers-IsValid n (take_next w) (take_next-IsValid w v (omega arith))
        (omega (arith, length-take_next w))

  begin_workers-rounds : (n : ℕ) (w : Workers S T) → rounds (begin_workers n w) ≡ rounds w
  unfolding begin_workers
  begin_workers-rounds zero w = refl
  begin_workers-rounds (suc n) w = begin_workers-rounds n (take_next w) ∙ take_next-rounds w

  -- After any events.
  pub run-IsValid :
      {limit : ℕ} (task : ℕ → S → Settled T × S) (es : List Event) (w : Workers S T)
      → IsValid limit w
      → IsValid limit (run task es w)
  unfolding run
  run-IsValid task [] w v = v
  run-IsValid task (e ∷ es) w v = run-IsValid task es (step task e w) (step-IsValid task e w v)

pub start_workers-IsValid :
    (T : Type 0) {S : Type 0} (concurrency count : ℕ) (aborted : Bool) (s : S)
    → IsValid {T = T} (min concurrency count) (start_workers concurrency count aborted s)
unfolding start_workers
start_workers-IsValid T concurrency count aborted s =
    begin_workers-IsValid (min concurrency count) _
      (record {
        within = omega arith;
        distinct = tt;
        below = λ i h. cc;
        taken = λ i h. absurd (omega arith);
        fresh = λ i h. refl;
        bounded = omega arith;
      })
      (omega arith)

-- A pool that starts has as many rounds as tasks.
pub start_workers-rounds :
    (T : Type 0) {S : Type 0} (concurrency count : ℕ) (aborted : Bool) (s : S)
    → rounds {S = S} {T = T} (start_workers concurrency count aborted s) ≡ count
unfolding start_workers
start_workers-rounds T {S} concurrency count aborted s =
    begin_workers-rounds {S = S} {T = T} (min concurrency count) _ ∙ omega arith
