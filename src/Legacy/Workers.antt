-- ===== src/Legacy/Workers.antt =====
-- `runWithConcurrency` of indexer/src/backfill.ts. The workers run on one thread and give way only while
-- they await a task, so the model is a machine whose events are that a task in flight settles, upon
-- which its worker goes on, and that the signal aborts. A task takes its effect when it settles, on a
-- state that the tasks share. `results` is the array: `none` where it has a hole.
pub mod Validity
pub mod Progress
pub mod Ends
pub mod Results
use stellar_analytics_dashbo.Prelude.{
  ℕ, zero, suc, Bool, true, false, ◌&&◌, not, Option, none, some, List, [], ◌∷◌, String, ltb, ◌==◌,
  if◌then◌else◌, any, min,
}

pub data Settled (T : Type 0) : Type 0 where
  fulfilled : T → Settled T
  rejected : String → Settled T

pub record Workers (S T : Type 0) : Type 0 where
  pub count : ℕ
  pub next_index : ℕ
  pub in_flight : List ℕ
  pub results : ℕ → Option (Settled T)
  pub aborted : Bool
  pub state : S

pub data Event : Type 0 where
  settles : ℕ → Event
  aborts : Event

abbrev pub is_in : List ℕ → ℕ → Bool
is_in is i = any (λ j. j == i) is

unfoldable pub erase : ℕ → List ℕ → List ℕ
erase i [] = []
erase i (j ∷ js) = if j == i then js else j ∷ erase i js

-- A worker up to its next await: it takes a task, or ends.
unfoldable pub take_next : {S T : Type 0} → Workers S T → Workers S T
take_next w =
    if ltb w.next_index w.count && not w.aborted
    then record w { next_index = suc w.next_index; in_flight = w.next_index ∷ w.in_flight }
    else w

unfoldable pub begin_workers : {S T : Type 0} → ℕ → Workers S T → Workers S T
begin_workers zero w = w
begin_workers (suc n) w = begin_workers n (take_next w)

-- All workers up to their first await, with as many tasks as `count`.
unfoldable pub start_workers : {S T : Type 0} → ℕ → ℕ → Bool → S → Workers S T
start_workers concurrency count aborted state = begin_workers (min concurrency count) (record {
  count = count;
  next_index = 0;
  in_flight = [];
  results = λ i. none;
  aborted = aborted;
  state = state;
})

module _ {S T : Type 0} (task : ℕ → S → Settled T × S) where
  -- The worker of task `i` stores the result and goes on.
  unfoldable pub settle : ℕ → Workers S T → Workers S T
  settle i w =
      let (r, s) = task i w.state in
      take_next (record w {
        in_flight = erase i w.in_flight;
        results = λ j. if i == j then some r else w.results j;
        state = s;
      })

  -- A task that is not in flight cannot settle.
  unfoldable pub step : Event → Workers S T → Workers S T
  step (settles i) w = if is_in w.in_flight i then settle i w else w
  step aborts w = record w { aborted = true }

  unfoldable pub run : List Event → Workers S T → Workers S T
  run [] w = w
  run (e ∷ es) w = run es (step e w)

abbrev pub is_empty : List ℕ → Bool
is_empty [] = true
is_empty (i ∷ is) = false

-- `Promise.all(workers)` resolves.
abbrev pub is_done : {S T : Type 0} → Workers S T → Bool
is_done w = is_empty w.in_flight
