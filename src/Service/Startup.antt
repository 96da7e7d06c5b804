-- ===== src/Service/Startup.antt =====
-- Which ledgers a start of indexer-service.ts leaves out.
use stellar_analytics_dashbo.Prelude.{
  ℕ, ◌+◌, ◌≤◌, ◌<◌, ◌≡◌, refl, Bool, false, ◌&&◌, Option, none, some, List, [], ◌∷◌, leb, All,
  Bool-cases, true, inl, inr, arith,
}
use stellar_analytics_dashbo.Backfill.Checkpoint.{Table}
use stellar_analytics_dashbo.Idempotency.{Database}
use stellar_analytics_dashbo.Service.{
  Latest, sequence, initialize_last_processed_ledger, start_backfill, after_backfill,
  after_initialize, fail, start, Realtime, Event, message, processed, process_fails, stream_error,
  timer_fires, stops, is_in, drop_one, on_message, on_processed, on_error, on_timer, step, run,
}

abbrev pub backfilled : Option (ℕ × ℕ) → ℕ → Bool
backfilled none x = false
backfilled (some (from, to)) x = leb from x && leb x to

-- The stream is opened at the cursor "now": it brings ledgers above `latest` only.
abbrev pub IsNew : ℕ → Event → Type 0
IsNew latest (message n) = latest < n
IsNew latest (processed n) = Unit
IsNew latest (process_fails n) = Unit
IsNew latest stream_error = Unit
IsNew latest (timer_fires d) = Unit
IsNew latest stops = Unit

drop_one-is_in : (n x : ℕ) (ys : List ℕ) → is_in ys x ≡ false → is_in (drop_one n ys) x ≡ false
unfolding drop_one
drop_one-is_in n x [] h = refl
drop_one-is_in n x (y ∷ ys) h = ground (arith, drop_one-is_in n x ys)

step-out :
    (latest x : ℕ) (e : Event) (r : Realtime)
    → x ≤ latest
    → IsNew latest e
    → is_in r.processing x ≡ false
    → is_in (step e r).processing x ≡ false
unfolding step on_message on_processed on_error on_timer
step-out latest x (message n) r le new out = ground arith
step-out latest x (processed n) r le new out = ground (arith, drop_one-is_in n x r.processing)
step-out latest x (process_fails n) r le new out = drop_one-is_in n x r.processing out
step-out latest x stream_error r le new out = ground arith
step-out latest x (timer_fires d) r le new out = ground arith
step-out latest x stops r le new out = out

run-out :
    (latest x : ℕ) (es : List Event) (r : Realtime)
    → x ≤ latest
    → All (IsNew latest) es
    → is_in r.processing x ≡ false
    → is_in (run es r).processing x ≡ false
unfolding run
run-out latest x [] r le new out = out
run-out latest x (e ∷ es) r le new out =
    run-out latest x es (step e r) le new.1 (step-out latest x e r le new.0 out)

after_backfill-misses :
    (opened n x : ℕ) (r : Realtime) (meanwhile : List Event) (fails : Bool)
    → n < x + 10
    → x ≤ opened
    → All (IsNew opened) meanwhile
    → is_in r.processing x ≡ false
    → let started = after_backfill r meanwhile fails (start_backfill r.service (sequence n)) in
      (backfilled started.backfills x ≡ false) × (is_in started.realtime.processing x ≡ false)
unfolding after_backfill start_backfill fail
after_backfill-misses opened n x r meanwhile fails near old new out =
    ground (arith, run-out opened x meanwhile r old new out)

after_initialize-misses :
    (opened n x : ℕ) (r : Realtime) (before meanwhile : List Event) (fails : Bool) (last : Option ℕ)
    → n < x + 10
    → x ≤ opened
    → All (IsNew opened) before
    → All (IsNew opened) meanwhile
    → is_in r.processing x ≡ false
    → let started = after_initialize r before meanwhile (sequence n) fails last in
      (backfilled started.backfills x ≡ false) × (is_in started.realtime.processing x ≡ false)
unfolding after_initialize fail
after_initialize-misses opened n x r before meanwhile fails none near old new new' out = (refl, out)
after_initialize-misses opened n x r before meanwhile fails (some last) near old new new' out =
    after_backfill-misses opened n x _ meanwhile fails near old new'
      (run-out opened x before _ old new out)

-- A start leaves out the newest ledgers: the backfill ends ten ledgers below Horizon's latest, and the
-- stream, whatever it brings while start works and after it, begins above the ledger that was the latest
-- when it was opened. What lies between, and is not being processed already, is neither backfilled nor
-- taken from the stream.
pub start-misses :
    {P D : Type 0} (r : Realtime) (checkpoints : Table) (db : Database P D) (ledgers : List ℕ)
    (latest : Latest) (n : ℕ) (before meanwhile es : List Event) (fails : Bool) (opened x : ℕ)
    → n < x + 10
    → x ≤ opened
    → All (IsNew opened) before
    → All (IsNew opened) meanwhile
    → All (IsNew opened) es
    → is_in r.processing x ≡ false
    → let started = start r checkpoints db ledgers latest before (sequence n) meanwhile fails in
      (backfilled started.backfills x ≡ false)
      × (is_in (run es started.realtime).processing x ≡ false)
unfolding start
start-misses r checkpoints db ledgers latest n before meanwhile es fails opened x near old new new'
      new'' out =
    elim (Bool-cases r.service.is_running) [
      | inl e ↦ simp (e, start) (refl, run-out opened x es r old new'' out)
      | inr e ↦
          let (range, kept) =
            after_initialize-misses opened n x
              (record r { service = record r.service { is_running = true } }) before meanwhile fails
              (initialize_last_processed_ledger checkpoints db ledgers latest) near old new new'
              out in
          simp (e, start) (range, run-out opened x es _ old new'' kept)
    ]
