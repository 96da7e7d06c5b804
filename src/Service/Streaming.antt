-- ===== src/Service/Streaming.antt =====
-- The stream of ledgers of indexer-service.ts: its last processed ledger, and its reconnections.
use stellar_analytics_dashbo.Prelude.{
  ℕ, zero, suc, ◌+◌, ◌-◌, ◌≤◌, ◌<◌, ◌≡◌, refl, ap, ◌∙◌, true, List, [], ◌∷◌, ltb, if◌then◌else◌,
  min, max, length, All, replicate, arith,
}
use native.Mathlib.Nat.{pow-suc, one-le-pow}
use stellar_analytics_dashbo.Service.{
  max_reconnect_attempts, Realtime, Event, message, processed, stream_error, is_in, drop_one,
  on_message, on_processed, reconnect_delay, on_error, step, run,
}

-- Ledgers that arrive one after another, each when the one before is done.
abbrev pub one_by_one : List ℕ → List Event
one_by_one [] = []
one_by_one (n ∷ ns) = message n ∷ processed n ∷ one_by_one ns

abbrev pub largest : ℕ → List ℕ → ℕ
largest m [] = m
largest m (n ∷ ns) = largest (max m n) ns

one-lem :
    (n : ℕ) (r : Realtime)
    → r.processing ≡ []
    → ((step (processed n) (step (message n) r)).processing ≡ [])
      × ((step (processed n) (step (message n) r)).service.last_processed_ledger
          ≡ max r.service.last_processed_ledger n)
      × ((step (processed n) (step (message n) r)).service.websocket_reconnect_attempts ≡ 0)
unfolding step on_message on_processed drop_one
one-lem n r e = ground arith

-- Ledgers that come one after another, in any order, leave the largest as the last processed one.
pub one_by_one-largest :
    (ns : List ℕ) (r : Realtime)
    → r.processing ≡ []
    → ((run (one_by_one ns) r).processing ≡ [])
      × ((run (one_by_one ns) r).service.last_processed_ledger
          ≡ largest r.service.last_processed_ledger ns)
unfolding run
one_by_one-largest [] r e = (e, refl)
one_by_one-largest (n ∷ ns) r e =
    let (empty, last, attempts) = one-lem n r e in
    let (empty', last') = one_by_one-largest ns (step (processed n) (step (message n) r)) empty in
    (empty', last' ∙ ap (λ m. largest m ns) last)

-- A ledger that is overtaken while it is processed takes the last processed ledger back to itself.
pub overtaken-regresses :
    (a b : ℕ) (r : Realtime)
    → r.processing ≡ []
    → r.service.last_processed_ledger < a
    → a < b
    → ((run (message a ∷ message b ∷ processed b ∷ []) r).service.last_processed_ledger ≡ b)
      × ((run
            (message a ∷ message b ∷ processed b ∷ processed a ∷ [])
            r).service.last_processed_ledger
          ≡ a)
      × (is_in
            (run (message a ∷ message b ∷ processed b ∷ processed a ∷ message b ∷ []) r).processing
            b
          ≡ true)
unfolding run step on_message on_processed drop_one
overtaken-regresses a b r e l lt = ground arith

abbrev pub InRange : ℕ → Type 0
InRange d = (2000 ≤ d) × (d ≤ 30000)

reconnect_delay-InRange : (n : ℕ) → InRange (reconnect_delay (suc n))
unfolding reconnect_delay
reconnect_delay-InRange n = omega (arith, pow-suc 2 n, one-le-pow n 2 (omega arith))

error-lem :
    (r : Realtime)
    → ((step stream_error r).service.websocket_reconnect_attempts
        ≡ suc r.service.websocket_reconnect_attempts)
      × (length (step stream_error r).timers
          ≡ length r.timers + (if ltb r.service.websocket_reconnect_attempts 10 then 1 else 0))
      × (All InRange r.timers → All InRange (step stream_error r).timers)
unfolding step on_error
error-lem r = ground (arith, reconnect_delay-InRange r.service.websocket_reconnect_attempts)

-- Errors of the stream without a ledger between them: as many reconnections are scheduled as are left of
-- ten, each after two to thirty seconds, and from then on no error schedules one.
pub errors-timers :
    (k : ℕ) (r : Realtime)
    → All InRange r.timers
    → (length (run (replicate k stream_error) r).timers
        ≡ length r.timers + min k (max_reconnect_attempts - r.service.websocket_reconnect_attempts))
      × All InRange (run (replicate k stream_error) r).timers
unfolding run
errors-timers zero r h = (omega arith, h)
errors-timers (suc k) r h =
    let (attempts, timers, good) = error-lem r in
    let (more, all) = errors-timers k (step stream_error r) (good h) in (ground (arith, more), all)
