-- ===== src/Horizon/Retry/Requests.antt =====
-- The requests of stellar-service.ts that go through one circuit breaker. executeWithRetry waits for its
-- callback, so other requests may begin and end in between: events are taken in any order.
use stellar_analytics_dashbo.Prelude.{ℕ, zero, suc, ◌+◌, ◌≤◌, none, some, List, [], ◌∷◌}
use stellar_analytics_dashbo.Breaker
use stellar_analytics_dashbo.Breaker.{CircuitBreaker}
use stellar_analytics_dashbo.Horizon.Errors.{RetryConfig}
use stellar_analytics_dashbo.Horizon.Retry.{Ended, retry_with_backoff, end_request}

-- A request begins at a time, or one in flight ends at a time, with what its callback has given at its
-- calls, and the draws of Math.random() between them.
pub data Event (T : Type 0) : Type 0 where
  begins : ℕ → Event T
  ends : ℕ → (ℕ → Ended T) → (ℕ → ℕ) → Event T

-- The breaker, the number of requests in flight and of those that ended, and the calls that the latter made.
pub record Requests : Type 0 where
  pub breaker : CircuitBreaker
  pub in_flight : ℕ
  pub ended : ℕ
  pub calls : ℕ

-- A request that the breaker refuses is over at once.
unfoldable pub begin_request : Requests → ℕ → Requests
begin_request s now =
    let (b, refused) = Breaker.start s.breaker now in
    elim refused [
      | some w ↦ record s { breaker = b }
      | none ↦ record s { breaker = b; in_flight = suc s.in_flight }
    ]

module _ {T : Type 0} (config : RetryConfig) where
  -- Nothing ends where nothing is in flight.
  unfoldable pub step : Requests → Event T → Requests
  step s (begins now) = begin_request s now
  step s (ends later fn draws) = elim s.in_flight [
    | zero ↦ s
    | suc n ↦
        let (b, outcome, calls) =
          end_request config fn draws s.breaker later (retry_with_backoff config fn draws) in
        record { breaker = b; in_flight = n; ended = suc s.ended; calls = s.calls + calls }
  ]

  unfoldable pub run : Requests → List (Event T) → Requests
  run s [] = s
  run s (e ∷ es) = run (step s e) es

  -- Never more requests in flight at a time than there are callers.
  unfoldable pub IsConcurrent : ℕ → Requests → List (Event T) → Type 0
  IsConcurrent callers s [] = s.in_flight ≤ callers
  IsConcurrent callers s (e ∷ es) = (s.in_flight ≤ callers) × IsConcurrent callers (step s e) es
