-- ===== src/Breaker/Invariant.antt =====
-- What holds of a circuit breaker between two events.
use stellar_analytics_dashbo.Prelude.{◌<◌, ◌≡◌, ◌≢◌, none, some, List, [], ◌∷◌, arith}
use stellar_analytics_dashbo.Breaker.{
  closed, opened, half_open, CircuitBreakerOptions, CircuitBreaker, new, Event, begins, succeeds,
  fails, resets, reads_state, step, run,
}

pub record IsValid (b : CircuitBreaker) : Type 0 where
  pub positive_failures : 0 < b.failure_threshold
  pub positive_successes : 0 < b.success_threshold
  -- An open circuit knows when it failed, so it can cool down.
  pub opened_dated : b.state ≡ opened → b.last_failure_time ≢ none
  pub closed_below : b.state ≡ closed → b.failure_count < b.failure_threshold
  pub half_open_below : b.state ≡ half_open → b.success_count < b.success_threshold
  -- A success count is only kept while half open.
  pub counts_half_open : b.state ≢ half_open → b.success_count ≡ 0

pub step-IsValid : (b : CircuitBreaker) (e : Event) → IsValid b → IsValid (step b e)
unfolding step
step-IsValid b (begins now) v = ground arith
step-IsValid b succeeds v = ground arith
step-IsValid b (fails now) v = ground arith
step-IsValid b resets v = ground arith
step-IsValid b (reads_state now) v = ground arith

run-IsValid : (b : CircuitBreaker) (es : List Event) → IsValid b → IsValid (run b es)
unfolding run
run-IsValid b [] v = v
run-IsValid b (e ∷ es) v = run-IsValid (step b e) es (step-IsValid b e v)

pub new-IsValid :
    (o : CircuitBreakerOptions)
    → o.failure_threshold ≢ some 0
    → o.success_threshold ≢ some 0
    → IsValid (new o)
unfolding new
new-IsValid o f s = ground arith

-- A breaker made with no zero threshold keeps its invariant under any interleaving of calls that
-- begin, succeed, fail, reset it or read its state: an open circuit knows when it last failed, a
-- closed one has fewer failures than the threshold, a half-open one fewer successes than its own
-- threshold, and successes are only counted while half open.
pub run-new-IsValid :
    (o : CircuitBreakerOptions) (es : List Event)
    → o.failure_threshold ≢ some 0
    → o.success_threshold ≢ some 0
    → IsValid (run (new o) es)
run-new-IsValid o es f s = run-IsValid (new o) es (new-IsValid o f s)
