-- ===== src/Breaker/Examples.antt =====
-- Runs of the breaker of CircuitBreaker.ts, and its theorems at concrete inputs.
use stellar_analytics_dashbo.Prelude.{ℕ, ◌≡◌, refl, none, some, [], ◌∷◌, map, arith}
use stellar_analytics_dashbo.Breaker.{
  closed, opened, half_open, CircuitBreakerOptions, CircuitBreaker, new, begins, succeeds, fails,
  resets, step, run, Reply, resolved,
}
use stellar_analytics_dashbo.Breaker.Invariant.{IsValid, run-new-IsValid}
use stellar_analytics_dashbo.Breaker.Traces.{opened_recovers}

abbrev options : CircuitBreakerOptions
options = record {
  failure_threshold = some 3;
  cooldown_ms = some 1000;
  success_threshold = none;
  name = some "Horizon";
}

abbrev tripped : CircuitBreaker
tripped = record {
  state = opened;
  failure_count = 3;
  success_count = 0;
  last_failure_time = some 30;
  failure_threshold = 3;
  cooldown_ms = 1000;
  success_threshold = 2;
  name = "Horizon";
}

abbrev probing : CircuitBreaker
probing = record tripped { state = half_open }

trips : run (new options) (map fails (10 ∷ 20 ∷ 30 ∷ [])) ≡ tripped
unfolding run step new
trips = refl

tripped-IsValid : IsValid tripped
tripped-IsValid = ground arith

run-new-IsValid_example :
    IsValid (run (new options) (fails 10 ∷ begins 11 ∷ succeeds ∷ resets ∷ []))
run-new-IsValid_example =
    run-new-IsValid options (fails 10 ∷ begins 11 ∷ succeeds ∷ resets ∷ []) (λ e. cc) (λ e. cc)

abbrev reply : Reply ℕ
reply = resolved 7

opened_recovers_example :
    let b' = run tripped (begins 1030 ∷ succeeds ∷ succeeds ∷ []) in
    (b'.state ≡ closed) × (b'.failure_count ≡ 0) × (b'.last_failure_time ≡ none)
opened_recovers_example = opened_recovers tripped 30 1030 tripped-IsValid refl refl (omega arith)
