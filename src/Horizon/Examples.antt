-- ===== src/Horizon/Examples.antt =====
-- Errors of Horizon and requests of stellar-service.ts, and their theorems at concrete inputs.
use stellar_analytics_dashbo.Prelude.{
  ℕ, zero, suc, ◌+◌, ◌-◌, ◌*◌, ◌^◌, ◌≤◌, ◌<◌, ◌≡◌, refl, true, false, none, some, List, [], ◌∷◌,
  String, Option, arith,
}
use stellar_analytics_dashbo.Breaker.{
  CircuitBreaker, closed, settle, on_failure, start, transition_if_needed,
}
use stellar_analytics_dashbo.Horizon.Errors.{
  RetryConfig, Thrown, object, is_transient_error, extract_http_status, is_network_message,
  status_in, three_digits, lower_includes, lower_starts, lower_eq, is_transient_status,
}
use stellar_analytics_dashbo.Horizon.Retry.{
  Ended, returned, thrown, Retried, retry_with_backoff, retry_from, after_failure, end_request,
}
use stellar_analytics_dashbo.Horizon.Retry.Attempts.{
  IsProper, retry_with_backoff-IsProper, limit_of, IsTransient,
}
use stellar_analytics_dashbo.Horizon.Retry.Outage.{fresh, outage_calls}
use stellar_analytics_dashbo.Horizon.Retry.Requests.{
  Event, begins, ends, run, step, IsConcurrent, begin_request,
}

abbrev config : RetryConfig
config = record { max_attempts = 3; base_delay_ms = 200; max_delay_ms = 10000; jitter = true }

-- An error of the given message and status.
abbrev error_of : String → Option ℕ → Thrown
error_of message status = object (record {
  is_error = true;
  is_type_error = false;
  message = some message;
  status = status;
  status_code = none;
  error_code = none;
  response_status = none;
})

status_from_message : extract_http_status (error_of "Request failed: 503 (x)" none) ≡ some 503
unfolding extract_http_status status_in three_digits
status_from_message = refl

not_found : is_transient_error (error_of "Not Found" (some 404)) ≡ false
unfolding is_transient_error extract_http_status is_network_message lower_includes lower_starts
    lower_eq is_transient_status
not_found = refl

-- The message comes before the status: this client error is retried.
client_timeout : is_transient_error (error_of "Transaction Timeout" (some 400)) ≡ true
unfolding is_transient_error extract_http_status is_network_message lower_includes lower_starts
    lower_eq is_transient_status
client_timeout = refl

-- An error that names nothing of the network and no status is not retried.
temporary_failure : is_transient_error (error_of "temporary failure" none) ≡ false
unfolding is_transient_error extract_http_status is_network_message lower_includes lower_starts
    lower_eq is_transient_status status_in three_digits
temporary_failure = refl

abbrev unavailable : Thrown
unavailable = error_of "unavailable" (some 503)

unavailable_transient : is_transient_error unavailable ≡ true
unfolding is_transient_error extract_http_status is_network_message lower_includes lower_starts
    lower_eq is_transient_status
unavailable_transient = refl

-- Horizon answers at the second call.
abbrev second : ℕ → Ended ℕ
second zero = thrown unavailable
second (suc n) = returned 7

retry_with_backoff-IsProper_example :
    (r : Retried ℕ) × (retry_with_backoff config second (λ n. 0) ≡ some r)
    × IsProper config second (λ n. 0) (λ n. omega arith) 0 r
retry_with_backoff-IsProper_example =
    retry_with_backoff-IsProper config second (λ n. 0) (λ n. omega arith)

abbrev breaker : CircuitBreaker
breaker = record {
  state = closed;
  failure_count = 0;
  success_count = 0;
  last_failure_time = none;
  failure_threshold = 2;
  cooldown_ms = 1000;
  success_threshold = 2;
  name = "HorizonAPI";
}

-- Three callers: two requests overlap and open the circuit while the third is still in flight, and the
-- fourth request is refused.
abbrev outage : List (Event ℕ)
outage =
    begins 10
    ∷ begins 11
    ∷ ends 20 (λ n. thrown unavailable) (λ n. 0)
    ∷ begins 21
    ∷ begins 22
    ∷ ends 30 (λ n. thrown unavailable) (λ n. 0)
    ∷ begins 31
    ∷ ends 40 (λ n. thrown unavailable) (λ n. 0)
    ∷ []

concurrent : IsConcurrent config 3 (fresh breaker) outage
unfolding is_transient_error extract_http_status is_network_message lower_includes lower_starts
    lower_eq is_transient_status IsConcurrent step begin_request end_request settle on_failure start
    transition_if_needed retry_with_backoff retry_from after_failure
concurrent = (
  omega arith,
  (
    omega arith,
    (
      omega arith,
      (omega arith, (omega arith, (omega arith, (omega arith, (omega arith, omega arith))))),
    ),
  ),
)

outage_calls_example :
    let s = run config (fresh breaker) outage in
    s.calls + s.in_flight * limit_of config ≤ (2 - 1 + 3) * limit_of config
outage_calls_example =
    let small : (n : ℕ) → 0 < 2 ^ 53 = λ n. omega arith in
    let down : (n : ℕ) → IsTransient {T = ℕ} (thrown unavailable) = λ n. unavailable_transient in
    outage_calls config 10 3 breaker outage refl refl (omega arith) concurrent (
      omega arith,
      (
        omega arith,
        (
          (omega arith, small, down),
          (
            omega arith,
            (
              omega arith,
              ((omega arith, small, down), (omega arith, ((omega arith, small, down), tt))),
            ),
          ),
        ),
      ),
    )
