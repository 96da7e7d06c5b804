-- ===== src/Horizon/Retry.antt =====
-- retryWithBackoff and executeWithRetry of packages/indexer/src/services/stellar-service.ts. What the
-- callback gives at its calls, one after another, is a function of their numbers, and so are the
-- draws of Math.random(). Metrics and logs are left out.
pub mod Attempts
pub mod Requests
pub mod Failures
pub mod Outage
use stellar_analytics_dashbo.Prelude.{
  ℕ, zero, suc, ◌+◌, Bool, true, false, not, Option, none, some, List, [], ◌∷◌, leb, if◌then◌else◌,
}
use stellar_analytics_dashbo.Breaker
use stellar_analytics_dashbo.Breaker.{CircuitBreaker, Reply, Outcome}
use stellar_analytics_dashbo.Horizon.Errors.{
  RetryConfig, Thrown, is_transient_error, calculate_backoff_ms,
}

-- How a call of the callback ends.
pub data Ended (T : Type 0) : Type 0 where
  returned : T → Ended T
  thrown : Thrown → Ended T

-- The calls of the callback, the times slept between them, and the end of the last.
pub record Retried (T : Type 0) : Type 0 where
  pub calls : ℕ
  pub slept : List ℕ
  pub result : Ended T

abbrev pub slept_first : {T : Type 0} → ℕ → Option (Retried T) → Option (Retried T)
slept_first delay none = none
slept_first delay (some r) = some (record r { slept = delay ∷ r.slept })

module _ {T : Type 0} (config : RetryConfig) (fn : ℕ → Ended T) (draws : ℕ → ℕ) where
  -- What follows a failed call; `attempt` counts it already, `again` are the further rounds.
  unfoldable pub after_failure : ℕ → Thrown → Option (Retried T) → Option (Retried T)
  after_failure attempt err again =
      let last = some (record { calls = attempt; slept = []; result = thrown err }) in
      if not (is_transient_error err)
      then last
      else if leb config.max_attempts attempt
      then last
      else slept_first (calculate_backoff_ms attempt config (draws attempt)) again

  -- `while (true)`, on fuel, with the attempts made before.
  unfoldable pub retry_from : ℕ → ℕ → Option (Retried T)
  unfolding after_failure
  retry_from zero attempt = none
  retry_from (suc fuel) attempt =
      let again = retry_from fuel (suc attempt) in
      elim (fn attempt) [
        | returned value ↦
            some (record { calls = suc attempt; slept = []; result = returned value })
        | thrown err ↦ after_failure (suc attempt) err again
      ]

  -- As many rounds as attempts are allowed, and one at least.
  unfoldable pub retry_with_backoff : Option (Retried T)
  retry_with_backoff = retry_from (suc config.max_attempts) 0

  abbrev pub reply_of : Ended T → Reply T
  reply_of (returned value) = Breaker.resolved value
  reply_of (thrown err) = Breaker.rejected

  -- What executeWithRetry does when the retries have ended: the breaker after it, what the caller gets,
  -- and the calls of the callback.
  unfoldable pub end_request :
      CircuitBreaker → ℕ → Option (Retried T) → CircuitBreaker × Outcome T × ℕ
  end_request b later none = (b, Breaker.error, 0)
  end_request b later (some r) =
      let (b', outcome) = Breaker.settle b later (reply_of r.result) in (b', outcome, r.calls)
