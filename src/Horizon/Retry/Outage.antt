-- ===== src/Horizon/Retry/Outage.antt =====
-- While Horizon is down: the retries of stellar-service.ts together with the circuit breaker.
use stellar_analytics_dashbo.Prelude.{
  ℕ, zero, suc, ◌+◌, ◌-◌, ◌*◌, ◌^◌, ◌≤◌, ◌<◌, ◌≡◌, inl, inr, refl, sym, subst, List, ◌⊎◌, [], ◌∷◌,
  All, arith,
}
use stellar_analytics_dashbo.Breaker
use stellar_analytics_dashbo.Breaker.{
  CircuitBreaker, Outcome, closed, opened, start, settle, on_failure, transition_if_needed,
}
use stellar_analytics_dashbo.Horizon.Errors.{RetryConfig, Thrown}
use stellar_analytics_dashbo.Horizon.Retry.{
  Ended, returned, thrown, retry_with_backoff, end_request,
}
use stellar_analytics_dashbo.Horizon.Retry.Requests.{
  Event, begins, ends, Requests, step, run, IsConcurrent,
}
use stellar_analytics_dashbo.Horizon.Retry.Attempts.{
  IsTransient, IsLast, limit_of, retry_with_backoff-IsProper,
}
use stellar_analytics_dashbo.Horizon.Retry.Failures.{
  IsBounded, begins-IsBounded, after_end-IsBounded,
}

suc-cases : (n : ℕ) → (n ≡ 0) ⊎ ((k : ℕ) × (n ≡ suc k))
suc-cases zero = inl refl
suc-cases (suc k) = inr (k, refl)

spent :
    (calls ended flying requests limit : ℕ)
    → calls ≡ ended * limit
    → ended + flying ≤ requests
    → calls + flying * limit ≤ requests * limit
spent calls ended flying requests limit e h =
    let more = requests - (ended + flying) in
    let all : requests ≡ ended + flying + more = omega arith in rw (e, all) (omega arith)

abbrev pub fresh : CircuitBreaker → Requests
fresh b = record { breaker = b; in_flight = 0; ended = 0; calls = 0 }

last_thrown :
    {T : Type 0} (limit calls : ℕ) (e : Ended T)
    → IsTransient e
    → IsLast limit calls e
    → (err : Thrown) × (e ≡ thrown err) × (calls ≡ limit)
last_thrown limit calls (returned v) t l = absurd t
last_thrown limit calls (thrown err) t (inl p) = absurd (ground arith)
last_thrown limit calls (thrown err) t (inr l) = (err, refl, l)

module _ {T : Type 0} (config : RetryConfig) where
  -- A request whose calls all fail for a passing reason uses up its attempts, and is a failure.
  end_request-fails :
      (fn : ℕ → Ended T) (draws : ℕ → ℕ) (b : CircuitBreaker) (later : ℕ)
      → ((n : ℕ) → draws n < 2 ^ 53)
      → ((n : ℕ) → IsTransient (fn n))
      → end_request config fn draws b later (retry_with_backoff config fn draws)
        ≡ (on_failure b later, Breaker.error, limit_of config)
  unfolding end_request settle
  end_request-fails fn draws b later small down =
      let (r, ran, p) = retry_with_backoff-IsProper config fn draws small in
      let (err, e, all) =
        last_thrown (limit_of config) r.calls r.result
          (subst IsTransient p.last (down (r.calls - 1))) p.ended in
      rw (ran, e, all) refl

  -- An event of an outage: requests end after `t0`, begin before it is a cooldown old, and each of their
  -- calls fails for a passing reason. The random draws are below 2 ^ 53.
  abbrev pub IsOutage : ℕ → ℕ → Event T → Type 0
  IsOutage t0 cooldown (begins now) = now < t0 + cooldown
  IsOutage t0 cooldown (ends later fn draws) =
      (t0 ≤ later) × ((n : ℕ) → draws n < 2 ^ 53) × ((n : ℕ) → IsTransient (fn n))

  step-IsBounded :
      (t0 threshold cooldown callers : ℕ) (s : Requests) (e : Event T)
      → IsBounded config t0 threshold cooldown callers s
      → s.in_flight ≤ callers
      → IsOutage t0 cooldown e
      → IsBounded config t0 threshold cooldown callers (step config s e)
  unfolding step
  step-IsBounded t0 threshold cooldown callers s (begins now) h few out =
      begins-IsBounded config t0 threshold cooldown callers now s h out
  step-IsBounded t0 threshold cooldown callers s (ends later fn draws) h few (late, small, down) =
      elim (suc-cases s.in_flight) [
        | inl idle ↦
            subst (IsBounded config t0 threshold cooldown callers) (sym (simp (idle, step) refl)) h
        | inr (n, flying) ↦
            let failed = end_request-fails fn draws s.breaker later small down in
            subst (IsBounded config t0 threshold cooldown callers)
              (sym (rw (flying, failed, step) refl))
              (after_end-IsBounded config t0 threshold cooldown callers later n s h flying few late)
      ]

  run-IsBounded :
      (t0 threshold cooldown callers : ℕ) (s : Requests) (es : List (Event T))
      → IsBounded config t0 threshold cooldown callers s
      → IsConcurrent config callers s es
      → All (IsOutage t0 cooldown) es
      → IsBounded config t0 threshold cooldown callers (run config s es)
        × ((run config s es).in_flight ≤ callers)
  unfolding run IsConcurrent
  run-IsBounded t0 threshold cooldown callers s [] h few out = (h, few)
  run-IsBounded t0 threshold cooldown callers s (e ∷ es) h few out =
      run-IsBounded t0 threshold cooldown callers (step config s e) es
        (step-IsBounded t0 threshold cooldown callers s e h few.0 out.0) few.1 out.1

  -- An outage, in which each call fails for a passing reason, is not hammered. From a closed circuit
  -- without failures whose threshold is not 0, whatever requests begin before one cooldown from a time is over,
  -- end after that time, and overlap in whatever order, as long as there are never more in flight than
  -- callers: the calls of Horizon, with all that those in flight may still make, are no more than the
  -- attempts of one request less than the threshold says, and of one request of each caller. The
  -- random draws are below 2 ^ 53.
  pub outage_calls :
      (t0 callers : ℕ) (b : CircuitBreaker) (es : List (Event T))
      → b.state ≡ closed
      → b.failure_count ≡ 0
      → 0 < b.failure_threshold
      → IsConcurrent config callers (fresh b) es
      → All (IsOutage t0 b.cooldown_ms) es
      → let s = run config (fresh b) es in
        s.calls + s.in_flight * limit_of config
        ≤ (b.failure_threshold - 1 + callers) * limit_of config
  outage_calls t0 callers b es c n more few out =
      let (h, flying) =
        run-IsBounded t0 b.failure_threshold b.cooldown_ms callers (fresh b) es
          (record {
            counted = omega arith;
            threshold_kept = refl;
            cooldown_kept = refl;
            status = inl (c, sym n, more);
          })
          few out in
      let s = run config (fresh b) es in
      let requests : s.ended + s.in_flight ≤ b.failure_threshold - 1 + callers = elim h.status [
        | inl (c', count, below) ↦ omega arith
        | inr (o, _, bound) ↦ bound
      ] in
      spent s.calls s.ended s.in_flight (b.failure_threshold - 1 + callers) (limit_of config)
        h.counted requests
