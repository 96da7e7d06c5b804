-- ===== src/Horizon/Retry/Failures.antt =====
-- The circuit breaker of stellar-service.ts and its requests while all of them fail.
use stellar_analytics_dashbo.Prelude.{
  ℕ, suc, ◌+◌, ◌-◌, ◌*◌, ◌≤◌, ◌<◌, ◌≡◌, inl, inr, sym, subst, ◌∙◌, ap, Option, none, some, ◌⊎◌,
  arith, or_default,
}
use stellar_analytics_dashbo.Prelude.Int.{ℤ, sub_ℕ, ceil_div}
use stellar_analytics_dashbo.Breaker.{
  CircuitBreaker, closed, opened, start, on_failure, transition_if_needed,
}
use stellar_analytics_dashbo.Horizon.Errors.{RetryConfig}
use stellar_analytics_dashbo.Horizon.Retry.Requests.{Requests, begin_request}
use stellar_analytics_dashbo.Horizon.Retry.Attempts.{limit_of}

start-closed : (b : CircuitBreaker) (now : ℕ) → b.state ≡ closed → start b now ≡ (b, none)
unfolding start transition_if_needed
start-closed b now c = ground arith

start-opened :
    (b : CircuitBreaker) (now t : ℕ)
    → b.state ≡ opened
    → b.last_failure_time ≡ some t
    → now < t + b.cooldown_ms
    → (w : ℤ) × (start b now ≡ (b, some w))
unfolding start transition_if_needed
start-opened b now t o l cold =
    (ceil_div (sub_ℕ (b.cooldown_ms + or_default b.last_failure_time 0) now) 1000, ground arith)

-- An open circuit stays open while requests that began before it opened fail.
opened-stays :
    (b : CircuitBreaker) (later : ℕ)
    → b.state ≡ opened
    → ((on_failure b later).state ≡ opened)
      × ((on_failure b later).last_failure_time ≡ some later)
      × ((on_failure b later).cooldown_ms ≡ b.cooldown_ms)
      × ((on_failure b later).failure_threshold ≡ b.failure_threshold)
unfolding on_failure
opened-stays b later c = ground arith

failure-opens :
    (b : CircuitBreaker) (later : ℕ)
    → b.state ≡ closed
    → b.failure_threshold ≤ suc b.failure_count
    → ((on_failure b later).state ≡ opened)
      × ((on_failure b later).last_failure_time ≡ some later)
      × ((on_failure b later).cooldown_ms ≡ b.cooldown_ms)
      × ((on_failure b later).failure_threshold ≡ b.failure_threshold)
unfolding on_failure
failure-opens b later c h = ground arith

failure-stays :
    (b : CircuitBreaker) (later : ℕ)
    → b.state ≡ closed
    → suc b.failure_count < b.failure_threshold
    → ((on_failure b later).state ≡ closed)
      × ((on_failure b later).failure_count ≡ suc b.failure_count)
      × ((on_failure b later).cooldown_ms ≡ b.cooldown_ms)
      × ((on_failure b later).failure_threshold ≡ b.failure_threshold)
unfolding on_failure
failure-stays b later c h = ground arith

lt-cases : (a b : ℕ) → (a < b) ⊎ (b ≤ a)
lt-cases a b = omega arith

module _ (config : RetryConfig) where
  -- What holds of a breaker and its requests all through an outage, with at most `callers` in flight.
  pub record IsBounded (t0 threshold cooldown callers : ℕ) (s : Requests) : Type 0 where
    pub counted : s.calls ≡ s.ended * limit_of config
    pub threshold_kept : s.breaker.failure_threshold ≡ threshold
    pub cooldown_kept : s.breaker.cooldown_ms ≡ cooldown
    pub status :
        ((s.breaker.state ≡ closed) × (s.ended ≡ s.breaker.failure_count) × (s.ended < threshold))
        ⊎ ((s.breaker.state ≡ opened)
            × ((t : ℕ) × (s.breaker.last_failure_time ≡ some t) × (t0 ≤ t))
            × (s.ended + s.in_flight ≤ threshold - 1 + callers))

  pub begins-IsBounded :
      (t0 threshold cooldown callers now : ℕ) (s : Requests)
      → IsBounded t0 threshold cooldown callers s
      → now < t0 + cooldown
      → IsBounded t0 threshold cooldown callers (begin_request s now)
  unfolding begin_request
  begins-IsBounded t0 threshold cooldown callers now s h early = elim h.status [
    | inl (c, n, below) ↦
        let same : begin_request s now ≡ record s { in_flight = suc s.in_flight } =
          rw (start-closed s.breaker now c, begin_request)
            (ap
              (λ (x : CircuitBreaker × Option ℤ). record s {
                breaker = x.0;
                in_flight = suc s.in_flight;
              })
              (start-closed s.breaker now c)) in
        subst (IsBounded t0 threshold cooldown callers) (sym same) (record {
          counted = h.counted;
          threshold_kept = h.threshold_kept;
          cooldown_kept = h.cooldown_kept;
          status = inl (c, n, below);
        })
    | inr (o, (t, l, le), few) ↦
        let (w, e) = start-opened s.breaker now t o l (omega (arith, h.cooldown_kept)) in
        let same : begin_request s now ≡ s =
          rw (e, begin_request)
            (ap (λ (x : CircuitBreaker × Option ℤ). record s { breaker = x.0 }) e) in
        subst (IsBounded t0 threshold cooldown callers) (sym same) h
  ]

  -- The requests after one of them has ended.
  abbrev pub after_end : Requests → ℕ → ℕ → Requests
  after_end s later n = record {
    breaker = on_failure s.breaker later;
    in_flight = n;
    ended = suc s.ended;
    calls = s.calls + limit_of config;
  }

  pub after_end-IsBounded :
      (t0 threshold cooldown callers later n : ℕ) (s : Requests)
      → IsBounded t0 threshold cooldown callers s
      → s.in_flight ≡ suc n
      → s.in_flight ≤ callers
      → t0 ≤ later
      → IsBounded t0 threshold cooldown callers (after_end s later n)
  after_end-IsBounded t0 threshold cooldown callers later n s h flying few late =
      let counted : s.calls + limit_of config ≡ suc s.ended * limit_of config =
        ap (λ x. x + limit_of config) h.counted ∙ omega arith in
      elim h.status [
        | inl (c, count, below) ↦ elim (lt-cases (suc s.ended) threshold) [
          | inl more ↦
              let (c', f, k, th) =
                failure-stays s.breaker later c (omega (arith, count, h.threshold_kept)) in
              record {
                counted = counted;
                threshold_kept = th ∙ h.threshold_kept;
                cooldown_kept = k ∙ h.cooldown_kept;
                status = inl (c', ap suc count ∙ sym f, more);
              }
          | inr last ↦
              let (o, l, k, th) =
                failure-opens s.breaker later c (omega (arith, count, h.threshold_kept)) in
              record {
                counted = counted;
                threshold_kept = th ∙ h.threshold_kept;
                cooldown_kept = k ∙ h.cooldown_kept;
                status = inr (o, (later, l, late), omega arith);
              }
        ]
        | inr (o, _, bound) ↦
            let (o', l, k, th) = opened-stays s.breaker later o in
            record {
              counted = counted;
              threshold_kept = th ∙ h.threshold_kept;
              cooldown_kept = k ∙ h.cooldown_kept;
              status = inr (o', (later, l, late), omega arith);
            }
      ]
