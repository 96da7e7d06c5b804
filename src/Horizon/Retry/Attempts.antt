-- ===== src/Horizon/Retry/Attempts.antt =====
-- The loop of retryWithBackoff ends, calls no more than it may, and sleeps no longer than it may.
use stellar_analytics_dashbo.Prelude.{
  ℕ, zero, suc, ◌+◌, ◌-◌, ◌*◌, ◌/◌, ◌^◌, ◌≤◌, ◌<◌, ◌≡◌, ◌⊎◌, inl, inr, refl, subst, ◌∙◌, ap, ◌==◌,
  true, false, Option, some, [], ◌∷◌, leb, length, All, min, max, arith, Bool-cases,
}
use native.Mathlib.Nat.{mul-lt-mul_of_pos_right, div-lt_iff_lt-mul}
use stellar_analytics_dashbo.Horizon.Errors.{
  RetryConfig, Thrown, is_transient_error, calculate_backoff_ms,
}
use stellar_analytics_dashbo.Horizon.Retry.{
  Ended, returned, thrown, Retried, after_failure, retry_from, retry_with_backoff, slept_first,
}

abbrev pub IsTransient : {T : Type 0} → Ended T → Type 0
IsTransient (returned v) = ⊥
IsTransient (thrown e) = is_transient_error e ≡ true

-- A last call: one that returned, failed for good, or was the last that is allowed.
abbrev pub IsLast : {T : Type 0} → ℕ → ℕ → Ended T → Type 0
IsLast limit calls (returned v) = Unit
IsLast limit calls (thrown e) = (is_transient_error e ≡ false) ⊎ (calls ≡ limit)

-- The attempts that a configuration allows: the first is made in any case.
abbrev pub limit_of : RetryConfig → ℕ
limit_of config = max config.max_attempts 1

mul_div-le : (draw c : ℕ) → draw < 2 ^ 53 → draw * (c + 1) / 2 ^ 53 ≤ c
mul_div-le draw c h =
    let small : draw * (c + 1) < 2 ^ 53 * (c + 1) =
      mul-lt-mul_of_pos_right {k = c + 1} h (omega arith) in
    let below : draw * (c + 1) / 2 ^ 53 < c + 1 =
      (div-lt_iff_lt-mul {k = 2 ^ 53} {x = draw * (c + 1)} {y = c + 1} (omega arith)).1
        (omega arith) in
    omega arith

-- Whatever the draw, the delay is at most the cap.
pub calculate_backoff_ms-le :
    (attempt : ℕ) (config : RetryConfig) (draw : ℕ)
    → draw < 2 ^ 53
    → calculate_backoff_ms attempt config draw ≤ config.max_delay_ms
unfolding calculate_backoff_ms
calculate_backoff_ms-le attempt config draw h =
    ground (arith, mul_div-le draw (min (config.base_delay_ms * 2 ^ attempt) config.max_delay_ms) h)

module _ {T : Type 0} (config : RetryConfig) (fn : ℕ → Ended T) (draws : ℕ → ℕ)
    (small : (n : ℕ) → draws n < 2 ^ 53) where
  -- What the loop gives from an attempt on.
  pub record IsProper (attempt : ℕ) (r : Retried T) : Type 0 where
    pub more : attempt < r.calls
    pub within : r.calls ≤ limit_of config
    pub slept_between : length r.slept + suc attempt ≡ r.calls
    pub slept_short : All (λ d. d ≤ config.max_delay_ms) r.slept
    pub failed : (i : ℕ) → attempt ≤ i → suc i < r.calls → IsTransient (fn i)
    pub last : fn (r.calls - 1) ≡ r.result
    pub ended : IsLast (limit_of config) r.calls r.result

  stops :
      (attempt : ℕ) (err : Thrown) (again : Option (Retried T))
      → (is_transient_error err ≡ false) ⊎ (config.max_attempts ≤ suc attempt)
      → after_failure config fn draws (suc attempt) err again
        ≡ some (record { calls = suc attempt; slept = []; result = thrown err })
  unfolding after_failure
  stops attempt err again end = ground arith

  goes_on :
      (attempt : ℕ) (err : Thrown) (again : Option (Retried T))
      → is_transient_error err ≡ true
      → suc attempt < config.max_attempts
      → after_failure config fn draws (suc attempt) err again
        ≡ slept_first (calculate_backoff_ms (suc attempt) config (draws (suc attempt))) again
  unfolding after_failure
  goes_on attempt err again transient more = ground arith

  last_ended :
      (calls : ℕ) (err : Thrown)
      → 0 < calls
      → calls ≤ limit_of config
      → (is_transient_error err ≡ false) ⊎ (config.max_attempts ≤ calls)
      → IsLast {T = T} (limit_of config) calls (thrown err)
  last_ended calls err one within (inl p) = inl p
  last_ended calls err one within (inr h) = inr (omega arith)

  call-returned :
      (fuel attempt : ℕ) (v : T)
      → fn attempt ≡ returned v
      → attempt < limit_of config
      → (r : Retried T) × (retry_from config fn draws (suc fuel) attempt ≡ some r)
        × IsProper attempt r
  unfolding retry_from
  call-returned fuel attempt v e below = (
    record { calls = suc attempt; slept = []; result = returned v },
    rw (e, retry_from) refl,
    record {
      more = omega arith;
      within = omega arith;
      slept_between = omega arith;
      slept_short = tt;
      failed = λ i a b. absurd (omega arith);
      last = let at : suc attempt - 1 ≡ attempt = omega arith in rw at e;
      ended = tt;
    },
  )

  call-last :
      (fuel attempt : ℕ) (err : Thrown)
      → fn attempt ≡ thrown err
      → attempt < limit_of config
      → (is_transient_error err ≡ false) ⊎ (config.max_attempts ≤ suc attempt)
      → (r : Retried T) × (retry_from config fn draws (suc fuel) attempt ≡ some r)
        × IsProper attempt r
  unfolding retry_from
  call-last fuel attempt err e below end = (
    record { calls = suc attempt; slept = []; result = thrown err },
    rw (e, retry_from) (stops attempt err (retry_from config fn draws fuel (suc attempt)) end),
    record {
      more = omega arith;
      within = omega arith;
      slept_between = omega arith;
      slept_short = tt;
      failed = λ i a b. absurd (omega arith);
      last = let at : suc attempt - 1 ≡ attempt = omega arith in rw at e;
      ended = last_ended (suc attempt) err (omega arith) (omega arith) end;
    },
  )

  call-again :
      (fuel attempt : ℕ) (err : Thrown)
      → fn attempt ≡ thrown err
      → is_transient_error err ≡ true
      → suc attempt < config.max_attempts
      → (r : Retried T) × (retry_from config fn draws fuel (suc attempt) ≡ some r)
        × IsProper (suc attempt) r
      → (r : Retried T) × (retry_from config fn draws (suc fuel) attempt ≡ some r)
        × IsProper attempt r
  unfolding retry_from
  call-again fuel attempt err e transient more (r, ran, p) =
      let d = calculate_backoff_ms (suc attempt) config (draws (suc attempt)) in
      (
        record r { slept = d ∷ r.slept },
        rw (e, retry_from)
            (goes_on attempt err (retry_from config fn draws fuel (suc attempt)) transient more
              ∙ ap (slept_first d) ran),
        record {
          more = omega (arith, p.more);
          within = p.within;
          slept_between = omega (arith, p.slept_between);
          slept_short = (
            calculate_backoff_ms-le (suc attempt) config (draws (suc attempt))
                (small (suc attempt)),
            p.slept_short,
          );
          failed = λ i a b. elim (Bool-cases (attempt == i)) [
            | inl here ↦
                let at : attempt ≡ i = ground arith in
                subst (λ k. IsTransient (fn k)) at (rw e transient)
            | inr later ↦ p.failed i (ground arith) b
          ];
          last = p.last;
          ended = p.ended;
        },
      )

  call :
      (fuel attempt : ℕ) (end : Ended T)
      → fn attempt ≡ end
      → attempt < limit_of config
      → (suc attempt < limit_of config
          → (r : Retried T) × (retry_from config fn draws fuel (suc attempt) ≡ some r)
            × IsProper (suc attempt) r)
      → (r : Retried T) × (retry_from config fn draws (suc fuel) attempt ≡ some r)
        × IsProper attempt r
  call fuel attempt (returned v) e below again = call-returned fuel attempt v e below
  call fuel attempt (thrown err) e below again = elim (Bool-cases (is_transient_error err)) [
    | inr permanent ↦ call-last fuel attempt err e below (inl permanent)
    | inl transient ↦ elim (Bool-cases (leb config.max_attempts (suc attempt))) [
      | inl exhausted ↦ call-last fuel attempt err e below (inr (ground arith))
      | inr more ↦ call-again fuel attempt err e transient (ground arith) (again (ground arith))
    ]
  ]

  -- The loop from an attempt on, with the last one told apart.
  retry_from-IsProper :
      (fuel attempt : ℕ)
      → attempt < limit_of config
      → limit_of config ≤ attempt + fuel
      → (r : Retried T) × (retry_from config fn draws fuel attempt ≡ some r) × IsProper attempt r
  retry_from-IsProper zero attempt below enough = absurd (omega arith)
  retry_from-IsProper (suc fuel) attempt below enough =
      call fuel attempt (fn attempt) refl below
        (λ more. retry_from-IsProper fuel (suc attempt) more (omega arith))

  -- The loop ends. It has called the callback at most as often as is allowed, once at least; each call
  -- but the last failed for a passing reason, and was followed by a sleep no longer than the cap; the
  -- last is what the caller gets, and it returned, failed for good, or was the last that is allowed. The random draws are below 2 ^ 53.
  pub retry_with_backoff-IsProper :
      (r : Retried T) × (retry_with_backoff config fn draws ≡ some r) × IsProper 0 r
  unfolding retry_with_backoff
  retry_with_backoff-IsProper =
      retry_from-IsProper (suc config.max_attempts) 0 (omega arith) (omega arith)
