-- ===== src/Breaker/Traces.antt =====
-- How the circuit of CircuitBreaker.ts opens, refuses calls, and closes again.
use stellar_analytics_dashbo.Prelude.{
  ℕ, zero, suc, ◌+◌, ◌-◌, ◌*◌, ◌/◌, ◌≤◌, ◌<◌, ◌≡◌, refl, sym, subst, ◌⊎◌, ◌≢◌, none, some,
  if◌then◌else◌, leb, List, [], ◌∷◌, map, arith, length, All, replicate,
}
use stellar_analytics_dashbo.Prelude.Int.{pos, ceil_div}
use stellar_analytics_dashbo.Breaker.{
  closed, opened, half_open, CircuitBreaker, begins, Reply, circuit_open_error, succeeds, fails,
  step, run, start, execute, settle, transition_if_needed, wait_sec,
}
use stellar_analytics_dashbo.Breaker.Invariant.{IsValid}

step_fail_closed :
    (b : CircuitBreaker) (t : ℕ)
    → b.state ≡ closed
    → suc b.failure_count < b.failure_threshold
    → (step b (fails t)).state ≡ closed
unfolding step
step_fail_closed b t c h = ground arith

step_fail_counts :
    (b : CircuitBreaker) (t : ℕ)
    → ((step b (fails t)).failure_count ≡ suc b.failure_count)
      × ((step b (fails t)).failure_threshold ≡ b.failure_threshold)
      × ((step b (fails t)).last_failure_time ≡ some t)
unfolding step
step_fail_counts b t = ground arith

step_fail_opens :
    (b : CircuitBreaker) (t : ℕ)
    → b.failure_threshold ≤ suc b.failure_count
    → (step b (fails t)).state ≡ opened
unfolding step
step_fail_opens b t h = ground arith

fails_open :
    (b : CircuitBreaker) (ts : List ℕ)
    → b.state ≡ opened
    → b.failure_threshold ≤ b.failure_count
    → (run b (map fails ts)).state ≡ opened
unfolding run
fails_open b [] o h = o
fails_open b (t ∷ ts) o h =
    let c = step_fail_counts b t in
    fails_open (step b (fails t)) ts (step_fail_opens b t (omega arith)) (omega (arith, c))

-- From a closed circuit below its threshold, a run of failures with no success in between opens the
-- circuit exactly when it brings the failure count up to the threshold, and leaves it closed before.
pub fails-state :
    (b : CircuitBreaker) (ts : List ℕ)
    → b.state ≡ closed
    → b.failure_count < b.failure_threshold
    → (run b (map fails ts)).state
      ≡ (if leb b.failure_threshold (b.failure_count + length ts) then opened else closed)
unfolding run
fails-state b [] c h = ground arith
fails-state b (t ∷ ts) c h = ground (
  arith,
  step_fail_counts b t,
  step_fail_closed b t c,
  step_fail_opens b t,
  fails_open (step b (fails t)) ts,
  fails-state (step b (fails t)) ts,
)

-- A circuit that opened at `t` refuses every call before its cooldown is over, without calling the
-- callback and without changing, and the seconds it names are the remaining time rounded up.
pub start_cooling :
    (b : CircuitBreaker) (t now : ℕ)
    → b.state ≡ opened
    → b.last_failure_time ≡ some t
    → now < t + b.cooldown_ms
    → (w : ℕ) × (start b now ≡ (b, some (pos w)))
      × (t + b.cooldown_ms ≤ now + w * 1000)
      × (now + w * 1000 < t + b.cooldown_ms + 1000)
unfolding start ceil_div
start_cooling b t now o l h =
    ((b.cooldown_ms + t - now + 999) / 1000, ground arith, omega arith, omega arith)

-- What `execute` does on every branch: while the circuit is open and not cooled down the callback's
-- reply is ignored and the error thrown; otherwise the caller gets the reply and it is counted.
pub execute_cases {ℓ} :
    {A : Type ℓ} (b : CircuitBreaker) (now later : ℕ) (reply : Reply A)
    → let b' = transition_if_needed b now in
      ((b'.state ≡ opened)
        × (execute b now later reply ≡ (b', circuit_open_error (wait_sec b' now))))
      ⊎ ((b'.state ≢ opened) × (execute b now later reply ≡ settle b' later reply))
unfolding execute
execute_cases b now later reply = ground arith

step_succeeds_more :
    (b : CircuitBreaker)
    → b.state ≡ half_open
    → suc b.success_count < b.success_threshold
    → step b succeeds ≡ record b { success_count = suc b.success_count }
unfolding step
step_succeeds_more b s h = ground arith

abbrev IsReclosed : CircuitBreaker → Type 0
IsReclosed b = (b.state ≡ closed) × (b.failure_count ≡ 0) × (b.last_failure_time ≡ none)

step_succeeds_last :
    (b : CircuitBreaker)
    → b.state ≡ half_open
    → suc b.success_count ≡ b.success_threshold
    → IsReclosed (step b succeeds)
unfolding step
step_succeeds_last b s h = ground arith

probe_run :
    (m : ℕ) (b : CircuitBreaker)
    → b.state ≡ half_open
    → b.success_count + suc m ≡ b.success_threshold
    → IsReclosed (run b (replicate (suc m) succeeds))
unfolding run
probe_run zero b s e = step_succeeds_last b s (omega arith)
probe_run (suc m) b s e =
    let more = step_succeeds_more b s (omega arith) in
    subst (λ x. IsReclosed (run x (replicate (suc m) succeeds))) (sym more)
      (probe_run m (record b { success_count = suc b.success_count }) s (omega arith))

begins_cooled :
    (b : CircuitBreaker) (t now : ℕ)
    → b.state ≡ opened
    → b.last_failure_time ≡ some t
    → t + b.cooldown_ms ≤ now
    → step b (begins now) ≡ record b { state = half_open; success_count = 0 }
unfolding step
begins_cooled b t now o l h = ground arith

-- Once the cooldown is over, a probe call and as many successes as the threshold asks for close the
-- circuit and clear its failure count: an open circuit is never stuck.
pub opened_recovers :
    (b : CircuitBreaker) (t now : ℕ)
    → IsValid b
    → b.state ≡ opened
    → b.last_failure_time ≡ some t
    → t + b.cooldown_ms ≤ now
    → let b' = run b (begins now ∷ replicate b.success_threshold succeeds) in
      (b'.state ≡ closed) × (b'.failure_count ≡ 0) × (b'.last_failure_time ≡ none)
unfolding run
opened_recovers b t now v o l h =
    let probe = record b { state = half_open; success_count = 0 } in
    let positive : b.success_threshold ≡ suc (b.success_threshold - 1) = omega arith in
    let closes = probe_run (b.success_threshold - 1) probe refl (omega arith) in
    subst (λ x. IsReclosed (run x (replicate b.success_threshold succeeds)))
      (sym (begins_cooled b t now o l h))
      (subst (λ k. IsReclosed (run probe (replicate k succeeds))) (sym positive) closes)

-- While half open the circuit admits every call that comes, however many.
pub half_open-begins :
    (b : CircuitBreaker) (nows : List ℕ)
    → b.state ≡ half_open
    → All (λ now. start b now ≡ (b, none)) nows
half_open-begins b [] h = tt
half_open-begins b (now ∷ nows) h = (unfold start in ground arith, half_open-begins b nows h)

-- A failure while half open opens the circuit at once, whatever the failure threshold, and the
-- cooldown starts again.
pub half_open_fails :
    (b : CircuitBreaker) (t now : ℕ)
    → b.state ≡ half_open
    → now < t + b.cooldown_ms
    → let b' = step b (fails t) in (b'.state ≡ opened) × ((start b' now).1 ≢ none)
unfolding step start
half_open_fails b t now h l = ground arith
