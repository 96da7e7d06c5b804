-- ===== src/Breaker.antt =====
-- packages/indexer/src/circuit-breaker/CircuitBreaker.ts, and its copy in
-- packages/api/src/services/circuit-breaker.ts. `Date.now()` is an argument of each method; console
-- output is left out. `execute` awaits its callback, so other calls may run between its two halves:
-- `start` is the part before the await, `settle` the part after it.
pub mod Invariant
pub mod Traces
mod Examples
use stellar_analytics_dashbo.Prelude.{
  ℕ, suc, ◌+◌, Bool, true, false, ◌&&◌, Option, none, some, List, [], ◌∷◌, String, leb,
  if◌then◌else◌, or_default,
}
use stellar_analytics_dashbo.Prelude.Int.{ℤ, sub_ℕ, ceil_div}

pub data CircuitState : Type 0 where
  closed opened half_open : CircuitState

pub record CircuitBreakerOptions : Type 0 where
  pub failure_threshold : Option ℕ
  pub cooldown_ms : Option ℕ
  pub success_threshold : Option ℕ
  pub name : Option String

pub record CircuitBreaker : Type 0 where
  pub state : CircuitState
  pub failure_count : ℕ
  pub success_count : ℕ
  pub last_failure_time : Option ℕ
  pub failure_threshold : ℕ
  pub cooldown_ms : ℕ
  pub success_threshold : ℕ
  pub name : String

-- What a call ends with: the callback's value, its error, or the breaker's own.
pub data Outcome {ℓ} (A : Type ℓ) : Type ℓ where
  value : A → Outcome A
  error : Outcome A
  circuit_open_error : ℤ → Outcome A

-- The result of the awaited callback.
pub data Reply {ℓ} (A : Type ℓ) : Type ℓ where
  resolved : A → Reply A
  rejected : Reply A

pub new : CircuitBreakerOptions → CircuitBreaker
new o = record {
  state = closed;
  failure_count = 0;
  success_count = 0;
  last_failure_time = none;
  failure_threshold = or_default o.failure_threshold 5;
  cooldown_ms = or_default o.cooldown_ms 300000;
  success_threshold = or_default o.success_threshold 2;
  name = or_default o.name "CircuitBreaker";
}

-- `Date.now() - last >= cooldownMs`, as an inequation between integers.
abbrev cooled : Option ℕ → ℕ → ℕ → Bool
cooled none cooldown now = false
cooled (some last) cooldown now = leb (last + cooldown) now

transition_at : CircuitState → CircuitBreaker → ℕ → CircuitBreaker
transition_at opened b now =
    if cooled b.last_failure_time b.cooldown_ms now
    then record b { state = half_open; success_count = 0 }
    else b
transition_at _ b now = b

unfoldable pub transition_if_needed : CircuitBreaker → ℕ → CircuitBreaker
unfolding transition_at
transition_if_needed b now = transition_at b.state b now

success_at : CircuitState → CircuitBreaker → CircuitBreaker
success_at half_open b =
    let b' = record b { success_count = suc b.success_count } in
    if leb b'.success_threshold b'.success_count
    then record b' {
      state = closed;
      failure_count = 0;
      success_count = 0;
      last_failure_time = none;
    }
    else b'
success_at _ b = record b { failure_count = 0 }

unfoldable pub on_success : CircuitBreaker → CircuitBreaker
unfolding success_at
on_success b = success_at b.state b

failure_at : CircuitState → CircuitBreaker → CircuitBreaker
failure_at half_open b = record b { state = opened; success_count = 0 }
failure_at _ b = if leb b.failure_threshold b.failure_count then record b { state = opened } else b

unfoldable pub on_failure : CircuitBreaker → ℕ → CircuitBreaker
unfolding failure_at
on_failure b now =
    failure_at b.state
      (record b { failure_count = suc b.failure_count; last_failure_time = some now })

pub reset : CircuitBreaker → CircuitBreaker
reset b = record b {
  state = closed;
  failure_count = 0;
  success_count = 0;
  last_failure_time = none;
}

pub get_state : CircuitBreaker → ℕ → CircuitBreaker × CircuitState
unfolding transition_if_needed
get_state b now = let b' = transition_if_needed b now in (b', b'.state)

-- Seconds until the next try, as the error message states them.
abbrev wait_sec : CircuitBreaker → ℕ → ℤ
wait_sec b now = ceil_div (sub_ℕ (b.cooldown_ms + or_default b.last_failure_time 0) now) 1000

-- The state decides whether the callback is called; `some w` is the thrown error.
admit : CircuitState → CircuitBreaker → ℕ → Option ℤ
admit opened b now = some (wait_sec b now)
admit _ b now = none

unfoldable pub start : CircuitBreaker → ℕ → CircuitBreaker × Option ℤ
unfolding transition_if_needed admit
start b now = let b' = transition_if_needed b now in (b', admit b'.state b' now)

unfoldable pub settle {ℓ} : {A : Type ℓ} → CircuitBreaker → ℕ → Reply A → CircuitBreaker × Outcome A
unfolding on_success on_failure
settle b now (resolved a) = (on_success b, value a)
settle b now rejected = (on_failure b now, error)

-- `execute` with no other call in between: started at `now`, settled at `later`.
pub execute {ℓ} : {A : Type ℓ} → CircuitBreaker → ℕ → ℕ → Reply A → CircuitBreaker × Outcome A
unfolding start settle
execute b now later reply =
    let (b', refused) = start b now in
    elim refused [ some w ↦ (b', circuit_open_error w) | none ↦ settle b' later reply ]

-- What may happen to a breaker, in any order: calls in flight settle when they will.
pub data Event : Type 0 where
  begins : ℕ → Event
  succeeds : Event
  fails : ℕ → Event
  resets : Event
  reads_state : ℕ → Event

pub step : CircuitBreaker → Event → CircuitBreaker
unfolding start on_success on_failure reset get_state
step b (begins now) = (start b now).0
step b succeeds = on_success b
step b (fails now) = on_failure b now
step b resets = reset b
step b (reads_state now) = (get_state b now).0

unfoldable pub run : CircuitBreaker → List Event → CircuitBreaker
run b [] = b
run b (e ∷ es) = run (step b e) es
