-- ===== src/RateLimit/Sliding.antt =====
-- packages/indexer/src/rate-limiter/RateLimiter.ts. `consume` awaits nothing between its look at the
-- requests and its push, and starts again after it has waited; an attempt is one such pass. Its three
-- readings of the clock are arguments. What waits for ever, as no request is there, is `waits none`.
pub mod Window
pub mod Runs
use stellar_analytics_dashbo.Prelude.{
  ℕ, zero, suc, ◌+◌, ◌-◌, Bool, true, false, Option, none, some, List, [], ◌∷◌, ◌++◌, ltb, leb,
  if◌then◌else◌, length, filter, min,
}

pub record RateLimiter : Type 0 where
  pub max_requests : ℕ
  pub window_ms : ℕ
  pub requests : List ℕ

unfoldable pub new : ℕ → ℕ → RateLimiter
new max_requests window_ms = record {
  max_requests = max_requests;
  window_ms = window_ms;
  requests = [];
}

pub data Answer : Type 0 where
  allowed : Answer
  waits : Option ℕ → Answer

-- The readings of `Date.now()`: for the cutoff, for the time to wait, and for the request.
pub record Clock : Type 0 where
  pub cutoff_at : ℕ
  pub wait_at : ℕ
  pub push_at : ℕ

-- `timestamp > now - windowMs`.
abbrev pub is_recent : ℕ → ℕ → ℕ → Bool
is_recent window_ms now timestamp = ltb now (timestamp + window_ms)

abbrev pub recent : ℕ → ℕ → List ℕ → List ℕ
recent window_ms now = filter (is_recent window_ms now)

-- `Math.min(...requests)`, which is infinite on no requests.
abbrev pub oldest : List ℕ → Option ℕ
oldest [] = none
oldest (t ∷ ts) = elim (oldest ts) [ none ↦ some t | some u ↦ some (min t u) ]

abbrev pub pushed : RateLimiter → ℕ → RateLimiter
pushed l now = record l { requests = l.requests ++ now ∷ [] }

-- `windowMs - (Date.now() - oldestRequest)`, as far as it is positive.
unfoldable pub wait_or_push : RateLimiter → Clock → Option ℕ → RateLimiter × Answer
wait_or_push l c none = (l, waits none)
wait_or_push l c (some first) =
    if ltb c.wait_at (first + l.window_ms)
    then (l, waits (some (first + l.window_ms - c.wait_at)))
    else (pushed l c.push_at, allowed)

unfoldable pub consume : RateLimiter → Clock → RateLimiter × Answer
unfolding wait_or_push
consume l c =
    let l' = record l { requests = recent l.window_ms c.cutoff_at l.requests } in
    if leb l'.max_requests (length l'.requests)
    then wait_or_push l' c (oldest l'.requests)
    else (pushed l' c.push_at, allowed)

-- `requestsInWindow` of getStats.
unfoldable pub requests_in_window : RateLimiter → ℕ → ℕ
requests_in_window l now = length (recent l.window_ms now l.requests)

abbrev pub granted : Answer → ℕ → List ℕ
granted allowed now = now ∷ []
granted (waits t) now = []

-- The limiter after attempts of any callers, and the times of the requests that it allowed.
unfoldable pub run : RateLimiter → List Clock → RateLimiter × List ℕ
run l [] = (l, [])
run l (c ∷ cs) =
    let (l', answer) = consume l c in
    let (l'', times) = run l' cs in (l'', granted answer c.push_at ++ times)
