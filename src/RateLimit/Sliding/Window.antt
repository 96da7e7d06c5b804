-- ===== src/RateLimit/Sliding/Window.antt =====
-- The limiter of RateLimiter.ts never allows more requests in a window than its limit.
use stellar_analytics_dashbo.Prelude.{
  ℕ, suc, ◌+◌, ◌-◌, ◌≤◌, ◌<◌, ◌≡◌, refl, ◌∙◌, sym, ap, Bool, Option, none, some, List, [], ◌∷◌,
  ◌++◌, ltb, leb, length, length-append, filter, arith, Bool-cases, Option-cases, inl, inr,
}
use mathlib.Core.List.{append-nil}
use stellar_analytics_dashbo.RateLimit.Sliding.{
  RateLimiter, Answer, allowed, waits, Clock, is_recent, recent, oldest, pushed, wait_or_push,
  consume, granted,
}

pub filter-append :
    (p : ℕ → Bool) (xs ys : List ℕ) → filter p (xs ++ ys) ≡ filter p xs ++ filter p ys
filter-append p [] ys = refl
filter-append p (x ∷ xs) ys = elim (Bool-cases (p x)) [
  | inl e ↦ rw e (ap (λ zs. x ∷ zs) (filter-append p xs ys))
  | inr e ↦ rw e (filter-append p xs ys)
]

pub recent-recent :
    (w now t : ℕ) (xs : List ℕ) → now ≤ t → recent w t (recent w now xs) ≡ recent w t xs
recent-recent w now t [] h = refl
recent-recent w now t (x ∷ xs) h = ground (arith, recent-recent w now t xs h)

pub length-recent :
    (w now t : ℕ) (xs : List ℕ) → now ≤ t → length (recent w t xs) ≤ length (recent w now xs)
length-recent w now t [] h = omega arith
length-recent w now t (x ∷ xs) h = ground (arith, length-recent w now t xs h)

pub length-recent-le : (w t : ℕ) (xs : List ℕ) → length (recent w t xs) ≤ length xs
length-recent-le w t [] = omega arith
length-recent-le w t (x ∷ xs) = ground (arith, length-recent-le w t xs)

-- Once the oldest request is out of the window, fewer are in it.
pub oldest-expires :
    (w t first : ℕ) (xs : List ℕ)
    → oldest xs ≡ some first
    → first + w ≤ t
    → length (recent w t xs) < length xs
oldest-expires w t first [] e h = cc
oldest-expires w t first (x ∷ xs) e h =
    ground (arith, Option-cases (oldest xs), length-recent-le w t xs, oldest-expires w t first xs)

-- The clock does not go back.
abbrev pub IsAfter : ℕ → Clock → Type 0
IsAfter now c = (now ≤ c.cutoff_at) × (c.cutoff_at ≤ c.wait_at) × (c.wait_at ≤ c.push_at)

-- The time to wait ends as the oldest request leaves the window.
abbrev pub Waits : RateLimiter → Clock → Option ℕ → Type 0
Waits l c none = Unit
Waits l c (some d) =
    (first : ℕ) × (oldest (recent l.window_ms c.cutoff_at l.requests) ≡ some first)
    × (first + l.window_ms ≡ c.wait_at + d)

-- What an attempt does: whether it pushed a request, where the limit lets it, or only dropped old ones.
pub data Tries (l : RateLimiter) (c : Clock) : RateLimiter × Answer → Type 0 where
  below :
      length (recent l.window_ms c.cutoff_at l.requests) < l.max_requests
      → Tries l c (
        pushed (record l { requests = recent l.window_ms c.cutoff_at l.requests }) c.push_at,
        allowed,
      )
  expired :
      (first : ℕ)
      → oldest (recent l.window_ms c.cutoff_at l.requests) ≡ some first
      → first + l.window_ms ≤ c.wait_at
      → Tries l c (
        pushed (record l { requests = recent l.window_ms c.cutoff_at l.requests }) c.push_at,
        allowed,
      )
  full :
      (t : Option ℕ)
      → Waits l c t
      → Tries l c (record l { requests = recent l.window_ms c.cutoff_at l.requests }, waits t)

wait_or_push-Tries :
    (l : RateLimiter) (c : Clock) (o : Option ℕ)
    → oldest (recent l.window_ms c.cutoff_at l.requests) ≡ o
    → Tries l c
        (wait_or_push (record l { requests = recent l.window_ms c.cutoff_at l.requests }) c o)
unfolding wait_or_push
wait_or_push-Tries l c none e = full none tt
wait_or_push-Tries l c (some first) e = elim (Bool-cases (ltb c.wait_at (first + l.window_ms))) [
  | inl wait ↦ rw wait (full (some (first + l.window_ms - c.wait_at)) (first, e, ground arith))
  | inr go ↦ rw go (expired first e (ground arith))
]

pub consume-Tries : (l : RateLimiter) (c : Clock) → Tries l c (consume l c)
unfolding consume
consume-Tries l c =
    elim (Bool-cases (leb l.max_requests (length (recent l.window_ms c.cutoff_at l.requests)))) [
      | inl e ↦ rw (e, consume) (wait_or_push-Tries l c _ refl)
      | inr e ↦ rw (e, consume) (below (ground arith))
    ]

-- The limit holds at `now`.
abbrev pub WithinLimit : ℕ → RateLimiter → Type 0
WithinLimit now l = length (recent l.window_ms now l.requests) ≤ l.max_requests

-- An attempt keeps the limit, and all that is recent of the requests before and its own.
pub record Keeps (l : RateLimiter) (c : Clock) (r : RateLimiter × Answer) : Type 0 where
  pub same_window : r.0.window_ms ≡ l.window_ms
  pub same_limit : r.0.max_requests ≡ l.max_requests
  pub within : WithinLimit c.push_at r.0
  pub kept :
      (t : ℕ)
      → c.push_at ≤ t
      → recent l.window_ms t r.0.requests
        ≡ recent l.window_ms t l.requests ++ recent l.window_ms t (granted r.1 c.push_at)

length-pushed :
    (w t n : ℕ) (xs : List ℕ) → length (recent w t (xs ++ n ∷ [])) ≤ suc (length (recent w t xs))
length-pushed w t n xs =
    rw
      (
        filter-append (is_recent w t) xs (n ∷ []),
        length-append (recent w t xs) (recent w t (n ∷ [])),
      )
      (ground arith)

pushed-Keeps :
    (l : RateLimiter) (c : Clock)
    → c.cutoff_at ≤ c.push_at
    → length (recent l.window_ms c.push_at (recent l.window_ms c.cutoff_at l.requests))
      < l.max_requests
    → Keeps l c (
      pushed (record l { requests = recent l.window_ms c.cutoff_at l.requests }) c.push_at,
      allowed,
    )
pushed-Keeps l c h lt = record {
  same_window = refl;
  same_limit = refl;
  within = omega (
    arith,
    length-pushed l.window_ms c.push_at c.push_at (recent l.window_ms c.cutoff_at l.requests),
  );
  kept = λ t le.
      filter-append (is_recent l.window_ms t) (recent l.window_ms c.cutoff_at l.requests)
        (c.push_at ∷ [])
      ∙ rw (recent-recent l.window_ms c.cutoff_at t l.requests (omega arith)) refl;
}

pub Tries-Keeps :
    (now : ℕ) {l : RateLimiter} {c : Clock} {r : RateLimiter × Answer}
    → IsAfter now c
    → WithinLimit now l
    → Tries l c r
    → Keeps l c r
Tries-Keeps now {l} {c} after within (below lt) = pushed-Keeps l c (omega arith) (
    omega
      (arith, length-recent-le l.window_ms c.push_at (recent l.window_ms c.cutoff_at l.requests)))
Tries-Keeps now {l} {c} after within (expired first e gone) = pushed-Keeps l c (omega arith) (
    omega (
      arith,
      length-recent l.window_ms now c.cutoff_at l.requests after.0,
      oldest-expires l.window_ms c.push_at first (recent l.window_ms c.cutoff_at l.requests) e
          (omega arith),
    ))
Tries-Keeps now {l} {c} after within (full t wait) = record {
  same_window = refl;
  same_limit = refl;
  within = omega (
    arith,
    length-recent-le l.window_ms c.push_at (recent l.window_ms c.cutoff_at l.requests),
    length-recent l.window_ms now c.cutoff_at l.requests after.0,
  );
  kept = λ t le.
      recent-recent l.window_ms c.cutoff_at t l.requests (omega arith)
      ∙ sym (append-nil (recent l.window_ms t l.requests));
}
