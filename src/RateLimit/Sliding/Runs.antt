-- ===== src/RateLimit/Sliding/Runs.antt =====
-- Any attempts on the limiter of RateLimiter.ts, and what waiting brings.
use stellar_analytics_dashbo.Prelude.{
  ℕ, ◌+◌, ◌≤◌, ◌<◌, ◌≡◌, refl, ◌∙◌, sym, ap, subst, Option, some, List, [], ◌∷◌, ◌++◌, length,
  arith,
}
use mathlib.Core.List.{append-nil, append_assoc}
use stellar_analytics_dashbo.RateLimit.Sliding.{
  RateLimiter, Answer, allowed, waits, Clock, new, is_recent, recent, consume, granted, run,
}
use stellar_analytics_dashbo.RateLimit.Sliding.Window.{
  filter-append, IsAfter, WithinLimit, Tries, below, expired, full, Waits, Tries-Keeps,
  consume-Tries, length-recent, oldest-expires,
}

-- The clock does not go back from one attempt to the next.
abbrev pub Ascends : ℕ → List Clock → Type 0
Ascends now [] = Unit
Ascends now (c ∷ cs) = IsAfter now c × Ascends c.push_at cs

abbrev pub end_of : ℕ → List Clock → ℕ
end_of now [] = now
end_of now (c ∷ cs) = end_of c.push_at cs

end_of-le : (now : ℕ) (cs : List Clock) → Ascends now cs → now ≤ end_of now cs
end_of-le now [] h = omega arith
end_of-le now (c ∷ cs) h = omega (arith, end_of-le c.push_at cs h.1)

-- The limiter after a run is within its limit and remembers all recent requests.
record Remembers (now : ℕ) (l : RateLimiter) (cs : List Clock) : Type 0 where
  same_window : (run l cs).0.window_ms ≡ l.window_ms
  same_limit : (run l cs).0.max_requests ≡ l.max_requests
  within : WithinLimit (end_of now cs) (run l cs).0
  kept :
      (t : ℕ)
      → end_of now cs ≤ t
      → recent l.window_ms t (run l cs).0.requests
        ≡ recent l.window_ms t l.requests ++ recent l.window_ms t (run l cs).1

run-Remembers :
    (now : ℕ) (l : RateLimiter) (cs : List Clock)
    → Ascends now cs
    → WithinLimit now l
    → Remembers now l cs
unfolding run
run-Remembers now l [] h v = record {
  same_window = refl;
  same_limit = refl;
  within = v;
  kept = λ t le. sym (append-nil (recent l.window_ms t l.requests));
}
run-Remembers now l (c ∷ cs) h v =
    let k = Tries-Keeps now h.0 v (consume-Tries l c) in
    let r = run-Remembers c.push_at (consume l c).0 cs h.1 k.within in
    record {
      same_window = r.same_window ∙ k.same_window;
      same_limit = r.same_limit ∙ k.same_limit;
      within = r.within;
      kept = λ t le.
          let w = l.window_ms in
          let (l', answer) = consume l c in
          let (l'', times) = run l' cs in
          subst (λ w. recent w t l''.requests ≡ recent w t l'.requests ++ recent w t times)
            k.same_window (r.kept t le)
          ∙ ap (λ xs. xs ++ recent w t times) (k.kept t (omega (arith, end_of-le c.push_at cs h.1)))
          ∙ append_assoc (recent w t l.requests) (recent w t (granted answer c.push_at))
              (recent w t times)
          ∙ ap (λ xs. recent w t l.requests ++ xs)
              (sym (filter-append (is_recent w t) (granted answer c.push_at) times));
    }

-- Whoever attempts, while the clock does not go back: at any time after the attempts, no more of the
-- requests that a new limiter has allowed are in the window than its limit.
pub times_bounded :
    (max_requests window_ms : ℕ) (cs : List Clock) (t : ℕ)
    → Ascends 0 cs
    → end_of 0 cs ≤ t
    → length (recent window_ms t (run (new max_requests window_ms) cs).1) ≤ max_requests
unfolding new
times_bounded max_requests window_ms cs t up le =
    let l = new max_requests window_ms in
    let r = run-Remembers 0 l cs up (omega arith) in
    let requests = (run l cs).0.requests in
    let limited : length (recent window_ms (end_of 0 cs) requests) ≤ max_requests =
      subst (λ w. length (recent w (end_of 0 cs) requests) ≤ max_requests) r.same_window
        (subst (λ n. length (recent (run l cs).0.window_ms (end_of 0 cs) requests) ≤ n) r.same_limit
          r.within) in
    omega
      (arith, ap length (r.kept t le), length-recent window_ms (end_of 0 cs) t requests le, limited)

waits_injective : {t u : Option ℕ} → waits t ≡ waits u → t ≡ u
waits_injective e = cc

waits-Waits :
    {l : RateLimiter} {c : Clock} {r : RateLimiter × Answer} (d : ℕ)
    → Tries l c r
    → r.1 ≡ waits (some d)
    → (r.0 ≡ record l { requests = recent l.window_ms c.cutoff_at l.requests }) × Waits l c (some d)
waits-Waits d (below lt) e = absurd (ground arith)
waits-Waits d (expired first o gone) e = absurd (ground arith)
waits-Waits {l} {c} d (full t w) e = (refl, subst (Waits l c) (waits_injective e) w)

consume-allowed :
    (l : RateLimiter) (c : Clock)
    → length (recent l.window_ms c.cutoff_at l.requests) < l.max_requests
    → (consume l c).1 ≡ allowed
unfolding consume
consume-allowed l c lt = ground arith

-- Who has waited for the time that the limiter named is allowed at the next attempt, if none came between.
pub waited-allowed :
    (now : ℕ) (l : RateLimiter) (c c' : Clock) (d : ℕ)
    → IsAfter now c
    → WithinLimit now l
    → (consume l c).1 ≡ waits (some d)
    → c.wait_at + d ≤ c'.cutoff_at
    → (consume (consume l c).0 c').1 ≡ allowed
waited-allowed now l c c' d after within waited later =
    let (same, (first, o, ends)) = waits-Waits d (consume-Tries l c) waited in
    let rs = recent l.window_ms c.cutoff_at l.requests in
    subst (λ x. (consume x c').1 ≡ allowed) (sym same)
      (consume-allowed (record l { requests = rs }) c'
        (omega (
          arith,
          oldest-expires l.window_ms c'.cutoff_at first rs o (omega arith),
          length-recent l.window_ms now c.cutoff_at l.requests after.0,
        )))
