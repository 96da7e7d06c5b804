-- ===== src/RateLimit/Examples.antt =====
-- Runs of RateLimiter.ts and of api/src/rateLimit.ts, and their theorems at concrete inputs.
use stellar_analytics_dashbo.Prelude.{
  ℕ, suc, ◌≤◌, ◌≡◌, refl, true, some, List, [], ◌∷◌, length, min, arith,
}
use stellar_analytics_dashbo.Prelude.Int.{ceil_div}
use stellar_analytics_dashbo.RateLimit.Sliding.{
  RateLimiter, waits, Clock, new, recent, consume, run, wait_or_push,
}
use stellar_analytics_dashbo.RateLimit.Sliding.Runs.{times_bounded}
use stellar_analytics_dashbo.RateLimit.Entries.{Entry, set_entry}
use stellar_analytics_dashbo.RateLimit.Memory
use stellar_analytics_dashbo.RateLimit.Fixed
use stellar_analytics_dashbo.RateLimit.Fixed.{
  memory, postgres, check_rate_limit, Op, checks, prunes, rate_limit_headers,
}
use stellar_analytics_dashbo.RateLimit.Fixed.Agreement.{run-run}
use stellar_analytics_dashbo.RateLimit.Fixed.Budget.{allowed_of, requests_of}
use stellar_analytics_dashbo.RateLimit.Fixed.Clients.{window_budget, retry_after-allowed}

abbrev at : ℕ → Clock
at t = record { cutoff_at = t; wait_at = t; push_at = t }

-- Two requests in a window of 100; the third attempt waits.
abbrev attempts : List Clock
attempts = at 5 ∷ at 20 ∷ at 50 ∷ at 106 ∷ []

attempts_run : (run (new 2 100) attempts).1 ≡ 5 ∷ 20 ∷ 106 ∷ []
unfolding run consume wait_or_push new
attempts_run = refl

times_bounded_example : length (recent 100 106 (run (new 2 100) attempts).1) ≤ 2
times_bounded_example = times_bounded 2 100 attempts 106 (omega arith) (omega arith)

abbrev full : RateLimiter
full = record { max_requests = 2; window_ms = 100; requests = 5 ∷ 20 ∷ [] }

full_waits : (consume full (at 50)).1 ≡ waits (some 55)
unfolding consume wait_or_push
full_waits = refl

-- A client at its second request of one that is allowed, with another client in between.
abbrev ops : List Op
ops = checks "other" 10 ∷ checks "client" 20 ∷ prunes 30 ∷ []

run-run_example : Fixed.run memory 1 1000 ops [] ≡ Fixed.run postgres 1 1000 ops []
run-run_example = run-run 1 1000 ops []

window_budget_example :
    allowed_of "client" (Fixed.run postgres 1 1000 (checks "client" 5 ∷ ops) []).1
    ≡ min 1 (suc (requests_of "client" ops))
window_budget_example = window_budget 1 1000 "client" 5 ops [] refl (omega arith)

abbrev spent : List Entry
spent = record { key = "client"; count = 1; reset_at = 1005 } ∷ []

spent_header :
    (rate_limit_headers (check_rate_limit memory "client" 1 1000 20 spent).1 20).retry_after
    ≡ some 1
unfolding rate_limit_headers check_rate_limit Memory.increment Memory.increment_at set_entry
    ceil_div
spent_header = refl

retry_after-allowed_example :
    (check_rate_limit memory "client" 1 1000 1020
      (Fixed.run memory 1 1000
        (checks "other" 30 ∷ [])
        (check_rate_limit memory "client" 1 1000 20 spent).0).0).1.allowed
    ≡ true
retry_after-allowed_example =
    retry_after-allowed 1 1000 "client" 20 20 1020 1 (checks "other" 30 ∷ []) spent (omega arith)
      spent_header (omega arith) (refl, tt)
