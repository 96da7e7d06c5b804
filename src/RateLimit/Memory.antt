-- ===== src/RateLimit/Memory.antt =====
-- MemoryRateLimitStore of api/src/rateLimit.ts; `Date.now()` is an argument.
use stellar_analytics_dashbo.Prelude.{
  ℕ, suc, not, Option, none, some, List, String, leb, if◌then◌else◌, find, filter,
}
use stellar_analytics_dashbo.RateLimit.Entries.{Entry, has_key, set_entry, fresh}

unfoldable pub increment_at : String → ℕ → ℕ → List Entry → Option Entry → List Entry × Entry
increment_at key window_ms now records none =
    (set_entry (fresh key window_ms now) records, fresh key window_ms now)
increment_at key window_ms now records (some e) =
    let e' = record e { count = suc e.count } in
    if leb e.reset_at now
    then (set_entry (fresh key window_ms now) records, fresh key window_ms now)
    else (set_entry e' records, e')

unfoldable pub increment : String → ℕ → ℕ → List Entry → List Entry × Entry
increment key window_ms now records =
    increment_at key window_ms now records (find (has_key key) records)

unfoldable pub prune : ℕ → List Entry → List Entry
prune now = filter (λ e. not (leb e.reset_at now))
