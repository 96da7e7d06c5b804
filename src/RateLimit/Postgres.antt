-- ===== src/RateLimit/Postgres.antt =====
-- PostgresRateLimitStore of api/src/rateLimit.ts. Its query is atomic; now() is an argument, and creating
-- the table is left out.
use stellar_analytics_dashbo.Prelude.{ℕ, ◌+◌, List, [], ◌∷◌, String, leb, if◌then◌else◌}
use stellar_analytics_dashbo.RateLimit.Entries.{Entry, has_key, fresh}

-- The row of DO UPDATE SET, with its two CASE expressions.
abbrev pub conflicting : Entry → ℕ → Entry → Entry
conflicting excluded now e = record e {
  count = if leb e.reset_at now then 1 else e.count + 1;
  reset_at = if leb e.reset_at now then excluded.reset_at else e.reset_at;
}

-- INSERT … ON CONFLICT (key) DO UPDATE … RETURNING count, reset_at.
unfoldable pub upsert : Entry → ℕ → List Entry → List Entry × Entry
upsert excluded now [] = (excluded ∷ [], excluded)
upsert excluded now (e ∷ es) =
    let (es', row) = upsert excluded now es in
    if has_key excluded.key e
    then (conflicting excluded now e ∷ es, conflicting excluded now e)
    else (e ∷ es', row)

unfoldable pub increment : String → ℕ → ℕ → List Entry → List Entry × Entry
increment key window_ms now rows = upsert (fresh key window_ms now) now rows

-- DELETE FROM api_rate_limits WHERE reset_at <= now().
unfoldable pub prune : ℕ → List Entry → List Entry
prune now [] = []
prune now (e ∷ es) = if leb e.reset_at now then prune now es else e ∷ prune now es
