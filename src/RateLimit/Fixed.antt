-- ===== src/RateLimit/Fixed.antt =====
-- api/src/rateLimit.ts: a client's request is checked against a store of either kind.
pub mod Agreement
pub mod Budget
pub mod Clients
use stellar_analytics_dashbo.Prelude.{
  ℕ, suc, ◌+◌, ◌-◌, ◌/◌, Bool, true, false, not, Option, none, some, List, [], ◌∷◌, ◌++◌, String,
  ltb, leb, if◌then◌else◌, find, any, filter, map,
}
use stellar_analytics_dashbo.Prelude.Int.{ℤ, pos_part, sub_ℕ, ceil_div}
use stellar_analytics_dashbo.Prelude.Text.{str_eq}
use stellar_analytics_dashbo.RateLimit.Entries.{Entry}
use stellar_analytics_dashbo.RateLimit.Memory
use stellar_analytics_dashbo.RateLimit.Postgres

pub record RateLimitResult : Type 0 where
  pub allowed : Bool
  pub limit : ℕ
  pub remaining : ℕ
  pub reset_at : ℕ

-- RateLimitStore.
pub record RateLimitStore : Type 0 where
  pub increment : String → ℕ → ℕ → List Entry → List Entry × Entry
  pub prune : ℕ → List Entry → List Entry

abbrev pub memory : RateLimitStore
memory = record { increment = Memory.increment; prune = Memory.prune }

abbrev pub postgres : RateLimitStore
postgres = record { increment = Postgres.increment; prune = Postgres.prune }

unfoldable pub check_rate_limit :
    RateLimitStore → String → ℕ → ℕ → ℕ → List Entry → List Entry × RateLimitResult
check_rate_limit store key max window_ms now entries =
    let (entries', e) = store.increment key window_ms now entries in
    (
      entries',
      record {
        allowed = leb e.count max;
        limit = max;
        remaining = max - e.count;
        reset_at = e.reset_at;
      },
    )

-- The headers; Retry-After only on a rejection.
pub record Headers : Type 0 where
  pub rate_limit_limit : ℕ
  pub rate_limit_remaining : ℕ
  pub rate_limit_reset : ℕ
  pub retry_after : Option ℕ

unfoldable pub rate_limit_headers : RateLimitResult → ℕ → Headers
rate_limit_headers result now =
    let reset_seconds = pos_part (ceil_div (sub_ℕ result.reset_at now) 1000) in
    record {
      rate_limit_limit = result.limit;
      rate_limit_remaining = result.remaining;
      rate_limit_reset = reset_seconds;
      retry_after = if result.allowed then none else some reset_seconds;
    }

-- What the API does with a store: it checks a client's request, or prunes.
pub data Op : Type 0 where
  checks : String → ℕ → Op
  prunes : ℕ → Op

module _ (store : RateLimitStore) (max window_ms : ℕ) where
  unfoldable pub step : Op → List Entry → List Entry × List (String × RateLimitResult)
  step (checks key now) es =
      let (es', r) = check_rate_limit store key max window_ms now es in (es', (key, r) ∷ [])
  step (prunes now) es = (store.prune now es, [])

  unfoldable pub run : List Op → List Entry → List Entry × List (String × RateLimitResult)
  run [] es = (es, [])
  run (op ∷ ops) es = let (es', r) = step op es in let (es'', rs) = run ops es' in (es'', r ++ rs)
