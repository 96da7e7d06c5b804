-- ===== src/RateLimit/Entries.antt =====
-- The records of api/src/rateLimit.ts, in memory or in api_rate_limits: a list with one record a key.
use stellar_analytics_dashbo.Prelude.{ℕ, ◌+◌, Bool, List, [], ◌∷◌, String, if◌then◌else◌}
use stellar_analytics_dashbo.Prelude.Text.{str_eq}

pub record Entry : Type 0 where
  pub key : String
  pub count : ℕ
  pub reset_at : ℕ

abbrev pub has_key : String → Entry → Bool
has_key key e = str_eq e.key key

-- `Map.set`, which keeps the place of a key that is there.
unfoldable pub set_entry : Entry → List Entry → List Entry
set_entry e [] = e ∷ []
set_entry e (x ∷ xs) = if has_key e.key x then e ∷ xs else x ∷ set_entry e xs

abbrev pub fresh : String → ℕ → ℕ → Entry
fresh key window_ms now = record { key = key; count = 1; reset_at = now + window_ms }
