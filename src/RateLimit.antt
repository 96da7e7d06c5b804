-- ===== src/RateLimit.antt =====
-- Rate limiting: Sliding is the indexer's limiter of its own calls, packages/indexer/src/rate-limiter,
-- Fixed the API's limit on its
-- clients, api/src/rateLimit.ts, on Entries in Memory or Postgres.
pub mod Sliding
pub mod Entries
pub mod Memory
pub mod Postgres
pub mod Fixed
mod Examples
