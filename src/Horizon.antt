-- ===== src/Horizon.antt =====
-- Calls of Horizon: Errors is packages/indexer/src/services/retry-config.ts, Retry the retries of
-- packages/indexer/src/services/stellar-service.ts, through the circuit breaker.
pub mod Errors
pub mod Retry
mod Examples
