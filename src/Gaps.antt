-- ===== src/Gaps.antt =====
-- Gaps in the ledger sequence: packages/indexer/src/backfill/GapDetectionService.ts (Service) and
-- indexer/src/gap-detector.ts (Legacy), over the queries, the scan and the merge that they share.
pub mod Table
pub mod Scan
pub mod Merge
pub mod Tally
pub mod Exact
pub mod Service
pub mod Legacy
mod Examples
