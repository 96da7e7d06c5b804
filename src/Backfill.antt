-- ===== src/Backfill.antt =====
-- Historical backfill: the checkpoints of packages/indexer/src/backfill/BackfillCheckpointManager.ts
-- (Checkpoint) and backfillFromSequence and backfillLedgers of
-- packages/indexer/src/services/indexer-service.ts (Run).
pub mod Checkpoint
pub mod Run
mod Examples
