-- ===== src/Legacy.antt =====
-- The backfill of the older indexer, under indexer/src: Workers is the worker pool of backfill.ts,
-- Backfill the rest of that file, Checkpoint is checkpoint.ts.
pub mod Workers
pub mod Checkpoint
pub mod Ledgers
pub mod Backfill
mod Examples
