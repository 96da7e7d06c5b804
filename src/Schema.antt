-- ===== src/Schema.antt =====
-- packages/indexer/src/database/schema-version.ts, SchemaVersionManager: Semver has its static functions, Table the table
-- schema_version, Migrations validateMigrations.
pub mod Semver
pub mod Table
pub mod Migrations
pub mod Compatibility
pub mod Exact
mod Examples
