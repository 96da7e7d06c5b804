-- ===== src/Schema/Table.antt =====
-- The table schema_version of packages/indexer/src/database/schema-version.ts.
use stellar_analytics_dashbo.Prelude.{
  ℕ, Bool, true, false, Option, none, some, List, [], ◌∷◌, leb, if◌then◌else◌, or_default, String,
}
use stellar_analytics_dashbo.Prelude.Text.{str_eq}
use stellar_analytics_dashbo.Prelude.Sort.{sort}
use stellar_analytics_dashbo.Schema.Semver.{CompatibilityResult, check_version_compatibility}

pub record SchemaVersionRecord : Type 0 where
  pub version : String
  pub description : String
  pub compatible_min_version : String
  pub applied_at : ℕ

-- The rows by time, the last one first, or the first one.
abbrev pub by_time_desc : SchemaVersionRecord → SchemaVersionRecord → Bool
by_time_desc a b = leb b.applied_at a.applied_at

abbrev pub by_time : SchemaVersionRecord → SchemaVersionRecord → Bool
by_time a b = leb a.applied_at b.applied_at

abbrev pub first_row : List SchemaVersionRecord → Option SchemaVersionRecord
first_row [] = none
first_row (r ∷ rs) = some r

unfoldable pub get_current_version : List SchemaVersionRecord → Option SchemaVersionRecord
get_current_version rows = first_row (sort by_time_desc rows)

unfoldable pub get_version_history : List SchemaVersionRecord → List SchemaVersionRecord
get_version_history rows = sort by_time rows

-- INSERT … ON CONFLICT (version) DO UPDATE.
unfoldable pub upsert : SchemaVersionRecord → List SchemaVersionRecord → List SchemaVersionRecord
upsert row [] = row ∷ []
upsert row (r ∷ rs) = if str_eq r.version row.version then row ∷ rs else r ∷ upsert row rs

unfoldable pub set_version :
    String → String → Option String → List SchemaVersionRecord → ℕ → List SchemaVersionRecord
set_version version description compatible_min_version rows now =
    upsert
      (record {
        version = version;
        description = description;
        compatible_min_version = or_default compatible_min_version version;
        applied_at = now;
      })
      rows

unfoldable pub clear_versions : List SchemaVersionRecord → List SchemaVersionRecord
clear_versions rows = []

abbrev pub check_current : String → Option SchemaVersionRecord → CompatibilityResult
check_current code_version none = record {
  compatible = false;
  fatal = true;
  message =
      "No schema version found in the database. Run migrations with `pnpm db:migrate` before starting the indexer.";
}
check_current code_version (some r) = check_version_compatibility r.version code_version

unfoldable pub check_compatibility : String → List SchemaVersionRecord → CompatibilityResult
check_compatibility code_version rows = check_current code_version (get_current_version rows)
