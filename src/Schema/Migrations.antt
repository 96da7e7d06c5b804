-- ===== src/Schema/Migrations.antt =====
-- `validateMigrations` of packages/indexer/src/database/schema-version.ts.
use stellar_analytics_dashbo.Prelude.{
  ℕ, ◌+◌, Bool, not, Option, none, some, List, [], ◌∷◌, ◌++◌, map, filter, any, leb, if◌then◌else◌,
  String,
}
use stellar_analytics_dashbo.Prelude.Text.{str_eq}
use stellar_analytics_dashbo.Prelude.Sort.{sort}
use stellar_analytics_dashbo.Schema.Semver.{
  is_named, timestamp, misnamed, missing, unexpected, violation,
}

-- A row of pgmigrations.
pub record Migration : Type 0 where
  pub name : String
  pub run_on : ℕ

abbrev pub includes : List String → String → Bool
includes names name = any (λ n. str_eq n name) names

-- The loop over the timestamps from index `i`, with the one before.
unfoldable pub order_from : ℕ → ℕ → List ℕ → List String
order_from i before [] = []
order_from i before (t ∷ ts) =
    let rest = order_from (i + 1) t ts in if leb t before then violation i t before ∷ rest else rest

unfoldable pub order_errors : List ℕ → List String
order_errors [] = []
order_errors (t ∷ ts) = order_from 1 t ts

unfoldable pub name_errors : List String → List String
name_errors applied = map misnamed (filter (λ n. not (is_named n)) applied)

-- The checks against the expected names, which are left out where there are none.
unfoldable pub expected_errors : Option (List String) → List String → List String
expected_errors none applied = []
expected_errors (some []) applied = []
expected_errors (some (e ∷ es)) applied =
    map missing (filter (λ n. not (includes applied n)) (e ∷ es))
    ++ (map unexpected (filter (λ n. not (includes (e ∷ es) n)) applied)
        ++ order_errors (map timestamp applied))

abbrev pub by_run_on : Migration → Migration → Bool
by_run_on a b = leb a.run_on b.run_on

unfoldable pub applied_names : List Migration → List String
applied_names rows = map Migration.name (sort by_run_on rows)

abbrev pub check_applied : Option (List String) → List String → List String
check_applied expected [] =
    "pgmigrations table exists but is empty – no migrations have been applied." ∷ []
check_applied expected (n ∷ ns) = name_errors (n ∷ ns) ++ expected_errors expected (n ∷ ns)

-- The table is none where it does not exist.
unfoldable pub validate_migrations : Option (List String) → Option (List Migration) → List String
validate_migrations expected none =
    "pgmigrations table does not exist – no migrations have been run." ∷ []
validate_migrations expected (some rows) = check_applied expected (applied_names rows)
