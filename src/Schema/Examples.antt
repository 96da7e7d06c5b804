-- ===== src/Schema/Examples.antt =====
-- Tests of the schema versions, and the theorems at concrete versions and migrations.
use stellar_analytics_dashbo.Prelude.{
  ◌≡◌, ◌↔◌, refl, true, false, none, some, [], ◌∷◌, String, All, arith,
}
use stellar_analytics_dashbo.Schema.Semver.{
  less, equal, part, part_from, compare_from, compare_semver, check_version_compatibility, is_named,
  timestamp, leading_from, missing,
}
use stellar_analytics_dashbo.Schema.Table.{set_version, check_compatibility}
use stellar_analytics_dashbo.Schema.Migrations.{
  applied_names, validate_migrations, name_errors, expected_errors, order_errors, order_from,
}
use stellar_analytics_dashbo.Prelude.Sort.{sort, insert}
use stellar_analytics_dashbo.Schema.Compatibility.{set_version-check}
use stellar_analytics_dashbo.Schema.Exact.{Ascending, validate_migrations-exact}

two_parts :
    (part "12.3" 0 ≡ some 12)
    × (part "12.3" 1 ≡ some 3)
    × (part "12.3" 2 ≡ some 0)
    × (part "v1.0" 0 ≡ none)
unfolding part part_from
two_parts = (refl, refl, refl, refl)

numbers_not_texts : (compare_semver "1.9.0" "1.10.0" ≡ less) × (compare_semver "2.0" "2" ≡ equal)
unfolding compare_semver compare_from part part_from
numbers_not_texts = (refl, refl)

abbrev initial : String
initial = "1738000000000_initial-schema"

abbrev second : String
second = "1738000000001_accounts"

names :
    (is_named initial ≡ true)
    × (is_named "0001_initial" ≡ false)
    × (timestamp second ≡ 1738000000001)
unfolding is_named timestamp leading_from
names = (refl, refl, refl)

one_missing :
    validate_migrations
      (some (initial ∷ second ∷ []))
      (some (record { name = initial; run_on = 5 } ∷ []))
    ≡ missing second ∷ []
unfolding validate_migrations applied_names sort insert name_errors expected_errors order_errors
    order_from is_named timestamp leading_from
one_missing = refl

not_a_number : part "v1.0.0" 0 ≡ none
unfolding part part_from
not_a_number = refl

set_version-check_example :
    check_compatibility "1.0.0" (
      set_version "1.1.0" "accounts" none
        (record {
          version = "1.0.0";
          description = "";
          compatible_min_version = "1.0.0";
          applied_at = 3;
        }
          ∷ [])
        7)
    ≡ check_version_compatibility "1.1.0" "1.0.0"
set_version-check_example =
    set_version-check "1.1.0" "accounts" "1.0.0" none
      (record {
        version = "1.0.0";
        description = "";
        compatible_min_version = "1.0.0";
        applied_at = 3;
      }
        ∷ [])
      7 (omega arith, tt)

in_order : Ascending (initial ∷ second ∷ [])
unfolding timestamp leading_from
in_order = ((omega arith, tt), (tt, tt))

well_named : All (λ n. is_named n ≡ true) (initial ∷ second ∷ [])
unfolding is_named leading_from
well_named = (refl, (refl, tt))

validate_migrations-exact_example :
    (validate_migrations
        (some (initial ∷ second ∷ []))
        (some (record { name = initial; run_on = 5 } ∷ []))
      ≡ [])
    ↔ (applied_names (record { name = initial; run_on = 5 } ∷ []) ≡ initial ∷ second ∷ [])
validate_migrations-exact_example =
    validate_migrations-exact initial (second ∷ []) (record { name = initial; run_on = 5 } ∷ [])
      in_order well_named
