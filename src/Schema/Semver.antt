-- ===== src/Schema/Semver.antt =====
-- Versions and names of migrations in packages/indexer/src/database/schema-version.ts. A version is read by its parts of decimal
-- digits; a part with other characters is NaN, `none` here (signs, blanks and exponents, which Number also reads, are left out).
use Prim.Native.String.{String, [], ◌∷◌, ◌++◌}
use Prim.Native.Char.{Char, code}
use stellar_analytics_dashbo.Prelude.{
  ℕ, zero, suc, ◌+◌, ◌-◌, ◌*◌, Bool, true, false, ◌&&◌, Option, none, some, ltb, leb, ◌==◌,
  if◌then◌else◌,
}
use stellar_analytics_dashbo.Prelude.Decimal.{decimal}

pub record CompatibilityResult : Type 0 where
  pub compatible : Bool
  pub fatal : Bool
  pub message : String

abbrev pub is_digit : Char → Bool
is_digit c = leb 48 (code c) && leb (code c) 57

abbrev pub digit_of : Char → ℕ
digit_of c = code c - 48

abbrev next_value : Char → Option ℕ → Option ℕ
next_value c none = none
next_value c (some n) = if is_digit c then some (n * 10 + digit_of c) else none

-- `v.split('.').map(Number)[i] ?? 0`, from within part `i` with its value so far; an empty part is 0.
unfoldable pub part_from : ℕ → Option ℕ → String → Option ℕ
part_from zero value [] = value
part_from (suc i) value [] = some 0
part_from zero value (c ∷ s) = if code c == 46 then value else part_from zero (next_value c value) s
part_from (suc i) value (c ∷ s) =
    part_from (if code c == 46 then i else suc i) (if code c == 46 then some 0 else value) s

unfoldable pub part : String → ℕ → Option ℕ
part v i = part_from i (some 0) v

-- `a < b` on numbers or NaN.
abbrev pub below : Option ℕ → Option ℕ → Bool
below none b = false
below (some a) none = false
below (some a) (some b) = ltb a b

pub data Sign : Type 0 where
  less : Sign
  equal : Sign
  greater : Sign

-- The loop of compareSemver over the parts from `i`, of which `n` are left.
unfoldable pub compare_from : ℕ → ℕ → String → String → Sign
compare_from zero i a b = equal
compare_from (suc n) i a b =
    if below (part a i) (part b i)
    then less
    else if below (part b i) (part a i)
    then greater
    else compare_from n (i + 1) a b

unfoldable pub compare_semver : String → String → Sign
compare_semver a b = compare_from 3 0 a b

pub record Semver : Type 0 where
  pub major : Option ℕ
  pub minor : Option ℕ
  pub patch : Option ℕ

unfoldable pub parse_semver : String → Semver
parse_semver v = record { major = part v 0; minor = part v 1; patch = part v 2 }

abbrev pub number_text : Option ℕ → String
number_text none = "NaN"
number_text (some n) = decimal n

unfoldable pub check_version_compatibility : String → String → CompatibilityResult
check_version_compatibility db_version code_version =
    let db = parse_semver db_version in
    let code = parse_semver code_version in
    if below db.major code.major
    then record {
      compatible = false;
      fatal = true;
      message =
          "Schema version "
          ++ (db_version
              ++ (" is too old. Code requires major version "
                  ++ (number_text code.major ++ ". Run `pnpm db:migrate` to upgrade the schema.")));
    }
    else if below code.major db.major
    then record {
      compatible = false;
      fatal = true;
      message =
          "Code schema version "
          ++ (code_version
              ++ (" is too old for database schema "
                  ++ (db_version ++ ". Deploy newer application code first.")));
    }
    else if below db.minor code.minor
    then record {
      compatible = true;
      fatal = false;
      message =
          "Schema version "
          ++ (db_version
              ++ (" is behind code version "
                  ++ (code_version ++ ". Run `pnpm db:migrate` to apply pending migrations.")));
    }
    else record {
      compatible = true;
      fatal = false;
      message =
          "Schema version "
          ++ (db_version ++ (" is compatible with code version " ++ (code_version ++ ".")));
    }

-- The digits that a name starts with: how many, and their value; then the rest.
pub record Leading : Type 0 where
  pub count : ℕ
  pub value : ℕ
  pub rest : String

unfoldable pub leading_from : ℕ → ℕ → String → Leading
leading_from count value [] = record { count = count; value = value; rest = "" }
leading_from count value (c ∷ s) =
    if is_digit c
    then leading_from (count + 1) (value * 10 + digit_of c) s
    else record { count = count; value = value; rest = c ∷ s }

abbrev starts_low : String → Bool
starts_low [] = false
starts_low (c ∷ s) = code c == 95

-- `/^\d{12,}_/`.
unfoldable pub is_named : String → Bool
is_named name = let l = leading_from 0 0 name in leb 12 l.count && starts_low l.rest

-- The match of `/^(\d{12,})/` as a number, and 0 without one.
unfoldable pub timestamp : String → ℕ
timestamp name = let l = leading_from 0 0 name in if leb 12 l.count then l.value else 0

abbrev pub misnamed : String → String
misnamed name =
    "Migration \"" ++ name
    ++ "\" does not follow the expected <timestamp>_<name> naming convention."

abbrev pub missing : String → String
missing name =
    "Expected migration \"" ++ name
    ++ "\" has not been applied. Run `pnpm db:migrate` to apply pending migrations."

abbrev pub unexpected : String → String
unexpected name =
    "Unexpected migration \"" ++ name
    ++ "\" is applied but not in the expected set. This may indicate a migration from a different branch or version."

abbrev pub violation : ℕ → ℕ → ℕ → String
violation i now before =
    "Migration order violation: migration at index "
    ++ decimal i
    ++ " has timestamp "
    ++ decimal now
    ++ " which is <= previous timestamp "
    ++ decimal before
    ++ ". Migrations must be applied in order."
