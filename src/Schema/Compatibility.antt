-- ===== src/Schema/Compatibility.antt =====
-- What checkCompatibility of schema-version.ts says, and of which version.
use stellar_analytics_dashbo.Prelude.{
  ℕ, zero, suc, ◌+◌, ◌<◌, ◌≡◌, inl, inr, refl, ap, sym, subst, ◌∙◌, true, false, not, Option, none,
  some, List, [], ◌∷◌, String, ◌==◌, if◌then◌else◌, All, arith, Bool-cases, Option-cases,
  or_default,
}
use stellar_analytics_dashbo.Prelude.Text.{str_eq}
use stellar_analytics_dashbo.Prelude.Sort.{sort, insert}
use stellar_analytics_dashbo.Schema.Semver.{
  Sign, less, equal, greater, part, below, parse_semver, compare_from, compare_semver,
  check_version_compatibility,
}
use stellar_analytics_dashbo.Schema.Table.{
  SchemaVersionRecord, by_time_desc, first_row, get_current_version, upsert, set_version,
  check_current, check_compatibility,
}

-- Where the major parts are numbers, the check is fatal just if they differ, and compatible just if it is
-- not fatal; then its message speaks of a schema that is behind only if the minor part is.
pub fatal-majors :
    (db code : String) (x y : ℕ)
    → part db 0 ≡ some x
    → part code 0 ≡ some y
    → let r = check_version_compatibility db code in
      (r.fatal ≡ not (x == y)) × (r.compatible ≡ (x == y))
unfolding check_version_compatibility parse_semver
fatal-majors db code x y ex ey = rw ex (rw ey (ground arith))

-- A version in the database whose major part is no number is compatible with any code.
pub malformed_passes :
    (db code : String)
    → part db 0 ≡ none
    → let r = check_version_compatibility db code in (r.fatal ≡ false) × (r.compatible ≡ true)
unfolding check_version_compatibility parse_semver
malformed_passes db code e = rw e (ground (arith, Option-cases (part code 0)))

abbrev pub flip : Sign → Sign
flip less = greater
flip equal = equal
flip greater = less

below-flip : (a b : Option ℕ) → below a b ≡ true → below b a ≡ false
below-flip none b h = cc
below-flip (some a) none h = cc
below-flip (some a) (some b) h = ground arith

flip-from : (n i : ℕ) (a b : String) → compare_from n i b a ≡ flip (compare_from n i a b)
unfolding compare_from
flip-from zero i a b = refl
flip-from (suc n) i a b = ground (arith, flip-from n (i + 1) a b, below-flip (part a i) (part b i))

-- Comparing in the other order gives the opposite.
pub compare_semver-flip : (a b : String) → compare_semver b a ≡ flip (compare_semver a b)
unfolding compare_semver
compare_semver-flip a b = flip-from 3 0 a b

abbrev newer : SchemaVersionRecord → Option SchemaVersionRecord → SchemaVersionRecord
newer a none = a
newer a (some r) = if by_time_desc a r then a else r

first_row-insert :
    (a : SchemaVersionRecord) (rs : List SchemaVersionRecord)
    → first_row (insert by_time_desc a rs) ≡ some (newer a (first_row rs))
unfolding insert
first_row-insert a [] = refl
first_row-insert a (r ∷ rs) = ground arith

abbrev IsOlder : ℕ → SchemaVersionRecord → Type 0
IsOlder now r = r.applied_at < now

abbrev IsOlderIf : ℕ → Option SchemaVersionRecord → Type 0
IsOlderIf now none = Unit
IsOlderIf now (some r) = IsOlder now r

newer-IsOlder :
    (now : ℕ) (a : SchemaVersionRecord) (o : Option SchemaVersionRecord)
    → IsOlder now a
    → IsOlderIf now o
    → IsOlder now (newer a o)
newer-IsOlder now a none h i = h
newer-IsOlder now a (some r) h i = ground arith

sort-IsOlder :
    (now : ℕ) (rs : List SchemaVersionRecord)
    → All (IsOlder now) rs
    → IsOlderIf now (first_row (sort by_time_desc rs))
unfolding sort
sort-IsOlder now [] h = tt
sort-IsOlder now (r ∷ rs) h =
    subst (IsOlderIf now) (sym (first_row-insert r (sort by_time_desc rs)))
      (newer-IsOlder now r (first_row (sort by_time_desc rs)) h.0 (sort-IsOlder now rs h.1))

newer-older :
    (now : ℕ) (a : SchemaVersionRecord) (o : Option SchemaVersionRecord)
    → a.applied_at ≡ now
    → IsOlderIf now o
    → newer a o ≡ a
newer-older now a none e h = refl
newer-older now a (some r) e h = ground arith

first_row-older :
    (now : ℕ) (a : SchemaVersionRecord) (rs : List SchemaVersionRecord)
    → a.applied_at ≡ now
    → All (IsOlder now) rs
    → newer a (first_row (sort by_time_desc rs)) ≡ a
first_row-older now a rs e h =
    newer-older now a (first_row (sort by_time_desc rs)) e (sort-IsOlder now rs h)

-- The version that is current after one is recorded, later than all others.
upsert-current :
    (now : ℕ) (row : SchemaVersionRecord) (rs : List SchemaVersionRecord)
    → row.applied_at ≡ now
    → All (IsOlder now) rs
    → first_row (sort by_time_desc (upsert row rs)) ≡ some row
unfolding upsert sort
upsert-current now row [] e h = first_row-insert row []
upsert-current now row (r ∷ rs) e h = elim (Bool-cases (str_eq r.version row.version)) [
  | inl same ↦
      rw same
        (first_row-insert row (sort by_time_desc rs) ∙ ap some (first_row-older now row rs e h.1))
  | inr other ↦ rw other (
      first_row-insert r (sort by_time_desc (upsert row rs))
      ∙ rw (upsert-current now row rs e h.1) (ground (arith, h.0)))
]

-- Once a version has been recorded, later than all others, the check is of it.
pub set_version-check :
    (version description code : String) (min : Option String) (rows : List SchemaVersionRecord)
    (now : ℕ)
    → All (IsOlder now) rows
    → check_compatibility code (set_version version description min rows now)
      ≡ check_version_compatibility version code
unfolding check_compatibility set_version get_current_version
set_version-check version description code min rows now h =
    let row : SchemaVersionRecord = record {
      version = version;
      description = description;
      compatible_min_version = or_default min version;
      applied_at = now;
    } in
    ap (check_current code) (upsert-current now row rows refl h)
