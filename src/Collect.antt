-- ===== src/Collect.antt =====
-- provider_collect.go, `NumericComponent` of migration.go and the collecting part of `newProvider` of
-- provider.go: which files and registered Go functions become the provider's migrations.
pub mod Merge
pub mod Sources
pub mod Merged
mod Tests
use pressly_goose_patches.Base.{
  ◌≡◌, ◌⊎◌, inl, inr, refl, ℕ, ◌+◌, ◌-◌, ◌*◌, ◌^◌, Bool, true, false, not, ◌&&◌, ◌||◌, List, [],
  ◌∷◌, ◌++◌, Option, none, some, if◌then◌else◌, is_nil, ◌==◌, leb, map,
}
use pressly_goose_patches.Int.{ℤ, pos, negsuc, ltb_ℤ}
use pressly_goose_patches.Sort.{sort_by}
use pressly_goose_patches.VersionMap.{VersionMap, lookup, insert, has}
use pressly_goose_patches.Text.{Str, codes, equal, has_suffix}
use pressly_goose_patches.Outcome.{MigrationType, type_go, type_sql, Source}
use pressly_goose_patches.Provider.{Migration, GoFunc, mode_unset}

pub data CollectError : Type 0 where
  glob_failed : CollectError
  no_separator not_a_number not_positive wrong_extension : CollectError
  numeric_component_failed : Str → CollectError → CollectError
  duplicate_version : ℤ → Str → Str → CollectError
  unregistered : List Str → CollectError
  conflicts_with_global : ℤ → CollectError
  no_migrations : CollectError

pub data Result (A : Type 0) : Type 0 where
  ok : A → Result A
  err : CollectError → Result A

pub Result-cases :
    {A : Type 0} (r : Result A) → ((a : A) × (r ≡ ok a)) ⊎ ((e : CollectError) × (r ≡ err e))
Result-cases (ok a) = inl (a, refl)
Result-cases (err e) = inr (e, refl)

-- strings.Cut(s, "_"): the text before the separator, if there is one
unfoldable pub before_separator : Str → Option Str
before_separator [] = none
before_separator (c ∷ s) =
    let rest = before_separator s in
    if c == 95 then some [] else elim rest [ none ↦ none | some t ↦ some (c ∷ t) ]

unfoldable pub digits : ℕ → Str → Option ℕ
digits n [] = some n
digits n (c ∷ s) =
    let rest = digits (n * 10 + (c - 48)) s in if leb 48 c && leb c 57 then rest else none

in_range : Bool → Option ℕ → Option ℤ
in_range negative none = none
in_range true (some n) =
    if n == 0 then some (pos 0) else if leb n (2 ^ 63) then some (negsuc (n - 1)) else none
in_range false (some n) = if leb n (2 ^ 63 - 1) then some (pos n) else none

nonempty_digits : Str → Option ℕ
nonempty_digits [] = none
nonempty_digits (c ∷ s) = digits 0 (c ∷ s)

-- strconv.ParseInt(s, 10, 64)
unfoldable pub parse_int : Str → Option ℤ
unfolding in_range nonempty_digits
parse_int [] = none
parse_int (c ∷ s) =
    if c == 45
    then in_range true (nonempty_digits s)
    else if c == 43
    then in_range false (nonempty_digits s)
    else in_range false (nonempty_digits (c ∷ s))

unfoldable pub checked_version : Option ℤ → Result ℤ
checked_version none = err not_a_number
checked_version (some n) = if ltb_ℤ n (pos 1) then err not_positive else ok n

unfoldable pub numeric_prefix : Option Str → Result ℤ
unfolding checked_version
numeric_prefix none = err no_separator
numeric_prefix (some before) = checked_version (parse_int before)

-- `NumericComponent`, of a base name.
unfoldable pub numeric_component : Str → Result ℤ
unfolding numeric_prefix
numeric_component base =
    if not (has_suffix base (codes ".go")) && not (has_suffix base (codes ".sql"))
    then err wrong_extension
    else numeric_prefix (before_separator base)

-- `fileSources`.
pub record FileSources : Type 0 where
  pub sql_sources : List Source
  pub go_sources : List Source

-- The state of the loops of `collectFilesystemSources`.
pub record Collected : Type 0 where
  pub sources : FileSources
  pub version_to_base_lookup : VersionMap Str

pub record Excludes : Type 0 where
  pub names : Str → Bool
  pub versions : ℤ → Bool

abbrev pub with_sql : Str → ℤ → Collected → Collected
with_sql base version c = record {
  sources = record {
    sql_sources =
        c.sources.sql_sources ++ record { type = type_sql; path = base; version = version } ∷ [];
    go_sources = c.sources.go_sources;
  };
  version_to_base_lookup = insert version base c.version_to_base_lookup;
}

abbrev pub with_go : Str → ℤ → Collected → Collected
with_go base version c = record {
  sources = record {
    sql_sources = c.sources.sql_sources;
    go_sources =
        c.sources.go_sources ++ record { type = type_go; path = base; version = version } ∷ [];
  };
  version_to_base_lookup = insert version base c.version_to_base_lookup;
}

-- The switch on the extension of a file.
unfoldable pub add_source : Str → ℤ → Collected → Result Collected
add_source base version c =
    if has_suffix base (codes ".sql")
    then ok (with_sql base version c)
    else if has_suffix base (codes ".go")
    then ok (with_go base version c)
    else err wrong_extension

unfoldable pub add_unique : Str → ℤ → Collected → Option Str → Result Collected
unfolding add_source
add_unique base version c none = add_source base version c
add_unique base version c (some existing) = err (duplicate_version version existing base)

unfoldable pub add_version : Bool → Excludes → Str → Collected → Result ℤ → Result Collected
unfolding add_unique
add_version strict excludes base c (err e) =
    if strict then err (numeric_component_failed base e) else ok c
add_version strict excludes base c (ok version) =
    if excludes.versions version
    then ok c
    else add_unique base version c (lookup version c.version_to_base_lookup)

-- One round of the inner loop.
unfoldable pub collect_file : Bool → Excludes → Str → Collected → Result Collected
unfolding add_version
collect_file strict excludes base c =
    if has_suffix base (codes "_test.go")
    then ok c
    else if excludes.names base
    then ok c
    else add_version strict excludes base c (numeric_component base)

unfoldable pub collect_files : Bool → Excludes → List Str → Collected → Result Collected
collect_files strict excludes [] c = ok c
collect_files strict excludes (f ∷ fs) c = elim (collect_file strict excludes f c) [
  | err e ↦ err e
  | ok c' ↦ collect_files strict excludes fs c'
]

unfoldable pub collect_pattern : Bool → Excludes → Option (List Str) → Collected → Result Collected
unfolding collect_files
collect_pattern strict excludes none c = err glob_failed
collect_pattern strict excludes (some files) c = collect_files strict excludes files c

abbrev pub no_sources : FileSources
no_sources = record { sql_sources = []; go_sources = [] }

-- `collectFilesystemSources`. `glob` is `fs.Glob` on the file system, which is not nil: the names
-- that match a pattern, without a directory, or none if it fails.
unfoldable pub collect_filesystem_sources :
    (Str → Option (List Str)) → Bool → Excludes → Result FileSources
unfolding collect_pattern
collect_filesystem_sources glob strict excludes =
    elim (collect_pattern strict excludes (glob (codes "*.sql"))
      (record { sources = no_sources; version_to_base_lookup = [] })) [
        | err e ↦ err e
        | ok c ↦ elim (collect_pattern strict excludes (glob (codes "*.go")) c) [
          | err e ↦ err e
          | ok c' ↦ ok c'.sources
        ]
      ]
