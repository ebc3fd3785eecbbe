-- ===== src/Collect/Sources.antt =====
-- What holds of the sources and migrations that provider_collect.go collects.
use pressly_goose_patches.Base.{
  ◌≡◌, refl, subst, Bool-cases, Bool, List, [], ◌∷◌, Option, none, some, inl, inr, arith, All,
  All-append,
}
use pressly_goose_patches.Int.{ℤ, pos, ltb_ℤ, ltb_ℤ→le, ◌<ℤ◌}
use pressly_goose_patches.Text.{Str, codes, has_suffix}
use pressly_goose_patches.VersionMap.{lookup}
use pressly_goose_patches.Outcome.{Source}
use pressly_goose_patches.Collect.{
  Result, ok, err, before_separator, no_sources, Result-cases, FileSources, Collected, Excludes,
  checked_version, numeric_prefix, numeric_component, with_sql, with_go, add_source, add_unique,
  add_version, collect_file, collect_files, collect_pattern, collect_filesystem_sources,
}

abbrev pub HasPositive : Source → Type 0
HasPositive s = pos 0 <ℤ s.version

-- Every version among the sources is positive.
abbrev pub ArePositive : FileSources → Type 0
ArePositive fs = All HasPositive fs.sql_sources × All HasPositive fs.go_sources

checked_version-positive : (o : Option ℤ) (v : ℤ) → checked_version o ≡ ok v → pos 0 <ℤ v
unfolding checked_version
checked_version-positive none v h = cc
checked_version-positive (some n) v h = elim (Bool-cases (ltb_ℤ n (pos 1))) [
  | inl small ↦ ground arith
  | inr large ↦
      let le = ltb_ℤ→le n (pos 1) large in
      let e : n ≡ v = ground arith in subst (λ v. pos 0 <ℤ v) e (omega arith)
]

numeric_prefix-positive : (o : Option Str) (v : ℤ) → numeric_prefix o ≡ ok v → pos 0 <ℤ v
unfolding numeric_prefix
numeric_prefix-positive none v h = cc
numeric_prefix-positive (some before) v h = checked_version-positive _ v h

numeric_component-positive : (base : Str) (v : ℤ) → numeric_component base ≡ ok v → pos 0 <ℤ v
unfolding numeric_component
numeric_component-positive base v h =
    ground (arith, numeric_prefix-positive (before_separator base) v)

-- A step that only adds positive versions.
abbrev Preserves : (Collected → Result Collected) → Type 0
Preserves f = (c c' : Collected) → ArePositive c.sources → f c ≡ ok c' → ArePositive c'.sources

moved :
    (c c' : Collected) → Result.ok c ≡ Result.ok c' → ArePositive c.sources → ArePositive c'.sources
moved c c' e k = let eq : c ≡ c' = cc e in subst (λ c. ArePositive c.sources) eq k

add_source-Preserves : (base : Str) (v : ℤ) → pos 0 <ℤ v → Preserves (add_source base v)
unfolding add_source
add_source-Preserves base v h c c' k e = elim (Bool-cases (has_suffix base (codes ".sql"))) [
  | inl sql ↦
      moved (with_sql base v c) c' (ground arith) (All-append HasPositive _ _ k.0 (h, tt), k.1)
  | inr other ↦ elim (Bool-cases (has_suffix base (codes ".go"))) [
    | inl go ↦
        moved (with_go base v c) c' (ground arith) (k.0, All-append HasPositive _ _ k.1 (h, tt))
    | inr neither ↦ ground arith
  ]
]

add_unique-Preserves :
    (base : Str) (v : ℤ) (o : Option Str) → pos 0 <ℤ v → Preserves (λ c. add_unique base v c o)
unfolding add_unique
add_unique-Preserves base v none h c c' k e = add_source-Preserves base v h c c' k e
add_unique-Preserves base v (some existing) h c c' k e = cc

module _ (strict : Bool) (excludes : Excludes) where
  add_version-Preserves :
      (base : Str) (r : Result ℤ)
      → ((v : ℤ) → r ≡ ok v → pos 0 <ℤ v)
      → Preserves (λ c. add_version strict excludes base c r)
  unfolding add_version
  add_version-Preserves base (err x) h c c' k e = elim (Bool-cases strict) [
    | inl failing ↦ ground arith
    | inr skipped ↦ moved c c' (ground arith) k
  ]
  add_version-Preserves base (ok v) h c c' k e = elim (Bool-cases (excludes.versions v)) [
    | inl excluded ↦ moved c c' (ground arith) k
    | inr wanted ↦
        add_unique-Preserves base v (lookup v c.version_to_base_lookup) (h v refl) c c' k
          (ground arith)
  ]

  collect_file-Preserves : (base : Str) → Preserves (collect_file strict excludes base)
  unfolding collect_file
  collect_file-Preserves base c c' k e = elim (Bool-cases (has_suffix base (codes "_test.go"))) [
    | inl test ↦ moved c c' (ground arith) k
    | inr source ↦ elim (Bool-cases (excludes.names base)) [
      | inl excluded ↦ moved c c' (ground arith) k
      | inr wanted ↦
          add_version-Preserves base (numeric_component base) (numeric_component-positive base) c c'
            k (ground arith)
    ]
  ]

  collect_files-Preserves : (files : List Str) → Preserves (collect_files strict excludes files)
  unfolding collect_files
  collect_files-Preserves [] c c' k e = moved c c' e k
  collect_files-Preserves (f ∷ fs) c c' k e =
      elim (Result-cases (collect_file strict excludes f c)) [
        | inl (d, eq) ↦
            collect_files-Preserves fs d c' (collect_file-Preserves f c d k eq) (ground arith)
        | inr (x, eq) ↦ ground arith
      ]

  collect_pattern-Preserves :
      (files : Option (List Str)) → Preserves (collect_pattern strict excludes files)
  unfolding collect_pattern
  collect_pattern-Preserves none c c' k e = cc
  collect_pattern-Preserves (some files) c c' k e = collect_files-Preserves files c c' k e

  -- Every version that is collected from the file system is positive, whatever the files are named.
  pub collect-ArePositive :
      (glob : Str → Option (List Str)) (fs : FileSources)
      → collect_filesystem_sources glob strict excludes ≡ ok fs
      → ArePositive fs
  unfolding collect_filesystem_sources
  collect-ArePositive glob fs h =
      let start : Collected = record { sources = no_sources; version_to_base_lookup = [] } in
      elim (Result-cases (collect_pattern strict excludes (glob (codes "*.sql")) start)) [
        | inl (c, e) ↦
            elim (Result-cases (collect_pattern strict excludes (glob (codes "*.go")) c)) [
              | inl (d, e') ↦
                  let first = collect_pattern-Preserves (glob (codes "*.sql")) start c (tt, tt) e in
                  let then_go = collect_pattern-Preserves (glob (codes "*.go")) c d first e' in
                  let eq : d.sources ≡ fs = ground arith in subst ArePositive eq then_go
              | inr (x, e') ↦ ground arith
            ]
        | inr (x, e) ↦ ground arith
      ]
