-- ===== src/Resolve.antt =====
-- internal/gooseutil/resolve.go: which versions an up migration applies.
pub mod Spec
pub mod Pending
pub mod Settled
mod Tests
use pressly_goose_patches.Base.{
  ◌≡◌, refl, Bool, true, false, not, ◌&&◌, List, [], ◌∷◌, ◌++◌, arith, if◌then◌else◌, is_nil,
}
use pressly_goose_patches.Int.{ℤ, pos, ltb_ℤ, leb_ℤ}
use pressly_goose_patches.Sort.{sort_by}
use pressly_goose_patches.VersionMap.{VersionMap, insert, has}

-- `newMissingError`, by the values that its text is made of.
pub record MissingError : Type 0 where
  pub missing : List ℤ
  pub db_max_version : ℤ
  pub target : ℤ

pub data Resolved : Type 0 where
  ok : List ℤ → Resolved
  err : MissingError → Resolved

-- slices.Sort
abbrev pub sort : List ℤ → List ℤ
sort = sort_by (λ v. v)

-- The state of the loop over `dbVersions`.
pub record DbVersions : Type 0 where
  pub applied : VersionMap Bool
  pub max : ℤ

unfoldable pub scan_db : List ℤ → DbVersions → DbVersions
scan_db [] s = s
scan_db (v ∷ vs) s =
    scan_db vs
      (record { applied = insert v true s.applied; max = if ltb_ℤ s.max v then v else s.max })

abbrev pub no_db_versions : DbVersions
no_db_versions = record { applied = []; max = pos 0 }

-- The loop that collects the versions below the maximum of the database.
unfoldable pub find_missing : DbVersions → ℤ → List ℤ → List ℤ
find_missing s target [] = []
find_missing s target (v ∷ vs) =
    let rest = find_missing s target vs in
    if has v s.applied then rest else if ltb_ℤ v s.max && leb_ℤ v target then v ∷ rest else rest

-- The loop that collects the versions above it.
unfoldable pub find_new : DbVersions → ℤ → List ℤ → List ℤ
find_new s target [] = []
find_new s target (v ∷ vs) =
    let rest = find_new s target vs in
    if has v s.applied then rest else if ltb_ℤ s.max v && leb_ℤ v target then v ∷ rest else rest

new_missing_error : List ℤ → ℤ → ℤ → MissingError
new_missing_error missing db_max_version target = record {
  missing = sort missing;
  db_max_version = db_max_version;
  target = target;
}

unfoldable pub up_versions : List ℤ → List ℤ → ℤ → Bool → Resolved
unfolding new_missing_error
up_versions fsys_versions db_versions target allow_missing =
    let versions = sort fsys_versions in
    let db = scan_db db_versions no_db_versions in
    let missing = find_missing db target versions in
    if not (is_nil missing) && not allow_missing
    then err (new_missing_error missing db.max target)
    else ok (sort (missing ++ find_new db target versions))
