-- ===== src/Resolve/Tests.antt =====
-- Runs of `UpVersions`, and its theorems at concrete versions.
use pressly_goose_patches.Base.{
  ◌≡◌, refl, true, false, not, ◌&&◌, ◌||◌, List, [], ◌∷◌, ◌++◌, arith, if◌then◌else◌, is_nil, All,
}
use pressly_goose_patches.Int.{ℤ, pos, leb_ℤ, ltb_ℤ, eqb_ℤ}
use pressly_goose_patches.Sort.{sort_by, IsSorted}
use pressly_goose_patches.VersionMap.{has, insert}
use pressly_goose_patches.Resolve.{ok, err, sort, find_missing, find_new, scan_db, up_versions}
use pressly_goose_patches.Resolve.Spec.{mem, pending, max_version, IsPositive}
use pressly_goose_patches.Resolve.Pending.{
  out_of_order, up_versions_lem, mem-up_versions, up_versions_settled, up_versions_in_two_steps,
}

abbrev files : List ℤ
files = pos 5 ∷ pos 1 ∷ pos 3 ∷ pos 2 ∷ pos 7 ∷ []

abbrev applied : List ℤ
applied = pos 3 ∷ pos 1 ∷ pos 0 ∷ []

files-IsPositive : All IsPositive files
files-IsPositive = omega arith

up_to_five : up_versions files applied (pos 5) true ≡ ok (pos 2 ∷ pos 5 ∷ [])
unfolding up_versions sort_by find_missing find_new scan_db has insert leb_ℤ ltb_ℤ eqb_ℤ
up_to_five = refl

missing_two :
    up_versions files applied (pos 5) false
    ≡ err (record { missing = pos 2 ∷ []; db_max_version = pos 3; target = pos 5 })
unfolding up_versions sort_by find_missing find_new scan_db has insert leb_ℤ ltb_ℤ eqb_ℤ
missing_two = refl

then_seven : up_versions files ((pos 2 ∷ pos 5 ∷ []) ++ applied) (pos 9) true ≡ ok (pos 7 ∷ [])
unfolding up_versions sort_by find_missing find_new scan_db has insert leb_ℤ ltb_ℤ eqb_ℤ
then_seven = refl

up_versions_lem_example : up_versions files applied (pos 5) false ≡ (
    if is_nil (out_of_order applied (pos 5) (sort files)) || false
    then ok (pending applied (pos 5) (sort files))
    else err (record {
      missing = out_of_order applied (pos 5) (sort files);
      db_max_version = max_version (pos 0) applied;
      target = pos 5;
    }))
up_versions_lem_example = up_versions_lem files applied (pos 5) false files-IsPositive

mem-up_versions_example :
    ((v : ℤ) → mem v (pos 2 ∷ pos 5 ∷ []) ≡ (mem v files && not (mem v applied) && leb_ℤ v (pos 5)))
    × IsSorted (λ v. v) (pos 2 ∷ pos 5 ∷ [])
mem-up_versions_example =
    mem-up_versions files applied (pos 5) true (pos 2 ∷ pos 5 ∷ []) files-IsPositive up_to_five

up_versions_settled_example :
    up_versions files ((pos 2 ∷ pos 5 ∷ []) ++ applied) (pos 5) false ≡ ok []
up_versions_settled_example =
    up_versions_settled files applied (pos 5) true (pos 2 ∷ pos 5 ∷ []) files-IsPositive up_to_five
      false

up_versions_in_two_steps_example :
    up_versions files applied (pos 9) true ≡ ok ((pos 2 ∷ pos 5 ∷ []) ++ pos 7 ∷ [])
up_versions_in_two_steps_example =
    up_versions_in_two_steps files applied (pos 5) (pos 9) (pos 2 ∷ pos 5 ∷ []) (pos 7 ∷ [])
      files-IsPositive (omega arith) up_to_five then_seven
