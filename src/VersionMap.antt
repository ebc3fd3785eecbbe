-- ===== src/VersionMap.antt =====
-- Go's `map[int64]T`, as an association list. The order of the list stands for the order in which
-- `range` visits the map, which Go leaves open: theorems hold for every list.
use pressly_goose_patches.Base.{
  ◌≡◌, refl, Bool, true, false, List, [], ◌∷◌, Option, none, some, arith, if◌then◌else◌,
}
use pressly_goose_patches.Int.{ℤ, eqb_ℤ, eqb_ℤ_iff}

abbrev pub VersionMap : Type 0 → Type 0
VersionMap V = List (ℤ × V)

module _ {V : Type 0} where
  unfoldable pub lookup : ℤ → VersionMap V → Option V
  lookup k [] = none
  lookup k ((j, v) ∷ m) = if eqb_ℤ j k then some v else lookup k m

  -- m[k] = v
  unfoldable pub insert : ℤ → V → VersionMap V → VersionMap V
  insert k v [] = (k, v) ∷ []
  insert k v ((j, w) ∷ m) = if eqb_ℤ j k then (k, v) ∷ m else (j, w) ∷ insert k v m

  -- `_, ok := m[k]`
  unfoldable pub has : ℤ → VersionMap V → Bool
  unfolding lookup
  has k m = elim (lookup k m) [ none ↦ false | some _ ↦ true ]

  pub lookup-insert :
      (k j : ℤ) (v : V) (m : VersionMap V)
      → lookup j (insert k v m) ≡ (if eqb_ℤ k j then some v else lookup j m)
  unfolding lookup insert
  lookup-insert k j v [] = refl
  lookup-insert k j v ((i, w) ∷ m) =
      ground (arith, lookup-insert k j v m, eqb_ℤ_iff i k, eqb_ℤ_iff i j, eqb_ℤ_iff k j)

  pub has-insert :
      (k j : ℤ) (v : V) (m : VersionMap V)
      → has j (insert k v m) ≡ (if eqb_ℤ k j then true else has j m)
  unfolding has
  has-insert k j v m = ground (arith, lookup-insert k j v m)
