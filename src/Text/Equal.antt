-- ===== src/Text/Equal.antt =====
-- The test of two strings decides their equality.
use pressly_goose_patches.Base.{◌≡◌, refl, true, [], ◌∷◌, arith}
use pressly_goose_patches.Text.{Str, equal}

pub equal-eq : (s t : Str) → equal s t ≡ true → s ≡ t
unfolding equal
equal-eq [] [] h = refl
equal-eq [] (d ∷ t) h = ground arith
equal-eq (c ∷ s) [] h = ground arith
equal-eq (c ∷ s) (d ∷ t) h = ground (arith, equal-eq s t)

pub equal_refl : (s : Str) → equal s s ≡ true
unfolding equal
equal_refl [] = refl
equal_refl (c ∷ s) = ground (arith, equal_refl s)
