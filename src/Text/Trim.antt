-- ===== src/Text/Trim.antt =====
-- `strings.TrimSpace` leaves a text with no space at either end.
use pressly_goose_patches.Base.{
  ◌≡◌, refl, ap, ◌∙◌, sym, Bool, true, not, [], ◌∷◌, ◌++◌, reverse, inl, inr, arith, Bool-cases,
}
use pressly_goose_patches.Text.{Str, is_space, trim_left, trim_space}
use mathlib.Core.List.{reverse-reverse, reverse-append}

-- No space in front.
abbrev starts_clean : Str → Bool
starts_clean [] = true
starts_clean (c ∷ s) = not (is_space c)

starts_clean-trim_left : (s : Str) → starts_clean (trim_left s) ≡ true
unfolding trim_left
starts_clean-trim_left [] = refl
starts_clean-trim_left (c ∷ s) = ground (arith, starts_clean-trim_left s)

pub trim_left_of_clean : (s : Str) → starts_clean s ≡ true → trim_left s ≡ s
unfolding trim_left
trim_left_of_clean [] h = refl
trim_left_of_clean (c ∷ s) h = ground arith

starts_clean-append_left : (s t : Str) → starts_clean (s ++ t) ≡ true → starts_clean s ≡ true
starts_clean-append_left [] t h = refl
starts_clean-append_left (c ∷ s) t h = h

trim_left_suffix : (s : Str) → (w : Str) × (s ≡ w ++ trim_left s)
unfolding trim_left
trim_left_suffix [] = ([], refl)
trim_left_suffix (c ∷ s) = elim (Bool-cases (is_space c)) [
  | inl space ↦ let (w, e) = trim_left_suffix s in (c ∷ w, rw space (ap (◌∷◌ c) e))
  | inr other ↦ ([], rw other)
]

-- The front stays clean while the back is trimmed.
starts_clean-trim_right :
    (t : Str) → starts_clean t ≡ true → starts_clean (reverse (trim_left (reverse t))) ≡ true
starts_clean-trim_right t h =
    let (w, e) = trim_left_suffix (reverse t) in
    let split : t ≡ reverse (trim_left (reverse t)) ++ reverse w =
      sym (reverse-reverse t) ∙ ap reverse e ∙ reverse-append w (trim_left (reverse t)) in
    starts_clean-append_left (reverse (trim_left (reverse t))) (reverse w) (rw (← split) h)

pub trim_left-trim_space : (s : Str) → trim_left (trim_space s) ≡ trim_space s
unfolding trim_space
trim_left-trim_space s =
    trim_left_of_clean _ (starts_clean-trim_right (trim_left s) (starts_clean-trim_left s))

pub trim_space_idem : (s : Str) → trim_space (trim_space s) ≡ trim_space s
unfolding trim_space
trim_space_idem s =
    let back = trim_left (reverse (trim_left s)) in
    ap (λ t. reverse (trim_left (reverse t))) (trim_left-trim_space s)
    ∙ ap (λ t. reverse (trim_left t)) (reverse-reverse back)
    ∙ ap reverse (trim_left_of_clean back (starts_clean-trim_left (reverse (trim_left s))))
