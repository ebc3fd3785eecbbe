-- ===== src/Text/Cases/Tests.antt =====
-- The cases of names over ASCII.
use pressly_goose_patches.Base.{
  ◌≡◌, refl, ◌+◌, ◌-◌, true, ◌&&◌, ◌||◌, leb, if◌then◌else◌, arith, length,
}
use pressly_goose_patches.Text.{codes}
use pressly_goose_patches.Text.Cases.{
  Unicode, is_alpha_num, camel_case, snake_case, snake_from, snake_char, next, end_of, trimmed,
  trim_underscore,
}
use pressly_goose_patches.Text.Cases.Shape.{
  is_spaced, count_plain, count_alpha_num, KeepsLetters, case_shapes,
}

abbrev ascii : Unicode
ascii = record {
  is_letter = λ c. leb 65 c && leb c 90 || leb 97 c && leb c 122;
  is_number = λ c. leb 48 c && leb c 57;
  to_upper = λ c. if leb 97 c && leb c 122 then c - 32 else c;
  to_lower = λ c. if leb 65 c && leb c 90 then c + 32 else c;
}

ascii-KeepsLetters : KeepsLetters ascii
unfolding is_alpha_num
ascii-KeepsLetters c h = ground arith

case_shapes_example :
    (is_spaced true (snake_case ascii (codes "$$ Add some Column.")) ≡ true)
    × (count_plain (snake_case ascii (codes "$$ Add some Column."))
        ≡ count_alpha_num ascii (codes "$$ Add some Column."))
    × (length (camel_case ascii (codes "$$ Add some Column."))
        ≡ count_alpha_num ascii (codes "$$ Add some Column."))
case_shapes_example = case_shapes ascii (codes "$$ Add some Column.") ascii-KeepsLetters

snake_name : snake_case ascii (codes "Add some.. Column. ") ≡ codes "add_some_column"
unfolding snake_case snake_from snake_char next is_alpha_num end_of trimmed trim_underscore
snake_name = refl

-- One delimiter at the end leaves its underscore.
snake_tail : snake_case ascii (codes "Add column.") ≡ codes "add_column_"
unfolding snake_case snake_from snake_char next is_alpha_num end_of trimmed trim_underscore
snake_tail = refl
