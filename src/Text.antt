-- ===== src/Text.antt =====
-- Go strings as lists of code points, and the functions of the packages `strings`, `unicode` and
-- `bufio` that the program calls. A string that is not UTF-8 has no counterpart here.
pub mod Trim
pub mod Equal
pub mod Cases
use Prim.Native.Char.{code}
use Prim.Native.String.{String}
use pressly_goose_patches.Base.{
  ℕ, zero, suc, ◌+◌, ◌-◌, Bool, true, false, ◌&&◌, ◌||◌, List, [], ◌∷◌, ◌++◌, reverse, ◌==◌, leb,
  if◌then◌else◌, length, map,
}

abbrev pub Str : Type 0
Str = List ℕ

-- The code points of a literal.
abbrev pub codes : String → Str
codes String.[] = []
codes (String.◌∷◌ c s) = code c ∷ codes s

unfoldable pub equal : Str → Str → Bool
equal [] [] = true
equal (c ∷ s) (d ∷ t) = c == d && equal s t
equal _ _ = false

-- strings.HasPrefix(s, prefix)
unfoldable pub has_prefix : Str → Str → Bool
has_prefix s [] = true
has_prefix [] (d ∷ p) = false
has_prefix (c ∷ s) (d ∷ p) = c == d && has_prefix s p

-- strings.HasSuffix(s, suffix)
unfoldable pub has_suffix : Str → Str → Bool
unfolding has_prefix
has_suffix s suffix = has_prefix (reverse s) (reverse suffix)

-- strings.Contains(s, sub)
unfoldable pub contains : Str → Str → Bool
unfolding has_prefix
contains [] sub = has_prefix [] sub
contains (c ∷ s) sub = has_prefix (c ∷ s) sub || contains s sub

-- s[n:]
unfoldable pub drop : ℕ → Str → Str
drop zero s = s
drop (suc n) [] = []
drop (suc n) (c ∷ s) = drop n s

-- strings.Replace(s, old, "", 1), for an `old` that is not empty
unfoldable pub remove_first : Str → Str → Str
unfolding has_prefix drop
remove_first old [] = []
remove_first old (c ∷ s) =
    let rest = remove_first old s in
    if has_prefix (c ∷ s) old then drop (length old) (c ∷ s) else c ∷ rest

-- strings.ReplaceAll(s, old, ""), for an `old` that is not empty; the number counts the code points
-- of a match that are still to be skipped
unfoldable pub remove_all_from : ℕ → Str → Str → Str
unfolding has_prefix
remove_all_from n old [] = []
remove_all_from (suc n) old (c ∷ s) = remove_all_from n old s
remove_all_from zero old (c ∷ s) =
    let skipped = remove_all_from (length old - 1) old s in
    let kept = remove_all_from 0 old s in if has_prefix (c ∷ s) old then skipped else c ∷ kept

abbrev pub remove_all : Str → Str → Str
remove_all = remove_all_from 0

-- unicode.IsSpace
unfoldable pub is_space : ℕ → Bool
is_space c =
    leb 9 c && leb c 13
    || c == b' '
    || c == 0x85
    || c == 0xa0
    || c == 0x1680
    || leb 0x2000 c && leb c 0x200a
    || c == 0x2028
    || c == 0x2029
    || c == 0x202f
    || c == 0x205f
    || c == 0x3000

unfoldable pub trim_left : Str → Str
unfolding is_space
trim_left [] = []
trim_left (c ∷ s) = let rest = trim_left s in if is_space c then rest else c ∷ s

-- strings.TrimSpace
unfoldable pub trim_space : Str → Str
unfolding trim_left
trim_space s = reverse (trim_left (reverse (trim_left s)))

-- The simple case folding of `strings.EqualFold`, as far as one side is ASCII: besides the two
-- cases of a letter, the long s and the Kelvin sign fold to ASCII letters.
unfoldable pub fold : ℕ → ℕ
fold c =
    if leb b'A' c && leb c b'Z'
    then c + 32
    else if c == 0x17f
    then b's'
    else if c == 0x212a
    then b'k'
    else c

-- strings.EqualFold(s, t), where one of the two is ASCII
unfoldable pub equal_fold : Str → Str → Bool
unfolding equal fold
equal_fold s t = equal (map fold s) (map fold t)

-- One trailing "\r" less, as `bufio.ScanLines` does with each line.
unfoldable pub drop_cr : Str → Str
drop_cr [] = []
drop_cr (c ∷ []) = if c == b'\r' then [] else c ∷ []
drop_cr (c ∷ d ∷ s) = c ∷ drop_cr (d ∷ s)

-- bufio.ScanLines; the first argument is the line read so far, backwards
unfoldable pub scan_lines_from : Str → Str → List Str
unfolding drop_cr
scan_lines_from acc [] = elim acc [ [] ↦ [] | c ∷ s ↦ drop_cr (reverse (c ∷ s)) ∷ [] ]
scan_lines_from acc (c ∷ s) =
    let next = scan_lines_from [] s in
    let more = scan_lines_from (c ∷ acc) s in
    if c == b'\n' then drop_cr (reverse acc) ∷ next else more

abbrev pub scan_lines : Str → List Str
scan_lines = scan_lines_from []

-- bufio.ScanWords
unfoldable pub scan_words_from : Str → Str → List Str
unfolding is_space
scan_words_from acc [] = elim acc [ [] ↦ [] | c ∷ s ↦ reverse (c ∷ s) ∷ [] ]
scan_words_from acc (c ∷ s) =
    let next = scan_words_from [] s in
    let more = scan_words_from (c ∷ acc) s in
    if is_space c then elim acc [ [] ↦ next | d ∷ t ↦ reverse (d ∷ t) ∷ next ] else more

abbrev pub scan_words : Str → List Str
scan_words = scan_words_from []
