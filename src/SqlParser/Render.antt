-- ===== src/SqlParser/Render.antt =====
-- Migration files written from statements: a statement of one line that ends with a semicolon, or a
-- block between `StatementBegin` and `StatementEnd`, for the parser of internal/sqlparser/parser.go.
pub mod Section
pub mod Skip
use pressly_goose_patches.Base.{
  append-nil, append_assoc, ℕ, ◌+◌, ◌≤◌, Bool, true, false, ◌≡◌, refl, sym, ap, ◌∙◌, ◌⊎◌, inl, inr,
  not, ◌&&◌, ◌||◌, List, [], ◌∷◌, ◌++◌, Option, none, some, arith, if◌then◌else◌, is_nil, All,
  All-append, Bool-cases, Option-cases,
}
use pressly_goose_patches.Text.{Str, codes, has_prefix, contains, trim_space}
use pressly_goose_patches.SqlParser.{
  Direction, direction_up, direction_down, to_bool, ParserState, start, goose_up,
  goose_statement_begin_up, goose_statement_end_up, goose_down, goose_statement_begin_down,
  goose_statement_end_down, Annotation, annotation_up, annotation_down, annotation_statement_begin,
  annotation_statement_end, annotation_no_transaction, annotation_envsub_on, annotation_envsub_off,
  ParseError, Result, ok, scan_failed, err, ◌>>=◌, extract_annotation, ends_with_semicolon,
}
use pressly_goose_patches.SqlParser.Machine.{
  Machine, initial, is_start, is_annotation_line, is_comment_line, on_up, on_down,
  on_statement_begin, on_statement_end, export, in_direction, finish, write_line, body, annotate,
  step, run, parse_lines,
}
use pressly_goose_patches.SqlParser.Steps.{
  bind-eq-ok, Result-cases, line_annotation, settled, Accepted, skipped, text, annotated,
  step-Accepted, Weighed, body-Weighed, TextEffect, body-TextEffect, is_opposite, Dropped,
  body-Dropped, in_direction-stmts,
}
use pressly_goose_patches.SqlParser.{from_bool, find_annotation}

pub data Item : Type 0 where
  simple : Str → Item
  block : Str → List Str → Item

abbrev pub up_line : Str
up_line = codes "-- +goose Up"

abbrev pub down_line : Str
down_line = codes "-- +goose Down"

abbrev pub begin_line : Str
begin_line = codes "-- +goose StatementBegin"

abbrev pub end_line : Str
end_line = codes "-- +goose StatementEnd"

unfoldable pub item_lines : Item → List Str
item_lines (simple line) = line ∷ []
item_lines (block line lines) = begin_line ∷ line ∷ (lines ++ end_line ∷ [])

abbrev pub with_newline : Str → Str → Str
with_newline b line = b ++ (line ++ b'\n' ∷ [])

unfoldable pub join_onto : Str → List Str → Str
join_onto b [] = b
join_onto b (line ∷ lines) = join_onto (with_newline b line) lines

-- The statement that an item stands for.
unfoldable pub item_text : Item → Str
unfolding join_onto
item_text (simple line) = trim_space (with_newline [] line)
item_text (block line lines) = trim_space (join_onto [] (line ∷ lines))

unfoldable pub render : List Item → List Str
unfolding item_lines
render [] = []
render (item ∷ items) = item_lines item ++ render items

unfoldable pub texts : List Item → List Str
unfolding item_text
texts [] = []
texts (item ∷ items) = item_text item ∷ texts items

-- A line of SQL that opens a statement.
abbrev pub IsOpening : Str → Type 0
IsOpening line = (is_annotation_line line ≡ false) × (is_comment_line line ≡ false)

abbrev pub IsWritable : Item → Type 0
IsWritable (simple line) = IsOpening line × (ends_with_semicolon line ≡ true)
IsWritable (block line lines) = IsOpening line × All (λ l. is_annotation_line l ≡ false) lines

abbrev pub file : List Item → List Item → List Str
file ups downs = up_line ∷ (render ups ++ down_line ∷ render downs)

-- The three states of a section, the up section for `true`.
unfoldable pub home : Bool → ParserState
home true = goose_up
home false = goose_down

unfoldable pub inside : Bool → ParserState
inside true = goose_statement_begin_up
inside false = goose_statement_begin_down

unfoldable pub ended : Bool → ParserState
ended true = goose_statement_end_up
ended false = goose_statement_end_down

pub settled-home : (up : Bool) → settled (home up) ≡ home up
unfolding settled home
settled-home true = refl
settled-home false = refl

pub settled-ended : (up : Bool) → settled (ended up) ≡ home up
unfolding settled home ended
settled-ended true = refl
settled-ended false = refl

-- A machine between two statements.
abbrev pub ready : Bool → Bool → List Str → Machine
ready up tx stmts = record {
  state = home up;
  use_tx = tx;
  use_envsub = false;
  buf = [];
  stmts = stmts;
}

pub is_nil-with_newline : (b line : Str) → is_nil (with_newline b line) ≡ false
is_nil-with_newline [] [] = refl
is_nil-with_newline [] (c ∷ line) = refl
is_nil-with_newline (c ∷ b) line = refl

pub is_nil-join_onto :
    (b : Str) (lines : List Str) → is_nil b ≡ false → is_nil (join_onto b lines) ≡ false
unfolding join_onto
is_nil-join_onto b [] n = n
is_nil-join_onto b (line ∷ lines) n =
    is_nil-join_onto (with_newline b line) lines (is_nil-with_newline b line)
