-- ===== src/SqlParser/Machine.antt =====
-- `ParseSQLMigration` of internal/sqlparser/parser.go: one line, the loop over the lines, and the
-- end of the input. `expand` stands for `interpolate.Interpolate` over the environment.
use pressly_goose_patches.Base.{
  Bool, true, false, ◌&&◌, ◌||◌, List, [], ◌∷◌, ◌++◌, Option, none, some, if◌then◌else◌, is_nil,
}
use pressly_goose_patches.Text.{
  Str, codes, has_prefix, contains, trim_space, scan_lines, scan_lines_from,
}
use pressly_goose_patches.SqlParser.{
  Direction, direction_up, direction_down, ParserState, start, goose_up, goose_statement_begin_up,
  goose_statement_end_up, goose_down, goose_statement_begin_down, goose_statement_end_down,
  Annotation, annotation_up, annotation_down, annotation_statement_begin, annotation_statement_end,
  annotation_no_transaction, annotation_envsub_on, annotation_envsub_off, duplicate_up,
  down_before_up, statement_begin_misplaced, statement_end_misplaced, missing_semicolon,
  substitution_failed, unexpected_state, scan_failed, must_start_with_up, missing_statement_end,
  Result, ok, err, ◌>>=◌, extract_annotation, ends_with_semicolon, cleanup_statement,
}

-- The local variables of the loop.
pub record Machine : Type 0 where
  pub state : ParserState
  pub use_tx : Bool
  pub use_envsub : Bool
  pub buf : Str
  pub stmts : List Str

abbrev pub initial : Machine
initial = record { state = start; use_tx = true; use_envsub = false; buf = []; stmts = [] }

unfoldable pub is_start : ParserState → Bool
is_start start = true
is_start _ = false

-- The test for an annotation line.
unfoldable pub is_annotation_line : Str → Bool
unfolding has_prefix contains trim_space
is_annotation_line line =
    has_prefix (trim_space line) (codes "--") && contains line (codes "+goose")

-- A comment or an empty line, which is ignored in front of a statement.
unfoldable pub is_comment_line : Str → Bool
unfolding has_prefix trim_space
is_comment_line line = has_prefix (trim_space line) (codes "--") || is_nil line

unfoldable pub on_up : Machine → ParserState → Result Machine
on_up m start = ok (record m { state = goose_up })
on_up m _ = err duplicate_up

end_up : Direction → Machine → Result Machine
unfolding trim_space
end_up dir m =
    if is_nil (trim_space m.buf)
    then ok (record m { state = goose_down })
    else err (missing_semicolon m.state dir (trim_space m.buf))

unfoldable pub on_down : Direction → Machine → ParserState → Result Machine
unfolding end_up
on_down dir m goose_up = end_up dir m
on_down dir m goose_statement_end_up = end_up dir m
on_down dir m _ = err down_before_up

unfoldable pub on_statement_begin : Machine → ParserState → Result Machine
on_statement_begin m goose_up = ok (record m { state = goose_statement_begin_up })
on_statement_begin m goose_statement_end_up = ok (record m { state = goose_statement_begin_up })
on_statement_begin m goose_down = ok (record m { state = goose_statement_begin_down })
on_statement_begin m goose_statement_end_down = ok (record m { state = goose_statement_begin_down })
on_statement_begin m _ = err statement_begin_misplaced

unfoldable pub on_statement_end : Machine → ParserState → Result Machine
on_statement_end m goose_statement_begin_up = ok (record m { state = goose_statement_end_up })
on_statement_end m goose_statement_begin_down = ok (record m { state = goose_statement_end_down })
on_statement_end m _ = err statement_end_misplaced

-- What a line that was written to the buffer, or that ended a block, does in the right direction.
unfoldable pub export : Machine → Str → ParserState → Machine
unfolding ends_with_semicolon trim_space
export m line goose_up =
    if ends_with_semicolon line
    then record m { stmts = m.stmts ++ (cleanup_statement m.buf ∷ []); buf = [] }
    else m
export m line goose_down =
    if ends_with_semicolon line
    then record m { stmts = m.stmts ++ (cleanup_statement m.buf ∷ []); buf = [] }
    else m
export m line goose_statement_end_up = record m {
  stmts = m.stmts ++ (cleanup_statement m.buf ∷ []);
  buf = [];
  state = goose_up;
}
export m line goose_statement_end_down = record m {
  stmts = m.stmts ++ (cleanup_statement m.buf ∷ []);
  buf = [];
  state = goose_down;
}
export m line _ = m

-- The switch that drops what belongs to the other direction.
unfoldable pub in_direction : Direction → Machine → Str → ParserState → Result Machine
unfolding export
in_direction dir m line start = err (unexpected_state start line)
in_direction direction_down m line goose_up = ok (record m { buf = [] })
in_direction direction_down m line goose_statement_begin_up = ok (record m { buf = [] })
in_direction direction_down m line goose_statement_end_up = ok (record m { buf = [] })
in_direction direction_up m line goose_down = ok (record m { buf = [] })
in_direction direction_up m line goose_statement_begin_down = ok (record m { buf = [] })
in_direction direction_up m line goose_statement_end_down = ok (record m { buf = [] })
in_direction dir m line state = ok (export m line state)

-- The end of the input.
unfoldable pub finish : Direction → Machine → ParserState → Result (List Str × Bool)
unfolding trim_space
finish dir m start = err must_start_with_up
finish dir m goose_statement_begin_up = err missing_statement_end
finish dir m goose_statement_begin_down = err missing_statement_end
finish dir m state =
    if is_nil (trim_space m.buf)
    then ok (m.stmts, m.use_tx)
    else err (missing_semicolon state dir (trim_space m.buf))

module _ (expand : Str → Option Str) (dir : Direction) where
  substituted : Str → Option Str → Result Str
  substituted line none = err (substitution_failed line)
  substituted line (some expanded) = ok expanded

  append_line : Machine → Str → Result Machine
  unfolding in_direction
  append_line m line =
      in_direction dir (record m { buf = m.buf ++ (line ++ b'\n' ∷ []) }) line m.state

  -- The line is written to the buffer, but for the annotation that ends a block.
  unfoldable pub write_line : Machine → Str → ParserState → Result Machine
  unfolding in_direction substituted append_line
  write_line m line goose_statement_end_up = in_direction dir m line m.state
  write_line m line goose_statement_end_down = in_direction dir m line m.state
  write_line m line _ =
      if m.use_envsub
      then (do line' ← substituted line (expand line); append_line m line')
      else append_line m line

  unfoldable pub body : Machine → Str → Result Machine
  unfolding write_line is_comment_line
  body m line = if is_nil m.buf && is_comment_line line then ok m else write_line m line m.state

  unfoldable pub annotate : Machine → Str → Annotation → Result Machine
  unfolding body on_up on_down on_statement_begin on_statement_end
  annotate m line annotation_up = on_up m m.state
  annotate m line annotation_down = on_down dir m m.state
  annotate m line annotation_statement_begin = on_statement_begin m m.state
  annotate m line annotation_statement_end = do m' ← on_statement_end m m.state; body m' line
  annotate m line annotation_no_transaction = ok (record m { use_tx = false })
  annotate m line annotation_envsub_on = ok (record m { use_envsub = true })
  annotate m line annotation_envsub_off = ok (record m { use_envsub = false })

  unfoldable pub step : Machine → Str → Result Machine
  unfolding annotate is_start is_annotation_line extract_annotation trim_space
  step m line =
      if is_start m.state && is_nil (trim_space line)
      then ok m
      else if is_annotation_line line
      then (do cmd ← extract_annotation line; annotate m line cmd)
      else body m line

  unfoldable pub run : Machine → List Str → Result Machine
  unfolding step
  run m [] = ok m
  run m (line ∷ lines) = do m' ← step m line; run m' lines

  -- The lines that the scanner gives, and whether it then stopped with an error.
  unfoldable pub parse_lines : List Str → Bool → Result (List Str × Bool)
  unfolding run finish
  parse_lines lines failed = do
    m ← run initial lines
    if failed then err scan_failed else finish dir m m.state

  unfoldable pub parse_sql_migration : Str → Result (List Str × Bool)
  unfolding parse_lines scan_lines_from
  parse_sql_migration text = parse_lines (scan_lines text) false
