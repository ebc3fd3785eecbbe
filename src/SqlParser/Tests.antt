-- ===== src/SqlParser/Tests.antt =====
-- Runs of the parser, and its theorems at concrete files.
use pressly_goose_patches.Base.{
  ◌≡◌, refl, ◌≤◌, ◌⊎◌, Bool, true, false, not, List, [], ◌∷◌, ◌++◌, some, All,
}
use pressly_goose_patches.Text.{Str, codes, trim_space, scan_lines, scan_lines_from}
use pressly_goose_patches.SqlParser.{
  direction_up, direction_down, goose_up, goose_down, start, annotation_up, annotation_down,
  annotation_statement_begin, annotation_statement_end, ok, err, missing_semicolon,
  extract_annotation, bad_annotation, leading_whitespace, ends_with_semicolon,
}
use pressly_goose_patches.SqlParser.Machine.{
  parse_lines, parse_sql_migration, is_annotation_line, is_comment_line,
}
use pressly_goose_patches.SqlParser.Steps.{line_annotation}
use pressly_goose_patches.SqlParser.Directions.{
  any_no_transaction, parse_use_tx, parse_directions_agree,
}
use pressly_goose_patches.SqlParser.Diagram.{walk, parse_walk}
use pressly_goose_patches.SqlParser.Counts.{count_annotation, parse_annotation_counts}
use pressly_goose_patches.SqlParser.Sections.{parse_up_section, parse_without_down, HasNoDown}
use pressly_goose_patches.SqlParser.Statements.{parse_trimmed}
use pressly_goose_patches.SqlParser.Render.{Item, simple, block, texts, file, IsWritable}
use pressly_goose_patches.SqlParser.RoundTrip.{parse_file}

abbrev up_part : Str
up_part =
    codes "\n-- +goose Up\n-- a comment\nCREATE TABLE t (\n  id int\n); -- done\n"
    ++ codes "-- +goose StatementBegin\nBEGIN;\nEND;\n-- +goose StatementEnd\n"

abbrev down_part : Str
down_part = codes "DROP TABLE t;\n-- +goose no transaction"

abbrev up_lines : List Str
up_lines = scan_lines up_part

abbrev down_lines : List Str
down_lines = scan_lines down_part

abbrev down_mark : Str
down_mark = codes "-- +goose Down"

abbrev sample : List Str
sample = up_lines ++ (down_mark ∷ down_lines)

abbrev up_statements : List Str
up_statements = codes "CREATE TABLE t (\n  id int\n); -- done" ∷ codes "BEGIN;\nEND;" ∷ []

abbrev down_statements : List Str
down_statements = codes "DROP TABLE t;" ∷ []

parse_text :
    parse_sql_migration some direction_up (up_part ++ codes "-- +goose Down\n" ++ down_part)
    ≡ ok (up_statements, false)
unfolding parse_sql_migration
parse_text = refl

parse_up : parse_lines some direction_up sample false ≡ ok (up_statements, false)
unfolding parse_lines scan_lines_from
parse_up = refl

parse_down : parse_lines some direction_down sample false ≡ ok (down_statements, false)
unfolding parse_lines scan_lines_from
parse_down = refl

parse_up_only : parse_lines some direction_down up_lines false ≡ ok ([], true)
unfolding parse_lines scan_lines_from
parse_up_only = refl

-- A block that holds white space only is stored as an empty statement.
empty_statement :
    parse_lines some direction_up
      (codes "-- +goose Up"
        ∷ codes "-- +goose StatementBegin"
        ∷ codes "  "
        ∷ codes "-- +goose StatementEnd"
        ∷ [])
      false
    ≡ ok ([] ∷ [], true)
unfolding parse_lines
empty_statement = refl

errors :
    (extract_annotation (codes " -- +goose Up") ≡ err (bad_annotation leading_whitespace))
    × (parse_lines some direction_up (codes "-- +goose Up" ∷ codes "SELECT 1" ∷ []) false
        ≡ err (missing_semicolon goose_up direction_up (codes "SELECT 1")))
unfolding parse_lines extract_annotation
errors = (refl, refl)

parse_use_tx_example : false ≡ not (any_no_transaction sample)
parse_use_tx_example = parse_use_tx some direction_up sample false up_statements false parse_up

parse_directions_agree_example : ◌≡◌ {A = Bool} false false
parse_directions_agree_example =
    parse_directions_agree some sample false up_statements down_statements false false parse_up
      parse_down

parse_walk_example : (walk start sample ≡ some goose_up) ⊎ (walk start sample ≡ some goose_down)
parse_walk_example = parse_walk some direction_up sample false parse_up

parse_annotation_counts_example :
    (count_annotation annotation_up sample ≡ 1)
    × (count_annotation annotation_down sample ≤ 1)
    × (count_annotation annotation_statement_begin sample
        ≡ count_annotation annotation_statement_end sample)
parse_annotation_counts_example = parse_annotation_counts some direction_up sample false parse_up

down_mark-annotation : line_annotation down_mark ≡ some annotation_down
unfolding line_annotation is_annotation_line extract_annotation
down_mark-annotation = refl

parse_up_section_example :
    (tx : Bool) × (parse_lines some direction_up up_lines false ≡ ok (up_statements, tx))
parse_up_section_example =
    parse_up_section some up_lines down_lines down_mark false false up_statements
      down_mark-annotation parse_up

up_lines-HasNoDown : HasNoDown up_lines
unfolding line_annotation is_annotation_line extract_annotation scan_lines_from
up_lines-HasNoDown = (
  λ e. cc,
  (
    λ e. cc,
    (λ e. cc, (λ e. cc, (λ e. cc, (λ e. cc, (λ e. cc, (λ e. cc, (λ e. cc, (λ e. cc, tt)))))))),
  ),
)

parse_without_down_example : ◌≡◌ {A = List Str} [] []
parse_without_down_example =
    parse_without_down some up_lines false true [] up_lines-HasNoDown parse_up_only

parse_trimmed_example : All (λ s. trim_space s ≡ s) up_statements
parse_trimmed_example = parse_trimmed some direction_up sample false false up_statements parse_up

abbrev up_items : List Item
up_items =
    simple (codes "CREATE TABLE t (id int);")
    ∷ block (codes "CREATE FUNCTION f()") (codes "BEGIN;" ∷ codes "" ∷ codes "END;" ∷ [])
    ∷ []

abbrev down_items : List Item
down_items = simple (codes "DROP TABLE t; -- gone") ∷ []

up_items-IsWritable : All IsWritable up_items
unfolding is_annotation_line is_comment_line ends_with_semicolon
up_items-IsWritable = (((refl, refl), refl), (((refl, refl), (refl, (refl, (refl, tt)))), tt))

down_items-IsWritable : All IsWritable down_items
unfolding is_annotation_line is_comment_line ends_with_semicolon
down_items-IsWritable = (((refl, refl), refl), tt)

parse_file_example :
    (parse_lines some direction_up (file up_items down_items) false ≡ ok (texts up_items, true))
    × (parse_lines some direction_down (file up_items down_items) false
        ≡ ok (texts down_items, true))
parse_file_example = parse_file some up_items down_items up_items-IsWritable down_items-IsWritable
