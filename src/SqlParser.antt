-- ===== src/SqlParser.antt =====
-- internal/sqlparser/parser.go and parse.go: the types, and the annotations of a migration file.
pub mod Machine
pub mod Steps
pub mod Directions
pub mod Diagram
pub mod Counts
pub mod Sections
pub mod Statements
pub mod Render
pub mod RoundTrip
mod Tests
use pressly_goose_patches.Base.{
  Bool, true, false, ◌&&◌, ◌||◌, List, [], ◌∷◌, Option, none, some, if◌then◌else◌, is_nil,
}
use pressly_goose_patches.Text.{
  Str, codes, has_prefix, has_suffix, contains, remove_all, remove_all_from, remove_first,
  trim_space, equal_fold, scan_words, scan_words_from,
}

pub data Direction : Type 0 where
  direction_up direction_down : Direction

unfoldable pub from_bool : Bool → Direction
from_bool true = direction_up
from_bool false = direction_down

unfoldable pub to_bool : Direction → Bool
to_bool direction_up = true
to_bool direction_down = false

pub data ParserState : Type 0 where
  start goose_up goose_statement_begin_up goose_statement_end_up : ParserState
  goose_down goose_statement_begin_down goose_statement_end_down : ParserState

pub data Annotation : Type 0 where
  annotation_up annotation_down : Annotation
  annotation_statement_begin annotation_statement_end : Annotation
  annotation_no_transaction annotation_envsub_on annotation_envsub_off : Annotation

pub data AnnotationError : Type 0 where
  leading_whitespace multiple_annotations empty_annotation not_supported : AnnotationError

pub data ParseError : Type 0 where
  bad_annotation : AnnotationError → ParseError
  duplicate_up : ParseError
  down_before_up : ParseError
  statement_begin_misplaced : ParseError
  statement_end_misplaced : ParseError
  missing_semicolon : ParserState → Direction → Str → ParseError
  substitution_failed : Str → ParseError
  unexpected_state : ParserState → Str → ParseError
  scan_failed : ParseError
  must_start_with_up : ParseError
  missing_statement_end : ParseError

pub data Result (A : Type 0) : Type 0 where
  ok : A → Result A
  err : ParseError → Result A

infixl 5 ◌>>=◌
abbrev pub ◌>>=◌ : {A B : Type 0} → Result A → (A → Result B) → Result B
ok a >>= f = f a
err e >>= f = err e

-- The spelling of an annotation, a constant of the source.
abbrev pub spelling : Annotation → Str
spelling annotation_up = codes "Up"
spelling annotation_down = codes "Down"
spelling annotation_statement_begin = codes "StatementBegin"
spelling annotation_statement_end = codes "StatementEnd"
spelling annotation_no_transaction = codes "NO TRANSACTION"
spelling annotation_envsub_on = codes "ENVSUB ON"
spelling annotation_envsub_off = codes "ENVSUB OFF"

abbrev pub supported_annotations : List Annotation
supported_annotations =
    annotation_up ∷ annotation_down ∷ annotation_statement_begin ∷ annotation_statement_end
    ∷ annotation_no_transaction ∷ annotation_envsub_on ∷ annotation_envsub_off ∷ []

-- The loop over `supportedAnnotations`.
unfoldable pub find_annotation : List Annotation → Str → Option Annotation
unfolding equal_fold
find_annotation [] cmd = none
find_annotation (a ∷ as') cmd =
    if equal_fold (spelling a) cmd then some a else find_annotation as' cmd

supported : Option Annotation → Result Annotation
supported none = err (bad_annotation not_supported)
supported (some a) = ok a

-- The command of an annotation line, by removing "--" and "+goose".
unfoldable pub annotation_command : Str → Str
unfolding remove_all_from remove_first
annotation_command line = remove_first (codes "+goose") (remove_all (codes "--") line)

unfoldable pub extract_annotation : Str → Result Annotation
unfolding has_prefix contains trim_space find_annotation supported annotation_command
extract_annotation line =
    if has_prefix line (codes " ") || has_prefix line (codes "\t")
    then err (bad_annotation leading_whitespace)
    else if contains (annotation_command line) (codes "+goose")
    then err (bad_annotation multiple_annotations)
    else if is_nil (trim_space (annotation_command line))
    then err (bad_annotation empty_annotation)
    else supported (find_annotation supported_annotations (trim_space (annotation_command line)))

-- The loop over the words of a line: the last word before a comment.
unfoldable pub last_word : Str → List Str → Str
unfolding has_prefix
last_word prev [] = prev
last_word prev (word ∷ words) =
    let rest = last_word word words in if has_prefix word (codes "--") then prev else rest

unfoldable pub ends_with_semicolon : Str → Bool
unfolding last_word has_suffix scan_words_from
ends_with_semicolon line = has_suffix (last_word [] (scan_words line)) (codes ";")

abbrev pub cleanup_statement : Str → Str
cleanup_statement = trim_space
