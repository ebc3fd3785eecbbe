-- ===== src/SqlParser/Render/Section.antt =====
-- `ParseSQLMigration` of internal/sqlparser/parser.go over written statements of its direction.
use pressly_goose_patches.Base.{
  append-nil, append_assoc, Bool, false, ◌≡◌, refl, ◌&&◌, List, [], ◌∷◌, ◌++◌, Option, arith,
  is_nil, All,
}
use pressly_goose_patches.Text.{Str, trim_space}
use pressly_goose_patches.SqlParser.{Direction, ok}
use pressly_goose_patches.SqlParser.Machine.{
  Machine, is_start, is_annotation_line, is_comment_line, on_statement_begin, export, in_direction,
  write_line, body, annotate, step, run,
}
use pressly_goose_patches.SqlParser.Steps.{settled}
use pressly_goose_patches.SqlParser.{from_bool}
use pressly_goose_patches.SqlParser.Sections.{run-append}
use pressly_goose_patches.SqlParser.Render.{
  Item, simple, block, begin_line, end_line, item_lines, with_newline, join_onto, item_text, render,
  texts, IsWritable, home, inside, settled-home, ready, is_nil-with_newline, is_nil-join_onto,
}

module _ (expand : Str → Option Str) (up : Bool) where
  step_simple :
      (m : Machine) (line : Str)
      → m.buf ≡ []
      → m.use_envsub ≡ false
      → m.state ≡ home up
      → IsWritable (simple line)
      → step expand (from_bool up) m line
        ≡ ok (record m { stmts = m.stmts ++ (item_text (simple line) ∷ []) })
  unfolding step body write_line in_direction export home is_start from_bool item_text
  step_simple m line b e s w = ground arith

  pub step_begin :
      (dir : Direction) (m : Machine)
      → settled m.state ≡ home up
      → step expand dir m begin_line ≡ ok (record m { state = inside up })
  unfolding step annotate on_statement_begin home inside is_start settled
  step_begin dir m s = ground arith

  step-inside :
      (m : Machine) (line : Str)
      → m.state ≡ inside up
      → m.use_envsub ≡ false
      → is_annotation_line line ≡ false
      → (is_nil m.buf && is_comment_line line) ≡ false
      → step expand (from_bool up) m line ≡ ok (record m { buf = with_newline m.buf line })
  unfolding step inside from_bool
  step-inside m line s e p c = ground arith

  run-inside :
      (m : Machine) (lines : List Str)
      → m.state ≡ inside up
      → m.use_envsub ≡ false
      → is_nil m.buf ≡ false
      → All (λ l. is_annotation_line l ≡ false) lines
      → run expand (from_bool up) m lines ≡ ok (record m { buf = join_onto m.buf lines })
  unfolding run join_onto
  run-inside m [] s e n a = refl
  run-inside m (line ∷ lines) s e n a = rw (step-inside m line s e a.0 (rw n)) (
      run-inside (record m { buf = with_newline m.buf line }) lines s e
        (is_nil-with_newline m.buf line) a.1)

  step_end :
      (m : Machine)
      → m.state ≡ inside up
      → is_nil m.buf ≡ false
      → step expand (from_bool up) m end_line
        ≡ ok (record m { stmts = m.stmts ++ (trim_space m.buf ∷ []); buf = []; state = home up })
  unfolding step inside home from_bool
  step_end m s n = ground arith

  -- The lines of one item, in the direction of their section.
  run_item :
      (tx : Bool) (stmts : List Str) (item : Item)
      → IsWritable item
      → run expand (from_bool up) (ready up tx stmts) (item_lines item)
        ≡ ok (ready up tx (stmts ++ (item_text item ∷ [])))
  unfolding run item_lines
  run_item tx stmts (simple line) w = rw (step_simple (ready up tx stmts) line refl refl refl w)
  run_item tx stmts (block line lines) w =
      let opened = record (ready up tx stmts) { state = inside up } in
      let begun = record opened { buf = with_newline [] line } in
      rw (step_begin (from_bool up) (ready up tx stmts) (settled-home up)) (
        rw (step-inside opened line refl refl w.0.0 w.0.1) (
          rw (run-append expand (from_bool up) begun lines (end_line ∷ [])) (
            rw (run-inside begun lines refl refl (is_nil-with_newline [] line) w.1) (
              rw
                (step_end (record begun { buf = join_onto begun.buf lines }) refl
                  (is_nil-join_onto begun.buf lines (is_nil-with_newline [] line)))
                (unfold item_text join_onto in refl)))))

  pub run_items :
      (tx : Bool) (stmts : List Str) (items : List Item)
      → All IsWritable items
      → run expand (from_bool up) (ready up tx stmts) (render items)
        ≡ ok (ready up tx (stmts ++ texts items))
  unfolding render texts
  run_items tx stmts [] w = rw append-nil (unfold run in refl)
  run_items tx stmts (item ∷ items) w =
      rw (run-append expand (from_bool up) (ready up tx stmts) (item_lines item) (render items)) (
        rw (run_item tx stmts item w.0)
          (rw (run_items tx (stmts ++ (item_text item ∷ [])) items w.1) (rw append_assoc)))
