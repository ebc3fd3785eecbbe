-- ===== src/SqlParser/RoundTrip.antt =====
-- `ParseSQLMigration` of internal/sqlparser/parser.go reads back the files that are written.
use pressly_goose_patches.Base.{
  true, false, ◌≡◌, refl, ap, ◌∙◌, ◌⊎◌, inr, List, [], ◌∷◌, Option, arith, All,
}
use pressly_goose_patches.Text.{Str, trim_space}
use pressly_goose_patches.SqlParser.{
  Direction, direction_up, direction_down, ParserState, goose_up, goose_down, ok,
}
use pressly_goose_patches.SqlParser.Machine.{
  Machine, initial, is_start, on_up, on_down, finish, annotate, step, run, parse_lines,
}
use pressly_goose_patches.SqlParser.Steps.{settled}
use pressly_goose_patches.SqlParser.{from_bool}
use pressly_goose_patches.SqlParser.Sections.{run-append}
use pressly_goose_patches.SqlParser.Render.{
  Item, up_line, down_line, render, texts, IsWritable, file, home, ready,
}
use pressly_goose_patches.SqlParser.Render.Section.{run_items}
use pressly_goose_patches.SqlParser.Render.Skip.{run_items-Skipped}

module _ (expand : Str → Option Str) where
  step-up_line : (dir : Direction) → step expand dir initial up_line ≡ ok (ready true true [])
  unfolding step annotate on_up is_start home
  step-up_line dir = refl

  step-down_line :
      (dir : Direction) (m : Machine)
      → settled m.state ≡ goose_up
      → m.buf ≡ []
      → step expand dir m down_line ≡ ok (record m { state = goose_down })
  unfolding step annotate on_down is_start settled trim_space
  step-down_line dir m s b = ground arith

  finish-settled :
      (dir : Direction) (m : Machine) (s : ParserState)
      → (settled s ≡ goose_up) ⊎ (settled s ≡ goose_down)
      → m.buf ≡ []
      → finish dir m s ≡ ok (m.stmts, m.use_tx)
  unfolding finish settled trim_space
  finish-settled dir m goose_up h b = ground arith
  finish-settled dir m _ h b = ground arith

  parse_file_up :
      (ups downs : List Item)
      → All IsWritable ups
      → All IsWritable downs
      → parse_lines expand direction_up (file ups downs) false ≡ ok (texts ups, true)
  unfolding parse_lines run home from_bool settled
  parse_file_up ups downs u d =
      let before = ready true true (texts ups) in
      let below = record before { state = goose_down } in
      let (m, r, k) = run_items-Skipped expand false below downs refl refl refl d in
      rw (step-up_line direction_up) (
        rw
          (run-append expand direction_up (ready true true []) (render ups)
            (down_line ∷ render downs))
          (rw (run_items expand true true [] ups u) (
            rw (step-down_line direction_up before refl refl) (
              rw r (
                finish-settled direction_up m m.state (inr k.4) k.1
                ∙ ap ok (λ i. (k.0 i, k.2 i)))))))

  parse_file_down :
      (ups downs : List Item)
      → All IsWritable ups
      → All IsWritable downs
      → parse_lines expand direction_down (file ups downs) false ≡ ok (texts downs, true)
  unfolding parse_lines run home from_bool settled
  parse_file_down ups downs u d =
      let (m, r, k) = run_items-Skipped expand true (ready true true []) ups refl refl refl u in
      let fresh : record m { state = goose_down } ≡ ready false true [] = λ i. record {
        state = goose_down;
        use_tx = k.2 i;
        use_envsub = k.3 i;
        buf = k.1 i;
        stmts = k.0 i;
      } in
      rw (step-up_line direction_down) (
        rw
          (run-append expand direction_down (ready true true []) (render ups)
            (down_line ∷ render downs))
          (rw r (
            rw (step-down_line direction_down m k.4 k.1) (
              rw fresh (
                rw (run_items expand false true [] downs d) (
                  finish-settled direction_down (ready false true (texts downs)) goose_down
                    (inr refl) refl))))))

  -- Statements written to a migration file, in its two sections, are what `ParseSQLMigration` reads
  -- back in each direction, in order and trimmed, and the file runs in a transaction. A statement
  -- is a line that ends with a semicolon, or any lines between `StatementBegin` and `StatementEnd`,
  -- and begins with neither a comment nor an empty line; no line of it is an annotation.
  pub parse_file :
      (ups downs : List Item)
      → All IsWritable ups
      → All IsWritable downs
      → (parse_lines expand direction_up (file ups downs) false ≡ ok (texts ups, true))
        × (parse_lines expand direction_down (file ups downs) false ≡ ok (texts downs, true))
  parse_file ups downs u d = (parse_file_up ups downs u d, parse_file_down ups downs u d)
