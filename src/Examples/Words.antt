-- ===== src/Examples/Words.antt =====
-- A program of three lines.
use amalgam_asm.Base.{List, ◌+◌, ◌≡◌, refl, true, Option, some, length}
use amalgam_asm.Base.Text.{Text, codes}
use amalgam_asm.Asm.State.{ok}
use amalgam_asm.Asm.Lexer.{Line, helper_file_parse}
use amalgam_asm.Asm.Lexer.Pieces.{newlines, unquoted}
use amalgam_asm.Asm.Lexer.Lines.{helper_file_parse-ends, helper_file_parse-newlines}

abbrev three_lines : Text
three_lines = codes "start: mov r1, r2 ; copy\n\nhalt # end"

unquoted-three_lines : unquoted three_lines ≡ true
unfolding unquoted
unquoted-three_lines = refl

helper_file_parse-ends_example :
    (o : Option (List Line)) × (helper_file_parse (codes "a \"b") ≡ ok o)
helper_file_parse-ends_example = helper_file_parse-ends (codes "a \"b")

helper_file_parse-newlines_example :
    (ls : List Line) × (helper_file_parse three_lines ≡ ok (some ls))
    × (length ls ≡ newlines three_lines + 1)
helper_file_parse-newlines_example = helper_file_parse-newlines three_lines unquoted-three_lines
