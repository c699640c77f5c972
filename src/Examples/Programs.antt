-- ===== src/Examples/Programs.antt =====
-- Lines of a program, and a file with one line.
use amalgam_asm.Base.{ℕ, ◌+◌, ◌≡◌, refl, arith, [], ◌∷◌, length, true, false, some}
use amalgam_asm.Base.Text.{Text, codes, str_eq}
use amalgam_asm.Util.Map.{make}
use amalgam_asm.Asm.State.{ok, Section}
use amalgam_asm.Asm.Ensures.{Ensures}
use amalgam_asm.Asm.Insn.{first_is}
use amalgam_asm.Asm.World.{World}
use amalgam_asm.Asm.Data.{Args, bytes_of}
use amalgam_asm.Base.Bits.{u64}
use amalgam_asm.Asm.Source.{name, number, line, starts_with, measure, substitute, until_zero}
use amalgam_asm.Asm.Source.Measure.{measure-substitute}
use amalgam_asm.Asm.Control.{Assembly}
use amalgam_asm.Asm.Table.{lookup}
use amalgam_asm.Asm.Statement.{process, is_label, keyword}
use amalgam_asm.Asm.Statement.Layout.{IsSized, is_shift}
use amalgam_asm.Asm.Statement.Lines.{AfterLaidOut}
use amalgam_asm.Asm.Statement.Kept.{shifts, process-IsLaidOut}
use amalgam_asm.Asm.Compile.{opening, reading, SectionImage, image_of, join}
use amalgam_asm.Asm.Compile.Image.{image_of-SectionLaidOut}
use amalgam_asm.Asm.Compile.Blocks.{is_plain, all_plain, Leads, at_line, in_if, endif_line}
use amalgam_asm.Asm.Compile.Branches.{both, closed, else_when_on_keeps, off_without_else}
use amalgam_asm.Asm.Layout.{total}
use amalgam_asm.Examples.Assembly.{one_section, one_section-IsLaidOut}

-- `\x+1` with `12` for `x`.
abbrev word : Text
word = b'\\' ∷ codes "x+1"

measure-substitute_example :
    measure (codes "x") (codes "12") 5 0 word
    ≡ length (substitute (codes "x") (codes "12") 0 word) + 1
unfolding substitute starts_with
measure-substitute_example =
    measure-substitute (codes "x") (codes "12") word (omega arith) (omega arith) (omega arith)
      (omega arith)

abbrev world : World
world = record {
  get_file = λ _. [];
  opcode = λ _. 7;
  float_bytes = λ _. 0 ∷ 0 ∷ 0 ∷ 0 ∷ [];
  double_bytes = λ _. 0 ∷ 0 ∷ 0 ∷ 0 ∷ 0 ∷ 0 ∷ 0 ∷ 0 ∷ [];
  address_of = λ n. n;
}

abbrev sized : IsSized world
sized = record { float = λ t. refl; double = λ t. refl }

abbrev assembly : Assembly
assembly = record {
  env = one_section;
  macros = make;
  sections = make;
  files = [];
  dl = [];
  history = [];
}

abbrev real_line : Args
real_line = codes "pi:" ∷ codes ".float" ∷ codes "3" ∷ []

process-IsLaidOut_example : Ensures AfterLaidOut (process world real_line assembly)
unfolding shifts lookup is_shift str_eq
process-IsLaidOut_example =
    process-IsLaidOut world sized real_line assembly (refl, (refl, (refl, tt)))
      one_section-IsLaidOut

abbrev section_of_three : Section
section_of_three = record {
  name = codes ".text";
  address = 3;
  expr = [];
  parts = (1 ∷ 2 ∷ []) ∷ (3 ∷ []) ∷ [];
  bitness = 1;
}

image_of-SectionLaidOut_example :
    (i : SectionImage) × (image_of section_of_three ≡ ok i)
    × (length i.image ≡ i.size)
    × (i.size ≡ 3)
    × (i.image ≡ join section_of_three.parts)
unfolding total
image_of-SectionLaidOut_example = image_of-SectionLaidOut section_of_three refl (omega arith)

abbrev nop_line : Args
nop_line = codes "nop" ∷ []

abbrev cli_line : Args
cli_line = codes "cli" ∷ []

else_when_on_keeps_example :
    (k : ℕ) × Leads world
      (reading (
        at_line
          (in_if true assembly)
          5
          (name (codes "a.s") ∷ number 4 ∷ [])
          (both world assembly [] (nop_line ∷ []) (cli_line ∷ []) [])
          []))
      (opening (
        closed world assembly k [] []
          (name (codes "a.s") ∷ number 4 ∷ line nop_line ∷ line cli_line ∷ [])))
unfolding all_plain is_plain keyword is_label first_is
else_when_on_keeps_example =
    else_when_on_keeps world assembly [] (nop_line ∷ []) (cli_line ∷ []) [] refl refl 5 4
      (codes "a.s")

off_without_else_example :
    (k : ℕ) × Leads world
      (reading (
        at_line
          (in_if false assembly)
          5
          []
          (line nop_line ∷ line cli_line ∷ line nop_line ∷ line endif_line ∷ [])
          []))
      (reading (record assembly {
        env = record one_section { file = until_zero (bytes_of 8 1); f_line = 1 };
        files =
            some (line nop_line ∷ [])
            ∷ some (name one_section.file ∷ number (u64 (k + 1)) ∷ [])
            ∷ [];
      }))
unfolding all_plain is_plain keyword is_label first_is
off_without_else_example =
    off_without_else world assembly 5 nop_line cli_line (nop_line ∷ []) [] [] refl
