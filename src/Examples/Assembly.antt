-- ===== src/Examples/Assembly.antt =====
-- A section with three bytes in it, and lines that are assembled into it.
use amalgam_asm.Base.{
  ℕ, zero, suc, ◌+◌, ◌-◌, ◌%◌, ◌^◌, ◌<◌, ◌≤◌, ◌≡◌, ◌⊎◌, refl, arith, [], ◌∷◌, true, false, ◌==◌,
}
use amalgam_asm.Base.Bits.{u64}
use amalgam_asm.Base.Text.{codes, str_eq}
use amalgam_asm.Util.Map.{make}
use amalgam_asm.Asm.Number.{strtoll, print_long, digit_value, read_digits}
use amalgam_asm.Asm.Number.Roundtrip.{strtoll-print_long}
use amalgam_asm.Asm.State.{ok, Env, Section, current}
use amalgam_asm.Asm.Ensures.{Ensures}
use amalgam_asm.Asm.Expr.{is_allowed}
use amalgam_asm.Asm.Yard.{parse_expr, helper_expr_parse}
use amalgam_asm.Asm.Yard.Fuel.{Kept}
use amalgam_asm.Asm.Yard.Total.{section_at, parse_expr-Ensures}
use amalgam_asm.Asm.Yard.Word.{all_allowed, helper_expr_parse_word}
use amalgam_asm.Asm.Data.{Args, arg, parse_int, parse_align, parse_lcomm}
use amalgam_asm.Asm.Insn.{
  parse_register, register_bits, parse_type, literal, parsei_2reg_imm, parsei_1reg_1imm,
}
use amalgam_asm.Asm.Insn.Register.{IsRegister, parse_register_cases}
use amalgam_asm.Asm.Insn.Encoding.{parsei_2reg_imm-IsLaidOut, parsei_1reg_1imm_off_by_one}
use amalgam_asm.Asm.Layout.{IsLaidOut, SectionLaidOut, total}
use amalgam_asm.Asm.Layout.Align.{parse_align_least}
use amalgam_asm.Asm.Layout.Directives.{parse_int-IsLaidOut, parse_lcomm-IsLaidOut}

abbrev text_section : Section
text_section = record {
  name = codes ".text";
  address = 3;
  expr = [];
  parts = (1 ∷ 2 ∷ 3 ∷ []) ∷ [];
  bitness = 1;
}

abbrev pub one_section : Env
one_section = record {
  file = codes "a.s";
  f_line = 1;
  symbols = make;
  store = text_section ∷ [];
  section = 0;
  errors = [];
  fresh = 0;
}

one_section-laid : (i : ℕ) → SectionLaidOut (section_at one_section i)
unfolding total
one_section-laid zero = refl
one_section-laid (suc i) = refl

pub one_section-IsLaidOut : IsLaidOut one_section
one_section-IsLaidOut = record { at = one_section-laid }

strtoll-print_long_example : strtoll (print_long (2 ^ 64 - 5)) ≡ 2 ^ 64 - 5
strtoll-print_long_example = strtoll-print_long (2 ^ 64 - 5) (omega arith)

parse_expr-Ensures_example :
    Ensures (λ p. Kept one_section p.env) (parse_expr (codes "2*(3+x)-1") one_section)
parse_expr-Ensures_example = parse_expr-Ensures (codes "2*(3+x)-1") one_section

word_allowed : all_allowed (codes "x1") ≡ true
unfolding all_allowed is_allowed
word_allowed = refl

helper_expr_parse_word_example :
    helper_expr_parse one_section (codes "x1") 0 2 ≡ ok (strtoll (codes "x1"), one_section)
helper_expr_parse_word_example =
    helper_expr_parse_word b'x' (codes "1") one_section 0 2 word_allowed

parse_register_cases_example :
    (parse_register (codes "(%er3)") ≡ 0xff) ⊎ IsRegister (parse_register (codes "(%er3)"))
parse_register_cases_example = parse_register_cases (codes "(%er3)")

abbrev aligned_args : Args
aligned_args = codes "8" ∷ []

eight : strtoll (arg aligned_args 0) ≡ 8
unfolding strtoll read_digits digit_value
eight = refl

parse_align_least_example :
    let after = (current (parse_align aligned_args one_section)).address in
    (after % strtoll (codes "8") ≡ 0) × (3 ≤ after) × (after < 3 + strtoll (codes "8"))
parse_align_least_example =
    parse_align_least aligned_args one_section (omega arith) (omega arith) (omega (arith, eight))
      refl (omega arith) (omega (arith, eight))

parse_int-IsLaidOut_example :
    Ensures IsLaidOut (parse_int (codes "7" ∷ codes "x+1" ∷ []) one_section 4)
parse_int-IsLaidOut_example =
    parse_int-IsLaidOut (codes "7" ∷ codes "x+1" ∷ []) one_section 4 one_section-IsLaidOut

parse_lcomm-IsLaidOut_example :
    Ensures
      (λ r. IsLaidOut r.0)
      (parse_lcomm (codes "buf" ∷ codes "4*4" ∷ []) one_section make true)
parse_lcomm-IsLaidOut_example =
    parse_lcomm-IsLaidOut (codes "buf" ∷ codes "4*4" ∷ []) one_section make true
      one_section-IsLaidOut

parsei_2reg_imm-IsLaidOut_example :
    Ensures IsLaidOut (parsei_2reg_imm (codes "$x+2" ∷ codes "%r2" ∷ []) one_section 0 3)
parsei_2reg_imm-IsLaidOut_example =
    parsei_2reg_imm-IsLaidOut (codes "$x+2" ∷ codes "%r2" ∷ []) one_section one_section-IsLaidOut 0
      3

abbrev shift_args : Args
shift_args = codes "$3" ∷ codes "%r2" ∷ []

shift_first : parse_type (arg shift_args 0) ≡ literal
unfolding parse_type
shift_first = refl

shift_second : (parse_register (arg shift_args 1) == 0xff) ≡ false
unfolding parse_register register_bits str_eq
shift_second = refl

parsei_1reg_1imm_off_by_one_example :
    Ensures
      (λ e. (current e).address ≡ u64 (total (current e).parts + 1))
      (parsei_1reg_1imm shift_args one_section 94)
parsei_1reg_1imm_off_by_one_example =
    parsei_1reg_1imm_off_by_one shift_args one_section 94 one_section-IsLaidOut (omega arith) refl
      shift_first shift_second
