-- ===== src/Examples/Expressions.antt =====
-- Numbers and symbols in expressions.
use amalgam_asm.Base.{◌-◌, ◌^◌, ◌≡◌, refl, arith, [], ◌∷◌, true, false, some, replicate}
use amalgam_asm.Base.Bits.{sub64}
use amalgam_asm.Base.Text.{Text, codes, str_eq}
use amalgam_asm.Util.Map
use amalgam_asm.Util.Map.{make}
use amalgam_asm.Util.Map.Laws.{make-IsValid, update}
use amalgam_asm.Asm.Number.{strtoll, print_long, print_unsigned, put_digits}
use amalgam_asm.Asm.State.{ok, Env, helper_symbol_set, helper_symbol_global}
use amalgam_asm.Asm.Expr.{is_allowed, starts_digit, push_value, parse_lit}
use amalgam_asm.Asm.Yard.{helper_expr_parse, conclude, finish}
use amalgam_asm.Asm.Yard.Word.{all_allowed}
use amalgam_asm.Asm.Yard.Difference.{helper_expr_parse_difference}
use amalgam_asm.Asm.Yard.Literal.{conclude-push_value, parse_lit-push_value}
use amalgam_asm.Asm.Symbols.{
  symbol_of, global_symbol, symbol_set-symbol_global, parse_lit-parse_equ,
}
use amalgam_asm.Asm.Data.{parse_equ}

abbrev no_section : Env
no_section = record {
  file = codes "a.s";
  f_line = 1;
  symbols = make;
  store = [];
  section = 0;
  errors = [];
  fresh = 0;
}

twelve_allowed : all_allowed (codes "12") ≡ true
unfolding all_allowed is_allowed
twelve_allowed = refl

five_allowed : all_allowed (codes "5") ≡ true
unfolding all_allowed is_allowed
five_allowed = refl

twelve_digit : starts_digit (codes "12") ≡ true
unfolding starts_digit
twelve_digit = refl

five_digit : starts_digit (codes "5") ≡ true
unfolding starts_digit
five_digit = refl

helper_expr_parse_difference_example :
    helper_expr_parse no_section (codes "12-5") 0 4
    ≡ ok (sub64 (strtoll (codes "5")) (strtoll (codes "12")), no_section)
helper_expr_parse_difference_example =
    helper_expr_parse_difference b'1' (codes "2") b'5' [] no_section 0 4 twelve_allowed five_allowed
      twelve_digit five_digit

conclude-push_value_example :
    let s = push_value [] false no_section (some (2 ^ 64 - 5)) in
    conclude 0 4 (finish (some s, s)) ≡ (2 ^ 64 - 5, no_section)
conclude-push_value_example = conclude-push_value (2 ^ 64 - 5) no_section 0 4 (omega arith)

-- 3000000000 * 4000000000, a product above 2 ^ 63.
parse_lit-push_value_example :
    let s = push_value [] false no_section (some 12000000000000000000) in
    (t : Text) × (s.result ≡ t ∷ []) × (parse_lit s.env t ≡ ok (0, true))
unfolding Map.get Map.make Map.find Map.hash replicate print_long print_unsigned put_digits
parse_lit-push_value_example = parse_lit-push_value [] false no_section 12000000000000000000 refl

no_dot : str_eq (codes "size") (codes ".") ≡ false
unfolding str_eq
no_dot = refl

no_digit : starts_digit (codes "size") ≡ false
unfolding starts_digit
no_digit = refl

symbol_set-symbol_global_example :
    (symbol_of
        (helper_symbol_set
          (helper_symbol_global no_section (codes "size"))
          (codes ".text")
          (codes "size")
          7)
        (codes "size")
      ≡ update
          (symbol_of no_section)
          (codes "size")
          (some (global_symbol (codes ".text") 7))
          (codes "size"))
    × (symbol_of
          (helper_symbol_global
            (helper_symbol_set no_section (codes ".text") (codes "size") 7)
            (codes "size"))
          (codes "size")
        ≡ update
            (symbol_of no_section)
            (codes "size")
            (some (global_symbol (codes ".text") 7))
            (codes "size"))
symbol_set-symbol_global_example =
    symbol_set-symbol_global no_section (codes ".text") (codes "size") 7 (codes "size") make-IsValid
      no_dot

parse_lit-parse_equ_example :
    (after : Env) × (parse_equ (codes "size" ∷ codes "12-5" ∷ []) no_section ≡ ok after)
    × (parse_lit after (codes "size")
        ≡ ok (sub64 (strtoll (codes "5")) (strtoll (codes "12")), false))
    × ((q : Text) → str_eq q (codes "size") ≡ false → symbol_of after q ≡ symbol_of no_section q)
parse_lit-parse_equ_example =
    parse_lit-parse_equ no_section no_section (codes "size") (codes "12-5")
      (sub64 (strtoll (codes "5")) (strtoll (codes "12"))) make-IsValid no_dot no_digit
      (helper_expr_parse_difference b'1' (codes "2") b'5' [] no_section 0 0 twelve_allowed
        five_allowed twelve_digit five_digit)
