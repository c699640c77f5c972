-- ===== src/Asm/Yard/Difference.antt =====
-- What `_parse_op` makes of two numbers with a minus between them.
use amalgam_asm.Base.{
  ℕ, suc, ◌+◌, ◌≡◌, refl, true, false, some, List, [], ◌∷◌, ◌++◌, length, length-append, arith, ap,
  ◌∙◌,
}
use amalgam_asm.Base.Bits.{sub64}
use amalgam_asm.Base.Text.{Text, codes, str_eq}
use amalgam_asm.Asm.Number.{strtoll}
use amalgam_asm.Asm.Number.Roundtrip.{strtoll-print_long}
use amalgam_asm.Asm.State.{ok, Env, ◌>>=◌}
use amalgam_asm.Asm.Expr.{
  is_space, is_allowed, parse_op, apply_op, apply_binary, binary_value, push_value, parse_lit,
  starts_digit, Step,
}
use amalgam_asm.Asm.Yard.{
  skip_spaces, span_allowed, again, turn, word_turn, symbol_turn, pop_operators, skip_double,
  finish, loop, drain, parse_expr, conclude, settle, helper_expr_parse,
}
use amalgam_asm.Asm.Yard.Word.{
  all_allowed, allowed_first, allowed_rest, allowed_no_space, span_allowed_all,
}

-- A run of allowed characters ends at a minus.
span_allowed_minus :
    (u w : Text) → all_allowed u ≡ true → span_allowed (u ++ b'-' ∷ w) ≡ (u, b'-' ∷ w)
unfolding span_allowed is_allowed
span_allowed_minus [] w h = refl
span_allowed_minus (c ∷ u) w h =
    rw (allowed_first c u h, span_allowed_minus u w (allowed_rest c u h))

first_turn :
    (c : ℕ) (u w : Text) (s : Step)
    → all_allowed (c ∷ u) ≡ true
    → turn ((c ∷ u) ++ b'-' ∷ w) false [] s
      ≡ ok (again (b'-' ∷ w) true [] (record s { result = (c ∷ u) ∷ s.result }))
unfolding turn skip_spaces word_turn
first_turn c u w s h = rw (allowed_no_space c (allowed_first c u h), span_allowed_minus (c ∷ u) w h)

second_turn :
    (w : Text) (s : Step)
    → turn (b'-' ∷ w) true [] s ≡ ok (again (skip_double b'-' w) false (b'-' ∷ []) s)
unfolding turn skip_spaces span_allowed word_turn symbol_turn pop_operators is_space is_allowed
second_turn w s = refl

third_turn :
    (d : ℕ) (w : Text) (stack : List ℕ) (s : Step)
    → all_allowed (d ∷ w) ≡ true
    → turn (d ∷ w) false stack s
      ≡ ok (again [] true stack (record s { result = (d ∷ w) ∷ s.result }))
unfolding turn skip_spaces word_turn
third_turn d w stack s h = rw (allowed_no_space d (allowed_first d w h), span_allowed_all (d ∷ w) h)

no_dot : (e : ℕ) (t : Text) → starts_digit (e ∷ t) ≡ true → str_eq (e ∷ t) (codes ".") ≡ false
unfolding str_eq starts_digit
no_dot e t h = ground arith

-- A literal that starts with a digit is a number.
pub parse_lit_number :
    (env : Env) (e : ℕ) (t : Text)
    → starts_digit (e ∷ t) ≡ true
    → parse_lit env (e ∷ t) ≡ ok (strtoll (e ∷ t), false)
unfolding parse_lit
parse_lit_number env e t h = rw (no_dot e t h, h)

module _ (c : ℕ) (u : Text) (d : ℕ) (w : Text) (env : Env) where
  abbrev start : Step
  start = record { result = []; callback = false; env = env }

  -- The stacks when the text is read: the second number is on top.
  abbrev read_both : Step
  read_both = record start { result = (d ∷ w) ∷ (c ∷ u) ∷ [] }

  module _ (left : all_allowed (c ∷ u) ≡ true) (right : all_allowed (d ∷ w) ≡ true) where
    loop_both :
        (k : ℕ)
        → loop (suc (suc (suc k))) ((c ∷ u) ++ b'-' ∷ d ∷ w) false [] start
          ≡ (do r ← drain (b'-' ∷ []) read_both; ok (finish r))
    unfolding loop skip_double
    loop_both k = rw (
      first_turn c u (d ∷ w) start left,
      second_turn (d ∷ w) (record start { result = (c ∷ u) ∷ [] }),
      third_turn d w (b'-' ∷ []) (record start { result = (c ∷ u) ∷ [] }) right,
    )

    parse_both :
        parse_expr ((c ∷ u) ++ b'-' ∷ d ∷ w) env
        ≡ (do r ← drain (b'-' ∷ []) read_both; ok (finish r))
    unfolding parse_expr
    parse_both =
        let lengths : length ((c ∷ u) ++ b'-' ∷ d ∷ w) ≡ suc (suc (suc (length u + length w))) =
          omega (arith, length-append (c ∷ u) (b'-' ∷ d ∷ w)) in
        ap (λ n. loop n ((c ∷ u) ++ b'-' ∷ d ∷ w) false [] start) lengths
        ∙ loop_both (length u + length w)

    module _ (digit : starts_digit (c ∷ u) ≡ true) (digit' : starts_digit (d ∷ w) ≡ true) where
      drain_both : drain (b'-' ∷ []) read_both ≡ (
          let s = push_value [] false env (some (sub64 (strtoll (d ∷ w)) (strtoll (c ∷ u)))) in
          ok (some s, s))
      unfolding drain parse_op apply_op apply_binary binary_value
      drain_both = rw (parse_lit_number env d w digit', parse_lit_number env c u digit)

-- A text of two numbers, made of allowed characters and starting with a digit each, with a minus
-- between them, evaluates to the second number minus the first, modulo 2 ^ 64, and changes no
-- state.
pub helper_expr_parse_difference :
    (c : ℕ) (u : Text) (d : ℕ) (w : Text) (env : Env) (offset size : ℕ)
    → all_allowed (c ∷ u) ≡ true
    → all_allowed (d ∷ w) ≡ true
    → starts_digit (c ∷ u) ≡ true
    → starts_digit (d ∷ w) ≡ true
    → helper_expr_parse env ((c ∷ u) ++ b'-' ∷ d ∷ w) offset size
      ≡ ok (sub64 (strtoll (d ∷ w)) (strtoll (c ∷ u)), env)
unfolding helper_expr_parse conclude settle finish push_value
helper_expr_parse_difference c u d w env offset size left right digit digit' =
    let v = sub64 (strtoll (d ∷ w)) (strtoll (c ∷ u)) in
    rw (
      parse_both c u d w env left right,
      drain_both c u d w env left right digit digit',
      strtoll-print_long v (omega arith),
    )
