-- ===== src/Asm/Yard/Literal.antt =====
-- Values travel between the operators as decimal texts: what becomes of them on the way.
use amalgam_asm.Base.{
  ℕ, ◌^◌, ◌<◌, ◌≤◌, ◌≡◌, refl, ltb, Bool, true, false, none, some, List, if◌then◌else◌, ◌-◌,
  Bool-cases, inl, inr, [], ◌∷◌, arith, ap, ◌∙◌, sym,
}
use amalgam_asm.Base.Text.{Text, str_eq}
use amalgam_asm.Util.Map
use amalgam_asm.Asm.Number.{strtoll, print_long, print_unsigned}
use amalgam_asm.Asm.Number.Roundtrip.{strtoll-print_long, print_long_digit}
use amalgam_asm.Asm.State.{ok, Env}
use amalgam_asm.Asm.Expr.{parse_lit, push_value, starts_digit}
use amalgam_asm.Asm.Yard.{finish, conclude, settle}
use amalgam_asm.Asm.Yard.Difference.{parse_lit_number}

-- The value of the last operator, a word of 64 bits that is printed on the stack, is the value
-- of the whole expression.
pub conclude-push_value :
    (v : ℕ) (env : Env) (offset size : ℕ)
    → v < 2 ^ 64
    → let s = push_value [] false env (some v) in
      conclude offset size (finish (some s, s)) ≡ (v, env)
unfolding conclude finish settle push_value
conclude-push_value v env offset size h = rw (strtoll-print_long v h)

digit : (c : ℕ) (s : Text) → b'0' ≤ c → c ≤ b'9' → starts_digit (c ∷ s) ≡ true
unfolding starts_digit
digit c s low high = ground arith

parse_lit-print_long :
    (v : ℕ) (env : Env) → v < 2 ^ 63 → parse_lit env (print_long v) ≡ ok (v, false)
parse_lit-print_long v env h =
    let (c, s, shape, low, high) = print_long_digit v h in
    ap (parse_lit env) shape
    ∙ parse_lit_number env c s (digit c s low high)
    ∙ ap (λ t. ok (strtoll t, false)) (sym shape)
    ∙ ap (λ n. ok (n, false)) (strtoll-print_long v (omega arith))

-- A larger word is printed with a minus in front, which is no number for `_parse_lit`.
parse_lit-negative :
    (v : ℕ) (env : Env)
    → (ltb v (2 ^ 63)) ≡ false
    → Map.get env.symbols (print_long v) ≡ none
    → parse_lit env (print_long v) ≡ ok (0, true)
unfolding parse_lit print_long str_eq starts_digit
parse_lit-negative v env large unknown =
    let minus : print_long v ≡ b'-' ∷ print_unsigned (2 ^ 64 - v) = rw large refl in
    let unknown' : Map.get env.symbols (b'-' ∷ print_unsigned (2 ^ 64 - v)) ≡ none =
      ap (Map.get env.symbols) (sym minus) ∙ unknown in
    rw (large, unknown') refl

-- The value of an operator is printed on the stack. As an operand of the next operator the text is
-- that value again where it is below 2 ^ 63; from 2 ^ 63 on it is an unknown symbol, provided that
-- no symbol has such a name.
pub parse_lit-push_value :
    (rest : List Text) (callback : Bool) (env : Env) (v : ℕ)
    → Map.get env.symbols (print_long v) ≡ none
    → let s = push_value rest callback env (some v) in
      (t : Text) × (s.result ≡ t ∷ rest)
      × (parse_lit s.env t ≡ (if ltb v (2 ^ 63) then ok (v, false) else ok (0, true)))
unfolding push_value
parse_lit-push_value rest callback env v unknown = (
  print_long v,
  refl,
  elim (Bool-cases (ltb v (2 ^ 63))) [
    | inl small ↦ rw small (parse_lit-print_long v env (ground arith))
    | inr large ↦ rw large (parse_lit-negative v env large unknown)
  ],
)
