-- ===== src/Asm/Expr.antt =====
-- The expression parser of src/cmpl_internal.c: a shunting yard over texts, with two stacks.
-- A result that mentions an unknown symbol stays a text, and `callback` is set.
use amalgam_asm.Base.{
  ℕ, ◌+◌, ◌-◌, ◌*◌, ◌/◌, ◌%◌, ◌^◌, ◌==◌, ltb, leb, Bool, true, false, ◌&&◌, ◌||◌, Option, none,
  some, List, [], ◌∷◌, ◌++◌, if◌then◌else◌, bit_and, bit_or, bit_xor,
}
use amalgam_asm.Base.Bits.{sub64, u64}
use amalgam_asm.Base.Text.{Text, codes, str_eq}
use amalgam_asm.Asm.Number.{strtoll, print_long}
use amalgam_asm.Asm.State.{Run, ok, fault, ◌>>=◌, Env, Symbol, current, err}
use amalgam_asm.Util.Map

unfoldable pub is_space : ℕ → Bool
is_space c = c == b' ' || c == 9 || c == 10 || c == b',' || c == 0

-- The second range runs from `A` to the small `z`, as written: it takes in `[ \ ] ^` too.
unfoldable pub is_allowed : ℕ → Bool
is_allowed c =
    (leb b'0' c && leb c b'9')
    || (leb b'a' c && leb c b'z')
    || (leb b'A' c && leb c b'z')
    || c == b'_'
    || c == b'.'

unfoldable pub parse_prec : ℕ → ℕ
parse_prec c =
    if c == b'!' || c == b'_' || c == b'~'
    then 4
    else if c == b'*' || c == b'/' || c == b'%'
    then 3
    else if c == b'<' || c == b'>'
    then 2
    else if c == b'&' || c == b'|' || c == b'^'
    then 1
    else 0

unfoldable pub starts_digit : Text → Bool
starts_digit [] = false
starts_digit (c ∷ s) = leb b'0' c && leb c b'9'

-- A symbol's section is compared with "absolute": a null section faults.
unfoldable pub symbol_value : Symbol → Option Text → Run (ℕ × Bool)
symbol_value s none = fault
symbol_value s (some section) =
    if str_eq section (codes "absolute") then ok (s.value, false) else ok (0, true)

-- `_parse_lit`: the value, and whether the literal is unknown yet.
unfoldable pub parse_lit : Env → Text → Run (ℕ × Bool)
unfolding starts_digit symbol_value
parse_lit env literal =
    if str_eq literal (codes ".")
    then ok ((current env).address, false)
    else if starts_digit literal
    then ok (strtoll literal, false)
    else elim (Map.get env.symbols literal) [
      | none ↦ ok (0, true)
      | some e ↦ symbol_value e.value e.value.section
    ]

abbrev pub is_unary : ℕ → Bool
is_unary op = op == b'_' || op == b'~' || op == b'!'

unfoldable pub unary_value : ℕ → ℕ → ℕ
unary_value op v =
    if op == b'_' then sub64 0 v else if op == b'~' then 2 ^ 64 - 1 - v else if v == 0 then 1 else 0

-- The stack of results and the state after one operator.
pub record Step : Type 0 where
  pub result : List Text
  pub callback : Bool
  pub env : Env

pub not_enough : Text
not_enough = codes "Expression parser: not enough operands for operator"

pub division_by_zero : Text
division_by_zero = codes "Expression parser: division by zero"

-- The second switch of `_parse_op`. An operator that it does not list drops both operands;
-- a shift by 64 or more is undefined.
unfoldable pub binary_value : ℕ → ℕ → ℕ → Run (Option ℕ)
binary_value op a b =
    if op == b'*'
    then ok (some (u64 (a * b)))
    else if op == b'/'
    then ok (some (a / b))
    else if op == b'%'
    then ok (some (a % b))
    else if op == b'<'
    then (if ltb b 64 then ok (some (u64 (a * 2 ^ b))) else fault)
    else if op == b'>'
    then (if ltb b 64 then ok (some (a / 2 ^ b)) else fault)
    else if op == b'&'
    then ok (some (bit_and a b))
    else if op == b'|'
    then ok (some (bit_or a b))
    else if op == b'^'
    then ok (some (bit_xor a b))
    else if op == b'+'
    then ok (some (u64 (a + b)))
    else if op == b'-'
    then ok (some (sub64 a b))
    else ok none

unfoldable pub push_value : List Text → Bool → Env → Option ℕ → Step
push_value rest callback env none = record { result = rest; callback = callback; env = env }
push_value rest callback env (some v) = record {
  result = print_long v ∷ rest;
  callback = callback;
  env = env;
}

-- Both operands are there: `val1` was on top of the stack, `val2` below it.
unfoldable pub apply_binary :
    ℕ → Text → ℕ × Bool → Text → ℕ × Bool → List Text → Bool → Env → Run Step
unfolding push_value binary_value
apply_binary op val1 (lit1, unknown1) val2 (lit2, unknown2) rest callback env =
    let unknown = unknown1 || unknown2 in
    if unknown
    then ok (record {
      result = (codes "(" ++ val1 ++ (op ∷ val2) ++ codes ")") ∷ rest;
      callback = true;
      env = env;
    })
    else if (op == b'/' || op == b'%') && lit2 == 0
    then ok (record { result = rest; callback = callback; env = err division_by_zero env })
    else (do value ← binary_value op lit1 lit2; ok (push_value rest callback env value))

-- `_parse_op` after the first operand was taken off.
unfoldable pub apply_op : ℕ → Text → ℕ × Bool → List Text → Bool → Env → Run Step
unfolding apply_binary unary_value
apply_op op val1 (lit1, unknown1) rest callback env =
    let callback1 = callback || unknown1 in
    if is_unary op
    then ok (record {
      result =
          (if unknown1
            then (if op == b'_' then b'-' else op) ∷ val1
            else print_long (unary_value op lit1))
          ∷ rest;
      callback = callback1;
      env = env;
    })
    else elim rest [
      | [] ↦ ok (record { result = []; callback = callback1; env = err not_enough env })
      | val2 ∷ more ↦ do
        lit2 ← parse_lit env val2
        apply_binary op val1 (lit1, unknown1) val2 lit2 more callback1 env
    ]

unfoldable pub parse_op : ℕ → Step → Run Step
unfolding apply_op not_enough division_by_zero
parse_op op s = elim s.result [
  | [] ↦ ok (record s { env = err not_enough s.env })
  | val1 ∷ rest ↦ do lit1 ← parse_lit s.env val1; apply_op op val1 lit1 rest s.callback s.env
]
