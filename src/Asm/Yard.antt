-- ===== src/Asm/Yard.antt =====
-- The loop of `_parse_expr` and `helper_expr_parse` of src/cmpl_internal.c. One pass of the
-- `while` body is `turn`; every pass that goes on takes at least one character, so the length of
-- the text plus one is fuel enough.
pub mod Difference
pub mod Fuel
pub mod Literal
pub mod Total
pub mod Word
use amalgam_asm.Base.{
  ℕ, zero, suc, ◌+◌, ◌==◌, ltb, Bool, true, false, not, ◌&&◌, ◌||◌, Option, none, some, List, [],
  ◌∷◌, ◌++◌, if◌then◌else◌, length,
}
use amalgam_asm.Base.Text.{Text, codes}
use amalgam_asm.Asm.Number.{strtoll}
use amalgam_asm.Asm.State.{
  Run, ok, fault, out_of_fuel, ◌>>=◌, Env, ExprInfo, current, set_current, err,
}
use amalgam_asm.Asm.Expr.{is_space, is_allowed, parse_prec, Step, parse_op}

pub skip_spaces : Text → Text
skip_spaces [] = []
skip_spaces (c ∷ s) = if is_space c then skip_spaces s else c ∷ s

-- The longest run of allowed characters, and what follows it.
pub span_allowed : Text → Text × Text
span_allowed [] = ([], [])
span_allowed (c ∷ s) =
    let r = span_allowed s in if is_allowed c then (c ∷ r.0, r.1) else ([], c ∷ s)

-- What a call of `_parse_expr` hands back: the text or a null pointer.
pub record Parsed : Type 0 where
  pub text : Option Text
  pub callback : Bool
  pub env : Env

pub give_up : Text → Step → Parsed
give_up message s = record { text = none; callback = s.callback; env = err message s.env }

-- The loop at `)`: operators are applied down to the opening bracket, `none` if there is none.
pub close_bracket : List ℕ → Step → Run (Option (List ℕ) × Step)
close_bracket [] s = ok (none, s)
close_bracket (op ∷ []) s = if op == b'(' then ok (some [], s) else ok (none, s)
close_bracket (op ∷ op2 ∷ stack) s =
    if op == b'('
    then ok (some (op2 ∷ stack), s)
    else parse_op op s >>= λ s'. close_bracket (op2 ∷ stack) s'

-- The loop before a binary operator `c` is pushed.
unfoldable pub pop_operators : ℕ → List ℕ → Step → Run (List ℕ × Step)
pop_operators c [] s = ok ([], s)
pop_operators c (op ∷ stack) s =
    if op == b'(' || ltb (parse_prec op) (parse_prec c)
    then ok (op ∷ stack, s)
    else parse_op op s >>= λ s'. pop_operators c stack s'

-- The loop after the text is read.
unfoldable pub drain : List ℕ → Step → Run (Option Step × Step)
drain [] s = ok (some s, s)
drain (op ∷ stack) s = if op == b'(' then ok (none, s) else parse_op op s >>= λ s'. drain stack s'

-- How a pass ends: the function returns, or the loop goes on.
pub data Next : Type 0 where
  stop : Parsed → Next
  again : (rest : Text) → (last_val : Bool) → (stack : List ℕ) → Step → Next

pub after_close : Text → Option (List ℕ) × Step → Next
after_close rest (none, s) = stop (give_up (codes "Expression parser: no opening brackets") s)
after_close rest (some stack, s) = again rest false stack s

-- A doubled `<` or `>` is read as one operator.
pub skip_double : ℕ → Text → Text
skip_double c [] = []
skip_double c (d ∷ rest) = if (c == b'<' || c == b'>') && c == d then rest else d ∷ rest

pub prefix : ℕ → Text → List ℕ → Step → Next
unfolding give_up
prefix c rest stack s =
    if c == b'+'
    then again rest false stack s
    else if c == b'-'
    then again rest false (b'_' ∷ stack) s
    else if c == b'~' || c == b'!'
    then again rest false (c ∷ stack) s
    else stop (give_up (codes "Expression parser: illegal unary operator") s)

-- The pass at a character that starts no operand. At the end of the text, behind spaces, the
-- code goes on as if the 0 were an operator: a wrong prefix, or else a step past the end.
pub symbol_turn : Text → Bool → List ℕ → Step → Run Next
unfolding after_close skip_double prefix give_up
symbol_turn [] last_val stack s =
    if last_val
    then fault
    else ok (stop (give_up (codes "Expression parser: illegal unary operator") s))
symbol_turn (c ∷ rest) last_val stack s =
    if c == b'('
    then ok (again rest false (b'(' ∷ stack) s)
    else if c == b')'
    then (do r ← close_bracket stack s; ok (after_close rest r))
    else if not last_val
    then ok (prefix c rest stack s)
    else (do r ← pop_operators c stack s; ok (again (skip_double c rest) false (c ∷ r.0) r.1))

-- The pass behind the run of allowed characters: an operand if it is not empty.
pub word_turn : Text → Text → Bool → List ℕ → Step → Run Next
unfolding symbol_turn
word_turn [] rest last_val stack s = symbol_turn rest last_val stack s
word_turn (c ∷ val) rest last_val stack s =
    ok (again rest true stack (record s { result = (c ∷ val) ∷ s.result }))

-- One pass of the `while` body at a text that is not empty.
pub turn : Text → Bool → List ℕ → Step → Run Next
unfolding word_turn skip_spaces span_allowed
turn expr last_val stack s =
    let word = span_allowed (skip_spaces expr) in word_turn word.0 word.1 last_val stack s

-- The checks behind the last loop.
unfoldable pub finish : Option Step × Step → Parsed
unfolding give_up
finish (none, s) = give_up (codes "Expression parser: no closing brackets") s
finish (some _, s) = elim s.result [
  | [] ↦ give_up (codes "Expression parser: unknown error in the equation") s
  | text ∷ more ↦ elim more [
    | [] ↦ record { text = some text; callback = s.callback; env = s.env }
    | _ ∷ _ ↦ give_up (codes "Expression parser: unknown error in the equation") s
  ]
]

pub loop : ℕ → Text → Bool → List ℕ → Step → Run Parsed
loop fuel [] last_val stack s = do r ← drain stack s; ok (finish r)
loop zero (c ∷ expr) last_val stack s = out_of_fuel
loop (suc fuel) (c ∷ expr) last_val stack s = turn (c ∷ expr) last_val stack s >>= λ n. elim n [
  | stop r ↦ ok r
  | again rest last stack' s' ↦ loop fuel rest last stack' s'
]

unfoldable pub parse_expr : Text → Env → Run Parsed
unfolding loop turn finish drain
parse_expr expr env =
    loop (length expr) expr false [] (record { result = []; callback = false; env = env })

-- A text that still names symbols becomes a request at the current address.
unfoldable pub request : Env → Text → ℕ → ℕ → Env
request env text offset size =
    let s = current env in
    let call : ExprInfo = record {
      address = s.address;
      size = size;
      offset = offset;
      expression = text;
    } in
    set_current env (record s { expr = s.expr ++ call ∷ [] })

unfoldable pub settle : ℕ → ℕ → Option Text → Bool → Env → ℕ × Env
unfolding request
settle offset size none callback env = (0, env)
settle offset size (some text) false env = (strtoll text, env)
settle offset size (some text) true env =
    if size == 0
    then (0, err (codes "Expression parser: all symbols must be absolute") env)
    else (0, request env text offset size)

unfoldable pub conclude : ℕ → ℕ → Parsed → ℕ × Env
unfolding settle
conclude offset size p = settle offset size p.text p.callback p.env

unfoldable pub helper_expr_parse : Env → Text → ℕ → ℕ → Run (ℕ × Env)
unfolding conclude
helper_expr_parse env expr offset size = do p ← parse_expr expr env; ok (conclude offset size p)
