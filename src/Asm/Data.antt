-- ===== src/Asm/Data.antt =====
-- src/cmpl_data.c: the directives that lay data down, and symbols. Every directive takes its
-- operands as texts; an operand out of range is the null pointer, never read behind the checks.
-- The bytes are put together before the part is made; in between the code only reads the address.
use amalgam_asm.Base.{
  ℕ, zero, suc, ◌+◌, ◌-◌, ◌*◌, ◌/◌, ◌%◌, ◌==◌, ltb, Bool, true, false, not, ◌&&◌, ◌||◌, Option,
  none, some, List, [], ◌∷◌, ◌++◌, if◌then◌else◌, length, get_or, take, replicate,
}
use amalgam_asm.Base.Bits.{sub64, u8, u64}
use amalgam_asm.Base.Text.{Text, codes}
use amalgam_asm.Asm.Number.{strtoll}
use amalgam_asm.Asm.State.{
  Run, ok, fault, ◌>>=◌, Env, current, err, emit, add_part, advance, empty_section,
  helper_symbol_set, helper_symbol_global, helper_section_add,
}
use amalgam_asm.Asm.Yard.{helper_expr_parse}
use amalgam_asm.Util.Map
use amalgam_asm.Util.Map.{HashMap}

abbrev pub Args : Type 0
Args = List Text

-- `ARG(i)`, for an index that was checked.
abbrev pub arg : Args → ℕ → Text
arg args i = get_or args i []

-- The low `size` bytes of a word, the lowest first: what `memcpy` takes of a little-endian value.
unfoldable pub bytes_of : ℕ → ℕ → List ℕ
bytes_of zero v = []
bytes_of (suc n) v = v % 256 ∷ bytes_of n (v / 256)

-- The loop of `_parse_int`: each operand is an expression, placed `offset` bytes into the part.
unfoldable pub int_bytes : Args → Env → ℕ → ℕ → Run (List ℕ × Env)
unfolding bytes_of
int_bytes [] env size offset = ok ([], env)
int_bytes (a ∷ args) env size offset = do
  (v, env') ← helper_expr_parse env a offset size
  (rest, env'') ← int_bytes args env' size (offset + size)
  ok (bytes_of size v ++ rest, env'')

unfoldable pub parse_int : Args → Env → ℕ → Run Env
unfolding int_bytes
parse_int [] env size = ok env
parse_int (a ∷ args) env size = do
  (bytes, env') ← int_bytes (a ∷ args) env size 0
  ok (emit env' bytes (length (a ∷ args) * size))

-- `strlen - 2` bytes behind the opening quote; shorter operands wrap the size around.
unfoldable pub ascii_bytes : Args → Option (List ℕ)
ascii_bytes [] = some []
ascii_bytes ((q ∷ c ∷ s) ∷ args) = elim (ascii_bytes args) [
  | none ↦ none
  | some rest ↦ some (take (length s) (c ∷ s) ++ rest)
]
ascii_bytes (_ ∷ args) = none

-- `total` of `_parse_ascii`, for operands that have two characters at least.
unfoldable pub ascii_size : Args → ℕ
ascii_size [] = 0
ascii_size (a ∷ args) = length a - 2 + ascii_size args

unfoldable pub parse_ascii : Args → Env → Run Env
unfolding ascii_bytes ascii_size
parse_ascii [] env = ok env
parse_ascii (a ∷ args) env = elim (ascii_bytes (a ∷ args)) [
  | none ↦ fault
  | some bytes ↦ ok (emit env bytes (ascii_size (a ∷ args)))
]

unfoldable pub asciz_bytes : Args → Option (List ℕ)
asciz_bytes [] = some []
asciz_bytes ((q ∷ c ∷ s) ∷ args) = elim (asciz_bytes args) [
  | none ↦ none
  | some rest ↦ some (take (length s) (c ∷ s) ++ 0 ∷ rest)
]
asciz_bytes (_ ∷ args) = none

-- `total` of `_parse_asciz`, with a 0 for each operand.
unfoldable pub asciz_size : Args → ℕ
asciz_size [] = 0
asciz_size (a ∷ args) = length a - 1 + asciz_size args

unfoldable pub parse_asciz : Args → Env → Run Env
unfolding asciz_bytes asciz_size
parse_asciz [] env = ok env
parse_asciz (a ∷ args) env = elim (asciz_bytes (a ∷ args)) [
  | none ↦ fault
  | some bytes ↦ ok (emit env bytes (asciz_size (a ∷ args)))
]

-- The optional operand `i`, 0 where it is missing.
abbrev pub number_at : Args → ℕ → ℕ
number_at args i = if ltb i (length args) then strtoll (arg args i) else 0

unfoldable pub parse_skip : Args → Env → Env
parse_skip args env =
    if ltb (length args) 1 || ltb 2 (length args)
    then err (codes ".space/.skip requires between 1 and 2 operands") env
    else let size = strtoll (arg args 0) in
      if size == 0
      then err (codes ".space/.skip requires a valid size") env
      else emit env (replicate size (u8 (number_at args 1))) size

-- `repeat` copies of the low bytes of one value.
unfoldable pub fill_bytes : ℕ → List ℕ → List ℕ
fill_bytes zero bytes = []
fill_bytes (suc n) bytes = bytes ++ fill_bytes n bytes

-- The loop of `_parse_fill` copies the value in steps of `size` until `total` bytes are written.
-- The product that is `total` may wrap; where it is no multiple of `size` then, the last copy writes
-- past the end of the memory.
unfoldable pub fill_part : ℕ → ℕ → ℕ → Env → Run Env
unfolding fill_bytes bytes_of
fill_part size total value env =
    if total % size == 0
    then ok (emit env (fill_bytes (total / size) (bytes_of size value)) total)
    else fault

unfoldable pub parse_fill : Args → Env → Run Env
unfolding fill_part
parse_fill args env =
    if ltb (length args) 1 || ltb 3 (length args)
    then ok (err (codes ".fill requires between 1 and 3 operands") env)
    else let repeat = strtoll (arg args 0) in
      let asked = number_at args 1 in
      let size = if asked == 0 then 1 else asked in
      if ltb 8 size
      then ok (err (codes ".fill requires a size less or equal than 8") env)
      else if repeat == 0
      then ok (err (codes ".fill requires a valid repeat") env)
      else fill_part size (u64 (size * repeat)) (number_at args 2) env

-- How many bytes bring an address to the next multiple.
abbrev pub padding : ℕ → ℕ → ℕ
padding align address = (align - address % align) % align

unfoldable pub parse_align : Args → Env → Env
parse_align args env =
    if ltb (length args) 1 || ltb 3 (length args)
    then err (codes ".align requires between 1 and 3 operands") env
    else let align = strtoll (arg args 0) in
      let most = number_at args 2 in
      let needed = padding align (current env).address in
      if align == 0
      then err (codes ".align requires a valid alignment") env
      else if not (needed == 0) && (most == 0 || ltb needed most)
      then emit env (replicate needed (u8 (number_at args 1))) needed
      else env

unfoldable pub parse_org : Args → Env → Env
parse_org args env =
    if ltb (length args) 1 || ltb 2 (length args)
    then err (codes ".org requires between 1 and 2 operands") env
    else let until = strtoll (arg args 0) in
      let here = (current env).address in
      if until == 0
      then err (codes ".org requires a valid address") env
      else if ltb here until
      then emit env (replicate (sub64 until here) (u8 (number_at args 1))) (sub64 until here)
      else env

abbrev absolute : Text
absolute = codes "absolute"

unfoldable pub parse_equ : Args → Env → Run Env
parse_equ args env =
    if not (length args == 2) then ok (err (codes ".set/.equ requires 2 operand(s)") env) else do
      (v, env') ← helper_expr_parse env (arg args 1) 0 0
      ok (helper_symbol_set env' absolute (arg args 0) v)

pub is_defined : Env → Text → Bool
is_defined env name = elim (Map.get env.symbols name) [ none ↦ false | some e ↦ true ]

unfoldable pub parse_equiv : Args → Env → Run Env
unfolding is_defined
parse_equiv args env =
    if not (length args == 2)
    then ok (err (codes ".equiv requires 2 operand(s)") env)
    else if is_defined env (arg args 0)
    then ok (err (codes ".equiv failed, already exists") env)
    else do
      (v, env') ← helper_expr_parse env (arg args 1) 0 0
      ok (helper_symbol_set env' absolute (arg args 0) v)

-- `.comm` and `.lcomm` reserve zero bytes in `.bss`. The symbol is bound before they are laid
-- down, so its value is their address.
unfoldable pub parse_lcomm : Args → Env → HashMap ℕ → Bool → Run (Env × HashMap ℕ)
parse_lcomm args env sections global =
    if not (length args == 2)
    then ok (err (codes ".lcomm/.comm requires 2 operand(s)") env, sections)
    else do
      (size, env1) ← helper_expr_parse env (arg args 1) 0 0
      let made = helper_section_add env1 sections (codes ".bss") none
      let bss = made.2
      let address = (get_or made.0.store bss empty_section).address
      let env2 = helper_symbol_set made.0 (codes ".bss") (arg args 0) address
      let env3 = advance (add_part env2 bss (replicate size 0)) bss size
      ok (if global then helper_symbol_global env3 (arg args 0) else env3, made.1)

unfoldable pub parse_globl : Args → Env → Env
parse_globl args env =
    if not (length args == 1)
    then err (codes ".globl requires 1 operand(s)") env
    else helper_symbol_global env (arg args 0)
