-- ===== src/Asm/Insn.antt =====
-- src/cmpl_data.c: operands of instructions, and one encoder for each shape of instruction.
-- `op` is the number of an opcode macro (I_NOP and so on), which no file of the repository defines.
pub mod Register
pub mod Encoding
use amalgam_asm.Base.{
  ℕ, zero, suc, ◌+◌, ◌*◌, ◌/◌, ◌%◌, ◌==◌, ltb, Bool, true, false, not, ◌&&◌, ◌||◌, Option, none,
  some, List, [], ◌∷◌, ◌++◌, if◌then◌else◌, length, bit_and, bit_or, bit_xor,
}
use amalgam_asm.Base.Bits.{u8, u32}
use amalgam_asm.Base.Text.{Text, codes, str_eq}
use amalgam_asm.Asm.State.{Run, ok, fault, ◌>>=◌, Env, err, emit}
use amalgam_asm.Asm.Yard.{helper_expr_parse}
use amalgam_asm.Asm.Data.{Args, arg, bytes_of}

-- Whether the first `)` is the last character.
closes_at_end : Text → Bool
closes_at_end [] = false
closes_at_end (c ∷ []) = c == b')'
closes_at_end (c ∷ d ∷ s) = not (c == b')') && closes_at_end (d ∷ s)

unfoldable pub without_last : Text → Text
without_last [] = []
without_last (c ∷ []) = []
without_last (c ∷ d ∷ s) = c ∷ without_last (d ∷ s)

is_pointer : Text → Bool
unfolding closes_at_end
is_pointer [] = false
is_pointer (c ∷ s) = c == b'(' && closes_at_end (c ∷ s)

unfoldable pub first_is : ℕ → Text → Bool
first_is c [] = false
first_is c (d ∷ s) = c == d

unfoldable pub rest_of : Text → Text
rest_of [] = []
rest_of (c ∷ s) = s

abbrev register_names : List (Text × ℕ)
register_names =
    (codes "r1", 0)
    ∷ (codes "r2", 1)
    ∷ (codes "r3", 2)
    ∷ (codes "r4", 3)
    ∷ (codes "r5", 4)
    ∷ (codes "r6", 5)
    ∷ (codes "r7", 6)
    ∷ (codes "r8", 7)
    ∷ (codes "r9", 8)
    ∷ (codes "r10", 9)
    ∷ (codes "r11", 10)
    ∷ (codes "r12", 11)
    ∷ (codes "r13", 12)
    ∷ (codes "bp", 13)
    ∷ (codes "sp", 14)
    ∷ (codes "ip", 15)
    ∷ []

-- The chain of `strcmp`: the first name that fits, 0xFF behind the last.
unfoldable pub name_code : Text → List (Text × ℕ) → ℕ
name_code word [] = 0xff
name_code word ((name, code) ∷ names) = if str_eq word name then code else name_code word names

-- The bits that are put together: pointer, no `%`, extended, and the number of the register.
unfoldable pub register_bits : Bool → Bool → Bool → ℕ → ℕ
register_bits pointer percent extended code =
    let p0 = if pointer then 0x20 else 0 in
    let p1 = if percent then p0 else bit_or p0 0xff in
    let p2 = if extended then bit_or p1 0x40 else p1 in bit_or p2 code

unfoldable pub parse_register : Text → ℕ
unfolding is_pointer without_last first_is rest_of name_code register_bits
parse_register o_word =
    let pointer = is_pointer o_word in
    let inner = if pointer then rest_of (without_last o_word) else o_word in
    let percent = first_is b'%' inner in
    let name = if percent then rest_of inner else inner in
    let extended = first_is b'e' name in
    let plain = if extended then rest_of name else name in
    register_bits pointer percent extended (name_code plain register_names)

-- `_parse_type`, whose three characters are the constructors.
pub data OperandType : Type 0 where
  literal register invalid : OperandType

unfoldable pub parse_type : Text → OperandType
parse_type [] = invalid
parse_type (c ∷ []) = invalid
parse_type (c ∷ d ∷ s) =
    if c == b'$'
    then literal
    else if (c == b'(' && d == b'%') || c == b'%'
    then register
    else invalid

unfoldable pub parse_immediate : Text → Env → ℕ → ℕ → Run (ℕ × Env)
unfolding first_is rest_of
parse_immediate word env offset size =
    if first_is b'$' word
    then (do (v, env') ← helper_expr_parse env (rest_of word) offset size; ok (u32 v, env'))
    else ok (0, err (codes "Expected immediate, got unknown") env)

-- The two bytes behind the opcode of a register pair: the source with its pointer bit moved down.
unfoldable pub pair_bytes : ℕ → ℕ → List ℕ
pair_bytes r1 r2 = bit_or r2 (bit_and r1 0x20 / 2) ∷ r1 ∷ []

unfoldable pub both_pointers : ℕ → ℕ → Bool
both_pointers r1 r2 = not (bit_and r1 0x20 == 0) && not (bit_and r2 0x20 == 0)

unfoldable pub sizes_differ : ℕ → ℕ → Bool
sizes_differ r1 r2 = not (bit_xor (bit_and r1 0x40) (bit_and r2 0x40) == 0)

-- The checks on a pair, then the bytes in front and the pair, `size` bytes in all.
unfoldable pub encode_pair : List ℕ → ℕ → ℕ → ℕ → Env → Env
encode_pair front size r1 r2 env =
    if both_pointers r1 r2
    then err (codes "Both operands cannot be pointers") env
    else if sizes_differ r1 r2
    then err (codes "Operands sizes must match") env
    else emit env (front ++ pair_bytes r1 r2) size

unfoldable pub wrong_count : ℕ → Env → Env
wrong_count zero env = err (codes "Instruction requires no operands") env
wrong_count (suc zero) env = err (codes "Instruction requires 1 operand(s)") env
wrong_count (suc (suc n)) env = err (codes "Instruction requires 2 operand(s)") env

unfoldable pub parsei_2reg : Args → Env → ℕ → Env
unfolding encode_pair wrong_count both_pointers sizes_differ pair_bytes
parsei_2reg args env op =
    if not (length args == 2)
    then wrong_count 2 env
    else let r1 = parse_register (arg args 0) in
      let r2 = parse_register (arg args 1) in
      if r1 == 0xff || r2 == 0xff
      then err (codes "Operands not valid") env
      else encode_pair (u8 op ∷ []) 3 r1 r2 env

unfoldable pub parsei_1reg : Args → Env → ℕ → Env
unfolding wrong_count
parsei_1reg args env op =
    if not (length args == 1)
    then wrong_count 1 env
    else let r1 = parse_register (arg args 0) in
      if r1 == 0xff then err (codes "Operand not valid") env else emit env (u8 op ∷ r1 ∷ []) 2

unfoldable pub is_literal : OperandType → Bool
is_literal literal = true
is_literal register = false
is_literal invalid = false

unfoldable pub parsei_1imm : Args → Env → ℕ → Run Env
unfolding wrong_count is_literal
parsei_1imm args env op =
    if not (length args == 1)
    then ok (wrong_count 1 env)
    else if not (is_literal (parse_type (arg args 0)))
    then ok (err (codes "Operand not valid") env)
    else do
      (v, env') ← parse_immediate (arg args 0) env 1 2
      ok (emit env' (u8 op ∷ bytes_of 2 v) 3)

-- The second register is checked, the first is not.
unfoldable pub parsei_2reg_imm : Args → Env → ℕ → ℕ → Run Env
unfolding encode_pair wrong_count both_pointers sizes_differ pair_bytes
parsei_2reg_imm args env op alt_op =
    if not (length args == 2)
    then ok (wrong_count 2 env)
    else let r2 = parse_register (arg args 1) in
      if r2 == 0xff
      then ok (err (codes "Operand not valid") env)
      else elim (parse_type (arg args 0)) [
        | literal ↦ do
          (v, env') ← parse_immediate (arg args 0) env 2 2
          ok (
              if not (bit_and r2 0x40 == 0)
              then err (codes "Cannot use Extended on 1reg-1imm") env'
              else emit env' (u8 alt_op ∷ r2 ∷ bytes_of 2 v) 4)
        | register ↦ ok (encode_pair (u8 op ∷ []) 3 (parse_register (arg args 0)) r2 env)
        | invalid ↦ ok (err (codes "Operand not valid") env)
      ]

unfoldable pub parsei_1reg_imm : Args → Env → ℕ → ℕ → Run Env
unfolding wrong_count
parsei_1reg_imm args env op alt_op =
    if not (length args == 1) then ok (wrong_count 1 env) else elim (parse_type (arg args 0)) [
      | literal ↦ do
        (v, env') ← parse_immediate (arg args 0) env 1 2
        ok (emit env' (u8 alt_op ∷ bytes_of 2 v) 3)
      | register ↦ ok (emit env (u8 op ∷ parse_register (arg args 0) ∷ []) 2)
      | invalid ↦ ok (err (codes "Operand not valid") env)
    ]

-- Three bytes are laid down and the address moves by four.
unfoldable pub parsei_1reg_1imm : Args → Env → ℕ → Run Env
unfolding wrong_count is_literal
parsei_1reg_1imm args env op =
    if not (length args == 2)
    then ok (wrong_count 2 env)
    else if not (is_literal (parse_type (arg args 0)))
    then ok (err (codes "Operands not valid") env)
    else let r2 = parse_register (arg args 1) in
      if r2 == 0xff then ok (err (codes "Operands not valid") env) else do
        (v, env') ← parse_immediate (arg args 0) env 2 1
        ok (emit env' (u8 op ∷ r2 ∷ u8 v ∷ []) 4)

unfoldable pub parsei_jcc : Args → Env → ℕ → ℕ → Run Env
unfolding wrong_count is_literal
parsei_jcc args env op condition =
    if not (length args == 1)
    then ok (wrong_count 1 env)
    else if not (is_literal (parse_type (arg args 0)))
    then ok (err (codes "Operand not valid") env)
    else do
      (v, env') ← parse_immediate (arg args 0) env 2 2
      ok (emit env' (u8 op ∷ u8 condition ∷ bytes_of 2 v) 4)

unfoldable pub parsei_movcc : Args → Env → ℕ → ℕ → Env
unfolding encode_pair wrong_count both_pointers sizes_differ pair_bytes
parsei_movcc args env op condition =
    if not (length args == 2)
    then wrong_count 2 env
    else let r1 = parse_register (arg args 0) in
      let r2 = parse_register (arg args 1) in
      if r1 == 0xff || r2 == 0xff
      then err (codes "Operands not valid") env
      else encode_pair (u8 op ∷ u8 condition ∷ []) 4 r1 r2 env

unfoldable pub parsei_pure : Args → Env → ℕ → Env
unfolding wrong_count
parsei_pure args env op =
    if not (length args == 0) then wrong_count 0 env else emit env (u8 op ∷ []) 1
