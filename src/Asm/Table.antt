-- ===== src/Asm/Table.antt =====
-- The tables of src/compile.c: which mnemonic is encoded in which way, and which word is which
-- directive. The chains of `strcmp` take the first word that fits.
use amalgam_asm.Base.{ℕ, Option, none, some, List, [], ◌∷◌, if◌then◌else◌, length, ◌*◌, ◌++◌}
use amalgam_asm.Base.Text.{Text, codes, str_eq}
use amalgam_asm.Asm.State.{Run, ok, Env, add_part, advance}
use amalgam_asm.Asm.Data.{Args}
use amalgam_asm.Asm.Insn.{
  parsei_2reg, parsei_1reg, parsei_1imm, parsei_2reg_imm, parsei_1reg_imm, parsei_1reg_1imm,
  parsei_jcc, parsei_movcc, parsei_pure,
}
use amalgam_asm.Asm.World

-- An encoder of src/cmpl_data.c with its opcodes.
pub data Form : Type 0 where
  pure one_reg two_reg one_imm one_reg_one_imm : World.Opcode → Form
  one_reg_imm two_reg_imm : World.Opcode → World.Opcode → Form
  jcc movcc : World.Opcode → ℕ → Form

unfoldable pub lookup {ℓ} : {A : Type ℓ} → Text → List (Text × A) → Option A
lookup word [] = none
lookup word ((key, a) ∷ rows) =
    let later = lookup word rows in if str_eq word key then some a else later

unfoldable pub encode : World.World → Form → Args → Env → Run Env
encode w (pure op) args env = ok (parsei_pure args env (w.opcode op))
encode w (one_reg op) args env = ok (parsei_1reg args env (w.opcode op))
encode w (two_reg op) args env = ok (parsei_2reg args env (w.opcode op))
encode w (one_imm op) args env = parsei_1imm args env (w.opcode op)
encode w (one_reg_one_imm op) args env = parsei_1reg_1imm args env (w.opcode op)
encode w (one_reg_imm op alt) args env = parsei_1reg_imm args env (w.opcode op) (w.opcode alt)
encode w (two_reg_imm op alt) args env = parsei_2reg_imm args env (w.opcode op) (w.opcode alt)
encode w (jcc op condition) args env = parsei_jcc args env (w.opcode op) condition
encode w (movcc op condition) args env = ok (parsei_movcc args env (w.opcode op) condition)

abbrev pub mnemonics : List (Text × Form)
mnemonics =
    (codes "nop", pure World.i_nop)
    ∷ (codes "sleep", one_reg_imm World.i_sleep World.i_sleepi)
    ∷ (codes "gipc", one_reg World.i_gipc)
    ∷ (codes "mov", two_reg_imm World.i_mov World.i_movi)
    ∷ (codes "swap", two_reg World.i_swap)
    ∷ (codes "push", one_reg World.i_push)
    ∷ (codes "pop", one_reg World.i_pop)
    ∷ (codes "add", two_reg_imm World.i_add World.i_adi)
    ∷ (codes "sub", two_reg_imm World.i_sub World.i_sbi)
    ∷ (codes "mul", two_reg World.i_mul)
    ∷ (codes "div", two_reg World.i_div)
    ∷ (codes "mod", two_reg World.i_mod)
    ∷ (codes "inc", one_reg World.i_inc)
    ∷ (codes "dec", one_reg World.i_dec)
    ∷ (codes "fadd", two_reg World.ic_fadd)
    ∷ (codes "fsub", two_reg World.ic_fsub)
    ∷ (codes "fmul", two_reg World.ic_fmul)
    ∷ (codes "fdiv", two_reg World.ic_fdiv)
    ∷ (codes "i2f", two_reg World.ic_i2f)
    ∷ (codes "f2i", two_reg World.ic_f2i)
    ∷ (codes "xor", two_reg_imm World.i_xor World.i_xori)
    ∷ (codes "or", two_reg_imm World.i_or World.i_ori)
    ∷ (codes "and", two_reg_imm World.i_and World.i_andi)
    ∷ (codes "not", one_reg World.i_not)
    ∷ (codes "bts", one_reg_one_imm World.i_bts)
    ∷ (codes "btr", one_reg_one_imm World.i_btr)
    ∷ (codes "btc", one_reg_one_imm World.i_btc)
    ∷ (codes "shl", one_reg_one_imm World.i_shl)
    ∷ (codes "shr", one_reg_one_imm World.i_shr)
    ∷ (codes "rol", one_reg_one_imm World.i_rol)
    ∷ (codes "ror", one_reg_one_imm World.i_ror)
    ∷ (codes "int", one_imm World.i_int)
    ∷ (codes "jmp", one_reg_imm World.i_jmp World.i_jmpi)
    ∷ (codes "call", one_reg_imm World.i_call World.i_calli)
    ∷ (codes "rjmp", one_reg_imm World.i_rjmp World.i_rjmpi)
    ∷ (codes "rcall", one_reg_imm World.i_rcall World.i_rcalli)
    ∷ (codes "jae", jcc World.i_jnc 0x80)
    ∷ (codes "jnae", jcc World.i_jc 0x80)
    ∷ (codes "jb", jcc World.i_jc 0x80)
    ∷ (codes "jnb", jcc World.i_jnc 0x80)
    ∷ (codes "je", jcc World.i_jc 0x82)
    ∷ (codes "jne", jcc World.i_jnc 0x82)
    ∷ (codes "jge", jcc World.i_jc 0x31)
    ∷ (codes "jnge", jcc World.i_jnc 0x31)
    ∷ (codes "jl", jcc World.i_jnc 0x31)
    ∷ (codes "jnl", jcc World.i_jc 0x31)
    ∷ (codes "jc", jcc World.i_jc 0x80)
    ∷ (codes "jnc", jcc World.i_jnc 0x80)
    ∷ (codes "jo", jcc World.i_jc 0x81)
    ∷ (codes "jno", jcc World.i_jnc 0x81)
    ∷ (codes "js", jcc World.i_jc 0x83)
    ∷ (codes "jns", jcc World.i_jnc 0x83)
    ∷ (codes "jz", jcc World.i_jc 0x82)
    ∷ (codes "jnz", jcc World.i_jnc 0x82)
    ∷ (codes "movae", movcc World.i_movnc 0x80)
    ∷ (codes "movnae", movcc World.i_movc 0x80)
    ∷ (codes "movb", movcc World.i_movc 0x80)
    ∷ (codes "movnb", movcc World.i_movnc 0x80)
    ∷ (codes "move", movcc World.i_movc 0x82)
    ∷ (codes "movne", movcc World.i_movnc 0x82)
    ∷ (codes "movge", movcc World.i_movc 0x31)
    ∷ (codes "movnge", movcc World.i_movnc 0x31)
    ∷ (codes "movl", movcc World.i_movnc 0x31)
    ∷ (codes "movnl", movcc World.i_movc 0x31)
    ∷ (codes "movc", movcc World.i_movc 0x80)
    ∷ (codes "movnc", movcc World.i_movnc 0x80)
    ∷ (codes "movo", movcc World.i_movc 0x81)
    ∷ (codes "movno", movcc World.i_movnc 0x81)
    ∷ (codes "movs", movcc World.i_movc 0x83)
    ∷ (codes "movns", movcc World.i_movnc 0x83)
    ∷ (codes "movz", movcc World.i_movc 0x82)
    ∷ (codes "movnz", movcc World.i_movnc 0x82)
    ∷ (codes "ret", pure World.i_ret)
    ∷ (codes "in", two_reg_imm World.i_in World.i_ini)
    ∷ (codes "out", two_reg_imm World.i_out World.i_outi)
    ∷ (codes "crld", two_reg World.i_crld)
    ∷ (codes "crst", two_reg World.i_crst)
    ∷ (codes "sei", pure World.i_sei)
    ∷ (codes "cli", pure World.i_cli)
    ∷ (codes "iret", pure World.i_iret)
    ∷ []

pub data Directive : Type 0 where
  int_data : ℕ → Directive
  float_data double_data ascii asciz skip fill align org equ equiv include error : Directive
  if_def if_ndef if_expr macro irp irpc : Directive
  section data_section text_section code_16 code_32 comm lcomm globl : Directive

abbrev pub directives : List (Text × Directive)
directives =
    (codes ".byte", int_data 1)
    ∷ (codes ".short", int_data 2)
    ∷ (codes ".int", int_data 4)
    ∷ (codes ".long", int_data 8)
    ∷ (codes ".float", float_data)
    ∷ (codes ".double", double_data)
    ∷ (codes ".ascii", ascii)
    ∷ (codes ".asciz", asciz)
    ∷ (codes ".skip", skip)
    ∷ (codes ".fill", fill)
    ∷ (codes ".align", align)
    ∷ (codes ".org", org)
    ∷ (codes ".equ", equ)
    ∷ (codes ".equiv", equiv)
    ∷ (codes ".include", include)
    ∷ (codes ".err", error)
    ∷ (codes ".ifdef", if_def)
    ∷ (codes ".ifndef", if_ndef)
    ∷ (codes ".if", if_expr)
    ∷ (codes ".macro", macro)
    ∷ (codes ".irp", irp)
    ∷ (codes ".irpc", irpc)
    ∷ (codes ".section", section)
    ∷ (codes ".data", data_section)
    ∷ (codes ".text", text_section)
    ∷ (codes ".code16", code_16)
    ∷ (codes ".code32", code_32)
    ∷ (codes ".comm", comm)
    ∷ (codes ".lcomm", lcomm)
    ∷ (codes ".globl", globl)
    ∷ []

-- The bytes of each operand, as the conversion of the C library gives them.
unfoldable pub convert_all : (Text → List ℕ) → Args → List ℕ
convert_all bytes [] = []
convert_all bytes (a ∷ args) = bytes a ++ convert_all bytes args

-- `_parse_float` and `_parse_double` of src/cmpl_data.c.
unfoldable pub parse_real : ℕ → (Text → List ℕ) → Args → Env → Env
unfolding convert_all
parse_real size bytes [] env = env
parse_real size bytes (a ∷ args) env =
    advance (add_part env env.section (convert_all bytes (a ∷ args))) env.section
      (length (a ∷ args) * size)

unfoldable pub parse_float : World.World → Args → Env → Env
unfolding parse_real
parse_float w args env = parse_real 4 w.float_bytes args env

unfoldable pub parse_double : World.World → Args → Env → Env
unfolding parse_real
parse_double w args env = parse_real 8 w.double_bytes args env
