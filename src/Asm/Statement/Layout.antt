-- ===== src/Asm/Statement/Layout.antt =====
-- The layout of the sections behind an encoder and behind the data of reals (src/compile.c).
use amalgam_asm.Base.{
  ℕ, ◌*◌, ◌≡◌, Bool, true, false, List, [], ◌∷◌, length, length-append, arith, sym, ◌∙◌,
}
use native.Mathlib.Nat.{zero-mul, suc-mul}
use amalgam_asm.Base.Text.{Text}
use amalgam_asm.Asm.State.{Env}
use amalgam_asm.Asm.Ensures.{Ensures, done}
use amalgam_asm.Asm.Data.{Args}
use amalgam_asm.Asm.World.{World}
use amalgam_asm.Asm.Table
use amalgam_asm.Asm.Table.{
  Form, lookup, encode, mnemonics, directives, convert_all, parse_real, parse_float, parse_double,
}
use amalgam_asm.Asm.Layout.{IsLaidOut, place_counted}
use amalgam_asm.Asm.Layout.Directives.{}
use amalgam_asm.Asm.Insn.Encoding.{
  parsei_2reg-IsLaidOut, parsei_1reg-IsLaidOut, parsei_1imm-IsLaidOut, parsei_2reg_imm-IsLaidOut,
  parsei_1reg_imm-IsLaidOut, parsei_jcc-IsLaidOut, parsei_movcc-IsLaidOut, parsei_pure-IsLaidOut,
}

-- The one form whose encoder moves the address too far.
unfoldable pub is_shift : Form → Bool
is_shift (Table.one_reg_one_imm op) = true
is_shift _ = false

-- Every encoder but that of the shift and bit instructions keeps every section's address the number
-- of its bytes, modulo 2 ^ 64, whatever the operands are; it ends, if not in a fault.
pub encode-IsLaidOut :
    (w : World) (form : Form) (args : Args) (env : Env)
    → is_shift form ≡ false
    → IsLaidOut env
    → Ensures IsLaidOut (encode w form args env)
unfolding encode is_shift
encode-IsLaidOut w (Table.pure op) args env f h =
    done (parsei_pure-IsLaidOut args env h (w.opcode op))
encode-IsLaidOut w (Table.one_reg op) args env f h =
    done (parsei_1reg-IsLaidOut args env h (w.opcode op))
encode-IsLaidOut w (Table.two_reg op) args env f h =
    done (parsei_2reg-IsLaidOut args env h (w.opcode op))
encode-IsLaidOut w (Table.one_imm op) args env f h = parsei_1imm-IsLaidOut args env h (w.opcode op)
encode-IsLaidOut w (Table.one_reg_one_imm op) args env f h = cc
encode-IsLaidOut w (Table.one_reg_imm op alt) args env f h =
    parsei_1reg_imm-IsLaidOut args env h (w.opcode op) (w.opcode alt)
encode-IsLaidOut w (Table.two_reg_imm op alt) args env f h =
    parsei_2reg_imm-IsLaidOut args env h (w.opcode op) (w.opcode alt)
encode-IsLaidOut w (Table.jcc op c) args env f h = parsei_jcc-IsLaidOut args env h (w.opcode op) c
encode-IsLaidOut w (Table.movcc op c) args env f h =
    done (parsei_movcc-IsLaidOut args env h (w.opcode op) c)

-- The conversions give as many bytes as a `float` and a `double` have.
pub record IsSized (w : World) : Type 0 where
  pub float : (t : Text) → length (w.float_bytes t) ≡ 4
  pub double : (t : Text) → length (w.double_bytes t) ≡ 8

length-convert_all :
    (size : ℕ) (bytes : Text → List ℕ) (args : Args)
    → ((t : Text) → length (bytes t) ≡ size)
    → length (convert_all bytes args) ≡ length args * size
unfolding convert_all
length-convert_all size bytes [] h = sym (zero-mul size)
length-convert_all size bytes (a ∷ args) h =
    length-append (bytes a) (convert_all bytes args)
    ∙ rw (h a, length-convert_all size bytes args h, suc-mul) (omega arith)

pub parse_real-IsLaidOut :
    (size : ℕ) (bytes : Text → List ℕ) (args : Args) (env : Env)
    → ((t : Text) → length (bytes t) ≡ size)
    → IsLaidOut env
    → IsLaidOut (parse_real size bytes args env)
unfolding parse_real
parse_real-IsLaidOut size bytes [] env h laid = laid
parse_real-IsLaidOut size bytes (a ∷ args) env h laid =
    place_counted env env.section (convert_all bytes (a ∷ args)) (length (a ∷ args) * size)
      (length-convert_all size bytes (a ∷ args) h) laid
