-- ===== src/Asm/World.antt =====
-- What the assembler takes from outside of the repository: the files, the opcode macros (I_NOP and
-- so on), which no file defines, the conversions of the C library, and the allocator.
use amalgam_asm.Base.{ℕ, List}
use amalgam_asm.Base.Text.{Text}

-- The opcode macros of src/compile.c.
pub data Opcode : Type 0 where
  i_nop i_sleep i_sleepi i_gipc i_mov i_movi i_swap i_push i_pop i_add i_adi i_sub i_sbi : Opcode
  i_mul i_div i_mod i_inc i_dec ic_fadd ic_fsub ic_fmul ic_fdiv ic_i2f ic_f2i : Opcode
  i_xor i_xori i_or i_ori i_and i_andi i_not i_bts i_btr i_btc i_shl i_shr i_rol i_ror : Opcode
  i_int i_jmp i_jmpi i_call i_calli i_rjmp i_rjmpi i_rcall i_rcalli i_jnc i_jc i_movnc i_movc :
      Opcode
  i_ret i_in i_ini i_out i_outi i_crld i_crst i_sei i_cli i_iret : Opcode

-- `float_bytes` and `double_bytes` are the bytes of `strtod` at each width; `address_of` is where
-- a line of so many words was allocated.
pub record World : Type 0 where
  pub get_file : Text → Text
  pub opcode : Opcode → ℕ
  pub float_bytes : Text → List ℕ
  pub double_bytes : Text → List ℕ
  pub address_of : ℕ → ℕ
