-- ===== src/Kyanite/Cpu/Insn.antt =====
-- The views of an instruction word: _legacy_insn_t of aasm/kyanite/instruction.h.
use amalgam_asm.Base.{ℕ, ◌/◌, ◌%◌, ◌^◌}

abbrev pub opcode : ℕ → ℕ
opcode raw = raw % 256

abbrev pub reg : ℕ → ℕ
reg raw = raw / 2 ^ 8 % 16

abbrev pub mode : ℕ → ℕ
mode raw = raw / 2 ^ 12 % 16

-- `imm.imm`, behind the opcode, and `mem.offset` or `opimm.imm`, behind the second byte.
abbrev pub imm : ℕ → ℕ
imm raw = raw / 2 ^ 8 % 2 ^ 16

abbrev pub offset : ℕ → ℕ
offset raw = raw / 2 ^ 16 % 2 ^ 16
