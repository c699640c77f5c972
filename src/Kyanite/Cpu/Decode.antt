-- ===== src/Kyanite/Cpu/Decode.antt =====
-- The opcodes: the enum of aasm/kyanite/instruction.h, and the case of the `switch` of
-- kyanite_legacy_cpu_normal_parser that each one selects.
use amalgam_asm.Base.{◌≡◌, refl, ℕ, List, [], ◌∷◌, ◌++◌, get_or}
use amalgam_asm.Kyanite.Cpu.Alu
use amalgam_asm.Kyanite.Cpu.Alu.{Alu, Shift, Unary, Width, half, full}

-- Where the operands of INSN_ALU are: in registers (rr, xx), the destination in memory (mr, lx), or the
-- source in memory (rm, xl).
pub data Place : Type 0 where
  registers into_memory from_memory : Place

-- The fourteen conditions of INSN_CC.
pub data Condition : Type 0 where
  no o nz z ns s ae be b a ge le g l : Condition

pub data Operation : Type 0 where
  binary : Alu → Width → Place → Operation
  immediate : Width → Operation
  untouched : Width → Operation
  shifted : Shift → Width → Operation
  unary_reg unary_mem : Unary → Width → Operation
  push_reg push_mem pop_reg pop_mem : Width → Operation
  mov_if jump_if : Condition → Operation
  nop halt wait tinc sei cli jmp call loop int ret iret : Operation
  sleep_reg sleep_imm tsw_reg tsw_imm tmk_reg tmk_imm : Operation
  swap lea control input output flags noflags ext undefined : Operation

-- rr, mr, rm, xx, lx, xl.
abbrev alu_six : Alu → List Operation
alu_six op =
    binary op half registers
    ∷ binary op half into_memory
    ∷ binary op half from_memory
    ∷ binary op full registers
    ∷ binary op full into_memory
    ∷ binary op full from_memory
    ∷ []

-- rr, xr.
abbrev bit_two : Shift → List Operation
bit_two op = shifted op half ∷ shifted op full ∷ []

-- r, m, x, l.
abbrev unary_four : Unary → List Operation
unary_four op = unary_reg op half ∷ unary_mem op half ∷ unary_reg op full ∷ unary_mem op full ∷ []

abbrev four_undefined : List Operation
four_undefined = undefined ∷ undefined ∷ undefined ∷ undefined ∷ []

-- Opcodes 0x00 to 0x2f.
abbrev data_rows : List Operation
data_rows =
    (binary Alu.mov half registers
      ∷ binary Alu.mov half into_memory
      ∷ binary Alu.mov half from_memory
      ∷ immediate half
      ∷ binary Alu.mov full registers
      ∷ binary Alu.mov full into_memory
      ∷ binary Alu.mov full from_memory
      ∷ immediate full
      ∷ control
      ∷ control
      ∷ swap
      ∷ lea
      ∷ input
      ∷ input
      ∷ output
      ∷ output
      ∷ [])
    ++ ((mov_if no
          ∷ mov_if o
          ∷ mov_if nz
          ∷ mov_if z
          ∷ mov_if ns
          ∷ mov_if s
          ∷ undefined
          ∷ undefined
          ∷ [])
        ++ ((mov_if ae
              ∷ mov_if be
              ∷ mov_if b
              ∷ mov_if a
              ∷ mov_if ge
              ∷ mov_if le
              ∷ mov_if g
              ∷ mov_if l
              ∷ [])
            ++ ((push_reg half ∷ push_mem half ∷ push_reg full ∷ push_mem full ∷ [])
                ++ (four_undefined
                    ++ ((pop_reg half ∷ pop_mem half ∷ pop_reg full ∷ pop_mem full ∷ [])
                        ++ four_undefined)))))

-- Opcodes 0x50 to 0x9f.
abbrev bit_rows : List Operation
bit_rows =
    alu_six Alu.and
    ++ (bit_two Alu.bt
        ++ (alu_six Alu.or
            ++ (bit_two Alu.shl
                ++ (alu_six Alu.xor
                    ++ (bit_two Alu.bts
                        ++ (alu_six Alu.cmp
                            ++ (bit_two Alu.shr
                                ++ (alu_six Alu.test
                                    ++ (bit_two Alu.btr
                                        ++ (alu_six Alu.mul
                                            ++ (bit_two Alu.rol
                                                ++ (alu_six Alu.div
                                                    ++ (bit_two Alu.btc
                                                        ++ (alu_six Alu.modulo
                                                            ++ (bit_two Alu.ror
                                                            ++ (unary_four Alu.inc
                                                            ++ (unary_four Alu.dec
                                                            ++ (unary_four Alu.complement
                                                            ++ unary_four Alu.neg))))))))))))))))))

-- Opcodes 0x30 to 0x4f.
abbrev sum_rows : List Operation
sum_rows =
    alu_six Alu.add
    ++ ((untouched half ∷ untouched full ∷ [])
        ++ (alu_six Alu.adc
            ++ ((untouched half ∷ untouched full ∷ [])
                ++ (alu_six Alu.sub
                    ++ ((undefined ∷ undefined ∷ [])
                        ++ (alu_six Alu.sbc ++ (undefined ∷ undefined ∷ [])))))))

abbrev row_undefined : List Operation
row_undefined = four_undefined ++ (four_undefined ++ (four_undefined ++ four_undefined))

-- Opcodes 0xb0 to 0xf2.
abbrev control_rows : List Operation
control_rows =
    (nop ∷ halt ∷ sleep_reg ∷ sleep_imm ∷ wait ∷ tinc ∷ undefined ∷ undefined ∷ [])
    ++ ((jmp ∷ call ∷ loop ∷ int ∷ ret ∷ iret ∷ sei ∷ cli ∷ [])
        ++ ((jump_if no
              ∷ jump_if o
              ∷ jump_if nz
              ∷ jump_if z
              ∷ jump_if ns
              ∷ jump_if s
              ∷ undefined
              ∷ undefined
              ∷ [])
            ++ ((jump_if ae
                  ∷ jump_if be
                  ∷ jump_if b
                  ∷ jump_if a
                  ∷ jump_if ge
                  ∷ jump_if le
                  ∷ jump_if g
                  ∷ jump_if l
                  ∷ [])
                ++ ((tsw_reg ∷ tsw_imm ∷ tmk_reg ∷ tmk_imm ∷ [])
                    ++ (four_undefined
                        ++ (four_undefined
                            ++ (four_undefined
                                ++ (row_undefined ++ (flags ∷ noflags ∷ ext ∷ [])))))))))

abbrev pub opcodes : List Operation
opcodes = data_rows ++ (sum_rows ++ (bit_rows ++ (row_undefined ++ control_rows)))

-- An opcode without a case interrupts, as LOCKi and UNLKi do.
unfoldable pub decode : ℕ → Operation
decode opcode = get_or opcodes opcode undefined

-- The table and the numbers of the enum agree where the enum gives one.
decode-nop : decode 0xb0 ≡ nop
unfolding decode
decode-nop = refl

decode-flags : decode 0xf0 ≡ flags
unfolding decode
decode-flags = refl

decode-neg : decode 0x9f ≡ unary_mem Alu.neg full
unfolding decode
decode-neg = refl

decode-ror : decode 0x8f ≡ shifted Alu.ror full
unfolding decode
decode-ror = refl

decode-jl : decode 0xcf ≡ jump_if l
unfolding decode
decode-jl = refl
