-- ===== src/Kyanite/Cpu/Alu.antt =====
-- The operations that kyanite_legacy_cpu_normal_parser of src/kyanite_legacy.c gives to the macros
-- INSN_ALU, INSN_BIT and INSN_RW, on words of 16 and of 32 bits. A product or a shift of 16-bit
-- words that leaves `int` is taken to wrap.
use amalgam_asm.Base.{
  ℕ, ◌+◌, ◌-◌, ◌*◌, ◌/◌, ◌%◌, ◌^◌, ◌==◌, ltb, leb, Bool, ◌&&◌, Option, none, some, if◌then◌else◌,
  bit_and, bit_or, bit_xor,
}
use amalgam_asm.Base.Bits.{u32}

-- The variables of an instruction have 16 or 32 bits.
pub data Width : Type 0 where
  half full : Width

abbrev pub bits : Width → ℕ
bits half = 16
bits full = 32

-- What the size of an access is.
abbrev pub bytes : Width → ℕ
bytes half = 2
bytes full = 4

abbrev pub cut : Width → ℕ → ℕ
cut w n = n % 2 ^ bits w

pub data Alu : Type 0 where
  add adc sub sbc mul div modulo cmp and or xor test mov : Alu

-- The new value of `dest`, or the interrupt of a division by 0. CMP and TEST have no code.
pub data Result : Type 0 where
  value : ℕ → Result
  division : Result

abbrev quotient : Bool → ℕ → Result
quotient zero_divisor n = if zero_divisor then division else value n

unfoldable pub alu : Alu → Width → Bool → ℕ → ℕ → Result
alu add w cf dest src = value (cut w (dest + src))
alu adc w cf dest src = value (cut w (dest + (src + (if cf then 1 else 0))))
alu sub w cf dest src = value (cut w (dest + 2 ^ 32 - src))
alu sbc w cf dest src = value (cut w (dest + 2 ^ 32 - u32 (src + (if cf then 1 else 0))))
alu mul w cf dest src = value (cut w (dest * src))
alu div w cf dest src = quotient (src == 0) (dest / src)
alu modulo w cf dest src = quotient (src == 0) (dest % src)
alu cmp w cf dest src = value dest
alu and w cf dest src = value (bit_and dest src)
alu or w cf dest src = value (bit_or dest src)
alu xor w cf dest src = value (bit_xor dest src)
alu test w cf dest src = value dest
alu mov w cf dest src = value src

pub data Shift : Type 0 where
  shl shr rol ror bt bts btr btc : Shift

-- `1 << index`, of 32 bits.
abbrev mask : ℕ → ℕ
mask index = 2 ^ index

-- A shift by 32 or more is undefined. ROL and ROR also shift the other way, by the rest of the width.
abbrev defined_below : ℕ → ℕ → ℕ → Option ℕ
defined_below limit index n = if ltb index limit then some n else none

-- The two shifts of a rotation by `index`, up or down, where both are defined.
unfoldable pub rotate : Width → ℕ → ℕ → ℕ → Option ℕ
rotate w reg up down =
    if ltb up 32 && ltb down 32 then some (cut w (bit_or (reg * 2 ^ up) (reg / 2 ^ down))) else none

unfoldable pub shift : Shift → Width → ℕ → ℕ → Option ℕ
unfolding rotate
shift shl w reg index = defined_below 32 index (cut w (reg * 2 ^ index))
shift shr w reg index = defined_below 32 index (reg / 2 ^ index)
shift rol w reg index = if leb index (bits w) then rotate w reg index (bits w - index) else none
shift ror w reg index = if leb index (bits w) then rotate w reg (bits w - index) index else none
shift bt w reg index = some reg
shift bts w reg index = defined_below 32 index (cut w (bit_or reg (mask index)))
shift btr w reg index = defined_below 32 index (cut w (bit_and reg (2 ^ 32 - 1 - mask index)))
shift btc w reg index = defined_below 32 index (cut w (bit_xor reg (mask index)))

pub data Unary : Type 0 where
  inc dec complement neg : Unary

unfoldable pub unary : Unary → Width → ℕ → ℕ
unary inc w reg = cut w (reg + 1)
unary dec w reg = cut w (reg + 2 ^ bits w - 1)
unary complement w reg = 2 ^ bits w - 1 - reg
unary neg w reg = cut w (2 ^ bits w - reg)
