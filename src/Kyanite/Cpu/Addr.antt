-- ===== src/Kyanite/Cpu/Addr.antt =====
-- The view `cache` of an address: _legacy_addr_t of aasm/kyanite/legacy.h.
use amalgam_asm.Base.{ℕ, ◌+◌, ◌-◌, ◌/◌, ◌%◌}
use amalgam_asm.Base.Bits.{u16}

abbrev pub byte : ℕ → ℕ
byte a = a % 4

abbrev pub offset : ℕ → ℕ
offset a = a / 4 % 32

abbrev pub line : ℕ → ℕ
line a = a / 128 % 8

abbrev pub tag : ℕ → ℕ
tag a = a / 1024 % 64

-- The last byte of an access, in 16 bits.
abbrev pub last : ℕ → ℕ → ℕ
last a size = u16 (a + size - 1)
