-- ===== src/Kyanite/Cpu.antt =====
-- kyanite_legacy_cpu_t of aasm/kyanite/legacy.h, its cache and its detours: the macros CACHE_... and
-- the functions dtr_... and parse_mem of src/kyanite_legacy.c. The cache is the array of words behind
-- `cache_lines`, 33 to a line: the header, with the bits valid and dirty and the tag, and 32 words of
-- data. `none` is behaviour that C leaves undefined: an access beyond the array, a shift by the width
-- of the word or more, a variable that was never written.
pub mod Addr
pub mod Alu
pub mod Cache
pub mod Decode
pub mod Executor
pub mod Insn
pub mod Parser
use amalgam_asm.Base.{
  ℕ, ◌+◌, ◌-◌, ◌*◌, ◌/◌, ◌%◌, ◌^◌, ◌==◌, ltb, leb, Bool, true, false, not, ◌&&◌, ◌||◌, Option, none,
  some, List, if◌then◌else◌, length, get_or, set, bit_and, bit_or,
}
use amalgam_asm.Base.Bits.{u8, u16, u32}
use amalgam_asm.Kyanite.Cpu.Addr
use amalgam_asm.Kyanite.Cpu.Insn
use amalgam_asm.Kyanite.Timer.{Cpu, CpuStatus, Timer}

-- The bits of the status that only the CPU itself uses. Its four flags are one bit of main.h.
pub record OwnStatus : Type 0 where
  pub dfault : Bool
  pub tfault : Bool
  pub kernel : Bool
  pub intf : Bool
  pub flag : Bool

pub record Task : Type 0 where
  pub gpr : List ℕ
  pub status : CpuStatus × OwnStatus
  pub ip : ℕ

-- `shared` is what the devices touch, `flags_on` the choice of `iparser`, and `devices` are the timers
-- behind `basic.devices`.
pub record Core : Type 0 where
  pub shared : Cpu
  pub own : OwnStatus
  pub gpr : List ℕ
  pub bus_status : ℕ
  pub bus_address : ℕ
  pub cache_lines : List ℕ
  pub task_slots : List Task
  pub flags_on : Bool
  pub ip : ℕ
  pub cache_address : ℕ
  pub cache_status : ℕ
  pub active_task : ℕ
  pub timer_ids : List ℕ
  pub devices : List Timer

abbrev pub gpr_sp : ℕ
gpr_sp = 15

abbrev pub reg : Core → ℕ → ℕ
reg core n = get_or core.gpr n 0

abbrev pub set_reg : Core → ℕ → ℕ → Core
set_reg core n v = record core { gpr = set core.gpr n v }

abbrev pub set_ip : Core → ℕ → Core
set_ip core a = record core { ip = u16 a }

-- `INSN_END`.
abbrev pub insn_end : ℕ → Core → Core
insn_end size core = set_ip core (core.ip + size)

-- Where the header and the words of a line are.
abbrev pub header_at : ℕ → ℕ
header_at line = line * 33

abbrev pub word_at : ℕ → ℕ → ℕ
word_at line i = line * 33 + 1 + i

abbrev pub header : List ℕ → ℕ → ℕ
header lines line = get_or lines (header_at line) 0

abbrev pub is_valid : ℕ → Bool
is_valid h = h % 2 == 1

abbrev pub is_dirty : ℕ → Bool
is_dirty h = h / 2 % 2 == 1

abbrev pub tag_of : ℕ → ℕ
tag_of h = h / 2 ^ 16 % 64

-- Each field is written alone.
abbrev pub with_valid : ℕ → ℕ → ℕ
with_valid v h = h - h % 2 + v

abbrev pub with_dirty : ℕ → ℕ → ℕ
with_dirty v h = h - h / 2 % 2 * 2 + v * 2

abbrev pub with_tag : ℕ → ℕ → ℕ
with_tag t h = h - tag_of h * 2 ^ 16 + t % 64 * 2 ^ 16

abbrev pub change_header : (ℕ → ℕ) → ℕ → List ℕ → List ℕ
change_header f line lines = set lines (header_at line) (f (header lines line))

-- Four bytes at a byte of a word, the lowest first, whatever the size of the variable is.
unfoldable pub load : List ℕ → ℕ → ℕ → Option ℕ
load lines i byte =
    if ltb (i + (if byte == 0 then 0 else 1)) (length lines)
    then some
        (u32 (get_or lines i 0 / 2 ^ (8 * byte) + get_or lines (i + 1) 0 * 2 ^ (32 - 8 * byte)))
    else none

unfoldable pub store : List ℕ → ℕ → ℕ → ℕ → Option (List ℕ)
store lines i byte v =
    let low = get_or lines i 0 in
    let high = get_or lines (i + 1) 0 in
    let lines' = set lines i (low % 2 ^ (8 * byte) + u32 (v * 2 ^ (8 * byte))) in
    if ltb (i + (if byte == 0 then 0 else 1)) (length lines)
    then some (set lines' (i + 1) (high - high % 2 ^ (8 * byte) + v / 2 ^ (32 - 8 * byte)))
    else none

abbrev pub present : List ℕ → ℕ → Bool
present lines a =
    is_valid (header lines (Addr.line a)) && tag_of (header lines (Addr.line a)) == Addr.tag a

-- `CACHE_CHECK`: the address that is missing.
unfoldable pub cache_check : List ℕ → ℕ → ℕ → Option ℕ
cache_check lines a size =
    let next = Addr.last a size in
    if not (present lines a)
    then some a
    else if Addr.line next == Addr.line a
    then none
    else if not (present lines next)
    then some next
    else none

-- `CACHE_READ`, before the value is cut to the size of the variable.
unfoldable pub cache_read : List ℕ → ℕ → ℕ → Option ℕ
unfolding load
cache_read lines a size =
    let next = Addr.last a size in
    if Addr.line next == Addr.line a
    then load lines (word_at (Addr.line a) (Addr.offset a)) (Addr.byte a)
    else some (
        bit_or (get_or lines (word_at (Addr.line a) 31) 0 / 2 ^ (8 * Addr.byte a))
          (u32 (get_or lines (word_at (Addr.line next) 0) 0 * 2 ^ (8 * (3 - Addr.byte next)))))

-- The two words of a write across lines. Its shifts are by the numbers of the lines.
abbrev pub low_part : ℕ → ℕ → ℕ → ℕ
low_part line old v = bit_or (old % 2 ^ (8 * line)) (u32 (v * 2 ^ (8 * line)))

abbrev pub high_part : ℕ → ℕ → ℕ → ℕ → ℕ
high_part line byte old v = bit_or (old - old % 2 ^ (8 * (line + 1))) (v / 2 ^ (3 - byte))

-- `CACHE_WRITE`.
unfoldable pub cache_write : List ℕ → ℕ → ℕ → ℕ → Option (List ℕ)
unfolding store
cache_write lines a size v =
    let next = Addr.last a size in
    let l1 = Addr.line a in
    let l2 = Addr.line next in
    let first = word_at l1 31 in
    let second = word_at l2 0 in
    let lines' = set lines first (low_part l1 (get_or lines first 0) v) in
    let lines'' = set lines' second (high_part l2 (Addr.byte next) (get_or lines second 0) v) in
    if l2 == l1
    then elim (store lines (word_at l1 (Addr.offset a)) (Addr.byte a) v) [
      | none ↦ none
      | some stored ↦ some (change_header (with_dirty 1) l1 stored)
    ]
    else if ltb l1 4 && ltb l2 3
    then some (change_header (with_dirty 1) l2 (change_header (with_dirty 1) l1 lines''))
    else none

unfoldable pub dtr_mem_read : Core → ℕ → Core
dtr_mem_read core a = record core {
  shared = record core.shared { status = record core.shared.status { dtr_mem = true } };
  bus_status = 0;
  bus_address = u16 a;
}

unfoldable pub dtr_mem_write : Core → ℕ → ℕ → Core
dtr_mem_write core a v = record core {
  shared = record core.shared {
    status = record core.shared.status { dtr_mem = true };
    bus_data = v;
  };
  bus_status = 0x1000;
  bus_address = u16 a;
}

unfoldable pub dtr_cache : Core → ℕ → Core
dtr_cache core a = record core {
  shared = record core.shared { status = record core.shared.status { dtr_cache = true } };
  cache_status = 0;
  cache_address = a;
}

-- The steps of `parse_mem`: how far the instruction pointer goes, and the address from there on.
unfoldable pub mem_size : ℕ → ℕ
mem_size mode = if leb mode 1 then 2 else if leb mode 3 then 1 else if leb mode 6 then 2 else 0

unfoldable pub mem_address : Core → ℕ → ℕ → ℕ
mem_address core mode offset =
    let base = reg core (offset % 16) in
    let small = offset / 2 ^ 8 in
    if mode == 0
    then offset
    else if mode == 1
    then u16 (offset + core.ip)
    else if mode == 2
    then u16 base
    else if mode == 3
    then u16 (base + core.ip)
    else if mode == 4
    then u16 (base + small)
    else if mode == 5
    then u16 (base + small + core.ip)
    else if mode == 6
    then u16 (base + reg core (small % 16) * (small / 16))
    else core.ip

-- The address of the operand, and the CPU with its instruction pointer moved.
unfoldable pub parse_mem : Core → ℕ → Core × ℕ
unfolding mem_size mem_address
parse_mem core raw =
    let moved = insn_end (mem_size (Insn.mode raw)) core in
    (moved, mem_address moved (Insn.mode raw) (Insn.offset raw))
