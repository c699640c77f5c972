-- ===== src/Kyanite/Cpu/Executor.antt =====
-- kyanite_legacy_cpu_executor of src/kyanite_legacy.c: one tick of the CPU, on the bus of its board.
pub mod Faults
pub mod Fill
pub mod Memory
pub mod Sleep
pub mod Ticks
use amalgam_asm.Base.{
  ℕ, ◌+◌, ◌-◌, ◌*◌, ◌/◌, ◌%◌, ◌^◌, ◌==◌, ltb, Bool, true, false, not, ◌&&◌, ◌||◌, Option, none,
  some, List, if◌then◌else◌, length, get_or, set,
}
use amalgam_asm.Base.Bits.{u8, u16, u32}
use amalgam_asm.Kyanite.Timer.{Cpu, CpuStatus}
use amalgam_asm.Kyanite.Bus.{Bus, BusStatus, is_input, request_as}
use amalgam_asm.Kyanite.Cpu.{
  Core, OwnStatus, reg, set_reg, gpr_sp, header, is_valid, is_dirty, tag_of, with_valid, with_dirty,
  with_tag, change_header, word_at, cache_check, cache_read, cache_write, dtr_cache, dtr_mem_read,
  dtr_mem_write,
}
use amalgam_asm.Kyanite.Cpu.Addr
use amalgam_asm.Kyanite.Cpu.Alu.{half}
use amalgam_asm.Kyanite.Cpu.Parser.{set_status, checked, reading, writing, normal_parser}

abbrev pub sleeps : CpuStatus → Bool
sleeps s = s.sleep_delay || s.sleep_timer || s.sleep_lock || s.sleep_mem

abbrev pub detours : CpuStatus → Bool
detours s = s.dtr_tlb || s.dtr_cache || s.dtr_intp || s.dtr_mem

-- A sleeping CPU: only a delay counts down.
unfoldable pub sleep_tick : Core → Core
sleep_tick core =
    let s = core.shared.status in
    let delay = u16 (core.shared.delay + 2 ^ 16 - 1) in
    if s.sleep_delay
    then record core {
      shared = record core.shared {
        status = record s { sleep_delay = not (delay == 0) };
        delay = delay;
      };
    }
    else core

-- The status that a request puts on the bus.
abbrev pub access : Bool → BusStatus
access writes = record {
  running = false;
  read = not writes;
  write = writes;
  response = false;
  intp = false;
  bus_io = false;
}

abbrev pub is_write : ℕ → Bool
is_write bus_status = bus_status / 2 ^ 12 % 2 == 1

abbrev pub is_io : ℕ → Bool
is_io bus_status = bus_status / 2 ^ 13 % 2 == 1

-- Behind the request: a write is done, a read waits for its reply a little longer each time.
unfoldable pub after_request : Core → Core
after_request core =
    let s = core.shared.status in
    let tries = if ltb core.bus_status 0xff then core.bus_status + 1 else core.bus_status in
    if is_write core.bus_status
    then set_status core (record s { dtr_mem = false })
    else record core {
      bus_status = tries;
      shared = record core.shared {
        delay = tries % 256;
        status = record s { sleep_delay = true; sleep_mem = true };
      };
    }

-- DTR_MEM. A busy board makes `BUS_REQM` return.
unfoldable pub mem_tick : Bus → Core → Bus × Core
unfolding after_request
mem_tick board core =
    elim (request_as board (access (is_write core.bus_status)) core.bus_address
      core.shared.bus_data) [
        | none ↦ (board, core)
        | some bus ↦ (
          (if is_io core.bus_status
              then record bus { status = record bus.status { bus_io = true } }
              else bus),
          after_request core,
        )
      ]

-- DTR_CACHE: 32 words are written back if the line is dirty, and 32 are read.
unfoldable pub cache_tick : Core → Core
unfolding dtr_mem_read dtr_mem_write
cache_tick core =
    let line = Addr.line core.cache_address in
    let h = header core.cache_lines line in
    let n = core.cache_status in
    let next : Core = record core { cache_status = n + 1 } in
    let received = set core.cache_lines (word_at line (n - 33)) core.shared.bus_data in
    if ltb n 32
    then if n == 0 && (not (is_valid h) || not (is_dirty h))
      then record core { cache_status = 32 }
      else dtr_mem_write next (tag_of h * 256 + line * 32 + n)
          (get_or core.cache_lines (word_at line n) 0)
    else if ltb n 64
    then dtr_mem_read
        (record next {
          cache_lines =
              if n == 32 then change_header (with_valid 0) line core.cache_lines else received;
        })
        (core.cache_address / 4 + n)
    else set_status
        (record core {
          cache_lines =
              change_header
                (λ h. with_tag (Addr.tag core.cache_address) (with_dirty 0 (with_valid 1 h))) line
                received;
        })
        (record core.shared.status { dtr_cache = false })

-- An interrupt that is taken up: the first one, the one behind it, and the one that stops the CPU.
unfoldable pub escalate : Core → Option Core
escalate core =
    if core.own.tfault
    then none
    else if core.own.dfault
    then some (record core {
      own = record core.own { tfault = true };
      shared = record core.shared { intp_status = 0x1006 };
    })
    else some (record core {
      own = record core.own { dfault = true };
      shared = record core.shared { intp_status = core.shared.intp_status + 0x1000 };
    })

-- The handler starts, with interrupts off.
abbrev pub entered : ℕ → Core → Core
entered intp_ptr core = record core {
  ip = intp_ptr;
  own = record core.own { intf = false };
  shared = record core.shared {
    status = record core.shared.status {
      sleep_delay = false;
      sleep_timer = false;
      sleep_lock = false;
      sleep_mem = false;
      dtr_intp = false;
    };
  };
}

-- The vector is read and the instruction pointer pushed. The stack pointer has moved before the cache
-- is asked.
unfoldable pub enter : Core → Option Core
enter core =
    let addr = core.shared.intp_status % 256 * 2 in
    let sp = u32 (reg core gpr_sp + 2 ^ 32 - 2) in
    let pushed = set_reg core gpr_sp sp in
    checked pushed addr 2 (
      checked pushed (u16 sp) 2 (
        reading pushed addr half λ intp_ptr.
          writing pushed (u16 sp) half core.ip λ written. some (entered intp_ptr written)))

-- DTR_INTP.
unfoldable pub intp_tick : Core → Option Core
unfolding escalate enter
intp_tick core =
    let masked = not core.own.intf && ltb 0x1f (core.shared.intp_status % 256) in
    if masked
    then some (set_status core (record core.shared.status { dtr_intp = false }))
    else if is_write core.shared.intp_status
    then enter core
    else elim (escalate core) [
      | none ↦ some (set_status core (record core.shared.status { running = false }))
      | some taken ↦ enter taken
    ]

-- `flags` is kyanite_legacy_cpu_flags_parser, which is declared and not in the repository.
unfoldable pub cpu_executor : (Core → Option Core) → Bus → Core → Option (Bus × Core)
unfolding sleep_tick mem_tick cache_tick intp_tick normal_parser
cpu_executor flags board core =
    let s = core.shared.status in
    let on_board = λ (r : Option Core). elim r as (λ _. Option (Bus × Core)) [
      | none ↦ none
      | some c ↦ some (board, c)
    ] in
    if sleeps s
    then some (board, sleep_tick core)
    else if detours s
    then if s.dtr_mem
      then some (mem_tick board core)
      else if s.dtr_cache
      then some (board, cache_tick core)
      else if s.dtr_intp
      then on_board (intp_tick core)
      else some (board, core)
    else if core.flags_on
    then on_board (flags core)
    else on_board (normal_parser core)
