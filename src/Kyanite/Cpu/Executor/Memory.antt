-- ===== src/Kyanite/Cpu/Executor/Memory.antt =====
-- A read of the CPU, through the board to the RAM and back.
use amalgam_asm.Base.{
  ℕ, ◌^◌, ◌<◌, ◌≡◌, refl, ◌==◌, ltb, Bool, true, false, none, some, List, if◌then◌else◌, length,
  get_or, arith, ap, ◌∙◌,
}
use amalgam_asm.Base.Bits.{u16, u32}
use amalgam_asm.Kyanite.Timer.{Cpu, dtr_intp}
use amalgam_asm.Kyanite.Bus.{Bus, int_mr}
use amalgam_asm.Kyanite.Bus.Board.{Machine, idle_bus, idle_status, board_executor}
use amalgam_asm.Kyanite.Bus.Transfer
use amalgam_asm.Kyanite.Cpu.{Core}
use amalgam_asm.Kyanite.Cpu.Executor.{mem_tick, after_request}

module _ (ids : List ℕ) (r : ℕ) (devices : List Bus) (words : List ℕ) (count : ℕ) (board : Bus)
    (core : Core) where
  -- The machine once the CPU has run on the bus of the board.
  abbrev pub asked : Machine
  asked = record {
    board = record { basic = (mem_tick board core).0; ram_id = r; io_ids = ids };
    devices = devices;
    cpu = (mem_tick board core).1.shared;
  }

  -- One run of the board, of the RAM, and of the board again.
  abbrev pub reply : Machine
  reply =
      board_executor (Transfer.run_ram ids r devices core.shared words count (board_executor asked))

  -- The CPU without the sleeps that its request has set, a read of which waits one tick.
  abbrev pub awake : Cpu
  awake = record core.shared {
    delay = 1;
    status = record core.shared.status { sleep_delay = false; sleep_mem = false };
  }

  -- The bus of the board, and the CPU, once the read is asked for.
  abbrev asking : Bus
  asking = record {
    status = record idle_status { read = true };
    address = core.bus_address;
    input = u32 core.shared.bus_data;
    output = board.output;
  }

  abbrev waiting : Core
  waiting = record core {
    bus_status = 1;
    shared = record awake { status = record awake.status { sleep_delay = true; sleep_mem = true } };
  }

  asks :
      board.status ≡ idle_status
      → core.bus_status ≡ 0
      → core.bus_address < 2 ^ 16
      → mem_tick board core ≡ (asking, waiting)
  unfolding mem_tick after_request
  asks idle fresh small =
      let same : u16 core.bus_address ≡ core.bus_address = omega arith in
      rw (idle, fresh, same) refl

  -- What the board brings back to a CPU.
  after : Bus × Core → Cpu
  after p =
      let m : Machine = record {
        board = record { basic = p.0; ram_id = r; io_ids = ids };
        devices = devices;
        cpu = p.1.shared;
      } in
      (board_executor
        (Transfer.run_ram ids r devices core.shared words count (board_executor m))).cpu

  chosen :
      (b : Bool) (word : ℕ)
      → Transfer.received ids r devices waiting.shared (if b then some word else none) ≡ (
          if b
          then record awake { status = record awake.status { dtr_mem = false }; bus_data = word }
          else dtr_intp awake int_mr)
  unfolding dtr_intp
  chosen true word = refl
  chosen false word = refl

  -- A CPU that has a read to do and an idle board: the CPU asks, and in one run of the board, of
  -- the RAM and of the board again gets the word at that address, or, where the address is beyond
  -- the RAM, the memory interrupt; the read is over, and the CPU awake. The RAM is present, and
  -- free.
  pub cpu_reads :
      board.status ≡ idle_status
      → core.bus_status ≡ 0
      → core.bus_address < 2 ^ 16
      → (r == 0xff) ≡ false
      → r < length devices
      → (get_or devices r idle_bus).status.read ≡ false
      → (get_or devices r idle_bus).status.write ≡ false
      → reply.cpu ≡ (
          if ltb core.bus_address count
          then record awake {
            status = record awake.status { dtr_mem = false };
            bus_data = u32 (get_or words core.bus_address 0);
          }
          else dtr_intp awake int_mr)
  unfolding after
  cpu_reads idle fresh small present inside no_read no_write =
      ap after (asks idle fresh small)
      ∙ (Transfer.read_comes_back ids r devices waiting.shared words count core.bus_address
            (u32 core.shared.bus_data) board.output present inside no_read no_write small
          ∙ chosen (ltb core.bus_address count) (u32 (get_or words core.bus_address 0)))
