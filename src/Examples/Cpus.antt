-- ===== src/Examples/Cpus.antt =====
-- A CPU with an empty cache, or with one instruction in it.
use amalgam_asm.Base.{
  ℕ, ◌+◌, ◌<◌, ◌≡◌, refl, arith, List, [], ◌∷◌, suc, get_or, ◌/◌, false, replicate, set, true, none,
  some,
}
use mathlib.Core.Path.{subst}
use amalgam_asm.Base.Bits.{u16}
use amalgam_asm.Kyanite.Cpu.Addr
use amalgam_asm.Kyanite.Timer.{Cpu}
use amalgam_asm.Kyanite.Bus.Board.{idle_bus}
use amalgam_asm.Kyanite.Cpu.{
  Core, Task, word_at, set_reg, insn_end, cache_read, cache_write, present,
}
use amalgam_asm.Kyanite.Cpu.Insn
use amalgam_asm.Kyanite.Cpu.Alu.{half}
use amalgam_asm.Kyanite.Cpu.Cache.{cache_read-write}
use amalgam_asm.Kyanite.Cpu.Decode.{decode}
use amalgam_asm.Kyanite.Cpu.Parser.{jump, switch_task}
use amalgam_asm.Kyanite.Cpu.Parser.Flow.{runs, loop_ends}
use amalgam_asm.Kyanite.Cpu.Parser.Tasks.{switched, slots_after, switch_task-switch_task}
use amalgam_asm.Kyanite.Cpu.Executor.{cpu_executor}
use amalgam_asm.Kyanite.Cpu.Executor.Fill.{fill, line_comes}
use amalgam_asm.Kyanite.Cpu.Executor.Faults.{Rises, NoSwitch, switches}
use amalgam_asm.Kyanite.Cpu.Executor.Ticks.{faults_stay}
use amalgam_asm.Kyanite.Cpu.Executor.Memory
use amalgam_asm.Kyanite.Cpu.Executor.Memory.{cpu_reads}
use amalgam_asm.Kyanite.Cpu.Executor.Sleep.{tick_all, delayed, sleep_ends}
use amalgam_asm.Examples.Machines.{words}

abbrev shared : Cpu
shared = record {
  status = record {
    running = true;
    dtr_tlb = false;
    dtr_cache = false;
    dtr_intp = false;
    dtr_mem = false;
    sleep_delay = false;
    sleep_timer = false;
    sleep_lock = false;
    sleep_mem = false;
  };
  delay = 0;
  intp_status = 0;
  bus_data = 0;
}

-- The cache with one word in it.
abbrev cache_with : ℕ → List ℕ
cache_with raw = 0 ∷ raw ∷ replicate 262 0

abbrev core_with : ℕ → Core
core_with raw = record {
  shared = shared;
  own = record { dfault = true; tfault = true; kernel = false; intf = true; flag = false };
  gpr = replicate 16 9;
  bus_status = 0;
  bus_address = 3;
  cache_lines = cache_with raw;
  task_slots = replicate 16 (record {
    gpr = replicate 16 1;
    status = (
      shared.status,
      record { dfault = false; tfault = false; kernel = false; intf = true; flag = false },
    );
    ip = 64;
  });
  flags_on = false;
  ip = 0;
  cache_address = 0;
  cache_status = 32;
  active_task = 2;
  timer_ids = [];
  devices = [];
}

-- LOOP with the register 3, back to the address 0x40.
abbrev loop_word : ℕ
loop_word = 0x4003ba

loop_ends_example :
    runs 6 (set_reg (core_with loop_word) 3 5) ≡ jump loop_word (set_reg (core_with loop_word) 3 0)
unfolding cache_read replicate decode
loop_ends_example = loop_ends (core_with loop_word) loop_word refl refl (omega arith) 5

abbrev other_task : Task
other_task = record {
  gpr = replicate 16 1;
  status = (
    shared.status,
    record { dfault = false; tfault = false; kernel = false; intf = true; flag = false },
  );
  ip = 64;
}

switch_task-switch_task_example :
    let core = core_with 0 in
    (switch_task 5 core ≡ some (switched core 5 other_task))
    × (switch_task 2 (switched core 5 other_task)
        ≡ some (
            insn_end 2 (record core {
              task_slots = set (slots_after core) 5 (record other_task { ip = 66 });
            })))
unfolding replicate
switch_task-switch_task_example =
    switch_task-switch_task (core_with 0) 5 other_task (omega arith) refl (λ e. omega arith)
      (omega arith) refl

cache_read-write_example :
    (lines' : List ℕ) × (cache_write (cache_with 0x11223344) 0 2 7 ≡ some lines')
    × (cache_read lines' 0 4 ≡ some 7)
unfolding replicate
cache_read-write_example =
    cache_read-write (cache_with 0x11223344) 0 0 7 half (omega arith) (omega arith) refl refl refl
      (omega arith)

cpu_reads_example :
    (Memory.reply [] 0 (idle_bus ∷ []) words 4 idle_bus (core_with 0)).cpu
    ≡ record shared { delay = 1; bus_data = 40 }
cpu_reads_example =
    cpu_reads [] 0 (idle_bus ∷ []) words 4 idle_bus (core_with 0) refl refl (omega arith) refl
      (omega arith) refl refl

line_comes_example :
    let done = fill (λ n. n + 100) 33 (core_with 0) in
    (present done.cache_lines 0 ≡ true)
    × (done.shared.status.dtr_cache ≡ false)
    × ((i : ℕ)
        → i < 32
        → get_or done.cache_lines (word_at (Addr.line 0) i) 0 ≡ u16 (0 / 4 + 32 + i) + 100)
unfolding replicate
line_comes_example = line_comes (λ n. n + 100) 0 (core_with 0) refl refl refl

sleep_ends_example :
    ((k m : ℕ)
      → k + m ≡ 4
      → tick_all (λ c. none) k idle_bus (delayed (core_with 0) true 5)
        ≡ some (idle_bus, delayed (core_with 0) true (u16 (suc m))))
    × (tick_all (λ c. none) 5 idle_bus (delayed (core_with 0) true 5)
        ≡ some (idle_bus, delayed (core_with 0) false 0))
sleep_ends_example = sleep_ends (λ c. none) idle_bus (core_with 0) 4 (omega arith)

-- NOP at the instruction pointer.
abbrev nop_core : Core
nop_core = core_with 0xb0

no_switch : NoSwitch nop_core
unfolding cache_read replicate decode switches
no_switch raw e =
    let is_nop : 0xb0 ≡ raw = cc in
    subst (λ k. switches (decode (Insn.opcode k)) ≡ false) is_nop refl

faults_stay_example : Rises nop_core.own nop_core.own
unfolding cpu_executor decode replicate cache_read
faults_stay_example =
    faults_stay (λ c. none) idle_bus nop_core refl (idle_bus, insn_end 1 nop_core) no_switch refl
