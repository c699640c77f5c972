-- ===== src/Examples/Machines.antt =====
-- A machine with a RAM of four words behind the board, and a timer.
use amalgam_asm.Base.{ℕ, ◌≡◌, refl, arith, List, [], ◌∷◌, true, false, some}
use amalgam_asm.Base.Bits.{u32}
use amalgam_asm.Kyanite.Bus.{Bus, Ram, ram_executor}
use amalgam_asm.Kyanite.Bus.Board.{idle_bus, idle_status}
use amalgam_asm.Kyanite.Bus.Transfer.{
  asked_to_write, asked_to_read, ram_read-write, ram_waits, answered, received, read_comes_back,
}
use amalgam_asm.Kyanite.Timer.{Cpu, Timer, wake, alarm}
use amalgam_asm.Kyanite.Timer.Period.{ticks, ticks_strike}

abbrev pub words : List ℕ
words = 10 ∷ 20 ∷ 30 ∷ 40 ∷ []

abbrev ram : Ram
ram = record { basic = idle_bus; ram_data = words; ram_size = 4 }

ram_read-write_example :
    let stored = (ram_executor idle_bus (asked_to_write ram 2 77)).1 in
    let answer = (ram_executor idle_bus (asked_to_read stored 2)).0 in
    (answer.output ≡ u32 77) × (answer.status.response ≡ true)
ram_read-write_example = ram_read-write idle_bus ram 2 2 77 refl (omega arith) (omega arith) refl

abbrev full_bus : Bus
full_bus = record idle_bus { status = record idle_status { response = true } }

ram_waits_example : ram_executor full_bus (asked_to_read ram 9) ≡ (full_bus, asked_to_read ram 9)
ram_waits_example = ram_waits full_bus (asked_to_read ram 9) refl refl

abbrev cpu : Cpu
cpu = record {
  status = record {
    running = true;
    dtr_tlb = false;
    dtr_cache = true;
    dtr_intp = false;
    dtr_mem = true;
    sleep_delay = true;
    sleep_timer = true;
    sleep_lock = false;
    sleep_mem = true;
  };
  delay = 1;
  intp_status = 0;
  bus_data = 0;
}

read_comes_back_example :
    (answered [] 0 (idle_bus ∷ []) cpu words 4 3 0 0).cpu
    ≡ received [] 0 (idle_bus ∷ []) cpu (some 40)
read_comes_back_example =
    read_comes_back [] 0 (idle_bus ∷ []) cpu words 4 3 0 0 refl (omega arith) refl refl
      (omega arith)

abbrev timer : Timer
timer = record {
  status = record {
    running = true;
    auto = true;
    clear = true;
    stop = false;
    intp = true;
    watchdog = false;
    wakeup = true;
    tswitch = false;
  };
  counter = 0;
  limit = 3;
  id = 1;
}

ticks_strike_example :
    let due = record timer { counter = 3 } in
    (ticks 2 cpu timer ≡ (cpu, record timer { counter = 2 }))
    × ((ticks 3 cpu timer).0 ≡ alarm (wake cpu due) due)
    × ((ticks 3 cpu timer).1.counter ≡ 0)
ticks_strike_example = ticks_strike 2 cpu timer refl refl (omega arith) refl
