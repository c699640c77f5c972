-- ===== src/Kyanite/Timer.antt =====
-- kyanite_timer_t and what it does to the CPU: kyanite_legacy_timer_executor and dtr_intp of
-- src/kyanite_legacy.c.
pub mod Period
use amalgam_asm.Base.{
  ℕ, zero, suc, ◌+◌, ◌-◌, ◌*◌, ◌/◌, ◌%◌, ◌^◌, ◌==◌, ltb, Bool, true, false, not, ◌&&◌, ◌||◌,
  if◌then◌else◌,
}
use amalgam_asm.Base.Bits.{u8, u16, u32}

-- The bits of the status of a CPU that the devices read or write: STATUS_RUNNING and CPU_...
pub record CpuStatus : Type 0 where
  pub running : Bool
  pub dtr_tlb : Bool
  pub dtr_cache : Bool
  pub dtr_intp : Bool
  pub dtr_mem : Bool
  pub sleep_delay : Bool
  pub sleep_timer : Bool
  pub sleep_lock : Bool
  pub sleep_mem : Bool

-- The part of kyanite_legacy_cpu_t that the devices touch.
pub record Cpu : Type 0 where
  pub status : CpuStatus
  pub delay : ℕ
  pub intp_status : ℕ
  pub bus_data : ℕ

-- DTR_ACTIVE and SLEEP_ACTIVE name all their bits.
unfoldable pub dtr_intp : Cpu → ℕ → Cpu
dtr_intp core id = record core {
  status = record core.status {
    dtr_tlb = false;
    dtr_cache = false;
    dtr_mem = false;
    dtr_intp = true;
    sleep_delay = false;
    sleep_timer = false;
    sleep_lock = false;
    sleep_mem = false;
  };
  intp_status = u8 id;
}

-- STATUS_RUNNING and TIMER_...
pub record TimerStatus : Type 0 where
  pub running : Bool
  pub auto : Bool
  pub clear : Bool
  pub stop : Bool
  pub intp : Bool
  pub watchdog : Bool
  pub wakeup : Bool
  pub tswitch : Bool

pub record Timer : Type 0 where
  pub status : TimerStatus
  pub counter : ℕ
  pub limit : ℕ
  pub id : ℕ

abbrev pub int_timer0 : ℕ
int_timer0 = 0x20

abbrev pub int_ts : ℕ
int_ts = 0x24

-- The counter update in front of the test.
unfoldable pub count_up : Timer → Timer
count_up t = if t.status.auto then record t { counter = u32 (t.counter + 1) } else t

-- "Timer control", behind the test.
unfoldable pub control : Timer → Timer
control t = record t {
  counter = if t.status.clear then 0 else t.counter;
  status = record t.status { running = t.status.running && not t.status.stop };
}

-- "CPU control": the wakeup.
unfoldable pub wake : Cpu → Timer → Cpu
wake cpu t =
    if t.status.wakeup && cpu.status.sleep_timer && cpu.delay == t.id
    then record cpu { status = record cpu.status { sleep_timer = false } }
    else cpu

-- The rest of "CPU control": reset, task switch or interrupt, in this order.
unfoldable pub alarm : Cpu → Timer → Cpu
unfolding dtr_intp
alarm cpu t =
    if t.status.watchdog
    then record cpu { status = record cpu.status { running = false } }
    else if t.status.tswitch
    then dtr_intp cpu int_ts
    else if t.status.intp
    then dtr_intp cpu (int_timer0 + t.id)
    else cpu

unfoldable pub timer_executor : Cpu → Timer → Cpu × Timer
unfolding count_up control wake alarm
timer_executor cpu timer =
    let t = count_up timer in
    if ltb t.counter t.limit then (cpu, t) else (alarm (wake cpu t) t, control t)
