-- ===== src/Kyanite/Cpu/Parser.antt =====
-- kyanite_legacy_cpu_normal_parser of src/kyanite_legacy.c, with its macros INSN_...: one instruction.
-- A macro that returns does not come to its INSN_END, but `parse_mem` may have moved the pointer.
pub mod Flow
pub mod Tasks
use amalgam_asm.Base.{
  ℕ, ◌+◌, ◌-◌, ◌*◌, ◌/◌, ◌%◌, ◌^◌, ◌==◌, ltb, Bool, true, false, not, ◌&&◌, ◌||◌, Option, none,
  some, List, if◌then◌else◌, length, get_or, get_elem?, set,
}
use amalgam_asm.Base.Bits.{u8, u16, u32}
use amalgam_asm.Kyanite.Timer.{Cpu, CpuStatus, Timer, dtr_intp}
use amalgam_asm.Kyanite.Cpu.{
  Core, Task, OwnStatus, reg, set_reg, set_ip, insn_end, cache_check, cache_read, cache_write,
  dtr_cache, parse_mem,
}
use amalgam_asm.Kyanite.Cpu.Insn
use amalgam_asm.Kyanite.Cpu.Alu
use amalgam_asm.Kyanite.Cpu.Alu.{
  Width, half, full, Alu, Shift, Unary, Result, value, division, bytes, cut, alu, shift, unary,
}
use amalgam_asm.Kyanite.Cpu.Decode
use amalgam_asm.Kyanite.Cpu.Decode.{Operation, Condition, Place, decode}

-- Interrupt numbers of aasm/kyanite/interrupt.h.
abbrev pub int_ud : ℕ
int_ud = 1

abbrev pub int_dv : ℕ
int_dv = 4

abbrev pub interrupt : Core → ℕ → Core
interrupt core id = record core { shared = dtr_intp core.shared id }

abbrev pub set_status : Core → CpuStatus → Core
set_status core s = record core { shared = record core.shared { status = s } }

-- `CACHE_CHECK` in front of `k`: a word that is missing is fetched, and the function returns.
abbrev pub checked : Core → ℕ → ℕ → Option Core → Option Core
checked core a size hit = elim (cache_check core.cache_lines a size) [
  | some missing ↦ some (dtr_cache core missing)
  | none ↦ hit
]

-- `CACHE_READ` into a variable, and `CACHE_WRITE` of one.
abbrev pub reading : Core → ℕ → Width → (ℕ → Option Core) → Option Core
reading core a w k = elim (cache_read core.cache_lines a (bytes w)) [
  | none ↦ none
  | some v ↦ k (cut w v)
]

abbrev pub writing : Core → ℕ → Width → ℕ → (Core → Option Core) → Option Core
writing core a w v k = elim (cache_write core.cache_lines a (bytes w) v) [
  | none ↦ none
  | some lines ↦ k (record core { cache_lines = lines })
]

-- The code of an ALU instruction, and what stands behind it. A division by 0 returns.
abbrev pub computed : Core → Result → (ℕ → Option Core) → Option Core
computed core r k = elim r [ division ↦ some (interrupt core int_dv) | value v ↦ k v ]

-- INSN_ALU.
unfoldable pub insn_alu : Alu → Width → Place → ℕ → Core → Option Core
insn_alu op w Decode.registers raw core =
    let src = cut w (reg core (Insn.mode raw)) in
    let dest = cut w (reg core (Insn.reg raw)) in
    computed core (alu op w core.own.flag dest src)
      λ v. some (insn_end 2 (set_reg core (Insn.reg raw) v))
insn_alu op w Decode.into_memory raw core =
    let moved = (parse_mem core raw).0 in
    let mem_op = (parse_mem core raw).1 in
    let src = cut w (reg moved (Insn.reg raw)) in
    checked moved mem_op (bytes w) (
      reading moved mem_op w λ dest.
        computed moved (alu op w core.own.flag dest src)
          λ v. writing moved mem_op w v λ written. some (insn_end 2 written))
insn_alu op w Decode.from_memory raw core =
    let moved = (parse_mem core raw).0 in
    let mem_op = (parse_mem core raw).1 in
    let dest = cut w (reg moved (Insn.reg raw)) in
    checked moved mem_op (bytes w) (
      reading moved mem_op w λ src.
        computed moved (alu op w core.own.flag dest src)
          λ v. some (insn_end 2 (set_reg moved (Insn.reg raw) v)))

-- INSN_ALU_IMM of MOV, and of the two that have no code.
unfoldable pub insn_alu_imm : Bool → Width → ℕ → Core → Option Core
insn_alu_imm moves w raw core =
    let src = Insn.offset raw in
    let dest = cut w (reg core (Insn.reg raw)) in
    some (insn_end 4 (set_reg core (Insn.reg raw) (if moves then src else dest)))

-- INSN_BIT.
unfoldable pub insn_bit : Shift → Width → ℕ → Core → Option Core
insn_bit op w raw core =
    let index = u8 (reg core (Insn.mode raw)) in
    elim (shift op w (cut w (reg core (Insn.reg raw))) index) [
      | none ↦ none
      | some v ↦ some (insn_end 2 (set_reg core (Insn.reg raw) v))
    ]

-- INSN_RW.
unfoldable pub insn_rw_reg : Unary → Width → ℕ → Core → Option Core
insn_rw_reg op w raw core =
    let v = unary op w (cut w (reg core (Insn.reg raw))) in
    some (insn_end 2 (set_reg core (Insn.reg raw) v))

unfoldable pub insn_rw_mem : Unary → Width → ℕ → Core → Option Core
insn_rw_mem op w raw core =
    let moved = (parse_mem core raw).0 in
    let mem_op = (parse_mem core raw).1 in
    checked moved mem_op (bytes w) (
      reading moved mem_op w
        λ v. writing moved mem_op w (unary op w v) λ written. some (insn_end 2 written))

-- INSN_READ of PUSH, which has no code.
unfoldable pub insn_read_mem : Width → ℕ → Core → Option Core
insn_read_mem w raw core =
    let moved = (parse_mem core raw).0 in
    let mem_op = (parse_mem core raw).1 in
    checked moved mem_op (bytes w) (reading moved mem_op w λ v. some (insn_end 2 moved))

-- INSN_WRITE of POP, which has no code: the variable that is written was never set.
unfoldable pub insn_write_mem : Width → ℕ → Core → Option Core
insn_write_mem w raw core =
    let moved = (parse_mem core raw).0 in
    let mem_op = (parse_mem core raw).1 in checked moved mem_op (bytes w) none

-- SLEEP, and its end.
unfoldable pub sleep : ℕ → ℕ → Core → Option Core
sleep ticks size core = some (
    insn_end size (record core {
      shared = record core.shared {
        status = record core.shared.status { sleep_delay = true };
        delay = u16 ticks;
      };
    }))

unfoldable pub wait : ℕ → Core → Option Core
wait id core = some (
    insn_end 2 (record core {
      shared = record core.shared {
        status = record core.shared.status { sleep_timer = true };
        delay = u8 id;
      };
    }))

-- TINC, on a timer that is there.
unfoldable pub tinc : ℕ → Core → Option Core
tinc raw core =
    let id = get_or core.timer_ids (Insn.imm raw % 4) 0xff in
    elim (get_elem? core.devices id) [
      | none ↦ none
      | some timer ↦
          let counter = if timer.status.watchdog then 0 else u32 (timer.counter + 1) in
          some (
            insn_end 2
              (record core { devices = set core.devices id (record timer { counter = counter }) }))
    ]

-- TSW: the running task is saved, and another one loaded.
unfoldable pub saved : Core → Task
saved core = record { gpr = core.gpr; status = (core.shared.status, core.own); ip = core.ip }

unfoldable pub switch_task : ℕ → Core → Option Core
unfolding saved
switch_task id core =
    let slots = set core.task_slots core.active_task (saved core) in
    elim (get_elem? slots (id % 16)) [
      | none ↦ none
      | some next ↦ some (
          insn_end 2 (record core {
            task_slots = slots;
            active_task = id % 16;
            ip = next.ip;
            shared = record core.shared { status = next.status.0 };
            own = next.status.1;
            gpr = next.gpr;
          }))
    ]

unfoldable pub make_task : ℕ → Core → Option Core
make_task id core = some (insn_end 2 (record core { active_task = id % 16 }))

-- The jump: JMPm and CALLm, and whatever falls through to them.
unfoldable pub jump : ℕ → Core → Option Core
jump raw core = some (record (parse_mem core raw).0 { ip = (parse_mem core raw).1 })

-- LOOPrm.
unfoldable pub loop : ℕ → Core → Option Core
unfolding jump
loop raw core =
    let count = reg core (Insn.reg raw) in
    if count == 0 then jump raw core else some (set_reg core (Insn.reg raw) (count - 1))

unfoldable pub exchange : ℕ → Core → Option Core
exchange raw core =
    let inter = reg core (Insn.reg raw) in
    let first = set_reg core (Insn.reg raw) (reg core (Insn.mode raw)) in
    some (insn_end 1 (set_reg first (Insn.mode raw) inter))

unfoldable pub load_address : ℕ → Core → Option Core
load_address raw core =
    some (insn_end 1 (set_reg (parse_mem core raw).0 (Insn.reg raw) (parse_mem core raw).1))

-- The conditions of INSN_CC. CPU_CF, CPU_ZF, CPU_OF and CPU_SF are one bit, `flag`.
unfoldable pub holds : Condition → Bool → Bool
holds Decode.no flag = not flag
holds Decode.o flag = flag
holds Decode.nz flag = not flag
holds Decode.z flag = flag
holds Decode.ns flag = not flag
holds Decode.s flag = flag
holds Decode.ae flag = not flag
holds Decode.b flag = flag
holds Decode.a flag = not flag && not flag
holds Decode.be flag = flag || flag
holds Decode.ge flag = if flag then flag else not flag
holds Decode.l flag = if flag then not flag else flag
holds Decode.le flag = (if flag then not flag else flag) || flag
holds Decode.g flag = (if flag then flag else not flag) && not flag

-- `INSN_SC`: the branch where the condition holds, and no `break`.
unfoldable pub insn_sc : Bool → (Core → Core) → Core → Core
insn_sc condition branch core = if condition then branch core else core

-- The `switch`. MOVcc and Jcc are given neither a branch nor a suffix, and fall through to JMPm. The cases CRLDx to OUTrx, RET and IRET do nothing.
unfoldable pub execute : Operation → ℕ → Core → Option Core
unfolding insn_alu insn_alu_imm insn_bit insn_rw_reg insn_rw_mem insn_read_mem insn_write_mem sleep
    wait tinc switch_task make_task jump loop exchange load_address holds insn_sc
execute (Decode.binary op w place) raw core = insn_alu op w place raw core
execute (Decode.immediate w) raw core = insn_alu_imm true w raw core
execute (Decode.untouched w) raw core = insn_alu_imm false w raw core
execute (Decode.shifted op w) raw core = insn_bit op w raw core
execute (Decode.unary_reg op w) raw core = insn_rw_reg op w raw core
execute (Decode.unary_mem op w) raw core = insn_rw_mem op w raw core
execute (Decode.push_reg w) raw core = some (insn_end 2 core)
execute (Decode.push_mem w) raw core = insn_read_mem w raw core
execute (Decode.pop_reg w) raw core = none
execute (Decode.pop_mem w) raw core = insn_write_mem w raw core
execute (Decode.mov_if condition) raw core =
    jump raw (insn_sc (holds condition core.own.flag) (λ c. c) core)
execute (Decode.jump_if condition) raw core =
    jump raw (insn_sc (holds condition core.own.flag) (λ c. c) core)
execute Decode.nop raw core = some (insn_end 1 core)
execute Decode.halt raw core =
    some (insn_end 1 (set_status core (record core.shared.status { running = false })))
execute Decode.sleep_reg raw core = sleep (reg core (Insn.reg raw)) 2 core
execute Decode.sleep_imm raw core = sleep (Insn.imm raw) 3 core
execute Decode.wait raw core = wait (Insn.imm raw) core
execute Decode.tinc raw core = tinc raw core
execute Decode.sei raw core =
    some (insn_end 1 (record core { own = record core.own { intf = true } }))
execute Decode.cli raw core =
    some (insn_end 1 (record core { own = record core.own { intf = false } }))
execute Decode.tsw_reg raw core = switch_task (reg core (Insn.reg raw)) core
execute Decode.tsw_imm raw core = switch_task (Insn.imm raw) core
execute Decode.tmk_reg raw core = make_task (reg core (Insn.reg raw)) core
execute Decode.tmk_imm raw core = make_task (Insn.imm raw) core
execute Decode.jmp raw core = jump raw core
execute Decode.call raw core = jump raw core
execute Decode.loop raw core = loop raw core
execute Decode.int raw core = some (interrupt core (Insn.imm raw))
execute Decode.ret raw core = some core
execute Decode.iret raw core = some core
execute Decode.swap raw core = exchange raw core
execute Decode.lea raw core = load_address raw core
execute Decode.control raw core = some core
execute Decode.input raw core = some core
execute Decode.output raw core = some core
execute Decode.flags raw core = some (insn_end 1 (record core { flags_on = true }))
execute Decode.noflags raw core = some (insn_end 1 (record core { flags_on = false }))
execute Decode.ext raw core = some (insn_end 1 core)
execute Decode.undefined raw core = some (interrupt core int_ud)

-- The word at the instruction pointer is read as it stands in the cache, and carried out.
unfoldable pub normal_parser : Core → Option Core
unfolding execute
normal_parser core = elim (cache_read core.cache_lines core.ip 4) [
  | none ↦ none
  | some raw ↦ execute (decode (Insn.opcode raw)) raw core
]
