-- ===== src/Kyanite/Cpu/Executor/Ticks.antt =====
-- The fault level of the CPU behind one tick (src/kyanite_legacy.c).
use amalgam_asm.Base.{
  ◌+◌, ◌-◌, ◌%◌, ◌^◌, ◌≡◌, refl, ltb, Bool, true, false, not, ◌&&◌, Option, none, some,
  if◌then◌else◌,
}
use mathlib.Core.Path.{subst}
use amalgam_asm.Base.Bits.{u16, u32}
use amalgam_asm.Kyanite.Bus.{Bus, request_as}
use amalgam_asm.Kyanite.Cpu.{Core, OwnStatus, gpr_sp, reg, set_reg, dtr_mem_read, dtr_mem_write}
use amalgam_asm.Kyanite.Cpu.Alu
use amalgam_asm.Kyanite.Cpu.Alu.{
  Alu, Width, Shift, Unary, Result, value, division, alu, unary, shift, bytes, cut,
}
use amalgam_asm.Kyanite.Cpu.Parser.{set_status, normal_parser}
use amalgam_asm.Kyanite.Cpu.Executor.{
  cpu_executor, sleep_tick, mem_tick, after_request, cache_tick, intp_tick, escalate, enter,
  entered, access, is_write, sleeps, detours,
}
use amalgam_asm.Kyanite.Cpu.Executor.Faults.{
  Rises, Kept, nothing, keeps, stays, choice-Kept, checked-Kept, reading-Kept, writing-Kept,
  NoSwitch, normal_parser-Kept,
}

if_own :
    (own : OwnStatus) (b : Bool) (x y : Core)
    → Rises own x.own
    → Rises own y.own
    → Rises own (if b then x else y).own
if_own own true x y p q = p
if_own own false x y p q = q

sleep_tick-Rises : (core : Core) → Rises core.own (sleep_tick core).own
unfolding sleep_tick
sleep_tick-Rises core =
    if_own core.own core.shared.status.sleep_delay _ core (stays core.own) (stays core.own)

after_request-Rises : (core : Core) → Rises core.own (after_request core).own
unfolding after_request
after_request-Rises core =
    if_own core.own (is_write core.bus_status) _ _ (stays core.own) (stays core.own)

cache_tick-Rises : (core : Core) → Rises core.own (cache_tick core).own
unfolding cache_tick dtr_mem_read dtr_mem_write
cache_tick-Rises core =
    if_own core.own (ltb core.cache_status 32) _ _
      (if_own core.own _ (record core { cache_status = 32 }) _ (stays core.own) (stays core.own))
      (if_own core.own (ltb core.cache_status 64) _ _ (stays core.own) (stays core.own))

enter-Kept : (own : OwnStatus) (core : Core) → Rises own core.own → Kept own (enter core)
unfolding enter
enter-Kept own core same =
    let sp = u32 (reg core gpr_sp + 2 ^ 32 - 2) in
    let pushed : Core = set_reg core gpr_sp sp in
    checked-Kept own pushed same _ _ _ (
      checked-Kept own pushed same _ _ _ (
        reading-Kept own pushed same _ Alu.half _ λ intp_ptr.
          writing-Kept own pushed same (u16 sp) Alu.half core.ip
            (λ written. some (entered intp_ptr written)) λ c kept. keeps kept))

escalated :
    (core : Core) (taken : Option Core)
    → Kept core.own taken
    → Kept core.own (elim taken as (λ _. Option Core) [
      | none ↦ some (set_status core (record core.shared.status { running = false }))
      | some c ↦ enter c
    ])
escalated core none k = keeps (stays core.own)
escalated core (some c) (keeps k) = enter-Kept core.own c k

either-Kept :
    {own : OwnStatus} (b : Bool) (x y : Core)
    → Rises own x.own
    → Rises own y.own
    → Kept own (if b then some x else some y)
either-Kept true x y p q = keeps p
either-Kept false x y p q = keeps q

escalate-Kept : (core : Core) → Kept core.own (escalate core)
unfolding escalate
escalate-Kept core =
    choice-Kept core.own core.own.tfault none _ nothing
      (either-Kept core.own.dfault _ _ ((λ h. h), λ h. refl) ((λ h. refl), λ h. h))

intp_tick-Kept : (core : Core) → Kept core.own (intp_tick core)
unfolding intp_tick
intp_tick-Kept core =
    choice-Kept core.own (not core.own.intf && ltb 0x1f (core.shared.intp_status % 256)) _ _
      (keeps (stays core.own))
      (choice-Kept core.own (is_write core.shared.intp_status) _ _
        (enter-Kept core.own core (stays core.own))
        (escalated core (escalate core) (escalate-Kept core)))

-- The same with the bus of the board beside the CPU.
data Ticks (own : OwnStatus) : Option (Bus × Core) → Type 0 where
  stuck : Ticks own none
  ticks : {r : Bus × Core} → Rises own r.1.own → Ticks own (some r)

ticked :
    {own : OwnStatus} {o : Option (Bus × Core)} {r : Bus × Core}
    → Ticks own o
    → o ≡ some r
    → Rises own r.1.own
ticked {own} {r} (ticks {r = q} rises) e =
    let same : q ≡ r = cc in subst (λ (p : Bus × Core). Rises own p.1.own) same rises
ticked stuck e = cc

beside :
    {own : OwnStatus} (board : Bus) (o : Option Core)
    → Kept own o
    → Ticks own (elim o as (λ _. Option (Bus × Core)) [ none ↦ none | some c ↦ some (board, c) ])
beside board none k = stuck
beside board (some c) (keeps k) = ticks k

ticks_if :
    (own : OwnStatus) (b : Bool) (x y : Option (Bus × Core))
    → Ticks own x
    → Ticks own y
    → Ticks own (if b then x else y)
ticks_if own true x y p q = p
ticks_if own false x y p q = q

requested :
    (own : OwnStatus) (o : Option Bus) (board : Bus) (core after : Core) (mark : Bus → Bus)
    → Rises own core.own
    → Rises own after.own
    → Rises own
        (elim o as (λ _. Bus × Core) [ none ↦ (board, core) | some bus ↦ (mark bus, after) ]).1.own
requested own none board core after mark p q = p
requested own (some bus) board core after mark p q = q

module _ (flags : Core → Option Core) (board : Bus) (core : Core)
    (off : core.flags_on ≡ false) where
  ticks_all : NoSwitch core → Ticks core.own (cpu_executor flags board core)
  unfolding cpu_executor mem_tick
  ticks_all plain =
      let s = core.shared.status in
      ticks_if core.own (sleeps s) _ _ (ticks (sleep_tick-Rises core)) (
        ticks_if core.own (detours s) _ _
          (ticks_if core.own s.dtr_mem _ _
            (ticks (
              requested core.own
                (request_as board (access (is_write core.bus_status)) core.bus_address
                  core.shared.bus_data)
                board core (after_request core) _ (stays core.own) (after_request-Rises core)))
            (ticks_if core.own s.dtr_cache _ _ (ticks (cache_tick-Rises core)) (
              ticks_if core.own s.dtr_intp _ _ (beside board (intp_tick core) (intp_tick-Kept core))
                (ticks (stays core.own)))))
          (rw off (beside board (normal_parser core) (normal_parser-Kept core plain))))

  -- No tick lowers the fault level of the CPU, except that of an instruction that switches tasks: once
  -- an interrupt has set DFAULT it stays, and so does TFAULT.
  pub faults_stay :
      (r : Bus × Core)
      → NoSwitch core
      → cpu_executor flags board core ≡ some r
      → Rises core.own r.1.own
  faults_stay r plain e = ticked (ticks_all plain) e
