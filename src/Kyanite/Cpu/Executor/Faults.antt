-- ===== src/Kyanite/Cpu/Executor/Faults.antt =====
-- The fault level of the CPU, DFAULT and TFAULT, behind one instruction (src/kyanite_legacy.c).
use amalgam_asm.Base.{
  ℕ, ◌≡◌, ◌==◌, Bool, true, false, Option, none, some, if◌then◌else◌, get_elem?, Option-cases, inl,
  inr,
}
use amalgam_asm.Kyanite.Cpu.{
  Core, OwnStatus, reg, set_reg, insn_end, cache_check, cache_read, cache_write, dtr_cache,
  parse_mem,
}
use amalgam_asm.Kyanite.Cpu.Insn
use amalgam_asm.Kyanite.Cpu.Alu.{
  Alu, Width, Shift, Unary, Result, value, division, alu, unary, shift, bytes, cut,
}
use amalgam_asm.Kyanite.Cpu.Decode
use amalgam_asm.Kyanite.Cpu.Decode.{Operation, Place, decode}
use amalgam_asm.Kyanite.Cpu.Parser.{
  holds, insn_sc, checked, reading, writing, computed, execute, normal_parser, insn_alu, insn_bit,
  insn_rw_mem, insn_read_mem, insn_write_mem, tinc, loop, jump,
}
use amalgam_asm.Kyanite.Cpu.Executor.{}

-- What a step makes of the fault level: it does not fall.
abbrev pub Rises : OwnStatus → OwnStatus → Type 0
Rises before after =
    (before.dfault ≡ true → after.dfault ≡ true) × (before.tfault ≡ true → after.tfault ≡ true)

-- A run that is undefined, or keeps the level.
pub data Kept (own : OwnStatus) : Option Core → Type 0 where
  nothing : Kept own none
  keeps : {core : Core} → Rises own core.own → Kept own (some core)

pub stays : (own : OwnStatus) → Rises own own
stays own = ((λ h. h), λ h. h)

module _ (own : OwnStatus) where
  pub choice-Kept :
      (b : Bool) (x y : Option Core) → Kept own x → Kept own y → Kept own (if b then x else y)
  choice-Kept true x y p q = p
  choice-Kept false x y p q = q

  -- An `elim` on a cache access or on a lookup.
  lookup-Kept :
      {A : Type 0} (o : Option A) (k : A → Option Core)
      → ((a : A) → Kept own (k a))
      → Kept own (elim o as (λ _. Option Core) [ none ↦ none | some a ↦ k a ])
  lookup-Kept none k p = nothing
  lookup-Kept (some a) k p = p a

  missing-Kept :
      (core : Core) (o : Option ℕ) (hit : Option Core)
      → Rises own core.own
      → Kept own hit
      → Kept own (elim o as (λ _. Option Core) [ some m ↦ some (dtr_cache core m) | none ↦ hit ])
  unfolding dtr_cache
  missing-Kept core none hit same p = p
  missing-Kept core (some m) hit same p = keeps same

  computed-Kept :
      (core : Core) (r : Result) (k : ℕ → Option Core)
      → Rises own core.own
      → ((v : ℕ) → Kept own (k v))
      → Kept own (computed core r k)
  computed-Kept core (value v) k same p = p v
  computed-Kept core division k same p = keeps same

  module _ (core : Core) (same : Rises own core.own) where
    pub checked-Kept :
        (a size : ℕ) (hit : Option Core) → Kept own hit → Kept own (checked core a size hit)
    checked-Kept a size hit p = missing-Kept core (cache_check core.cache_lines a size) hit same p

    pub reading-Kept :
        (a : ℕ) (w : Width) (k : ℕ → Option Core)
        → ((v : ℕ) → Kept own (k v))
        → Kept own (reading core a w k)
    reading-Kept a w k p =
        lookup-Kept (cache_read core.cache_lines a (bytes w)) (λ v. k (cut w v)) (λ v. p (cut w v))

    pub writing-Kept :
        (a : ℕ) (w : Width) (v : ℕ) (k : Core → Option Core)
        → ((c : Core) → Rises own c.own → Kept own (k c))
        → Kept own (writing core a w v k)
    writing-Kept a w v k p =
        lookup-Kept (cache_write core.cache_lines a (bytes w) v) _
          (λ lines. p (record core { cache_lines = lines }) same)

-- An instruction that does not switch tasks.
unfoldable pub switches : Operation → Bool
switches Decode.tsw_reg = true
switches Decode.tsw_imm = true
switches _ = false

module _ (raw : ℕ) (core : Core) where
  abbrev same : Rises core.own core.own
  same = stays core.own

  abbrev moved : Core
  moved = (parse_mem core raw).0

  abbrev ends : Core → Option Core
  ends written = some (insn_end 2 written)

  binary-Kept :
      (op : Alu) (w : Width) (place : Place) → Kept core.own (insn_alu op w place raw core)
  unfolding insn_alu parse_mem
  binary-Kept op w Decode.registers = computed-Kept core.own core _ _ same λ v. keeps same
  binary-Kept op w Decode.into_memory =
      let own_word = cut w (reg moved (Insn.reg raw)) in
      checked-Kept core.own moved same _ _ _ (
        reading-Kept core.own moved same _ w _ λ dest.
          computed-Kept core.own moved (alu op w core.own.flag dest own_word) _ same λ v.
            writing-Kept core.own moved same (parse_mem core raw).1 w v ends λ c kept. keeps kept)
  binary-Kept op w Decode.from_memory =
      let own_word = cut w (reg moved (Insn.reg raw)) in
      checked-Kept core.own moved same _ _ _ (
        reading-Kept core.own moved same _ w _ λ src.
          computed-Kept core.own moved (alu op w core.own.flag own_word src)
            (λ v. some (insn_end 2 (set_reg moved (Insn.reg raw) v))) same λ v. keeps same)

  unary-Kept : (op : Unary) (w : Width) → Kept core.own (insn_rw_mem op w raw core)
  unfolding insn_rw_mem parse_mem
  unary-Kept op w = checked-Kept core.own moved same _ _ _ (
      reading-Kept core.own moved same _ w _ λ v.
        writing-Kept core.own moved same (parse_mem core raw).1 w (unary op w v) ends
          λ c kept. keeps kept)

  push-Kept : (w : Width) → Kept core.own (insn_read_mem w raw core)
  unfolding insn_read_mem parse_mem
  push-Kept w =
      checked-Kept core.own moved same _ _ _
        (reading-Kept core.own moved same _ w (λ v. some (insn_end 2 moved)) λ v. keeps same)

  pop-Kept : (w : Width) → Kept core.own (insn_write_mem w raw core)
  unfolding insn_write_mem parse_mem
  pop-Kept w = checked-Kept core.own moved same _ _ none nothing

  jump-Kept : Kept core.own (jump raw core)
  unfolding jump parse_mem
  jump-Kept = keeps same

  branch-Kept : (b : Bool) → Kept core.own (jump raw (insn_sc b (λ c. c) core))
  unfolding insn_sc
  branch-Kept true = jump-Kept
  branch-Kept false = jump-Kept

  loop-Kept : Kept core.own (loop raw core)
  unfolding loop
  loop-Kept = choice-Kept core.own (reg core (Insn.reg raw) == 0) _ _ jump-Kept (keeps same)

  bit-Kept : (op : Shift) (w : Width) → Kept core.own (insn_bit op w raw core)
  unfolding insn_bit
  bit-Kept op w = lookup-Kept core.own (shift op w _ _) _ (λ v. keeps same)

  tinc-Kept : Kept core.own (tinc raw core)
  unfolding tinc
  tinc-Kept = lookup-Kept core.own (get_elem? core.devices _) _ (λ timer. keeps same)

  execute-Kept : (op : Operation) → switches op ≡ false → Kept core.own (execute op raw core)
  unfolding execute switches parse_mem
  execute-Kept (Decode.binary op w place) h = binary-Kept op w place
  execute-Kept (Decode.immediate w) h = keeps same
  execute-Kept (Decode.untouched w) h = keeps same
  execute-Kept (Decode.shifted op w) h = bit-Kept op w
  execute-Kept (Decode.unary_reg op w) h = keeps same
  execute-Kept (Decode.unary_mem op w) h = unary-Kept op w
  execute-Kept (Decode.push_reg w) h = keeps same
  execute-Kept (Decode.push_mem w) h = push-Kept w
  execute-Kept (Decode.pop_reg w) h = nothing
  execute-Kept (Decode.pop_mem w) h = pop-Kept w
  execute-Kept (Decode.mov_if c) h = branch-Kept (holds c core.own.flag)
  execute-Kept (Decode.jump_if c) h = branch-Kept (holds c core.own.flag)
  execute-Kept Decode.tinc h = tinc-Kept
  execute-Kept Decode.jmp h = jump-Kept
  execute-Kept Decode.call h = jump-Kept
  execute-Kept Decode.loop h = loop-Kept
  execute-Kept Decode.tsw_reg h = cc
  execute-Kept Decode.tsw_imm h = cc
  execute-Kept Decode.lea h = keeps same
  execute-Kept Decode.swap h = keeps same
  execute-Kept op h = keeps same

-- The instruction at the instruction pointer is no TSW.
abbrev pub NoSwitch : Core → Type 0
NoSwitch core =
    (raw : ℕ)
    → cache_read core.cache_lines core.ip 4 ≡ some raw
    → switches (decode (Insn.opcode raw)) ≡ false

pub normal_parser-Kept : (core : Core) → NoSwitch core → Kept core.own (normal_parser core)
unfolding normal_parser
normal_parser-Kept core plain = elim (Option-cases (cache_read core.cache_lines core.ip 4)) [
  | inl none_such ↦ rw (none_such, normal_parser) nothing
  | inr (raw, there) ↦
      rw (there, normal_parser) (execute-Kept raw core (decode (Insn.opcode raw)) (plain raw there))
]
