-- ===== src/Kyanite/Cpu/Parser/Flow.antt =====
-- LOOP (src/kyanite_legacy.c).
use amalgam_asm.Base.{
  ℕ, zero, suc, ◌-◌, ◌<◌, ◌≡◌, refl, ◌==◌, false, Option, none, some, List, if◌then◌else◌, length,
  [], ◌∷◌, ap, ◌∙◌, set, get_or-set_same, arith,
}
use amalgam_asm.Kyanite.Cpu.{Core, set_reg, cache_read}
use amalgam_asm.Kyanite.Cpu.Insn
use amalgam_asm.Kyanite.Cpu.Decode
use amalgam_asm.Kyanite.Cpu.Decode.{Operation, decode}
use amalgam_asm.Kyanite.Cpu.Parser.{execute, normal_parser, jump, loop}

-- Instructions in a row.
unfoldable pub runs : ℕ → Core → Option Core
runs zero core = some core
runs (suc n) core = elim (normal_parser core) [ none ↦ none | some next ↦ runs n next ]

normal_parser-reads :
    (core : Core) (raw : ℕ)
    → cache_read core.cache_lines core.ip 4 ≡ some raw
    → normal_parser core ≡ execute (decode (Insn.opcode raw)) raw core
unfolding normal_parser
normal_parser-reads core raw there = rw (there, normal_parser)

set-set : (xs : List ℕ) (i x y : ℕ) → set (set xs i x) i y ≡ set xs i y
set-set [] i x y = refl
set-set (z ∷ xs) zero x y = refl
set-set (z ∷ xs) (suc i) x y = ap (λ r. z ∷ r) (set-set xs i x y)

runs-step :
    (n : ℕ) (core next : Core) → normal_parser core ≡ some next → runs (suc n) core ≡ runs n next
unfolding runs
runs-step n core next e = rw (e, runs)

-- The counter of a LOOP that is at `n`.
loop-set_reg :
    (core : Core) (raw n : ℕ)
    → Insn.reg raw < length core.gpr
    → loop raw (set_reg core (Insn.reg raw) n) ≡ (
        if n == 0
        then jump raw (set_reg core (Insn.reg raw) n)
        else some (set_reg core (Insn.reg raw) (n - 1)))
unfolding loop
loop-set_reg core raw n inside =
    rw (
      get_or-set_same core.gpr (Insn.reg raw) n 0 inside,
      set-set core.gpr (Insn.reg raw) n (n - 1),
    )

module _ (core : Core) (raw : ℕ) where
  abbrev counting : ℕ → Core
  counting n = set_reg core (Insn.reg raw) n

  module _ (there : cache_read core.cache_lines core.ip 4 ≡ some raw)
      (is_loop : decode (Insn.opcode raw) ≡ Decode.loop)
      (inside : Insn.reg raw < length core.gpr) where
    ticks : (n : ℕ) → normal_parser (counting n) ≡ loop raw (counting n)
    unfolding execute
    ticks n = normal_parser-reads (counting n) raw there ∙ rw is_loop

    -- LOOP does not move the instruction pointer while it counts: it takes `n` ticks to bring its
    -- register from `n` to 0, and jumps in the next one. The word at the instruction pointer is
    -- that of a LOOP, and the CPU has the register.
    pub loop_ends : (n : ℕ) → runs (suc n) (counting n) ≡ jump raw (counting 0)
    unfolding runs jump
    loop_ends zero = runs-step 0 (counting 0) _ (ticks 0 ∙ loop-set_reg core raw 0 inside)
    loop_ends (suc n) =
        let more : (suc n == 0) ≡ false = ground arith in
        let one_less : suc n - 1 ≡ n = omega arith in
        runs-step (suc n) (counting (suc n)) (counting n)
          (ticks (suc n) ∙ loop-set_reg core raw (suc n) inside ∙ rw (more, one_less))
        ∙ loop_ends n
