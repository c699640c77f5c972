-- ===== src/Kyanite/Cpu/Executor/Sleep.antt =====
-- SLEEP: the ticks of a CPU that waits.
use amalgam_asm.Base.{
  ℕ, zero, suc, ◌+◌, ◌-◌, ◌^◌, ◌<◌, ◌≡◌, refl, ◌==◌, Bool, true, false, not, Option, none, some,
  arith, ◌∙◌,
}
use amalgam_asm.Base.Bits.{u16}
use amalgam_asm.Kyanite.Bus.{Bus}
use amalgam_asm.Kyanite.Cpu.{Core}
use amalgam_asm.Kyanite.Cpu.Executor.{cpu_executor}

-- Ticks of the CPU in a row.
unfoldable pub tick_all : (Core → Option Core) → ℕ → Bus → Core → Option (Bus × Core)
tick_all flags zero board core = some (board, core)
tick_all flags (suc n) board core = elim (cpu_executor flags board core) [
  | none ↦ none
  | some r ↦ tick_all flags n r.0 r.1
]

-- A CPU that waits for `n` ticks, or for none any more.
abbrev pub delayed : Core → Bool → ℕ → Core
delayed core waits n = record core {
  shared = record core.shared {
    delay = n;
    status = record core.shared.status {
      sleep_delay = waits;
      sleep_timer = false;
      sleep_lock = false;
      sleep_mem = false;
    };
  };
}

module _ (flags : Core → Option Core) (board : Bus) (core : Core) where
  one_tick :
      (n : ℕ)
      → cpu_executor flags board (delayed core true n)
        ≡ some (board, delayed core (not (u16 (n + 2 ^ 16 - 1) == 0)) (u16 (n + 2 ^ 16 - 1)))
  unfolding cpu_executor
  one_tick n = refl

  next_tick :
      (n m : ℕ)
      → cpu_executor flags board (delayed core true n) ≡ some (board, delayed core true m)
      → (k : ℕ)
      → tick_all flags (suc k) board (delayed core true n)
        ≡ tick_all flags k board (delayed core true m)
  unfolding tick_all
  next_tick n m e k = rw (e, tick_all) refl

  -- A tick that leaves something to wait for.
  waits_on :
      (m : ℕ)
      → suc m < 2 ^ 16
      → cpu_executor flags board (delayed core true (u16 (suc (suc m))))
        ≡ some (board, delayed core true (u16 (suc m)))
  waits_on m small =
      let less : u16 (u16 (suc (suc m)) + 2 ^ 16 - 1) ≡ suc m = omega arith in
      let same : u16 (suc m) ≡ suc m = omega arith in
      let some_left : (suc m == 0) ≡ false = ground arith in
      one_tick (u16 (suc (suc m))) ∙ rw (less, same, some_left) refl

  counts :
      (k m : ℕ)
      → k + m < 2 ^ 16
      → tick_all flags k board (delayed core true (u16 (suc (k + m))))
        ≡ some (board, delayed core true (u16 (suc m)))
  unfolding tick_all
  counts zero m small = let same : 0 + m ≡ m = omega arith in rw same refl
  counts (suc k) m small =
      let same : suc k + m ≡ suc (k + m) = omega arith in
      rw same (next_tick _ _ (waits_on (k + m) (omega arith)) k ∙ counts k m (omega arith))

  last :
      (n : ℕ)
      → n < 2 ^ 16
      → tick_all flags (suc n) board (delayed core true (u16 (suc n)))
        ≡ some (board, delayed core false 0)
  unfolding tick_all
  last zero small = rw (one_tick (u16 1), tick_all) refl
  last (suc n) small = next_tick _ _ (waits_on n small) (suc n) ∙ last n (omega arith)

  -- A CPU that sleeps for `n + 1` ticks, at most 2 ^ 16, which is the delay 0, waits on through the
  -- first `n` of them and is awake after the last one, with the delay 0 and nothing else changed.
  pub sleep_ends :
      (n : ℕ)
      → n < 2 ^ 16
      → ((k m : ℕ)
          → k + m ≡ n
          → tick_all flags k board (delayed core true (u16 (suc n)))
            ≡ some (board, delayed core true (u16 (suc m))))
        × (tick_all flags (suc n) board (delayed core true (u16 (suc n)))
            ≡ some (board, delayed core false 0))
  sleep_ends n small = ((λ k m e. rw (← e) (counts k m (rw e small))), last n small)
