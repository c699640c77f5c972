-- ===== src/Kyanite/Timer/Period.antt =====
-- How often a timer strikes.
use amalgam_asm.Base.{ℕ, zero, suc, ◌+◌, ◌^◌, ◌<◌, ◌≡◌, refl, ltb, true, false, arith, ap, ◌∙◌}
use amalgam_asm.Base.Bits.{u32}
use amalgam_asm.Kyanite.Timer.{Cpu, Timer, timer_executor, count_up, control, wake, alarm}

-- A timer runs `n` times.
unfoldable pub ticks : ℕ → Cpu → Timer → Cpu × Timer
ticks zero cpu t = (cpu, t)
ticks (suc n) cpu t = let r = timer_executor cpu t in ticks n r.0 r.1

module _ (cpu : Cpu) (t : Timer) (auto : t.status.auto ≡ true) (bounded : t.limit < 2 ^ 32) where
  counts_on :
      t.counter + 1 < t.limit → timer_executor cpu t ≡ (cpu, record t { counter = t.counter + 1 })
  unfolding timer_executor count_up
  counts_on early =
      let small : u32 (t.counter + 1) ≡ t.counter + 1 = omega arith in
      let below : ltb (t.counter + 1) t.limit ≡ true = ground arith in rw (auto, small, below)

  strikes :
      t.counter + 1 ≡ t.limit
      → timer_executor cpu t ≡ (
        alarm (wake cpu (record t { counter = t.limit })) (record t { counter = t.limit }),
        control (record t { counter = t.limit }),
      )
  unfolding timer_executor count_up
  strikes due =
      let small : u32 (t.counter + 1) ≡ t.limit = omega arith in
      let at : ltb t.limit t.limit ≡ false = ground arith in rw (auto, small, at)

-- A timer that counts by itself leaves the CPU alone while it counts from 0 to just below its
-- limit, which fits its 32 bits.
pub ticks_quiet :
    (n : ℕ) (cpu : Cpu) (t : Timer)
    → t.status.auto ≡ true
    → t.limit < 2 ^ 32
    → t.counter + n < t.limit
    → ticks n cpu t ≡ (cpu, record t { counter = t.counter + n })
unfolding ticks
ticks_quiet zero cpu t auto bounded early = ap (λ k. (cpu, record t { counter = k })) (omega arith)
ticks_quiet (suc n) cpu t auto bounded early = rw (counts_on cpu t auto bounded (omega arith)) (
    ticks_quiet n cpu (record t { counter = t.counter + 1 }) auto bounded (omega arith)
    ∙ ap (λ k. (cpu, record t { counter = k })) (omega arith))

strikes_after :
    (n : ℕ) (cpu : Cpu) (t : Timer)
    → t.status.auto ≡ true
    → t.limit < 2 ^ 32
    → t.counter + suc n ≡ t.limit
    → let due = record t { counter = t.limit } in
      ticks (suc n) cpu t ≡ (alarm (wake cpu due) due, control due)
unfolding ticks
strikes_after zero cpu t auto bounded due = strikes cpu t auto bounded (omega arith)
strikes_after (suc n) cpu t auto bounded due =
    rw (counts_on cpu t auto bounded (omega arith))
      (strikes_after n (cpu) (record t { counter = t.counter + 1 }) auto bounded (omega arith))

-- A timer that counts by itself and clears itself, with a limit that fits its 32 bits, runs as
-- often as its counter is below its limit: it is quiet but for the last run, in which it wakes
-- or alarms the CPU once and starts again at 0.
pub ticks_strike :
    (n : ℕ) (cpu : Cpu) (t : Timer)
    → t.status.auto ≡ true
    → t.status.clear ≡ true
    → t.limit < 2 ^ 32
    → t.counter + suc n ≡ t.limit
    → let due = record t { counter = t.limit } in
      (ticks n cpu t ≡ (cpu, record t { counter = t.counter + n }))
      × ((ticks (suc n) cpu t).0 ≡ alarm (wake cpu due) due)
      × ((ticks (suc n) cpu t).1.counter ≡ 0)
unfolding control
ticks_strike n cpu t auto clear bounded due =
    let struck = strikes_after n cpu t auto bounded due in
    (
      ticks_quiet n cpu t auto bounded (omega arith),
      ap (λ r. r.0) struck,
      ap (λ r. r.1.counter) struck ∙ rw clear refl,
    )
