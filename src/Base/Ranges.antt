-- ===== src/Base/Ranges.antt =====
-- Tests that are true of every number below a bound, checked value by value.
use Prim.Native.Nat.{ℕ, zero, suc, ◌<◌}
use mathlib.Core.Path.{◌≡◌}
use mathlib.Core.Logic.{inl, inr}
use mathlib.Core.Bool.{Bool, true, ◌&&◌}
use native.Mathlib.Omega.{arith}
use amalgam_asm.Base.Tests.{Bool-cases, ◌==◌}

unfoldable pub all_below : ℕ → (ℕ → Bool) → Bool
all_below zero p = true
all_below (suc n) p = p n && all_below n p

pub all_below_at : (n : ℕ) (p : ℕ → Bool) (i : ℕ) → all_below n p ≡ true → i < n → p i ≡ true
unfolding all_below
all_below_at zero p i all h = ground arith
all_below_at (suc n) p i all h = elim (Bool-cases (i == n)) [
  | inl same ↦ ground arith
  | inr other ↦ all_below_at n p i (ground arith) (ground arith)
]
