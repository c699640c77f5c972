-- ===== src/Examples/Arrays.antt =====
-- Arrays of a few pointers.
use mathlib.Core.Option
use amalgam_asm.Base.{ℕ, ◌≡◌, refl, arith, ◌∷◌, [], some}
use amalgam_asm.Util.Array.{
  Array, IsFull, ar_get, ar_set, ar_cutout, ar_get-ar_set, ar_get-ar_cutout,
}

abbrev five : Array ℕ
five = record { size = 5; cells = 10 ∷ 11 ∷ 12 ∷ 13 ∷ 14 ∷ [] }

five-IsFull : IsFull five
five-IsFull = record { filled = refl }

ar_get-ar_set_example : ar_get 0 (ar_set 0 five 3 99).0 3 ≡ 99
ar_get-ar_set_example = ar_get-ar_set 0 five 3 3 99 five-IsFull

ar_get-ar_cutout_example :
    Option.map (λ r. ar_get 0 r.0 1) (ar_cutout five 2 4) ≡ some (ar_get 0 five 3)
ar_get-ar_cutout_example = ar_get-ar_cutout 0 five 2 4 1 five-IsFull (omega arith) (omega arith)
