-- ===== src/Asm/Source/Measure.antt =====
-- The size that `helper_file_substitute` allocates for a word, and the size of the word it writes.
use amalgam_asm.Base.{
  ℕ, zero, suc, ◌+◌, ◌-◌, ◌^◌, ◌<◌, ◌≤◌, ◌≡◌, ◌==◌, true, ◌&&◌, [], ◌∷◌, length, length-append, ap,
  arith, Bool-cases, inl, inr,
}
use amalgam_asm.Base.Bits.{u64, sub64}
use amalgam_asm.Base.Text.{Text}
use amalgam_asm.Asm.Source.{starts_with, size_diff, measure, substitute}

-- A text that starts with another is at least as long.
length-starts_with : (what s : Text) → starts_with what s ≡ true → length what ≤ length s
unfolding starts_with
length-starts_with [] s h = omega arith
length-starts_with (d ∷ what) [] h = cc
length-starts_with (d ∷ what) (c ∷ s) h = omega (arith, length-starts_with what s (ground arith))

-- Where both texts are shorter than 2 ^ 31, the cast to an int loses nothing.
size_diff_lem :
    (what with : Text)
    → length what < 2 ^ 31
    → length with < 2 ^ 31
    → size_diff what with ≡ sub64 (length with) (length what + 1)
unfolding size_diff
size_diff_lem what with h k = ground arith

-- What is still to be read and what was counted make up what is still to be written.
measure_step :
    (what with : Text) (size skip : ℕ) (s : Text)
    → length what < 2 ^ 31
    → length with < 2 ^ 31
    → skip ≤ length s
    → u64 (measure what with size skip s + (length s - skip))
      ≡ u64 (size + length (substitute what with skip s))
unfolding measure substitute
measure_step what with size skip [] small small' h = ap u64 (omega arith)
measure_step what with size (suc skip) (c ∷ s) small small' h =
    let same : suc (length s) - suc skip ≡ length s - skip = omega arith in
    rw same (measure_step what with size skip s small small' (omega arith))
measure_step what with size zero (c ∷ s) small small' h =
    elim (Bool-cases (c == b'\\' && starts_with what s)) [
      | inl found ↦
          rw (found, length-append with (substitute what with (length what) s))
            (let size' = u64 (size + size_diff what with) in
              let within = length-starts_with what s (ground arith) in
              omega (
                arith,
                measure_step what with size' (length what) s small small' within,
                within,
                size_diff_lem what with small small',
              ))
      | inr plain ↦
          rw plain (omega (arith, measure_step what with size zero s small small' (omega arith)))
    ]

measure_bound :
    (what with : Text) (size skip : ℕ) (s : Text)
    → size < 2 ^ 64
    → measure what with size skip s < 2 ^ 64
unfolding measure
measure_bound what with size skip [] h = h
measure_bound what with size (suc skip) (c ∷ s) h = measure_bound what with size skip s h
measure_bound what with size zero (c ∷ s) h = elim (Bool-cases (c == b'\\' && starts_with what s)) [
  | inl found ↦ rw found (
      let size' = u64 (size + size_diff what with) in
      measure_bound what with size' (length what) s (omega arith))
  | inr plain ↦ rw plain (measure_bound what with size zero s h)
]

-- The memory that `helper_file_substitute` allocates for a word is as large as the word that it
-- writes, with its terminating 0, provided that the name that is replaced and the text that it is
-- replaced with are shorter than 2 ^ 31, the old word and the new one shorter than 2 ^ 64.
pub measure-substitute :
    (what with s : Text)
    → length what < 2 ^ 31
    → length with < 2 ^ 31
    → length s + 1 < 2 ^ 64
    → length (substitute what with 0 s) + 1 < 2 ^ 64
    → measure what with (length s + 1) 0 s ≡ length (substitute what with 0 s) + 1
measure-substitute what with s small small' old new = omega (
  arith,
  measure_step what with (length s + 1) 0 s small small' (omega arith),
  measure_bound what with (length s + 1) 0 s old,
)
