-- ===== src/Kyanite/Cpu/Cache.antt =====
-- Reads and writes of the cache at addresses of whole words.
use amalgam_asm.Base.{
  ℕ, zero, suc, ◌+◌, ◌-◌, ◌*◌, ◌/◌, ◌%◌, ◌^◌, ◌<◌, ◌≡◌, refl, ◌==◌, ltb, Bool, true, false, some,
  List, [], ◌∷◌, if◌then◌else◌, length, get_or, set, length-set, get_or-set, arith, ap, ◌∙◌, ==_iff,
}
use amalgam_asm.Base.Bits.{u32}
use amalgam_asm.Kyanite.Cpu.{
  word_at, header_at, with_dirty, change_header, load, store, cache_read, cache_write,
}
use amalgam_asm.Kyanite.Cpu.Addr
use amalgam_asm.Kyanite.Cpu.Alu.{Width, half, full, bytes}

set-get_or : (xs : List ℕ) (i : ℕ) → set xs i (get_or xs i 0) ≡ xs
set-get_or [] i = refl
set-get_or (x ∷ xs) zero = refl
set-get_or (x ∷ xs) (suc i) = ap (λ r. x ∷ r) (set-get_or xs i)

-- Where the word of an address stands.
abbrev pub place : ℕ → ℕ
place a = word_at (Addr.line a) (Addr.offset a)

load_aligned :
    (lines : List ℕ) (i : ℕ) → i < length lines → load lines i 0 ≡ some (u32 (get_or lines i 0))
unfolding load
load_aligned lines i inside =
    let fits : ltb (i + 0) (length lines) ≡ true = ground arith in rw fits (ap some (omega arith))

get_or-set_next : (xs : List ℕ) (i v : ℕ) → get_or (set xs i v) (i + 1) 0 ≡ get_or xs (i + 1) 0
get_or-set_next [] i v = refl
get_or-set_next (x ∷ xs) zero v = let next : 0 + 1 ≡ 1 = omega arith in rw next refl
get_or-set_next (x ∷ xs) (suc i) v =
    let next : suc i + 1 ≡ suc (i + 1) = omega arith in rw next (get_or-set_next xs i v)

store_aligned :
    (lines : List ℕ) (i v : ℕ)
    → i < length lines
    → v < 2 ^ 32
    → store lines i 0 v ≡ some (set lines i v)
unfolding store
store_aligned lines i v inside small =
    let fits : ltb (i + 0) (length lines) ≡ true = ground arith in
    let low : get_or lines i 0 % 2 ^ (8 * 0) + u32 (v * 2 ^ (8 * 0)) ≡ v = omega arith in
    let high : get_or lines (i + 1) 0 - get_or lines (i + 1) 0 % 2 ^ (8 * 0) + v / 2 ^ (32 - 8 * 0)
        ≡ get_or (set lines i v) (i + 1) 0 =
      omega (arith, get_or-set_next lines i v) in
    rw (fits, low, high, set-get_or (set lines i v) (i + 1)) refl

-- A whole word, and its first half, lie in one line.
one_line :
    (a : ℕ) (w : Width)
    → a < 2 ^ 16
    → Addr.byte a ≡ 0
    → (Addr.line (Addr.last a (bytes w)) == Addr.line a) ≡ true
one_line a half small aligned = (==_iff _ _).1 (omega arith)
one_line a full small aligned = (==_iff _ _).1 (omega arith)

-- What a read of a whole word gives.
cache_read_aligned :
    (lines : List ℕ) (a : ℕ)
    → a < 2 ^ 16
    → Addr.byte a ≡ 0
    → length lines ≡ 264
    → cache_read lines a 4 ≡ some (u32 (get_or lines (place a) 0))
unfolding cache_read
cache_read_aligned lines a small aligned filled =
    rw (one_line a full small aligned, aligned) (load_aligned lines (place a) (omega arith))

-- The word is written, and the line marked.
abbrev written : List ℕ → ℕ → ℕ → List ℕ
written lines a v = change_header (with_dirty 1) (Addr.line a) (set lines (place a) v)

cache_write_aligned :
    (lines : List ℕ) (a v : ℕ) (w : Width)
    → a < 2 ^ 16
    → Addr.byte a ≡ 0
    → length lines ≡ 264
    → v < 2 ^ 32
    → cache_write lines a (bytes w) v ≡ some (written lines a v)
unfolding cache_write
cache_write_aligned lines a v w small aligned filled fits =
    rw (one_line a w small aligned, aligned, store_aligned lines (place a) v (omega arith) fits)
      refl

same_word :
    (a b v : ℕ) (lines : List ℕ)
    → length lines ≡ 264
    → get_or (written lines a v) (place b) 0
      ≡ (if place a == place b then v else get_or lines (place b) 0)
same_word a b v lines filled =
    let apart : (header_at (Addr.line a) == place b) ≡ false = ground arith in
    get_or-set (set lines (place a) v) (header_at (Addr.line a)) (place b) _ 0
      (omega (arith, length-set lines (place a) v))
    ∙ rw apart (get_or-set lines (place a) (place b) v 0 (omega arith))

-- After a write of 32 or of 16 bits at the address of a whole word, the word that is read there is the
-- value written, so a write of 16 bits clears the two bytes behind them; every other word is read as
-- before. The cache has its eight lines.
pub cache_read-write :
    (lines : List ℕ) (a b v : ℕ) (w : Width)
    → a < 2 ^ 16
    → b < 2 ^ 16
    → Addr.byte a ≡ 0
    → Addr.byte b ≡ 0
    → length lines ≡ 264
    → v < 2 ^ 32
    → (lines' : List ℕ) × (cache_write lines a (bytes w) v ≡ some lines')
      × (cache_read lines' b 4 ≡ (if place a == place b then some v else cache_read lines b 4))
cache_read-write lines a b v w small small' aligned aligned' filled fits = (
  written lines a v,
  cache_write_aligned lines a v w small aligned filled fits,
  cache_read_aligned (written lines a v) b small' aligned' (
        omega (
          arith,
          length-set (set lines (place a) v) (header_at (Addr.line a)) _,
          length-set lines (place a) v,
        ))
      ∙ rw (same_word a b v lines filled, cache_read_aligned lines b small' aligned' filled)
          (by_word (place a == place b)),
)
  where
    by_word :
        (c : Bool)
        → some (u32 (if c then v else get_or lines (place b) 0))
          ≡ (if c then some v else some (u32 (get_or lines (place b) 0)))
    by_word true = ap some (omega arith)
    by_word false = refl
