-- ===== src/Asm/Number.antt =====
-- `strtoll(s, 0, 0)` and `snprintf("%ld")` as the assembler uses them, on words of 64 bits.
pub mod Roundtrip
use amalgam_asm.Base.{
  ℕ, zero, suc, ◌+◌, ◌-◌, ◌*◌, ◌/◌, ◌%◌, ◌^◌, ◌==◌, ltb, leb, Bool, true, false, ◌&&◌, ◌||◌, Option,
  none, some, List, [], ◌∷◌, ◌++◌, if◌then◌else◌,
}
use amalgam_asm.Base.Text.{Text}

-- The value of a digit in the largest base, 36 for what is no digit.
unfoldable pub digit_value : ℕ → ℕ
digit_value c =
    if leb b'0' c && leb c b'9'
    then c - b'0'
    else if leb b'a' c && leb c b'z'
    then c - b'a' + 10
    else if leb b'A' c && leb c b'Z'
    then c - b'A' + 10
    else 36

-- The digits of a number, up to the first character that is none in the base.
unfoldable pub read_digits : ℕ → ℕ → Text → ℕ
read_digits base acc [] = acc
read_digits base acc (c ∷ s) =
    if ltb (digit_value c) base then read_digits base (acc * base + digit_value c) s else acc

-- After `0`: hexadecimal behind an `x` that a digit follows, else octal.
unfoldable pub read_after_zero : Text → ℕ
read_after_zero (x ∷ d ∷ s) =
    if (x == b'x' || x == b'X') && ltb (digit_value d) 16
    then read_digits 16 0 (d ∷ s)
    else read_digits 8 0 (x ∷ d ∷ s)
read_after_zero s = read_digits 8 0 s

unfoldable pub read_magnitude : Text → ℕ
unfolding read_digits digit_value read_after_zero
read_magnitude [] = 0
read_magnitude (c ∷ s) = if c == b'0' then read_after_zero s else read_digits 10 0 (c ∷ s)

-- Out of range the result is the nearest `long long`.
unfoldable pub clamp_signed : Bool → ℕ → ℕ
clamp_signed true n = if ltb (2 ^ 63) n then 2 ^ 63 else (2 ^ 64 - n) % 2 ^ 64
clamp_signed false n = if ltb n (2 ^ 63) then n else 2 ^ 63 - 1

read_sign : Text → ℕ
unfolding read_magnitude clamp_signed
read_sign [] = 0
read_sign (c ∷ s) =
    if c == b'-'
    then clamp_signed true (read_magnitude s)
    else if c == b'+'
    then clamp_signed false (read_magnitude s)
    else clamp_signed false (read_magnitude (c ∷ s))

-- `isspace` of the C locale.
is_c_space : ℕ → Bool
is_c_space c = c == 32 || (leb 9 c && leb c 13)

unfoldable pub strtoll : Text → ℕ
unfolding read_sign is_c_space
strtoll [] = 0
strtoll (c ∷ s) = if is_c_space c then strtoll s else read_sign (c ∷ s)

-- Decimal digits in front of `acc`; 20 rounds do for 64 bits.
unfoldable pub put_digits : ℕ → ℕ → Text → Text
put_digits zero n acc = acc
put_digits (suc f) n acc =
    let rest = put_digits f (n / 10) ((b'0' + n % 10) ∷ acc) in
    if ltb n 10 then (b'0' + n) ∷ acc else rest

unfoldable pub print_unsigned : ℕ → Text
print_unsigned n = put_digits 20 n []

-- The word is printed as the `long` that it stands for.
unfoldable pub print_long : ℕ → Text
print_long n = if ltb n (2 ^ 63) then print_unsigned n else b'-' ∷ print_unsigned (2 ^ 64 - n)
