-- ===== src/Asm/Number/Roundtrip.antt =====
-- What `%ld` prints, `strtoll` reads back.
use amalgam_asm.Base.{
  ℕ, zero, suc, ◌+◌, ◌-◌, ◌/◌, ◌%◌, ◌^◌, ◌≤◌, ◌<◌, ◌≡◌, refl, ltb, true, false, [], ◌∷◌, arith,
  Bool-cases, inl, inr, ◌∙◌, ap, sym,
}
use native.Mathlib.Nat.{pow-suc}
use amalgam_asm.Base.Text.{Text}
use amalgam_asm.Asm.Number.{
  digit_value, read_digits, read_magnitude, clamp_signed, strtoll, put_digits, print_unsigned,
  print_long,
}

digit_value_digit : (d : ℕ) → d < 10 → digit_value (b'0' + d) ≡ d
unfolding digit_value
digit_value_digit d h = ground arith

read-put_digits :
    (f n : ℕ) (acc : Text)
    → n < 10 ^ suc f
    → read_digits 10 0 (put_digits (suc f) n acc) ≡ read_digits 10 n acc
unfolding read_digits put_digits
read-put_digits zero n acc h = ground (arith, digit_value_digit n)
read-put_digits (suc f) n acc h = elim (Bool-cases (ltb n 10)) [
  | inl small ↦ rw small (ground (arith, digit_value_digit n))
  | inr large ↦ rw large (
      read-put_digits f (n / 10) ((b'0' + n % 10) ∷ acc) (omega (arith, pow-suc 10 (suc f)))
      ∙ ground (arith, digit_value_digit (n % 10)))
]

record Leads (n : ℕ) (t : Text) : Type 0 where
  first : ℕ
  rest : Text
  shape : t ≡ first ∷ rest
  low : b'0' ≤ first
  high : first ≤ b'9'
  nonzero : 0 < n → b'0' < first

Leads-small : (f n : ℕ) (acc : Text) → ltb n 10 ≡ true → Leads n (put_digits (suc f) n acc)
unfolding put_digits
Leads-small f n acc small = rw small (record {
  first = b'0' + n;
  rest = acc;
  shape = refl;
  low = omega arith;
  high = ground arith;
  nonzero = λ p. omega arith;
})

put_digits-Leads : (f n : ℕ) (acc : Text) → n < 10 ^ suc f → Leads n (put_digits (suc f) n acc)
unfolding put_digits
put_digits-Leads zero n acc h = Leads-small 0 n acc (ground arith)
put_digits-Leads (suc f) n acc h = elim (Bool-cases (ltb n 10)) [
  | inl small ↦ Leads-small (suc f) n acc small
  | inr large ↦ rw large (
      let t =
        put_digits-Leads f (n / 10) ((b'0' + n % 10) ∷ acc) (omega (arith, pow-suc 10 (suc f))) in
      record {
        first = t.first;
        rest = t.rest;
        shape = t.shape;
        low = t.low;
        high = t.high;
        nonzero = λ p. t.nonzero (ground arith);
      })
]

read_magnitude_first :
    (c : ℕ) (s : Text) → b'0' < c → read_magnitude (c ∷ s) ≡ read_digits 10 0 (c ∷ s)
unfolding read_magnitude
read_magnitude_first c s h = ground arith

read_zero : read_magnitude (b'0' ∷ []) ≡ 0
unfolding read_magnitude
read_zero = refl

print-Leads : (n : ℕ) → n < 10 ^ 20 → Leads n (print_unsigned n)
unfolding print_unsigned
print-Leads n h = put_digits-Leads 19 n [] h

read-print_unsigned : (n : ℕ) → n < 10 ^ 20 → read_digits 10 0 (print_unsigned n) ≡ n
unfolding print_unsigned
read-print_unsigned n h = read-put_digits 19 n [] h ∙ unfold read_digits in refl

magnitude_of :
    (n : ℕ) (t : Text) → 0 < n → Leads n t → read_digits 10 0 t ≡ n → read_magnitude t ≡ n
magnitude_of n t pos l back =
    ap read_magnitude l.shape
    ∙ read_magnitude_first l.first l.rest (l.nonzero pos)
    ∙ ap (read_digits 10 0) (sym l.shape)
    ∙ back

print_zero : print_unsigned 0 ≡ b'0' ∷ []
unfolding print_unsigned put_digits
print_zero = refl

magnitude-print : (n : ℕ) → n < 10 ^ 20 → read_magnitude (print_unsigned n) ≡ n
magnitude-print zero h = ap read_magnitude print_zero ∙ read_zero
magnitude-print (suc n) h =
    magnitude_of (suc n) _ (omega arith) (print-Leads (suc n) h) (read-print_unsigned (suc n) h)

strtoll_first :
    (c : ℕ) (s : Text) → b'0' ≤ c → strtoll (c ∷ s) ≡ clamp_signed false (read_magnitude (c ∷ s))
unfolding strtoll
strtoll_first c s h = ground arith

strtoll_minus : (s : Text) → strtoll (b'-' ∷ s) ≡ clamp_signed true (read_magnitude s)
unfolding strtoll
strtoll_minus s = refl

strtoll-print_unsigned : (n : ℕ) → n < 10 ^ 20 → strtoll (print_unsigned n) ≡ clamp_signed false n
strtoll-print_unsigned n h =
    let l = print-Leads n h in
    ap strtoll l.shape
    ∙ strtoll_first l.first l.rest l.low
    ∙ ap (λ t. clamp_signed false (read_magnitude t)) (sym l.shape)
    ∙ ap (clamp_signed false) (magnitude-print n h)

-- What `%ld` prints of a word of 64 bits, `strtoll` reads back as the same word.
pub strtoll-print_long : (n : ℕ) → n < 2 ^ 64 → strtoll (print_long n) ≡ n
unfolding print_long clamp_signed
strtoll-print_long n h = elim (Bool-cases (ltb n (2 ^ 63))) [
  | inl small ↦ rw (small, strtoll-print_unsigned n (omega arith)) (ground arith)
  | inr large ↦
      rw
        (
          large,
          strtoll_minus (print_unsigned (2 ^ 64 - n)),
          magnitude-print (2 ^ 64 - n) (omega arith),
        )
        (ground arith)
]

-- A number below 2 ^ 63 is printed with a digit in front.
pub print_long_digit :
    (n : ℕ) → n < 2 ^ 63 → (c : ℕ) × (s : Text) × (print_long n ≡ c ∷ s) × (b'0' ≤ c) × (c ≤ b'9')
unfolding print_long
print_long_digit n h =
    let l = print-Leads n (omega arith) in
    let small : ltb n (2 ^ 63) ≡ true = ground arith in
    (l.first, l.rest, rw small l.shape, l.low, l.high)
