-- ===== src/Asm/Insn/Register.antt =====
-- What `_parse_register` can return.
use amalgam_asm.Base.{
  all_below, all_below_at, ℕ, ◌+◌, ◌<◌, ◌≡◌, refl, ◌∙◌, ap, ◌==◌, ==_iff, Bool, true, false,
  if◌then◌else◌, ◌⊎◌, inl, inr, arith,
}
use amalgam_asm.Base.Text.{Text}
use amalgam_asm.Asm.Insn.{
  parse_register, register_bits, name_code, register_names, is_pointer, first_is, rest_of,
  without_last,
}

-- The byte of a register: its number, the pointer bit and the size bit.
pub record IsRegister (r : ℕ) : Type 0 where
  pub number : ℕ
  pub pointer : Bool
  pub extended : Bool
  pub small : number < 16
  pub byte : r ≡ number + (if pointer then 32 else 0) + (if extended then 64 else 0)

-- A test that is true of the numbers below 16, as an equation about one of them.
by_value :
    (f g : ℕ → ℕ) (code : ℕ) → all_below 16 (λ c. f c == g c) ≡ true → code < 16 → f code ≡ g code
by_value f g code all h =
    (==_iff (f code) (g code)).0 (all_below_at 16 (λ c. f c == g c) code all h)

shape : Bool → Bool → ℕ → ℕ
shape pointer extended code = code + (if pointer then 32 else 0) + (if extended then 64 else 0)

bits :
    (pointer extended : Bool) (code : ℕ)
    → code < 16
    → register_bits pointer true extended code ≡ shape pointer extended code
unfolding all_below register_bits shape
bits true true code h = by_value (register_bits true true true) (shape true true) code refl h
bits true false code h = by_value (register_bits true true false) (shape true false) code refl h
bits false true code h = by_value (register_bits false true true) (shape false true) code refl h
bits false false code h = by_value (register_bits false true false) (shape false false) code refl h

no_percent :
    (pointer extended : Bool) (code : ℕ)
    → code < 16
    → register_bits pointer false extended code ≡ 0xff
unfolding all_below register_bits
no_percent true true code h = by_value (register_bits true false true) (λ c. 0xff) code refl h
no_percent true false code h = by_value (register_bits true false false) (λ c. 0xff) code refl h
no_percent false true code h = by_value (register_bits false false true) (λ c. 0xff) code refl h
no_percent false false code h = by_value (register_bits false false false) (λ c. 0xff) code refl h

unknown : (pointer percent extended : Bool) → register_bits pointer percent extended 0xff ≡ 0xff
unfolding register_bits
unknown true true true = refl
unknown true true false = refl
unknown true false true = refl
unknown true false false = refl
unknown false true true = refl
unknown false true false = refl
unknown false false true = refl
unknown false false false = refl

name_code_cases :
    (w : Text) → (name_code w register_names ≡ 0xff) ⊎ (name_code w register_names < 16)
unfolding name_code
name_code_cases w = ground arith

register_bits_cases :
    (pointer percent extended : Bool) (w : Text)
    → let r = register_bits pointer percent extended (name_code w register_names) in
      (r ≡ 0xff) ⊎ IsRegister r
unfolding shape
register_bits_cases pointer percent extended w = elim (name_code_cases w) [
  | inl none_fits ↦
      inl (ap (register_bits pointer percent extended) none_fits ∙ unknown pointer percent extended)
  | inr small ↦ with_percent percent small
]
  where
    with_percent :
        (b : Bool)
        → name_code w register_names < 16
        → let r = register_bits pointer b extended (name_code w register_names) in
          (r ≡ 0xff) ⊎ IsRegister r
    with_percent false small = inl (no_percent pointer extended _ small)
    with_percent true small = inr (record {
      number = name_code w register_names;
      pointer = pointer;
      extended = extended;
      small = small;
      byte = bits pointer extended _ small;
    })

-- `_parse_register` answers 0xFF, or a byte that is the number of a register below 16 with the
-- pointer bit 0x20 and the size bit 0x40 added where they are set, and no other bit.
pub parse_register_cases : (w : Text) → (parse_register w ≡ 0xff) ⊎ IsRegister (parse_register w)
unfolding parse_register
parse_register_cases w =
    let pointer = is_pointer w in
    let inner = if pointer then rest_of (without_last w) else w in
    let percent = first_is b'%' inner in
    let name = if percent then rest_of inner else inner in
    let extended = first_is b'e' name in
    register_bits_cases pointer percent extended (if extended then rest_of name else name)
