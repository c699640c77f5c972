-- ===== src/Asm/Layout/Align.antt =====
-- What `.align` does to the address of the section.
use amalgam_asm.Base.{
  ℕ, ◌+◌, ◌-◌, ◌%◌, ◌^◌, ◌≤◌, ◌<◌, ◌≡◌, ◌==◌, ltb, false, ◌||◌, List, length, replicate,
  get_or-set_same, arith, Bool-cases, inl, inr, ◌∙◌, ap, sym,
}
use native.Mathlib.Nat.{mod_self, add-mod-mod, mod-add-mod, mod-lt}
use amalgam_asm.Base.Bits.{u8, u64}
use amalgam_asm.Asm.Number.{strtoll}
use amalgam_asm.Asm.State.{Env, current, emit, empty_section}
use amalgam_asm.Asm.Data.{Args, arg, number_at, padding, parse_align}
use amalgam_asm.Asm.Layout.{lay, advance-add_part}

-- Where bytes are laid down, the address moves by the given number.
emit-address :
    (env : Env) (bytes : List ℕ) (n : ℕ)
    → env.section < length env.store
    → (current (emit env bytes n)).address ≡ u64 ((current env).address + n)
unfolding lay
emit-address env bytes n inside = rw (
  advance-add_part env env.section bytes n,
  get_or-set_same env.store env.section (lay (current env) bytes n) empty_section inside,
)

padded : (align address : ℕ) → 0 < align → (address + padding align address) % align ≡ 0
padded align address h =
    let r = address % align in
    let below = mod-lt address h in
    add-mod-mod address (align - r) align
    ∙ sym (mod-add-mod address align (align - r))
    ∙ ap (λ n. n % align) (omega arith)
    ∙ mod_self align

module _ (args : Args) (env : Env) where
  abbrev align : ℕ
  align = strtoll (arg args 0)

  abbrev here : ℕ
  here = (current env).address

  parse_align-address :
      1 ≤ length args
      → length args ≤ 3
      → 0 < align
      → number_at args 2 ≡ 0
      → env.section < length env.store
      → here + padding align here < 2 ^ 64
      → (current (parse_align args env)).address ≡ here + padding align here
  unfolding parse_align
  parse_align-address few many positive no_limit inside fits =
      let counted : (ltb (length args) 1 || ltb 3 (length args)) ≡ false = ground arith in
      let valid : (align == 0) ≡ false = ground arith in
      rw (counted, valid, no_limit)
        (elim (Bool-cases (padding align here == 0)) [
          | inl aligned ↦ rw aligned (ground arith)
          | inr off ↦ rw off (
              emit-address env (replicate (padding align here) (u8 (number_at args 1)))
                (padding align here) inside
              ∙ ground arith)
        ])

-- With one to three operands, an alignment that is not 0, no limit, a valid section pointer and
-- an address that does not wrap, `.align` leaves the address at the least multiple of the
-- alignment that is not below the old one.
pub parse_align_least :
    (args : Args) (env : Env)
    → 1 ≤ length args
    → length args ≤ 3
    → 0 < strtoll (arg args 0)
    → number_at args 2 ≡ 0
    → env.section < length env.store
    → (current env).address + strtoll (arg args 0) ≤ 2 ^ 64
    → let align = strtoll (arg args 0) in
      let after = (current (parse_align args env)).address in
      (after % align ≡ 0)
      × ((current env).address ≤ after)
      × (after < (current env).address + align)
unfolding parse_align
parse_align_least args env few many positive no_limit inside fits =
    let align = strtoll (arg args 0) in
    let here = (current env).address in
    let small = mod-lt (align - here % align) positive in
    rw (parse_align-address args env few many positive no_limit inside (omega arith))
      (padded align here positive, omega arith, omega arith)
