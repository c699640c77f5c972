-- ===== src/Asm/Insn/Encoding.antt =====
-- Which encoders keep the layout of the sections: all but the shift and bit instructions.
use amalgam_asm.Base.{
  ℕ, zero, suc, ◌+◌, ◌<◌, ◌≡◌, refl, ◌==◌, false, not, ◌||◌, List, [], ◌∷◌, length, bit_and, arith,
  get_or-set_same, length-append, ◌∙◌,
}
use amalgam_asm.Base.Bits.{u8, u64}
use amalgam_asm.Base.Text.{Text, codes}
use amalgam_asm.Asm.State.{Run, Env, err, current, add_part, advance, empty_section}
use amalgam_asm.Asm.Ensures.{Ensures, done, bind, branch, both}
use amalgam_asm.Asm.Data.{Args, arg, bytes_of}
use amalgam_asm.Asm.Insn.{
  OperandType, literal, register, invalid, parse_type, parse_register, parse_immediate, encode_pair,
  wrong_count, pair_bytes, both_pointers, sizes_differ, is_literal, first_is, parsei_2reg,
  parsei_1reg, parsei_1imm, parsei_2reg_imm, parsei_1reg_imm, parsei_1reg_1imm, parsei_jcc,
  parsei_movcc, parsei_pure,
}
use amalgam_asm.Asm.Layout.{
  IsLaidOut, if_all, emit-IsLaidOut, err-IsLaidOut, helper_expr_parse-IsLaidOut,
  helper_expr_parse-SameShape, SameShape, advance-add_part, lay, total, total-append,
}

wrong_count-IsLaidOut : (n : ℕ) (env : Env) → IsLaidOut env → IsLaidOut (wrong_count n env)
unfolding wrong_count
wrong_count-IsLaidOut zero env h = err-IsLaidOut _ env h
wrong_count-IsLaidOut (suc zero) env h = err-IsLaidOut _ env h
wrong_count-IsLaidOut (suc (suc n)) env h = err-IsLaidOut _ env h

encode_pair-IsLaidOut :
    (front : List ℕ) (size r1 r2 : ℕ) (env : Env)
    → length front + 2 ≡ size
    → IsLaidOut env
    → IsLaidOut (encode_pair front size r1 r2 env)
unfolding encode_pair pair_bytes
encode_pair-IsLaidOut front size r1 r2 env e h =
    if_all (both_pointers r1 r2) (err-IsLaidOut _ env h) (
      if_all (sizes_differ r1 r2) (err-IsLaidOut _ env h)
        (emit-IsLaidOut env _ size (length-append front (pair_bytes r1 r2) ∙ e) h))

-- The state behind an immediate: laid out, and of the same shape.
abbrev Settled : Env → ℕ × Env → Type 0
Settled env r = IsLaidOut r.1 × SameShape env r.1

parse_immediate-Settled :
    (word : Text) (env : Env) (offset size : ℕ)
    → IsLaidOut env
    → Ensures (Settled env) (parse_immediate word env offset size)
unfolding parse_immediate err
parse_immediate-Settled word env offset size h =
    branch (first_is b'$' word)
      (bind
        (both (helper_expr_parse-IsLaidOut env _ offset size h)
          (helper_expr_parse-SameShape env _ offset size))
        λ r p. done p)
      (done (record { at = h.at }, (refl, refl)))

module _ (args : Args) (env : Env) (h : IsLaidOut env) where
  -- An instruction of two registers keeps every section's address the number of its bytes, modulo
  -- 2 ^ 64, on each of its branches.
  pub parsei_2reg-IsLaidOut : (op : ℕ) → IsLaidOut (parsei_2reg args env op)
  unfolding parsei_2reg
  parsei_2reg-IsLaidOut op = if_all (not (length args == 2)) (wrong_count-IsLaidOut 2 env h) (
      if_all (parse_register (arg args 0) == 0xff || parse_register (arg args 1) == 0xff)
        (err-IsLaidOut (codes "Operands not valid") env h)
        (encode_pair-IsLaidOut (u8 op ∷ []) 3 (parse_register (arg args 0))
          (parse_register (arg args 1)) env refl h))

  pub parsei_1reg-IsLaidOut : (op : ℕ) → IsLaidOut (parsei_1reg args env op)
  unfolding parsei_1reg
  parsei_1reg-IsLaidOut op = if_all (not (length args == 1)) (wrong_count-IsLaidOut 1 env h) (
      if_all (parse_register (arg args 0) == 0xff) (err-IsLaidOut (codes "Operand not valid") env h)
        (emit-IsLaidOut env _ 2 refl h))

  pub parsei_1imm-IsLaidOut : (op : ℕ) → Ensures IsLaidOut (parsei_1imm args env op)
  unfolding parsei_1imm bytes_of
  parsei_1imm-IsLaidOut op =
      branch (not (length args == 1)) (done (wrong_count-IsLaidOut 1 env h)) (
        branch (not (is_literal (parse_type (arg args 0))))
          (done (err-IsLaidOut (codes "Operand not valid") env h))
          (bind (parse_immediate-Settled (arg args 0) env 1 2 h)
            λ r p. done (emit-IsLaidOut r.1 _ 3 refl p.0)))

  two_ways :
      (t : OperandType) (x y z : Run Env)
      → Ensures IsLaidOut x
      → Ensures IsLaidOut y
      → Ensures IsLaidOut z
      → Ensures IsLaidOut (elim t as (λ _. Run Env) [ literal ↦ x | register ↦ y | invalid ↦ z ])
  two_ways literal x y z p q r = p
  two_ways register x y z p q r = q
  two_ways invalid x y z p q r = r

  -- An instruction of a register, or an immediate, and a register keeps every section's address
  -- the number of its bytes, modulo 2 ^ 64, on each of its branches; it ends, if not in a fault.
  pub parsei_2reg_imm-IsLaidOut : (op alt : ℕ) → Ensures IsLaidOut (parsei_2reg_imm args env op alt)
  unfolding parsei_2reg_imm bytes_of
  parsei_2reg_imm-IsLaidOut op alt =
      let r2 = parse_register (arg args 1) in
      branch (not (length args == 2)) (done (wrong_count-IsLaidOut 2 env h)) (
        branch (r2 == 0xff) (done (err-IsLaidOut (codes "Operand not valid") env h)) (
          two_ways (parse_type (arg args 0)) _ _ _
            (bind (parse_immediate-Settled (arg args 0) env 2 2 h) λ r p. done (
              if_all (not (bit_and r2 0x40 == 0))
                (err-IsLaidOut (codes "Cannot use Extended on 1reg-1imm") r.1 p.0)
                (emit-IsLaidOut r.1 _ 4 refl p.0)))
            (done
              (encode_pair-IsLaidOut (u8 op ∷ []) 3 (parse_register (arg args 0)) r2 env refl h))
            (done (err-IsLaidOut (codes "Operand not valid") env h))))

  pub parsei_1reg_imm-IsLaidOut : (op alt : ℕ) → Ensures IsLaidOut (parsei_1reg_imm args env op alt)
  unfolding parsei_1reg_imm bytes_of
  parsei_1reg_imm-IsLaidOut op alt =
      branch (not (length args == 1)) (done (wrong_count-IsLaidOut 1 env h)) (
        two_ways (parse_type (arg args 0)) _ _ _
          (bind (parse_immediate-Settled (arg args 0) env 1 2 h)
            λ r p. done (emit-IsLaidOut r.1 _ 3 refl p.0))
          (done (emit-IsLaidOut env _ 2 refl h))
          (done (err-IsLaidOut (codes "Operand not valid") env h)))

  pub parsei_jcc-IsLaidOut : (op c : ℕ) → Ensures IsLaidOut (parsei_jcc args env op c)
  unfolding parsei_jcc bytes_of
  parsei_jcc-IsLaidOut op c =
      branch (not (length args == 1)) (done (wrong_count-IsLaidOut 1 env h)) (
        branch (not (is_literal (parse_type (arg args 0))))
          (done (err-IsLaidOut (codes "Operand not valid") env h))
          (bind (parse_immediate-Settled (arg args 0) env 2 2 h)
            λ r p. done (emit-IsLaidOut r.1 _ 4 refl p.0)))

  pub parsei_movcc-IsLaidOut : (op c : ℕ) → IsLaidOut (parsei_movcc args env op c)
  unfolding parsei_movcc
  parsei_movcc-IsLaidOut op c = if_all (not (length args == 2)) (wrong_count-IsLaidOut 2 env h) (
      if_all (parse_register (arg args 0) == 0xff || parse_register (arg args 1) == 0xff)
        (err-IsLaidOut (codes "Operands not valid") env h)
        (encode_pair-IsLaidOut (u8 op ∷ u8 c ∷ []) 4 (parse_register (arg args 0))
          (parse_register (arg args 1)) env refl h))

  pub parsei_pure-IsLaidOut : (op : ℕ) → IsLaidOut (parsei_pure args env op)
  unfolding parsei_pure
  parsei_pure-IsLaidOut op =
      if_all (not (length args == 0)) (wrong_count-IsLaidOut 0 env h)
        (emit-IsLaidOut env _ 1 refl h)

-- Where the three bytes of a shift or bit instruction are laid, the address moves one further.
lay_one_more :
    (env : Env) (bytes : List ℕ)
    → IsLaidOut env
    → env.section < length env.store
    → let s = current (advance (add_part env env.section bytes) env.section (length bytes + 1)) in
      s.address ≡ u64 (total s.parts + 1)
unfolding lay
lay_one_more env bytes h inside =
    let s = current env in
    rw
      (
        advance-add_part env env.section bytes (length bytes + 1),
        get_or-set_same env.store env.section (lay s bytes (length bytes + 1)) empty_section inside,
        total-append s.parts bytes,
      )
      (omega (arith, h.at env.section))

-- In a state that is laid out, with its section pointer valid, a shift or bit instruction of two
-- operands whose first is a literal and whose second is a register ends, unless it faults, with
-- the address of the section one beyond the number of its bytes.
pub parsei_1reg_1imm_off_by_one :
    (args : Args) (env : Env) (op : ℕ)
    → IsLaidOut env
    → env.section < length env.store
    → length args ≡ 2
    → parse_type (arg args 0) ≡ literal
    → (parse_register (arg args 1) == 0xff) ≡ false
    → Ensures
        (λ e. (current e).address ≡ u64 (total (current e).parts + 1))
        (parsei_1reg_1imm args env op)
unfolding parsei_1reg_1imm
parsei_1reg_1imm_off_by_one args env op h inside two first second =
    rw (two, first, second)
      (bind (parse_immediate-Settled (arg args 0) env 2 1 h) λ r p. done (
        lay_one_more r.1 (u8 op ∷ parse_register (arg args 1) ∷ u8 r.0 ∷ []) p.0
          (omega (arith, p.1.0, p.1.1, inside))))
