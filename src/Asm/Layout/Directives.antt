-- ===== src/Asm/Layout/Directives.antt =====
-- Every directive that lays data down keeps the layout.
use amalgam_asm.Base.{
  ℕ, zero, suc, ◌+◌, ◌*◌, ◌/◌, ◌%◌, ◌≡◌, refl, ◌==◌, ==_iff, ltb, Bool, not, ◌&&◌, ◌||◌, Option,
  none, some, List, [], ◌∷◌, ◌++◌, if◌then◌else◌, length, get_or, replicate, take, length-replicate,
  length-append, arith, ap, ◌∙◌, Bool-cases, Option-cases, inl, inr,
}
use native.Mathlib.Nat.{suc-mul, div-add-mod'}
use amalgam_asm.Base.Bits.{u8, sub64}
use amalgam_asm.Base.Text.{Text, codes}
use amalgam_asm.Asm.Number.{strtoll}
use amalgam_asm.Asm.State.{Run, ok, fault, Env, current, emit, helper_section_add, empty_section}
use amalgam_asm.Util.Map.{HashMap}
use amalgam_asm.Asm.Ensures.{Ensures, done, fails, bind, branch}
use amalgam_asm.Asm.Data.{
  Args, arg, int_bytes, parse_int, ascii_bytes, parse_ascii, asciz_bytes, parse_asciz, parse_skip,
  parse_fill, parse_align, parse_org, parse_equ, parse_equiv, parse_lcomm, parse_globl, is_defined,
  number_at, padding, ascii_size, asciz_size, fill_bytes, fill_part, bytes_of,
}
use amalgam_asm.Asm.Layout.{
  IsLaidOut, if_all, place_counted, emit-IsLaidOut, length-bytes_of, err-IsLaidOut,
  helper_symbol_global-IsLaidOut, helper_symbol_set-IsLaidOut, helper_section_add-IsLaidOut,
  helper_expr_parse-IsLaidOut,
}

counted :
    (a : Text) (args : Args) (size : ℕ) (bytes rest : List ℕ)
    → length bytes ≡ size
    → length rest ≡ length args * size
    → length (bytes ++ rest) ≡ length (a ∷ args) * size
counted a args size bytes rest h k =
    length-append bytes rest ∙ omega (arith, h, k, suc-mul (length args) size)

int_bytes-IsLaidOut :
    (args : Args) (env : Env) (size offset : ℕ)
    → IsLaidOut env
    → Ensures
        (λ r. (length r.0 ≡ length args * size) × IsLaidOut r.1)
        (int_bytes args env size offset)
unfolding int_bytes
int_bytes-IsLaidOut [] env size offset h = done (omega arith, h)
int_bytes-IsLaidOut (a ∷ args) env size offset h =
    bind (helper_expr_parse-IsLaidOut env a offset size h) λ r h'.
      bind (int_bytes-IsLaidOut args r.1 size (offset + size) h') λ q p.
        done (counted a args size (bytes_of size r.0) q.0 (length-bytes_of size r.0) p.0, p.1)

-- `.byte`, `.short`, `.int` and `.long`, at any size of an operand, keep every section's address
-- the number of its bytes, modulo 2 ^ 64, whatever the operands evaluate to; they end, if not in a
-- fault.
pub parse_int-IsLaidOut :
    (args : Args) (env : Env) (size : ℕ)
    → IsLaidOut env
    → Ensures IsLaidOut (parse_int args env size)
unfolding parse_int
parse_int-IsLaidOut [] env size h = done h
parse_int-IsLaidOut (a ∷ args) env size h =
    bind (int_bytes-IsLaidOut (a ∷ args) env size 0 h)
      λ r p. done (emit-IsLaidOut r.1 r.0 _ p.0 p.1)

laid :
    (o : Option (List ℕ)) (n : ℕ) (env : Env)
    → ((bytes : List ℕ) → o ≡ some bytes → length bytes ≡ n)
    → IsLaidOut env
    → Ensures IsLaidOut
        (elim o as (λ _. Run Env) [ none ↦ fault | some bytes ↦ ok (emit env bytes n) ])
laid none n env size h = fails
laid (some bytes) n env size h = done (emit-IsLaidOut env bytes n (size bytes refl) h)

-- The text between the quotes.
length-quoted : (c : ℕ) (s : Text) → length (take (length s) (c ∷ s)) ≡ length s
length-quoted c [] = refl
length-quoted c (d ∷ s) = ap suc (length-quoted d s)

length-ascii_bytes :
    (args : Args) (bytes : List ℕ) → ascii_bytes args ≡ some bytes → length bytes ≡ ascii_size args
unfolding ascii_bytes ascii_size
length-ascii_bytes [] bytes e = ground arith
length-ascii_bytes ([] ∷ args) bytes e = cc
length-ascii_bytes ((q ∷ []) ∷ args) bytes e = cc
length-ascii_bytes ((q ∷ c ∷ s) ∷ args) bytes e = elim (Option-cases (ascii_bytes args)) [
  | inl absent ↦ absurd (ground (arith, absent))
  | inr (rest, there) ↦
      let parts : some (take (length s) (c ∷ s) ++ rest) ≡ some bytes = ground (arith, there) in
      let same : take (length s) (c ∷ s) ++ rest ≡ bytes = cc in
      omega (
        arith,
        ap length same,
        length-append (take (length s) (c ∷ s)) rest,
        length-quoted c s,
        length-ascii_bytes args rest there,
      )
]

length-asciz_bytes :
    (args : Args) (bytes : List ℕ) → asciz_bytes args ≡ some bytes → length bytes ≡ asciz_size args
unfolding asciz_bytes asciz_size
length-asciz_bytes [] bytes e = ground arith
length-asciz_bytes ([] ∷ args) bytes e = cc
length-asciz_bytes ((q ∷ []) ∷ args) bytes e = cc
length-asciz_bytes ((q ∷ c ∷ s) ∷ args) bytes e = elim (Option-cases (asciz_bytes args)) [
  | inl absent ↦ absurd (ground (arith, absent))
  | inr (rest, there) ↦
      let parts : some (take (length s) (c ∷ s) ++ 0 ∷ rest) ≡ some bytes = ground (arith, there) in
      let same : take (length s) (c ∷ s) ++ 0 ∷ rest ≡ bytes = cc in
      omega (
        arith,
        ap length same,
        length-append (take (length s) (c ∷ s)) (0 ∷ rest),
        length-quoted c s,
        length-asciz_bytes args rest there,
      )
]

pub parse_ascii-IsLaidOut :
    (args : Args) (env : Env) → IsLaidOut env → Ensures IsLaidOut (parse_ascii args env)
unfolding parse_ascii
parse_ascii-IsLaidOut [] env h = done h
parse_ascii-IsLaidOut (a ∷ args) env h =
    laid (ascii_bytes (a ∷ args)) _ env (length-ascii_bytes (a ∷ args)) h

-- `.asciz` keeps every section's address the number of its bytes, modulo 2 ^ 64, for operands
-- that it does not fault at.
pub parse_asciz-IsLaidOut :
    (args : Args) (env : Env) → IsLaidOut env → Ensures IsLaidOut (parse_asciz args env)
unfolding parse_asciz
parse_asciz-IsLaidOut [] env h = done h
parse_asciz-IsLaidOut (a ∷ args) env h =
    laid (asciz_bytes (a ∷ args)) _ env (length-asciz_bytes (a ∷ args)) h

pub parse_skip-IsLaidOut :
    (args : Args) (env : Env) → IsLaidOut env → IsLaidOut (parse_skip args env)
unfolding parse_skip
parse_skip-IsLaidOut args env h =
    if_all (ltb (length args) 1 || ltb 2 (length args)) (err-IsLaidOut _ env h) (
      if_all (strtoll (arg args 0) == 0) (err-IsLaidOut _ env h) (
        emit-IsLaidOut env _ _ (length-replicate (strtoll (arg args 0)) (u8 (number_at args 1))) h))

length-fill_bytes : (n : ℕ) (bytes : List ℕ) → length (fill_bytes n bytes) ≡ n * length bytes
unfolding fill_bytes
length-fill_bytes zero bytes = omega arith
length-fill_bytes (suc n) bytes =
    length-append bytes (fill_bytes n bytes)
    ∙ omega (arith, length-fill_bytes n bytes, suc-mul n (length bytes))

-- As many copies as fit are all of the part, where its size is a multiple of theirs.
fill_part-IsLaidOut :
    (size total value : ℕ) (env : Env)
    → IsLaidOut env
    → Ensures IsLaidOut (fill_part size total value env)
unfolding fill_part
fill_part-IsLaidOut size total value env h = elim (Bool-cases (total % size == 0)) [
  | inr rest ↦ rw rest fails
  | inl whole ↦
      let none_left : total % size ≡ 0 = (==_iff _ _).0 whole in
      let all : length (fill_bytes (total / size) (bytes_of size value)) ≡ total =
        length-fill_bytes (total / size) (bytes_of size value)
        ∙ ap (λ n. total / size * n) (length-bytes_of size value)
        ∙ omega (arith, div-add-mod' total size, none_left) in
      rw whole (done (emit-IsLaidOut env _ total all h))
]

-- `.fill` keeps every section's address the number of its bytes, modulo 2 ^ 64, on each of its
-- branches, the errors included, also where the product of its operands wraps; it ends, if not in
-- a fault.
pub parse_fill-IsLaidOut :
    (args : Args) (env : Env) → IsLaidOut env → Ensures IsLaidOut (parse_fill args env)
unfolding parse_fill
parse_fill-IsLaidOut args env h =
    let size = if number_at args 1 == 0 then 1 else number_at args 1 in
    branch (ltb (length args) 1 || ltb 3 (length args)) (done (err-IsLaidOut _ env h)) (
      branch (ltb 8 size) (done (err-IsLaidOut _ env h)) (
        branch (strtoll (arg args 0) == 0) (done (err-IsLaidOut _ env h))
          (fill_part-IsLaidOut size _ _ env h)))

pub parse_align-IsLaidOut :
    (args : Args) (env : Env) → IsLaidOut env → IsLaidOut (parse_align args env)
unfolding parse_align
parse_align-IsLaidOut args env h =
    let align = strtoll (arg args 0) in
    let needed = padding align (current env).address in
    if_all (ltb (length args) 1 || ltb 3 (length args)) (err-IsLaidOut _ env h) (
      if_all (align == 0) (err-IsLaidOut _ env h) (
        if_all (not (needed == 0) && (number_at args 2 == 0 || ltb needed (number_at args 2)))
          (emit-IsLaidOut env _ _ (length-replicate needed (u8 (number_at args 1))) h) h))

pub parse_org-IsLaidOut : (args : Args) (env : Env) → IsLaidOut env → IsLaidOut (parse_org args env)
unfolding parse_org
parse_org-IsLaidOut args env h =
    let until = strtoll (arg args 0) in
    if_all (ltb (length args) 1 || ltb 2 (length args)) (err-IsLaidOut _ env h) (
      if_all (until == 0) (err-IsLaidOut _ env h) (
        if_all (ltb (current env).address until)
          (emit-IsLaidOut env _ _
            (length-replicate (sub64 until (current env).address) (u8 (number_at args 1))) h)
          h))

-- `.equ` keeps every section's address the number of its bytes, modulo 2 ^ 64, also where it
-- moves the address by a write to the symbol `.`; it ends, if not in a fault.
pub parse_equ-IsLaidOut :
    (args : Args) (env : Env) → IsLaidOut env → Ensures IsLaidOut (parse_equ args env)
unfolding parse_equ
parse_equ-IsLaidOut args env h = branch (not (length args == 2)) (done (err-IsLaidOut _ env h)) (
    bind (helper_expr_parse-IsLaidOut env (arg args 1) 0 0 h)
      λ r h'. done (helper_symbol_set-IsLaidOut r.1 _ _ r.0 h'))

pub parse_equiv-IsLaidOut :
    (args : Args) (env : Env) → IsLaidOut env → Ensures IsLaidOut (parse_equiv args env)
unfolding parse_equiv
parse_equiv-IsLaidOut args env h = branch (not (length args == 2)) (done (err-IsLaidOut _ env h)) (
    branch (is_defined env (arg args 0)) (done (err-IsLaidOut _ env h)) (
      bind (helper_expr_parse-IsLaidOut env (arg args 1) 0 0 h)
        λ r h'. done (helper_symbol_set-IsLaidOut r.1 _ _ r.0 h')))

pub parse_globl-IsLaidOut :
    (args : Args) (env : Env) → IsLaidOut env → IsLaidOut (parse_globl args env)
unfolding parse_globl
parse_globl-IsLaidOut args env h =
    if_all (not (length args == 1)) (err-IsLaidOut _ env h) (helper_symbol_global-IsLaidOut env _ h)

-- `.lcomm` and `.comm` keep every section's address the number of its bytes, modulo 2 ^ 64, that
-- of `.bss` included, which they may have to make; they end, if not in a fault.
pub parse_lcomm-IsLaidOut :
    (args : Args) (env : Env) (sections : HashMap ℕ) (global : Bool)
    → IsLaidOut env
    → Ensures (λ r. IsLaidOut r.0) (parse_lcomm args env sections global)
unfolding parse_lcomm
parse_lcomm-IsLaidOut args env sections global h =
    branch (not (length args == 2)) (done (err-IsLaidOut _ env h)) (
      bind (helper_expr_parse-IsLaidOut env (arg args 1) 0 0 h) λ r h'.
        let made = helper_section_add r.1 sections (codes ".bss") none in
        let named =
          helper_symbol_set-IsLaidOut made.0 (codes ".bss") (arg args 0)
            (get_or made.0.store made.2 empty_section).address
            (helper_section_add-IsLaidOut r.1 sections (codes ".bss") none h') in
        let zeros = place_counted _ made.2 (replicate r.0 0) r.0 (length-replicate r.0 0) named in
        done {a = (_, made.1)}
          (if_all global (helper_symbol_global-IsLaidOut _ (arg args 0) zeros) zeros))
