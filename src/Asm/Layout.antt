-- ===== src/Asm/Layout.antt =====
-- Addresses and parts of the sections: the address of a section is the number of bytes in it.
pub mod Align
pub mod Directives
use amalgam_asm.Base.{
  ℕ, zero, suc, ◌+◌, ◌-◌, ◌/◌, ◌%◌, ◌^◌, ◌≤◌, ◌<◌, ◌≡◌, refl, ◌==◌, ltb, Bool, true, false, not,
  ◌&&◌, Option, none, some, List, [], ◌∷◌, ◌++◌, if◌then◌else◌, length, get_or, set, replicate,
  length-append, length-set, length-replicate, arith, Bool-cases, Option-cases, inl, inr, ◌∙◌, ap,
  sym,
}
use mathlib.Core.Path.{subst}
use amalgam_asm.Base.Bits.{u64, sub64}
use amalgam_asm.Base.Text.{Text, codes, str_eq}
use amalgam_asm.Asm.State.{
  Run, ok, fault, out_of_fuel, ◌>>=◌, Env, Section, Symbol, empty_section, err, current,
  set_section, add_part, advance, emit, move_dot, helper_symbol_set, helper_symbol_global,
  helper_section_add, bitness_of, was_global, new_str,
}
use mathlib.Core.Option
use amalgam_asm.Util.Map
use amalgam_asm.Util.Map.{HashMap, Entry}
use amalgam_asm.Asm.Data.{bytes_of}
use amalgam_asm.Asm.Ensures.{Ensures, done, fails, bind, mono, branch}
use amalgam_asm.Asm.Yard.{Parsed, request, settle, conclude, helper_expr_parse}
use amalgam_asm.Asm.Yard.Fuel.{Kept}
use amalgam_asm.Asm.Yard.Total.{section_at, parse_expr-Ensures}

-- The number of bytes in a list of parts.
unfoldable pub total : List (List ℕ) → ℕ
total [] = 0
total (bytes ∷ parts) = length bytes + total parts

pub total-append :
    (parts : List (List ℕ)) (bytes : List ℕ)
    → total (parts ++ bytes ∷ []) ≡ total parts + length bytes
unfolding total
total-append [] bytes = omega arith
total-append (p ∷ parts) bytes = omega (arith, total-append parts bytes)

abbrev pub SectionLaidOut : Section → Type 0
SectionLaidOut s = s.address ≡ u64 (total s.parts)

pub record IsLaidOut (env : Env) : Type 0 where
  pub at : (i : ℕ) → SectionLaidOut (section_at env i)

module _ {A : Type 0} (P : A → Type 0) (d : A) where
  get_or-set_all :
      (xs : List A) (i : ℕ) (v : A)
      → ((j : ℕ) → P (get_or xs j d))
      → P v
      → (j : ℕ) → P (get_or (set xs i v) j d)
  get_or-set_all [] i v all p j = all j
  get_or-set_all (x ∷ xs) zero v all p zero = p
  get_or-set_all (x ∷ xs) zero v all p (suc j) = all (suc j)
  get_or-set_all (x ∷ xs) (suc i) v all p zero = all zero
  get_or-set_all (x ∷ xs) (suc i) v all p (suc j) = get_or-set_all xs i v (λ k. all (suc k)) p j

  get_or-append_all :
      (xs : List A) (v : A)
      → ((j : ℕ) → P (get_or xs j d))
      → P v
      → (j : ℕ) → P (get_or (xs ++ v ∷ []) j d)
  get_or-append_all [] v all p zero = p
  get_or-append_all [] v all p (suc j) = all zero
  get_or-append_all (x ∷ xs) v all p zero = all zero
  get_or-append_all (x ∷ xs) v all p (suc j) = get_or-append_all xs v (λ k. all (suc k)) p j

set-set :
    {A : Type 0} (xs : List A) (i : ℕ) (d : A) (f g : A → A)
    → let ys = set xs i (f (get_or xs i d)) in
      set ys i (g (get_or ys i d)) ≡ set xs i (g (f (get_or xs i d)))
set-set [] i d f g = refl
set-set (x ∷ xs) zero d f g = refl
set-set (x ∷ xs) (suc i) d f g = ap (λ zs. x ∷ zs) (set-set xs i d f g)

-- A part and the move of the address behind it, as one write.
unfoldable pub lay : Section → List ℕ → ℕ → Section
lay s bytes n = record s { parts = s.parts ++ bytes ∷ []; address = u64 (s.address + n) }

pub advance-add_part :
    (env : Env) (i : ℕ) (bytes : List ℕ) (n : ℕ)
    → advance (add_part env i bytes) i n ≡ set_section env i (lay (section_at env i) bytes n)
unfolding advance add_part lay
advance-add_part env i bytes n =
    ap (λ store. record env { store = store })
      (set-set env.store i empty_section (λ s. record s { parts = s.parts ++ bytes ∷ [] })
        (λ s. record s { address = u64 (s.address + n) }))

lay-SectionLaidOut :
    (s : Section) (bytes : List ℕ) → SectionLaidOut s → SectionLaidOut (lay s bytes (length bytes))
unfolding lay
lay-SectionLaidOut s bytes h = omega (arith, total-append s.parts bytes)

-- A section is replaced by one that is laid out.
pub set_section-IsLaidOut :
    (env : Env) (i : ℕ) (s : Section)
    → IsLaidOut env
    → SectionLaidOut s
    → IsLaidOut (set_section env i s)
set_section-IsLaidOut env i s h laid = record {
  at = get_or-set_all SectionLaidOut empty_section env.store i s h.at laid;
}

pub place-IsLaidOut :
    (env : Env) (i : ℕ) (bytes : List ℕ)
    → IsLaidOut env
    → IsLaidOut (advance (add_part env i bytes) i (length bytes))
place-IsLaidOut env i bytes h =
    subst IsLaidOut (sym (advance-add_part env i bytes (length bytes))) (record {
      at =
          get_or-set_all SectionLaidOut empty_section env.store i _ h.at
            (lay-SectionLaidOut (section_at env i) bytes (h.at i));
    })

-- The same where the address moves by a number that is the length.
pub place_counted :
    (env : Env) (i : ℕ) (bytes : List ℕ) (n : ℕ)
    → length bytes ≡ n
    → IsLaidOut env
    → IsLaidOut (advance (add_part env i bytes) i n)
place_counted env i bytes n e h =
    subst (λ k. IsLaidOut (advance (add_part env i bytes) i k)) e (place-IsLaidOut env i bytes h)

pub emit-IsLaidOut :
    (env : Env) (bytes : List ℕ) (n : ℕ)
    → length bytes ≡ n
    → IsLaidOut env
    → IsLaidOut (emit env bytes n)
emit-IsLaidOut env bytes n e h = place_counted env env.section bytes n e h

pub length-bytes_of : (size v : ℕ) → length (bytes_of size v) ≡ size
unfolding bytes_of
length-bytes_of zero v = refl
length-bytes_of (suc n) v = ap suc (length-bytes_of n (v / 256))

pub err-IsLaidOut : (m : Text) (env : Env) → IsLaidOut env → IsLaidOut (err m env)
unfolding err
err-IsLaidOut m env h = record { at = h.at }

pub helper_symbol_global-IsLaidOut :
    (env : Env) (name : Text) → IsLaidOut env → IsLaidOut (helper_symbol_global env name)
unfolding helper_symbol_global
helper_symbol_global-IsLaidOut env name h = record { at = h.at }

pub if_all : (b : Bool) {x y : Env} → IsLaidOut x → IsLaidOut y → IsLaidOut (if b then x else y)
if_all true p q = p
if_all false p q = q

move_dot-IsLaidOut : (env : Env) (v : ℕ) → IsLaidOut env → IsLaidOut (move_dot env v)
unfolding move_dot
move_dot-IsLaidOut env v h =
    if_all (ltb (current env).address v)
      (emit-IsLaidOut env _ _ (length-replicate (sub64 v (current env).address) 0) h) h

pub helper_symbol_set-IsLaidOut :
    (env : Env) (section name : Text) (v : ℕ)
    → IsLaidOut env
    → IsLaidOut (helper_symbol_set env section name v)
unfolding helper_symbol_set
helper_symbol_set-IsLaidOut env section name v h =
    if_all (str_eq name (codes ".")) (move_dot-IsLaidOut env v h) (record { at = h.at })

fresh_section : Env → Text → Option ℕ → Section
fresh_section env name p = record {
  name = name;
  address = 0;
  expr = [];
  parts = [];
  bitness = bitness_of env p;
}

pub helper_section_add-IsLaidOut :
    (env : Env) (sections : HashMap ℕ) (name : Text) (p : Option ℕ)
    → IsLaidOut env
    → IsLaidOut (helper_section_add env sections name p).0
unfolding helper_section_add fresh_section total
helper_section_add-IsLaidOut env sections name p h = elim (Option-cases (Map.get sections name)) [
  | inr (e, found) ↦ rw (found, helper_section_add) h
  | inl absent ↦
      rw (absent, helper_section_add)
        (record {
          at =
              get_or-append_all SectionLaidOut empty_section env.store (fresh_section env name p)
                h.at refl;
        })
]

-- An expression lays nothing down, and moves no address.
request-IsLaidOut :
    (env : Env) (text : Text) (offset size : ℕ)
    → IsLaidOut env
    → IsLaidOut (request env text offset size)
unfolding request
request-IsLaidOut env text offset size h = record {
  at = get_or-set_all SectionLaidOut empty_section env.store env.section _ h.at (h.at env.section);
}

settle-IsLaidOut :
    (offset size : ℕ) (t : Option Text) (callback : Bool) (env : Env)
    → IsLaidOut env
    → IsLaidOut (settle offset size t callback env).1
unfolding settle
settle-IsLaidOut offset size none callback env h = h
settle-IsLaidOut offset size (some t) false env h = h
settle-IsLaidOut offset size (some t) true env h = elim (Bool-cases (size == 0)) [
  | inl empty ↦ rw empty (err-IsLaidOut _ env h)
  | inr sized ↦ rw sized (request-IsLaidOut env t offset size h)
]

pub helper_expr_parse-IsLaidOut :
    (env : Env) (expr : Text) (offset size : ℕ)
    → IsLaidOut env
    → Ensures (λ r. IsLaidOut r.1) (helper_expr_parse env expr offset size)
unfolding helper_expr_parse conclude
helper_expr_parse-IsLaidOut env expr offset size h = bind (parse_expr-Ensures expr env) λ p k.
    done (
      settle-IsLaidOut offset size p.text p.callback p.env
        (record { at = λ i. rw k.store (h.at i) }))

-- An expression keeps the section pointer and the number of sections.
abbrev pub SameShape : Env → Env → Type 0
SameShape a b = (b.section ≡ a.section) × (length b.store ≡ length a.store)

settle-SameShape :
    (offset size : ℕ) (t : Option Text) (callback : Bool) (env : Env)
    → SameShape env (settle offset size t callback env).1
unfolding settle err request
settle-SameShape offset size none callback env = (refl, refl)
settle-SameShape offset size (some t) false env = (refl, refl)
settle-SameShape offset size (some t) true env = elim (Bool-cases (size == 0)) [
  | inl empty ↦ rw empty (refl, refl)
  | inr sized ↦ rw sized (refl, length-set env.store env.section _)
]

pub helper_expr_parse-SameShape :
    (env : Env) (expr : Text) (offset size : ℕ)
    → Ensures (λ r. SameShape env r.1) (helper_expr_parse env expr offset size)
unfolding helper_expr_parse conclude
helper_expr_parse-SameShape env expr offset size = bind (parse_expr-Ensures expr env) λ p k.
    let (same, count) = settle-SameShape offset size p.text p.callback p.env in
    done (same ∙ k.section, count ∙ ap length k.store)
