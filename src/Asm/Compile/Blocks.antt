-- ===== src/Asm/Compile/Blocks.antt =====
-- What becomes of the lines of a conditional block.
use amalgam_asm.Base.{
  ℕ, zero, suc, ◌+◌, ◌≡◌, refl, Bool, true, false, not, ◌&&◌, Option, none, some, List, [], ◌∷◌,
  ◌++◌, if◌then◌else◌, length, map, arith, inl, inr, Option-cases, ap, sym, ◌∙◌,
}
use mathlib.Core.List.{append_assoc, append-nil}
use native.Mathlib.Nat.{suc-add, zero-add}
use amalgam_asm.Base.Bits.{u64}
use amalgam_asm.Base.Text.{Text, codes, str_eq}
use amalgam_asm.Asm.State.{Run, ok, fault, out_of_fuel, ◌>>=◌}
use amalgam_asm.Asm.Data.{Args}
use amalgam_asm.Asm.Insn.{first_is}
use amalgam_asm.Asm.World.{World}
use amalgam_asm.Asm.Source.{line, Source, starts_with, as_line}
use amalgam_asm.Asm.Control.{Assembly, Frame, if_on, if_off}
use amalgam_asm.Asm.Statement.{put_by, keyword, nests, closes, collect, process}
use amalgam_asm.Asm.Compile.{Phase, reading, advance_phase, read_line, next_phase}

-- The loop goes on for so many phases.
unfoldable pub phases : ℕ → World → Phase → Run Phase
phases zero w p = ok p
phases (suc n) w p = advance_phase w p >>= phases n w

no_dot-starts_with :
    (t word : Text) → first_is b'.' word ≡ false → starts_with (b'.' ∷ t) word ≡ false
unfolding first_is starts_with
no_dot-starts_with t [] h = refl
no_dot-starts_with t (c ∷ word) h = ground arith

no_dot-str_eq : (t word : Text) → first_is b'.' word ≡ false → str_eq word (b'.' ∷ t) ≡ false
unfolding first_is str_eq
no_dot-str_eq t [] h = refl
no_dot-str_eq t (c ∷ word) h = ground arith

no_dot-closes :
    (word : Text) (frame : Frame) → first_is b'.' word ≡ false → closes word frame ≡ false
unfolding closes
no_dot-closes [] frame h = refl
no_dot-closes (a ∷ []) frame h = refl
no_dot-closes (a ∷ b ∷ []) frame h = refl
no_dot-closes (a ∷ b ∷ c ∷ []) frame h = refl
no_dot-closes (a ∷ b ∷ c ∷ d ∷ []) frame h = refl
no_dot-closes (a ∷ b ∷ c ∷ d ∷ e ∷ word) frame h =
    rw (no_dot-starts_with (codes "end") (a ∷ b ∷ c ∷ d ∷ e ∷ word) h) refl

-- A line whose first word behind the labels is there and is no directive.
unfoldable pub is_plain : Args → Bool
is_plain args = elim (keyword args) [ none ↦ false | some word ↦ not (first_is b'.' word) ]

unfoldable pub all_plain : List Args → Bool
all_plain [] = true
all_plain (args ∷ lines) = is_plain args && all_plain lines

collect_plain :
    (args : Args) (word : Text) (frame : Frame) (frames : List Frame) (a : Assembly)
    → first_is b'.' word ≡ false
    → collect args word frame frames a ≡ ok (put_by args a)
unfolding collect nests
collect_plain args word frame frames a h =
    rw
      (
        no_dot-starts_with (codes "if") word h,
        no_dot-starts_with (codes "irp") word h,
        no_dot-str_eq (codes "macro") word h,
        no_dot-str_eq (codes "else") word h,
        no_dot-closes word frame h,
        no_dot-str_eq (codes "endif") word h,
        no_dot-str_eq (codes "endm") word h,
        no_dot-str_eq (codes "endr") word h,
      )
      refl

process_plain :
    (w : World) (args : Args) (frame : Frame) (frames : List Frame) (a : Assembly)
    → a.history ≡ frame ∷ frames
    → is_plain args ≡ true
    → process w args a ≡ ok (put_by args a)
unfolding process is_plain
process_plain w args frame frames a inside plain = rw inside (elim (Option-cases (keyword args)) [
  | inl absent ↦ absurd (ground (arith, absent))
  | inr (word, e) ↦
      rw (e, process)
        (collect_plain args word frame frames (record a { history = frame ∷ frames })
          (ground (arith, e)))
])

-- The state of the loop with so many lines read, and the rest of the file.
abbrev pub at_line : Assembly → ℕ → Source → Source → List (Option Source) → Assembly
at_line a k dl rest files = record a {
  env = record a.env { f_line = k };
  files = some rest ∷ files;
  dl = dl;
}

module _ (w : World) (files : List (Option Source)) (frame : Frame) (frames : List Frame) where
  gather_one :
      (args : Args) (a : Assembly) (n : ℕ) (dl rest : Source)
      → a.history ≡ frame ∷ frames
      → is_plain args ≡ true
      → advance_phase w (reading (at_line a n dl (line args ∷ rest) files))
        ≡ ok (reading (at_line a (u64 (n + 1)) (dl ++ line args ∷ []) rest files))
  unfolding advance_phase read_line as_line next_phase
  gather_one args a n dl rest inside plain =
      rw (process_plain w args frame frames (at_line a (u64 (n + 1)) dl rest files) inside plain)
        refl

  -- Plain lines inside a block are put by, one behind the other.
  pub gather :
      (lines : List Args) (a : Assembly) (n : ℕ) (dl rest : Source)
      → a.history ≡ frame ∷ frames
      → all_plain lines ≡ true
      → (k : ℕ) × (phases (length lines) w (reading (at_line a n dl (map line lines ++ rest) files))
          ≡ ok (reading (at_line a k (dl ++ map line lines) rest files)))
  unfolding phases all_plain
  gather [] a n dl rest inside plain =
      (n, ap (λ ls. ok (reading (at_line a n ls rest files))) (sym (append-nil dl)))
  gather (args ∷ lines) a n dl rest inside plain =
      let (k, e) = gather lines a (u64 (n + 1)) (dl ++ line args ∷ []) rest inside (ground arith) in
      (
        k,
        rw (gather_one args a n dl (map line lines ++ rest) inside (ground arith)) (
            e
            ∙ ap (λ ls. ok (reading (at_line a k ls rest files)))
                (append_assoc dl (line args ∷ []) (map line lines))),
      )

-- The loop comes from one phase to another.
abbrev pub Leads : World → Phase → Phase → Type 0
Leads w p q = (n : ℕ) × (phases n w p ≡ ok q)

bind_step :
    (r : Run Phase) (f g : Phase → Run Phase) (q : Phase) (x : Run Phase)
    → (r >>= f) ≡ ok q
    → ((p : Phase) → f p ≡ ok q → g p ≡ x)
    → (r >>= g) ≡ x
bind_step (ok p) f g q x e next = next p e
bind_step fault f g q x e next = cc
bind_step out_of_fuel f g q x e next = cc

phases-add :
    (m n : ℕ) (w : World) (p q : Phase) → phases m w p ≡ ok q → phases (m + n) w p ≡ phases n w q
unfolding phases
phases-add zero n w p q e = rw zero-add (ap (λ r. r >>= phases n w) e)
phases-add (suc m) n w p q e = rw suc-add (
    bind_step (advance_phase w p) (phases m w) (phases (m + n) w) q (phases n w q) e
      λ p' e'. phases-add m n w p' q e')

pub trans : (w : World) (p q r : Phase) → Leads w p q → Leads w q r → Leads w p r
trans w p q r (m, e) (n, f) = (m + n, phases-add m n w p q e ∙ f)

pub one : (w : World) (p q : Phase) → advance_phase w p ≡ ok q → Leads w p q
unfolding phases
one w p q e = (1, rw e refl)

abbrev pub else_line : Args
else_line = codes ".else" ∷ []

abbrev pub endif_line : Args
endif_line = codes ".endif" ∷ []

-- A state inside of one conditional block, which holds or does not.
abbrev pub in_if : Bool → Assembly → Assembly
in_if holds a = record a { history = (if holds then if_on else if_off) ∷ [] }
