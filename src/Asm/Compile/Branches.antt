-- ===== src/Asm/Compile/Branches.antt =====
-- The branches of a conditional block (src/compile.c and src/cmpl_control.c).
use amalgam_asm.Base.{
  ℕ, ◌+◌, ◌≡◌, refl, Bool, true, false, some, Option, List, [], ◌∷◌, ◌++◌, if◌then◌else◌, length,
  map,
}
use amalgam_asm.Base.Bits.{u64}
use amalgam_asm.Base.Text.{Text, str_eq}
use amalgam_asm.Asm.State.{ok}
use amalgam_asm.Asm.Data.{Args, bytes_of}
use amalgam_asm.Asm.World.{World}
use amalgam_asm.Asm.Source.{
  Item, name, number, line, Source, starts_with, as_line, as_name, as_number, until_zero,
  helper_reload,
}
use amalgam_asm.Asm.Control.{Assembly, if_on, if_off, parse_else, parse_endif}
use amalgam_asm.Asm.Statement.{is_label, keyword, kind, nests, closes, collect, process}
use amalgam_asm.Asm.Compile.{
  opening, reading, advance_phase, read_line, next_phase, open_file, read_header,
}
use amalgam_asm.Asm.Compile.Blocks.{
  all_plain, at_line, gather, Leads, trans, one, else_line, endif_line, in_if,
}

module _ (w : World) (a : Assembly) (n : ℕ) (rest : Source) (files : List (Option Source)) where
  abbrev here : ℕ
  here = u64 (n + 1)

  abbrev position : List Item
  position = name a.env.file ∷ number here ∷ []

  else_when_on :
      (dl : Source)
      → advance_phase w (reading (at_line (in_if true a) n dl (line else_line ∷ rest) files))
        ≡ ok (reading (at_line (in_if false a) here dl rest files))
  unfolding advance_phase read_line as_line next_phase process keyword is_label collect nests closes
      kind starts_with str_eq parse_else
  else_when_on dl = refl

  else_when_off :
      (dl : Source)
      → advance_phase w (reading (at_line (in_if false a) n dl (line else_line ∷ rest) files))
        ≡ ok (reading (at_line (in_if true a) here (position ++ dl) rest files))
  unfolding advance_phase read_line as_line next_phase process keyword is_label collect nests closes
      kind starts_with str_eq parse_else
  else_when_off dl = refl

  -- Behind `.endif`: the lines that were put by are the file on top.
  abbrev pub closed : Source → Assembly
  closed dl = record a {
    env = record a.env { f_line = here };
    files = some dl ∷ some (position ++ rest) ∷ files;
    dl = [];
    history = [];
  }

  endif :
      (holds : Bool) (x : Item) (dl : Source)
      → advance_phase w
          (reading (at_line (in_if holds a) n (x ∷ dl) (line endif_line ∷ rest) files))
        ≡ ok (opening (closed (x ∷ dl)))
  unfolding advance_phase read_line as_line next_phase process keyword is_label collect nests closes
      kind starts_with str_eq parse_endif helper_reload
  endif true x dl = refl
  endif false x dl = refl

module _ (w : World) (a : Assembly) (files : List (Option Source)) (xs ys : List Args)
    (rest : Source) where
  -- A block with two branches.
  abbrev pub behind_else : Source
  behind_else = map line ys ++ line endif_line ∷ rest

  abbrev pub both : Source
  both = map line xs ++ line else_line ∷ behind_else

  module _ (plain : all_plain xs ≡ true) (plain' : all_plain ys ≡ true) where
    -- The second branch, from the line behind `.else`.
    second :
        (holds : Bool) (n : ℕ) (x : Item) (dl : Source)
        → (k : ℕ) × Leads w
            (reading (at_line (in_if holds a) n (x ∷ dl) behind_else files))
            (opening (closed w a k rest files (x ∷ dl ++ map line ys)))
    second holds n x dl =
        let (k, e) =
          gather w files (if holds then if_on else if_off) [] ys (in_if holds a) n (x ∷ dl)
            (line endif_line ∷ rest) refl plain' in
        (
          k,
          trans w _ _ _ (length ys, e)
              (one w _ _ (endif w a k rest files holds x (dl ++ map line ys))),
        )

    -- In a block of one condition that holds, the lines of both branches come to be on top of the
    -- files, behind the position of the block; the file goes on behind `.endif`.
    pub else_when_on_keeps :
        (n m : ℕ) (t : Text)
        → (k : ℕ) × Leads w
            (reading (at_line (in_if true a) n (name t ∷ number m ∷ []) both files))
            (opening (closed w a k rest files (name t ∷ number m ∷ map line xs ++ map line ys)))
    else_when_on_keeps n m t =
        let (k, e) =
          gather w files if_on [] xs (in_if true a) n (name t ∷ number m ∷ [])
            (line else_line ∷ behind_else) refl plain in
        let (k', f) = second false (u64 (k + 1)) (name t) (number m ∷ map line xs) in
        (
          k',
          trans w _ _ _ (length xs, e)
              (trans w _ _ _ (one w _ _ (else_when_on w a k behind_else files _)) f),
        )

    -- The same where the condition does not hold: the position is that of `.else`.
    pub else_when_off_keeps :
        (n : ℕ)
        → (k m : ℕ) × Leads w (reading (at_line (in_if false a) n [] both files)) (
            opening
              (closed w a k rest files (name a.env.file ∷ number m ∷ map line xs ++ map line ys)))
    else_when_off_keeps n =
        let (k, e) =
          gather w files if_off [] xs (in_if false a) n [] (line else_line ∷ behind_else) refl
            plain in
        let (k', f) =
          second true (u64 (k + 1)) (name a.env.file) (number (u64 (k + 1)) ∷ map line xs) in
        (
          k',
          u64 (k + 1),
          trans w _ _ _ (length xs, e)
              (trans w _ _ _ (one w _ _ (else_when_off w a k behind_else files _)) f),
        )

-- A block of one condition that does not hold, of two or more plain lines and without `.else`, is
-- read as a file once it is closed: the name of the file that the assembler then keeps is the bytes
-- of the size of the first line, in front of the first 0, the number of the line is the address of
-- the second line, and the lines behind them are the next ones that are read. The file goes on
-- behind `.endif`, and no block is open.
pub off_without_else :
    (w : World) (a : Assembly) (n : ℕ) (x y : Args) (zs : List Args) (rest : Source)
    (files : List (Option Source))
    → all_plain (x ∷ y ∷ zs) ≡ true
    → (k : ℕ) × Leads w
        (reading
          (at_line (in_if false a) n [] (map line (x ∷ y ∷ zs) ++ line endif_line ∷ rest) files))
        (reading (record a {
          env = record a.env {
            file = until_zero (bytes_of 8 (length x));
            f_line = w.address_of (length y);
          };
          files = some (map line zs) ∷ some (name a.env.file ∷ number (u64 (k + 1)) ∷ rest) ∷ files;
          dl = [];
          history = [];
        }))
unfolding advance_phase open_file read_header as_name as_number
off_without_else w a n x y zs rest files plain =
    let (k, e) =
      gather w files if_off [] (x ∷ y ∷ zs) (in_if false a) n [] (line endif_line ∷ rest) refl
        plain in
    (
      k,
      trans w _ _ _ (length (x ∷ y ∷ zs), e)
          (trans w _ _ _ (one w _ _ (endif w a k rest files false (line x) (line y ∷ map line zs)))
            (one w _ _ refl)),
    )
