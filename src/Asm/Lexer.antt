-- ===== src/Asm/Lexer.antt =====
-- helper_file_parse of src/cmpl_internal.c: a text into lines of words. The text is what the
-- caller's `get_file` returned; the name and the position in front of the lines are left out, and
-- so is the message behind the loop, which no text reaches.
pub mod Lines
pub mod Pieces
use amalgam_asm.Base.{
  ℕ, zero, suc, ◌+◌, ◌≤◌, ◌<◌, ◌≡◌, refl, ◌==◌, Bool, true, false, not, ◌&&◌, ◌||◌, Option, none,
  some, List, [], ◌∷◌, ◌++◌, if◌then◌else◌, length, arith, Bool-cases, inl, inr, ap, ◌∙◌,
  length-append,
}
use amalgam_asm.Base.Text.{Text}
use amalgam_asm.Asm.State.{Run, ok, fault, out_of_fuel}
use amalgam_asm.Asm.Expr.{is_space}

abbrev pub Line : Type 0
Line = List Text

-- What is read: the lines that are full, and the line that is not.
pub record Lexed : Type 0 where
  pub lines : List Line
  pub line : Line

-- `LINE_ADD`.
unfoldable pub line_add : Lexed → Lexed
line_add l = record { lines = l.lines ++ l.line ∷ []; line = [] }

-- `LINE_INC` over white space.
unfoldable pub skip_blanks : Text → Lexed → Text × Lexed
unfolding line_add
skip_blanks [] l = ([], l)
skip_blanks (c ∷ s) l =
    let next = skip_blanks s (if c == b'\n' then line_add l else l) in
    if is_space c then next else (c ∷ s, l)

-- A comment ends before its newline.
unfoldable pub skip_comment : Text → Text
skip_comment [] = []
skip_comment (c ∷ s) = if c == b'\n' then c ∷ s else skip_comment s

-- A word up to white space, and the rest.
unfoldable pub plain_word : Text → Text × Text
plain_word [] = ([], [])
plain_word (c ∷ s) = let r = plain_word s in if is_space c then ([], c ∷ s) else (c ∷ r.0, r.1)

-- Up to the closing character that no backslash precedes, and the rest; `none` if there is none.
unfoldable pub closed_word : ℕ → ℕ → Text → Option (Text × Text)
closed_word close before [] = none
closed_word close before (c ∷ s) =
    let rest = closed_word close c s in
    if c == close && not (before == b'\\')
    then some (c ∷ [], s)
    else elim rest [ none ↦ none | some r ↦ some (c ∷ r.0, r.1) ]

-- The word at the first character that is no white space.
unfoldable pub next_word : ℕ → Text → Option (Text × Text)
unfolding plain_word closed_word
next_word c s =
    if c == b'"'
    then elim (closed_word b'"' c s) [ none ↦ none | some r ↦ some (c ∷ r.0, r.1) ]
    else if c == b'['
    then elim (closed_word b']' c s) [ none ↦ none | some r ↦ some (c ∷ r.0, r.1) ]
    else (let r = plain_word s in some (c ∷ r.0, r.1))

-- One pass of the loop: the function returns a null pointer, the loop breaks, or it goes on.
pub data Pass : Type 0 where
  missing : Pass
  ends : Lexed → Pass
  goes : Text → Lexed → Pass

unfoldable pub add_word : Option (Text × Text) → Lexed → Pass
add_word none l = missing
add_word (some r) l = goes r.1 (record l { line = l.line ++ r.0 ∷ [] })

unfoldable pub read_word : Text → Lexed → Pass
unfolding skip_comment next_word add_word
read_word [] l = ends l
read_word (c ∷ s) l =
    if c == b'#' || c == b';' then goes (skip_comment s) l else add_word (next_word c s) l

unfoldable pub pass : Text → Lexed → Pass
unfolding skip_blanks read_word
pass s l = let r = skip_blanks s l in read_word r.0 r.1

-- The lines of a text; `none` is the null pointer.
unfoldable pub lex : ℕ → Text → Lexed → Run (Option (List Line))
unfolding pass line_add
lex fuel [] l = ok (some (line_add l).lines)
lex zero (c ∷ s) l = out_of_fuel
lex (suc fuel) (c ∷ s) l = elim (pass (c ∷ s) l) [
  | missing ↦ ok none
  | ends l' ↦ ok (some (line_add l').lines)
  | goes rest l' ↦ lex fuel rest l'
]

unfoldable pub helper_file_parse : Text → Run (Option (List Line))
unfolding lex
helper_file_parse text = lex (length text) text (record { lines = []; line = [] })
