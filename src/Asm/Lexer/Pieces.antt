-- ===== src/Asm/Lexer/Pieces.antt =====
-- What is left of a text behind white space, a comment or a word.
use amalgam_asm.Base.{
  ℕ, suc, ◌+◌, ◌≤◌, ◌≡◌, refl, ◌==◌, Bool, true, false, not, ◌&&◌, Option, none, some, [], ◌∷◌,
  if◌then◌else◌, length, arith, Bool-cases, inl, inr, ◌∙◌, length-append,
}
use amalgam_asm.Base.Text.{Text}
use amalgam_asm.Asm.Expr.{is_space}
use amalgam_asm.Asm.Lexer.{Lexed, line_add, skip_blanks, skip_comment, plain_word, closed_word}

-- How many newlines a text has.
unfoldable pub newlines : Text → ℕ
newlines [] = 0
newlines (c ∷ s) = if c == b'\n' then suc (newlines s) else newlines s

-- No quote and no opening bracket.
unfoldable pub unquoted : Text → Bool
unquoted [] = true
unquoted (c ∷ s) = not (c == b'"') && not (c == b'[') && unquoted s

-- A piece of the text is left, and the newlines in front of it are lines now.
pub record Left (s : Text) (n : ℕ) (rest : Text) (k : ℕ) : Type 0 where
  pub shorter : length rest ≤ length s
  pub counted : k + newlines rest ≡ n + newlines s
  pub still : unquoted s ≡ true → unquoted rest ≡ true

pub skip_blanks-Left :
    (s : Text) (l : Lexed)
    → let r = skip_blanks s l in Left s (length l.lines) r.0 (length r.1.lines)
unfolding skip_blanks line_add newlines unquoted
skip_blanks-Left [] l = record { shorter = omega arith; counted = refl; still = λ h. h }
skip_blanks-Left (c ∷ s) l = elim (Bool-cases (is_space c)) [
  | inr word ↦ rw word (record { shorter = omega arith; counted = refl; still = λ h. h })
  | inl blank ↦ rw blank (
      let rest = skip_blanks-Left s (if c == b'\n' then line_add l else l) in
      record {
        shorter = omega (arith, rest.shorter);
        counted = rest.counted ∙ lines_of l c s;
        still = λ h. rest.still (ground arith);
      })
]
  where
    lines_of :
        (l : Lexed) (c : ℕ) (s : Text)
        → length (if c == b'\n' then line_add l else l).lines + newlines s
          ≡ length l.lines + newlines (c ∷ s)
    lines_of l c s = elim (Bool-cases (c == b'\n')) [
      | inl newline ↦ rw newline (omega (arith, length-append l.lines (l.line ∷ [])))
      | inr other ↦ rw other refl
    ]

pub skip_comment-Left : (n : ℕ) (s : Text) → Left s n (skip_comment s) n
unfolding skip_comment newlines unquoted
skip_comment-Left n [] = record { shorter = omega arith; counted = refl; still = λ h. h }
skip_comment-Left n (c ∷ s) = elim (Bool-cases (c == b'\n')) [
  | inl newline ↦
      rw newline (record { shorter = omega arith; counted = rw newline refl; still = λ h. h })
  | inr other ↦
      let rest = skip_comment-Left n s in
      rw other (record {
        shorter = omega (arith, rest.shorter);
        counted = rw other rest.counted;
        still = λ h. rest.still (ground arith);
      })
]

pub plain_word-Left : (n : ℕ) (s : Text) → Left s n (plain_word s).1 n
unfolding plain_word newlines unquoted is_space
plain_word-Left n [] = record { shorter = omega arith; counted = refl; still = λ h. h }
plain_word-Left n (c ∷ s) = elim (Bool-cases (is_space c)) [
  | inl blank ↦ rw blank (record { shorter = omega arith; counted = refl; still = λ h. h })
  | inr word ↦
      let rest = plain_word-Left n s in
      let other : (c == b'\n') ≡ false = ground arith in
      rw word (record {
        shorter = omega (arith, rest.shorter);
        counted = rw other rest.counted;
        still = λ h. rest.still (ground arith);
      })
]

-- What is left behind a word, if it ends.
abbrev pub Shorter : ℕ → Option (Text × Text) → Type 0
Shorter n none = Unit
Shorter n (some r) = length r.1 ≤ n

pub cons-Shorter :
    (n c : ℕ) (o : Option (Text × Text))
    → Shorter n o
    → Shorter n
        (elim o as (λ _. Option (Text × Text)) [ none ↦ none | some r ↦ some (c ∷ r.0, r.1) ])
cons-Shorter n c none h = tt
cons-Shorter n c (some r) h = h

pub grow-Shorter : (n : ℕ) (o : Option (Text × Text)) → Shorter n o → Shorter (suc n) o
grow-Shorter n none h = tt
grow-Shorter n (some r) h = omega (arith, h)

pub closed_word-Shorter :
    (close before : ℕ) (s : Text) → Shorter (length s) (closed_word close before s)
unfolding closed_word
closed_word-Shorter close before [] = tt
closed_word-Shorter close before (c ∷ s) = elim (Bool-cases (c == close && not (before == b'\\'))) [
  | inl last ↦ rw last (omega arith)
  | inr inside ↦
      rw inside
        (grow-Shorter (length s) _ (cons-Shorter (length s) c _ (closed_word-Shorter close c s)))
]
