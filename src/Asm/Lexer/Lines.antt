-- ===== src/Asm/Lexer/Lines.antt =====
-- The lexer ends, and keeps the lines of a text apart.
use amalgam_asm.Base.{
  ℕ, zero, suc, ◌+◌, ◌≤◌, ◌<◌, ◌≡◌, refl, ◌==◌, true, false, ◌||◌, Option, none, some, List, [],
  ◌∷◌, ◌++◌, if◌then◌else◌, length, arith, Bool-cases, inl, inr, ◌∙◌, length-append,
}
use amalgam_asm.Base.Text.{Text}
use amalgam_asm.Asm.State.{Run, ok}
use amalgam_asm.Asm.Expr.{is_space}
use amalgam_asm.Asm.Lexer.{
  Line, Lexed, line_add, skip_blanks, plain_word, next_word, Pass, missing, ends, goes, add_word,
  read_word, pass, lex, helper_file_parse,
}
use amalgam_asm.Asm.Lexer.Pieces.{
  newlines, unquoted, Left, skip_blanks-Left, skip_comment-Left, plain_word-Left, Shorter,
  cons-Shorter, closed_word-Shorter,
}

-- What a pass over `s` with `n` full lines does.
abbrev Reads : Text → ℕ → Pass → Type 0
Reads s n missing = unquoted s ≡ false
Reads s n (ends l) = length l.lines ≡ n + newlines s
Reads s n (goes rest l) =
    (length rest < length s)
    × (unquoted s ≡ true → length l.lines + newlines rest ≡ n + newlines s)
    × (unquoted s ≡ true → unquoted rest ≡ true)

quoted-Reads :
    (s rest : Text) (l : Lexed) (o : Option (Text × Text))
    → unquoted s ≡ false
    → length rest < length s
    → Shorter (length rest) o
    → Reads s (length l.lines) (add_word o l)
unfolding add_word
quoted-Reads s rest l none quoted less h = quoted
quoted-Reads s rest l (some r) quoted less h =
    (omega (arith, h), (λ p. absurd (cc)), λ p. absurd (cc))

plain-Reads :
    (c : ℕ) (s : Text) (l : Lexed)
    → (c == b'\n') ≡ false
    → Reads (c ∷ s) (length l.lines) (add_word (some (c ∷ (plain_word s).0, (plain_word s).1)) l)
unfolding add_word newlines unquoted
plain-Reads c s l other =
    let rest = plain_word-Left (length l.lines) s in
    (omega (arith, rest.shorter), (λ h. rw other rest.counted), λ h. rest.still (ground arith))

-- The first character that is left is no white space.
abbrev Starts : Text → Type 0
Starts [] = Unit
Starts (c ∷ s) = is_space c ≡ false

skip_blanks-Starts : (s : Text) (l : Lexed) → Starts (skip_blanks s l).0
unfolding skip_blanks
skip_blanks-Starts [] l = tt
skip_blanks-Starts (c ∷ s) l = elim (Bool-cases (is_space c)) [
  | inl blank ↦ rw blank (skip_blanks-Starts s (if c == b'\n' then line_add l else l))
  | inr word ↦ rw word word
]

no_newline : (c : ℕ) → is_space c ≡ false → (c == b'\n') ≡ false
unfolding is_space
no_newline c h = ground arith

read_word-Reads : (s : Text) (l : Lexed) → Starts s → Reads s (length l.lines) (read_word s l)
unfolding read_word next_word newlines unquoted
read_word-Reads [] l h = omega arith
read_word-Reads (c ∷ s) l h =
    let other = no_newline c h in
    elim (Bool-cases (c == b'#' || c == b';')) [
      | inl comment ↦
          let rest = skip_comment-Left (length l.lines) s in
          rw comment (
            omega (arith, rest.shorter),
            (λ p. rw other rest.counted),
            λ p. rest.still (ground arith),
          )
      | inr word ↦ elim (Bool-cases (c == b'"')) [
        | inl quote ↦
            rw (word, quote)
              (quoted-Reads (c ∷ s) s l _ (ground arith) (omega arith)
                (cons-Shorter (length s) c _ (closed_word-Shorter b'"' c s)))
        | inr no_quote ↦ elim (Bool-cases (c == b'[')) [
          | inl bracket ↦
              rw (word, no_quote, bracket)
                (quoted-Reads (c ∷ s) s l _ (ground arith) (omega arith)
                  (cons-Shorter (length s) c _ (closed_word-Shorter b']' c s)))
          | inr plain ↦ rw (word, no_quote, plain) (plain-Reads c s l other)
        ]
      ]
    ]

-- Behind white space that was skipped, the same as at its start.
behind : (s t : Text) (n k : ℕ) (p : Pass) → Left s n t k → Reads t k p → Reads s n p
behind s t n k missing left h = elim (Bool-cases (unquoted s)) [
  | inl plain ↦ absurd (let a = left.still plain in cc)
  | inr quoted ↦ quoted
]
behind s t n k (ends l) left h = omega (arith, h, left.counted)
behind s t n k (goes rest l) left (less, same, still) = (
  omega (arith, less, left.shorter),
  (λ p. same (left.still p) ∙ left.counted),
  λ p. still (left.still p),
)

pass-Reads : (s : Text) (l : Lexed) → Reads s (length l.lines) (pass s l)
unfolding pass
pass-Reads s l =
    let r = skip_blanks s l in
    behind s r.0 (length l.lines) (length r.1.lines) (read_word r.0 r.1) (skip_blanks-Left s l)
      (read_word-Reads r.0 r.1 (skip_blanks-Starts s l))

-- The lines of a text without quotes and brackets, by their number.
abbrev pub HasLines : Text → ℕ → Option (List Line) → Type 0
HasLines s n none = unquoted s ≡ false
HasLines s n (some ls) = unquoted s ≡ true → length ls ≡ n + newlines s + 1

abbrev Result : Text → ℕ → Run (Option (List Line)) → Type 0
Result s n r = (o : Option (List Line)) × (r ≡ ok o) × HasLines s n o

ended :
    (s : Text) (n : ℕ) (l : Lexed)
    → length l.lines ≡ n + newlines s
    → Result s n (ok (some (line_add l).lines))
unfolding line_add
ended s n l h = (
  some (l.lines ++ l.line ∷ []),
  refl,
  λ p. omega (arith, h, length-append l.lines (l.line ∷ [])),
)

carry :
    (s rest : Text) (n k : ℕ) (r : Run (Option (List Line)))
    → (unquoted s ≡ true → k + newlines rest ≡ n + newlines s)
    → (unquoted s ≡ true → unquoted rest ≡ true)
    → Result rest k r
    → Result s n r
carry s rest n k r same still (none, e, h) = (
  none,
  e,
  elim (Bool-cases (unquoted s)) [
    | inl plain ↦ absurd (let a = still plain in cc)
    | inr quoted ↦ quoted
  ],
)
carry s rest n k r same still (some ls, e, h) =
    (some ls, e, λ p. omega (arith, same p, h (still p)))

-- The loop behind one pass, where what follows a pass that goes on is known.
behind_pass :
    (s : Text) (n fuel : ℕ) (p : Pass)
    → Reads s n p
    → ((rest : Text) (l : Lexed)
        → length rest < length s
        → Result rest (length l.lines) (lex fuel rest l))
    → Result s n (elim p as (λ _. Run (Option (List Line))) [
      | missing ↦ ok none
      | ends l ↦ ok (some (line_add l).lines)
      | goes rest l ↦ lex fuel rest l
    ])
behind_pass s n fuel missing q next = (none, refl, q)
behind_pass s n fuel (ends l) q next = ended s n l q
behind_pass s n fuel (goes rest l) (less, same, still) next =
    carry s rest n (length l.lines) (lex fuel rest l) same still (next rest l less)

lex-Result :
    (fuel : ℕ) (s : Text) (l : Lexed) → length s ≤ fuel → Result s (length l.lines) (lex fuel s l)
unfolding lex newlines
lex-Result zero [] l h = ended [] (length l.lines) l (omega arith)
lex-Result (suc fuel) [] l h = ended [] (length l.lines) l (omega arith)
lex-Result zero (c ∷ s) l h = absurd (omega arith)
lex-Result (suc fuel) (c ∷ s) l h =
    behind_pass (c ∷ s) (length l.lines) fuel (pass (c ∷ s) l) (pass-Reads (c ∷ s) l)
      λ rest l' less. lex-Result fuel rest l' (omega (arith, less, h))

-- For every text the lexer ends: the fuel of the model, the length of the text, is enough, and
-- no step of it is undefined.
pub helper_file_parse-ends :
    (text : Text) → (o : Option (List Line)) × (helper_file_parse text ≡ ok o)
unfolding helper_file_parse
helper_file_parse-ends text =
    let (o, e, h) =
      lex-Result (length text) text (record { lines = []; line = [] }) (omega arith) in
    (o, e)

-- A text without quotes and opening brackets is split into one line more than it has newlines,
-- whatever comments and blank lines there are.
pub helper_file_parse-newlines :
    (text : Text)
    → unquoted text ≡ true
    → (ls : List Line) × (helper_file_parse text ≡ ok (some ls)) × (length ls ≡ newlines text + 1)
unfolding helper_file_parse
helper_file_parse-newlines text plain =
    found (lex-Result (length text) text (record { lines = []; line = [] }) (omega arith))
  where
    found :
        Result text 0 (helper_file_parse text)
        → (ls : List Line) × (helper_file_parse text ≡ ok (some ls))
          × (length ls ≡ newlines text + 1)
    found (none, e, h) = absurd (cc)
    found (some ls, e, h) = (ls, e, omega (arith, h plain))
