-- ===== src/Asm/Yard/Word.antt =====
-- An expression that is one word: no operator, no bracket, no space.
use amalgam_asm.Base.{ℕ, ◌≡◌, refl, Bool, true, false, ◌&&◌, some, [], ◌∷◌, arith}
use amalgam_asm.Base.Text.{Text}
use amalgam_asm.Asm.Number.{strtoll}
use amalgam_asm.Asm.State.{ok, Env}
use amalgam_asm.Asm.Expr.{is_space, is_allowed}
use amalgam_asm.Asm.Yard.{
  skip_spaces, span_allowed, turn, loop, parse_expr, conclude, settle, helper_expr_parse,
}

-- Every character is a letter, a digit, `_`, `.` or one of `[ \ ] ^` and the backquote.
unfoldable pub all_allowed : Text → Bool
all_allowed [] = true
all_allowed (c ∷ s) = is_allowed c && all_allowed s

pub allowed_first : (c : ℕ) (s : Text) → all_allowed (c ∷ s) ≡ true → is_allowed c ≡ true
unfolding all_allowed
allowed_first c s h = ground arith

pub allowed_rest : (c : ℕ) (s : Text) → all_allowed (c ∷ s) ≡ true → all_allowed s ≡ true
unfolding all_allowed
allowed_rest c s h = ground arith

pub allowed_no_space : (c : ℕ) → is_allowed c ≡ true → is_space c ≡ false
unfolding is_allowed is_space
allowed_no_space c h = ground arith

pub span_allowed_all : (s : Text) → all_allowed s ≡ true → span_allowed s ≡ (s, [])
unfolding span_allowed
span_allowed_all [] h = refl
span_allowed_all (c ∷ s) h = rw (allowed_first c s h, span_allowed_all s (allowed_rest c s h))

-- A word is its own value: no lookup of a symbol happens.
pub parse_expr_word :
    (c : ℕ) (s : Text) (env : Env)
    → all_allowed (c ∷ s) ≡ true
    → parse_expr (c ∷ s) env ≡ ok (record { text = some (c ∷ s); callback = false; env = env })
unfolding parse_expr loop turn skip_spaces
parse_expr_word c s env h =
    rw (allowed_no_space c (allowed_first c s h), span_allowed_all (c ∷ s) h)

-- An expression of one or more allowed characters and nothing else evaluates to what `strtoll`
-- reads of it, whatever symbols are defined, and changes no state.
pub helper_expr_parse_word :
    (c : ℕ) (s : Text) (env : Env) (offset size : ℕ)
    → all_allowed (c ∷ s) ≡ true
    → helper_expr_parse env (c ∷ s) offset size ≡ ok (strtoll (c ∷ s), env)
unfolding helper_expr_parse conclude settle
helper_expr_parse_word c s env offset size h = rw (parse_expr_word c s env h)
