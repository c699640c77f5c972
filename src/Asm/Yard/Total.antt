-- ===== src/Asm/Yard/Total.antt =====
-- The loop of the expression parser: every pass shortens the text, so the fuel suffices.
use amalgam_asm.Base.{
  ℕ, zero, suc, ◌+◌, ◌≤◌, ◌<◌, ◌≡◌, ◌==◌, Bool, true, false, not, ◌||◌, Option, none, some, List,
  [], ◌∷◌, length, get_or, arith, Bool-cases, inl, inr,
}
use amalgam_asm.Base.Text.{Text}
use amalgam_asm.Asm.State.{Run, ok, Env, Section, empty_section}
use amalgam_asm.Asm.Ensures.{Ensures, done, fails, bind, mono, branch}
use amalgam_asm.Asm.Expr.{Step}
use amalgam_asm.Asm.Yard.{
  skip_spaces, span_allowed, Parsed, give_up, Next, stop, again, after_close, skip_double, prefix,
  symbol_turn, word_turn, turn, finish, loop, parse_expr,
}
use amalgam_asm.Asm.Yard.Fuel.{
  Kept, Kept-refl, Kept-trans, err-Kept, close_bracket-Ensures, pop_operators-Ensures,
  drain-Ensures,
}

-- The section behind a pointer.
abbrev pub section_at : Env → ℕ → Section
section_at env i = get_or env.store i empty_section

-- After a pass over `n` characters: less is left, and the state is kept.
abbrev Good : ℕ → Env → Next → Type 0
Good n env (stop p) = Kept env p.env
Good n env (again rest last stack s) = (length rest < n) × Kept env s.env

length-skip_spaces : (s : Text) → length (skip_spaces s) ≤ length s
unfolding skip_spaces
length-skip_spaces [] = omega arith
length-skip_spaces (c ∷ s) = ground (arith, length-skip_spaces s)

length-span_allowed : (s : Text) → length (span_allowed s).0 + length (span_allowed s).1 ≡ length s
unfolding span_allowed
length-span_allowed [] = omega arith
length-span_allowed (c ∷ s) = ground (arith, length-span_allowed s)

length-skip_double : (c : ℕ) (s : Text) → length (skip_double c s) ≤ length s
unfolding skip_double
length-skip_double c [] = omega arith
length-skip_double c (d ∷ s) = ground arith

give_up-Kept : (m : Text) (s : Step) → Kept s.env (give_up m s).env
unfolding give_up
give_up-Kept m s = err-Kept m s.env

prefix-Good :
    (c : ℕ) (rest : Text) (stack : List ℕ) (s : Step)
    → Good (suc (length rest)) s.env (prefix c rest stack s)
unfolding prefix give_up
prefix-Good c rest stack s = elim (Bool-cases (c == b'+')) [
  | inl plus ↦ rw plus (omega arith, Kept-refl s.env)
  | inr e1 ↦ elim (Bool-cases (c == b'-')) [
    | inl minus ↦ rw (e1, minus) (omega arith, Kept-refl s.env)
    | inr e2 ↦ elim (Bool-cases (c == b'~' || c == b'!')) [
      | inl other ↦ rw (e1, e2, other) (omega arith, Kept-refl s.env)
      | inr e3 ↦ rw (e1, e2, e3) (err-Kept _ s.env)
    ]
  ]
]

after_close-Good :
    (rest : Text) (env : Env) (r : Option (List ℕ)) (s : Step)
    → Kept env s.env
    → Good (suc (length rest)) env (after_close rest (r, s))
unfolding after_close
after_close-Good rest env none s k = Kept-trans k (give_up-Kept _ s)
after_close-Good rest env (some stack) s k = (omega arith, k)

symbol_turn-Ensures :
    (expr : Text) (last : Bool) (stack : List ℕ) (s : Step) (n : ℕ)
    → length expr ≤ n
    → Ensures (Good n s.env) (symbol_turn expr last stack s)
unfolding symbol_turn
symbol_turn-Ensures [] true stack s n h = fails
symbol_turn-Ensures [] false stack s n h = done (give_up-Kept _ s)
symbol_turn-Ensures (c ∷ rest) last stack s n h =
    mono {P = Good (suc (length rest)) s.env}
      (branch (c == b'(') (done (omega arith, Kept-refl s.env)) (
        branch (c == b')')
          (bind (close_bracket-Ensures stack s)
            λ (r, s') k. done (after_close-Good rest s.env r s' k))
          (branch (not last) (done (prefix-Good c rest stack s)) (
            bind (pop_operators-Ensures c stack s)
              λ r k. done (omega (arith, length-skip_double c rest), k)))))
      (weaken (suc (length rest)) n s.env h)
  where
    weaken : (m n : ℕ) (env : Env) → m ≤ n → (a : Next) → Good m env a → Good n env a
    weaken m n env h (stop p) k = k
    weaken m n env h (again rest last stack s) (less, k) = (omega arith, k)

word_turn-Ensures :
    (word rest : Text) (last : Bool) (stack : List ℕ) (s : Step) (n : ℕ)
    → length word + length rest ≤ n
    → Ensures (Good n s.env) (word_turn word rest last stack s)
unfolding word_turn
word_turn-Ensures [] rest last stack s n h = symbol_turn-Ensures rest last stack s n (omega arith)
word_turn-Ensures (c ∷ val) rest last stack s n h = done (omega arith, Kept-refl s.env)

turn-Ensures :
    (expr : Text) (last : Bool) (stack : List ℕ) (s : Step)
    → Ensures (Good (length expr) s.env) (turn expr last stack s)
unfolding turn
turn-Ensures expr last stack s =
    let word = span_allowed (skip_spaces expr) in
    word_turn-Ensures word.0 word.1 last stack s (length expr)
      (omega (arith, length-span_allowed (skip_spaces expr), length-skip_spaces expr))

finish-Kept : (r : Option Step) (s : Step) → Kept s.env (finish (r, s)).env
unfolding finish
finish-Kept none s = give_up-Kept _ s
finish-Kept (some t) s = finish_step s.result s.callback s.env
  where
    finish_step :
        (result : List Text) (callback : Bool) (env : Env)
        → Kept env (finish (some t, record { result = result; callback = callback; env = env })).env
    finish_step [] callback env = err-Kept _ env
    finish_step (a ∷ []) callback env = Kept-refl env
    finish_step (a ∷ b ∷ more) callback env = err-Kept _ env

rest-Ensures :
    (fuel : ℕ) (env : Env) (n : Next)
    → ((rest : Text) (last : Bool) (stack : List ℕ) (s : Step)
        → length rest ≤ fuel
        → Ensures (λ p. Kept s.env p.env) (loop fuel rest last stack s))
    → Good (suc fuel) env n
    → Ensures
        (λ p. Kept env p.env)
        (elim n as (λ _. Run Parsed) [
          | stop r ↦ ok r
          | again rest last stack s ↦ loop fuel rest last stack s
        ])
rest-Ensures fuel env (stop p) ih k = done k
rest-Ensures fuel env (again rest last stack s) ih (less, k) =
    mono (ih rest last stack s (omega arith)) λ p k'. Kept-trans k k'

loop-Ensures :
    (fuel : ℕ) (expr : Text) (last : Bool) (stack : List ℕ) (s : Step)
    → length expr ≤ fuel
    → Ensures (λ p. Kept s.env p.env) (loop fuel expr last stack s)
unfolding loop
loop-Ensures zero [] last stack s h =
    bind (drain-Ensures stack s) λ (r, s') k. done (Kept-trans k (finish-Kept r s'))
loop-Ensures (suc fuel) [] last stack s h =
    bind (drain-Ensures stack s) λ (r, s') k. done (Kept-trans k (finish-Kept r s'))
loop-Ensures zero (c ∷ expr) last stack s h = absurd (omega arith)
loop-Ensures (suc fuel) (c ∷ expr) last stack s h =
    bind (turn-Ensures (c ∷ expr) last stack s) λ n g.
      rest-Ensures fuel s.env n
        (λ rest last' stack' s' less. loop-Ensures fuel rest last' stack' s' less) (shorter n g)
  where
    shorter : (n : Next) → Good (suc (length expr)) s.env n → Good (suc fuel) s.env n
    shorter (stop p) k = k
    shorter (again rest l st s') (less, k) = (omega arith, k)

-- For every text `_parse_expr` ends: the fuel of the model, the length of the text, is enough.
-- Where it does not fault, it changed nothing of the state but the error list.
pub parse_expr-Ensures :
    (expr : Text) (env : Env) → Ensures (λ p. Kept env p.env) (parse_expr expr env)
unfolding parse_expr
parse_expr-Ensures expr env = loop-Ensures (length expr) expr false [] _ (omega arith)
