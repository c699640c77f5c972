-- ===== src/Asm/Yard/Fuel.antt =====
-- The expression parser never runs out of fuel, and of the state it writes the errors alone.
use amalgam_asm.Base.{
  ℕ, ◌≡◌, refl, ◌==◌, ltb, Bool, true, ◌&&◌, ◌||◌, Option, none, some, List, [], ◌∷◌, ◌∙◌,
}
use amalgam_asm.Base.Text.{Text, codes, str_eq}
use amalgam_asm.Asm.State.{Run, ok, Env, err}
use amalgam_asm.Asm.Expr.{
  parse_prec, Step, parse_op, apply_op, apply_binary, parse_lit, push_value, binary_value,
  symbol_value, starts_digit, is_unary,
}
use amalgam_asm.Util.Map.{Entry, get}
use amalgam_asm.Asm.Ensures.{Ensures, done, fails, bind, mono, branch}
use amalgam_asm.Asm.State.{Symbol}
use amalgam_asm.Asm.Yard.{close_bracket, pop_operators, drain}

-- The state but for the errors.
pub record Kept (a b : Env) : Type 0 where
  pub file : b.file ≡ a.file
  pub f_line : b.f_line ≡ a.f_line
  pub symbols : b.symbols ≡ a.symbols
  pub store : b.store ≡ a.store
  pub section : b.section ≡ a.section
  pub fresh : b.fresh ≡ a.fresh

pub Kept-refl : (a : Env) → Kept a a
Kept-refl a = record {
  file = refl;
  f_line = refl;
  symbols = refl;
  store = refl;
  section = refl;
  fresh = refl;
}

pub Kept-trans : {a b c : Env} → Kept a b → Kept b c → Kept a c
Kept-trans p q = record {
  file = q.file ∙ p.file;
  f_line = q.f_line ∙ p.f_line;
  symbols = q.symbols ∙ p.symbols;
  store = q.store ∙ p.store;
  section = q.section ∙ p.section;
  fresh = q.fresh ∙ p.fresh;
}

pub err-Kept : (m : Text) (a : Env) → Kept a (err m a)
unfolding err
err-Kept m a = record {
  file = refl;
  f_line = refl;
  symbols = refl;
  store = refl;
  section = refl;
  fresh = refl;
}

abbrev pub Any : {A : Type 0} → A → Type 0
Any _ = Unit {0}

symbol_value-Ensures : (s : Symbol) (o : Option Text) → Ensures Any (symbol_value s o)
unfolding symbol_value
symbol_value-Ensures s none = fails
symbol_value-Ensures s (some t) = branch (str_eq t (codes "absolute")) (done tt) (done tt)

found-Ensures :
    (o : Option (Entry Symbol))
    → Ensures Any (elim o as (λ _. Run (ℕ × Bool)) [
      | none ↦ ok (0, true)
      | some e ↦ symbol_value e.value e.value.section
    ])
found-Ensures none = done tt
found-Ensures (some e) = symbol_value-Ensures e.value e.value.section

pub parse_lit-Ensures : (env : Env) (t : Text) → Ensures Any (parse_lit env t)
unfolding parse_lit
parse_lit-Ensures env t =
    branch (str_eq t (codes ".")) (done tt)
      (branch (starts_digit t) (done tt) (found-Ensures (get env.symbols t)))

binary_value-Ensures : (op a b : ℕ) → Ensures Any (binary_value op a b)
unfolding binary_value
binary_value-Ensures op a b = branch (op == b'*') (done tt) (
    branch (op == b'/') (done tt) (
      branch (op == b'%') (done tt) (
        branch (op == b'<') (branch (ltb b 64) (done tt) fails) (
          branch (op == b'>') (branch (ltb b 64) (done tt) fails) (
            branch (op == b'&') (done tt) (
              branch (op == b'|') (done tt) (
                branch (op == b'^') (done tt)
                  (branch (op == b'+') (done tt) (branch (op == b'-') (done tt) (done tt))))))))))

push_value-Kept :
    (rest : List Text) (c : Bool) (env : Env) (v : Option ℕ)
    → Kept env (push_value rest c env v).env
unfolding push_value
push_value-Kept rest c env none = Kept-refl env
push_value-Kept rest c env (some v) = Kept-refl env

abbrev KeepsFrom : Env → Step → Type 0
KeepsFrom env s = Kept env s.env

apply_binary-Ensures :
    (op : ℕ) (val1 : Text) (l1 : ℕ × Bool) (val2 : Text) (l2 : ℕ × Bool) (rest : List Text)
    (callback : Bool) (env : Env)
    → Ensures (KeepsFrom env) (apply_binary op val1 l1 val2 l2 rest callback env)
unfolding apply_binary
apply_binary-Ensures op val1 (lit1, u1) val2 (lit2, u2) rest callback env =
    branch (u1 || u2) (done (Kept-refl env)) (
      branch ((op == b'/' || op == b'%') && lit2 == 0) (done (err-Kept _ env)) (
        bind (binary_value-Ensures op lit1 lit2) λ v _. done (push_value-Kept rest callback env v)))

apply_op-Ensures :
    (op : ℕ) (val1 : Text) (l1 : ℕ × Bool) (rest : List Text) (callback : Bool) (env : Env)
    → Ensures (KeepsFrom env) (apply_op op val1 l1 rest callback env)
unfolding apply_op
apply_op-Ensures op val1 (lit1, u1) [] callback env =
    branch (is_unary op) (done (Kept-refl env)) (done (err-Kept _ env))
apply_op-Ensures op val1 (lit1, u1) (val2 ∷ more) callback env =
    branch (is_unary op) (done (Kept-refl env)) (
      bind (parse_lit-Ensures env val2)
        λ l2 _. apply_binary-Ensures op val1 (lit1, u1) val2 l2 more _ env)

parse_op-step :
    (op : ℕ) (result : List Text) (callback : Bool) (env : Env)
    → Ensures
        (KeepsFrom env)
        (parse_op op (record { result = result; callback = callback; env = env }))
unfolding parse_op
parse_op-step op [] callback env = done (err-Kept _ env)
parse_op-step op (val1 ∷ rest) callback env =
    bind (parse_lit-Ensures env val1) λ l1 _. apply_op-Ensures op val1 l1 rest callback env

pub parse_op-Ensures : (op : ℕ) (s : Step) → Ensures (KeepsFrom s.env) (parse_op op s)
parse_op-Ensures op s = parse_op-step op s.result s.callback s.env

pub close_bracket-Ensures :
    (stack : List ℕ) (s : Step) → Ensures (λ r. Kept s.env r.1.env) (close_bracket stack s)
unfolding close_bracket
close_bracket-Ensures [] s = done (Kept-refl _)
close_bracket-Ensures (op ∷ []) s = branch (op == b'(') (done (Kept-refl _)) (done (Kept-refl _))
close_bracket-Ensures (op ∷ op2 ∷ stack) s = branch (op == b'(') (done (Kept-refl _)) (
    bind (parse_op-Ensures op s)
      λ s' k. mono (close_bracket-Ensures (op2 ∷ stack) s') λ r k'. Kept-trans k k')

pub pop_operators-Ensures :
    (c : ℕ) (stack : List ℕ) (s : Step)
    → Ensures (λ r. Kept s.env r.1.env) (pop_operators c stack s)
unfolding pop_operators
pop_operators-Ensures c [] s = done (Kept-refl _)
pop_operators-Ensures c (op ∷ stack) s =
    branch (op == b'(' || ltb (parse_prec op) (parse_prec c)) (done (Kept-refl _)) (
      bind (parse_op-Ensures op s)
        λ s' k. mono (pop_operators-Ensures c stack s') λ r k'. Kept-trans k k')

pub drain-Ensures : (stack : List ℕ) (s : Step) → Ensures (λ r. Kept s.env r.1.env) (drain stack s)
unfolding drain
drain-Ensures [] s = done (Kept-refl _)
drain-Ensures (op ∷ stack) s =
    branch (op == b'(') (done (Kept-refl _))
      (bind (parse_op-Ensures op s) λ s' k. mono (drain-Ensures stack s') λ r k'. Kept-trans k k')
