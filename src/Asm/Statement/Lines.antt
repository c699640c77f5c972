-- ===== src/Asm/Statement/Lines.antt =====
-- The layout behind the directives of the loop body of `compile` (src/compile.c).
use amalgam_asm.Base.{
  ℕ, ◌==◌, ltb, Bool, true, false, not, some, [], ◌∷◌, if◌then◌else◌, length, Bool-cases, inl, inr,
}
use amalgam_asm.Base.Text.{Text}
use amalgam_asm.Util.Map
use amalgam_asm.Util.Map.{HashMap, Entry}
use amalgam_asm.Asm.State.{Run, ok, ◌>>=◌, Env}
use amalgam_asm.Asm.Ensures.{Ensures, done, bind, branch}
use amalgam_asm.Asm.Data.{Args, arg}
use amalgam_asm.Asm.Insn.{without_last}
use amalgam_asm.Asm.Layout.{
  IsLaidOut, if_all, set_section-IsLaidOut, err-IsLaidOut, helper_symbol_set-IsLaidOut,
  helper_section_add-IsLaidOut, helper_expr_parse-IsLaidOut,
}
use amalgam_asm.Asm.Layout.Directives
use amalgam_asm.Asm.Control.{
  Assembly, parse_macro, parse_irp, parse_irpc, begin_if, parse_ifdef, parse_ifndef, parse_if,
  parse_err, fail,
}
use amalgam_asm.Asm.Statement.{
  After, continues, reopens, gives_up, with_env, is_bound, define_label, is_label, take_labels,
  assign, switch_section, set_bitness, comm,
}

-- However the line ends.
abbrev pub AfterLaidOut : After → Type 0
AfterLaidOut (continues a) = IsLaidOut a.env
AfterLaidOut (reopens a) = IsLaidOut a.env
AfterLaidOut (gives_up env) = IsLaidOut env

pub either :
    (b : Bool) (x y : After) → AfterLaidOut x → AfterLaidOut y → AfterLaidOut (if b then x else y)
either true x y p q = p
either false x y p q = q

chosen :
    (b : Bool) (x y : Assembly)
    → IsLaidOut x.env
    → IsLaidOut y.env
    → IsLaidOut (if b then x else y).env
chosen true x y p q = p
chosen false x y p q = q

begin_if-env : (holds : Bool) (a : Assembly) → IsLaidOut a.env → IsLaidOut (begin_if holds a).env
unfolding begin_if
begin_if-env true a h = h
begin_if-env false a h = h

define_label-IsLaidOut :
    (env : Env) (symbol : Text) → IsLaidOut env → IsLaidOut (define_label env symbol)
unfolding define_label
define_label-IsLaidOut env symbol h =
    if_all (is_bound (Map.get env.symbols symbol)) h (helper_symbol_set-IsLaidOut env _ symbol _ h)

pub take_labels-IsLaidOut :
    (args : Args) (env : Env) → IsLaidOut env → IsLaidOut (take_labels args env).1
unfolding take_labels
take_labels-IsLaidOut [] env h = h
take_labels-IsLaidOut (word ∷ args) env h = elim (Bool-cases (is_label word)) [
  | inl label ↦ rw label (
      take_labels-IsLaidOut args (define_label env (without_last word))
        (define_label-IsLaidOut env (without_last word) h))
  | inr other ↦ rw other h
]

module _ (a : Assembly) (h : IsLaidOut a.env) where
  pub switch_section-IsLaidOut : (name : Text) → AfterLaidOut (switch_section name a)
  unfolding switch_section
  switch_section-IsLaidOut name = record {
    at = (helper_section_add-IsLaidOut a.env a.sections name (some a.env.section) h).at;
  }

  pub set_bitness-IsLaidOut : (n : ℕ) → AfterLaidOut (set_bitness n a)
  unfolding set_bitness
  set_bitness-IsLaidOut n = set_section-IsLaidOut a.env a.env.section _ h (h.at a.env.section)

  pub comm-IsLaidOut : (global : Bool) (args : Args) → Ensures AfterLaidOut (comm global args a)
  unfolding comm
  comm-IsLaidOut global args =
      bind (Directives.parse_lcomm-IsLaidOut args a.env a.sections global h) λ r laid. done laid

  fail-IsLaidOut : (message : Text) → IsLaidOut (fail message a).env
  fail-IsLaidOut message = err-IsLaidOut message a.env h

  pub parse_err-IsLaidOut : (args : Args) → IsLaidOut (parse_err args a.env)
  unfolding parse_err
  parse_err-IsLaidOut args =
      if_all (not (length args == 1)) (err-IsLaidOut _ a.env h) (err-IsLaidOut _ a.env h)

  pub parse_macro-IsLaidOut : (args : Args) → IsLaidOut (parse_macro args a).env
  unfolding parse_macro
  parse_macro-IsLaidOut args = chosen (ltb (length args) 1) _ _ (err-IsLaidOut _ a.env h) h

  pub parse_irp-IsLaidOut : (args : Args) → IsLaidOut (parse_irp args a).env
  unfolding parse_irp
  parse_irp-IsLaidOut args = chosen (ltb (length args) 1) _ _ (err-IsLaidOut _ a.env h) h

  pub parse_irpc-IsLaidOut : (args : Args) → IsLaidOut (parse_irpc args a).env
  unfolding parse_irpc
  parse_irpc-IsLaidOut args = chosen (not (length args == 2)) _ _ (err-IsLaidOut _ a.env h) h

  pub parse_ifdef-IsLaidOut : (args : Args) → IsLaidOut (parse_ifdef args a).env
  unfolding parse_ifdef
  parse_ifdef-IsLaidOut args =
      chosen (not (length args == 1)) _ _ (err-IsLaidOut _ a.env h) (begin_if-env _ a h)

  pub parse_ifndef-IsLaidOut : (args : Args) → IsLaidOut (parse_ifndef args a).env
  unfolding parse_ifndef
  parse_ifndef-IsLaidOut args =
      chosen (not (length args == 1)) _ _ (err-IsLaidOut _ a.env h) (begin_if-env _ a h)

  pub parse_if-IsLaidOut : (args : Args) → Ensures (λ b. IsLaidOut b.env) (parse_if args a)
  unfolding parse_if
  parse_if-IsLaidOut args = branch (not (length args == 1)) (done (err-IsLaidOut _ a.env h)) (
      bind (helper_expr_parse-IsLaidOut a.env (arg args 0) 0 0 h)
        λ r laid. done (begin_if-env (not (r.0 == 0)) (record a { env = r.1 }) laid))

  pub assign-IsLaidOut : (r : Text × Text) → Ensures AfterLaidOut (assign r a)
  unfolding assign
  assign-IsLaidOut (symbol, expr) =
      bind (helper_expr_parse-IsLaidOut a.env expr 0 0 h)
        λ r laid. done (helper_symbol_set-IsLaidOut r.1 _ _ r.0 laid)

  pub on_env-IsLaidOut :
      {r : Run Env} → Ensures IsLaidOut r → Ensures AfterLaidOut (r >>= λ env. ok (with_env a env))
  on_env-IsLaidOut e = bind e λ env laid. done laid
