-- ===== src/Asm/Symbols.antt =====
-- The symbols of the assembler: what `helper_symbol_set` and `helper_symbol_global` of
-- src/cmpl_data.c make of the map, and what `_parse_lit` finds there.
use amalgam_asm.Base.{
  ℕ, ◌≡◌, refl, Bool, true, false, Option, none, some, if◌then◌else◌, Option-cases, inl, inr, ap,
  ◌∙◌, sym, [], ◌∷◌,
}
use amalgam_asm.Base.Text.{Text, codes, str_eq, str_eq_refl}
use mathlib.Core.Option
use mathlib.Core.Path.{subst}
use amalgam_asm.Util.Map
use amalgam_asm.Util.Map.{HashMap, Entry}
use amalgam_asm.Util.Map.Laws.{IsValid, view, update}
use amalgam_asm.Util.Map.Writes.{put-Stores}
use amalgam_asm.Asm.State.{
  ok, err, Env, Symbol, helper_symbol_set, helper_symbol_global, globalize, was_global, new_str,
}
use amalgam_asm.Asm.Ensures.{Ensures, done, bind, post}
use amalgam_asm.Asm.Yard.{settle, conclude, helper_expr_parse}
use amalgam_asm.Asm.Yard.Total.{parse_expr-Ensures}
use amalgam_asm.Asm.Data.{parse_equ}
use amalgam_asm.Asm.Expr.{parse_lit, starts_digit, symbol_value}

-- The symbol under a name.
abbrev pub symbol_of : Env → Text → Option Symbol
symbol_of env name = view env.symbols name

-- What a definition makes of the old symbol.
abbrev defined : Text → ℕ → Option Symbol → Symbol
defined section v old = record { section = some section; value = v; global = was_global old }

symbol_set-view :
    (env : Env) (section name : Text) (v : ℕ)
    → IsValid env.symbols
    → str_eq name (codes ".") ≡ false
    → (q : Text)
    → symbol_of (helper_symbol_set env section name v) q
      ≡ update (symbol_of env) name (some (defined section v (symbol_of env name))) q
unfolding helper_symbol_set view
symbol_set-view env section name v valid no_dot q = rw no_dot (
    (put-Stores env.symbols valid (new_str env name) (defined section v (symbol_of env name))).reads
      q)

symbol_global-view :
    (env : Env) (name : Text)
    → IsValid env.symbols
    → (q : Text)
    → symbol_of (helper_symbol_global env name) q
      ≡ update (symbol_of env) name (some (globalize (symbol_of env name))) q
unfolding helper_symbol_global view
symbol_global-view env name valid q =
    (put-Stores env.symbols valid (new_str env name) (globalize (symbol_of env name))).reads q

symbol_set-IsValid :
    (env : Env) (section name : Text) (v : ℕ)
    → IsValid env.symbols
    → str_eq name (codes ".") ≡ false
    → IsValid (helper_symbol_set env section name v).symbols
unfolding helper_symbol_set view
symbol_set-IsValid env section name v valid no_dot = rw no_dot (
    (put-Stores env.symbols valid (new_str env name)
      (defined section v (symbol_of env name))).valid)

symbol_global-IsValid :
    (env : Env) (name : Text)
    → IsValid env.symbols
    → IsValid (helper_symbol_global env name).symbols
unfolding helper_symbol_global view
symbol_global-IsValid env name valid =
    (put-Stores env.symbols valid (new_str env name) (globalize (symbol_of env name))).valid

-- A second update at the same name hides the first.
hides :
    (b : Bool) (x z v : Option Symbol)
    → (if b then x else (if b then z else v)) ≡ (if b then x else v)
hides true x z v = refl
hides false x z v = refl

-- A symbol that is defined and global.
abbrev pub global_symbol : Text → ℕ → Symbol
global_symbol section v = record { section = some section; value = v; global = true }

global-globalize : (old : Option Symbol) → was_global (some (globalize old)) ≡ true
unfolding globalize
global-globalize none = refl
global-globalize (some s) = refl

global_first :
    (env : Env) (section name : Text) (v : ℕ) (q : Text)
    → IsValid env.symbols
    → str_eq name (codes ".") ≡ false
    → symbol_of (helper_symbol_set (helper_symbol_global env name) section name v) q
      ≡ update (symbol_of env) name (some (global_symbol section v)) q
global_first env section name v q valid no_dot =
    let first = helper_symbol_global env name in
    rw
      (
        symbol_set-view first section name v (symbol_global-IsValid env name valid) no_dot q,
        symbol_global-view env name valid q,
        symbol_global-view env name valid name,
        str_eq_refl name,
        global-globalize (symbol_of env name),
      )
      (hides (str_eq q name) _ _ _)

global_last :
    (env : Env) (section name : Text) (v : ℕ) (q : Text)
    → IsValid env.symbols
    → str_eq name (codes ".") ≡ false
    → symbol_of (helper_symbol_global (helper_symbol_set env section name v) name) q
      ≡ update (symbol_of env) name (some (global_symbol section v)) q
unfolding globalize
global_last env section name v q valid no_dot =
    let first = helper_symbol_set env section name v in
    rw
      (
        symbol_global-view first name (symbol_set-IsValid env section name v valid no_dot) q,
        symbol_set-view env section name v valid no_dot q,
        symbol_set-view env section name v valid no_dot name,
        str_eq_refl name,
      )
      (hides (str_eq q name) _ _ _)

-- A definition of a symbol and `.globl` of it, in either order, leave the symbol global, with the
-- section and the value of the definition, and every other name with the symbol that it had. The
-- map satisfies its invariant, and the name is not `.`.
pub symbol_set-symbol_global :
    (env : Env) (section name : Text) (v : ℕ) (q : Text)
    → IsValid env.symbols
    → str_eq name (codes ".") ≡ false
    → (symbol_of (helper_symbol_set (helper_symbol_global env name) section name v) q
        ≡ update (symbol_of env) name (some (global_symbol section v)) q)
      × (symbol_of (helper_symbol_global (helper_symbol_set env section name v) name) q
          ≡ update (symbol_of env) name (some (global_symbol section v)) q)
symbol_set-symbol_global env section name v q valid no_dot =
    (global_first env section name v q valid no_dot, global_last env section name v q valid no_dot)

parse_lit-found :
    (env : Env) (name : Text) (s : Symbol)
    → str_eq name (codes ".") ≡ false
    → starts_digit name ≡ false
    → symbol_of env name ≡ some s
    → parse_lit env name ≡ symbol_value s s.section
unfolding parse_lit view
parse_lit-found env name s no_dot no_digit found = elim (Option-cases (Map.get env.symbols name)) [
  | inl absent ↦ let bad : none ≡ some s = sym (ap (Option.map (λ e. e.value)) absent) ∙ found in cc
  | inr (e, there) ↦
      rw (no_dot, no_digit, there)
        (let same : some e.value ≡ some s = sym (ap (Option.map (λ e. e.value)) there) ∙ found in
          cc)
]

parse_lit-symbol_set :
    (env : Env) (name : Text) (v : ℕ)
    → IsValid env.symbols
    → str_eq name (codes ".") ≡ false
    → starts_digit name ≡ false
    → parse_lit (helper_symbol_set env (codes "absolute") name v) name ≡ ok (v, false)
unfolding symbol_value str_eq
parse_lit-symbol_set env name v valid no_dot no_digit =
    let e = helper_symbol_set env (codes "absolute") name v in
    parse_lit-found e name (defined (codes "absolute") v (symbol_of env name)) no_dot no_digit
      (rw (symbol_set-view env (codes "absolute") name v valid no_dot name, str_eq_refl name) refl)

settle-symbols :
    (t : Option Text) (callback : Bool) (env : Env)
    → (settle 0 0 t callback env).1.symbols ≡ env.symbols
unfolding settle err
settle-symbols none callback env = refl
settle-symbols (some t) false env = refl
settle-symbols (some t) true env = refl

-- The value of an expression is worked out without a change of the symbols.
expr-symbols :
    (env : Env) (expr : Text)
    → Ensures (λ r. r.1.symbols ≡ env.symbols) (helper_expr_parse env expr 0 0)
unfolding helper_expr_parse conclude
expr-symbols env expr =
    bind (parse_expr-Ensures expr env)
      λ p k. done (settle-symbols p.text p.callback p.env ∙ k.symbols)

-- `.equ` of a name to an expression that has a value ends; from then on `_parse_lit` reads that value
-- under the name, whatever was there before, and every other name has the symbol that it had. The
-- map satisfies its invariant; the name is not `.` and starts with no digit.
pub parse_lit-parse_equ :
    (env env' : Env) (name expr : Text) (v : ℕ)
    → IsValid env.symbols
    → str_eq name (codes ".") ≡ false
    → starts_digit name ≡ false
    → helper_expr_parse env expr 0 0 ≡ ok (v, env')
    → (after : Env) × (parse_equ (name ∷ expr ∷ []) env ≡ ok after)
      × (parse_lit after name ≡ ok (v, false))
      × ((q : Text) → str_eq q name ≡ false → symbol_of after q ≡ symbol_of env q)
unfolding parse_equ view
parse_lit-parse_equ env env' name expr v valid no_dot no_digit value =
    let same : env'.symbols ≡ env.symbols = post (expr-symbols env expr) value in
    let valid' : IsValid env'.symbols = subst IsValid (sym same) valid in
    (
      helper_symbol_set env' (codes "absolute") name v,
      rw value refl,
      parse_lit-symbol_set env' name v valid' no_dot no_digit,
      λ q other.
          symbol_set-view env' (codes "absolute") name v valid' no_dot q
          ∙ rw other (ap (λ m. view m q) same),
    )
