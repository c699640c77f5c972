-- ===== src/Asm/Statement.antt =====
-- The loop body of `compile` in src/compile.c: one line, either carried out or put by for the block
-- that is open.
pub mod Layout
pub mod Kept
pub mod Lines
pub mod Macros
use amalgam_asm.Base.{
  ℕ, zero, suc, ◌+◌, ◌==◌, ltb, Bool, true, false, not, ◌&&◌, ◌||◌, Option, none, some, List, [],
  ◌∷◌, ◌++◌, if◌then◌else◌, length,
}
use amalgam_asm.Base.Text.{Text, codes, str_eq}
use amalgam_asm.Util.Map
use amalgam_asm.Util.Map.{HashMap, Entry}
use amalgam_asm.Asm.State.{
  Run, ok, fault, ◌>>=◌, Env, Symbol, err, current, set_current, helper_symbol_set,
  helper_section_add,
}
use amalgam_asm.Asm.Yard.{helper_expr_parse}
use amalgam_asm.Asm.Data.{
  Args, arg, parse_int, parse_ascii, parse_asciz, parse_skip, parse_fill, parse_align, parse_org,
  parse_equ, parse_equiv, parse_lcomm, parse_globl,
}
use amalgam_asm.Asm.Insn.{without_last, first_is}
use amalgam_asm.Asm.World.{World}
use amalgam_asm.Asm.Table
use amalgam_asm.Asm.Table.{lookup, encode, mnemonics, directives, parse_float, parse_double}
use amalgam_asm.Asm.Source.{line, starts_with}
use amalgam_asm.Asm.Control.{
  Assembly, Frame, in_macro, in_irp, in_irpc, if_off, if_on, split_equals, parse_macro, parse_irp,
  parse_irpc, parse_include, parse_ifdef, parse_ifndef, parse_if, parse_else, parse_endif,
  parse_endm, parse_endr, parse_macro_sub, parse_err,
}

-- How a line ends: the loop goes on, a file is opened (`goto skip`), or `compile` returns 0.
pub data After : Type 0 where
  continues reopens : Assembly → After
  gives_up : Env → After

abbrev pub with_env : Assembly → Env → After
with_env a env = continues (record a { env = env })

abbrev give_up : Text → Assembly → After
give_up message a = gives_up (err message a.env)

-- The first `:` is the last character.
unfoldable pub is_label : Text → Bool
is_label [] = false
is_label (c ∷ s) =
    let rest = is_label s in if c == b':' then (elim s [ [] ↦ true | _ ∷ _ ↦ false ]) else rest

-- A symbol that `.globl` alone made still has no section.
unfoldable pub is_bound : Option (Entry Symbol) → Bool
is_bound none = false
is_bound (some e) = elim e.value.section [ none ↦ false | some section ↦ true ]

unfoldable pub define_label : Env → Text → Env
unfolding is_bound
define_label env symbol =
    if is_bound (Map.get env.symbols symbol)
    then env
    else helper_symbol_set env (current env).name symbol (current env).address

-- The labels in front of a line are defined; the words behind them are left.
unfoldable pub take_labels : Args → Env → Args × Env
unfolding is_label define_label
take_labels [] env = ([], env)
take_labels (word ∷ args) env =
    let rest = take_labels args (define_label env (without_last word)) in
    if is_label word then rest else (word ∷ args, env)

unfoldable pub assign : Text × Text → Assembly → Run After
assign (symbol, expr) a = do
  (v, env') ← helper_expr_parse a.env expr 0 0
  ok (with_env a (helper_symbol_set env' (codes "absolute") symbol v))

unfoldable pub switch_section : Text → Assembly → After
switch_section name a =
    let r = helper_section_add a.env a.sections name (some a.env.section) in
    continues (record a { env = record r.0 { section = r.2 }; sections = r.1 })

unfoldable pub set_bitness : ℕ → Assembly → After
set_bitness n a = with_env a (set_current a.env (record (current a.env) { bitness = n }))

-- `ERR_NONE(name, 0)` in front of a directive without operands.
abbrev plain : Text → Args → Assembly → After → After
plain name args a after =
    if not (length args == 0) then give_up (name ++ codes " requires no operands") a else after

unfoldable pub comm : Bool → Args → Assembly → Run After
comm global args a = do
  r ← parse_lcomm args a.env a.sections global
  ok (continues (record a { env = r.0; sections = r.1 }))

abbrev on_env : Assembly → Run Env → Run After
on_env a r = r >>= λ env. ok (with_env a env)

abbrev begin : Frame → Assembly → After
begin frame a = continues (record a { history = frame ∷ a.history })

unfoldable pub run_directive : World → Table.Directive → Args → Assembly → Run After
unfolding comm switch_section set_bitness
run_directive w (Table.int_data size) args a = on_env a (parse_int args a.env size)
run_directive w Table.float_data args a = ok (with_env a (parse_float w args a.env))
run_directive w Table.double_data args a = ok (with_env a (parse_double w args a.env))
run_directive w Table.ascii args a = on_env a (parse_ascii args a.env)
run_directive w Table.asciz args a = on_env a (parse_asciz args a.env)
run_directive w Table.skip args a = ok (with_env a (parse_skip args a.env))
run_directive w Table.fill args a = on_env a (parse_fill args a.env)
run_directive w Table.align args a = ok (with_env a (parse_align args a.env))
run_directive w Table.org args a = ok (with_env a (parse_org args a.env))
run_directive w Table.equ args a = on_env a (parse_equ args a.env)
run_directive w Table.equiv args a = on_env a (parse_equiv args a.env)
run_directive w Table.include args a = parse_include w args a >>= λ b. ok (reopens b)
run_directive w Table.error args a = ok (with_env a (parse_err args a.env))
run_directive w Table.if_def args a = ok (continues (parse_ifdef args a))
run_directive w Table.if_ndef args a = ok (continues (parse_ifndef args a))
run_directive w Table.if_expr args a = parse_if args a >>= λ b. ok (continues b)
run_directive w Table.macro args a = ok (begin in_macro (parse_macro args a))
run_directive w Table.irp args a = ok (begin in_irp (parse_irp args a))
run_directive w Table.irpc args a = ok (begin in_irpc (parse_irpc args a))
run_directive w Table.section args a = ok (
    if not (length args == 1)
    then give_up (codes ".section requires 1 operand(s)") a
    else if not (first_is b'.' (arg args 0))
    then give_up (codes ".section operand must start from '.'") a
    else switch_section (arg args 0) a)
run_directive w Table.data_section args a =
    ok (plain (codes ".data") args a (switch_section (codes ".data") a))
run_directive w Table.text_section args a =
    ok (plain (codes ".text") args a (switch_section (codes ".text") a))
run_directive w Table.code_16 args a = ok (plain (codes ".code16") args a (set_bitness 0 a))
run_directive w Table.code_32 args a = ok (plain (codes ".code32") args a (set_bitness 1 a))
run_directive w Table.comm args a = comm true args a
run_directive w Table.lcomm args a = comm false args a
run_directive w Table.globl args a = ok (with_env a (parse_globl args a.env))

unfoldable pub run_insn : World → Text → Args → Assembly → Run After
run_insn w word args a = elim (Map.get a.macros word) [
  | some e ↦ parse_macro_sub args word e.value a >>= λ b. ok (reopens b)
  | none ↦ elim (lookup word mnemonics) [
    | some form ↦ on_env a (encode w form args a.env)
    | none ↦ ok (give_up (codes "Invalid instruction") a)
  ]
]

unfoldable pub run_dot : World → Text → Args → Assembly → Run After
unfolding run_directive
run_dot w word args a = elim (lookup word directives) [
  | some directive ↦ run_directive w directive args a
  | none ↦ ok (give_up (codes "Unknown directive") a)
]

-- The three kinds of a statement.
unfoldable pub statement : World → Text → Args → Assembly → Run After
unfolding assign run_dot run_insn
statement w word args a = elim (split_equals word) [
  | some r ↦ assign r a
  | none ↦ if first_is b'.' word then run_dot w word args a else run_insn w word args a
]

-- A line where no block is open.
unfoldable pub carry_out : World → Args → Assembly → Run After
unfolding take_labels statement
carry_out w args a =
    let r = take_labels args a.env in
    let b : Assembly = record a { env = r.1 } in
    elim r.0 [ [] ↦ ok (continues b) | word ∷ rest ↦ statement w word rest b ]

-- The first character of a string on `history`.
unfoldable pub kind : Frame → ℕ
kind in_macro = b'm'
kind in_irp = b'r'
kind in_irpc = b'r'
kind if_off = b'i'
kind if_on = b'i'

-- The first word that is no label.
unfoldable pub keyword : Args → Option Text
keyword [] = none
keyword (word ∷ args) = let rest = keyword args in if is_label word then rest else some word

-- A block of the same kind begins inside.
unfoldable pub nests : Text → Frame → Bool
unfolding kind
nests word frame =
    (starts_with (codes ".if") word && kind frame == b'i')
    || (str_eq word (codes ".macro") && kind frame == b'm')
    || (starts_with (codes ".irp") word && kind frame == b'r')

-- `.end` and the letter of the block, behind four characters.
unfoldable pub closes : Text → Frame → Bool
unfolding kind
closes (a ∷ b ∷ c ∷ d ∷ e ∷ word) frame =
    starts_with (codes ".end") (a ∷ b ∷ c ∷ d ∷ e ∷ word) && e == kind frame
closes _ frame = false

abbrev pub put_by : Args → Assembly → After
put_by args a = continues (record a { dl = a.dl ++ line args ∷ [] })

-- A line inside of a block, with the innermost frame and those around it.
unfoldable pub collect : Args → Text → Frame → List Frame → Assembly → Run After
unfolding nests closes
collect args word frame frames a =
    let inner : Assembly = record a { history = frame ∷ frame ∷ frames } in
    let outer : Assembly = record a { history = frames } in
    let alone = length frames == 0 in
    if nests word frame
    then ok (put_by args inner)
    else if str_eq word (codes ".else") && kind frame == b'i' && alone
    then ok (continues (parse_else a))
    else if closes word frame && not alone
    then ok (put_by args outer)
    else if str_eq word (codes ".endif") && kind frame == b'i'
    then ok (reopens (parse_endif outer))
    else if str_eq word (codes ".endm") && kind frame == b'm'
    then (parse_endm outer >>= λ b. ok (continues b))
    else if str_eq word (codes ".endr") && kind frame == b'r'
    then (parse_endr frame outer >>= λ b. ok (reopens b))
    else ok (put_by args a)

-- The loop body, behind the count of the line. A line of labels alone is dropped inside a block.
unfoldable pub process : World → Args → Assembly → Run After
unfolding carry_out keyword collect
process w args a = elim a.history [
  | [] ↦ carry_out w args a
  | frame ∷ frames ↦ elim (keyword args) [
    | none ↦ ok (continues a)
    | some word ↦ collect args word frame frames a
  ]
]
