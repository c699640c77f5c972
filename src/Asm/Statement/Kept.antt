-- ===== src/Asm/Statement/Kept.antt =====
-- The layout behind the loop body of `compile` (src/compile.c).
use amalgam_asm.Base.{
  ◌≡◌, ◌==◌, Bool, true, false, not, Option, none, some, List, [], ◌∷◌, if◌then◌else◌, length,
  Bool-cases, Option-cases, inl, inr,
}
use amalgam_asm.Base.Text.{Text, codes}
use amalgam_asm.Util.Map
use amalgam_asm.Util.Map.{HashMap, Entry}
use amalgam_asm.Asm.State.{Run, ok, ◌>>=◌, Env, err}
use amalgam_asm.Asm.Ensures.{Ensures, done, bind, branch}
use amalgam_asm.Asm.Data.{Args, arg}
use amalgam_asm.Asm.Insn.{first_is, without_last}
use amalgam_asm.Asm.Lexer.Lines.{helper_file_parse-ends}
use amalgam_asm.Asm.World.{World}
use amalgam_asm.Asm.Table
use amalgam_asm.Asm.Table.{Form, lookup, encode, mnemonics, directives, parse_float, parse_double}
use amalgam_asm.Asm.Layout.{IsLaidOut, err-IsLaidOut}
use amalgam_asm.Asm.Layout.Directives
use amalgam_asm.Asm.Control.{Assembly, Frame, split_equals, parse_include, read_file}
use amalgam_asm.Asm.Statement.{
  After, continues, gives_up, with_env, take_labels, is_label, define_label, keyword, collect,
  process, run_directive, run_insn, run_dot, statement, carry_out,
}
use amalgam_asm.Asm.Statement.Layout.{is_shift, encode-IsLaidOut, IsSized, parse_real-IsLaidOut}
use amalgam_asm.Asm.Statement.Lines
use amalgam_asm.Asm.Statement.Lines.{AfterLaidOut}
use amalgam_asm.Asm.Statement.Macros.{parse_macro_sub-IsLaidOut, collect-IsLaidOut}

-- Reading a file ends.
pub read_file-ends : (w : World) (o_name : Text) → Ensures (λ _. Unit {0}) (read_file w o_name)
unfolding read_file
read_file-ends w o_name =
    let (lines, e) = helper_file_parse-ends (w.get_file o_name) in rw e (done tt)

parse_include-IsLaidOut :
    (w : World) (args : Args) (a : Assembly)
    → IsLaidOut a.env
    → Ensures (λ b. IsLaidOut b.env) (parse_include w args a)
unfolding parse_include
parse_include-IsLaidOut w args a h =
    branch (not (length args == 1)) (done (err-IsLaidOut _ a.env h))
      (bind (read_file-ends w (arg args 0)) λ _ _. done h)

module _ (w : World) (sized : IsSized w) (args : Args) (a : Assembly) (h : IsLaidOut a.env) where
  plain-IsLaidOut :
      (name : Text) (after : After)
      → Lines.AfterLaidOut after
      → Lines.AfterLaidOut (if not (length args == 0) then gives_up (err name a.env) else after)
  plain-IsLaidOut name after laid =
      Lines.either (not (length args == 0)) _ after (err-IsLaidOut name a.env h) laid

  -- Every directive keeps every section's address the number of its bytes, modulo 2 ^ 64, whatever
  -- the operands are; it ends, if not in a fault.
  pub run_directive-IsLaidOut :
      (directive : Table.Directive) → Ensures Lines.AfterLaidOut (run_directive w directive args a)
  unfolding run_directive parse_float Table.parse_real parse_double
  run_directive-IsLaidOut (Table.int_data size) =
      Lines.on_env-IsLaidOut a h (Directives.parse_int-IsLaidOut args a.env size h)
  run_directive-IsLaidOut Table.float_data =
      done (parse_real-IsLaidOut 4 w.float_bytes args a.env sized.float h)
  run_directive-IsLaidOut Table.double_data =
      done (parse_real-IsLaidOut 8 w.double_bytes args a.env sized.double h)
  run_directive-IsLaidOut Table.ascii =
      Lines.on_env-IsLaidOut a h (Directives.parse_ascii-IsLaidOut args a.env h)
  run_directive-IsLaidOut Table.asciz =
      Lines.on_env-IsLaidOut a h (Directives.parse_asciz-IsLaidOut args a.env h)
  run_directive-IsLaidOut Table.skip = done (Directives.parse_skip-IsLaidOut args a.env h)
  run_directive-IsLaidOut Table.fill =
      Lines.on_env-IsLaidOut a h (Directives.parse_fill-IsLaidOut args a.env h)
  run_directive-IsLaidOut Table.align = done (Directives.parse_align-IsLaidOut args a.env h)
  run_directive-IsLaidOut Table.org = done (Directives.parse_org-IsLaidOut args a.env h)
  run_directive-IsLaidOut Table.equ =
      Lines.on_env-IsLaidOut a h (Directives.parse_equ-IsLaidOut args a.env h)
  run_directive-IsLaidOut Table.equiv =
      Lines.on_env-IsLaidOut a h (Directives.parse_equiv-IsLaidOut args a.env h)
  run_directive-IsLaidOut Table.include =
      bind (parse_include-IsLaidOut w args a h) λ b laid. done laid
  run_directive-IsLaidOut Table.error = done (Lines.parse_err-IsLaidOut a h args)
  run_directive-IsLaidOut Table.if_def = done (Lines.parse_ifdef-IsLaidOut a h args)
  run_directive-IsLaidOut Table.if_ndef = done (Lines.parse_ifndef-IsLaidOut a h args)
  run_directive-IsLaidOut Table.if_expr =
      bind (Lines.parse_if-IsLaidOut a h args) λ b laid. done laid
  run_directive-IsLaidOut Table.macro = done (Lines.parse_macro-IsLaidOut a h args)
  run_directive-IsLaidOut Table.irp = done (Lines.parse_irp-IsLaidOut a h args)
  run_directive-IsLaidOut Table.irpc = done (Lines.parse_irpc-IsLaidOut a h args)
  run_directive-IsLaidOut Table.section = done (
      Lines.either (not (length args == 1)) _ _ (err-IsLaidOut _ a.env h) (
        Lines.either (not (first_is b'.' (arg args 0))) _ _ (err-IsLaidOut _ a.env h)
          (Lines.switch_section-IsLaidOut a h (arg args 0))))
  run_directive-IsLaidOut Table.data_section =
      done (plain-IsLaidOut _ _ (Lines.switch_section-IsLaidOut a h (codes ".data")))
  run_directive-IsLaidOut Table.text_section =
      done (plain-IsLaidOut _ _ (Lines.switch_section-IsLaidOut a h (codes ".text")))
  run_directive-IsLaidOut Table.code_16 =
      done (plain-IsLaidOut _ _ (Lines.set_bitness-IsLaidOut a h 0))
  run_directive-IsLaidOut Table.code_32 =
      done (plain-IsLaidOut _ _ (Lines.set_bitness-IsLaidOut a h 1))
  run_directive-IsLaidOut Table.comm = Lines.comm-IsLaidOut a h true args
  run_directive-IsLaidOut Table.lcomm = Lines.comm-IsLaidOut a h false args
  run_directive-IsLaidOut Table.globl = done (Directives.parse_globl-IsLaidOut args a.env h)

-- The word is no mnemonic of a shift or bit instruction.
unfoldable pub shifts : Text → Bool
unfolding is_shift
shifts word = elim (lookup word mnemonics) [ none ↦ false | some form ↦ is_shift form ]

abbrev pub NoShift : Args → Type 0
NoShift [] = Unit
NoShift (word ∷ args) = (shifts word ≡ false) × NoShift args

-- The words behind the labels.
left_words : (args : Args) (env : Env) → NoShift args → NoShift (take_labels args env).0
unfolding take_labels
left_words [] env h = tt
left_words (word ∷ args) env h = elim (Bool-cases (is_label word)) [
  | inl label ↦ rw label (left_words args (define_label env (without_last word)) h.1)
  | inr other ↦ rw other h
]

module _ (w : World) (sized : IsSized w) where
  module _ (word : Text) (args : Args) (a : Assembly) (h : IsLaidOut a.env) where
    -- What the table has for the word.
    encoded :
        (found : Option Form)
        → elim found as (λ _. Bool) [ none ↦ false | some form ↦ is_shift form ] ≡ false
        → Ensures AfterLaidOut (elim found as (λ _. Run After) [
          | none ↦ ok (gives_up (err (codes "Invalid instruction") a.env))
          | some form ↦ encode w form args a.env >>= λ env. ok (with_env a env)
        ])
    encoded none plain = done (err-IsLaidOut _ a.env h)
    encoded (some form) plain =
        Lines.on_env-IsLaidOut a h (encode-IsLaidOut w form args a.env plain h)

    run_insn-IsLaidOut : shifts word ≡ false → Ensures AfterLaidOut (run_insn w word args a)
    unfolding run_insn shifts
    run_insn-IsLaidOut plain = elim (Option-cases (Map.get a.macros word)) [
      | inr (e, found) ↦
          rw (found, run_insn)
            (bind (parse_macro_sub-IsLaidOut args word e.value a h) λ b laid. done laid)
      | inl none_such ↦ rw (none_such, run_insn) (encoded (lookup word mnemonics) plain)
    ]

    run_dot-IsLaidOut : Ensures AfterLaidOut (run_dot w word args a)
    unfolding run_dot
    run_dot-IsLaidOut = elim (Option-cases (lookup word directives)) [
      | inr (directive, found) ↦
          rw (found, run_dot) (run_directive-IsLaidOut w sized args a h directive)
      | inl unknown ↦ rw (unknown, run_dot) (done (err-IsLaidOut _ a.env h))
    ]

    statement-IsLaidOut : shifts word ≡ false → Ensures AfterLaidOut (statement w word args a)
    unfolding statement
    statement-IsLaidOut plain = elim (Option-cases (split_equals word)) [
      | inr (r, found) ↦ rw (found, statement) (Lines.assign-IsLaidOut a h r)
      | inl no_equals ↦
          rw (no_equals, statement)
            (branch (first_is b'.' word) run_dot-IsLaidOut (run_insn-IsLaidOut plain))
    ]

  first_word :
      (words : Args) (a : Assembly)
      → NoShift words
      → IsLaidOut a.env
      → Ensures AfterLaidOut (elim words as (λ _. Run After) [
        | [] ↦ ok (continues a)
        | word ∷ rest ↦ statement w word rest a
      ])
  first_word [] a plain h = done h
  first_word (word ∷ rest) a plain h = statement-IsLaidOut word rest a h plain.0

  carry_out-IsLaidOut :
      (args : Args) (a : Assembly)
      → NoShift args
      → IsLaidOut a.env
      → Ensures AfterLaidOut (carry_out w args a)
  unfolding carry_out
  carry_out-IsLaidOut args a plain h =
      first_word (take_labels args a.env).0 (record a { env = (take_labels args a.env).1 })
        (left_words args a.env plain) (Lines.take_labels-IsLaidOut args a.env h)

  collected :
      (args : Args) (found : Option Text) (frame : Frame) (frames : List Frame) (a : Assembly)
      → IsLaidOut a.env
      → Ensures AfterLaidOut (elim found as (λ _. Run After) [
        | none ↦ ok (continues a)
        | some word ↦ collect args word frame frames a
      ])
  collected args none frame frames a h = done h
  collected args (some word) frame frames a h = collect-IsLaidOut args word frame frames a h

  on_history :
      (args : Args) (a : Assembly) (history : List Frame)
      → NoShift args
      → IsLaidOut a.env
      → Ensures AfterLaidOut (process w args (record a { history = history }))
  unfolding process
  on_history args a [] plain h = carry_out-IsLaidOut args (record a { history = [] }) plain h
  on_history args a (frame ∷ frames) plain h =
      collected args (keyword args) frame frames (record a { history = frame ∷ frames }) h

  -- One line keeps every section's address the number of its bytes, modulo 2 ^ 64, whether it is
  -- carried out or put by for an open block, whatever the labels, the statement and its operands
  -- are, if no word of the line is the mnemonic of a shift or bit instruction and the conversions of
  -- reals have their sizes; it ends, if not in a fault.
  pub process-IsLaidOut :
      (args : Args) (a : Assembly)
      → NoShift args
      → IsLaidOut a.env
      → Ensures AfterLaidOut (process w args a)
  process-IsLaidOut args a plain h = on_history args a a.history plain h
