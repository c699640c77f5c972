-- ===== src/Asm/Control.antt =====
-- src/cmpl_control.c: conditionals, macros and repetitions, as functions on the state of `compile`.
-- `ERR_ABOVE` and `ERR_ONLY` return from the function: the state is as it was but for the error.
use amalgam_asm.Base.{
  ℕ, ◌+◌, ◌==◌, ltb, Bool, true, false, not, Option, none, some, List, [], ◌∷◌, if◌then◌else◌,
  length,
}
use amalgam_asm.Base.Text.{Text, codes}
use amalgam_asm.Util.Map
use amalgam_asm.Util.Map.{HashMap, Entry}
use amalgam_asm.Asm.State.{Run, ok, fault, ◌>>=◌, Env, err, new_str}
use amalgam_asm.Asm.Yard.{helper_expr_parse}
use amalgam_asm.Asm.Data.{Args, arg, is_defined}
use amalgam_asm.Asm.Lexer.{helper_file_parse}
use amalgam_asm.Asm.World.{World}
use amalgam_asm.Asm.Source.{
  Item, name, operands, Source, as_name, as_operands, file_of, helper_line_add, helper_reload,
  helper_file_substitute, helper_file_copy,
}

-- The strings on `history`: "m", "rn", "rc", "i0" and "i1".
pub data Frame : Type 0 where
  in_macro in_irp in_irpc if_off if_on : Frame

-- The local variables of `compile`. A file that could not be read is `none`.
pub record Assembly : Type 0 where
  pub env : Env
  pub macros : HashMap Source
  pub sections : HashMap ℕ
  pub files : List (Option Source)
  pub dl : Source
  pub history : List Frame

abbrev pub fail : Text → Assembly → Assembly
fail message a = record a { env = err message a.env }

-- `helper_line_add(_env, dl)` and two more items in front.
abbrev opened : Assembly → Text → Item → Assembly
opened a symbol os = record a { dl = name symbol ∷ os ∷ helper_line_add a.env a.dl }

rest_args : Args → List Text
rest_args [] = []
rest_args (a ∷ args) = args

-- `ll_prepend` in a loop.
backwards : List Text → List Text → List Text
backwards [] acc = acc
backwards (x ∷ xs) acc = backwards xs (x ∷ acc)

unfoldable pub parse_macro : Args → Assembly → Assembly
unfolding rest_args
parse_macro args a =
    if ltb (length args) 1
    then fail (codes ".macro requires at least 1 operand(s)") a
    else opened a (arg args 0) (operands (rest_args args))

unfoldable pub parse_irp : Args → Assembly → Assembly
unfolding rest_args backwards
parse_irp args a =
    if ltb (length args) 1
    then fail (codes ".irp requires at least 1 operand(s)") a
    else opened a (arg args 0) (operands (backwards (rest_args args) []))

-- The operand of `.irpc` stays one string.
unfoldable pub parse_irpc : Args → Assembly → Assembly
parse_irpc args a =
    if not (length args == 2)
    then fail (codes ".irpc requires 2 operand(s)") a
    else opened a (arg args 0) (name (arg args 1))

unfoldable pub read_file : World → Text → Run (Option Source)
read_file w o_name = do
  lines ← helper_file_parse (w.get_file o_name)
  ok (elim lines [ none ↦ none | some ls ↦ some (file_of o_name ls) ])

unfoldable pub parse_include : World → Args → Assembly → Run Assembly
unfolding read_file
parse_include w args a =
    if not (length args == 1) then ok (fail (codes ".include requires 1 operand(s)") a) else do
      file ← read_file w (arg args 0)
      ok (record a { files = file ∷ helper_reload a.env a.files })

-- A condition that holds is on from here; one that does not leaves `dl` without a position.
unfoldable pub begin_if : Bool → Assembly → Assembly
begin_if holds a =
    if holds
    then record a { history = if_on ∷ a.history; dl = helper_line_add a.env a.dl }
    else record a { history = if_off ∷ a.history }

unfoldable pub parse_ifdef : Args → Assembly → Assembly
unfolding begin_if
parse_ifdef args a =
    if not (length args == 1)
    then fail (codes ".ifdef requires 1 operand(s)") a
    else begin_if (is_defined a.env (arg args 0)) a

unfoldable pub parse_ifndef : Args → Assembly → Assembly
unfolding begin_if
parse_ifndef args a =
    if not (length args == 1)
    then fail (codes ".ifndef requires 1 operand(s)") a
    else begin_if (not (is_defined a.env (arg args 0))) a

unfoldable pub parse_if : Args → Assembly → Run Assembly
unfolding begin_if
parse_if args a =
    if not (length args == 1) then ok (fail (codes ".if requires 1 operand(s)") a) else do
      (v, env') ← helper_expr_parse a.env (arg args 0) 0 0
      ok (begin_if (not (v == 0)) (record a { env = env' }))

unfoldable pub parse_else : Assembly → Assembly
parse_else a = elim a.history [
  | [] ↦ a
  | frame ∷ frames ↦ elim frame [
    | if_off ↦ record a { history = if_on ∷ frames; dl = helper_line_add a.env a.dl }
    | if_on ↦ record a { history = if_off ∷ frames }
    | _ ↦ a
  ]
]

-- With the `dl = ll_make()` of its caller.
unfoldable pub parse_endif : Assembly → Assembly
parse_endif a =
    let files = helper_reload a.env a.files in
    record a { files = elim a.dl [ [] ↦ files | x ∷ xs ↦ some (x ∷ xs) ∷ files ]; dl = [] }

-- The same. A list that is empty gives a null label.
unfoldable pub parse_endm : Assembly → Run Assembly
unfolding as_name
parse_endm a = elim a.dl [
  | [] ↦ fault
  | x ∷ xs ↦ do
    label ← as_name x
    let r = Map.put a.macros (new_str a.env label) xs
    let b : Assembly = record a {
      macros = r.0;
      dl = [];
      env = record a.env { fresh = a.env.fresh + 1 };
    }
    ok (elim r.1 [ none ↦ b | some old ↦ fail (codes "macro already exists") b ])
]

-- Up to a `=`, and what follows it; `none` if there is no `=`.
unfoldable pub split_equals : Text → Option (Text × Text)
split_equals [] = none
split_equals (c ∷ s) =
    let rest = split_equals s in
    if c == b'=' then some ([], s) else elim rest [ none ↦ none | some r ↦ some (c ∷ r.0, r.1) ]

-- What an operand of a macro stands for: the text behind its `=`, or the argument at its place.
unfoldable pub operand_value : Text → Args → ℕ → Option (Text × Text)
unfolding split_equals
operand_value operand args i = elim (split_equals operand) [
  | some r ↦ some r
  | none ↦ if ltb i (length args) then some (operand, arg args i) else none
]

-- The loop over the operands; `none` where the call lacks an argument.
unfoldable pub substitute_all : List Text → Args → ℕ → Source → Run (Option Source)
unfolding operand_value
substitute_all [] args i source = ok (some source)
substitute_all (o ∷ os) args i source = elim (operand_value o args i) [
  | none ↦ ok none
  | some r ↦ do
    source' ← helper_file_substitute source r.0 r.1
    substitute_all os args (i + 1) source'
]

-- `_parse_macro_sub`, on the list under the word. Where an argument is missing the operands
-- stay off that list, which is changed in place.
unfoldable pub parse_macro_sub : Args → Text → Source → Assembly → Run Assembly
unfolding substitute_all as_operands
parse_macro_sub args word [] a = fault
parse_macro_sub args word (x ∷ rest) a = do
  os ← as_operands x
  copy ← helper_file_copy rest
  result ← substitute_all os args 0 copy
  ok (elim result [
    | none ↦
        fail (codes "Macro call requires more arguments")
          (record a { macros = (Map.put a.macros (new_str a.env word) rest).0 })
    | some source ↦ record a { files = some source ∷ helper_reload a.env a.files }
  ])

-- A character as a string: it is widened to 16 bits with its sign, so from 128 on no 0 follows.
unfoldable pub char_text : ℕ → Run Text
char_text c = if ltb c 128 then ok (c ∷ []) else fault

-- The loop of `.irpc`, from the last character to the first.
unfoldable pub repeat_chars :
    Source → Text → Text → List (Option Source) → Run (List (Option Source))
unfolding char_text
repeat_chars source symbol [] files = ok files
repeat_chars source symbol (c ∷ s) files = do
  later ← repeat_chars source symbol s files
  text ← char_text c
  changed ← helper_file_substitute source symbol text
  ok (some changed ∷ later)

-- The loop of `.irp`.
unfoldable pub repeat_operands :
    Source → Text → List Text → List (Option Source) → Run (List (Option Source))
repeat_operands source symbol [] files = ok files
repeat_operands source symbol (o ∷ os) files = do
  changed ← helper_file_substitute source symbol o
  repeat_operands source symbol os (some changed ∷ files)

unfoldable pub is_irpc : Frame → Bool
is_irpc in_irpc = true
is_irpc _ = false

-- With the `dl = ll_make()` of its caller.
unfoldable pub parse_endr : Frame → Assembly → Run Assembly
unfolding repeat_chars repeat_operands is_irpc as_operands as_name
parse_endr type a = elim a.dl [
  | [] ↦ fault
  | x ∷ xs ↦ elim xs [
    | [] ↦ fault
    | os ∷ body ↦ do
      symbol ← as_name x
      let files = helper_reload a.env a.files
      files' ←
          if is_irpc type
          then (do text ← as_name os; repeat_chars body symbol text files)
          else (do list ← as_operands os; repeat_operands body symbol list files)
      ok (record a { files = files'; dl = [] })
  ]
]

unfoldable pub parse_err : Args → Env → Env
parse_err args env =
    if not (length args == 1)
    then err (codes ".err requires 1 operand(s)") env
    else err (arg args 0) env
