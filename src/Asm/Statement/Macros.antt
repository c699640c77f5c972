-- ===== src/Asm/Statement/Macros.antt =====
-- The layout behind a macro call and behind the end of a block (src/cmpl_control.c).
use amalgam_asm.Base.{
  ℕ, ◌+◌, ◌==◌, ltb, not, ◌&&◌, Option, none, some, List, [], ◌∷◌, length, Option-cases, inl, inr,
}
use amalgam_asm.Base.Text.{Text, codes, str_eq}
use amalgam_asm.Util.Map
use amalgam_asm.Asm.State.{Run}
use amalgam_asm.Asm.Ensures.{Ensures, done, fails, bind, branch}
use amalgam_asm.Asm.Data.{Args}
use amalgam_asm.Asm.Source.{
  Item, name, number, line, operands, Source, as_name, as_line, as_operands, map_lines,
  helper_file_map,
}
use amalgam_asm.Asm.Layout.{IsLaidOut, err-IsLaidOut}
use amalgam_asm.Asm.Control.{
  Assembly, Frame, if_off, if_on, operand_value, substitute_all, parse_macro_sub, char_text,
  repeat_chars, repeat_operands, is_irpc, parse_else, parse_endif, parse_endm, parse_endr,
}
use amalgam_asm.Asm.Statement.{kind, nests, closes, collect}
use amalgam_asm.Asm.Statement.Lines.{AfterLaidOut}

-- The run ends, in a result or in a fault.
abbrev Ends {ℓ} : {A : Type ℓ} → Run A → Type ℓ
Ends r = Ensures (λ _. Unit {0}) r

as_name-Ends : (x : Item) → Ends (as_name x)
unfolding as_name
as_name-Ends (name t) = done tt
as_name-Ends (number n) = fails
as_name-Ends (line args) = done tt
as_name-Ends (operands os) = done tt

as_line-Ends : (x : Item) → Ends (as_line x)
unfolding as_line
as_line-Ends (name t) = fails
as_line-Ends (number n) = fails
as_line-Ends (line args) = done tt
as_line-Ends (operands os) = fails

as_operands-Ends : (x : Item) → Ends (as_operands x)
unfolding as_operands
as_operands-Ends (name t) = fails
as_operands-Ends (number n) = fails
as_operands-Ends (line args) = fails
as_operands-Ends (operands os) = done tt

map_lines-Ends : (f : Args → Args) (s : Source) → Ends (map_lines f s)
unfolding map_lines
map_lines-Ends f [] = done tt
map_lines-Ends f (x ∷ rest) =
    bind (as_line-Ends x) λ _ _. bind (map_lines-Ends f rest) λ _ _. done tt

helper_file_map-Ends : (f : Args → Args) (s : Source) → Ends (helper_file_map f s)
unfolding helper_file_map
helper_file_map-Ends f [] = fails
helper_file_map-Ends f (x ∷ []) = fails
helper_file_map-Ends f (x ∷ y ∷ lines) =
    bind (as_name-Ends x) λ _ _. bind (map_lines-Ends f lines) λ _ _. done tt

substitute_all-Ends :
    (os : List Text) (args : Args) (i : ℕ) (source : Source)
    → Ends (substitute_all os args i source)
unfolding substitute_all
substitute_all-Ends [] args i source = done tt
substitute_all-Ends (o ∷ os) args i source = elim (Option-cases (operand_value o args i)) [
  | inl lacks ↦ rw (lacks, substitute_all) (done tt)
  | inr (r, found) ↦
      rw (found, substitute_all)
        (bind (helper_file_map-Ends _ source)
          λ source' _. substitute_all-Ends os args (i + 1) source')
]

either_way :
    (result : Option Source) (x : Assembly) (f : Source → Assembly)
    → IsLaidOut x.env
    → ((source : Source) → IsLaidOut (f source).env)
    → IsLaidOut (elim result as (λ _. Assembly) [ none ↦ x | some source ↦ f source ]).env
either_way none x f p q = p
either_way (some source) x f p q = q source

replaced :
    {A : Type 0} (old : Option A) (x y : Assembly)
    → IsLaidOut x.env
    → IsLaidOut y.env
    → IsLaidOut (elim old as (λ _. Assembly) [ none ↦ x | some _ ↦ y ]).env
replaced none x y p q = p
replaced (some _) x y p q = q

-- A call of a macro, complete or not.
pub parse_macro_sub-IsLaidOut :
    (args : Args) (word : Text) (source : Source) (a : Assembly)
    → IsLaidOut a.env
    → Ensures (λ b. IsLaidOut b.env) (parse_macro_sub args word source a)
unfolding parse_macro_sub
parse_macro_sub-IsLaidOut args word [] a h = fails
parse_macro_sub-IsLaidOut args word (x ∷ rest) a h = bind (as_operands-Ends x) λ os _.
    bind (helper_file_map-Ends _ rest) λ copy _.
      bind (substitute_all-Ends os args 0 copy)
        λ result _. done (either_way result _ _ (err-IsLaidOut _ a.env h) (λ source. h))

char_text-Ends : (c : ℕ) → Ends (char_text c)
unfolding char_text
char_text-Ends c = branch (ltb c 128) (done tt) fails

repeat_chars-Ends :
    (source : Source) (symbol s : Text) (files : List (Option Source))
    → Ends (repeat_chars source symbol s files)
unfolding repeat_chars
repeat_chars-Ends source symbol [] files = done tt
repeat_chars-Ends source symbol (c ∷ s) files =
    bind (repeat_chars-Ends source symbol s files) λ later _.
      bind (char_text-Ends c) λ text _. bind (helper_file_map-Ends _ source) λ changed _. done tt

repeat_operands-Ends :
    (source : Source) (symbol : Text) (os : List Text) (files : List (Option Source))
    → Ends (repeat_operands source symbol os files)
unfolding repeat_operands
repeat_operands-Ends source symbol [] files = done tt
repeat_operands-Ends source symbol (o ∷ os) files =
    bind (helper_file_map-Ends _ source)
      λ changed _. repeat_operands-Ends source symbol os (some changed ∷ files)

-- The repetitions go on top of the files.
parse_endr-IsLaidOut :
    (type : Frame) (a : Assembly) (dl : Source)
    → IsLaidOut a.env
    → Ensures (λ b. IsLaidOut b.env) (parse_endr type (record a { dl = dl }))
unfolding parse_endr
parse_endr-IsLaidOut type a [] h = fails
parse_endr-IsLaidOut type a (x ∷ []) h = fails
parse_endr-IsLaidOut type a (x ∷ os ∷ body) h = bind (as_name-Ends x) λ symbol _.
    bind {P = λ _. Unit {0}}
      (branch (is_irpc type) (bind (as_name-Ends os) λ text _. repeat_chars-Ends body symbol text _)
        (bind (as_operands-Ends os) λ list _. repeat_operands-Ends body symbol list _))
      λ files' _. done h

parse_endm-IsLaidOut :
    (a : Assembly) (dl : Source)
    → IsLaidOut a.env
    → Ensures (λ b. IsLaidOut b.env) (parse_endm (record a { dl = dl }))
unfolding parse_endm
parse_endm-IsLaidOut a [] h = fails
parse_endm-IsLaidOut a (x ∷ xs) h = bind (as_name-Ends x) λ label _. done (
    replaced (Map.put a.macros (record { address = a.env.fresh; text = label }) xs).1 _ _
      (record { at = h.at })
      (err-IsLaidOut _ (record a.env { fresh = a.env.fresh + 1 }) (record { at = h.at })))

parse_else-IsLaidOut :
    (a : Assembly) (history : List Frame)
    → IsLaidOut a.env
    → IsLaidOut (parse_else (record a { history = history })).env
unfolding parse_else
parse_else-IsLaidOut a [] h = h
parse_else-IsLaidOut a (if_off ∷ frames) h = h
parse_else-IsLaidOut a (if_on ∷ frames) h = h
parse_else-IsLaidOut a (_ ∷ frames) h = h

-- A line inside a block.
pub collect-IsLaidOut :
    (args : Args) (word : Text) (frame : Frame) (frames : List Frame) (a : Assembly)
    → IsLaidOut a.env
    → Ensures AfterLaidOut (collect args word frame frames a)
unfolding collect parse_endif
collect-IsLaidOut args word frame frames a h =
    let alone = length frames == 0 in
    let outer : Assembly = record a { history = frames } in
    branch (nests word frame) (done h) (
      branch (str_eq word (codes ".else") && kind frame == b'i' && alone)
        (done (parse_else-IsLaidOut a a.history h))
        (branch (closes word frame && not alone) (done h) (
          branch (str_eq word (codes ".endif") && kind frame == b'i') (done h) (
            branch (str_eq word (codes ".endm") && kind frame == b'm')
              (bind (parse_endm-IsLaidOut outer a.dl h) λ b laid. done laid)
              (branch (str_eq word (codes ".endr") && kind frame == b'r')
                (bind (parse_endr-IsLaidOut frame outer a.dl h) λ b laid. done laid) (done h))))))
