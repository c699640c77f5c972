-- ===== src/Asm/Link/Script.antt =====
-- The layout of the output behind whole linker scripts (link of src/compile.c).
use amalgam_asm.Base.{ℕ, zero, suc, refl, Option, none, some, List, [], ◌∷◌, if◌then◌else◌}
use amalgam_asm.Base.Text.{Text, codes, str_eq}
use amalgam_asm.Util.Map.{HashMap}
use amalgam_asm.Asm.State.{Run, ok, ◌>>=◌, Env, helper_symbol_set}
use amalgam_asm.Asm.Ensures.{Ensures, done, fails, bind, branch}
use amalgam_asm.Asm.Yard.{helper_expr_parse}
use amalgam_asm.Asm.Data.{Args}
use amalgam_asm.Asm.Insn.{first_is}
use amalgam_asm.Asm.World.{World}
use amalgam_asm.Asm.Table.{lookup, parse_float, parse_double}
use amalgam_asm.Asm.Source.{Item, name, number, line, operands, Source, as_name, as_line}
use amalgam_asm.Asm.Control.{split_equals}
use amalgam_asm.Asm.Compile.{read_header}
use amalgam_asm.Asm.Layout.{
  IsLaidOut, SectionLaidOut, total, helper_symbol_set-IsLaidOut, helper_expr_parse-IsLaidOut,
}
use amalgam_asm.Asm.Layout.Directives
use amalgam_asm.Asm.Yard.Total.{section_at}
use amalgam_asm.Asm.Statement.{take_labels}
use amalgam_asm.Asm.Statement.Layout.{IsSized, parse_real-IsLaidOut}
use amalgam_asm.Asm.Statement.Lines.{take_labels-IsLaidOut}
use amalgam_asm.Asm.Statement.Kept.{read_file-ends}
use amalgam_asm.Asm.Link.{
  Image, File, Linker, complain, parse_linker, Placement, int_data, float_data, double_data, ascii,
  asciz, skip, fill, align, org, equ, place, placements, Step, proceeds, stops, link_statement,
  link_line, link_lines, counted, Ending, runs_off, returns_null, link_start, link_script, link,
}
use amalgam_asm.Asm.Link.Layout.{IsLinkable, AllFull, complain-IsLinkable, parse_linker-IsLinkable}

abbrev pub StepLinkable : Step → Type 0
StepLinkable (proceeds l) = IsLinkable l
StepLinkable (stops l) = IsLinkable l

-- However `link` ends.
abbrev pub EndingLinkable : Ending → Type 0
EndingLinkable (runs_off l) = IsLinkable l
EndingLinkable (returns_null l) = IsLinkable l

with_laid :
    (l : Linker) (env : Env) → IsLinkable l → IsLaidOut env → IsLinkable (record l { env = env })
with_laid l env h laid = record { laid = laid; full = h.full }

as_line-ends : (x : Item) → Ensures (λ _. Unit {0}) (as_line x)
unfolding as_line
as_line-ends (name t) = fails
as_line-ends (number n) = fails
as_line-ends (line args) = done tt
as_line-ends (operands os) = fails

as_name-ends : (x : Item) → Ensures (λ _. Unit {0}) (as_name x)
unfolding as_name
as_name-ends (name t) = done tt
as_name-ends (number n) = fails
as_name-ends (line args) = done tt
as_name-ends (operands os) = done tt

read_header-ends : (w : World) (source : Source) → Ensures (λ _. Unit {0}) (read_header w source)
unfolding read_header
read_header-ends w [] = done tt
read_header-ends w (x ∷ []) = bind (as_name-ends x) λ _ _. done tt
read_header-ends w (x ∷ y ∷ rest) = bind (as_name-ends x) λ _ _. done tt

start_at :
    (file : Text) (n : ℕ) (errors : List Text) (images : List Image) (i : ℕ)
    → SectionLaidOut (section_at (link_start file n errors images).env i)
unfolding link_start total
start_at file n errors images zero = refl
start_at file n errors images (suc i) = refl

link_start-IsLinkable :
    (file : Text) (n : ℕ) (errors : List Text) (images : List Image)
    → AllFull images
    → IsLinkable (link_start file n errors images)
unfolding link_start
link_start-IsLinkable file n errors images full = record {
  laid = record { at = start_at file n errors images };
  full = full;
}

module _ (w : World) (sized : IsSized w) where
  place-IsLaidOut :
      (p : Placement) (args : Args) (env : Env)
      → IsLaidOut env
      → Ensures IsLaidOut (place w p args env)
  unfolding place parse_float parse_double
  place-IsLaidOut (int_data size) args env h = Directives.parse_int-IsLaidOut args env size h
  place-IsLaidOut float_data args env h =
      done (parse_real-IsLaidOut 4 w.float_bytes args env sized.float h)
  place-IsLaidOut double_data args env h =
      done (parse_real-IsLaidOut 8 w.double_bytes args env sized.double h)
  place-IsLaidOut ascii args env h = Directives.parse_ascii-IsLaidOut args env h
  place-IsLaidOut asciz args env h = Directives.parse_asciz-IsLaidOut args env h
  place-IsLaidOut skip args env h = done (Directives.parse_skip-IsLaidOut args env h)
  place-IsLaidOut fill args env h = Directives.parse_fill-IsLaidOut args env h
  place-IsLaidOut align args env h = done (Directives.parse_align-IsLaidOut args env h)
  place-IsLaidOut org args env h = done (Directives.parse_org-IsLaidOut args env h)
  place-IsLaidOut equ args env h = Directives.parse_equ-IsLaidOut args env h

  module _ (files : HashMap File) where
    placed :
        (found : Option Placement) (args : Args) (l : Linker)
        → IsLinkable l
        → Ensures StepLinkable (elim found as (λ _. Run Step) [
          | some p ↦ place w p args l.env >>= λ env. ok (proceeds (record l { env = env }))
          | none ↦ ok (stops (complain (codes "Invalid directive") l))
        ])
    placed none args l h = done (complain-IsLinkable _ l h)
    placed (some p) args l h =
        bind (place-IsLaidOut p args l.env h.laid) λ env laid. done (with_laid l env h laid)

    dispatched :
        (found : Option (Text × Text)) (word : Text) (args : Args) (l : Linker)
        → IsLinkable l
        → Ensures StepLinkable (elim found as (λ _. Run Step) [
          | some r ↦ helper_expr_parse l.env r.1 0 0 >>= λ v.
              ok (proceeds (record l { env = helper_symbol_set v.1 (codes "absolute") r.0 v.0 }))
          | none ↦
              if first_is b'.' word
              then elim (lookup word placements) as (λ _. Run Step) [
                | some p ↦ place w p args l.env >>= λ env. ok (proceeds (record l { env = env }))
                | none ↦ ok (stops (complain (codes "Invalid directive") l))
              ]
              else if str_eq word (codes "file")
              then (parse_linker args files l >>= λ next. ok (proceeds next))
              else ok (stops (complain (codes "Invalid instruction") l))
        ])
    dispatched (some r) word args l h =
        bind (helper_expr_parse-IsLaidOut l.env r.1 0 0 h.laid)
          λ v laid. done (with_laid l _ h (helper_symbol_set-IsLaidOut v.1 _ r.0 v.0 laid))
    dispatched none word args l h =
        branch (first_is b'.' word) (placed (lookup word placements) args l h) (
          branch (str_eq word (codes "file"))
            (bind (parse_linker-IsLinkable args files l h) λ next after. done after)
            (done (complain-IsLinkable _ l h)))

    link_statement-IsLinkable :
        (word : Text) (args : Args) (l : Linker)
        → IsLinkable l
        → Ensures StepLinkable (link_statement w word args files l)
    unfolding link_statement
    link_statement-IsLinkable word args l h = dispatched (split_equals word) word args l h

    first_word :
        (words : Args) (l : Linker)
        → IsLinkable l
        → Ensures StepLinkable (elim words as (λ _. Run Step) [
          | [] ↦ ok (proceeds l)
          | word ∷ rest ↦ link_statement w word rest files l
        ])
    first_word [] l h = done h
    first_word (word ∷ rest) l h = link_statement-IsLinkable word rest l h

    link_line-IsLinkable :
        (args : Args) (l : Linker) → IsLinkable l → Ensures StepLinkable (link_line w args files l)
    unfolding link_line
    link_line-IsLinkable args l h =
        first_word (take_labels args l.env).0 (record l { env = (take_labels args l.env).1 })
          (with_laid l _ h (take_labels-IsLaidOut args l.env h.laid))

    stepped :
        (rest : Source)
        → ((l : Linker) → IsLinkable l → Ensures EndingLinkable (link_lines w files rest l))
        → (step : Step) → StepLinkable step
        → Ensures EndingLinkable (elim step as (λ _. Run Ending) [
          | proceeds next ↦ link_lines w files rest next
          | stops last ↦ ok (returns_null last)
        ])
    stepped rest go (proceeds l) h = go l h
    stepped rest go (stops l) h = done h

    link_lines-IsLinkable :
        (source : Source) (l : Linker)
        → IsLinkable l
        → Ensures EndingLinkable (link_lines w files source l)
    unfolding link_lines
    link_lines-IsLinkable [] l h = done h
    link_lines-IsLinkable (x ∷ rest) l h = bind (as_line-ends x) λ args _.
        bind (link_line-IsLinkable args (counted l) (with_laid l _ h (record { at = h.laid.at })))
          (stepped rest (link_lines-IsLinkable rest))

    link_script-IsLinkable :
        (errors : List Text) (images : List Image) (source : Option Source)
        → AllFull images
        → Ensures EndingLinkable (link_script w files errors images source)
    unfolding link_script
    link_script-IsLinkable errors images none full = fails
    link_script-IsLinkable errors images (some source) full =
        bind (read_header-ends w source)
          λ r _. link_lines-IsLinkable r.2 _ (link_start-IsLinkable r.0 r.1 errors images full)

    -- A run of link ends, if not in a fault, for every script and all files whose sections have as
    -- many bytes as their sizes say, with the conversions of reals in their sizes; however it
    -- ends, the address of the output is the number of its bytes, modulo 2 ^ 64, and every section
    -- that is still to be linked has as many bytes as its size says.
    pub link-IsLinkable :
        (script : Text) (errors : List Text) (images : List Image)
        → AllFull images
        → Ensures EndingLinkable (link w script files errors images)
    unfolding link
    link-IsLinkable script errors images full =
        bind (read_file-ends w script) λ source _. link_script-IsLinkable errors images source full
