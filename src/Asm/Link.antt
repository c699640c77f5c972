-- ===== src/Asm/Link.antt =====
-- The linker of src/compile.c: helper_section_link, _parse_linker and link. The sections of all
-- compiled files are objects that `_parse_linker` changes, so a section pointer is an index into a
-- list of them. A key that is an operand gets an address as every new key does.
pub mod Layout
pub mod Walk
pub mod Script
use amalgam_asm.Base.{
  ℕ, zero, suc, ◌+◌, ◌==◌, ltb, Bool, true, false, not, ◌&&◌, ◌||◌, Option, none, some, List, [],
  ◌∷◌, ◌++◌, if◌then◌else◌, length, get_elem?, set,
}
use amalgam_asm.Base.Bits.{u64}
use amalgam_asm.Base.Text.{Text, codes, str_eq}
use amalgam_asm.Util.Map
use amalgam_asm.Util.Map.{HashMap, Entry, Str, make}
use amalgam_asm.Asm.State.{
  Run, ok, fault, ◌>>=◌, Env, Symbol, Section, err, current, add_part, advance, new_str,
  helper_symbol_set,
}
use amalgam_asm.Asm.Yard.{helper_expr_parse}
use amalgam_asm.Asm.Data.{
  Args, arg, parse_int, parse_ascii, parse_asciz, parse_skip, parse_fill, parse_align, parse_org,
  parse_equ,
}
use amalgam_asm.Asm.Insn.{first_is}
use amalgam_asm.Asm.World.{World}
use amalgam_asm.Asm.Table.{lookup, parse_float, parse_double}
use amalgam_asm.Asm.Source.{Item, Source, as_name, as_number, as_line}
use amalgam_asm.Asm.Control.{split_equals, read_file}
use amalgam_asm.Asm.Statement.{take_labels}
use amalgam_asm.Asm.Compile.{read_header}

-- section_t: `data` is null once the section is linked.
pub record Image : Type 0 where
  pub size : ℕ
  pub bytes : Option (List ℕ)

-- compiled_t, with its sections by name.
pub record File : Type 0 where
  pub symbols : HashMap Symbol
  pub sections : HashMap ℕ

-- `_env`, the sections of the files, and `linked`: for each file the addresses of its sections.
pub record Linker : Type 0 where
  pub env : Env
  pub images : List Image
  pub linked : HashMap (HashMap ℕ)

-- The bytes become a part of the output, the section has none any more, and the address is where
-- the output ended.
unfoldable pub helper_section_link : ℕ → Image → List ℕ → Linker → Linker × ℕ
helper_section_link i image bytes l = (
  record l {
    env = advance (add_part l.env l.env.section bytes) l.env.section image.size;
    images = set l.images i (record image { bytes = none });
  },
  (current l.env).address,
)

-- `linked` gets a map for the file, if it has none.
unfoldable pub with_file : Str → HashMap (HashMap ℕ) → HashMap (HashMap ℕ)
with_file file linked = elim (Map.get linked file.text) [
  | some e ↦ linked
  | none ↦ (Map.put linked file make).0
]

-- The address goes into the map of the file, which is changed in place.
unfoldable pub note_address : Str → Str → ℕ → HashMap (HashMap ℕ) → Run (HashMap (HashMap ℕ))
note_address file section address linked =
    let there = with_file file linked in
    elim (Map.get there file.text) [
      | none ↦ fault
      | some e ↦ ok (Map.put there file (Map.put e.value section address).0).0
    ]

-- A section that has bytes is linked under the names of its file and its own.
unfoldable pub link_image : Str → Str → ℕ → Image → List ℕ → Linker → Run Linker
link_image file section i image bytes l =
    let r = helper_section_link i image bytes l in
    do linked ← note_address file section r.1 r.0.linked; ok (record r.0 { linked = linked })

-- `if (!section->data) continue`.
unfoldable pub link_unless_linked : Str → Str → ℕ → Linker → Run Linker
link_unless_linked file section i l = elim (get_elem? l.images i) [
  | none ↦ fault
  | some image ↦ elim image.bytes [
    | none ↦ ok l
    | some bytes ↦ link_image file section i image bytes l
  ]
]

-- The loops over the sections of a file: a bucket, and all buckets.
unfoldable pub link_chain : Str → List (Entry ℕ) → Linker → Run Linker
link_chain file [] l = ok l
link_chain file (e ∷ chain) l = do
  next ← link_unless_linked file e.str e.value l
  link_chain file chain next

unfoldable pub link_buckets : Str → List (List (Entry ℕ)) → Linker → Run Linker
link_buckets file [] l = ok l
link_buckets file (chain ∷ chains) l = do
  next ← link_chain file chain l
  link_buckets file chains next

abbrev pub operand : Args → ℕ → Linker → Str
operand args i l = new_str l.env (arg args i)

-- "*" as the file, at one file: all of its sections, or the named one if the file has it.
unfoldable pub link_any : Args → Str → File → Linker → Run Linker
link_any args name file l =
    if length args == 1
    then link_buckets name file.sections.buckets l
    else elim (Map.get file.sections (arg args 1)) [
      | none ↦ ok l
      | some e ↦ link_unless_linked name (operand args 1 l) e.value l
    ]

-- The loops over the files.
unfoldable pub any_chain : Args → List (Entry File) → Linker → Run Linker
any_chain args [] l = ok l
any_chain args (e ∷ chain) l = do next ← link_any args e.str e.value l; any_chain args chain next

unfoldable pub any_buckets : Args → List (List (Entry File)) → Linker → Run Linker
any_buckets args [] l = ok l
any_buckets args (chain ∷ chains) l = do next ← any_chain args chain l; any_buckets args chains next

abbrev pub complain : Text → Linker → Linker
complain message l = record l { env = err message l.env }

-- One named section of one named file: it must have bytes still.
unfoldable pub link_once : Args → ℕ → Linker → Run Linker
link_once args i l = elim (get_elem? l.images i) [
  | none ↦ fault
  | some image ↦ elim image.bytes [
    | none ↦ ok (complain (codes "Linker error: section already linked") l)
    | some bytes ↦ link_image (operand args 0 l) (operand args 1 l) i image bytes l
  ]
]

unfoldable pub link_named : Args → File → Linker → Run Linker
link_named args file l =
    if length args == 1
    then link_buckets (operand args 0 l) file.sections.buckets l
    else elim (Map.get file.sections (arg args 1)) [
      | none ↦ ok (complain (codes "Linker error: section not found") l)
      | some e ↦ link_once args e.value l
    ]

unfoldable pub parse_linker : Args → HashMap File → Linker → Run Linker
parse_linker args files l =
    if ltb (length args) 1 || ltb 2 (length args)
    then ok (complain (codes "Linker 'file' requires between 1 and 2 operands") l)
    else if str_eq (arg args 0) (codes "*")
    then any_buckets args files.buckets l
    else elim (Map.get files (arg args 0)) [
      | none ↦ ok (complain (codes "Linker error: file not found") l)
      | some e ↦ link_named args e.value l
    ]

-- The directives of a linker script.
pub data Placement : Type 0 where
  int_data : ℕ → Placement
  float_data double_data ascii asciz skip fill align org equ : Placement

abbrev pub placements : List (Text × Placement)
placements =
    (codes ".byte", int_data 1)
    ∷ (codes ".short", int_data 2)
    ∷ (codes ".int", int_data 4)
    ∷ (codes ".long", int_data 8)
    ∷ (codes ".float", float_data)
    ∷ (codes ".double", double_data)
    ∷ (codes ".ascii", ascii)
    ∷ (codes ".asciz", asciz)
    ∷ (codes ".skip", skip)
    ∷ (codes ".fill", fill)
    ∷ (codes ".align", align)
    ∷ (codes ".org", org)
    ∷ (codes ".equ", equ)
    ∷ []

unfoldable pub place : World → Placement → Args → Env → Run Env
place w (int_data size) args env = parse_int args env size
place w float_data args env = ok (parse_float w args env)
place w double_data args env = ok (parse_double w args env)
place w ascii args env = parse_ascii args env
place w asciz args env = parse_asciz args env
place w skip args env = ok (parse_skip args env)
place w fill args env = parse_fill args env
place w align args env = ok (parse_align args env)
place w org args env = ok (parse_org args env)
place w equ args env = parse_equ args env

-- How a line ends: `link` reads the next one, or returns 0 because of an error.
pub data Step : Type 0 where
  proceeds stops : Linker → Step

abbrev on_env : Linker → Run Env → Run Step
on_env l r = r >>= λ env. ok (proceeds (record l { env = env }))

unfoldable pub link_statement : World → Text → Args → HashMap File → Linker → Run Step
link_statement w word args files l = elim (split_equals word) [
  | some r ↦ (do
    (v, env) ← helper_expr_parse l.env r.1 0 0
    ok (proceeds (record l { env = helper_symbol_set env (codes "absolute") r.0 v })))
  | none ↦
      if first_is b'.' word
      then elim (lookup word placements) [
        | some p ↦ on_env l (place w p args l.env)
        | none ↦ ok (stops (complain (codes "Invalid directive") l))
      ]
      else if str_eq word (codes "file")
      then (parse_linker args files l >>= λ next. ok (proceeds next))
      else ok (stops (complain (codes "Invalid instruction") l))
]

-- One line, behind the count of it.
unfoldable pub link_line : World → Args → HashMap File → Linker → Run Step
link_line w args files l =
    let r = take_labels args l.env in
    let next : Linker = record l { env = r.1 } in
    elim r.0 [ [] ↦ ok (proceeds next) | word ∷ rest ↦ link_statement w word rest files next ]

-- The loop over the lines. Behind the last one no value is returned.
pub data Ending : Type 0 where
  runs_off returns_null : Linker → Ending

abbrev pub counted : Linker → Linker
counted l = record l { env = record l.env { f_line = u64 (l.env.f_line + 1) } }

unfoldable pub link_lines : World → HashMap File → Source → Linker → Run Ending
link_lines w files [] l = ok (runs_off l)
link_lines w files (x ∷ rest) l = do
  args ← as_line x
  step ← link_line w args files (counted l)
  (elim step [ proceeds next ↦ link_lines w files rest next | stops last ↦ ok (returns_null last) ])

-- The output section, ".linker".
abbrev pub output : Section
output = record { name = codes ".linker"; address = 0; expr = []; parts = []; bitness = 0 }

unfoldable pub link_start : Text → ℕ → List Text → List Image → Linker
link_start file line errors images = record {
  env = record {
    file = file;
    f_line = line;
    symbols = make;
    store = output ∷ [];
    section = 0;
    errors = errors;
    fresh = 0;
  };
  images = images;
  linked = make;
}

-- The name and the line of the script, then its lines. One that could not be read is a null list.
unfoldable pub link_script :
    World → HashMap File → List Text → List Image → Option Source → Run Ending
link_script w files errors images none = fault
link_script w files errors images (some source) = do
  (file, line, rest) ← read_header w source
  link_lines w files rest (link_start file line errors images)

unfoldable pub link : World → Text → HashMap File → List Text → List Image → Run Ending
link w script files errors images = do
  source ← read_file w script
  link_script w files errors images source
