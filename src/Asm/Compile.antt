-- ===== src/Asm/Compile.antt =====
-- `compile` of src/compile.c: the loop over files and lines, and the image of the sections. A macro
-- that calls itself never ends, so the loop runs on fuel, one for each file that is opened or left
-- and one for each line.
pub mod Blocks
pub mod Branches
pub mod Image
use amalgam_asm.Base.{
  ℕ, zero, suc, ◌+◌, ◌==◌, ltb, Bool, true, false, Option, none, some, List, [], ◌∷◌, ◌++◌,
  if◌then◌else◌, length, get_or,
}
use amalgam_asm.Base.Bits.{u64}
use amalgam_asm.Base.Text.{Text, codes}
use amalgam_asm.Util.Map.{HashMap, Entry, make}
use amalgam_asm.Asm.State.{
  Run, ok, fault, out_of_fuel, ◌>>=◌, Env, Symbol, Section, ExprInfo, empty_section,
  helper_section_add,
}
use amalgam_asm.Asm.Lexer.{Line, helper_file_parse}
use amalgam_asm.Asm.World.{World}
use amalgam_asm.Asm.Source.{Item, Source, name, number, as_name, as_number, as_line, file_of}
use amalgam_asm.Asm.Control.{Assembly, read_file}
use amalgam_asm.Asm.Statement.{After, continues, reopens, gives_up, process}

-- The name and the line of a file that is opened. A null name is the empty one: no line follows.
unfoldable pub read_header : World → Source → Run (Text × ℕ × Source)
unfolding as_name as_number
read_header w [] = ok ([], 0, [])
read_header w (x ∷ []) = do file ← as_name x; ok (file, 0, [])
read_header w (x ∷ y ∷ rest) = do file ← as_name x; ok (file, as_number w y, rest)

pub data Outcome : Type 0 where
  finished : Assembly → Outcome
  returned : Env → Outcome

-- Where the loop stands: at `skip`, or between two lines of the file on top.
pub data Phase : Type 0 where
  opening reading : Assembly → Phase
  over : Outcome → Phase

unfoldable pub open_file : World → Assembly → Source → List (Option Source) → Run Phase
unfolding read_header
open_file w a file files = do
  (top, n, rest) ← read_header w file
  ok (
      reading
        (record a { env = record a.env { file = top; f_line = n }; files = some rest ∷ files }))

unfoldable pub next_phase : After → Phase
next_phase (continues a) = reading a
next_phase (reopens a) = opening a
next_phase (gives_up env) = over (returned env)

-- One line of the file on top.
unfoldable pub read_line : World → Assembly → Item → Source → List (Option Source) → Run Phase
unfolding as_line next_phase
read_line w a x rest files = do
  args ← as_line x
  after ← process w args (record a {
    env = record a.env { f_line = u64 (a.env.f_line + 1) };
    files = some rest ∷ files;
  })
  ok (next_phase after)

-- A file that could not be read ends the loop.
unfoldable pub advance_phase : World → Phase → Run Phase
unfolding open_file read_line
advance_phase w (over o) = ok (over o)
advance_phase w (opening a) = elim a.files [
  | [] ↦ ok (over (finished a))
  | top ∷ files ↦ elim top [ none ↦ ok (over (finished a)) | some file ↦ open_file w a file files ]
]
advance_phase w (reading a) = elim a.files [
  | [] ↦ fault
  | top ∷ files ↦ elim top [
    | none ↦ fault
    | some file ↦ elim file [
      | [] ↦ ok (opening (record a { files = files }))
      | x ∷ rest ↦ read_line w a x rest files
    ]
  ]
]

unfoldable pub loop : ℕ → World → Phase → Run Outcome
unfolding advance_phase
loop fuel w (over o) = ok o
loop zero w (opening a) = out_of_fuel
loop zero w (reading a) = out_of_fuel
loop (suc fuel) w (opening a) = advance_phase w (opening a) >>= λ p. loop fuel w p
loop (suc fuel) w (reading a) = advance_phase w (reading a) >>= λ p. loop fuel w p

-- section_t of aasm/compile.h. The memory behind `image`, up to `size`, is never written.
pub record SectionImage : Type 0 where
  pub size : ℕ
  pub expr : List ExprInfo
  pub image : List ℕ

-- The parts, one behind the other.
unfoldable pub join : List (List ℕ) → List ℕ
join [] = []
join (part ∷ parts) = part ++ join parts

-- The copy of the parts into `size` bytes writes past the end where they are more.
unfoldable pub image_of : Section → Run SectionImage
unfolding join
image_of s =
    let bytes = join s.parts in
    if ltb s.address (length bytes)
    then fault
    else ok (record { size = s.address; expr = s.expr; image = bytes })

-- `entry->value = new`, along a bucket and over the buckets.
unfoldable pub chain_images : List Section → List (Entry ℕ) → Run (List (Entry SectionImage))
unfolding image_of
chain_images store [] = ok []
chain_images store (e ∷ chain) = do
  new ← image_of (get_or store e.value empty_section)
  rest ← chain_images store chain
  ok (record { key = e.key; str = e.str; value = new } ∷ rest)

unfoldable pub bucket_images :
    List Section → List (List (Entry ℕ)) → Run (List (List (Entry SectionImage)))
unfolding chain_images
bucket_images store [] = ok []
bucket_images store (chain ∷ chains) = do
  new ← chain_images store chain
  rest ← bucket_images store chains
  ok (new ∷ rest)

unfoldable pub images : List Section → HashMap ℕ → Run (HashMap SectionImage)
unfolding bucket_images
images store m = do
  buckets ← bucket_images store m.buckets
  ok (record { capacity = m.capacity; size = m.size; buckets = buckets })

pub record Compiled : Type 0 where
  pub symbols : HashMap Symbol
  pub sections : HashMap SectionImage

abbrev blank : List Text → Env
blank errors = record {
  file = [];
  f_line = 0;
  symbols = make;
  store = [];
  section = 0;
  errors = errors;
  fresh = 0;
}

-- The state in front of the loop.
unfoldable pub start : World → Text → List Text → Run Assembly
unfolding read_file
start w orig errors =
    let r = helper_section_add (blank errors) make (codes ".text") none in
    do
      file ← read_file w orig
      ok (record {
        env = record r.0 { section = r.2 };
        macros = make;
        sections = r.1;
        files = file ∷ [];
        dl = [];
        history = [];
      })

-- The result, or a null pointer, and the errors.
unfoldable pub conclude : Outcome → Run (Option Compiled × List Text)
unfolding images
conclude (returned env) = ok (none, env.errors)
conclude (finished a) = do
  sections ← images a.env.store a.sections
  ok (some (record { symbols = a.env.symbols; sections = sections }), a.env.errors)

unfoldable pub compile : ℕ → World → Text → List Text → Run (Option Compiled × List Text)
unfolding start loop conclude
compile fuel w orig errors = do
  a ← start w orig errors
  outcome ← loop fuel w (opening a)
  conclude outcome
