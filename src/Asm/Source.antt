-- ===== src/Asm/Source.antt =====
-- Files as src/cmpl_control.c and src/compile.c handle them: one list of void pointers that holds
-- the name, the number of the line before the next, and the lines. What a pointer points to is
-- known by its place only, so an `Item` says what was put there; where the code reads another
-- kind, the model reads the bytes that are there, or faults.
pub mod Measure
use amalgam_asm.Base.{
  ℕ, zero, suc, ◌+◌, ◌-◌, ◌%◌, ◌^◌, ◌==◌, ltb, Bool, true, false, ◌&&◌, Option, none, some, List,
  [], ◌∷◌, ◌++◌, if◌then◌else◌, length, map,
}
use amalgam_asm.Base.Bits.{u32, u64, sub64}
use amalgam_asm.Base.Text.{Text}
use amalgam_asm.Asm.State.{Run, ok, fault, ◌>>=◌, Env}
use amalgam_asm.Asm.Data.{Args, bytes_of}
use amalgam_asm.Asm.Lexer.{Line, helper_file_parse}
use amalgam_asm.Asm.World.{World}

pub data Item : Type 0 where
  name : Text → Item
  number : ℕ → Item
  line : Args → Item
  operands : List Text → Item

abbrev pub Source : Type 0
Source = List Item

-- The text in front of the first 0.
unfoldable pub until_zero : List ℕ → Text
until_zero [] = []
until_zero (b ∷ bs) = let rest = until_zero bs in if b == 0 then [] else b ∷ rest

-- A pointer read as a string. An array or a list starts with its size, of 8 bytes.
unfoldable pub as_name : Item → Run Text
unfolding until_zero bytes_of
as_name (name t) = ok t
as_name (number n) = fault
as_name (line args) = ok (until_zero (bytes_of 8 (length args)))
as_name (operands os) = ok (until_zero (bytes_of 8 (length os)))

-- A pointer read as a number.
unfoldable pub as_number : World → Item → ℕ
as_number w (number n) = n
as_number w (line args) = w.address_of (length args)
as_number w (name t) = w.address_of (length t)
as_number w (operands os) = w.address_of (length os)

unfoldable pub as_line : Item → Run Args
as_line (line args) = ok args
as_line (name t) = fault
as_line (number n) = fault
as_line (operands os) = fault

unfoldable pub as_operands : Item → Run (List Text)
as_operands (operands os) = ok os
as_operands (name t) = fault
as_operands (number n) = fault
as_operands (line args) = fault

-- `helper_file_parse`, as the list that it builds.
unfoldable pub file_of : Text → List Line → Source
file_of o_name lines = name o_name ∷ number 0 ∷ map line lines

-- `helper_line_add`: the present position goes in front.
abbrev pub helper_line_add : Env → Source → Source
helper_line_add env to = name env.file ∷ number env.f_line ∷ to

-- `helper_reload`, on the file on top. It is the one that is being read.
unfoldable pub helper_reload : Env → List (Option Source) → List (Option Source)
helper_reload env [] = []
helper_reload env (none ∷ files) = none ∷ files
helper_reload env (some file ∷ files) = some (helper_line_add env file) ∷ files

-- `!memcmp(s, what, strlen(what))`, at a text that is not shorter.
unfoldable pub starts_with : Text → Text → Bool
starts_with [] s = true
starts_with (d ∷ what) [] = false
starts_with (d ∷ what) (c ∷ s) = (c == d) && starts_with what s

-- `(int)(with_size - (what_size+1))`, cut to 32 bits, and extended by its sign again where it is
-- added to a size.
unfoldable pub size_diff : Text → Text → ℕ
size_diff what with =
    let d = u32 (sub64 (length with) (length what + 1)) in
    if ltb d (2 ^ 31) then d else d + (2 ^ 64 - 2 ^ 32)

-- The first loop over a word: its size, changed at every `\` with `what` behind it. `skip`
-- characters of a name are still to be passed.
unfoldable pub measure : Text → Text → ℕ → ℕ → Text → ℕ
unfolding size_diff
measure what with size skip [] = size
measure what with size (suc skip) (c ∷ s) = measure what with size skip s
measure what with size zero (c ∷ s) =
    let replaced = measure what with (u64 (size + size_diff what with)) (length what) s in
    let kept = measure what with size zero s in
    if c == b'\\' && starts_with what s then replaced else kept

-- The second loop: the new word.
unfoldable pub substitute : Text → Text → ℕ → Text → Text
substitute what with skip [] = []
substitute what with (suc skip) (c ∷ s) = substitute what with skip s
substitute what with zero (c ∷ s) =
    let replaced = substitute what with (length what) s in
    let kept = substitute what with zero s in
    if c == b'\\' && starts_with what s then with ++ replaced else c ∷ kept

abbrev pub substitute_line : Text → Text → Args → Args
substitute_line what with args = map (substitute what with 0) args

-- The lines of a file behind its position, each changed.
unfoldable pub map_lines : (Args → Args) → Source → Run Source
unfolding as_line
map_lines f [] = ok []
map_lines f (x ∷ rest) = do args ← as_line x; rest' ← map_lines f rest; ok (line (f args) ∷ rest')

-- `helper_file_substitute` and `helper_file_copy` differ in what they do to a line.
unfoldable pub helper_file_map : (Args → Args) → Source → Run Source
unfolding map_lines as_name
helper_file_map f [] = fault
helper_file_map f (x ∷ []) = fault
helper_file_map f (x ∷ y ∷ lines) = do
  file ← as_name x
  rest ← map_lines f lines
  ok (name file ∷ y ∷ rest)

abbrev pub helper_file_substitute : Source → Text → Text → Run Source
helper_file_substitute orig what with = helper_file_map (substitute_line what with) orig

abbrev pub helper_file_copy : Source → Run Source
helper_file_copy orig = helper_file_map (λ args. args) orig
