-- ===== src/Asm/State.antt =====
-- The state of the assembler: `cmpl_t`, the sections behind their pointers, the symbols, and the
-- errors. A section pointer is an index into `store`; memory for keys comes from a counter.
use amalgam_asm.Base.{
  ℕ, ◌+◌, Bool, true, false, Option, none, some, List, [], ◌∷◌, ◌++◌, if◌then◌else◌, length, get_or,
  set, take, ltb,
}
use amalgam_asm.Base.Bits.{sub64, u64}
use amalgam_asm.Base.Text.{Text, codes, str_eq}
use amalgam_asm.Asm.Number.{print_long}
use amalgam_asm.Util.Map
use amalgam_asm.Util.Map.{HashMap, Str}
use mathlib.Core.Option
use amalgam_asm.Base.{replicate}

-- `fault` is undefined behaviour; `out_of_fuel` is the model's own.
pub data Run {ℓ} (A : Type ℓ) : Type ℓ where
  ok : A → Run A
  fault : Run A
  out_of_fuel : Run A

infixl 5 ◌>>=◌
abbrev pub ◌>>=◌ {ℓ κ} : {A : Type ℓ} {B : Type κ} → Run A → (A → Run B) → Run B
ok a >>= f = f a
fault >>= f = fault
out_of_fuel >>= f = out_of_fuel

-- `section` is `none` for a symbol that `.globl` alone made: the null pointer.
pub record Symbol : Type 0 where
  pub section : Option Text
  pub value : ℕ
  pub global : Bool

pub record ExprInfo : Type 0 where
  pub address : ℕ
  pub size : ℕ
  pub offset : ℕ
  pub expression : Text

-- `data` is the list of the parts, each with as many bytes as its size says.
pub record Section : Type 0 where
  pub name : Text
  pub address : ℕ
  pub expr : List ExprInfo
  pub parts : List (List ℕ)
  pub bitness : ℕ

abbrev pub empty_section : Section
empty_section = record { name = []; address = 0; expr = []; parts = []; bitness = 0 }

pub record Env : Type 0 where
  pub file : Text
  pub f_line : ℕ
  pub symbols : HashMap Symbol
  pub store : List Section
  pub section : ℕ
  pub errors : List Text
  pub fresh : ℕ

-- `*_env->section`.
abbrev pub current : Env → Section
current env = get_or env.store env.section empty_section

abbrev pub set_section : Env → ℕ → Section → Env
set_section env i s = record env { store = set env.store i s }

abbrev pub set_current : Env → Section → Env
set_current env s = set_section env env.section s

-- `ERR`: at most 99 characters of "file:line: message" go to the error list.
unfoldable pub err : Text → Env → Env
err message env =
    let text = env.file ++ codes ":" ++ print_long env.f_line ++ codes ": " ++ message in
    record env { errors = env.errors ++ take 99 text ∷ [] }

-- A key in memory of its own.
abbrev pub new_str : Env → Text → Str
new_str env name = record { address = env.fresh; text = name }

-- `helper_insn_add`, with the bytes that the caller then writes, at a section pointer.
unfoldable pub add_part : Env → ℕ → List ℕ → Env
add_part env i bytes =
    let s = get_or env.store i empty_section in
    set_section env i (record s { parts = s.parts ++ bytes ∷ [] })

-- `section->address += n`.
unfoldable pub advance : Env → ℕ → ℕ → Env
advance env i n =
    let s = get_or env.store i empty_section in
    set_section env i (record s { address = u64 (s.address + n) })

-- The two together, as the directives and instructions use them: the bytes that are written, and
-- the number that the code adds to the address, which it works out by itself.
abbrev pub emit : Env → List ℕ → ℕ → Env
emit env bytes n = advance (add_part env env.section bytes) env.section n

-- What `helper_symbol_set` and `helper_symbol_global` keep of an old symbol.
abbrev pub was_global : Option Symbol → Bool
was_global none = false
was_global (some s) = s.global

unfoldable pub globalize : Option Symbol → Symbol
globalize none = record { section = none; value = 0; global = true }
globalize (some s) = record s { global = true }

unfoldable pub helper_symbol_global : Env → Text → Env
unfolding globalize
helper_symbol_global env name =
    let old = Option.map (λ e. e.value) (Map.get env.symbols name) in
    record env {
      symbols = (Map.put env.symbols (new_str env name) (globalize old)).0;
      fresh = env.fresh + 1;
    }

-- A write to `.` moves the address forward over zero bytes, never back.
unfoldable pub move_dot : Env → ℕ → Env
move_dot env value =
    let here = (current env).address in
    let needed = sub64 value here in
    if ltb here value then emit env (replicate needed 0) needed else env

unfoldable pub helper_symbol_set : Env → Text → Text → ℕ → Env
unfolding move_dot
helper_symbol_set env section name value =
    let old = Option.map (λ e. e.value) (Map.get env.symbols name) in
    let symbol : Symbol = record {
      section = some section;
      value = value;
      global = was_global old;
    } in
    if str_eq name (codes ".") then move_dot env value else record env {
      symbols = (Map.put env.symbols (new_str env name) symbol).0;
      fresh = env.fresh + 1;
    }

-- `helper_section_add`: the section of that name, made first if there is none. `current` is the
-- caller's section pointer, whose bitness a new section takes over; it is null for `.bss`.
pub bitness_of : Env → Option ℕ → ℕ
bitness_of env none = 1
bitness_of env (some i) = (get_or env.store i empty_section).bitness

unfoldable pub helper_section_add : Env → HashMap ℕ → Text → Option ℕ → Env × HashMap ℕ × ℕ
unfolding bitness_of
helper_section_add env sections name pointer = elim (Map.get sections name) [
  | some e ↦ (env, sections, e.value)
  | none ↦
      let i = length env.store in
      let s : Section = record {
        name = name;
        address = 0;
        expr = [];
        parts = [];
        bitness = bitness_of env pointer;
      } in
      (
        record env { store = env.store ++ s ∷ []; fresh = env.fresh + 1 },
        (Map.put sections (new_str env name) i).0,
        i,
      )
]
