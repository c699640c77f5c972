-- ===== src/Util/Map.antt =====
-- hashmap_t of src/util.c: chained buckets, keys compared by hash and text, rehash above load 2.
-- A `const char *` key is its address and its text: `hm_get` compares texts, `hm_erase` addresses.
-- The long double quotient `size / 0.75` is rounded down to `size * 4 / 3`, exact below 2 ^ 60.
pub mod Views
pub mod Laws
pub mod Writes
use amalgam_asm.Base.{
  ℕ, ◌+◌, ◌-◌, ◌*◌, ◌/◌, ◌%◌, ◌^◌, ◌==◌, ltb, Bool, ◌&&◌, Option, none, some, List, [], ◌∷◌, ◌++◌,
  if◌then◌else◌, get_or, set, replicate,
}
use amalgam_asm.Base.Bits.{u64}
use amalgam_asm.Base.Text.{Text, str_eq}

-- A `char` is signed: a byte of 128 or more is sign-extended before it is added.
abbrev sign_extend : ℕ → ℕ
sign_extend c = if ltb c 128 then c else 2 ^ 64 - 256 + c

-- The do-while loop also adds the terminating 0.
hash_from : ℕ → Text → ℕ
hash_from h [] = u64 (u64 (h * 32) + h)
hash_from h (c ∷ s) = hash_from (u64 (u64 (h * 32) + h + sign_extend c)) s

unfoldable pub hash : Text → ℕ
unfolding hash_from
hash s = hash_from 5381 s

pub record Str : Type 0 where
  pub address : ℕ
  pub text : Text

pub record Entry {ℓ} (V : Type ℓ) : Type ℓ where
  pub key : ℕ
  pub str : Str
  pub value : V

pub record HashMap {ℓ} (V : Type ℓ) : Type ℓ where
  pub capacity : ℕ
  pub size : ℕ
  pub buckets : List (List (Entry V))

unfoldable pub make {ℓ} : {V : Type ℓ} → HashMap V
unfolding replicate
make = record { capacity = 8; size = 0; buckets = replicate 8 [] }

-- The bucket of a text among `n`.
abbrev pub home : Text → ℕ → ℕ
home s n = hash s % n

module _ {ℓ} {V : Type ℓ} where
  -- The test of `hm_get` at one entry.
  unfoldable pub hit : Text → Entry V → Bool
  hit s e = (e.key == hash s) && str_eq s e.str.text

  -- The walk along one bucket.
  unfoldable pub find : Text → List (Entry V) → Option (Entry V)
  find s [] = none
  find s (e ∷ c) = if hit s e then some e else find s c

  unfoldable pub get : HashMap V → Text → Option (Entry V)
  get m s = find s (get_or m.buckets (home s m.capacity) [])

  -- `bucket->value = value` at the entry that `hm_get` returned.
  unfoldable pub assign : Text → V → List (Entry V) → List (Entry V)
  assign s v [] = []
  assign s v (e ∷ c) = if hit s e then record e { value = v } ∷ c else e ∷ assign s v c

  -- An entry becomes the first of the bucket of its key.
  pub push : ℕ → Entry V → List (List (Entry V)) → List (List (Entry V))
  push n e bs = set bs (e.key % n) (e ∷ get_or bs (e.key % n) [])

  pub move_chain : ℕ → List (Entry V) → List (List (Entry V)) → List (List (Entry V))
  move_chain n [] fresh = fresh
  move_chain n (e ∷ es) fresh = move_chain n es (push n e fresh)

  pub move_all : ℕ → List (List (Entry V)) → List (List (Entry V)) → List (List (Entry V))
  move_all n [] fresh = fresh
  move_all n (c ∷ cs) fresh = move_all n cs (move_chain n c fresh)

  unfoldable pub rehash : HashMap V → HashMap V
  unfolding move_all move_chain push replicate
  rehash m =
      let n = m.size * 4 / 3 in
      record m { capacity = n; buckets = move_all n m.buckets (replicate n []) }

  unfoldable pub insert : HashMap V → Str → V → HashMap V
  unfolding push
  insert m s v =
      let e : Entry V = record { key = hash s.text; str = s; value = v } in
      let m' : HashMap V = record m { size = m.size + 1; buckets = push m.capacity e m.buckets } in
      if ltb (2 * m'.capacity) m'.size then rehash m' else m'

  -- The new map, and the value that was replaced.
  unfoldable pub put : HashMap V → Str → V → HashMap V × Option V
  put m s v = elim (get m s.text) [
    | some e ↦ (
      record m {
        buckets =
            set m.buckets (home s.text m.capacity)
              (assign s.text v (get_or m.buckets (home s.text m.capacity) []));
      },
      some e.value,
    )
    | none ↦ (insert m s v, none)
  ]

  -- `hm_erase` compares the address of the key.
  pub same_str : Str → Entry V → Bool
  same_str s e = (e.key == hash s.text) && (e.str.address == s.address)

  pub unlink : Str → List (Entry V) → List (Entry V) × Option (Entry V)
  unlink s [] = ([], none)
  unlink s (e ∷ c) =
      let rest = unlink s c in if same_str s e then (c, some e) else (e ∷ rest.0, rest.1)

  unfoldable pub erase : HashMap V → Str → HashMap V × Option (Entry V)
  unfolding unlink same_str
  erase m s =
      let i = home s.text m.capacity in
      let r = unlink s (get_or m.buckets i []) in
      elim r.1 [
        | none ↦ (m, none)
        | some e ↦ (record m { size = m.size - 1; buckets = set m.buckets i r.0 }, some e)
      ]

  -- `hm_free_to`: each entry as its key and value, bucket by bucket.
  pub pairs_of : List (Entry V) → List (Str × V)
  pairs_of [] = []
  pairs_of (e ∷ c) = (e.str, e.value) ∷ pairs_of c

  pub entries_of : List (List (Entry V)) → List (Str × V)
  entries_of [] = []
  entries_of (c ∷ cs) = pairs_of c ++ entries_of cs

  unfoldable pub free_to : HashMap V → List (Str × V)
  unfolding entries_of pairs_of
  free_to m = entries_of m.buckets
