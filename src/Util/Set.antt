-- ===== src/Util/Set.antt =====
-- hashset_t of src/util.c. Its buckets are those of a map whose entries have no value, and `hs_put`
-- and `hs_rehash` go through them as `hm_put` does for a text that is not there and `hm_rehash`.
-- `hs_put` does not look the text up first, so it is a bag; `hs_erase` keeps the size.
pub mod Bags
use amalgam_asm.Base.{ℕ, Bool, true, false, Option, none, some, set, get_or, []}
use amalgam_asm.Base.Text.{Text}
use amalgam_asm.Util.Map
use amalgam_asm.Util.Map.{HashMap, Str, find, home, unlink}

abbrev pub HashSet : Type 0
HashSet = HashMap (Unit {0})

unfoldable pub hs_make : HashSet
hs_make = Map.make

unfoldable pub hs_contains : HashSet → Text → Bool
hs_contains set str = elim (Map.get set str) [ none ↦ false | some e ↦ true ]

unfoldable pub hs_rehash : HashSet → HashSet
hs_rehash set = Map.rehash set

unfoldable pub hs_put : HashSet → Str → HashSet
hs_put set str = Map.insert set str tt

-- The key is compared by its address.
unfoldable pub hs_erase : HashSet → Str → HashSet
hs_erase s str =
    let i = home str.text s.capacity in
    record s { buckets = set s.buckets i (unlink str (get_or s.buckets i [])).0 }
