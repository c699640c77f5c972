-- ===== src/Examples/Maps.antt =====
-- Hash maps with a few keys.
use amalgam_asm.Base.{ℕ, ◌+◌, ltb, ◌<◌, ◌≡◌, arith}
use amalgam_asm.Base.Text.{Text, codes}
use amalgam_asm.Util.Map.{HashMap, Str, make, put, rehash, get, find, hash}
use amalgam_asm.Util.Set.{HashSet, hs_make, hs_put, hs_contains}
use amalgam_asm.Util.Set.Bags.{IsStored, times, one_more, hs_make-IsStored, hs_put-times}
use amalgam_asm.Util.Map.Laws.{IsValid, view, make-IsValid, rehash-view}
use amalgam_asm.Util.Map.Writes.{Stores, put-Stores}

abbrev start_key : Str
start_key = record { address = 1; text = codes "start" }

abbrev loop_key : Str
loop_key = record { address = 2; text = codes "loop" }

abbrev one_entry : HashMap ℕ
one_entry = (put make start_key 3).0

one_entry-IsValid : IsValid one_entry
one_entry-IsValid = (put-Stores make make-IsValid start_key 3).valid

put-Stores_example : Stores one_entry loop_key 4 (put one_entry loop_key 4)
put-Stores_example = put-Stores one_entry one_entry-IsValid loop_key 4

one_entry-size : 0 < one_entry.size
unfolding put get find make hash
one_entry-size = omega (arith, (put-Stores {V = ℕ} make make-IsValid start_key 3).size)

rehash-view_example : view (rehash one_entry) (codes "start") ≡ view one_entry (codes "start")
rehash-view_example = rehash-view one_entry one_entry-IsValid.placed one_entry-size (codes "start")

abbrev twice : HashSet
twice = hs_put hs_make (record { address = 3; text = codes "ab" })

twice-IsStored : IsStored twice
twice-IsStored =
    (hs_put-times hs_make (record { address = 3; text = codes "ab" }) hs_make-IsStored).0

hs_put-times_example :
    let str : Str = record { address = 9; text = codes "ab" } in
    IsStored (hs_put twice str)
    × ((q : Text) → times (hs_put twice str) q ≡ times twice q + one_more str q)
    × ((q : Text) → hs_contains (hs_put twice str) q ≡ ltb 0 (times twice q + one_more str q))
hs_put-times_example = hs_put-times twice (record { address = 9; text = codes "ab" }) twice-IsStored
