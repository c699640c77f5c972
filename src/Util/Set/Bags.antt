-- ===== src/Util/Set/Bags.antt =====
-- A set as the bag of the texts that were put into it.
use amalgam_asm.Base.{
  ℕ, ◌+◌, ◌*◌, ◌/◌, ◌<◌, ◌≡◌, ◌≢◌, refl, ◌==◌, ==_iff, ltb, Bool, true, false, none, some, List, [],
  ◌∷◌, if◌then◌else◌, length, get_or, replicate, length-replicate, get_or-replicate, arith, ap, ◌∙◌,
  Bool-cases, inl, inr,
}
use amalgam_asm.Base.Text.{Text, str_eq}
use mathlib.Core.List.{flatten}
use amalgam_asm.Util.Map.{
  Entry, Str, make, hash, home, push, move_chain, move_all, rehash, insert, get, find,
}
use amalgam_asm.Util.Map.Views.{
  count, hit-made, count-push, last_of-flatten, move_all-flatten, length-push, Moved,
  move_chain-Moved,
}
use amalgam_asm.Util.Set.{HashSet, hs_make, hs_contains, hs_put}

-- Every entry stands in the bucket of its hash.
pub record IsStored (s : HashSet) : Type 0 where
  pub roomy : 0 < s.capacity
  pub width : length s.buckets ≡ s.capacity
  pub homes : (q : Text) (i : ℕ) → home q s.capacity ≢ i → count q (get_or s.buckets i []) ≡ 0

-- How often a text is there.
unfoldable pub times : HashSet → Text → ℕ
times s q = count q (get_or s.buckets (home q s.capacity) [])

pub hs_make-IsStored : IsStored hs_make
unfolding hs_make make count
hs_make-IsStored = record {
  roomy = omega arith;
  width = length-replicate {A = List (Entry (Unit {0}))} 8 [];
  homes = λ q i other. rw (get_or-replicate {A = List (Entry (Unit {0}))} 8 i []) refl;
}

module _ (s : HashSet) (stored : IsStored s) where
  all_at_home : (q : Text) → count q (flatten s.buckets) ≡ times s q
  unfolding times
  all_at_home q =
      (last_of-flatten q s.buckets (home q s.capacity) none λ i other. stored.homes q i other).1

  module _ (str : Str) where
    abbrev made : Entry (Unit {0})
    made = record { key = hash str.text; str = str; value = tt }

    abbrev pushed : HashSet
    pushed = record s { size = s.size + 1; buckets = push s.capacity made s.buckets }

    pushed-IsStored : IsStored pushed
    pushed-IsStored = record {
      roomy = stored.roomy;
      width = length-push s.capacity made s.buckets ∙ stored.width;
      homes = λ q i other. ground (
        arith,
        count-push s.capacity stored.roomy q made s.buckets i stored.width,
        stored.homes q i other,
      );
    }

    pushed-times : (q : Text) → times pushed q ≡ times s q + (if str_eq q str.text then 1 else 0)
    unfolding times
    pushed-times q = ground (
      arith,
      count-push s.capacity stored.roomy q made s.buckets (home q s.capacity) stored.width,
      hit-made {0} q str tt,
    )

module _ (s : HashSet) (stored : IsStored s) (pos : 0 < s.size) where
  abbrev n : ℕ
  n = s.size * 4 / 3

  some_room : 0 < n
  some_room = omega arith

  moved :
      Moved n some_room
        (flatten s.buckets)
        (replicate n [])
        (move_chain n (flatten s.buckets) (replicate n []))
  moved = move_chain-Moved n some_room (flatten s.buckets) (replicate n []) (length-replicate n [])

  -- What a bucket has once everything has moved.
  bucket :
      (q : Text) (i : ℕ)
      → count q (get_or (move_all n s.buckets (replicate n [])) i [])
        ≡ (if home q n == i then times s q else 0)
  unfolding count
  bucket q i =
      rw
        (
          move_all-flatten n s.buckets (replicate n []),
          moved.counts q i,
          all_at_home s stored q,
          get_or-replicate {A = List (Entry (Unit {0}))} n i [],
        )
        (omega arith)

  rehash-times : (q : Text) → times (rehash s) q ≡ times s q
  unfolding times rehash
  rehash-times q =
      let same : (home q n == home q n) ≡ true = (==_iff _ _).1 refl in
      bucket q (home q n) ∙ rw same refl

  rehash-IsStored : IsStored (rehash s)
  unfolding rehash
  rehash-IsStored = record {
    roomy = some_room;
    width = ap length (move_all-flatten n s.buckets (replicate n [])) ∙ moved.width;
    homes = λ q i other.
        let apart : (home q n == i) ≡ false = ground arith in bucket q i ∙ rw apart refl;
  }

found :
    (q : Text) (chain : List (Entry (Unit {0})))
    → elim (find q chain) as (λ _. Bool) [ none ↦ false | some e ↦ true ] ≡ ltb 0 (count q chain)
unfolding find count
found q [] = refl
found q (e ∷ chain) = ground (arith, found q chain)

-- A set contains the texts that are there at least once.
hs_contains-times : (s : HashSet) (q : Text) → hs_contains s q ≡ ltb 0 (times s q)
unfolding hs_contains times get
hs_contains-times s q = found q (get_or s.buckets (home q s.capacity) [])

-- 1 for the text that is put in.
abbrev pub one_more : Str → Text → ℕ
one_more str q = if str_eq q str.text then 1 else 0

put_times :
    (s : HashSet) (str : Str)
    → IsStored s
    → IsStored (hs_put s str) × ((q : Text) → times (hs_put s str) q ≡ times s q + one_more str q)
unfolding hs_put insert
put_times s str stored = elim (Bool-cases (ltb (2 * s.capacity) (s.size + 1))) [
  | inl over ↦ rw over (
      let p = pushed-IsStored s stored str in
      (
        rehash-IsStored (pushed s stored str) p (omega arith),
        λ q. rehash-times (pushed s stored str) p (omega arith) q ∙ pushed-times s stored str q,
      ))
  | inr fits ↦ rw fits (pushed-IsStored s stored str, pushed-times s stored str)
]

-- In a set that has every entry in the bucket of its hash, a text that is put in is there once more
-- than before, and every other text as often as before, whether or not the set rehashes; the
-- set contains what is there at least once, and still has every entry in its bucket.
pub hs_put-times :
    (s : HashSet) (str : Str)
    → IsStored s
    → IsStored (hs_put s str)
      × ((q : Text) → times (hs_put s str) q ≡ times s q + one_more str q)
      × ((q : Text) → hs_contains (hs_put s str) q ≡ ltb 0 (times s q + one_more str q))
hs_put-times s str stored =
    let (kept, counted) = put_times s str stored in
    (kept, counted, λ q. hs_contains-times (hs_put s str) q ∙ ap (ltb 0) (counted q))
