-- ===== src/Util/Map/Laws.antt =====
-- The laws of the hash map: what a lookup returns after each operation, and the invariant.
use amalgam_asm.Base.{
  ℕ, zero, suc, ◌+◌, ◌*◌, ◌/◌, ◌≤◌, ◌<◌, ◌≡◌, refl, ltb, Bool, true, false, Option, none, some,
  List, [], if◌then◌else◌, length, get_or, replicate, get_or-replicate, length-replicate, arith,
  Bool-cases, inl, inr, ap, sym, ◌∙◌,
}
use amalgam_asm.Base.Text.{Text, str_eq, str_eq_iff}
use amalgam_asm.Util.Map.{
  Entry, Str, HashMap, hash, find, home, get, make, push, move_all, rehash, insert,
}
use amalgam_asm.Util.Map.Views.{
  hit-made, count, count-eq-zero, IsPlaced, last_of-flatten, last_of-find, move_all-flatten,
  length-push, find-push, count-push, length-flatten-push, Moved, move_chain-Moved,
}
use mathlib.Core.List.{flatten}
use mathlib.Core.Option
use mathlib.Core.Option.{or_else}

module _ {ℓ} {V : Type ℓ} where
  -- The invariant of a map: as many buckets as the capacity, entries in place, the count right,
  -- at most two entries to a bucket on average.
  pub record IsValid (m : HashMap V) : Type 0 where
    pub roomy : 0 < m.capacity
    pub width : length m.buckets ≡ m.capacity
    pub placed : IsPlaced m.capacity m.buckets
    pub entries : m.size ≡ length (flatten m.buckets)
    pub load : m.size ≤ 2 * m.capacity

  -- The abstract map: the value under a text.
  unfoldable pub view : HashMap V → Text → Option V
  view m q = Option.map (λ e. e.value) (get m q)

  abbrev pub update : (Text → Option V) → Text → Option V → Text → Option V
  update f s v q = if str_eq q s then v else f q

  flatten-replicate : (n : ℕ) → flatten {A = Entry V} (replicate n []) ≡ []
  unfolding flatten replicate
  flatten-replicate zero = refl
  flatten-replicate (suc n) = flatten-replicate n

  or_else-none : (o : Option (Entry V)) → or_else o none ≡ o
  unfolding or_else
  or_else-none none = refl
  or_else-none (some e) = refl

  module _ (m : HashMap V) (placed : IsPlaced m.capacity m.buckets) (n : ℕ) (pos : 0 < n) where
    abbrev spread : List (List (Entry V))
    spread = move_all n m.buckets (replicate n [])

    spread-Moved : Moved n pos (flatten m.buckets) (replicate n []) spread
    spread-Moved =
        rw (move_all-flatten n m.buckets (replicate n []))
          (move_chain-Moved n pos (flatten m.buckets) (replicate n []) (length-replicate n []))

    spread-find :
        (q : Text)
        → find q (get_or spread (home q n) []) ≡ find q (get_or m.buckets (home q m.capacity) [])
    unfolding find or_else
    spread-find q =
        let t = spread-Moved in
        let j = home q m.capacity in
        let (same, _) = last_of-flatten q m.buckets j none (λ i. (placed q i).1) in
        t.reads q
        ∙ rw (get_or-replicate {A = List (Entry V)} n (home q n) []) (
            same
            ∙ last_of-find q (get_or m.buckets j []) none (placed q j).0
            ∙ or_else-none (find q (get_or m.buckets j [])))

    spread-IsPlaced : IsPlaced n spread
    unfolding count
    spread-IsPlaced q i =
        let j = home q m.capacity in
        let counted = (last_of-flatten q m.buckets j none (λ k. (placed q k).1)).1 in
        let c = spread-Moved.counts q i in
        let z = ap (count q) (get_or-replicate {A = List (Entry V)} n i []) in
        ground (arith, c, z, counted, placed q j)

    spread-entries : length (flatten spread) ≡ length (flatten m.buckets)
    spread-entries = spread-Moved.entries ∙ rw (flatten-replicate n) (omega arith)

  if_map :
      (b : Bool) (o p : Option (Entry V))
      → Option.map (λ e. e.value) (if b then o else p)
        ≡ (if b then Option.map (λ e. e.value) o else Option.map (λ e. e.value) p)
  if_map true o p = refl
  if_map false o p = refl

  pub make-IsValid : IsValid (make {V = V})
  unfolding make count flatten
  make-IsValid = record {
    roomy = omega arith;
    width = length-replicate {A = List (Entry V)} 8 [];
    placed = λ q i. rw (get_or-replicate {A = List (Entry V)} 8 i []) (omega arith);
    entries = sym (ap length (flatten-replicate 8));
    load = omega arith;
  }

  -- A rehash keeps every lookup, and restores the invariant where only the load was too high.
  module _ (m : HashMap V) (placed : IsPlaced m.capacity m.buckets) where
    -- In a map whose entries stand in the buckets of their hashes, every text at most once, and
    -- that is not empty, a rehash changes the value under no text.
    pub rehash-view : 0 < m.size → (q : Text) → view (rehash m) q ≡ view m q
    unfolding view rehash get
    rehash-view pos q =
        ap (Option.map (λ e. e.value)) (spread-find m placed (m.size * 4 / 3) (omega arith) q)

    pub rehash-IsValid : 0 < m.size → m.size ≡ length (flatten m.buckets) → IsValid (rehash m)
    unfolding rehash
    rehash-IsValid pos entries =
        let n = m.size * 4 / 3 in
        let some_room : 0 < n = omega arith in
        record {
          roomy = some_room;
          width = (spread-Moved m placed n some_room).width;
          placed = spread-IsPlaced m placed n some_room;
          entries = entries ∙ sym (spread-entries m placed n some_room);
          load = omega arith;
        }

  module _ (m : HashMap V) (valid : IsValid m) (s : Str) (v : V) where
    abbrev made : Entry V
    made = record { key = hash s.text; str = s; value = v }

    abbrev pushed : HashMap V
    pushed = record m { size = m.size + 1; buckets = push m.capacity made m.buckets }

    pushed-view : (q : Text) → view pushed q ≡ update (view m) s.text (some v) q
    unfolding view get
    pushed-view q =
        rw (find-push m.capacity valid.roomy q made m.buckets valid.width, hit-made q s v)
          (if_map (str_eq q s.text) (some made) (find q (get_or m.buckets (home q m.capacity) [])))

    module _ (absent : get m s.text ≡ none) where
      absent_at :
          (q : Text)
          → str_eq q s.text ≡ true
          → count q (get_or m.buckets (home q m.capacity) []) ≡ 0
      unfolding get
      absent_at q e = count-eq-zero q _ (rw ((str_eq_iff q s.text).0 e) absent)

      pushed-IsPlaced : IsPlaced m.capacity pushed.buckets
      pushed-IsPlaced q i = ground (
        arith,
        count-push m.capacity valid.roomy q made m.buckets i valid.width,
        valid.placed q i,
        hit-made q s v,
        absent_at q,
      )

      pushed-entries : pushed.size ≡ length (flatten pushed.buckets)
      pushed-entries = omega (
        arith,
        length-flatten-push m.capacity valid.roomy made m.buckets valid.width,
        valid.entries,
      )

      pub insert-IsValid : IsValid (insert m s v)
      unfolding insert
      insert-IsValid = elim (Bool-cases (ltb (2 * m.capacity) (m.size + 1))) [
        | inl over ↦ rw over (rehash-IsValid pushed pushed-IsPlaced (omega arith) pushed-entries)
        | inr fits ↦ rw fits (record {
          roomy = valid.roomy;
          width = length-push m.capacity made m.buckets ∙ valid.width;
          placed = pushed-IsPlaced;
          entries = pushed-entries;
          load = ground arith;
        })
      ]

      pub insert-view : (q : Text) → view (insert m s v) q ≡ update (view m) s.text (some v) q
      unfolding insert
      insert-view q = elim (Bool-cases (ltb (2 * m.capacity) (m.size + 1))) [
        | inl over ↦ rw over (rehash-view pushed pushed-IsPlaced (omega arith) q ∙ pushed-view q)
        | inr fits ↦ rw fits (pushed-view q)
      ]

      pub insert-size : (insert m s v).size ≡ m.size + 1
      unfolding insert rehash
      insert-size = elim (Bool-cases (ltb (2 * m.capacity) (m.size + 1))) [
        | inl over ↦ rw over
        | inr fits ↦ rw fits
      ]
