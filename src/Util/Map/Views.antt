-- ===== src/Util/Map/Views.antt =====
-- What the buckets mean: how often a text occurs, where, and what a rehash does to both.
use amalgam_asm.Base.{
  ℕ, zero, suc, ◌+◌, ◌%◌, ◌≤◌, ◌<◌, ◌≡◌, ◌≢◌, refl, ◌==◌, true, Option, none, some, List, [], ◌∷◌,
  ◌++◌, if◌then◌else◌, length, get_or, set, length-append, length-set, get_or-set, arith, ==_iff,
  Bool-cases, inl, inr, ap, ◌∙◌,
}
use amalgam_asm.Base.Text.{Text, str_eq, str_eq_iff}
use amalgam_asm.Util.Map.{Entry, Str, hash, hit, find, home, push, move_chain, move_all}
use mathlib.Core.List.{flatten}
use mathlib.Core.Option.{or_else}

module _ {ℓ} {V : Type ℓ} where
  pub hit-home : (q : Text) (e : Entry V) (n : ℕ) → hit q e ≡ true → e.key % n ≡ home q n
  unfolding hit
  hit-home q e n h = ground (arith, ap (λ (k : ℕ). k % n))

  -- An entry made for the key `s` is hit by the text of `s` alone.
  pub hit-made :
      (q : Text) (s : Str) (v : V)
      → hit q (record { key = hash s.text; str = s; value = v }) ≡ str_eq q s.text
  unfolding hit
  hit-made q s v = ground (arith, str_eq_iff q s.text, ap hash)

  pub hit-same : (q s : Text) (e : Entry V) → hit s e ≡ true → hit q e ≡ str_eq q s
  unfolding hit
  hit-same q s e h =
      ground (arith, str_eq_iff q e.str.text, str_eq_iff s e.str.text, str_eq_iff q s, ap hash)

  unfoldable pub count : Text → List (Entry V) → ℕ
  count q [] = 0
  count q (e ∷ c) = (if hit q e then 1 else 0) + count q c

  -- The last entry that `q` hits, or `acc`.
  unfoldable pub last_of : Text → List (Entry V) → Option (Entry V) → Option (Entry V)
  last_of q [] acc = acc
  last_of q (e ∷ c) acc = last_of q c (if hit q e then some e else acc)

  pub count-append : (q : Text) (a b : List (Entry V)) → count q (a ++ b) ≡ count q a + count q b
  unfolding count
  count-append q [] b = omega arith
  count-append q (e ∷ a) b = omega (arith, count-append q a b)

  pub find-eq-none : (q : Text) (c : List (Entry V)) → count q c ≡ 0 → find q c ≡ none
  unfolding count find
  find-eq-none q [] h = refl
  find-eq-none q (e ∷ c) h = ground (arith, find-eq-none q c)

  pub count-eq-zero : (q : Text) (c : List (Entry V)) → find q c ≡ none → count q c ≡ 0
  unfolding count find
  count-eq-zero q [] h = refl
  count-eq-zero q (e ∷ c) h = ground (arith, count-eq-zero q c)

  last_of-append :
      (q : Text) (a b : List (Entry V)) (acc : Option (Entry V))
      → last_of q (a ++ b) acc ≡ last_of q b (last_of q a acc)
  unfolding last_of
  last_of-append q [] b acc = refl
  last_of-append q (e ∷ a) b acc = last_of-append q a b _

  last_of_absent :
      (q : Text) (c : List (Entry V)) (acc : Option (Entry V))
      → count q c ≡ 0
      → last_of q c acc ≡ acc
  unfolding last_of count
  last_of_absent q [] acc h = refl
  last_of_absent q (e ∷ c) acc h = ground (arith, last_of_absent q c acc)

  pub last_of-find :
      (q : Text) (c : List (Entry V)) (acc : Option (Entry V))
      → count q c ≤ 1
      → last_of q c acc ≡ or_else (find q c) acc
  unfolding last_of count find or_else
  last_of-find q [] acc h = refl
  last_of-find q (e ∷ c) acc h = ground (arith, last_of-find q c acc, last_of_absent q c (some e))

  -- Every text occurs at most once, and only in its home bucket.
  abbrev pub IsPlaced : ℕ → List (List (Entry V)) → Type 0
  IsPlaced n bs =
      (q : Text) (i : ℕ)
      → (count q (get_or bs i []) ≤ 1) × (home q n ≢ i → count q (get_or bs i []) ≡ 0)

  count-flatten_nowhere :
      (q : Text) (bs : List (List (Entry V)))
      → ((i : ℕ) → count q (get_or bs i []) ≡ 0)
      → count q (flatten bs) ≡ 0
  unfolding flatten count
  count-flatten_nowhere q [] h = refl
  count-flatten_nowhere q (c ∷ cs) h =
      rw (count-append, h 0, count-flatten_nowhere q cs (λ i. h (suc i)))

  pub last_of-flatten :
      (q : Text) (bs : List (List (Entry V))) (j : ℕ) (acc : Option (Entry V))
      → ((i : ℕ) → j ≢ i → count q (get_or bs i []) ≡ 0)
      → (last_of q (flatten bs) acc ≡ last_of q (get_or bs j []) acc)
        × (count q (flatten bs) ≡ count q (get_or bs j []))
  unfolding flatten count last_of
  last_of-flatten q [] j acc h = (refl, refl)
  last_of-flatten q (c ∷ cs) zero acc h =
      let rest = count-flatten_nowhere q cs (λ i. h (suc i) (omega arith)) in
      (
        last_of-append q c (flatten cs) acc ∙ last_of_absent q (flatten cs) _ rest,
        omega (arith, count-append q c (flatten cs)),
      )
  last_of-flatten q (c ∷ cs) (suc j) acc h =
      let here = h 0 (omega arith) in
      let (found, counted) = last_of-flatten q cs j acc (λ i n. h (suc i) (omega arith)) in
      (
        rw (last_of-append q c (flatten cs) acc, last_of_absent q c acc here) found,
        omega (arith, count-append q c (flatten cs)),
      )

  -- The two nested loops of a rehash are one loop over all entries.
  move_chain-append :
      (n : ℕ) (a b : List (Entry V)) (fresh : List (List (Entry V)))
      → move_chain n (a ++ b) fresh ≡ move_chain n b (move_chain n a fresh)
  unfolding move_chain
  move_chain-append n [] b fresh = refl
  move_chain-append n (e ∷ a) b fresh = move_chain-append n a b _

  pub move_all-flatten :
      (n : ℕ) (bs fresh : List (List (Entry V)))
      → move_all n bs fresh ≡ move_chain n (flatten bs) fresh
  unfolding move_all move_chain flatten
  move_all-flatten n [] fresh = refl
  move_all-flatten n (c ∷ cs) fresh =
      rw (move_chain-append n c (flatten cs) fresh) (move_all-flatten n cs _)

  pub length-flatten-set :
      (bs : List (List (Entry V))) (i : ℕ) (c : List (Entry V))
      → i < length bs
      → length (flatten (set bs i c)) + length (get_or bs i []) ≡ length (flatten bs) + length c
  unfolding flatten
  length-flatten-set [] i c h = absurd (omega arith)
  length-flatten-set (x ∷ bs) zero c h =
      omega (arith, length-append c (flatten bs), length-append x (flatten bs))
  length-flatten-set (x ∷ bs) (suc i) c h = omega (
    arith,
    length-append x (flatten bs),
    length-append x (flatten (set bs i c)),
    length-flatten-set bs i c (omega arith),
  )

  pub length-push :
      (n : ℕ) (e : Entry V) (bs : List (List (Entry V))) → length (push n e bs) ≡ length bs
  unfolding push
  length-push n e bs = length-set bs _ _

  module _ (n : ℕ) (pos : 0 < n) where
    pub find-push :
        (q : Text) (e : Entry V) (bs : List (List (Entry V)))
        → length bs ≡ n
        → find q (get_or (push n e bs) (home q n) [])
          ≡ (if hit q e then some e else find q (get_or bs (home q n) []))
    unfolding push find
    find-push q e bs w =
        rw (get_or-set bs (e.key % n) (home q n) (e ∷ get_or bs (e.key % n) []) [] (omega arith))
          (elim (Bool-cases (e.key % n == home q n)) [
            | inl same ↦ rw (same, (==_iff _ _).0 same)
            | inr apart ↦ elim (Bool-cases (hit q e)) [
              | inl h ↦ absurd (ground (arith, hit-home q e n))
              | inr miss ↦ rw (apart, miss)
            ]
          ])

    pub count-push :
        (q : Text) (e : Entry V) (bs : List (List (Entry V))) (i : ℕ)
        → length bs ≡ n
        → count q (get_or (push n e bs) i [])
          ≡ (if hit q e then (if home q n == i then 1 else 0) else 0) + count q (get_or bs i [])
    unfolding push count
    count-push q e bs i w =
        rw (get_or-set bs (e.key % n) i (e ∷ get_or bs (e.key % n) []) [] (omega arith))
          (ground (arith, hit-home q e n))

    pub length-flatten-push :
        (e : Entry V) (bs : List (List (Entry V)))
        → length bs ≡ n
        → length (flatten (push n e bs)) ≡ length (flatten bs) + 1
    unfolding push
    length-flatten-push e bs w =
        omega
          (arith, length-flatten-set bs (e.key % n) (e ∷ get_or bs (e.key % n) []) (omega arith))

    pub record Moved (es : List (Entry V)) (fresh out : List (List (Entry V))) : Type ℓ where
      pub width : length out ≡ n
      pub entries : length (flatten out) ≡ length (flatten fresh) + length es
      pub reads :
          (q : Text)
          → find q (get_or out (home q n) []) ≡ last_of q es (find q (get_or fresh (home q n) []))
      pub counts :
          (q : Text) (i : ℕ)
          → count q (get_or out i [])
            ≡ (if home q n == i then count q es else 0) + count q (get_or fresh i [])

    pub move_chain-Moved :
        (es : List (Entry V)) (fresh : List (List (Entry V)))
        → length fresh ≡ n
        → Moved es fresh (move_chain n es fresh)
    unfolding move_chain last_of count
    move_chain-Moved [] fresh w = record {
      width = w;
      entries = omega arith;
      reads = λ q. refl;
      counts = λ q i. ground arith;
    }
    move_chain-Moved (e ∷ es) fresh w =
        let t = move_chain-Moved es (push n e fresh) (length-push n e fresh ∙ w) in
        record {
          width = t.width;
          entries = omega (arith, t.entries, length-flatten-push e fresh w);
          reads = λ q. t.reads q ∙ ap (last_of q es) (find-push q e fresh w);
          counts = λ q i. ground (arith, t.counts q i, count-push q e fresh i w);
        }
