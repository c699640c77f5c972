-- ===== src/Util/Map/Writes.antt =====
-- `hm_put` and `hm_erase` against the abstract map.
use amalgam_asm.Base.{
  ℕ, ◌+◌, ◌<◌, ◌≡◌, refl, ◌==◌, Bool, true, false, Option, none, some, List, [], ◌∷◌, if◌then◌else◌,
  length, get_or, set, length-set, get_or-set, arith, Bool-cases, Option-cases, inl, inr, ap, ◌∙◌,
  sym, ==_iff,
}
use amalgam_asm.Base.Text.{Text, str_eq, str_eq_iff}
use amalgam_asm.Util.Map.{Entry, Str, HashMap, hit, find, home, get, put, assign}
use amalgam_asm.Util.Map.Views.{hit-same, count, length-flatten-set}
use amalgam_asm.Util.Map.Laws.{IsValid, view, update, insert-IsValid, insert-view, insert-size}
use mathlib.Core.Option

module _ {ℓ} {V : Type ℓ} where
  abbrev value_of : Option (Entry V) → Option V
  value_of o = Option.map (λ e. e.value) o

  hit-record : (q : Text) (e : Entry V) (v : V) → hit q (record e { value = v }) ≡ hit q e
  unfolding hit
  hit-record q e v = refl

  hit-clash : (q s : Text) (e : Entry V) → str_eq q s ≡ true → hit q e ≡ hit s e
  hit-clash q s e h = rw ((str_eq_iff q s).0 h)

  if_hit :
      (b : Bool) (e : Entry V) (v : V) (p : Option (Entry V))
      → value_of (if b then some (record e { value = v }) else p)
        ≡ (if b then some v else value_of (if b then some e else p))
  if_hit true e v p = refl
  if_hit false e v p = refl

  find-assign :
      (q s : Text) (v : V) (c : List (Entry V)) (e : Entry V)
      → find s c ≡ some e
      → value_of (find q (assign s v c)) ≡ (if str_eq q s then some v else value_of (find q c))
  unfolding find assign
  find-assign q s v [] e h = cc
  find-assign q s v (x ∷ c) e h = elim (Bool-cases (hit s x)) [
    | inl here ↦
        rw (here, hit-record q x v, hit-same q s x here) (if_hit (str_eq q s) x v (find q c))
    | inr miss ↦ elim (Bool-cases (hit q x)) [
      | inl this ↦
          rw (miss, this)
            (elim (Bool-cases (str_eq q s)) [
              | inl same ↦ absurd (ground (arith, hit-clash q s x same))
              | inr other ↦ rw other
            ])
      | inr other ↦ rw (miss, other) (find-assign q s v c e (rw miss at h))
    ]
  ]

  count-assign : (q s : Text) (v : V) (c : List (Entry V)) → count q (assign s v c) ≡ count q c
  unfolding count assign
  count-assign q s v [] = refl
  count-assign q s v (x ∷ c) = ground (arith, count-assign q s v c, hit-record q x v)

  length-assign : (s : Text) (v : V) (c : List (Entry V)) → length (assign s v c) ≡ length c
  unfolding assign
  length-assign s v [] = refl
  length-assign s v (x ∷ c) = ground (arith, length-assign s v c)

  -- Whether a lookup found something, as a count.
  abbrev pub occupied : Option V → ℕ
  occupied none = 0
  occupied (some v) = 1

  -- What `hm_put` promises.
  pub record Stores (m : HashMap V) (s : Str) (v : V) (r : HashMap V × Option V) : Type ℓ where
    pub valid : IsValid r.0
    pub reads : (q : Text) → view r.0 q ≡ update (view m) s.text (some v) q
    pub old : r.1 ≡ view m s.text
    pub size : r.0.size + occupied r.1 ≡ m.size + 1

  module _ (m : HashMap V) (valid : IsValid m) (s : Str) (v : V) where
    abbrev i : ℕ
    i = home s.text m.capacity

    abbrev chain : List (Entry V)
    chain = get_or m.buckets i []

    i-lt : i < length m.buckets
    i-lt = omega (arith, valid.width, valid.roomy)

    abbrev replaced : HashMap V
    replaced = record m { buckets = set m.buckets i (assign s.text v chain) }

    get_or-replaced :
        (j : ℕ)
        → get_or replaced.buckets j []
          ≡ (if i == j then assign s.text v chain else get_or m.buckets j [])
    get_or-replaced j = get_or-set m.buckets i j (assign s.text v chain) [] i-lt

    replaced-IsValid : IsValid replaced
    replaced-IsValid = record {
      roomy = valid.roomy;
      width = length-set m.buckets i (assign s.text v chain) ∙ valid.width;
      placed = λ q j.
          rw (get_or-replaced j)
            (ground (arith, valid.placed q j, valid.placed q i, count-assign q s.text v chain));
      entries = omega (
        arith,
        length-flatten-set m.buckets i (assign s.text v chain) i-lt,
        length-assign s.text v chain,
        valid.entries,
      );
      load = valid.load;
    }

    home_congr : (q : Text) → str_eq q s.text ≡ true → i ≡ home q m.capacity
    home_congr q h = rw ((str_eq_iff q s.text).0 h)

    replaced-view :
        (e : Entry V)
        → get m s.text ≡ some e
        → (q : Text) → view replaced q ≡ update (view m) s.text (some v) q
    unfolding view get
    replaced-view e found q =
        rw (get_or-replaced (home q m.capacity)) (elim (Bool-cases (i == home q m.capacity)) [
          | inl here ↦ rw (here, ← (==_iff _ _).0 here) (find-assign q s.text v chain e found)
          | inr away ↦ rw away (elim (Bool-cases (str_eq q s.text)) [
            | inl same ↦ absurd (ground (arith, home_congr q same))
            | inr other ↦ rw other
          ])
        ])

  -- `hm_put` binds the text to the value and nothing else, returns what was bound before, keeps
  -- the invariant, and grows the map by one exactly when the text is new; a rehash changes none
  -- of this.
  pub put-Stores : (m : HashMap V) → IsValid m → (s : Str) (v : V) → Stores m s v (put m s v)
  unfolding put view
  put-Stores m valid s v = elim (Option-cases (get m s.text)) [
    | inl absent ↦
        rw (absent, put)
          (record {
            valid = insert-IsValid m valid s v absent;
            reads = insert-view m valid s v absent;
            old = sym (ap value_of absent);
            size = omega (arith, insert-size m valid s v absent);
          })
    | inr (e, found) ↦
        rw (found, put)
          (record {
            valid = replaced-IsValid m valid s v;
            reads = replaced-view m valid s v e found;
            old = sym (ap value_of found);
            size = omega arith;
          })
  ]
