-- ===== src/Util/Array.antt =====
-- array_t of src/util.c: a block of pointers with its size. `null` is the null pointer. `ar_make`
-- leaves the cells of a new block undefined; here they come as an argument.
use amalgam_asm.Base.{
  ℕ, zero, suc, ◌+◌, ◌-◌, ◌≤◌, ◌<◌, ◌≡◌, refl, ◌==◌, ltb, leb, true, false, ◌&&◌, ◌||◌, Option,
  none, some, List, [], ◌∷◌, if◌then◌else◌, length, get_or, set, get_or-set, arith, Bool-cases, inl,
  inr, ap, ◌∙◌,
}
use mathlib.Core.Option

ltb-suc : (a b : ℕ) → ltb (suc a) (suc b) ≡ ltb a b
ltb-suc a b = ground arith

pub record Array {ℓ} (V : Type ℓ) : Type ℓ where
  pub size : ℕ
  pub cells : List V

module _ {ℓ} {V : Type ℓ} where
  unfoldable pub ar_make : ℕ → List V → Array V
  ar_make size junk = record { size = size; cells = junk }

  -- As many cells as the size says.
  pub record IsFull (a : Array V) : Type 0 where
    pub filled : length a.cells ≡ a.size

  module _ (null : V) where
    unfoldable pub ar_get : Array V → ℕ → V
    ar_get a i = if leb a.size i then null else get_or a.cells i null

    -- The array, and the pointer that was replaced.
    unfoldable pub ar_set : Array V → ℕ → V → Array V × V
    ar_set a i v =
        if leb a.size i
        then (a, null)
        else (record a { cells = set a.cells i v }, get_or a.cells i null)

  -- The loop of `ar_cutout`: the pointers that are kept, and those that are freed.
  unfoldable pub cut : ℕ → ℕ → ℕ → List V → List V × List V
  cut i start end [] = ([], [])
  cut i start end (v ∷ vs) =
      let rest = cut (suc i) start end vs in
      if ltb i start || leb end i then (rest.0, v ∷ rest.1) else (v ∷ rest.0, rest.1)

  -- The array, and the pointers that were freed. A start beyond the end asks for more memory than
  -- there is, and the program exits: `none`.
  unfoldable pub ar_cutout : Array V → ℕ → ℕ → Option (Array V × List V)
  unfolding cut
  ar_cutout a start end =
      if ltb a.size end
      then some (a, [])
      else if ltb end start
      then none
      else let r = cut 0 start end a.cells in some (record { size = end - start; cells = r.0 }, r.1)

  -- A write is read back at its index, when that is in range, and changes no other cell of an
  -- array that has as many cells as its size says.
  pub ar_get-ar_set :
      (null : V) (a : Array V) (i j : ℕ) (v : V)
      → IsFull a
      → ar_get null (ar_set null a i v).0 j
        ≡ (if ltb i a.size && i == j then v else ar_get null a j)
  unfolding ar_get ar_set
  ar_get-ar_set null a i j v full = elim (Bool-cases (leb a.size i)) [
    | inl beyond ↦ let outside : ltb i a.size ≡ false = ground arith in rw (beyond, outside) refl
    | inr inside ↦
        let within : ltb i a.size ≡ true = ground arith in
        let there = get_or-set a.cells i j v null (ground (arith, full.filled)) in
        rw (inside, within, there)
          (elim (Bool-cases (i == j)) [
            | inl here ↦ let near : leb a.size j ≡ false = ground arith in rw (here, near) refl
            | inr away ↦ rw away refl
          ])
  ]

  -- A cell that is dropped shifts what is read by one.
  shifts :
      (null : V) (i start end j : ℕ) (v : V) (vs : List V)
      → i < start
      → start ≤ end
      → (if ltb (j + (start - suc i)) (end - suc i)
          then get_or vs (j + (start - suc i)) null
          else null)
        ≡ (if ltb (j + (start - i)) (end - i) then get_or (v ∷ vs) (j + (start - i)) null else null)
  shifts null i start end j v vs early ordered =
      let at : j + (start - i) ≡ suc (j + (start - suc i)) = omega arith in
      let up : end - i ≡ suc (end - suc i) = omega arith in
      rw (at, up, ltb-suc (j + (start - suc i)) (end - suc i)) refl

  -- A cell that is kept is the first that is read.
  keeps :
      (null : V) (i start end j : ℕ) (v : V) (vs kept : List V)
      → start ≤ i
      → i < end
      → ((k : ℕ)
          → get_or kept k null ≡ (
              if ltb (k + (start - suc i)) (end - suc i)
              then get_or vs (k + (start - suc i)) null
              else null))
      → get_or (v ∷ kept) j null
        ≡ (if ltb (j + (start - i)) (end - i) then get_or (v ∷ vs) (j + (start - i)) null else null)
  keeps null i start end zero v vs kept started now rest =
      let at : zero + (start - i) ≡ zero = omega arith in
      let within : ltb zero (end - i) ≡ true = ground arith in rw (at, within) refl
  keeps null i start end (suc j) v vs kept started now rest =
      let at : suc j + (start - i) ≡ suc (j + (start - suc i)) = omega arith in
      let up : end - i ≡ suc (end - suc i) = omega arith in
      rw (at, up, ltb-suc (j + (start - suc i)) (end - suc i)) (rest j)

  cut-reads :
      (null : V) (i start end j : ℕ) (vs : List V)
      → start ≤ end
      → get_or (cut i start end vs).0 j null
        ≡ (if ltb (j + (start - i)) (end - i) then get_or vs (j + (start - i)) null else null)
  unfolding cut
  cut-reads null i start end j [] ordered = elim (Bool-cases (ltb (j + (start - i)) (end - i))) [
    | inl within ↦ rw within refl
    | inr beyond ↦ rw beyond refl
  ]
  cut-reads null i start end j (v ∷ vs) ordered = elim (Bool-cases (ltb i start)) [
    | inl early ↦ rw early (
        cut-reads null (suc i) start end j vs ordered
        ∙ shifts null i start end j v vs (ground arith) ordered)
    | inr started ↦ elim (Bool-cases (leb end i)) [
      | inl late ↦
          let past : ltb (j + (start - i)) (end - i) ≡ false = ground arith in
          let past' : ltb (j + (start - suc i)) (end - suc i) ≡ false = ground arith in
          rw (started, late, cut-reads null (suc i) start end j vs ordered, past, past') refl
      | inr now ↦
          rw (started, now)
            (keeps null i start end j v vs (cut (suc i) start end vs).0 (ground arith)
              (ground arith) (λ k. cut-reads null (suc i) start end k vs ordered))
    ]
  ]

  -- A cut from a start to an end inside an array that has as many cells as its size says leaves
  -- the cells between the two, in their order, and nothing behind them.
  pub ar_get-ar_cutout :
      (null : V) (a : Array V) (start end j : ℕ)
      → IsFull a
      → start ≤ end
      → end ≤ a.size
      → Option.map (λ r. ar_get null r.0 j) (ar_cutout a start end)
        ≡ some (if ltb j (end - start) then ar_get null a (j + start) else null)
  unfolding ar_get ar_cutout
  ar_get-ar_cutout null a start end j full ordered inside =
      let fits : ltb a.size end ≡ false = ground arith in
      let forward : ltb end start ≡ false = ground arith in
      rw (fits, forward)
        (elim (Bool-cases (ltb j (end - start))) [
          | inl within ↦
              let below : leb (end - start) j ≡ false = ground arith in
              let there : leb a.size (j + start) ≡ false = ground arith in
              let near : ltb (j + (start - 0)) (end - 0) ≡ true = ground arith in
              let same : j + (start - 0) ≡ j + start = omega arith in
              rw (within, below, there)
                (ap some (
                  cut-reads null 0 start end j a.cells ordered
                  ∙ rw (near) (ap (λ k. get_or a.cells k null) same)))
          | inr beyond ↦
              let above : leb (end - start) j ≡ true = ground arith in rw (beyond, above) refl
        ])
