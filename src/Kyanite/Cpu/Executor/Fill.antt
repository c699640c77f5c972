-- ===== src/Kyanite/Cpu/Executor/Fill.antt =====
-- The fetch of a cache line: DTR_CACHE (src/kyanite_legacy.c), with a memory that answers each read
-- before the next run of the detour.
use amalgam_asm.Base.{
  ℕ, zero, suc, ◌+◌, ◌-◌, ◌/◌, ◌<◌, ◌≡◌, refl, ◌==◌, ltb, true, false, List, length, get_or, set,
  length-set, get_or-set, get_or-set_same, arith, Bool-cases, inl, inr, ap, ◌∙◌, ==_iff,
}
use amalgam_asm.Base.Bits.{u16}
use amalgam_asm.Kyanite.Cpu.{
  Core, word_at, header_at, header, with_valid, with_dirty, with_tag, tag_of, is_valid,
  change_header, present, dtr_mem_read,
}
use amalgam_asm.Kyanite.Cpu.Addr
use amalgam_asm.Kyanite.Cpu.Executor.{cache_tick}
use amalgam_asm.Kyanite.Cpu.Parser.{set_status}

-- The reply of a memory to the read that the CPU has asked for.
abbrev pub answered : (ℕ → ℕ) → Core → Core
answered memory core = record core {
  shared = record core.shared {
    status = record core.shared.status { dtr_mem = false };
    bus_data = memory core.bus_address;
  };
}

-- Ticks of the fetch.
unfoldable pub fill : (ℕ → ℕ) → ℕ → Core → Core
fill memory zero core = core
fill memory (suc n) core = cache_tick (answered memory (fill memory n core))

-- The line that is fetched, and the array once a word has come.
abbrev line_of : Core → ℕ
line_of core = Addr.line core.cache_address

abbrev received : Core → List ℕ
received core =
    set core.cache_lines (word_at (line_of core) (core.cache_status - 33)) core.shared.bus_data

tick_first :
    (core : Core)
    → core.cache_status ≡ 32
    → cache_tick core
      ≡ dtr_mem_read
          (record core {
            cache_status = core.cache_status + 1;
            cache_lines = change_header (with_valid 0) (line_of core) core.cache_lines;
          })
          (core.cache_address / 4 + core.cache_status)
unfolding cache_tick
tick_first core at =
    let over : ltb core.cache_status 32 ≡ false = ground arith in
    let under : ltb core.cache_status 64 ≡ true = ground arith in
    let first : (core.cache_status == 32) ≡ true = ground arith in rw (over, under, first) refl

tick_next :
    (core : Core)
    → 32 < core.cache_status
    → core.cache_status < 64
    → cache_tick core
      ≡ dtr_mem_read
          (record core { cache_status = core.cache_status + 1; cache_lines = received core })
          (core.cache_address / 4 + core.cache_status)
unfolding cache_tick
tick_next core low high =
    let over : ltb core.cache_status 32 ≡ false = ground arith in
    let under : ltb core.cache_status 64 ≡ true = ground arith in
    let later : (core.cache_status == 32) ≡ false = ground arith in rw (over, under, later) refl

-- The header of a line that has come.
abbrev fresh_header : ℕ → ℕ → ℕ
fresh_header a h = with_tag (Addr.tag a) (with_dirty 0 (with_valid 1 h))

tick_last :
    (core : Core)
    → core.cache_status ≡ 64
    → cache_tick core
      ≡ set_status
          (record core {
            cache_lines =
                change_header (fresh_header core.cache_address) (line_of core) (received core);
          })
          (record core.shared.status { dtr_cache = false })
unfolding cache_tick
tick_last core at =
    let over : ltb core.cache_status 32 ≡ false = ground arith in
    let over' : ltb core.cache_status 64 ≡ false = ground arith in rw (over, over') refl

-- With `n` words in the line, and the next one asked for. The memory is read from 32 words behind the
-- address on.
record Filling (memory : ℕ → ℕ) (a n : ℕ) (c : Core) : Type 0 where
  address : c.cache_address ≡ a
  status : c.cache_status ≡ 33 + n
  asked : c.bus_address ≡ u16 (a / 4 + 32 + n)
  size : length c.cache_lines ≡ 264
  words :
      (i : ℕ)
      → i < n
      → get_or c.cache_lines (word_at (Addr.line a) i) 0 ≡ memory (u16 (a / 4 + 32 + i))

module _ (memory : ℕ → ℕ) (a : ℕ) where
  -- The words of a line after one more has come.
  stored :
      (lines : List ℕ) (n v : ℕ)
      → length lines ≡ 264
      → n < 32
      → v ≡ memory (u16 (a / 4 + 32 + n))
      → ((i : ℕ) → i < n → get_or lines (word_at (Addr.line a) i) 0 ≡ memory (u16 (a / 4 + 32 + i)))
      → (i : ℕ) → i < suc n
      → get_or (set lines (word_at (Addr.line a) n) v) (word_at (Addr.line a) i) 0
        ≡ memory (u16 (a / 4 + 32 + i))
  stored lines n v size small is_v words i below =
      get_or-set lines (word_at (Addr.line a) n) (word_at (Addr.line a) i) v 0 (omega arith)
      ∙ elim (Bool-cases (i == n)) [
        | inl last ↦
            let same : i ≡ n = (==_iff i n).0 last in
            let hit : (word_at (Addr.line a) n == word_at (Addr.line a) i) ≡ true =
              (==_iff _ _).1 (omega arith) in
            rw (hit, same) is_v
        | inr old ↦
            let miss : (word_at (Addr.line a) n == word_at (Addr.line a) i) ≡ false =
              ground arith in
            rw miss (words i (ground arith))
      ]

  first :
      (core : Core)
      → core.cache_address ≡ a
      → core.cache_status ≡ 32
      → length core.cache_lines ≡ 264
      → Filling memory a 0 (cache_tick core)
  unfolding dtr_mem_read
  first core here at size = rw (tick_first core at) (record {
    address = here;
    status = omega arith;
    asked = rw (here, at) (ap u16 (omega arith));
    size = length-set core.cache_lines _ _ ∙ size;
    words = λ i h. absurd (omega arith);
  })

  step :
      (n : ℕ) (c : Core)
      → n < 31
      → Filling memory a n c
      → Filling memory a (suc n) (cache_tick (answered memory c))
  unfolding dtr_mem_read
  step n c small f =
      let place : c.cache_status - 33 ≡ n = omega (arith, f.status) in
      rw (tick_next (answered memory c) (omega (arith, f.status)) (omega (arith, f.status)))
        (record {
          address = f.address;
          status = omega (arith, f.status);
          asked = rw (f.address, f.status) (ap u16 (omega arith));
          size = length-set c.cache_lines _ _ ∙ f.size;
          words = λ i h.
              rw (f.address, place)
                (stored c.cache_lines n _ f.size (omega arith) (ap memory f.asked) f.words i h);
        })

  filling :
      (core : Core) (n : ℕ)
      → n < 32
      → core.cache_address ≡ a
      → core.cache_status ≡ 32
      → length core.cache_lines ≡ 264
      → Filling memory a n (fill memory (suc n) core)
  unfolding fill
  filling core zero small here at size = first (answered memory core) here at size
  filling core (suc n) small here at size =
      step n (fill memory (suc n) core) (omega arith) (filling core n (omega arith) here at size)

  valid : (h : ℕ) → is_valid (fresh_header a h) ≡ true
  valid h = (==_iff _ _).1 (omega arith)

  tagged : (h : ℕ) → (tag_of (fresh_header a h) == Addr.tag a) ≡ true
  tagged h = (==_iff _ _).1 (omega arith)

  abbrev last_lines : Core → List ℕ
  last_lines c = set c.cache_lines (word_at (Addr.line a) 31) (memory c.bus_address)

  abbrev marked : Core → List ℕ
  marked c = change_header (fresh_header a) (Addr.line a) (last_lines c)

  marked_words :
      (c : Core)
      → Filling memory a 31 c
      → (i : ℕ) → i < 32
      → get_or (marked c) (word_at (Addr.line a) i) 0 ≡ memory (u16 (a / 4 + 32 + i))
  marked_words c f i below =
      let apart : (header_at (Addr.line a) == word_at (Addr.line a) i) ≡ false = ground arith in
      get_or-set (last_lines c) (header_at (Addr.line a)) (word_at (Addr.line a) i) _ 0 (
        omega (
          arith,
          length-set c.cache_lines (word_at (Addr.line a) 31) (memory c.bus_address),
          f.size,
        ))
      ∙ rw apart (
          stored c.cache_lines 31 _ f.size (omega arith) (ap memory f.asked) f.words i
            (omega arith))

  marked-present : (c : Core) → Filling memory a 31 c → present (marked c) a ≡ true
  marked-present c f =
      let there =
        get_or-set_same (last_lines c) (header_at (Addr.line a))
          (fresh_header a (header (last_lines c) (Addr.line a))) 0
          (omega (
            arith,
            length-set c.cache_lines (word_at (Addr.line a) 31) (memory c.bus_address),
            f.size,
          )) in
      rw (there, valid, tagged) refl

  last :
      (c : Core) → Filling memory a 31 c → (cache_tick (answered memory c)).cache_lines ≡ marked c
  last c f =
      let place : c.cache_status - 33 ≡ 31 = omega (arith, f.status) in
      rw (tick_last (answered memory c) (omega (arith, f.status)), f.address, place) refl

  -- With a memory that answers each read before the next run of the cache detour, the fetch of a
  -- cache line, from the run on that marks it invalid, is over after 33 runs of the detour: the
  -- line is valid for the address that was missing, and has 32 words of the memory, those from 32
  -- words behind the address on. The cache has its eight lines.
  pub line_comes :
      (core : Core)
      → core.cache_address ≡ a
      → core.cache_status ≡ 32
      → length core.cache_lines ≡ 264
      → let done = fill memory 33 core in
        (present done.cache_lines a ≡ true)
        × (done.shared.status.dtr_cache ≡ false)
        × ((i : ℕ)
            → i < 32
            → get_or done.cache_lines (word_at (Addr.line a) i) 0 ≡ memory (u16 (a / 4 + 32 + i)))
  unfolding fill
  line_comes core here at size =
      let f = filling core 31 (omega arith) here at size in
      let c = fill memory 32 core in
      (
        rw (last c f) (marked-present c f),
        ap (λ d. d.shared.status.dtr_cache)
            (tick_last (answered memory c) (omega (arith, f.status))),
        λ i h. rw (last c f) (marked_words c f i h),
      )
