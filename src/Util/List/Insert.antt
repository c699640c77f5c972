-- ===== src/Util/List/Insert.antt =====
-- ll_make, ll_append and ll_prepend (src/util.c) against sequences.
use amalgam_asm.Base.{
  ℕ, suc, ◌+◌, ◌<◌, ◌^◌, ◌%◌, ◌==◌, ◌≡◌, ◌≢◌, refl, sym, ap, ◌∙◌, true, false, none, some, List, [],
  ◌∷◌, ◌++◌, length, arith, length-append,
}
use amalgam_asm.Util.List.{
  Node, Memory, cell, load, store, Link, head_link, next_link, State, ll_make, ll_append,
  ll_prepend, read_link, write_link, write_value,
}
use amalgam_asm.Util.List.Chain.{
  Cells, has, Chain, nil, cons, last_cell, Represents, Holds, last_link-last_cell, ends,
  last_cell-live, grow, frame, unused, has-last_cell, has-apart, some_node, final, last_link-snoc,
  values-append, length-values,
}

-- A new list is empty.
pub ll_make-Holds : (memory : Memory) → Holds (ll_make memory) []
unfolding ll_make
ll_make-Holds memory = record {
  cells = [];
  represents = record { chain = nil; last = refl; size = refl };
  same = refl;
}

-- A list by its parts.
abbrev list_of : ℕ → Link → ℕ → Memory → State
list_of size last head memory = record {
  list = record { size = size; last = last; head = head };
  memory = memory;
}

-- The nodes that `ll_append` writes, in the memory behind the last link.
abbrev written : ℕ → Node → ℕ → Memory → Memory
written new junk v memory =
    store new (record { next = 0; value = v }) (store new (record junk { value = v }) memory)

append-first :
    (size head new v : ℕ) (junk : Node) (memory : Memory)
    → new ≢ 0
    → ll_append new junk v (list_of size head_link head memory)
      ≡ some (
          list_of
            ((size + 1) % 2 ^ 64)
            (next_link new)
            new
            (written new junk v (store new junk memory)))
unfolding ll_append read_link write_link write_value load cell
append-first size head new v junk memory live =
    let some_node : (new == 0) ≡ false = ground arith in
    let same : (new == new) ≡ true = ground arith in rw (some_node, same, some_node, same) refl

append-next :
    (size head new v w a : ℕ) (junk : Node) (memory : Memory)
    → new ≢ 0
    → a ≢ 0
    → (a == new) ≡ false
    → cell a memory ≡ some (record { next = 0; value = w })
    → ll_append new junk v (list_of size (next_link a) head memory)
      ≡ some (
          list_of ((size + 1) % 2 ^ 64) (next_link new) head (
            written new junk v
              (store a (record { next = new; value = w }) (store new junk memory))))
unfolding ll_append read_link write_link write_value load cell
append-next size head new v w a junk memory live live' apart e =
    let some_node : (new == 0) ≡ false = ground arith in
    let some_last : (a == 0) ≡ false = ground arith in
    let same : (new == new) ≡ true = ground arith in
    let same' : (a == a) ≡ true = ground arith in
    let apart' : (new == a) ≡ false = ground arith in
    rw
      (
        some_last, apart, e, some_last, same', some_node, apart', same, some_last, apart, same',
        some_node, same, some_last, apart, same',
      )
      refl

append-Represents :
    (s : State) (cells : Cells) (new v : ℕ) (junk : Node)
    → Represents s cells
    → new ≢ 0
    → cell new s.memory ≡ none
    → suc (length cells) < 2 ^ 64
    → (t : State) × (ll_append new junk v s ≡ some t) × Represents t (cells ++ (new, v) ∷ [])
unfolding cell
append-Represents s [] new v junk r live free small = (
  _,
  ap (λ last. ll_append new junk v (list_of s.list.size last s.list.head s.memory)) r.last
      ∙ append-first s.list.size s.list.head new v junk s.memory live,
  record { chain = cons live (ground arith) refl nil; last = refl; size = omega (arith, r.size) },
)
append-Represents s (c ∷ cells) new v junk r live free small =
    let a = last_cell s.list.head (c ∷ cells) in
    let some_cell = some_node r.chain in
    let some_last = last_cell-live r.chain some_cell in
    let w = (final (0, 0) (c ∷ cells)).1 in
    let end = ends r.chain some_cell in
    let out : has new (c ∷ cells) ≡ false = unused new r.chain free in
    let apart : (a == new) ≡ false =
      has-apart a new (c ∷ cells) (has-last_cell c.0 c.1 cells) out in
    (
      _,
      ap (λ last. ll_append new junk v (list_of s.list.size last s.list.head s.memory))
            (r.last ∙ last_link-last_cell head_link c.0 c.1 cells)
          ∙ append-next s.list.size s.list.head new v w a junk s.memory live some_last apart end,
      record {
        chain =
            grow new v w r.chain some_cell live out end (ground arith) (ground arith)
              λ q inside other.
                let off : (q == new) ≡ false = has-apart q new (c ∷ cells) inside out in
                let off' : (q == a) ≡ false = ground arith in rw (off, off') refl;
        last = sym (last_link-snoc head_link (c ∷ cells) new v);
        size = omega (arith, r.size, length-append (c ∷ cells) ((new, v) ∷ []));
      },
    )

-- On a list that stands for a sequence of fewer than 2 ^ 64 - 1 values, ll_append with a fresh
-- node succeeds, and leaves the value behind the sequence.
pub ll_append-Holds :
    (s : State) (xs : List ℕ) (new v : ℕ) (junk : Node)
    → Holds s xs
    → new ≢ 0
    → cell new s.memory ≡ none
    → suc (length xs) < 2 ^ 64
    → (t : State) × (ll_append new junk v s ≡ some t) × Holds t (xs ++ v ∷ [])
ll_append-Holds s xs new v junk h live free small =
    let room : suc (length h.cells) < 2 ^ 64 =
      omega (arith, small, length-values h.cells, ap length h.same) in
    let r = append-Represents s h.cells new v junk h.represents live free room in
    (
      r.0,
      r.1,
      record {
        cells = h.cells ++ (new, v) ∷ [];
        represents = r.2;
        same = values-append h.cells ((new, v) ∷ []) ∙ ap (λ ys. ys ++ v ∷ []) h.same;
      },
    )

prepend-first :
    (size head new v : ℕ) (junk : Node) (memory : Memory)
    → new ≢ 0
    → ll_prepend new junk v (list_of size head_link head memory)
      ≡ some (
          list_of ((size + 1) % 2 ^ 64) (next_link new) new (
            store new
              (record { next = head; value = v })
              (store new (record junk { value = v }) (store new junk memory))))
unfolding ll_prepend read_link write_link write_value load cell
prepend-first size head new v junk memory live =
    let some_cell : (new == 0) ≡ false = ground arith in
    let same : (new == new) ≡ true = ground arith in rw (some_cell, same, same, same) refl

prepend-next :
    (size head new v w a : ℕ) (junk : Node) (memory : Memory)
    → new ≢ 0
    → a ≢ 0
    → (a == new) ≡ false
    → cell a memory ≡ some (record { next = 0; value = w })
    → ll_prepend new junk v (list_of size (next_link a) head memory)
      ≡ some (
          list_of ((size + 1) % 2 ^ 64) (next_link a) new (
            store new
              (record { next = head; value = v })
              (store new (record junk { value = v }) (store new junk memory))))
unfolding ll_prepend read_link write_link write_value load cell
prepend-next size head new v w a junk memory live live' apart e =
    let some_cell : (new == 0) ≡ false = ground arith in
    let some_last : (a == 0) ≡ false = ground arith in
    let same : (new == new) ≡ true = ground arith in
    let other : (0 == new) ≡ false = ground arith in
    rw (some_cell, same, same, some_last, apart, e, other) refl

-- The nodes behind a new one.
prepended :
    (memory : Memory) (head new v : ℕ) (junk : Node) (cells : Cells)
    → Chain memory head cells
    → new ≢ 0
    → cell new memory ≡ none
    → Chain
        (store new
          (record { next = head; value = v })
          (store new (record junk { value = v }) (store new junk memory)))
        new
        ((new, v) ∷ cells)
unfolding cell
prepended memory head new v junk cells c live free = cons live (ground arith) (unused new c free) (
    frame c λ q inside.
      let spared : (q == new) ≡ false = has-apart q new cells inside (unused new c free) in
      rw spared refl)

prepend-Represents :
    (s : State) (cells : Cells) (new v : ℕ) (junk : Node)
    → Represents s cells
    → new ≢ 0
    → cell new s.memory ≡ none
    → suc (length cells) < 2 ^ 64
    → (t : State) × (ll_prepend new junk v s ≡ some t) × Represents t ((new, v) ∷ cells)
prepend-Represents s [] new v junk r live free small = (
  _,
  ap (λ last. ll_prepend new junk v (list_of s.list.size last s.list.head s.memory)) r.last
      ∙ prepend-first s.list.size s.list.head new v junk s.memory live,
  record {
    chain = prepended s.memory s.list.head new v junk [] r.chain live free;
    last = refl;
    size = omega (arith, r.size);
  },
)
prepend-Represents s (c ∷ cells) new v junk r live free small =
    let some_cell = some_node r.chain in
    let w = (final (0, 0) (c ∷ cells)).1 in
    let end = ends r.chain some_cell in
    let apart =
      has-apart _ new (c ∷ cells) (has-last_cell c.0 c.1 cells) (unused new r.chain free) in
    let behind = last_link-last_cell head_link c.0 c.1 cells in
    (
      _,
      ap (λ last. ll_prepend new junk v (list_of s.list.size last s.list.head s.memory))
            (r.last ∙ behind)
          ∙ prepend-next s.list.size s.list.head new v w (last_cell c.0 cells) junk s.memory live
              (last_cell-live r.chain some_cell) apart end,
      record {
        chain = prepended s.memory s.list.head new v junk (c ∷ cells) r.chain live free;
        last = sym behind;
        size = omega (arith, r.size);
      },
    )

-- On such a list, ll_prepend with a fresh node succeeds, and leaves the value in front.
pub ll_prepend-Holds :
    (s : State) (xs : List ℕ) (new v : ℕ) (junk : Node)
    → Holds s xs
    → new ≢ 0
    → cell new s.memory ≡ none
    → suc (length xs) < 2 ^ 64
    → (t : State) × (ll_prepend new junk v s ≡ some t) × Holds t (v ∷ xs)
ll_prepend-Holds s xs new v junk h live free small =
    let room : suc (length h.cells) < 2 ^ 64 =
      omega (arith, small, length-values h.cells, ap length h.same) in
    let r = prepend-Represents s h.cells new v junk h.represents live free room in
    (
      r.0,
      r.1,
      record { cells = (new, v) ∷ h.cells; represents = r.2; same = ap (λ ys. v ∷ ys) h.same },
    )
