-- ===== src/Util/List/Release.antt =====
-- ll_free and ll_free_to (src/util.c): what they give back, and what ll_free_to returns.
use amalgam_asm.Base.{
  ℕ, zero, suc, ◌+◌, ◌<◌, ◌≤◌, ◌^◌, ◌==◌, leb, ltb, ◌≡◌, refl, sym, ap, ◌∙◌, true, false, none,
  some, List, [], ◌∷◌, ◌++◌, length, arith, inl, inr, Bool-cases, set, length-append,
}
use mathlib.Core.Option
use mathlib.Core.List.{append_assoc}
use amalgam_asm.Util.Array.{ar_make, ar_set}
use amalgam_asm.Util.List.{
  Memory, cell, release, State, ll_free, ll_free_to, free_nodes, copy_nodes,
}
use amalgam_asm.Util.List.Chain.{Cells, values, has, Chain, Represents, frame, cell-load, has-apart}
use amalgam_asm.Util.List.Remove.{first, First, nothing}

-- The nodes are free, and the memory beside them is as before.
pub record Freed (memory after : Memory) (cells : Cells) : Type 0 where
  pub free : (p : ℕ) → has p cells ≡ true → cell p after ≡ none
  pub spared : (p : ℕ) → has p cells ≡ false → cell p after ≡ cell p memory

Freed-none : {memory : Memory} → Freed memory memory []
Freed-none = record { free = λ p inside. ground arith; spared = λ p out. refl }

Freed-cons :
    {memory after : Memory} {p : ℕ} {c : ℕ × ℕ} {cells : Cells}
    → c.0 ≡ p
    → has p cells ≡ false
    → Freed ((p, none) ∷ memory) after cells
    → Freed memory after (c ∷ cells)
unfolding cell
Freed-cons {p} {c} {cells} first_node out f = record {
  free = λ q inside. elim (Bool-cases (has q cells)) [
    | inl there ↦ f.free q there
    | inr away ↦ let here : (q == p) ≡ true = ground arith in f.spared q away ∙ rw here refl
  ];
  spared = λ q away.
      let off : (q == p) ≡ false = ground arith in f.spared q (ground arith) ∙ rw off refl;
}

-- The memory behind a first node that was freed.
behind-Chain :
    {memory : Memory} {p : ℕ} {c : ℕ × ℕ} {cells : Cells} (f : First memory p c cells)
    → Chain ((p, none) ∷ memory) f.next cells
unfolding cell
behind-Chain {p} {cells} f =
    frame f.behind
      λ q inside. let off : (q == p) ≡ false = has-apart q p cells inside f.out in rw off refl

free_nodes-Freed :
    (fuel p : ℕ) (cells : Cells) (memory : Memory)
    → Chain memory p cells
    → length cells ≤ fuel
    → (after : Memory) × (free_nodes fuel p memory ≡ some after) × Freed memory after cells
unfolding free_nodes release
free_nodes-Freed fuel zero [] memory chain enough = (memory, refl, Freed-none)
free_nodes-Freed fuel (suc p) [] memory chain enough = absurd (ground (arith, nothing chain))
free_nodes-Freed zero p (c ∷ cells) memory chain enough = absurd (omega (arith, enough))
free_nodes-Freed (suc fuel) zero (c ∷ cells) memory chain enough = absurd ((first chain).live refl)
free_nodes-Freed (suc fuel) (suc p) (c ∷ cells) memory chain enough =
    let f = first chain in
    let loaded = cell-load memory (suc p) (record { next = f.next; value = c.1 }) f.live f.node in
    let rest =
      free_nodes-Freed fuel f.next cells ((suc p, none) ∷ memory) (behind-Chain f)
        (omega (arith, enough)) in
    (rest.0, rw loaded rest.1, Freed-cons f.here f.out rest.2)

-- ll_free frees every node of the list and nothing else; the size is fuel enough for its loop.
pub ll_free-Freed :
    (s : State) (cells : Cells)
    → Represents s cells
    → (after : Memory) × (ll_free s ≡ some after) × Freed s.memory after cells
unfolding ll_free
ll_free-Freed s cells r =
    free_nodes-Freed s.list.size s.list.head cells s.memory r.chain (omega (arith, r.size))

set-append :
    (written junk : List ℕ) (j v : ℕ)
    → set (written ++ j ∷ junk) (length written) v ≡ (written ++ v ∷ []) ++ junk
set-append [] junk j v = refl
set-append (x ∷ written) junk j v = ap (λ vs. x ∷ vs) (set-append written junk j v)

-- The loop of `ll_free_to` frees like that of `ll_free`, and writes the values behind those that
-- are written already.
copy_nodes-free_nodes :
    (fuel p : ℕ) (cells : Cells) (memory : Memory) (size : ℕ) (written junk : List ℕ)
    → Chain memory p cells
    → length cells ≤ fuel
    → length junk ≡ length cells
    → length written + length cells ≤ size
    → size < 2 ^ 31
    → copy_nodes fuel (length written) p (record { size = size; cells = written ++ junk }) memory
      ≡ Option.map
          (λ after. (record { size = size; cells = written ++ values cells }, after))
          (free_nodes fuel p memory)
unfolding copy_nodes free_nodes ar_set
copy_nodes-free_nodes fuel zero [] memory size written [] chain enough same room small = refl
copy_nodes-free_nodes fuel p [] memory size written (j ∷ junk) chain enough same room small =
    absurd (omega (arith, same))
copy_nodes-free_nodes fuel (suc p) [] memory size written junk chain enough same room small =
    absurd (ground (arith, nothing chain))
copy_nodes-free_nodes zero p (c ∷ cells) memory size written junk chain enough same room small =
    absurd (omega (arith, enough))
copy_nodes-free_nodes fuel p (c ∷ cells) memory size written [] chain enough same room small =
    absurd (omega (arith, same))
copy_nodes-free_nodes (suc fuel) zero (c ∷ cells) memory size written junk chain enough same room
      small =
    absurd ((first chain).live refl)
copy_nodes-free_nodes (suc fuel) (suc p) (c ∷ cells) memory size written (j ∷ junk) chain enough
      same room small =
    let f = first chain in
    let loaded = cell-load memory (suc p) (record { next = f.next; value = c.1 }) f.live f.node in
    let inside : leb size (length written) ≡ false = ground (arith, room) in
    let counts : ltb (suc (length written)) (2 ^ 31) ≡ true = ground (arith, room, small) in
    let longer : length (written ++ c.1 ∷ []) ≡ suc (length written) =
      omega (arith, length-append written (c.1 ∷ [])) in
    let rest =
      copy_nodes-free_nodes fuel f.next cells ((suc p, none) ∷ memory) size (written ++ c.1 ∷ [])
        junk (behind-Chain f) (omega (arith, enough)) (omega (arith, same))
        (omega (arith, room, longer)) small in
    rw (loaded, inside, counts, set-append written junk j c.1)
      (ap
          (λ n.
            copy_nodes fuel n f.next (record { size = size; cells = (written ++ c.1 ∷ []) ++ junk })
              ((suc p, none) ∷ memory))
          (sym longer)
        ∙ rest
        ∙ ap
            (λ vs.
              Option.map (λ after. (record { size = size; cells = vs }, after))
                (free_nodes fuel f.next ((suc p, none) ∷ memory)))
            (append_assoc written (c.1 ∷ []) (values cells)))

-- ll_free_to of a list of fewer than 2 ^ 31 nodes returns the array of its values in their order,
-- frees every node of the list, and changes nothing else.
pub ll_free_to-Freed :
    (s : State) (cells : Cells) (junk : List ℕ)
    → Represents s cells
    → length junk ≡ length cells
    → length cells < 2 ^ 31
    → (after : Memory) × (ll_free_to junk s
        ≡ some (record { size = length cells; cells = values cells }, after))
      × Freed s.memory after cells
unfolding ll_free_to ar_make
ll_free_to-Freed s cells junk r same small =
    let freed =
      free_nodes-Freed s.list.size s.list.head cells s.memory r.chain (omega (arith, r.size)) in
    (
      freed.0,
      copy_nodes-free_nodes s.list.size s.list.head cells s.memory s.list.size [] junk r.chain
            (omega (arith, r.size)) same (omega (arith, r.size)) (omega (arith, r.size, small))
          ∙ ap
              (λ o.
                Option.map (λ after. (record { size = s.list.size; cells = values cells }, after))
                  o)
              freed.1
          ∙ ap (λ n. some (record { size = n; cells = values cells }, freed.0)) r.size,
      freed.2,
    )
