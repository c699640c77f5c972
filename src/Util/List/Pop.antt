-- ===== src/Util/List/Pop.antt =====
-- ll_pop (src/util.c) against sequences.
use amalgam_asm.Base.{
  ℕ, zero, suc, ◌-◌, ◌≤◌, ◌==◌, ◌≡◌, ◌≢◌, refl, sym, ap, ◌∙◌, true, false, none, some, List, [],
  ◌∷◌, length, arith,
}
use mathlib.Core.Path.{subst}
use amalgam_asm.Util.List.{
  Memory, cell, load, store, release, Link, head_link, next_link, State, ll_pop, read_link,
  write_link, detach, seek,
}
use amalgam_asm.Util.List.Chain.{
  Cells, values, has, Chain, nil, cons, last_cell, last_link, Represents, Holds,
  last_link-last_cell, ends, last_cell-live, last_cell-apart, cell-load, some_node, front, final,
}
use amalgam_asm.Util.List.Remove.{Gives, holds, first, nothing}

-- The last link but one, and the last node.
pub record Last (memory : Memory) (p q : ℕ) : Type 0 where
  pub value : ℕ
  pub node : cell p memory ≡ some (record { next = q; value = value })
  pub live : p ≢ 0
  pub apart : (q == p) ≡ false

penultimate :
    {memory : Memory} {p : ℕ} {c d : ℕ × ℕ} {cells : Cells}
    → Chain memory p (c ∷ d ∷ cells)
    → Last memory (last_cell c.0 (front (c ∷ d ∷ cells))) (last_cell c.0 (c ∷ d ∷ cells))
penultimate (cons live e out (cons live' e' out' nil)) = record {
  value = _;
  node = e;
  live = live;
  apart = ground arith;
}
penultimate (cons live e out (cons live' e' out' (cons live'' e'' out'' c))) =
    penultimate (cons live' e' out' (cons live'' e'' out'' c))

has-front : (p : ℕ) (cells : Cells) → has p cells ≡ false → has p (front cells) ≡ false
has-front p [] out = refl
has-front p (c ∷ []) out = refl
has-front p (c ∷ d ∷ cells) out = ground (arith, has-front p (d ∷ cells))

-- Nodes that are linked as before, but for the last one, which is left out.
shrink :
    {memory after : Memory} {p : ℕ} {c d : ℕ × ℕ} {cells : Cells} (u : ℕ)
    → Chain memory p (c ∷ d ∷ cells)
    → cell (last_cell c.0 (front (c ∷ d ∷ cells))) memory
      ≡ some (record { next = last_cell c.0 (c ∷ d ∷ cells); value = u })
    → cell (last_cell c.0 (front (c ∷ d ∷ cells))) after ≡ some (record { next = 0; value = u })
    → ((q : ℕ)
        → q ≢ last_cell c.0 (front (c ∷ d ∷ cells))
        → q ≢ last_cell c.0 (c ∷ d ∷ cells)
        → cell q after ≡ cell q memory)
    → Chain after p (front (c ∷ d ∷ cells))
shrink u (cons live e out (cons live' e' out' nil)) old here same = cons live (grind arith) refl nil
shrink u
      (cons {p} live e out
        (cons {p = q} {v = v} {cells = cells} live' e' out' (cons live'' e'' out'' c)))
      old here same =
    cons live
      (same p (last_cell-apart p q v (front cells) (has-front p ((q, v) ∷ cells) out))
          (last_cell-apart p q v cells out)
        ∙ e)
      (has-front p ((q, v) ∷ cells) out)
      (shrink u (cons live' e' out' (cons live'' e'' out'' c)) old here same)

seek-last :
    (fuel : ℕ) (link : Link) (p v : ℕ) (s : State)
    → read_link link s ≡ some p
    → p ≢ 0
    → load p s.memory ≡ some (record { next = 0; value = v })
    → seek (suc fuel) link s ≡ detach link p (record { next = 0; value = v }) s
unfolding seek
seek-last fuel link p v s e live loaded =
    let some_cell : (p == 0) ≡ false = ground arith in rw (e, loaded, some_cell) refl

seek-on :
    (fuel : ℕ) (link : Link) (p q v : ℕ) (s : State)
    → read_link link s ≡ some p
    → p ≢ 0
    → q ≢ 0
    → load p s.memory ≡ some (record { next = q; value = v })
    → seek (suc fuel) link s ≡ seek fuel (next_link p) s
unfolding seek
seek-on fuel link p q v s e live more loaded =
    let some_cell : (p == 0) ≡ false = ground arith in
    let some_next : (q == 0) ≡ false = ground arith in rw (e, loaded, some_cell, some_next) refl

-- The loop of `ll_pop` stops at the last node.
seek-detach :
    (fuel : ℕ) (link : Link) (p : ℕ) (c : ℕ × ℕ) (cells : Cells) (s : State)
    → Chain s.memory p (c ∷ cells)
    → read_link link s ≡ some p
    → length (c ∷ cells) ≤ fuel
    → seek fuel link s
      ≡ detach
          (last_link link (front (c ∷ cells)))
          (last_cell c.0 cells)
          (record { next = 0; value = (final c cells).1 })
          s
unfolding read_link
seek-detach zero link p c cells s chain e enough = absurd (omega (arith, enough))
seek-detach (suc fuel) link p c [] s chain e enough =
    let f = first chain in
    let loaded = cell-load s.memory p _ f.live f.node in
    let only : load p s.memory ≡ some (record { next = 0; value = c.1 }) =
      loaded ∙ ap (λ n. some (record { next = n; value = c.1 })) (nothing f.behind) in
    seek-last fuel link p c.1 s e f.live only
    ∙ ap (λ a. detach link a (record { next = 0; value = c.1 }) s) (sym f.here)
seek-detach (suc fuel) link p c (d ∷ cells) s chain e enough =
    let f = first chain in
    let loaded = cell-load s.memory p _ f.live f.node in
    seek-on fuel link p f.next c.1 s e f.live (some_node f.behind) loaded
    ∙ seek-detach fuel (next_link p) f.next d cells s f.behind (rw (read_link, loaded) refl)
        (omega (arith, enough))
    ∙ ap
        (λ a.
          detach (last_link (next_link a) (front (d ∷ cells))) (last_cell d.0 cells)
            (record { next = 0; value = (final d cells).1 }) s)
        (sym f.here)

-- A list with the sizes and pointers that `ll_pop` leaves.
popped : ℕ → Link → ℕ → Memory → State
popped size last head memory = record {
  list = record { size = size; last = last; head = head };
  memory = memory;
}

detach-first :
    (p v : ℕ) (s : State)
    → load p s.memory ≡ some (record { next = 0; value = v })
    → detach head_link p (record { next = 0; value = v }) s
      ≡ some (popped s.list.size head_link 0 ((p, none) ∷ s.memory), v)
unfolding detach write_link release popped
detach-first p v s e = rw e refl

detach-next :
    (p b u v : ℕ) (s : State)
    → b ≢ 0
    → p ≢ 0
    → (p == b) ≡ false
    → cell b s.memory ≡ some (record { next = p; value = u })
    → cell p s.memory ≡ some (record { next = 0; value = v })
    → detach (next_link b) p (record { next = 0; value = v }) s
      ≡ some (
        popped s.list.size
            (next_link b)
            s.list.head
            ((p, none) ∷ store b (record { next = 0; value = u }) s.memory),
        v,
      )
unfolding detach write_link release popped load cell
detach-next p b u v s live live' apart old e =
    let some_cell : (b == 0) ≡ false = ground arith in
    let some_cell' : (p == 0) ≡ false = ground arith in
    rw (some_cell, old, some_cell', apart, e) refl

popped-Chain :
    {memory : Memory} {p : ℕ} {c d : ℕ × ℕ} {cells : Cells}
    (l : Last memory (last_cell c.0 (front (c ∷ d ∷ cells))) (last_cell c.0 (c ∷ d ∷ cells)))
    → Chain memory p (c ∷ d ∷ cells)
    → Chain
        ((last_cell c.0 (c ∷ d ∷ cells), none)
          ∷ store
              (last_cell c.0 (front (c ∷ d ∷ cells)))
              (record { next = 0; value = l.value })
              memory)
        p
        (front (c ∷ d ∷ cells))
unfolding cell
popped-Chain {c} {d} {cells} l chain =
    let a = last_cell c.0 (c ∷ d ∷ cells) in
    let b = last_cell c.0 (front (c ∷ d ∷ cells)) in
    let apart : (b == a) ≡ false = ground (arith, l.apart) in
    let same : (b == b) ≡ true = ground arith in
    shrink l.value chain l.node (rw (apart, same) refl) λ q other last.
      let off : (q == a) ≡ false = ground arith in
      let off' : (q == b) ≡ false = ground arith in rw (off, off') refl

final-values : (d : ℕ × ℕ) (cells : Cells) → (final d cells).1 ≡ final d.1 (values cells)
final-values d [] = refl
final-values d (c ∷ cells) = final-values c cells

front-values : (cells : Cells) → values (front cells) ≡ front (values cells)
front-values [] = refl
front-values (c ∷ []) = refl
front-values (c ∷ d ∷ cells) = ap (λ vs. c.1 ∷ vs) (front-values (d ∷ cells))

length-front : (c : ℕ × ℕ) (cells : Cells) → length (front (c ∷ cells)) ≡ length cells
length-front c [] = refl
length-front c (d ∷ cells) = ap suc (length-front d cells)

-- The list after the count of `ll_pop`.
counted : State → State
counted s = record s { list = record s.list { size = s.list.size - 1 } }

pop-seek : (s : State) → s.list.size ≢ 0 → ll_pop s ≡ seek s.list.size head_link (counted s)
unfolding ll_pop counted
pop-seek s filled = let some_cell : (s.list.size == 0) ≡ false = ground arith in rw some_cell refl

pop-Represents :
    (s : State) (c : ℕ × ℕ) (cells : Cells)
    → Represents s (c ∷ cells)
    → (t : State) × (ll_pop s ≡ some (t, (final c cells).1)) × Represents t (front (c ∷ cells))
unfolding read_link popped counted
pop-Represents s c [] r =
    let f = first r.chain in
    let loaded =
      cell-load s.memory s.list.head (record { next = f.next; value = c.1 }) f.live f.node in
    let only : load s.list.head s.memory ≡ some (record { next = 0; value = c.1 }) =
      loaded ∙ ap (λ n. some (record { next = n; value = c.1 })) (nothing f.behind) in
    (
      _,
      pop-seek s (ground (arith, r.size))
          ∙ seek-detach s.list.size head_link s.list.head c [] (counted s) r.chain refl
              (omega (arith, r.size))
          ∙ detach-first c.0 c.1 (counted s) (rw f.here only),
      record { chain = nil; last = refl; size = omega (arith, r.size) },
    )
pop-Represents s c (d ∷ cells) r =
    let l = penultimate r.chain in
    let some_cell = some_node r.chain in
    let end = ends r.chain some_cell in
    let behind = last_link-last_cell head_link c.0 c.1 (front (d ∷ cells)) in
    (
      _,
      pop-seek s (ground (arith, r.size))
          ∙ seek-detach s.list.size head_link s.list.head c (d ∷ cells) (counted s) r.chain refl
              (omega (arith, r.size))
          ∙ ap
              (λ link.
                detach link (last_cell c.0 (d ∷ cells))
                  (record { next = 0; value = (final d cells).1 }) (counted s))
              behind
          ∙ detach-next (last_cell c.0 (d ∷ cells)) (last_cell c.0 (front (c ∷ d ∷ cells))) l.value
              (final d cells).1 (counted s) l.live (last_cell-live r.chain some_cell) l.apart l.node
              end,
      record {
        chain = popped-Chain l r.chain;
        last = sym behind;
        size = omega (arith, r.size, length-front c (d ∷ cells));
      },
    )

pop-Gives :
    (s : State) (cells : Cells)
    → Represents s cells
    → Gives (ll_pop s) (front (values cells)) (final 0 (values cells))
unfolding ll_pop
pop-Gives s [] r =
    let none_left : (s.list.size == 0) ≡ true = ground (arith, r.size) in
    record { state = s; returns = rw none_left refl; holds = holds r }
pop-Gives s (c ∷ cells) r =
    let t = pop-Represents s c cells r in
    record {
      state = t.0;
      returns = t.1 ∙ ap (λ v. some (t.0, v)) (final-values c cells);
      holds = subst (λ ys. Holds t.0 ys) (front-values (c ∷ cells)) (holds t.2);
    }

-- On a list that stands for a sequence, ll_pop returns the last value, or a null pointer if there
-- is none, and leaves the values in front of it; the size of the list is fuel enough for its loop.
pub ll_pop-Gives : (s : State) (xs : List ℕ) → Holds s xs → Gives (ll_pop s) (front xs) (final 0 xs)
ll_pop-Gives s xs h =
    subst (λ ys. Gives (ll_pop s) (front ys) (final 0 ys)) h.same (pop-Gives s h.cells h.represents)
