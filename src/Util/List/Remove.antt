-- ===== src/Util/List/Remove.antt =====
-- ll_shift (src/util.c) against sequences, and what a removal promises.
use amalgam_asm.Base.{
  ℕ, suc, ◌-◌, ◌==◌, ◌≡◌, ◌≢◌, refl, true, false, Option, none, some, List, [], ◌∷◌, length, arith,
  get_or, drop, if◌then◌else◌,
}
use mathlib.Core.Path.{subst}
use amalgam_asm.Util.List.{Memory, cell, load, release, head_link, State, ll_shift}
use amalgam_asm.Util.List.Chain.{
  Cells, values, has, Chain, nil, cons, last_link, Represents, Holds, frame, cell-load, has-apart,
}

-- The first node, and those behind it.
pub record First (memory : Memory) (p : ℕ) (c : ℕ × ℕ) (cells : Cells) : Type 0 where
  pub next : ℕ
  pub here : c.0 ≡ p
  pub live : p ≢ 0
  pub node : cell p memory ≡ some (record { next = next; value = c.1 })
  pub out : has p cells ≡ false
  pub behind : Chain memory next cells

pub first :
    {memory : Memory} {p : ℕ} {c : ℕ × ℕ} {cells : Cells}
    → Chain memory p (c ∷ cells)
    → First memory p c cells
first (cons live e out c) = record {
  next = _;
  here = refl;
  live = live;
  node = e;
  out = out;
  behind = c;
}

pub nothing : {memory : Memory} {p : ℕ} → Chain memory p [] → p ≡ 0
nothing nil = refl

-- The list behind its first node.
shifted : State → ℕ → State
shifted s next = record {
  list = record {
    size = s.list.size - 1;
    last = if s.list.size - 1 == 0 then head_link else s.list.last;
    head = next;
  };
  memory = (s.list.head, none) ∷ s.memory;
}

shift-shifted :
    (s : State) (next v : ℕ)
    → s.list.size ≢ 0
    → load s.list.head s.memory ≡ some (record { next = next; value = v })
    → ll_shift s ≡ some (shifted s next, v)
unfolding ll_shift release shifted
shift-shifted s next v filled e =
    let some_cell : (s.list.size == 0) ≡ false = ground arith in rw (some_cell, e) refl

-- The last link, where the last node was the first, or was not.
shifted-last :
    (s : State) (next : ℕ) (c : ℕ × ℕ) (cells : Cells)
    → s.list.size ≡ suc (length cells)
    → s.list.last ≡ last_link head_link (c ∷ cells)
    → (shifted s next).list.last ≡ last_link head_link cells
unfolding shifted
shifted-last s next c [] size last =
    let done : (s.list.size - 1 == 0) ≡ true = ground arith in rw done refl
shifted-last s next c (d ∷ cells) size last =
    let more : (s.list.size - 1 == 0) ≡ false = ground arith in rw more last

shifted-Chain :
    (s : State) (next : ℕ) (cells : Cells)
    → has s.list.head cells ≡ false
    → Chain s.memory next cells
    → Chain (shifted s next).memory next cells
unfolding shifted cell
shifted-Chain s next cells out c = frame c λ q inside.
    let off : (q == s.list.head) ≡ false = has-apart q s.list.head cells inside out in rw off refl

shift-Represents :
    (s : State) (c : ℕ × ℕ) (cells : Cells)
    → Represents s (c ∷ cells)
    → (t : State) × (ll_shift s ≡ some (t, c.1)) × Represents t cells
unfolding shifted
shift-Represents s c cells r =
    let f = first r.chain in
    let loaded =
      cell-load s.memory s.list.head (record { next = f.next; value = c.1 }) f.live f.node in
    (
      shifted s f.next,
      shift-shifted s f.next c.1 (ground (arith, r.size)) loaded,
      record {
        chain = shifted-Chain s f.next cells f.out f.behind;
        last = shifted-last s f.next c cells r.size r.last;
        size = omega (arith, r.size);
      },
    )

-- What a removal promises: a value, and the sequence that is left.
pub record Gives (result : Option (State × ℕ)) (xs : List ℕ) (value : ℕ) : Type 0 where
  pub state : State
  pub returns : result ≡ some (state, value)
  pub holds : Holds state xs

pub holds : {s : State} {cells : Cells} → Represents s cells → Holds s (values cells)
holds r = record { cells = _; represents = r; same = refl }

shift-Gives :
    (s : State) (cells : Cells)
    → Represents s cells
    → Gives (ll_shift s) (drop 1 (values cells)) (get_or (values cells) 0 0)
unfolding ll_shift
shift-Gives s [] r =
    let none_left : (s.list.size == 0) ≡ true = ground (arith, r.size) in
    record { state = s; returns = rw none_left refl; holds = holds r }
shift-Gives s (c ∷ cells) r =
    let t = shift-Represents s c cells r in record { state = t.0; returns = t.1; holds = holds t.2 }

-- On a list that stands for a sequence, ll_shift returns the first value, or a null pointer if
-- there is none, and leaves the values behind it.
pub ll_shift-Gives :
    (s : State) (xs : List ℕ) → Holds s xs → Gives (ll_shift s) (drop 1 xs) (get_or xs 0 0)
ll_shift-Gives s xs h =
    subst (λ ys. Gives (ll_shift s) (drop 1 ys) (get_or ys 0 0)) h.same
      (shift-Gives s h.cells h.represents)
