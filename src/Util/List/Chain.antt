-- ===== src/Util/List/Chain.antt =====
-- What a list of src/util.c stands for: the nodes from its first one on, with their values.
use amalgam_asm.Base.{
  ℕ, suc, ◌==◌, ◌≡◌, ◌≢◌, refl, ap, ◌∙◌, ◌||◌, Bool, true, false, none, some, List, [], ◌∷◌, ◌++◌,
  length, arith, inl, inr, Bool-cases, map,
}
use amalgam_asm.Util.List.{Node, Memory, cell, load, Link, head_link, next_link, State}

-- The address and the value of each node.
abbrev pub Cells : Type 0
Cells = List (ℕ × ℕ)

abbrev pub values : Cells → List ℕ
values cells = map (λ c. c.1) cells

abbrev pub has : ℕ → Cells → Bool
has p [] = false
has p ((q, v) ∷ cells) = (p == q) || has p cells

-- From `p` the nodes are distinct and lead to the null pointer.
pub data Chain (memory : Memory) : ℕ → Cells → Type 0 where
  nil : Chain memory 0 []
  cons :
      {p q v : ℕ} {cells : Cells}
      → p ≢ 0
      → cell p memory ≡ some (record { next = q; value = v })
      → has p cells ≡ false
      → Chain memory q cells
      → Chain memory p ((p, v) ∷ cells)

-- The address of the last of some nodes.
abbrev pub last_cell : ℕ → Cells → ℕ
last_cell p [] = p
last_cell p ((q, v) ∷ cells) = last_cell q cells

-- The link that follows them.
abbrev pub last_link : Link → Cells → Link
last_link link [] = link
last_link link ((p, v) ∷ cells) = last_link (next_link p) cells

module _ {ℓ} {A : Type ℓ} where
  -- A sequence without its last element, and that element.
  abbrev pub front : List A → List A
  front [] = []
  front (x ∷ []) = []
  front (x ∷ y ∷ zs) = x ∷ front (y ∷ zs)

  abbrev pub final : A → List A → A
  final d [] = d
  final d (x ∷ xs) = final x xs

-- The list stands for the nodes: its pointers and its size are theirs.
pub record Represents (s : State) (cells : Cells) : Type 0 where
  pub chain : Chain s.memory s.list.head cells
  pub last : s.list.last ≡ last_link head_link cells
  pub size : s.list.size ≡ length cells

-- The list stands for a sequence of values.
pub record Holds (s : State) (xs : List ℕ) : Type 0 where
  pub cells : Cells
  pub represents : Represents s cells
  pub same : values cells ≡ xs

pub last_link-last_cell :
    (link : Link) (p v : ℕ) (cells : Cells)
    → last_link link ((p, v) ∷ cells) ≡ next_link (last_cell p cells)
last_link-last_cell link p v [] = refl
last_link-last_cell link p v ((q, w) ∷ cells) = last_link-last_cell link q w cells

pub last_link-snoc :
    (link : Link) (cells : Cells) (p v : ℕ) → last_link link (cells ++ (p, v) ∷ []) ≡ next_link p
last_link-snoc link [] p v = refl
last_link-snoc link ((q, w) ∷ cells) p v = last_link-snoc (next_link q) cells p v

pub values-append :
    (cells others : Cells) → values (cells ++ others) ≡ values cells ++ values others
values-append [] others = refl
values-append (c ∷ cells) others = ap (λ vs. c.1 ∷ vs) (values-append cells others)

pub has-last_cell : (p v : ℕ) (cells : Cells) → has (last_cell p cells) ((p, v) ∷ cells) ≡ true
has-last_cell p v [] = ground arith
has-last_cell p v ((q, w) ∷ cells) = ground (arith, has-last_cell q w cells)

-- A node of some nodes is not one that is none of them.
pub has-apart :
    (p q : ℕ) (cells : Cells) → has p cells ≡ true → has q cells ≡ false → (p == q) ≡ false
has-apart p q [] inside out = ground arith
has-apart p q ((r, v) ∷ cells) inside out = elim (Bool-cases (p == r)) [
  | inl here ↦ ground arith
  | inr away ↦ has-apart p q cells (ground arith) (ground arith)
]

-- A node that is none of some nodes is not the last of them.
pub last_cell-apart :
    (p q v : ℕ) (cells : Cells) → has p ((q, v) ∷ cells) ≡ false → p ≢ last_cell q cells
last_cell-apart p q v cells out e =
    let there : has p ((q, v) ∷ cells) ≡ true =
      ap (λ r. has r ((q, v) ∷ cells)) e ∙ has-last_cell q v cells in
    ground arith

has-snoc :
    (p q v : ℕ) (cells : Cells)
    → has p cells ≡ false
    → (p == q) ≡ false
    → has p (cells ++ (q, v) ∷ []) ≡ false
has-snoc p q v [] out apart = ground arith
has-snoc p q v ((r, w) ∷ cells) out apart = ground (arith, has-snoc p q v cells)

pub length-values : (cells : Cells) → length (values cells) ≡ length cells
length-values [] = refl
length-values (c ∷ cells) = ap suc (length-values cells)

pub cell-load :
    (memory : Memory) (p : ℕ) (node : Node)
    → p ≢ 0
    → cell p memory ≡ some node
    → load p memory ≡ some node
unfolding load
cell-load memory p node live e = let null : (p == 0) ≡ false = ground arith in rw (null, e) refl

module _ {memory : Memory} where
  -- A change that spares the nodes.
  pub frame :
      {after : Memory} {p : ℕ} {cells : Cells}
      → Chain memory p cells
      → ((q : ℕ) → has q cells ≡ true → cell q after ≡ cell q memory)
      → Chain after p cells
  frame nil same = nil
  frame (cons {p} live e out c) same =
      cons live (same p (ground arith) ∙ e) out (frame c λ q i. same q (ground arith))

  -- An address without a node is none of them.
  pub unused :
      {p : ℕ} {cells : Cells} (q : ℕ)
      → Chain memory p cells
      → cell q memory ≡ none
      → has q cells ≡ false
  unused q nil free = refl
  unused q (cons {p} live e out c) free = ground (arith, unused q c free)

  -- The last node leads to the null pointer.
  pub ends :
      {p : ℕ} {cells : Cells}
      → Chain memory p cells
      → p ≢ 0
      → cell (last_cell p cells) memory ≡ some (record { next = 0; value = (final (0, 0) cells).1 })
  ends nil bad = absurd (bad refl)
  ends (cons live e out nil) some_node = e
  ends (cons live e out (cons live' e' out' c)) some_node = ends (cons live' e' out' c) live'

  pub last_cell-live :
      {p : ℕ} {cells : Cells} → Chain memory p cells → p ≢ 0 → last_cell p cells ≢ 0
  last_cell-live nil bad = bad
  last_cell-live (cons live e out nil) some_node = live
  last_cell-live (cons live e out (cons live' e' out' c)) some_node =
      last_cell-live (cons live' e' out' c) live'

  pub some_node : {p : ℕ} {c : ℕ × ℕ} {cells : Cells} → Chain memory p (c ∷ cells) → p ≢ 0
  some_node (cons live e out c) = live

  pub empty : {p : ℕ} {cells : Cells} → Chain memory p cells → p ≡ 0 → cells ≡ []
  empty nil at_end = refl
  empty (cons live e out c) at_end = absurd (live at_end)

  -- Nodes that are linked as before, but for a new one behind the last.
  pub grow :
      {after : Memory} {p : ℕ} {cells : Cells} (new v w : ℕ)
      → Chain memory p cells
      → p ≢ 0
      → new ≢ 0
      → has new cells ≡ false
      → cell (last_cell p cells) memory ≡ some (record { next = 0; value = w })
      → cell (last_cell p cells) after ≡ some (record { next = new; value = w })
      → cell new after ≡ some (record { next = 0; value = v })
      → ((q : ℕ) → has q cells ≡ true → q ≢ last_cell p cells → cell q after ≡ cell q memory)
      → Chain after p (cells ++ (new, v) ∷ [])
  grow new v w nil some_node fresh apart old here there same = absurd (some_node refl)
  grow new v w (cons {p} {q} live e out nil) some_node fresh apart old here there same =
      cons live (grind arith) (ground arith) (cons fresh there refl nil)
  grow new v w (cons {p} live e out (cons {p = q'} {v = v'} {cells = cells} live' e' out' c))
        some_node fresh apart old here there same =
      cons live (same p (ground arith) (last_cell-apart p q' v' cells out) ∙ e)
        (has-snoc p new v ((q', v') ∷ cells) out (ground arith))
        (grow new v w (cons live' e' out' c) live' fresh (ground arith) old here there
          λ q i. same q (ground arith))
