-- ===== src/Util/List.antt =====
-- llist_t of src/util.c: a singly linked list with a pointer to its last link. A node is at an
-- address; a pointer to a pointer is a link, the field `data` of the list, here `head`, or the field
-- `next` of a node. An operation is `none` where it touches memory that is not a node of its own.
pub mod Chain
pub mod Insert
pub mod Remove
pub mod Pop
pub mod Release
pub mod Calls
use amalgam_asm.Base.{
  ℕ, zero, suc, ◌+◌, ◌-◌, ◌^◌, ◌==◌, ltb, Option, none, some, List, [], ◌∷◌, if◌then◌else◌,
}
use amalgam_asm.Base.Bits.{u64}
use amalgam_asm.Util.Array.{Array, ar_make, ar_set}
use mathlib.Core.Option.{map}

infixl 5 ◌>>=◌
abbrev pub ◌>>=◌ {ℓ κ} : {A : Type ℓ} {B : Type κ} → Option A → (A → Option B) → Option B
none >>= f = none
some a >>= f = f a

-- `struct _le`.
pub record Node : Type 0 where
  pub next : ℕ
  pub value : ℕ

-- The memory of the nodes, as the writes to it, the last one first; freed memory holds `none`.
abbrev pub Memory : Type 0
Memory = List (ℕ × Option Node)

unfoldable pub cell : ℕ → Memory → Option Node
cell p [] = none
cell p ((q, node) ∷ memory) = if p == q then node else cell p memory

-- No node is at the null pointer.
unfoldable pub load : ℕ → Memory → Option Node
unfolding cell
load p memory = if p == 0 then none else cell p memory

abbrev pub store : ℕ → Node → Memory → Memory
store p node memory = (p, some node) ∷ memory

pub data Link : Type 0 where
  head_link : Link
  next_link : ℕ → Link

pub record Llist : Type 0 where
  pub size : ℕ
  pub last : Link
  pub head : ℕ

pub record State : Type 0 where
  pub list : Llist
  pub memory : Memory

-- `*link`.
unfoldable pub read_link : Link → State → Option ℕ
unfolding load
read_link head_link s = some s.list.head
read_link (next_link p) s = map (λ node. node.next) (load p s.memory)

-- `*link = q`.
unfoldable pub write_link : Link → ℕ → State → Option State
unfolding load
write_link head_link q s = some (record s { list = record s.list { head = q } })
write_link (next_link p) q s =
    map (λ node. record s { memory = store p (record node { next = q }) s.memory })
      (load p s.memory)

-- `p->value = v`.
unfoldable pub write_value : ℕ → ℕ → State → Option State
unfolding load
write_value p v s =
    map (λ node. record s { memory = store p (record node { value = v }) s.memory })
      (load p s.memory)

-- `free(p)`.
unfoldable pub release : ℕ → Memory → Option Memory
unfolding load
release p memory = map (λ node. (p, none) ∷ memory) (load p memory)

-- The handle of the list is memory of its own.
unfoldable pub ll_make : Memory → State
ll_make memory = record { list = record { size = 0; last = head_link; head = 0 }; memory = memory }

-- `new` is the address that the allocator returned, `junk` what was there.
unfoldable pub ll_append : ℕ → Node → ℕ → State → Option State
unfolding read_link write_link write_value
ll_append new junk value s = do
  a ← write_link s.list.last new (record s { memory = store new junk s.memory })
  p ← read_link a.list.last a
  b ← write_value p value a
  q ← read_link b.list.last b
  c ← write_link (next_link q) 0 b
  r ← read_link c.list.last c
  some (record c { list = record c.list { last = next_link r; size = u64 (c.list.size + 1) } })

unfoldable pub ll_prepend : ℕ → Node → ℕ → State → Option State
unfolding read_link write_link write_value
ll_prepend new junk value s = do
  a ← write_value new value (record s { memory = store new junk s.memory })
  b ← write_link (next_link new) a.list.head a
  let c : State = record b { list = record b.list { head = new; size = u64 (b.list.size + 1) } }
  p ← read_link c.list.last c
  some (if p == c.list.head then record c { list = record c.list { last = next_link new } } else c)

-- The last node, behind a link, is taken out.
unfoldable pub detach : Link → ℕ → Node → State → Option (State × ℕ)
unfolding write_link release
detach link p node s = do
  a ← write_link link 0 (record s { list = record s.list { last = link } })
  memory ← release p a.memory
  some (record a { memory = memory }, node.value)

-- The loop of `ll_pop`, on fuel.
unfoldable pub seek : ℕ → Link → State → Option (State × ℕ)
unfolding read_link load detach
seek zero link s = none
seek (suc fuel) link s = do
  p ← read_link link s
  (if p == 0 then some (s, 0) else (do
    node ← load p s.memory
    (if node.next == 0 then detach link p node s else seek fuel (next_link p) s)))

-- The list and the value; a null pointer where the list is empty. The fuel is the size.
unfoldable pub ll_pop : State → Option (State × ℕ)
unfolding seek
ll_pop s =
    if s.list.size == 0
    then some (s, 0)
    else seek s.list.size head_link (record s { list = record s.list { size = s.list.size - 1 } })

unfoldable pub ll_shift : State → Option (State × ℕ)
unfolding load release
ll_shift s =
    if s.list.size == 0
    then some (s, 0)
    else let size = s.list.size - 1 in
      let last = if size == 0 then head_link else s.list.last in
      do
        node ← load s.list.head s.memory
        memory ← release s.list.head s.memory
        some (
          record { list = record { size = size; last = last; head = node.next }; memory = memory },
          node.value,
        )

-- The loop of `ll_free`, on fuel; the memory that is left.
unfoldable pub free_nodes : ℕ → ℕ → Memory → Option Memory
unfolding load release
free_nodes fuel zero memory = some memory
free_nodes zero (suc entry) memory = none
free_nodes (suc fuel) (suc entry) memory = do
  node ← load (suc entry) memory
  rest ← release (suc entry) memory
  free_nodes fuel node.next rest

unfoldable pub ll_free : State → Option Memory
unfolding free_nodes
ll_free s = free_nodes s.list.size s.list.head s.memory

-- The loop of `ll_free_to`. The counter is an `int`, which must not overflow.
unfoldable pub copy_nodes : ℕ → ℕ → ℕ → Array ℕ → Memory → Option (Array ℕ × Memory)
unfolding load release ar_set
copy_nodes fuel i zero a memory = some (a, memory)
copy_nodes zero i (suc entry) a memory = none
copy_nodes (suc fuel) i (suc entry) a memory = do
  node ← load (suc entry) memory
  rest ← release (suc entry) memory
  (if ltb (suc i) (2 ^ 31)
      then copy_nodes fuel (suc i) node.next (ar_set 0 a i node.value).0 rest
      else none)

-- `junk` are the cells of the new array before they are written.
unfoldable pub ll_free_to : List ℕ → State → Option (Array ℕ × Memory)
unfolding copy_nodes ar_make
ll_free_to junk s = copy_nodes s.list.size 0 s.list.head (ar_make s.list.size junk) s.memory
