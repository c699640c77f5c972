-- ===== src/Util/List/Calls.antt =====
-- Sequences of calls of ll_append, ll_prepend, ll_pop and ll_shift (src/util.c) on one list, and the
-- sequence of values that they work on.
use amalgam_asm.Base.{
  ℕ, suc, ◌+◌, ◌<◌, ◌≤◌, ◌^◌, ◌≡◌, ◌≢◌, refl, Option, none, some, List, [], ◌∷◌, ◌++◌, length,
  arith, drop, get_or, length-append, length-drop,
}
use amalgam_asm.Util.List.{
  Node, Memory, cell, State, ll_make, ll_append, ll_prepend, ll_pop, ll_shift, ◌>>=◌,
}
use amalgam_asm.Util.List.Chain.{Holds, front, final}
use amalgam_asm.Util.List.Insert.{ll_make-Holds, ll_append-Holds, ll_prepend-Holds}
use amalgam_asm.Util.List.Remove.{ll_shift-Gives}
use amalgam_asm.Util.List.Pop.{ll_pop-Gives}

pub data Call : Type 0 where
  append prepend : ℕ → Call
  pop shift : Call

-- The allocator: an address for a node in a memory, and what is there before it is written.
pub record Allocator : Type 0 where
  pub address : Memory → ℕ
  pub junk : Memory → Node

-- It returns no null pointer and no node that is in use.
pub record IsFresh (a : Allocator) : Type 0 where
  pub live : (memory : Memory) → a.address memory ≢ 0
  pub free : (memory : Memory) → cell (a.address memory) memory ≡ none

-- The list after a call, and the pointer that the call returns, if it returns one.
unfoldable pub perform : Allocator → Call → State → Option (State × List ℕ)
perform a (append v) s = do t ← ll_append (a.address s.memory) (a.junk s.memory) v s; some (t, [])
perform a (prepend v) s = do t ← ll_prepend (a.address s.memory) (a.junk s.memory) v s; some (t, [])
perform a pop s = do (t, v) ← ll_pop s; some (t, v ∷ [])
perform a shift s = do (t, v) ← ll_shift s; some (t, v ∷ [])

-- The list after some calls, and all that they return.
unfoldable pub perform_all : Allocator → List Call → State → Option (State × List ℕ)
unfolding perform
perform_all a [] s = some (s, [])
perform_all a (call ∷ calls) s = do
  (t, vs) ← perform a call s
  (u, ws) ← perform_all a calls t
  some (u, vs ++ ws)

-- The same on a sequence.
unfoldable pub expected : Call → List ℕ → List ℕ × List ℕ
expected (append v) xs = (xs ++ v ∷ [], [])
expected (prepend v) xs = (v ∷ xs, [])
expected pop xs = (front xs, final 0 xs ∷ [])
expected shift xs = (drop 1 xs, get_or xs 0 0 ∷ [])

unfoldable pub expected_all : List Call → List ℕ → List ℕ × List ℕ
unfolding expected
expected_all [] xs = (xs, [])
expected_all (call ∷ calls) xs =
    let r = expected call xs in let rest = expected_all calls r.0 in (rest.0, r.1 ++ rest.1)

length-front : (xs : List ℕ) → length (front xs) ≤ length xs
length-front [] = omega arith
length-front (x ∷ []) = omega arith
length-front (x ∷ y ∷ zs) = omega (arith, length-front (y ∷ zs))

length-expected : (call : Call) (xs : List ℕ) → length (expected call xs).0 ≤ suc (length xs)
unfolding expected
length-expected (append v) xs = omega (arith, length-append xs (v ∷ []))
length-expected (prepend v) xs = omega arith
length-expected pop xs = omega (arith, length-front xs)
length-expected shift xs = omega (arith, length-drop 1 xs)

-- What a run of calls promises.
pub record Follows (result : Option (State × List ℕ)) (promise : List ℕ × List ℕ) : Type 0 where
  pub state : State
  pub returns : result ≡ some (state, promise.1)
  pub holds : Holds state promise.0

perform-Follows :
    (a : Allocator) (call : Call) (s : State) (xs : List ℕ)
    → IsFresh a
    → Holds s xs
    → suc (length xs) < 2 ^ 64
    → Follows (perform a call s) (expected call xs)
unfolding perform expected
perform-Follows a (append v) s xs fresh h room =
    let t =
      ll_append-Holds s xs (a.address s.memory) v (a.junk s.memory) h (fresh.live s.memory)
        (fresh.free s.memory) room in
    record { state = t.0; returns = rw t.1 refl; holds = t.2 }
perform-Follows a (prepend v) s xs fresh h room =
    let t =
      ll_prepend-Holds s xs (a.address s.memory) v (a.junk s.memory) h (fresh.live s.memory)
        (fresh.free s.memory) room in
    record { state = t.0; returns = rw t.1 refl; holds = t.2 }
perform-Follows a pop s xs fresh h room =
    let t = ll_pop-Gives s xs h in
    record { state = t.state; returns = rw t.returns refl; holds = t.holds }
perform-Follows a shift s xs fresh h room =
    let t = ll_shift-Gives s xs h in
    record { state = t.state; returns = rw t.returns refl; holds = t.holds }

perform_all-Follows :
    (a : Allocator) (calls : List Call) (s : State) (xs : List ℕ)
    → IsFresh a
    → Holds s xs
    → length xs + length calls < 2 ^ 64
    → Follows (perform_all a calls s) (expected_all calls xs)
unfolding perform_all expected_all
perform_all-Follows a [] s xs fresh h room = record { state = s; returns = refl; holds = h }
perform_all-Follows a (call ∷ calls) s xs fresh h room =
    let t = perform-Follows a call s xs fresh h (omega (arith, room)) in
    let u =
      perform_all-Follows a calls t.state (expected call xs).0 fresh t.holds
        (omega (arith, room, length-expected call xs)) in
    record { state = u.state; returns = rw (t.returns, u.returns) refl; holds = u.holds }

-- Every sequence of fewer than 2 ^ 64 calls on a new list, with an allocator that returns fresh
-- nodes, is without undefined behaviour, returns what the same calls on a sequence return, a null
-- pointer for each removal from an empty one, and leaves a list that stands for that sequence.
pub ll_make-Follows :
    (a : Allocator) (calls : List Call) (memory : Memory)
    → IsFresh a
    → length calls < 2 ^ 64
    → Follows (perform_all a calls (ll_make memory)) (expected_all calls [])
ll_make-Follows a calls memory fresh room =
    perform_all-Follows a calls (ll_make memory) [] fresh (ll_make-Holds memory)
      (omega (arith, room))
