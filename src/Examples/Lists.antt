-- ===== src/Examples/Lists.antt =====
-- A list and an allocator that hands out addresses one after the other.
use amalgam_asm.Base.{
  ℕ, suc, ◌≤◌, ◌==◌, ◌≡◌, refl, arith, List, ◌∷◌, [], some, none, if◌then◌else◌, leb, false,
}
use amalgam_asm.Util.List.{Memory, cell, State, next_link, ll_make, ll_free_to}
use amalgam_asm.Util.List.Chain.{nil, cons, Represents}
use amalgam_asm.Util.List.Release.{Freed, ll_free_to-Freed}
use amalgam_asm.Util.List.Calls.{
  Call, append, prepend, pop, shift, Allocator, IsFresh, Follows, perform_all, expected_all,
  ll_make-Follows,
}

-- No write went to this address or to one above it.
abbrev bound : Memory → ℕ
bound [] = 1
bound ((p, kept) ∷ memory) = let rest = bound memory in if leb rest p then suc p else rest

bound-cell : (memory : Memory) (p : ℕ) → bound memory ≤ p → cell p memory ≡ none
unfolding cell
bound-cell [] p above = refl
bound-cell ((q, kept) ∷ memory) p above =
    let off : (p == q) ≡ false = ground (arith, above) in
    rw off (bound-cell memory p (ground (arith, above)))

bound-live : (memory : Memory) → 1 ≤ bound memory
bound-live [] = omega arith
bound-live ((q, kept) ∷ memory) = ground (arith, bound-live memory)

abbrev bump : Allocator
bump = record { address = bound; junk = λ memory. record { next = 77; value = 88 } }

bump-IsFresh : IsFresh bump
bump-IsFresh = record {
  live = λ memory e. absurd (omega (arith, bound-live memory, e));
  free = λ memory. bound-cell memory (bound memory) (omega arith);
}

abbrev some_calls : List Call
some_calls = append 5 ∷ prepend 4 ∷ append 6 ∷ pop ∷ shift ∷ shift ∷ pop ∷ append 9 ∷ []

ll_make-Follows_example :
    Follows (perform_all bump some_calls (ll_make [])) (9 ∷ [], 6 ∷ 4 ∷ 5 ∷ 0 ∷ [])
unfolding expected_all
ll_make-Follows_example = ll_make-Follows bump some_calls [] bump-IsFresh (omega arith)

abbrev two_nodes : State
two_nodes = record {
  list = record { size = 2; last = next_link 20; head = 10 };
  memory =
      (10, some (record { next = 20; value = 1 }))
      ∷ (20, some (record { next = 0; value = 2 }))
      ∷ [];
}

two_nodes-Represents : Represents two_nodes ((10, 1) ∷ (20, 2) ∷ [])
unfolding cell
two_nodes-Represents = record {
  chain = cons (ground arith) refl refl (cons (ground arith) refl refl nil);
  last = refl;
  size = refl;
}

ll_free_to-Freed_example :
    (after : Memory) × (ll_free_to (7 ∷ 7 ∷ []) two_nodes
      ≡ some (record { size = 2; cells = 1 ∷ 2 ∷ [] }, after))
    × Freed two_nodes.memory after ((10, 1) ∷ (20, 2) ∷ [])
ll_free_to-Freed_example =
    ll_free_to-Freed two_nodes ((10, 1) ∷ (20, 2) ∷ []) (7 ∷ 7 ∷ []) two_nodes-Represents refl
      (omega arith)
