-- ===== src/MemPool/PoolLife.antt =====
-- A pool on an allocator of its own, from its creation to its end.
use libstappler_common.Common.{
  ℕ, ◌+◌, ◌^◌, ◌≤◌, ◌<◌, ◌≡◌, refl, arith, inl, inr, List, [], ◌∷◌, ◌++◌, Option, some, All,
  All-append, ◌==◌, Bool-cases,
}
use mathlib.Core.Path.{subst}
use libstappler_common.MemPool.Nodes.{MemNode, Allocator, create_allocator, align, boundary_size}
use libstappler_common.MemPool.Free.{free, destroy_allocator}
use libstappler_common.MemPool.Stored.{weigh, weigh-append}
use libstappler_common.MemPool.Sound.{IsNode}
use libstappler_common.MemPool.Life.{
  at_address, GivesNew, Reachable, freed, destroy_allocator-Reachable,
}
use libstappler_common.MemPool.Palloc.{
  Pool, create_pool, free_space, palloc, from_self, destroy_nodes,
}
use libstappler_common.MemPool.Bytes.{IsFilled}
use libstappler_common.MemPool.RingOrder.{IsRing, IsRing-first}
use libstappler_common.MemPool.Blocks.{ring, GivesApart}
use libstappler_common.MemPool.Whole.{IsWhole, created-IsWhole, palloc-IsWhole}

-- The loop around the ring finds the pool's own node, and the others are the rest of the ring.
from_self_lem :
    (self : ℕ) (before nodes : List MemNode)
    → All IsFilled before
    → All IsFilled nodes
    → 1 ≤ weigh (at_address self) nodes
    → (own : MemNode) × (rest : List MemNode) × (from_self self before nodes ≡ some (own, rest))
      × All IsFilled (own ∷ rest)
      × ((f : ℕ → ℕ → ℕ) → weigh f (own ∷ rest) ≡ weigh f before + weigh f nodes)
unfolding from_self
from_self_lem self before [] all_before all has = absurd (omega arith)
from_self_lem self before (node ∷ nodes) all_before (one, all) has =
    elim (Bool-cases (node.at == self)) [
      | inl y ↦ (
        node,
        nodes ++ before,
        rw y refl,
        (one, All-append IsFilled nodes before all all_before),
        λ f. omega (arith, weigh-append f nodes before),
      )
      | inr n ↦
          let (own, rest, found, all_rest, weights) =
            from_self_lem self (before ++ node ∷ []) nodes
              (All-append IsFilled before (node ∷ []) all_before (one, tt)) all (ground arith) in
          (
            own,
            rest,
            rw n found,
            all_rest,
            λ f. omega (arith, weights f, weigh-append f before (node ∷ [])),
          )
    ]

IsFilled-IsNode : (nodes : List MemNode) → All IsFilled nodes → All IsNode nodes
IsFilled-IsNode [] all = tt
IsFilled-IsNode (node ∷ nodes) (one, all) = (one.is_node, IsFilled-IsNode nodes all)

-- Calls of `palloc` lead from a new pool on a new allocator to the pool. Each asks for fewer than 4 GiB less 16 bytes,
-- and has its own `malloc`, which gives memory that is not in use.
pub data Lives : Pool → Type 0 where
  created :
      {p : Pool} (malloc : ℕ → Option ℕ) → create_pool malloc create_allocator ≡ some p → Lives p
  requested :
      {p q : Pool} (malloc : ℕ → Option ℕ) (in_size : ℕ) (r : Option ℕ)
      → Lives p
      → in_size + 16 < 2 ^ 32
      → GivesNew malloc p.allocator (ring p)
      → GivesApart malloc (align in_size 16) p
      → palloc malloc in_size p ≡ some (r, q)
      → Lives q

pub Lives-IsWhole : (p : Pool) → Lives p → IsWhole p
Lives-IsWhole p (created malloc e) = created-IsWhole malloc p e
Lives-IsWhole q (requested {p = p} malloc in_size r lives fits new apart e) =
    palloc-IsWhole malloc in_size p q r (Lives-IsWhole p lives) fits new apart e

-- For a pool on an allocator of its own, after its creation and any calls of `palloc`, each of fewer than 4 GiB less
-- 16 bytes, with no other operation between them: when the pool is destroyed all its nodes go back, and when the
-- allocator is then destroyed no byte from `malloc` is left.
pub destroy_allocator-Lives :
    (p : Pool)
    → Lives p
    → (a : Allocator) × (released : List MemNode) × (destroy_nodes p ≡ some (a, released))
      × (destroy_allocator a ≡ 0)
unfolding destroy_nodes
destroy_allocator-Lives p lives =
    let whole = Lives-IsWhole p lives in
    let (own, rest, found, filled, weights) =
      from_self_lem p.self [] (ring p) tt whole.pool.filled whole.own in
    let back : Reachable (free own rest p.allocator).0 [] =
      freed own rest [] whole.reachable (IsFilled-IsNode (own ∷ rest) filled)
        (λ f. omega (arith, whole.holds f, weights f)) in
    (
      (free own rest p.allocator).0,
      (free own rest p.allocator).1,
      rw (found, destroy_nodes) refl,
      destroy_allocator-Reachable (free own rest p.allocator).0 back,
    )

-- For a pool on an allocator of its own, after its creation and any calls of `palloc`, each of fewer than 4 GiB less
-- 16 bytes, with no other operation between them: no node behind the second one of the ring has a unit of
-- `BOUNDARY_SIZE` more free space than that one, which is the only one that `palloc` tries before it asks the
-- allocator.
pub free_space-Lives :
    (p : Pool) (node : MemNode) (nodes : List MemNode)
    → Lives p
    → p.others ≡ node ∷ nodes
    → All (λ n. free_space n < free_space node + boundary_size) nodes
free_space-Lives p node nodes lives e =
    let ordered : IsRing (node ∷ nodes) = subst IsRing e (Lives-IsWhole p lives).pool.ordered in
    IsRing-first node nodes ordered.indexed.1 ordered.descending.0 ordered.indexed.0
