-- ===== src/MemPool/Quota.antt =====
-- The limit on the memory that the allocator keeps.
use libstappler_common.Common.{
  ℕ, ◌+◌, ◌*◌, ◌^◌, ◌≤◌, ◌<◌, ◌≡◌, ◌≢◌, refl, sym, ap, ◌∙◌, arith, ◌⊎◌, inl, inr, false, List, [],
  ◌∷◌, Option, none, some, All, ltb, ◌==◌, Bool-cases, u32,
}
use mathlib.Core.Path.{subst}
use libstappler_common.MemPool.Nodes.{MemNode, Allocator, max_index, align, boundary_size}
use libstappler_common.MemPool.Alloc.{credit, set_max}
use libstappler_common.MemPool.Free.{Freeing, keep_node, give_back, free_nodes, free}
use libstappler_common.MemPool.Stored.{stored, weigh_below, weigh_below-set_bucket}
use libstappler_common.MemPool.Sound.{IsNode}
use libstappler_common.MemPool.Serve.{Reused, Outcome}

-- A node's size in multiples of `BOUNDARY_SIZE`.
abbrev pub units : ℕ → ℕ → ℕ
units at index = index + 1

-- With a limit, what is kept and what may still be kept are `max` together.
pub record IsWithin (a : Allocator) : Type 0 where
  pub max_fits : a.max < 2 ^ 32
  pub bounded : a.current ≤ a.max
  pub balance : a.max ≢ 0 → stored units a + a.current ≡ a.max

module _ (node : MemNode) (s : Freeing) where
  keep_node-balance :
      IsNode node
      → ltb s.current (u32 (node.index + 1)) ≡ false
      → weigh_below units max_index (keep_node node s).buf + (keep_node node s).current
        ≡ weigh_below units max_index s.buf + s.current
  unfolding keep_node
  keep_node-balance is_node fits = elim (Bool-cases (ltb node.index max_index)) [
    | inl y ↦
        rw (y, keep_node)
          (ground (
            arith,
            is_node.index_fits,
            weigh_below-set_bucket units max_index node.index s.buf (node ∷ s.buf node.index),
          ))
    | inr n ↦
        rw (n, keep_node)
          (ground (
            arith,
            is_node.index_fits,
            weigh_below-set_bucket units max_index 0 s.buf (node ∷ s.buf 0),
          ))
  ]

  give_back-balance :
      (max : ℕ)
      → IsNode node
      → max ≢ 0
      → weigh_below units max_index (give_back max node s).buf + (give_back max node s).current
        ≡ weigh_below units max_index s.buf + s.current
  unfolding give_back
  give_back-balance max is_node limited =
      let zero_test : (max == 0) ≡ false = ground arith in
      elim (Bool-cases (ltb s.current (u32 (node.index + 1)))) [
        | inl y ↦ rw (zero_test, y, give_back) refl
        | inr n ↦ rw (zero_test, n, give_back) (keep_node-balance is_node n)
      ]

free_nodes-balance :
    (max : ℕ) (nodes : List MemNode) (s : Freeing)
    → All IsNode nodes
    → max ≢ 0
    → weigh_below units max_index (free_nodes max nodes s).buf + (free_nodes max nodes s).current
      ≡ weigh_below units max_index s.buf + s.current
unfolding free_nodes
free_nodes-balance max [] s all limited = refl
free_nodes-balance max (node ∷ nodes) s (one, others) limited =
    free_nodes-balance max nodes (give_back max node s) others limited
    ∙ give_back-balance node s max one limited

give_back-current :
    (max : ℕ) (node : MemNode) (s : Freeing) → (give_back max node s).current ≤ s.current
unfolding give_back keep_node
give_back-current max node s = ground arith

free_nodes-current :
    (max : ℕ) (nodes : List MemNode) (s : Freeing) → (free_nodes max nodes s).current ≤ s.current
unfolding free_nodes
free_nodes-current max [] s = omega arith
free_nodes-current max (node ∷ nodes) s =
    omega (arith, give_back-current max node s, free_nodes-current max nodes (give_back max node s))

pub free-IsWithin :
    (node : MemNode) (nodes : List MemNode) (a : Allocator)
    → All IsNode (node ∷ nodes)
    → IsWithin a
    → IsWithin (free node nodes a).0
unfolding free
free-IsWithin node nodes a all within = record {
  max_fits = within.max_fits;
  bounded = omega (
    arith,
    within.bounded,
    free_nodes-current a.max (node ∷ nodes)
        (record { buf = a.buf; last = a.last; current = a.current; freelist = [] }),
  );
  balance = λ limited.
      free_nodes-balance a.max (node ∷ nodes)
        (record { buf = a.buf; last = a.last; current = a.current; freelist = [] }) all limited
      ∙ within.balance limited;
}

-- A node that is used again gives its size back to `current`.
Reused-IsWithin :
    (node : MemNode) (a b : Allocator) → IsNode node → Reused node a b → IsWithin a → IsWithin b
unfolding credit
Reused-IsWithin node a b is_node (weights, buf, last, e) within = subst IsWithin (sym e) (record {
  max_fits = within.max_fits;
  bounded = ground arith;
  balance = λ limited. ground (
    arith,
    is_node.index_fits,
    within.max_fits,
    within.balance limited,
    weights units,
    ap (λ (x : Allocator). stored units x) e,
  );
})

pub Outcome-IsWithin :
    (malloc : ℕ → Option ℕ) (in_size : ℕ) (a : Allocator) (r : Option MemNode) (b : Allocator)
    → Outcome malloc in_size a r b
    → IsWithin a
    → IsWithin b
Outcome-IsWithin malloc in_size a none b outcome within = subst IsWithin (sym outcome) within
Outcome-IsWithin malloc in_size a (some node) b (room, inl reused) within =
    Reused-IsWithin node a b room.is_node reused within
Outcome-IsWithin malloc in_size a (some node) b (room, inr (got, e)) within =
    subst IsWithin (sym e)
      (record { max_fits = within.max_fits; bounded = within.bounded; balance = within.balance })

-- A limit that covers what is kept, set where there was a limit or nothing is kept.
pub set_max-IsWithin :
    (size : ℕ) (a : Allocator)
    → size < 2 ^ 32
    → stored units a * boundary_size ≤ size
    → (a.max ≢ 0) ⊎ (stored units a ≡ 0)
    → IsWithin a
    → IsWithin (set_max size a)
unfolding set_max align
set_max-IsWithin size a fits covers (inl limited) within = record {
  max_fits = ground arith;
  bounded = ground arith;
  balance = λ z. ground (arith, within.max_fits, within.bounded, within.balance limited);
}
set_max-IsWithin size a fits covers (inr nothing) within = record {
  max_fits = ground arith;
  bounded = ground arith;
  balance = λ z. ground (arith, within.max_fits, within.bounded, within.balance);
}
