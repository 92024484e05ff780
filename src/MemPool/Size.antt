-- ===== src/MemPool/Size.antt =====
-- The size of a node for a request.
use libstappler_common.Common.{
  ℕ, ◌+◌, ◌-◌, ◌*◌, ◌/◌, ◌^◌, ◌≤◌, ◌<◌, ◌≡◌, refl, arith, ◌⊎◌, inl, inr, none, some, Bool-cases,
  ltb, u32, u64,
}
use libstappler_common.MemPool.Nodes.{align, sizeof_memnode, boundary_size, min_alloc}
use libstappler_common.MemPool.Alloc.{node_size}

-- Whole units of `boundary_size`, at least two, that hold the node's head and the request.
pub record IsNodeSize (in_size index size : ℕ) : Type 0 where
  pub whole : size ≡ (index + 1) * boundary_size
  pub index_fits : index + 1 < 2 ^ 20
  pub at_least : 1 ≤ index
  pub room : in_size + sizeof_memnode ≤ size

pub node_size-cases :
    (in_size : ℕ)
    → in_size < 2 ^ 32
    → (node_size in_size ≡ none)
      ⊎ ((size : ℕ) × (node_size in_size ≡ some size)
          × IsNodeSize in_size (size / boundary_size - 1) size)
unfolding node_size align
node_size-cases in_size h =
    let size = u32 (align (u64 (in_size + sizeof_memnode)) boundary_size) in
    elim (Bool-cases (ltb size in_size)) [
      | inl y ↦ inl (rw y refl)
      | inr n ↦ elim (Bool-cases (ltb size min_alloc)) [
        | inl y ↦ inr (
          min_alloc,
          rw (n, y) refl,
          record {
            whole = refl;
            index_fits = omega arith;
            at_least = omega arith;
            room = ground arith;
          },
        )
        | inr m ↦ inr (
          size,
          rw (n, m) refl,
          record {
            whole = ground arith;
            index_fits = ground arith;
            at_least = ground arith;
            room = ground arith;
          },
        )
      ]
    ]
