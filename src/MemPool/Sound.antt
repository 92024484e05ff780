-- ===== src/MemPool/Sound.antt =====
-- The invariant of the allocator: the nodes and their places in the buckets.
use libstappler_common.Common.{
  ℕ, zero, suc, ◌+◌, ◌*◌, ◌^◌, ◌≤◌, ◌<◌, ◌≡◌, ◌≢◌, refl, sym, ◌∙◌, arith, ◌⊎◌, inl, inr, List, [],
  All, ◌==◌, ==_iff, Bool-cases,
}
use mathlib.Core.Path.{subst}
use native.Mathlib.Decide.{dec_le}
use libstappler_common.MemPool.Nodes.{
  boundary_size, max_index, MemNode, create_allocator, set_bucket,
}

-- A node's end is as far from its address as its index says.
pub record IsNode (node : MemNode) : Type 0 where
  pub at_least : 1 ≤ node.index
  pub index_fits : node.index + 1 < 2 ^ 20
  pub extent : node.endp ≡ node.at + (node.index + 1) * boundary_size

-- The bucket 0 is the sink of the nodes that have no bucket of their own.
abbrev pub Belongs : ℕ → MemNode → Type 0
Belongs zero node = IsNode node × (max_index ≤ node.index)
Belongs (suc i) node = IsNode node × (node.index ≡ suc i)

-- The buckets behind `last` are empty, and bucket `last` is not, unless it is the sink.
pub record IsSound (buf : ℕ → List MemNode) (last : ℕ) : Type 0 where
  pub last_fits : last < max_index
  pub belong : (i : ℕ) → i < max_index → All (Belongs i) (buf i)
  pub above : (i : ℕ) → last < i → i < max_index → buf i ≡ []
  pub top : (last ≡ 0) ⊎ (buf last ≢ [])

pub Belongs-IsNode : (i : ℕ) (node : MemNode) → Belongs i node → IsNode node
Belongs-IsNode zero node h = h.0
Belongs-IsNode (suc i) node h = h.0

-- A node that was taken out of bucket `i` has at least the index that led there.
pub Belongs-index : (i index : ℕ) (node : MemNode) → Belongs i node → index ≤ i → index ≤ node.index
Belongs-index zero index node h fits = omega arith
Belongs-index (suc i) index node h fits = omega (arith, h.1)

pub create_allocator-IsSound : IsSound create_allocator.buf create_allocator.last
unfolding create_allocator
create_allocator-IsSound = record {
  last_fits = omega arith;
  belong = λ i h. tt;
  above = λ i h k. refl;
  top = inl refl;
}

module _ (buf : ℕ → List MemNode) (i : ℕ) (nodes : List MemNode) where
  pub set_bucket-same : set_bucket buf i nodes i ≡ nodes
  set_bucket-same = ground arith

  pub set_bucket-other : (q : ℕ) → q ≢ i → set_bucket buf i nodes q ≡ buf q
  set_bucket-other q h = ground arith

  pub set_bucket-belong :
      All (Belongs i) nodes
      → ((q : ℕ) → q < max_index → All (Belongs q) (buf q))
      → (q : ℕ) → q < max_index
      → All (Belongs q) (set_bucket buf i nodes q)
  set_bucket-belong new old q fits = elim (Bool-cases (q == i)) [
    | inl y ↦
        let same : i ≡ q = sym ((==_iff q i).0 y) in
        rw y (subst (λ (t : ℕ). All (Belongs t) nodes) same new)
    | inr n ↦ rw n (old q fits)
  ]

-- The sink may change: `last` does not look at it.
pub set_bucket-IsSound_sink :
    (buf : ℕ → List MemNode) (last : ℕ) (nodes : List MemNode)
    → All (Belongs 0) nodes
    → IsSound buf last
    → IsSound (set_bucket buf 0 nodes) last
set_bucket-IsSound_sink buf last nodes belong sound = record {
  last_fits = sound.last_fits;
  belong = set_bucket-belong buf 0 nodes belong sound.belong;
  above =
      λ q over fits. set_bucket-other buf 0 nodes q (λ z. omega arith) ∙ sound.above q over fits;
  top = elim sound.top [
    | inl bottom ↦ inl bottom
    | inr filled ↦ elim (dec_le last 0) [
      | yes p ↦ inl (omega arith)
      | no p ↦ inr (λ z. filled (sym (set_bucket-other buf 0 nodes last (λ e. omega arith)) ∙ z))
    ]
  ];
}
