-- ===== src/MemPool/Account.antt =====
-- The count of bytes that the allocator holds from `malloc`.
use libstappler_common.Common.{
  ℕ, zero, suc, ◌+◌, ◌-◌, ◌*◌, ◌^◌, ◌<◌, ◌≡◌, refl, ap, ◌∙◌, arith, inl, inr, List, [], ◌∷◌, All,
  ◌==◌, Bool-cases, u64,
}
use libstappler_common.MemPool.Nodes.{MemNode, Allocator, max_index, set_bucket, boundary_size}
use libstappler_common.MemPool.Free.{
  Freeing, keep_node, give_back, free_nodes, release, destroy_from, destroy_allocator,
}
use libstappler_common.MemPool.Stored.{stored, weigh, weigh_below, weigh_below-set_bucket}
use libstappler_common.MemPool.Sound.{IsNode, Belongs, Belongs-IsNode}

-- A node's size in bytes.
abbrev pub bytes : ℕ → ℕ → ℕ
bytes at index = (index + 1) * boundary_size

pub Belongs-All : (i : ℕ) (nodes : List MemNode) → All (Belongs i) nodes → All IsNode nodes
Belongs-All i [] all = tt
Belongs-All i (node ∷ nodes) (one, others) = (Belongs-IsNode i node one, Belongs-All i nodes others)

release_one :
    (node : MemNode) (allocated left_over : ℕ)
    → IsNode node
    → allocated ≡ u64 (left_over + bytes node.at node.index)
    → u64 (allocated + 2 ^ 64 - u64 (node.endp + 2 ^ 64 - node.at)) ≡ u64 left_over
release_one node allocated left_over is_node e = ground (arith, is_node.extent, is_node.index_fits)

-- The nodes' bytes are taken off.
pub release_lem :
    (nodes : List MemNode) (allocated left_over : ℕ)
    → All IsNode nodes
    → allocated ≡ u64 (left_over + weigh bytes nodes)
    → release nodes allocated ≡ u64 left_over
unfolding release
release_lem [] allocated left_over all e = omega arith
release_lem (node ∷ nodes) allocated left_over (one, others) e =
    release_lem nodes _ left_over others
      (release_one node allocated (left_over + weigh bytes nodes) one (omega arith))

module _ (node : MemNode) (s : Freeing) where
  give_back-freelist :
      (max : ℕ) → IsNode node → All IsNode s.freelist → All IsNode (give_back max node s).freelist
  unfolding give_back keep_node
  give_back-freelist max one all = ground arith

pub free_nodes-freelist :
    (max : ℕ) (nodes : List MemNode) (s : Freeing)
    → All IsNode nodes
    → All IsNode s.freelist
    → All IsNode (free_nodes max nodes s).freelist
unfolding free_nodes
free_nodes-freelist max [] s all listed = listed
free_nodes-freelist max (node ∷ nodes) s (one, others) listed =
    free_nodes-freelist max nodes (give_back max node s) others
      (give_back-freelist node s max one listed)

weigh_below-empty :
    (f : ℕ → ℕ → ℕ) (count : ℕ) (buf : ℕ → List MemNode)
    → ((q : ℕ) → q < count → buf q ≡ [])
    → weigh_below f count buf ≡ 0
weigh_below-empty f zero buf empty = refl
weigh_below-empty f (suc count) buf empty = omega (
  arith,
  weigh_below-empty f count buf (λ q h. empty q (omega arith)),
  ap (weigh f) (empty count (omega arith)),
)

-- The buckets below `i` are empty, and `allocated` counts the nodes of the others.
destroy_from_lem :
    (count i : ℕ) (a : Allocator)
    → i + count ≡ max_index
    → ((q : ℕ) → q < max_index → All IsNode (a.buf q))
    → ((q : ℕ) → q < i → a.buf q ≡ [])
    → a.allocated ≡ u64 (stored bytes a)
    → destroy_from count i a ≡ 0
unfolding destroy_from
destroy_from_lem zero i a fits all empty e =
    e ∙ ap u64 (weigh_below-empty bytes max_index a.buf (λ q h. empty q (omega arith)))
destroy_from_lem (suc count) i a fits all empty e =
    destroy_from_lem count (i + 1)
      (record a { buf = set_bucket a.buf i []; allocated = release (a.buf i) a.allocated })
      (omega arith) (λ q h. elim (Bool-cases (q == i)) [ inl y ↦ rw y tt | inr n ↦ rw n (all q h) ])
      (λ q h. elim (Bool-cases (q == i)) [
        | inl y ↦ rw y refl
        | inr n ↦ rw n (empty q (ground arith))
      ])
      (release_lem (a.buf i) a.allocated (weigh_below bytes max_index (set_bucket a.buf i []))
        (all i (omega arith))
        (omega (arith, weigh_below-set_bucket bytes max_index i a.buf [] (omega arith))))

pub destroy_lem :
    (a : Allocator)
    → ((q : ℕ) → q < max_index → All IsNode (a.buf q))
    → a.allocated ≡ u64 (stored bytes a)
    → destroy_allocator a ≡ 0
unfolding destroy_allocator
destroy_lem a all e = destroy_from_lem max_index 0 a refl all (λ q h. absurd (omega arith)) e
