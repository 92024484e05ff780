-- ===== src/MemPool/RingOrder.antt =====
-- The order of the nodes behind the active one.
use libstappler_common.Common.{
  ℕ, ◌+◌, ◌/◌, ◌^◌, ◌≤◌, ◌<◌, ◌≡◌, ◌∙◌, arith, inl, inr, List, [], ◌∷◌, All, leb, Bool-cases, u32,
}
use mathlib.Core.Path.{subst}
use libstappler_common.MemPool.Nodes.{MemNode, boundary_size, align}
use libstappler_common.MemPool.Palloc.{free_space, place_node, space_index}
use libstappler_common.MemPool.Bytes.{IsFilled, free_space_lem}

-- `free_index` is the free space of the node in whole multiples of `BOUNDARY_SIZE`.
abbrev pub IsIndexed : MemNode → Type 0
IsIndexed node = node.free_index ≡ free_space node / boundary_size

abbrev pub AtMost : ℕ → MemNode → Type 0
AtMost i node = node.free_index ≤ i

abbrev pub Descending : List MemNode → Type 0
Descending [] = Unit {0}
Descending (node ∷ nodes) = All (AtMost node.free_index) nodes × Descending nodes

-- The nodes behind the active one, those with most free space first.
pub record IsRing (nodes : List MemNode) : Type 0 where
  pub indexed : All IsIndexed nodes
  pub descending : Descending nodes

All-AtMost-trans :
    (i j : ℕ) (nodes : List MemNode) → i ≤ j → All (AtMost i) nodes → All (AtMost j) nodes
All-AtMost-trans i j [] h all = tt
All-AtMost-trans i j (node ∷ nodes) h (one, others) =
    (omega arith, All-AtMost-trans i j nodes h others)

place_node-All :
    (P : MemNode → Type 0) (free_index : ℕ) (node : MemNode) (nodes : List MemNode)
    → P node
    → All P nodes
    → All P (place_node free_index node nodes)
unfolding place_node
place_node-All P free_index node [] one all = (one, tt)
place_node-All P free_index node (n ∷ nodes) one (first, all) =
    elim (Bool-cases (leb n.free_index free_index)) [
      | inl y ↦ rw y (one, (first, all))
      | inr m ↦ rw m (first, place_node-All P free_index node nodes one all)
    ]

place_node-Descending :
    (node : MemNode) (nodes : List MemNode)
    → Descending nodes
    → Descending (place_node node.free_index node nodes)
unfolding place_node
place_node-Descending node [] down = (tt, tt)
place_node-Descending node (n ∷ nodes) (below, down) =
    elim (Bool-cases (leb n.free_index node.free_index)) [
      | inl y ↦ rw y (
        (ground arith, All-AtMost-trans n.free_index node.free_index nodes (ground arith) below),
        (below, down),
      )
      | inr m ↦ rw m (
        place_node-All (AtMost n.free_index) node.free_index node nodes (ground arith) below,
        place_node-Descending node nodes down,
      )
    ]

space_index_lem :
    (node : MemNode)
    → IsFilled node
    → (space_index node ≡ free_space node / boundary_size)
      × (u32 (space_index node) ≡ space_index node)
unfolding space_index align
space_index_lem node filled =
    let small : free_space node < 2 ^ 32 = omega (
      arith,
      free_space_lem node filled,
      filled.is_node.extent,
      filled.is_node.index_fits,
      filled.behind_head,
    ) in
    (ground arith, ground arith)

-- The node that was active goes to its place.
pub place_node-IsRing :
    (node : MemNode) (others : List MemNode)
    → IsFilled node
    → IsRing others
    → IsRing
        (place_node (space_index node) (record node { free_index = u32 (space_index node) }) others)
unfolding free_space
place_node-IsRing node others filled ring =
    let (whole, cut) = space_index_lem node filled in
    let moved = record node { free_index = u32 (space_index node) } in
    record {
      indexed = place_node-All IsIndexed (space_index node) moved others (cut ∙ whole) ring.indexed;
      descending =
          subst (λ (i : ℕ). Descending (place_node i moved others)) cut
            (place_node-Descending moved others ring.descending);
    }

pub IsRing-tail : (node : MemNode) (nodes : List MemNode) → IsRing (node ∷ nodes) → IsRing nodes
IsRing-tail node nodes ring = record { indexed = ring.indexed.1; descending = ring.descending.1 }

-- Another node has less than one unit more free space than the first.
pub IsRing-first :
    (node : MemNode) (nodes : List MemNode)
    → All IsIndexed nodes
    → All (AtMost node.free_index) nodes
    → IsIndexed node
    → All (λ n. free_space n < free_space node + boundary_size) nodes
IsRing-first node [] indexed below one = tt
IsRing-first node (n ∷ nodes) (first, indexed) (at_most, below) one =
    (omega (arith, first, at_most, one), IsRing-first node nodes indexed below one)
