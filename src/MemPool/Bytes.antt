-- ===== src/MemPool/Bytes.antt =====
-- The bytes of a pool's nodes: which are in a node, and which were given out.
use libstappler_common.Common.{
  ℕ, ◌+◌, ◌≤◌, ◌≡◌, refl, arith, inl, inr, ◌&&◌, List, [], ◌∷◌, All, leb, ltb, if◌then◌else◌,
  Bool-cases,
}
use libstappler_common.MemPool.Nodes.{MemNode, sizeof_memnode}
use libstappler_common.MemPool.Sound.{IsNode}
use libstappler_common.MemPool.Palloc.{place_node, free_space}

-- One for an address in the part from `start` to before `end`.
abbrev pub inside : ℕ → ℕ → ℕ → ℕ
inside start end x = if leb start x && ltb x end then 1 else 0

abbrev pub owned : ℕ → MemNode → ℕ
owned x node = inside node.at node.endp x

-- The pool gives out the bytes behind a node's head up to `first_avail`.
abbrev pub used : ℕ → MemNode → ℕ
used x node = inside (node.at + sizeof_memnode) node.first_avail x

abbrev pub total : (MemNode → ℕ) → List MemNode → ℕ
total f [] = 0
total f (node ∷ nodes) = f node + total f nodes

-- `first_avail` is between the node's head and its end.
pub record IsFilled (node : MemNode) : Type 0 where
  pub is_node : IsNode node
  pub behind_head : node.at + sizeof_memnode ≤ node.first_avail
  pub in_front : node.first_avail ≤ node.endp

pub total-place_node :
    (f : MemNode → ℕ) (free_index : ℕ) (node : MemNode) (nodes : List MemNode)
    → total f (place_node free_index node nodes) ≡ f node + total f nodes
unfolding place_node
total-place_node f free_index node [] = refl
total-place_node f free_index node (n ∷ nodes) = elim (Bool-cases (leb n.free_index free_index)) [
  | inl y ↦ rw y refl
  | inr m ↦ rw m (omega (arith, total-place_node f free_index node nodes))
]

pub All-place_node :
    (free_index : ℕ) (node : MemNode) (nodes : List MemNode)
    → IsFilled node
    → All IsFilled nodes
    → All IsFilled (place_node free_index node nodes)
unfolding place_node
All-place_node free_index node [] one all = (one, tt)
All-place_node free_index node (n ∷ nodes) one (first, all) =
    elim (Bool-cases (leb n.free_index free_index)) [
      | inl y ↦ rw y (one, (first, all))
      | inr m ↦ rw m (first, All-place_node free_index node nodes one all)
    ]

-- A byte that was given out is in a node.
pub used-owned :
    (x : ℕ) (nodes : List MemNode)
    → All IsFilled nodes
    → total (used x) nodes ≤ total (owned x) nodes
used-owned x [] all = omega arith
used-owned x (node ∷ nodes) (one, all) =
    ground (arith, used-owned x nodes all, one.behind_head, one.in_front)

pub free_space_lem :
    (node : MemNode) → IsFilled node → node.first_avail + free_space node ≡ node.endp
unfolding free_space
free_space_lem node filled =
    ground
      (arith, filled.is_node.extent, filled.is_node.index_fits, filled.behind_head, filled.in_front)

pub used-grown :
    (x size : ℕ) (node : MemNode)
    → node.at + sizeof_memnode ≤ node.first_avail
    → inside (node.at + sizeof_memnode) (node.first_avail + size) x
      ≡ used x node + inside node.first_avail (node.first_avail + size) x
used-grown x size node behind = ground arith

-- Nothing of a new node was given out.
pub used-new :
    (x : ℕ) (node : MemNode) → node.first_avail ≡ node.at + sizeof_memnode → used x node ≡ 0
used-new x node e = ground arith
