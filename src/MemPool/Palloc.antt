-- ===== src/MemPool/Palloc.antt =====
-- `Pool` of common/memory/pool/SPMemPoolPool.cc with `MemNode::insert`, `remove` and `free_space` of
-- SPMemPoolUtils.cc. The ring of the pool's nodes is the active node and the others in the order of `next`;
-- `self` is the address of the node that the pool itself is in.
use libstappler_common.Common.{
  ◌>>=◌, ℕ, ◌+◌, ◌-◌, ◌/◌, ◌^◌, List, [], ◌∷◌, ◌++◌, Option, none, some, ◌==◌, ltb, leb,
  if◌then◌else◌, u32, u64,
}
use libstappler_common.MemPool.Nodes.{
  boundary_size, min_alloc, sizeof_memnode, align, MemNode, Allocator,
}
use libstappler_common.MemPool.Alloc.{alloc}
use libstappler_common.MemPool.Free.{free}

pub record Pool : Type 0 where
  pub active : MemNode
  pub others : List MemNode
  pub self : ℕ
  pub self_first_avail : ℕ
  pub allocator : Allocator

-- `endp - first_avail` as a `size_t`.
unfoldable pub free_space : MemNode → ℕ
free_space node = u64 (node.endp + 2 ^ 64 - node.first_avail)

-- Where the last part of `palloc` puts the node that was active: behind the nodes with a larger `free_index`.
unfoldable pub place_node : ℕ → MemNode → List MemNode → List MemNode
place_node free_index node [] = node ∷ []
place_node free_index node (n ∷ nodes) =
    let rest = place_node free_index node nodes in
    if leb n.free_index free_index then node ∷ n ∷ nodes else n ∷ rest

-- The free space in whole multiples of `BOUNDARY_SIZE`.
unfoldable pub space_index : MemNode → ℕ
space_index node =
    u64 (align (u64 (free_space node + 1)) boundary_size + 2 ^ 64 - boundary_size) / boundary_size

-- `node` becomes the active node of a ring whose nodes behind the active one are `others`.
unfoldable pub activate : ℕ → MemNode → List MemNode → Allocator → Pool → Option ℕ × Pool
activate size node others allocator p = (
  some node.first_avail,
  record p {
    active = record node { free_index = 0; first_avail = node.first_avail + size };
    others =
        place_node (space_index p.active)
          (record p.active { free_index = u32 (space_index p.active) }) others;
    allocator = allocator;
  },
)

-- The call of the allocator cuts the size down to 32 bits.
unfoldable pub palloc_new : (ℕ → Option ℕ) → ℕ → Pool → Option (Option ℕ × Pool)
palloc_new malloc size p = alloc malloc (u32 size) p.allocator >>= λ (r, allocator). elim r [
  | none ↦ some (none, record p { allocator = allocator })
  | some node ↦ some (activate size node p.others allocator p)
]

-- The second node of the ring, or a new one. In a ring of one node the second is the active one, which is
-- full.
unfoldable pub palloc_next : (ℕ → Option ℕ) → ℕ → Pool → Option (Option ℕ × Pool)
palloc_next malloc size p = elim p.others [
  | [] ↦ palloc_new malloc size p
  | node ∷ nodes ↦
      if leb size (free_space node)
      then some (activate size node nodes p.allocator p)
      else palloc_new malloc size p
]

-- The address of the block, or null.
unfoldable pub palloc : (ℕ → Option ℕ) → ℕ → Pool → Option (Option ℕ × Pool)
palloc malloc in_size p =
    let size = align in_size 16 in
    if ltb size in_size
    then some (none, p)
    else if leb size (free_space p.active)
    then some (
      some p.active.first_avail,
      record p { active = record p.active { first_avail = p.active.first_avail + size } },
    )
    else palloc_next malloc size p

-- `SPALIGN_DEFAULT(sizeof(Pool))` where pointers have eight bytes.
abbrev pub sizeof_pool : ℕ
sizeof_pool = 192

-- `Pool::create` on an allocator that is given: the pool is at the start of its first node.
unfoldable pub create_pool : (ℕ → Option ℕ) → Allocator → Option Pool
create_pool malloc allocator = alloc malloc (min_alloc - sizeof_memnode) allocator >>= λ (r, rest).
    r >>= λ node. some (record {
      active = record node { first_avail = node.first_avail + sizeof_pool };
      others = [];
      self = node.at;
      self_first_avail = node.first_avail + sizeof_pool;
      allocator = rest;
    })

-- The nodes behind the one at `self` in the ring, which begins with the nodes of `before` in front of the others.
unfoldable pub from_self : ℕ → List MemNode → List MemNode → Option (MemNode × List MemNode)
from_self self before [] = none
from_self self before (node ∷ nodes) =
    let later = from_self self (before ++ node ∷ []) nodes in
    if node.at == self then some (node, nodes ++ before) else later

-- The end of `clear`: the nodes but the one of the pool itself go back; the second result went to `::free`.
unfoldable pub clear_nodes : Pool → Option (Pool × List MemNode)
clear_nodes p = from_self p.self [] (p.active ∷ p.others) >>= λ (own, nodes).
    let active = record own { first_avail = p.self_first_avail } in
    elim nodes [
      | [] ↦ some (record p { active = active; others = [] }, [])
      | node ∷ more ↦
          let (allocator, released) = free node more p.allocator in
          some (record p { active = active; others = []; allocator = allocator }, released)
    ]

-- The end of the destructor: all nodes go back.
unfoldable pub destroy_nodes : Pool → Option (Allocator × List MemNode)
destroy_nodes p =
    from_self p.self [] (p.active ∷ p.others) >>= λ (own, nodes). some (free own nodes p.allocator)
