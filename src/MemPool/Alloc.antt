-- ===== src/MemPool/Alloc.antt =====
-- `Allocator::alloc` and `set_max` of common/memory/pool/SPMemPoolAllocator.cc, without an mmap region.
use libstappler_common.Common.{
  ◌>>=◌, ℕ, zero, suc, ◌+◌, ◌-◌, ◌/◌, ◌^◌, Bool, true, false, ◌&&◌, List, [], ◌∷◌, Option, none,
  some, ltb, leb, if◌then◌else◌, u32, u64,
}
use libstappler_common.MemPool.Nodes.{
  boundary_size, min_alloc, sizeof_memnode, align, MemNode, Allocator, bucket, set_bucket,
}

-- `current` may drop below zero by the second step, and wraps around.
unfoldable pub set_max : ℕ → Allocator → Allocator
set_max size a =
    let max_free_index = u32 (align size boundary_size / boundary_size) in
    let grown = u32 (a.current + max_free_index) in
    let current = u32 (grown + 2 ^ 32 - a.max) in
    record a {
      current = if ltb max_free_index current then max_free_index else current;
      max = max_free_index;
    }

-- The size of the node for a request, if it has 32 bits.
unfoldable pub node_size : ℕ → Option ℕ
node_size in_size =
    let size = u32 (align (u64 (in_size + sizeof_memnode)) boundary_size) in
    if ltb size in_size then none else some (if ltb size min_alloc then min_alloc else size)

-- The first bucket that is not empty, or the last one; `steps` buckets are left before that.
unfoldable pub find_bucket : ℕ → (ℕ → List MemNode) → ℕ → Option ℕ
find_bucket zero buf i = some i
find_bucket (suc steps) buf i = bucket buf i >>= λ nodes. elim nodes [
  | [] ↦ find_bucket steps buf (i + 1)
  | node ∷ nodes ↦ some i
]

-- The do-while loop that steps down from `max_index`.
unfoldable pub find_last : ℕ → (ℕ → List MemNode) → Option ℕ
find_last zero buf = none
find_last (suc zero) buf = some 0
find_last (suc (suc i)) buf = bucket buf (suc i) >>= λ nodes. elim nodes [
  | [] ↦ find_last (suc i) buf
  | node ∷ nodes ↦ some (suc i)
]

-- What both ways of using a kept node do with `current` and the node.
unfoldable pub credit : ℕ → Allocator → Allocator
credit index a =
    let current = u32 (a.current + u32 (index + 1)) in
    record a { current = if ltb a.max current then a.max else current }

abbrev pub reset_node : MemNode → MemNode
reset_node node = record node { first_avail = node.at + sizeof_memnode }

-- `malloc` of a node.
unfoldable pub new_node : (ℕ → Option ℕ) → ℕ → ℕ → Allocator → Option (Option MemNode × Allocator)
new_node malloc size index a = elim (malloc size) [
  | none ↦ some (none, a)
  | some at ↦ some (
    some (record {
      at = at;
      index = index;
      free_index = 0;
      first_avail = at + sizeof_memnode;
      endp = at + size;
    }),
    record a { allocated = u64 (a.allocated + size) },
  )
]

abbrev pub is_empty : List MemNode → Bool
is_empty [] = true
is_empty (node ∷ nodes) = false

-- Takes `node` out of bucket `i`, whose other nodes are `rest`.
unfoldable pub take_bucket :
    ℕ → MemNode → List MemNode → Allocator → Option (Option MemNode × Allocator)
take_bucket i node rest a =
    let buf = set_bucket a.buf i rest in
    (if is_empty rest && leb a.last i then find_last i buf else some a.last) >>= λ last.
    some (some (reset_node node), credit node.index (record a { buf = buf; last = last }))

-- The first node of the sink that is large enough, and the others.
unfoldable pub split_sink : ℕ → List MemNode → Option (MemNode × List MemNode)
split_sink index [] = none
split_sink index (node ∷ nodes) =
    let rest = split_sink index nodes in
    if ltb node.index index
    then (rest >>= λ (found, others). some (found, node ∷ others))
    else some (node, nodes)

unfoldable pub alloc_index :
    (ℕ → Option ℕ) → ℕ → ℕ → Allocator → Option (Option MemNode × Allocator)
alloc_index malloc size index a =
    if leb index a.last
    then (find_bucket (a.last - index) a.buf index >>= λ i. bucket a.buf i >>= λ nodes. elim nodes [
      | [] ↦ new_node malloc size index a
      | node ∷ rest ↦ take_bucket i node rest a
    ])
    else elim (split_sink index (a.buf 0)) [
      | none ↦ new_node malloc size index a
      | some (node, others) ↦
          some (
            some (reset_node node),
            credit node.index (record a { buf = set_bucket a.buf 0 others }),
          )
    ]

-- The node is `none` for a null pointer; the whole is nothing where `buf` is read outside its bounds.
unfoldable pub alloc : (ℕ → Option ℕ) → ℕ → Allocator → Option (Option MemNode × Allocator)
alloc malloc in_size a = elim (node_size in_size) [
  | none ↦ some (none, a)
  | some size ↦
      let index = size / boundary_size - 1 in
      if ltb (2 ^ 32 - 1) index then some (none, a) else alloc_index malloc size index a
]
