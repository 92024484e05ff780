-- ===== src/MemPool/Nodes.antt =====
-- The nodes and the state of the allocator, from SPMemPoolStruct.h and SPMemPoolConfig.h.
use libstappler_common.Common.{
  ℕ, ◌+◌, ◌-◌, ◌*◌, ◌/◌, List, [], Option, none, some, ◌==◌, ltb, if◌then◌else◌, u64,
}

abbrev pub boundary_size : ℕ
boundary_size = 4096

abbrev pub min_alloc : ℕ
min_alloc = 2 * boundary_size

abbrev pub max_index : ℕ
max_index = 20

-- `SPALIGN_DEFAULT(sizeof(MemNode))` where pointers have eight bytes.
abbrev pub sizeof_memnode : ℕ
sizeof_memnode = 48

-- `&` with the complement of a power of two less one drops the remainder.
unfoldable pub align : ℕ → ℕ → ℕ
align size boundary = u64 (size + (boundary - 1)) / boundary * boundary

-- The address of a node and its fields but for `next`, which is its place in a list.
pub record MemNode : Type 0 where
  pub at : ℕ
  pub index : ℕ
  pub free_index : ℕ
  pub first_avail : ℕ
  pub endp : ℕ

pub record Allocator : Type 0 where
  pub last : ℕ
  pub max : ℕ
  pub current : ℕ
  pub buf : ℕ → List MemNode
  pub allocated : ℕ

-- The constructor.
unfoldable pub create_allocator : Allocator
create_allocator = record { last = 0; max = 0; current = 0; buf = λ i. []; allocated = 0 }

-- `buf[i]`, which is nothing outside the array.
unfoldable pub bucket : (ℕ → List MemNode) → ℕ → Option (List MemNode)
bucket buf i = if ltb i max_index then some (buf i) else none

-- `buf[i] = nodes`
abbrev pub set_bucket : (ℕ → List MemNode) → ℕ → List MemNode → ℕ → List MemNode
set_bucket buf i nodes q = if q == i then nodes else buf q
