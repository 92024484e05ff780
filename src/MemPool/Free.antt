-- ===== src/MemPool/Free.antt =====
-- `Allocator::free` and the destructor of common/memory/pool/SPMemPoolAllocator.cc, without an mmap region.
use libstappler_common.Common.{
  ℕ, zero, suc, ◌+◌, ◌-◌, ◌^◌, not, ◌&&◌, List, [], ◌∷◌, ◌==◌, ltb, leb, if◌then◌else◌, u32, u64,
}
use libstappler_common.MemPool.Nodes.{max_index, MemNode, Allocator, set_bucket}

-- The local variables of the loop; `max` is left alone.
pub record Freeing : Type 0 where
  pub buf : ℕ → List MemNode
  pub last : ℕ
  pub current : ℕ
  pub freelist : List MemNode

abbrev pub debit : ℕ → ℕ → ℕ
debit index current = if leb (u32 (index + 1)) current then current - u32 (index + 1) else 0

-- The new `max_index`, by what was in the bucket.
abbrev pub raise : List MemNode → ℕ → ℕ → ℕ
raise [] index last = if ltb last index then index else last
raise (node ∷ nodes) index last = last

-- Puts a node at the head of its bucket.
unfoldable pub keep_node : MemNode → Freeing → Freeing
keep_node node s =
    if ltb node.index max_index
    then (record s {
      buf = set_bucket s.buf node.index (node ∷ s.buf node.index);
      last = raise (s.buf node.index) node.index s.last;
      current = debit node.index s.current;
    })
    else (record s {
      buf = set_bucket s.buf 0 (node ∷ s.buf 0);
      current = debit node.index s.current;
    })

-- One round of the loop, where 0 is `ALLOCATOR_MAX_FREE_UNLIMITED`.
unfoldable pub give_back : ℕ → MemNode → Freeing → Freeing
give_back max node s =
    if not (max == 0) && ltb s.current (u32 (node.index + 1))
    then (record s { freelist = node ∷ s.freelist })
    else keep_node node s

unfoldable pub free_nodes : ℕ → List MemNode → Freeing → Freeing
free_nodes max [] s = s
free_nodes max (node ∷ nodes) s = free_nodes max nodes (give_back max node s)

-- What the nodes given back to `::free` take from `allocated`.
unfoldable pub release : List MemNode → ℕ → ℕ
release [] allocated = allocated
release (node ∷ nodes) allocated =
    release nodes (u64 (allocated + 2 ^ 64 - u64 (node.endp + 2 ^ 64 - node.at)))

-- The nodes are `node` and the ones linked behind it; the second result is what went to `::free`, in that order.
unfoldable pub free : MemNode → List MemNode → Allocator → Allocator × List MemNode
free node nodes a =
    let s =
      free_nodes a.max (node ∷ nodes)
        (record { buf = a.buf; last = a.last; current = a.current; freelist = [] }) in
    (
      record a {
        buf = s.buf;
        last = s.last;
        current = s.current;
        allocated = release s.freelist a.allocated;
      },
      s.freelist,
    )

-- The loop of the destructor over the first `count` buckets from `i` on, and what is left of `allocated`.
unfoldable pub destroy_from : ℕ → ℕ → Allocator → ℕ
destroy_from zero i a = a.allocated
destroy_from (suc count) i a =
    destroy_from count (i + 1)
      (record a { buf = set_bucket a.buf i []; allocated = release (a.buf i) a.allocated })

unfoldable pub destroy_allocator : Allocator → ℕ
destroy_allocator a = destroy_from max_index 0 a
