-- ===== src/MemPool/Runs.antt =====
-- The properties of the allocator and the pool at concrete states.
use libstappler_common.Common.{ℕ, ◌+◌, ◌≤◌, ◌<◌, ◌≡◌, refl, arith, inr, [], ◌∷◌, Option, some}
use mathlib.Core.Option.{some-injective}
use libstappler_common.MemPool.Nodes.{MemNode, Allocator, create_allocator, align}
use libstappler_common.MemPool.Alloc.{
  alloc, set_max, node_size, reset_node, new_node, split_sink, alloc_index,
}
use libstappler_common.MemPool.Free.{keep_node, give_back, free_nodes, free}
use libstappler_common.MemPool.Stored.{stored, weigh}
use libstappler_common.MemPool.Sound.{IsNode, IsSound, create_allocator-IsSound}
use libstappler_common.MemPool.Serve.{Serves, alloc-Serves}
use libstappler_common.MemPool.Quota.{units, IsWithin, set_max-IsWithin, free-IsWithin}
use libstappler_common.MemPool.Limit.{unused, freed, stored-Used, set_max-below}
use libstappler_common.MemPool.Life.{
  at_address, GivesNew, Reachable, created, allocated, alloc-distinct,
}
use libstappler_common.MemPool.Again.{alloc-free}

abbrev pub malloc_low : ℕ → Option ℕ
malloc_low size = some 65536

abbrev pub malloc_high : ℕ → Option ℕ
malloc_high size = some 200000

abbrev pub low : MemNode
low = record { at = 65536; index = 1; free_index = 0; first_avail = 65584; endp = 73728 }

-- A node of three units.
abbrev pub high : MemNode
high = record { at = 200000; index = 2; free_index = 0; first_avail = 200048; endp = 212288 }

unfoldable pub one_node : Allocator
unfolding create_allocator
one_node = record create_allocator { allocated = 8192 }

low_run : alloc malloc_low 100 create_allocator ≡ some (some low, one_node)
unfolding one_node alloc node_size align alloc_index split_sink new_node create_allocator
low_run = refl

alloc-Serves_example :
    Serves malloc_low 100 create_allocator (alloc malloc_low 100 create_allocator)
alloc-Serves_example =
    alloc-Serves malloc_low 100 create_allocator create_allocator-IsSound (omega arith)

new_low : GivesNew malloc_low create_allocator []
unfolding create_allocator
new_low size p got = omega arith

one_held : Reachable one_node (low ∷ [])
one_held = allocated malloc_low 100 low created (omega arith) new_low low_run

pub at-elsewhere : (p : ℕ) → 200000 ≡ p → at_address p 65536 1 ≡ 0
at-elsewhere p e = ground arith

new_high : GivesNew malloc_high one_node (low ∷ [])
unfolding one_node create_allocator
new_high size p got = omega (arith, at-elsewhere p (some-injective 200000 p got))

unfoldable pub two_nodes : Allocator
unfolding one_node create_allocator
two_nodes = record one_node { allocated = 20480 }

pub high_run : alloc malloc_high 10000 one_node ≡ some (some high, two_nodes)
unfolding two_nodes one_node alloc node_size align alloc_index split_sink new_node create_allocator
high_run = refl

alloc-distinct_example :
    stored (at_address 200000) two_nodes + weigh (at_address 200000) (low ∷ []) ≡ 0
alloc-distinct_example =
    alloc-distinct one_node two_nodes (low ∷ []) malloc_high 10000 high one_held (omega arith)
      new_high high_run

low-IsNode : IsNode low
low-IsNode = record { at_least = omega arith; index_fits = omega arith; extent = refl }

-- A limit of four units, and then a node of two units that is given back.
unfoldable limited : Allocator
limited = set_max 16384 one_node

limited-IsWithin : IsWithin limited
unfolding limited one_node create_allocator
limited-IsWithin =
    set_max-IsWithin 16384 one_node (omega arith) (omega arith) (inr refl)
      (record { max_fits = omega arith; bounded = omega arith; balance = λ z. refl })

limited-IsSound : IsSound limited.buf limited.last
unfolding limited set_max one_node create_allocator
limited-IsSound = create_allocator-IsSound

limited_max : limited.max ≡ 4
unfolding limited set_max align one_node create_allocator
limited_max = refl

stored-Used_example : stored units (free low [] limited).0 ≤ limited.max
stored-Used_example =
    stored-Used limited (free low [] limited).0 limited-IsSound limited-IsWithin
      (λ z. omega (arith, limited_max)) (freed low [] unused (low-IsNode, tt))

kept_max : (free low [] limited).0.max ≡ 4
unfolding limited set_max align one_node create_allocator free
kept_max = refl

kept_below : (set_max 4096 (free low [] limited).0).max < stored units (free low [] limited).0
unfolding limited set_max align one_node create_allocator free free_nodes give_back keep_node
kept_below = omega arith

set_max-below_example :
    ((set_max 4096 (free low [] limited).0).current ≡ (set_max 4096 (free low [] limited).0).max)
    × (stored units (set_max 4096 (free low [] limited).0) ≡ stored units (free low [] limited).0)
set_max-below_example =
    set_max-below 4096 (free low [] limited).0 (omega arith)
      (free-IsWithin low [] limited (low-IsNode, tt) limited-IsWithin)
      (λ z. omega (arith, kept_max)) kept_below

limited_current : limited.current ≡ 4
unfolding limited set_max align one_node create_allocator
limited_current = refl

low_size : node_size 100 ≡ some 8192
unfolding node_size align
low_size = refl

alloc-free_example :
    alloc malloc_high 100 (free low [] limited).0 ≡ some (some (reset_node low), limited)
alloc-free_example =
    alloc-free malloc_high 100 limited low limited-IsSound
      (omega (arith, limited_max, limited_current)) (omega (arith, limited_max)) low-IsNode
      (omega arith) (inr (omega (arith, limited_current))) low_size
