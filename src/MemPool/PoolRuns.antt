-- ===== src/MemPool/PoolRuns.antt =====
-- The properties of the pool at concrete states.
use libstappler_common.Common.{
  ℕ, ◌+◌, ◌^◌, ◌≤◌, ◌<◌, ◌≡◌, refl, sym, ap, ◌∙◌, arith, List, [], ◌∷◌, Option, some, All,
}
use mathlib.Core.Path.{subst}
use mathlib.Core.Option.{some-injective}
use libstappler_common.MemPool.Nodes.{MemNode, Allocator, create_allocator, align, boundary_size}
use libstappler_common.MemPool.Alloc.{alloc, node_size, new_node, split_sink, alloc_index}
use libstappler_common.MemPool.Free.{destroy_allocator}
use libstappler_common.MemPool.Life.{at_address, GivesNew}
use libstappler_common.MemPool.Palloc.{
  Pool, create_pool, free_space, place_node, space_index, activate, palloc_new, palloc_next, palloc,
  destroy_nodes,
}
use libstappler_common.MemPool.Bytes.{owned, used, total}
use libstappler_common.MemPool.Blocks.{ring, GivesApart}
use libstappler_common.MemPool.Apart.{palloc-apart, palloc-large}
use libstappler_common.MemPool.PoolLife.{
  Lives, created, requested, Lives-IsWhole, destroy_allocator-Lives, free_space-Lives,
}
use libstappler_common.MemPool.Runs.{
  malloc_low, malloc_high, low, high, one_node, two_nodes, at-elsewhere, high_run,
}

unfoldable first_pool : Pool
first_pool = record {
  active = record low { first_avail = 65776 };
  others = [];
  self = 65536;
  self_first_avail = 65776;
  allocator = one_node;
}

first_created : create_pool malloc_low create_allocator ≡ some first_pool
unfolding first_pool one_node create_pool alloc node_size align alloc_index split_sink new_node
    create_allocator
first_created = refl

first_Lives : Lives first_pool
first_Lives = created malloc_low first_created

first_new : GivesNew malloc_high first_pool.allocator (ring first_pool)
unfolding first_pool one_node create_allocator
first_new size p got = omega (arith, at-elsewhere p (some-injective 200000 p got))

high-owned : (x : ℕ) → owned x high + owned x low ≤ 1
high-owned x = ground arith

first_apart : GivesApart malloc_high (align 10000 16) first_pool
unfolding first_pool align
first_apart node b e x =
    let same =
      some-injective {A = Option MemNode × Allocator} (some high, two_nodes) (some node, b)
        (sym high_run ∙ e) in
    let is_high =
      some-injective {A = MemNode} high node (ap (λ (y : Option MemNode × Allocator). y.0) same) in
    subst (λ (n : MemNode). owned x n + total (owned x) (ring first_pool) ≤ 1) is_high
      (omega (arith, high-owned x))

-- The second node is active now, and the first one has 7952 bytes left.
unfoldable second_pool : Pool
unfolding first_pool
second_pool = record first_pool {
  active = record high { first_avail = 210048 };
  others = record low { first_avail = 65776; free_index = 1 } ∷ [];
  allocator = two_nodes;
}

second_run : palloc malloc_high 10000 first_pool ≡ some (some 200048, second_pool)
unfolding second_pool first_pool two_nodes one_node palloc palloc_next palloc_new activate
    place_node space_index free_space alloc node_size align alloc_index split_sink new_node
    create_allocator
second_run = refl

second_Lives : Lives second_pool
second_Lives =
    requested malloc_high 10000 (some 200048) first_Lives (omega arith) first_new first_apart
      second_run

palloc-apart_example :
    (total (used 205000) (ring first_pool) ≡ 0)
    × (total (used 205000) (ring second_pool) ≡ 1)
    × (total (owned 205000) (ring second_pool) ≡ 1)
palloc-apart_example =
    palloc-apart malloc_high 10000 200048 205000 first_pool second_pool
      (Lives-IsWhole first_pool first_Lives).pool (omega arith) first_apart second_run (omega arith)
      (omega arith)

destroy_allocator-Lives_example :
    (a : Allocator) × (released : List MemNode) × (destroy_nodes second_pool ≡ some (a, released))
    × (destroy_allocator a ≡ 0)
destroy_allocator-Lives_example = destroy_allocator-Lives second_pool second_Lives

abbrev malloc_third : ℕ → Option ℕ
malloc_third size = some 300000

-- A node of five units.
abbrev third : MemNode
third = record { at = 300000; index = 4; free_index = 0; first_avail = 300048; endp = 320480 }

third_elsewhere :
    (p index : ℕ) → 300000 ≡ p → at_address p 65536 index + at_address p 200000 index ≡ 0
third_elsewhere p index e = ground arith

third_new : GivesNew malloc_third second_pool.allocator (ring second_pool)
unfolding second_pool two_nodes one_node first_pool create_allocator
third_new size p got = omega (
  arith,
  third_elsewhere p 1 (some-injective 300000 p got),
  third_elsewhere p 2 (some-injective 300000 p got),
)

unfoldable three_nodes : Allocator
unfolding two_nodes one_node create_allocator
three_nodes = record two_nodes { allocated = 40960 }

third_node_run : alloc malloc_third 20000 two_nodes ≡ some (some third, three_nodes)
unfolding three_nodes two_nodes one_node alloc node_size align alloc_index split_sink new_node
    create_allocator
third_node_run = refl

third-owned : (x : ℕ) → owned x third + (owned x high + owned x low) ≤ 1
third-owned x = ground arith

third_apart : GivesApart malloc_third (align 20000 16) second_pool
unfolding second_pool first_pool align
third_apart node b e x =
    let same =
      some-injective {A = Option MemNode × Allocator} (some third, three_nodes) (some node, b)
        (sym third_node_run ∙ e) in
    let is_third =
      some-injective {A = MemNode} third node (ap (λ (y : Option MemNode × Allocator). y.0) same) in
    subst (λ (n : MemNode). owned x n + total (owned x) (ring second_pool) ≤ 1) is_third
      (omega (arith, third-owned x))

abbrev left_low : MemNode
left_low = record low { first_avail = 65776; free_index = 1 }

abbrev left_high : MemNode
left_high = record high { first_avail = 210048 }

unfoldable third_pool : Pool
unfolding second_pool first_pool
third_pool = record second_pool {
  active = record third { first_avail = 320048 };
  others = left_low ∷ left_high ∷ [];
  allocator = three_nodes;
}

third_run : palloc malloc_third 20000 second_pool ≡ some (some 300048, third_pool)
unfolding third_pool second_pool first_pool three_nodes two_nodes one_node palloc palloc_next
    palloc_new activate place_node space_index free_space alloc node_size align alloc_index
    split_sink new_node create_allocator
third_run = refl

third_Lives : Lives third_pool
third_Lives =
    requested malloc_third 20000 (some 300048) second_Lives (omega arith) third_new third_apart
      third_run

third_others : third_pool.others ≡ left_low ∷ left_high ∷ []
unfolding third_pool second_pool
third_others = refl

free_space-Lives_example :
    All (λ n. free_space n < free_space left_low + boundary_size) (left_high ∷ [])
free_space-Lives_example =
    free_space-Lives third_pool left_low (left_high ∷ []) third_Lives third_others

-- A request of 4 GiB and 10000 bytes gets a node of 12288 bytes.
unfoldable overrun_pool : Pool
unfolding second_pool first_pool
overrun_pool = record second_pool {
  active = record high { first_avail = 200048 + (2 ^ 32 + 10000) };
}

overrun_run : palloc malloc_high (2 ^ 32 + 10000) first_pool ≡ some (some 200048, overrun_pool)
unfolding overrun_pool second_pool first_pool two_nodes one_node palloc palloc_next palloc_new
    activate place_node space_index free_space alloc node_size align alloc_index split_sink new_node
    create_allocator
overrun_run = refl

palloc-large_example : overrun_pool.active.endp < overrun_pool.active.first_avail
palloc-large_example =
    palloc-large malloc_high (2 ^ 32 + 10000) 200048 first_pool overrun_pool
      (Lives-IsWhole first_pool first_Lives).pool (omega arith) (omega arith) overrun_run
