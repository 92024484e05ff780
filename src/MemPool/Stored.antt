-- ===== src/MemPool/Stored.antt =====
-- Sums over the nodes of the free lists, and what the operations on one bucket do to them.
use libstappler_common.Common.{ℕ, zero, suc, ◌+◌, ◌≤◌, ◌<◌, ◌≡◌, refl, arith, List, [], ◌∷◌, ◌++◌}
use libstappler_common.MemPool.Nodes.{MemNode, Allocator, set_bucket, max_index}

-- The sum of a weight of addresses and indices over the nodes of a list.
abbrev pub weigh : (ℕ → ℕ → ℕ) → List MemNode → ℕ
weigh f [] = 0
weigh f (node ∷ nodes) = f node.at node.index + weigh f nodes

-- The sum over the first `count` buckets.
abbrev pub weigh_below : (ℕ → ℕ → ℕ) → ℕ → (ℕ → List MemNode) → ℕ
weigh_below f zero buf = 0
weigh_below f (suc count) buf = weigh_below f count buf + weigh f (buf count)

abbrev pub stored : (ℕ → ℕ → ℕ) → Allocator → ℕ
stored f a = weigh_below f max_index a.buf

set_bucket-above :
    (f : ℕ → ℕ → ℕ) (count i : ℕ) (buf : ℕ → List MemNode) (nodes : List MemNode)
    → count ≤ i
    → weigh_below f count (set_bucket buf i nodes) ≡ weigh_below f count buf
set_bucket-above f zero i buf nodes h = refl
set_bucket-above f (suc count) i buf nodes h =
    ground (arith, set_bucket-above f count i buf nodes (omega arith))

-- A bucket's nodes count once.
pub weigh_below-set_bucket :
    (f : ℕ → ℕ → ℕ) (count i : ℕ) (buf : ℕ → List MemNode) (nodes : List MemNode)
    → i < count
    → weigh_below f count (set_bucket buf i nodes) + weigh f (buf i)
      ≡ weigh_below f count buf + weigh f nodes
weigh_below-set_bucket f zero i buf nodes h = absurd (omega arith)
weigh_below-set_bucket f (suc count) i buf nodes h =
    ground (arith, set_bucket-above f count i buf nodes, weigh_below-set_bucket f count i buf nodes)

pub weigh-append :
    (f : ℕ → ℕ → ℕ) (xs ys : List MemNode) → weigh f (xs ++ ys) ≡ weigh f xs + weigh f ys
weigh-append f [] ys = omega arith
weigh-append f (x ∷ xs) ys = omega (arith, weigh-append f xs ys)
