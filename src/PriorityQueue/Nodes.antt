-- ===== src/PriorityQueue/Nodes.antt =====
-- The nodes, the state and the constructor of `PriorityQueue`.
use libstappler_common.Common.{
  ◌>>=◌, ℕ, zero, suc, ◌+◌, ◌-◌, ◌*◌, Bool, true, false, Option, none, some, ◌==◌, if◌then◌else◌,
}
use libstappler_common.Common.Int.{ℤ, pos}

-- The fields of a `Node` but for `next`; `storage` is `none` where no value is alive in it.
pub record Cell (V : Type 0) : Type 0 where
  pub storage : Option V
  pub block : Option ℕ
  pub priority : ℤ

pub record Node (V : Type 0) : Type 0 where
  pub cell : Cell V
  pub next : Option ℕ

abbrev pub Memory : Type 0 → Type 0
Memory V = ℕ → Option (Node V)

pub record State (V : Type 0) : Type 0 where
  pub memory : Memory V
  pub queue_first : Option ℕ
  pub queue_last : Option ℕ
  pub free_first : Option ℕ
  pub free_last : Option ℕ
  -- `used` of each block, the number of blocks that were ever allocated, and `_capacity`
  pub used : ℕ → ℕ
  pub blocks : ℕ
  pub capacity : ℕ

abbrev pub preallocated_nodes : ℕ
preallocated_nodes = 8

abbrev pub storage_nodes : ℕ
storage_nodes = 64

-- `&block->nodes[i]`
abbrev pub address : ℕ → ℕ → ℕ
address block i = preallocated_nodes + block * storage_nodes + i

abbrev pub same_address : Option ℕ → Option ℕ → Bool
same_address none none = true
same_address none (some b) = false
same_address (some a) none = false
same_address (some a) (some b) = a == b

abbrev pub is_null : Option ℕ → Bool
is_null none = true
is_null (some a) = false

module _ {V : Type 0} where
  abbrev pub update : Memory V → ℕ → Node V → Memory V
  update m a node q = if a == q then some node else m q

  -- `n->next = next`
  unfoldable pub set_next : ℕ → Option ℕ → Memory V → Option (Memory V)
  set_next a next m = m a >>= λ node. some (update m a (record node { next = next }))

  unfoldable pub deref : Memory V → Option ℕ → Option (Node V)
  deref m none = none
  deref m (some a) = m a

  -- The loop of `initNodes` over `count` nodes behind `a`, the last of which ends the list.
  unfoldable pub init_nodes : ℕ → ℕ → Option ℕ → Memory V → Memory V
  init_nodes zero a block m = m
  init_nodes (suc zero) a block m =
      update m a
        (record { cell = record { storage = none; block = block; priority = pos 0 }; next = none })
  init_nodes (suc (suc count)) a block m = init_nodes (suc count) (a + 1) block (
      update m a (record {
        cell = record { storage = none; block = block; priority = pos 0 };
        next = some (a + 1);
      }))

  -- The constructor.
  unfoldable pub create : State V
  create = record {
    memory = init_nodes preallocated_nodes 0 none (λ q. none);
    queue_first = none;
    queue_last = none;
    free_first = some 0;
    free_last = some (preallocated_nodes - 1);
    used = λ block. 0;
    blocks = 0;
    capacity = preallocated_nodes;
  }
