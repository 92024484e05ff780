-- ===== src/PriorityQueue/Access.antt =====
-- `push`, `pop_prefix` and `pop_direct`, `clear`, the destructor, `foreach` and `free_capacity`.
use libstappler_common.Common.{◌>>=◌, ℕ, zero, suc, ◌+◌, Bool, List, [], ◌∷◌, Option, none, some}
use libstappler_common.Common.Int.{ℤ}
use libstappler_common.PriorityQueue.Nodes.{Memory, State, update}
use libstappler_common.PriorityQueue.Insert.{pop_node, push_node}
use libstappler_common.PriorityQueue.Allocate.{allocate_node, free_node}

module _ {V : Type 0} where
  -- `node->priority = p`, and the value built in the storage or destroyed there.
  unfoldable pub fill : ℕ → ℤ → Option V → State V → Option (State V)
  fill a p value s = s.memory a >>= λ node. some (record s {
    memory =
        update s.memory a
          (record node { cell = record node.cell { storage = value; priority = p } });
  })

  unfoldable pub push : ℕ → ℤ → Bool → V → State V → Option (State V)
  unfolding allocate_node fill push_node
  push fuel p insert_first value s =
      allocate_node s >>= λ (a, t). fill a p (some value) t >>= push_node fuel a insert_first

  -- `pop_prefix` and `pop_direct`: what the callback is given, if anything. They differ in whether it runs
  -- before or after the node is freed.
  unfoldable pub pop : ℕ → State V → Option (Option (ℤ × V) × State V)
  unfolding pop_node fill free_node
  pop fuel s = pop_node s >>= λ (popped, t). elim popped [
    | none ↦ some (none, t)
    | some a ↦ t.memory a >>= λ node. node.cell.storage >>= λ value.
        fill a node.cell.priority none t >>= free_node fuel a >>= λ u.
        some (some (node.cell.priority, value), u)
  ]

  -- The loop of `clear`.
  unfoldable pub clear : ℕ → State V → Option (State V)
  unfolding pop
  clear zero s = none
  clear (suc fuel) s =
      pop (suc fuel) s >>= λ (popped, t). elim popped [ none ↦ some t | some e ↦ clear fuel t ]

  -- An iteration of the loop of the destructor, and the loop; the value must be alive.
  unfoldable pub destroy_node : ℕ → ℕ → State V → Option (Option ℕ × State V)
  unfolding fill free_node
  destroy_node fuel a s = s.memory a >>= λ node. node.cell.storage >>= λ value.
      fill a node.cell.priority none s >>= free_node fuel a >>= λ t.
      t.memory a >>= λ freed. some (freed.next, t)

  unfoldable pub destroy : ℕ → Option ℕ → State V → Option (State V)
  unfolding destroy_node
  destroy zero n s = none
  destroy (suc fuel) none s = some s
  destroy (suc fuel) (some a) s = destroy_node (suc fuel) a s >>= λ (n, t). destroy fuel n t

  -- `foreach`: what the callback is given.
  unfoldable pub foreach_from : ℕ → Option ℕ → Memory V → Option (List (ℤ × V))
  foreach_from zero n m = none
  foreach_from (suc fuel) none m = some []
  foreach_from (suc fuel) (some a) m = m a >>= λ node. node.cell.storage >>= λ value.
      foreach_from fuel node.next m >>= λ rest. some ((node.cell.priority, value) ∷ rest)

  unfoldable pub foreach : ℕ → State V → Option (List (ℤ × V))
  unfolding foreach_from
  foreach fuel s = foreach_from fuel s.queue_first s.memory

  -- The loop of `free_capacity`.
  unfoldable pub count_from : ℕ → Option ℕ → Memory V → Option ℕ
  count_from zero n m = none
  count_from (suc fuel) none m = some 0
  count_from (suc fuel) (some a) m =
      m a >>= λ node. count_from fuel node.next m >>= λ count. some (count + 1)

  unfoldable pub free_capacity : ℕ → State V → Option ℕ
  unfolding count_from
  free_capacity fuel s = count_from fuel s.free_first s.memory
