-- ===== src/PriorityQueue/Allocate.antt =====
-- `allocateNode` and `freeNode`, with the blocks.
use libstappler_common.Common.{
  ◌>>=◌, ℕ, zero, suc, ◌+◌, ◌-◌, true, false, ◌&&◌, Option, none, some, ◌==◌, ltb, leb, u32, ◌^◌,
  if◌then◌else◌,
}
use libstappler_common.PriorityQueue.Nodes.{
  Memory, State, storage_nodes, address, same_address, set_next, init_nodes,
}

module _ {V : Type 0} where
  -- The end of `allocateNode`: the node leaves the list, and its block counts it.
  unfoldable pub take_node : ℕ → State V → Option (ℕ × State V)
  unfolding set_next
  take_node a s = set_next a none s.memory >>= λ m. m a >>= λ node. elim node.cell.block [
    | none ↦ some (a, record s { memory = m })
    | some b ↦
        some
          (a, record s { memory = m; used = λ c. if c == b then u32 (s.used b + 1) else s.used c })
  ]

  -- `allocateBlock`
  unfoldable pub allocate_block : State V → State V
  unfolding init_nodes
  allocate_block s = record s {
    memory = init_nodes storage_nodes (address s.blocks 0) (some s.blocks) s.memory;
    used = λ c. if c == s.blocks then 0 else s.used c;
    blocks = s.blocks + 1;
    capacity = s.capacity + storage_nodes;
  }

  unfoldable pub allocate_node : State V → Option (ℕ × State V)
  unfolding take_node allocate_block set_next
  allocate_node s = elim s.free_first [
    | some a ↦ s.memory a >>= λ node. take_node a (
        if same_address s.free_first s.free_last
        then (record s { free_first = none; free_last = none })
        else (record s { free_first = node.next }))
    | none ↦
        let t = allocate_block s in
        let first = address s.blocks 0 in
        let end = some (address s.blocks (storage_nodes - 1)) in
        elim s.free_last [
          | some last ↦ set_next last (some (first + 1)) t.memory >>= λ m.
              take_node first (record t { memory = m; free_last = end })
          | none ↦ take_node first (record t { free_first = some (first + 1); free_last = end })
        ]
  ]

  -- `*target = n`, where the target is `_free.first` or the `next` of a node.
  unfoldable pub set_target : Option ℕ → Option ℕ → State V → Option (State V)
  unfolding set_next
  set_target none n s = some (record s { free_first = n })
  set_target (some a) n s = set_next a n s.memory >>= λ m. some (record s { memory = m })

  -- `while (n && !n->block)`, with the target behind.
  unfoldable pub skip_preallocated :
      ℕ → Option ℕ → Option ℕ → Memory V → Option (Option ℕ × Option ℕ)
  skip_preallocated zero target n m = none
  skip_preallocated (suc fuel) target none m = some (target, none)
  skip_preallocated (suc fuel) target (some a) m = m a >>= λ node. elim node.cell.block [
    | none ↦ skip_preallocated fuel (some a) node.next m
    | some b ↦ some (target, some a)
  ]

  -- `while (n && n->block == blockToRemove)`
  unfoldable pub skip_block : ℕ → ℕ → Option ℕ → Memory V → Option (Option ℕ)
  skip_block zero b n m = none
  skip_block (suc fuel) b none m = some none
  skip_block (suc fuel) b (some a) m = m a >>= λ node.
      elim (same_address node.cell.block (some b)) [
        | true ↦ skip_block fuel b node.next m
        | false ↦ some (some a)
      ]

  -- The `do` loop that takes the nodes of a block out of the free list.
  unfoldable pub unlink_block : ℕ → ℕ → Option ℕ → Option ℕ → State V → Option (State V)
  unfolding skip_block set_target
  unlink_block zero b target n s = none
  unlink_block (suc fuel) b target n s = skip_block (suc fuel) b n s.memory >>= λ n'.
      set_target target n' s >>= λ t. elim n' [
        | none ↦ some t
        | some a ↦ t.memory a >>= λ node. unlink_block fuel b (some a) node.next t
      ]

  -- `deallocateBlock`
  unfoldable pub deallocate_block : ℕ → State V → State V
  deallocate_block b s = record s {
    memory =
        λ q. if leb (address b 0) q && ltb q (address b storage_nodes) then none else s.memory q;
    capacity = s.capacity - storage_nodes;
  }

  -- The end of `freeNode` for a block that no node of is in use.
  unfoldable pub remove_block : ℕ → ℕ → State V → Option (State V)
  unfolding skip_preallocated unlink_block deallocate_block
  remove_block fuel b s = skip_preallocated fuel none s.free_first s.memory >>= λ (target, n).
      unlink_block fuel b target n s >>= λ t. some (deallocate_block b t)

  -- The two branches of `freeNode`: a preallocated node goes in front of the free list, a node of a block behind
  -- it, and a block without nodes in use is removed. The fuel is for the loops over the free list.
  unfoldable pub free_preallocated : ℕ → State V → Option (State V)
  unfolding set_next
  free_preallocated a s = set_next a s.free_first s.memory >>= λ m. some (record s {
    memory = m;
    free_first = some a;
    free_last = elim s.free_last [ none ↦ some a | some l ↦ some l ];
  })

  -- The end of the free list takes the node.
  unfoldable pub append_free : ℕ → State V → Option (State V)
  unfolding set_next
  append_free a s = set_next a none s.memory >>= λ m. elim s.free_last [
    | some l ↦ set_next l (some a) m >>= λ m'. some (record s { memory = m'; free_last = some a })
    | none ↦ some (record s { memory = m; free_first = some a; free_last = some a })
  ]

  unfoldable pub free_in_block : ℕ → ℕ → ℕ → State V → Option (State V)
  unfolding append_free remove_block
  free_in_block fuel a b s = append_free a s >>= λ t.
      let used = u32 (t.used b + 2 ^ 32 - 1) in
      let t' = record t { used = λ c. if c == b then used else t.used c } in
      elim (used == 0) [ true ↦ remove_block fuel b t' | false ↦ some t' ]

  -- `freeNode`
  unfoldable pub free_node : ℕ → ℕ → State V → Option (State V)
  unfolding free_preallocated free_in_block
  free_node fuel a s = s.memory a >>= λ node. elim node.cell.block [
    | none ↦ free_preallocated a s
    | some b ↦ free_in_block fuel a b s
  ]
