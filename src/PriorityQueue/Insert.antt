-- ===== src/PriorityQueue/Insert.antt =====
-- `popNode`, `pushNode` and `empty`.
use libstappler_common.Common.{
  ◌>>=◌, ℕ, zero, suc, Bool, true, false, not, Option, none, some, if◌then◌else◌,
}
use libstappler_common.Common.Int.{ℤ, ltb_ℤ, leb_ℤ}
use libstappler_common.PriorityQueue.Nodes.{Memory, State, same_address, is_null, set_next, deref}

module _ {V : Type 0} where
  unfoldable pub pop_node : State V → Option (Option ℕ × State V)
  unfolding set_next
  pop_node s = elim s.queue_first [
    | none ↦ some (none, s)
    | some a ↦ s.memory a >>= λ node. set_next a none s.memory >>= λ m.
        (if same_address s.queue_first s.queue_last
          then some (some a, record s { memory = m; queue_first = none; queue_last = none })
          else some (some a, record s { memory = m; queue_first = node.next }))
  ]

  -- `while (n->next && test(n->next->priority)) { n = n->next; }`
  unfoldable pub walk : ℕ → (ℤ → Bool) → Memory V → ℕ → Option ℕ
  walk zero test m a = none
  walk (suc fuel) test m a = m a >>= λ node. elim node.next [
    | none ↦ some a
    | some b ↦ m b >>= λ behind. elim (test behind.cell.priority) [
      | true ↦ walk fuel test m b
      | false ↦ some a
    ]
  ]

  -- `node->next = n->next; n->next = node`
  unfoldable pub link : ℕ → Memory V → ℕ → Option (Memory V)
  unfolding set_next
  link node m a = m a >>= λ n. set_next node n.next m >>= set_next a (some node)

  -- `_queue.last->next = node; _queue.last = node`
  unfoldable pub append : ℕ → State V → Option (State V)
  unfolding set_next
  append node s = elim s.queue_last [
    | none ↦ none
    | some last ↦ set_next last (some node) s.memory >>= λ m.
        some (record s { memory = m; queue_last = some node })
  ]

  -- The three ways of `pushNode` into a queue that is not empty: in front where `front` holds of the first
  -- priority, at the end where `back` holds of the last one, and else behind the nodes that `test` holds of.
  unfoldable pub place :
      ℕ → (ℤ → Bool) → (ℤ → Bool) → (ℤ → Bool) → ℕ → ℕ → State V → Option (State V)
  unfolding walk link set_next deref append
  place fuel front back test node first s = s.memory first >>= λ first_node.
      elim (front first_node.cell.priority) [
        | true ↦ set_next node (some first) s.memory >>= λ m.
            some (record s { memory = m; queue_first = some node })
        | false ↦ deref s.memory s.queue_last >>= λ last_node. elim (back last_node.cell.priority) [
          | true ↦ append node s
          | false ↦ walk fuel test s.memory first >>= λ a.
              link node s.memory a >>= λ m. some (record s { memory = m })
        ]
      ]

  -- `pushNode`; the fuel is for the loop over the queue.
  unfoldable pub push_node : ℕ → ℕ → Bool → State V → Option (State V)
  unfolding place set_next
  push_node fuel node insert_first s = set_next node none s.memory >>= λ m. m node >>= λ n.
      let p = n.cell.priority in
      let s' = record s { memory = m } in
      elim s.queue_first [
        | none ↦ some (record s' { queue_first = some node; queue_last = some node })
        | some first ↦
            if insert_first
            then place fuel (λ k. leb_ℤ p k) (λ k. ltb_ℤ k p) (λ k. ltb_ℤ k p) node first s'
            else place fuel (λ k. ltb_ℤ p k) (λ k. leb_ℤ k p) (λ k. leb_ℤ k p) node first s'
      ]

  -- `empty()`, whose temporary lock guards nothing, and `empty(lock)`.
  unfoldable pub empty : State V → Bool
  empty s = not (is_null s.queue_first)

  unfoldable pub empty_locked : State V → Bool
  empty_locked s = is_null s.queue_first
