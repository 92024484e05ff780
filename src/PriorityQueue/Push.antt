-- ===== src/PriorityQueue/Push.antt =====
-- `pushNode` puts a node in its place in the order of the queue.
use libstappler_common.Common.{
  ℕ, ◌<◌, ◌≡◌, refl, sym, ◌∙◌, arith, Bool, true, false, not, List, [], ◌∷◌, Option, none, some,
  length,
}
use libstappler_common.Common.Int.{ltb_ℤ, leb_ℤ}
use libstappler_common.PriorityQueue.Nodes.{State, update, set_next}
use libstappler_common.PriorityQueue.Insert.{place, push_node}
use libstappler_common.PriorityQueue.Chain.{
  Entry, node_of, NotIn, insert, insert-nil, update-same, update-other, Chain-update,
}
use libstappler_common.PriorityQueue.Order.{
  Sorted, before, before-Closed, Sorted-insert, before-Splits,
}
use libstappler_common.PriorityQueue.Place.{IsQueue, Placed, place-insert}

not-not : (b : Bool) → b ≡ not (not b)
not-not true = refl
not-not false = refl

module _ {V : Type 0} where
  -- The state behind `node->next = nullptr`.
  abbrev detached : State V → Entry V → State V
  detached s e = record s { memory = update s.memory e.at (node_of e none) }

  IsQueue-detached :
      (s : State V) (e : Entry V) (es : List (Entry V))
      → NotIn e.at es
      → IsQueue s es
      → IsQueue (detached s e) es
  IsQueue-detached s e es fresh queue = record {
    first = queue.first;
    last = queue.last;
    chain = Chain-update s.memory e.at (node_of e none) es fresh queue.chain;
    distinct = queue.distinct;
  }

  Placed-detached :
      (s : State V) (e : Entry V) (es after : List (Entry V)) (r : Option (State V))
      → Placed (detached s e) es e after r
      → Placed s es e after r
  Placed-detached s e es after r (t, made, queue, frame, rest) = (
    t,
    made,
    queue,
    λ q (a, b). frame q (a, b) ∙ update-other s.memory e.at q (node_of e none) (λ h. a (sym h)),
    rest,
  )

  -- Into an empty queue.
  push_alone :
      (fuel : ℕ) (insert_first : Bool) (s : State V) (e : Entry V) (old : Option ℕ)
      → s.memory e.at ≡ some (node_of e old)
      → IsQueue s []
      → Placed (detached s e) [] e (e ∷ []) (push_node fuel e.at insert_first s)
  unfolding push_node set_next
  push_alone fuel insert_first s e old node queue = (
    record (detached s e) { queue_first = some e.at; queue_last = some e.at },
    rw (node, update-same s.memory e.at (node_of e none), queue.first) refl,
    record {
      first = refl;
      last = refl;
      chain = (update-same s.memory e.at (node_of e none), tt);
      distinct = (tt, tt);
    },
    λ q h. refl,
    refl,
  )

  push_among :
      (fuel : ℕ) (insert_first : Bool) (s : State V) (e : Entry V) (old : Option ℕ) (x : Entry V)
      (xs : List (Entry V))
      → s.memory e.at ≡ some (node_of e old)
      → IsQueue s (x ∷ xs)
      → let test = before insert_first e.cell.priority in
        push_node fuel e.at insert_first s
        ≡ place fuel (λ k. not (test k)) test test e.at x.at (detached s e)
  unfolding push_node set_next before
  push_among fuel true s e old x xs node queue =
      rw (node, update-same s.memory e.at (node_of e none), queue.first) refl
  push_among fuel false s e old x xs node queue =
      rw (node, update-same s.memory e.at (node_of e none), queue.first)
        (λ i.
          place fuel (λ k. not-not (ltb_ℤ e.cell.priority k) i) (λ k. leb_ℤ k e.cell.priority)
            (λ k. leb_ℤ k e.cell.priority) e.at x.at (detached s e))

  -- `pushNode` of a node in use puts it behind the lower priorities, and behind the equal ones unless
  -- `insertFirst`, given a queue in order and fuel for its length; the queue stays in order, the nodes outside it
  -- are left alone, and of the state only the queue's two ends change.
  pub push_node-insert :
      (fuel : ℕ) (insert_first : Bool) (s : State V) (e : Entry V) (old : Option ℕ)
      (es : List (Entry V))
      → length es < fuel
      → s.memory e.at ≡ some (node_of e old)
      → NotIn e.at es
      → Sorted es
      → IsQueue s es
      → let test = before insert_first e.cell.priority in
        Placed s es e (insert test e es) (push_node fuel e.at insert_first s)
        × Sorted (insert test e es)
  push_node-insert fuel insert_first s e old [] enough node fresh sorted queue =
      let test = before insert_first e.cell.priority in
      rw (insert-nil test e) (
        Placed-detached s e [] (e ∷ []) (push_node fuel e.at insert_first s)
            (push_alone fuel insert_first s e old node queue),
        (tt, tt),
      )
  push_node-insert fuel insert_first s e old (x ∷ xs) enough node fresh sorted queue =
      let test = before insert_first e.cell.priority in
      (
        Placed-detached s e (x ∷ xs) (insert test e (x ∷ xs)) (push_node fuel e.at insert_first s) (
            rw (push_among fuel insert_first s e old x xs node queue) (
              place-insert fuel (λ k. not (test k)) test (detached s e) e x xs (λ k. refl)
                (before-Closed insert_first e.cell.priority) sorted (omega arith)
                (update-same s.memory e.at (node_of e none)) fresh
                (IsQueue-detached s e (x ∷ xs) fresh queue))),
        Sorted-insert test e (x ∷ xs) (before-Splits insert_first e.cell.priority) sorted,
      )
