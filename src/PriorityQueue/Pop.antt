-- ===== src/PriorityQueue/Pop.antt =====
-- `popNode` takes the first node out of the queue.
use libstappler_common.Common.{ℕ, ◌≡◌, refl, arith, true, false, List, [], ◌∷◌, none, some}
use libstappler_common.PriorityQueue.Nodes.{State, update, set_next, same_address}
use libstappler_common.PriorityQueue.Insert.{pop_node}
use libstappler_common.PriorityQueue.Chain.{Entry, last_of, node_of, NotIn, Chain-update}
use libstappler_common.PriorityQueue.Place.{IsQueue}

pub same_address_refl : (a : ℕ) → same_address (some a) (some a) ≡ true
same_address_refl a = ground arith

module _ {V : Type 0} where
  -- A node is not the last one of others.
  pub same_address-last_of :
      (a : ℕ) (x : Entry V) (xs : List (Entry V))
      → NotIn a (x ∷ xs)
      → same_address (some a) (last_of (x ∷ xs)) ≡ false
  same_address-last_of a x [] (ne, h) = ground arith
  same_address-last_of a x (y ∷ ys) (ne, h) = same_address-last_of a y ys h

  pub pop_node-empty : (s : State V) → IsQueue s [] → pop_node s ≡ some (none, s)
  unfolding pop_node
  pop_node-empty s queue = rw queue.first refl

  -- `popNode` takes the first node, which points to nothing then, and leaves the others in the queue; the other
  -- nodes are left alone, and of the state only the queue's two ends change.
  pub pop_node-first :
      (s : State V) (e : Entry V) (es : List (Entry V))
      → IsQueue s (e ∷ es)
      → (t : State V) × (pop_node s ≡ some (some e.at, t))
        × IsQueue t es
        × (t.memory ≡ update s.memory e.at (node_of e none))
        × (t ≡ record s {
          memory = t.memory;
          queue_first = t.queue_first;
          queue_last = t.queue_last;
        })
  unfolding pop_node set_next
  pop_node-first s e [] queue = (
    record s {
      memory = update s.memory e.at (node_of e none);
      queue_first = none;
      queue_last = none;
    },
    rw (queue.first, queue.chain.0, queue.last, same_address_refl e.at) refl,
    record { first = refl; last = refl; chain = tt; distinct = tt },
    refl,
    refl,
  )
  pop_node-first s e (x ∷ xs) queue =
      let n = node_of e none in
      (
        record s {
          memory = update s.memory e.at n;
          queue_first = some x.at;
          queue_last = last_of (x ∷ xs);
        },
        rw (queue.first, queue.chain.0, queue.last, same_address-last_of e.at x xs queue.distinct.0)
            refl,
        record {
          first = refl;
          last = refl;
          chain = Chain-update s.memory e.at n (x ∷ xs) queue.distinct.0 queue.chain.1;
          distinct = queue.distinct.1;
        },
        refl,
        refl,
      )
