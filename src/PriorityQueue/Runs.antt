-- ===== src/PriorityQueue/Runs.antt =====
-- Runs of the priority queue on values that are numbers.
use libstappler_common.Common.{
  ◌>>=◌, ℕ, zero, suc, ◌≡◌, refl, arith, Bool, true, false, List, [], ◌∷◌, Option, none, some,
  length, ◌≤◌, ◌-◌,
}
use libstappler_common.Common.Int.{ℤ, pos, negsuc}
use libstappler_common.PriorityQueue.Nodes.{
  State, create, init_nodes, preallocated_nodes, address, set_next, deref,
}
use libstappler_common.PriorityQueue.Insert.{pop_node, push_node, place, append}
use libstappler_common.PriorityQueue.Allocate.{
  allocate_node, allocate_block, take_node, free_node, free_preallocated, free_in_block,
  append_free, remove_block, skip_preallocated, unlink_block, skip_block, set_target,
  deallocate_block,
}
use libstappler_common.PriorityQueue.Access.{push, pop, fill, foreach, free_capacity}
use libstappler_common.PriorityQueue.Chain.{Entry, insert}
use libstappler_common.PriorityQueue.Order.{before}
use libstappler_common.PriorityQueue.Spec.{
  Operation, push_value, pop_value, enqueue, promised, delivered,
}
use libstappler_common.PriorityQueue.Chain.{node_of, NotIn}
use libstappler_common.PriorityQueue.Order.{Sorted}
use libstappler_common.PriorityQueue.Place.{IsQueue, Placed}
use libstappler_common.PriorityQueue.Push.{push_node-insert}
use libstappler_common.PriorityQueue.Sound.{IsSound}
use libstappler_common.PriorityQueue.Refinement.{delivered-promised, create-IsSound}
use libstappler_common.PriorityQueue.Sound.Push.{push-IsSound}
use libstappler_common.PriorityQueue.Reach.{
  same_result, Reachable, created, pushed, SortedItems, foreach-Reachable,
}
use libstappler_common.PriorityQueue.Faults.{
  Iterated, destroy_node-free_first, free_in_block-dangling,
}

abbrev operations : List (Operation ℕ)
operations =
    push_value (pos 1) false 10
    ∷ push_value (pos 0) false 20
    ∷ push_value (pos 1) true 30
    ∷ push_value (negsuc 0) false 40
    ∷ pop_value
    ∷ push_value (pos 0) false 50
    ∷ pop_value
    ∷ pop_value
    ∷ pop_value
    ∷ pop_value
    ∷ pop_value
    ∷ []

abbrev deliveries : List (Option (ℤ × ℕ))
deliveries =
    some (negsuc 0, 40)
    ∷ some (pos 0, 20)
    ∷ some (pos 0, 50)
    ∷ some (pos 1, 30)
    ∷ some (pos 1, 10)
    ∷ none
    ∷ []

promised_run : promised operations [] ≡ deliveries
unfolding promised enqueue before
promised_run = refl

delivered-promised_example : delivered 8 operations create ≡ some (promised operations [])
delivered-promised_example =
    delivered-promised 8 operations (omega arith)
      (omega arith, (omega arith, (omega arith, (omega arith, (omega arith, tt)))))

-- Values with the priority 0 into the queue, one after the other, and out of it.
abbrev push_many : ℕ → State ℕ → Option (State ℕ)
push_many zero s = some s
push_many (suc n) s = push_many n s >>= push 100 (pos 0) false n

abbrev pop_many : ℕ → State ℕ → Option (State ℕ)
pop_many zero s = some s
pop_many (suc n) s = pop 100 s >>= λ (x, t). pop_many n t

abbrev succeeds : {A : Type 0} → Option A → Bool
succeeds none = false
succeeds (some a) = true

-- Eight values go in, out, and in again.
eight_again : succeeds (push_many 8 create >>= pop_many 8 >>= push_many 8) ≡ true
unfolding push pop allocate_node take_node fill push_node place append deref pop_node free_node
    free_preallocated set_next create init_nodes
eight_again = refl

-- Nine values go in and out, which removes the block of the ninth, and the ninth of the next nine is lost to a
-- write behind the deleted end of the free list.
nine_once : succeeds (push_many 9 create >>= pop_many 9) ≡ true
unfolding push pop allocate_node allocate_block take_node fill push_node place append deref pop_node
    free_node free_preallocated free_in_block append_free remove_block skip_preallocated
    unlink_block skip_block set_target deallocate_block set_next create init_nodes
nine_once = refl

nine_again : succeeds (push_many 9 create >>= pop_many 9 >>= push_many 9) ≡ false
unfolding push pop allocate_node allocate_block take_node fill push_node place append deref pop_node
    free_node free_preallocated free_in_block append_free remove_block skip_preallocated
    unlink_block skip_block set_target deallocate_block set_next create init_nodes
nine_again = refl

abbrev after : Option (State ℕ) → State ℕ
after none = create
after (some s) = s

-- One value, and a node for another.
unfoldable one : State ℕ
unfolding push allocate_node take_node fill push_node place append deref set_next create init_nodes
one = after (push 9 (pos 1) false 10 create)

unfoldable two : State ℕ
unfolding push allocate_node take_node fill push_node place append deref set_next one
two = after (push 9 (pos 0) false 20 one)

two-Reachable : Reachable 9 two
unfolding two one push allocate_node take_node fill push_node place append deref set_next create
    init_nodes
two-Reachable =
    pushed {s = one} (pos 0) false 20 (pushed {s = create} (pos 1) false 10 created refl refl) refl
      refl

foreach-Reachable_example :
    (q : List (ℤ × ℕ)) × (foreach 9 two ≡ some q)
    × SortedItems q
    × (free_capacity 9 two ≡ some (preallocated_nodes - length q))
    × (length q ≤ preallocated_nodes)
foreach-Reachable_example = foreach-Reachable 9 two (omega arith) two-Reachable

one_entry : Entry ℕ
one_entry = record { at = 0; cell = record { storage = some 10; block = none; priority = pos 1 } }

next_entry : Entry ℕ
next_entry = record { at = 1; cell = record { storage = none; block = none; priority = pos 0 } }

one-IsQueue : IsQueue one (one_entry ∷ [])
unfolding one one_entry push allocate_node take_node fill push_node place append deref set_next
    create init_nodes
one-IsQueue = record { first = refl; last = refl; chain = (refl, tt); distinct = (tt, tt) }

next_node : one.memory next_entry.at ≡ some (node_of next_entry (some 2))
unfolding one next_entry push allocate_node take_node fill push_node place append deref set_next
    create init_nodes
next_node = refl

next-NotIn : NotIn next_entry.at (one_entry ∷ [])
unfolding one_entry next_entry
next-NotIn = (omega arith, tt)

push_node-insert_example :
    Placed one
      (one_entry ∷ [])
      next_entry
      (insert (before true next_entry.cell.priority) next_entry (one_entry ∷ []))
      (push_node 9 next_entry.at true one)
    × Sorted (insert (before true next_entry.cell.priority) next_entry (one_entry ∷ []))
push_node-insert_example =
    push_node-insert 9 true one next_entry (some 2) (one_entry ∷ []) (omega arith) next_node
      next-NotIn (tt, tt) one-IsQueue

one-IsSound : IsSound one ((pos 1, 10) ∷ [])
unfolding one enqueue push allocate_node take_node fill push_node place append deref set_next create
    init_nodes
one-IsSound =
    same_result (λ s. IsSound s ((pos 1, 10) ∷ [])) (push 9 (pos 1) false 10 create) one refl
      (push-IsSound 9 (pos 1) false 10 create [] (omega arith) (omega arith) create-IsSound)

destroy_node-free_first_example : Iterated 9 one []
destroy_node-free_first_example = destroy_node-free_first 9 one (pos 1) 10 [] one-IsSound

-- Nine values went in, and eight of them out: the block of the ninth has one node in use, which was popped.
unfoldable ninth : State ℕ
unfolding push pop allocate_node allocate_block take_node fill push_node place append deref pop_node
    free_node free_preallocated free_in_block append_free remove_block skip_preallocated
    unlink_block skip_block set_target deallocate_block set_next create init_nodes
ninth = after (push_many 9 create >>= pop_many 8)

unfoldable removed : State ℕ
unfolding ninth free_in_block append_free remove_block skip_preallocated unlink_block skip_block
    set_target deallocate_block set_next
removed = after (free_in_block 100 (address 0 0) 0 ninth)

removed_run : free_in_block 100 (address 0 0) 0 ninth ≡ some removed
unfolding removed ninth free_in_block append_free remove_block skip_preallocated unlink_block
    skip_block set_target deallocate_block set_next push pop allocate_node allocate_block take_node
    fill push_node place append deref pop_node free_node free_preallocated create init_nodes
removed_run = refl

ninth_used : ninth.used 0 ≡ 1
unfolding ninth free_in_block append_free remove_block skip_preallocated unlink_block skip_block
    set_target deallocate_block set_next push pop allocate_node allocate_block take_node fill
    push_node place append deref pop_node free_node free_preallocated create init_nodes
ninth_used = refl

free_in_block-dangling_example :
    (removed.free_last ≡ some (address 0 0)) × (removed.memory (address 0 0) ≡ none)
free_in_block-dangling_example =
    free_in_block-dangling 100 0 0 ninth removed (omega arith) ninth_used removed_run
