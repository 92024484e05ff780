-- ===== src/PriorityQueue/Sound.antt =====
-- Sound states: the queue holds a list of values in order, and the other preallocated nodes are free.
pub mod Push
pub mod Pop
use libstappler_common.Common.{
  ◌>>=◌, ℕ, zero, suc, ◌+◌, ◌<◌, ◌≤◌, ◌≡◌, ◌≢◌, refl, sym, ◌∙◌, ap, arith, Bool, true, false, List,
  [], ◌∷◌, Option, none, some, length, inl, inr, Bool-cases,
}
use libstappler_common.Common.Int.{ℤ}
use libstappler_common.PriorityQueue.Nodes.{Cell, Node, Memory, State, preallocated_nodes, update}
use libstappler_common.PriorityQueue.Insert.{pop_node, push_node}
use libstappler_common.PriorityQueue.Allocate.{allocate_node, free_node}
use libstappler_common.PriorityQueue.Access.{fill, push, pop}
use libstappler_common.PriorityQueue.Chain.{
  Entry, first_of, node_of, Chain, NotIn, Distinct, Agree, Agree-update, insert, insert-true,
  insert-false, insert-nil, update-same, update-other,
}
use libstappler_common.PriorityQueue.Order.{Sorted, before}
use libstappler_common.PriorityQueue.Place.{IsQueue, Placed}
use libstappler_common.PriorityQueue.Push.{push_node-insert}
use libstappler_common.PriorityQueue.Pop.{pop_node-empty, pop_node-first}
use libstappler_common.PriorityQueue.Pool.{
  IsPool, Preallocated, allocate_node-first, free_node-front,
}
use libstappler_common.PriorityQueue.Spec.{
  Operation, push_value, pop_value, enqueue, promised, delivered, Fits,
}
use libstappler_common.PriorityQueue.Apart.{
  Apart, Apart-nil, Apart-head, Apart-tail, Apart-cons, Apart-sym, Apart-insert, Agree-Apart,
  IsQueue-Agree, IsPool-Agree,
}

module _ {V : Type 0} where
  abbrev pub item_cell : ℤ → V → Cell V
  item_cell p v = record { storage = some v; block = none; priority = p }

  -- The entries hold the values, in preallocated nodes.
  abbrev pub Holds : List (Entry V) → List (ℤ × V) → Type 0
  Holds [] [] = Unit {0}
  Holds [] (x ∷ q) = ⊥
  Holds (e ∷ es) [] = ⊥
  Holds (e ∷ es) ((p, v) ∷ q) = (e.cell ≡ item_cell p v) × Holds es q

  pub Holds-length : (es : List (Entry V)) (q : List (ℤ × V)) → Holds es q → length es ≡ length q
  Holds-length [] [] h = refl
  Holds-length [] (x ∷ q) h = absurd h
  Holds-length (e ∷ es) [] h = absurd h
  Holds-length (e ∷ es) (x ∷ q) h = ap suc (Holds-length es q h.1)

  pub Holds-insert :
      (first : Bool) (p : ℤ) (v : V) (e : Entry V) (es : List (Entry V)) (q : List (ℤ × V))
      → e.cell ≡ item_cell p v
      → Holds es q
      → Holds (insert (before first p) e es) (enqueue first p v q)
  unfolding enqueue
  Holds-insert first p v e [] [] here h = rw (insert-nil (before first p) e) (here, tt)
  Holds-insert first p v e [] (x ∷ q) here h = absurd h
  Holds-insert first p v e (x ∷ xs) [] here h = absurd h
  Holds-insert first p v e (x ∷ xs) ((k, w) ∷ q) here (there, h) =
      let same = ap (λ c. before first p c.priority) there in
      elim (Bool-cases (before first p k)) [
        | inl y ↦
            rw (insert-true (before first p) e x xs (same ∙ y), y, enqueue)
              (there, Holds-insert first p v e xs q here h)
        | inr n ↦
            rw (insert-false (before first p) e x xs (same ∙ n), n, enqueue) (here, (there, h))
      ]

  pub length-insert :
      (test : ℤ → Bool) (e : Entry V) (es : List (Entry V))
      → length (insert test e es) ≡ suc (length es)
  length-insert test e [] = rw (insert-nil test e) refl
  length-insert test e (x ∷ xs) = elim (Bool-cases (test x.cell.priority)) [
    | inl y ↦ rw (insert-true test e x xs y) (ap suc (length-insert test e xs))
    | inr n ↦ rw (insert-false test e x xs n) refl
  ]

-- The queue holds the values in their order, and every other preallocated node is free.
pub record IsSound {V : Type 0} (s : State V) (q : List (ℤ × V)) : Type 0 where
  pub entries : List (Entry V)
  pub free : List (Entry V)
  pub queue : IsQueue s entries
  pub pool : IsPool s free
  pub apart : Apart entries free
  pub sorted : Sorted entries
  pub holds : Holds entries q
  pub total : length entries + length free ≡ preallocated_nodes

module _ {V : Type 0} where
  abbrev pub item_entry : ℕ → ℤ → V → Entry V
  item_entry a p v = record { at = a; cell = item_cell p v }

  pub fill-update :
      (s : State V) (a : ℕ) (p : ℤ) (value : Option V) (n : Node V)
      → s.memory a ≡ some n
      → fill a p value s
        ≡ some (record s {
          memory = update s.memory a (record {
            cell = record { storage = value; block = n.cell.block; priority = p };
            next = n.next;
          });
        })
  unfolding fill
  fill-update s a p value n h = rw h refl
