-- ===== src/PriorityQueue/Reach.antt =====
-- The states that calls of the queue's operations lead to, while no call of `push` needs a block.
use libstappler_common.Common.{
  ℕ, zero, suc, ◌+◌, ◌-◌, ◌<◌, ◌≤◌, ◌≡◌, refl, sym, ◌∙◌, ap, arith, Bool, true, false, List, [],
  ◌∷◌, Option, none, some, length,
}
use mathlib.Core.Path.{subst}
use mathlib.Core.Option.{some-injective}
use libstappler_common.Common.Int.{ℤ, leb_ℤ}
use libstappler_common.PriorityQueue.Nodes.{Memory, State, preallocated_nodes, is_null}
use libstappler_common.PriorityQueue.Access.{
  push, pop, clear, foreach_from, foreach, count_from, free_capacity,
}
use libstappler_common.PriorityQueue.Chain.{Entry, first_of, Chain}
use libstappler_common.PriorityQueue.Order.{Sorted}
use libstappler_common.PriorityQueue.Pool.{IsPool}
use libstappler_common.PriorityQueue.Spec.{enqueue}
use libstappler_common.PriorityQueue.Sound.{IsSound, Holds, Holds-length, Holds-length}
use libstappler_common.PriorityQueue.Sound.Push.{push-IsSound}
use libstappler_common.PriorityQueue.Sound.Pop.{pop-IsSound, pop-IsSound_empty}
use libstappler_common.PriorityQueue.Nodes.{create}
use libstappler_common.PriorityQueue.Refinement.{create-IsSound}

pub data Reachable {V : Type 0} (fuel : ℕ) : State V → Type 0 where
  created : Reachable fuel create
  -- There is a free node.
  pushed :
      {s t : State V} (p : ℤ) (first : Bool) (v : V)
      → Reachable fuel s
      → is_null s.free_first ≡ false
      → push fuel p first v s ≡ some t
      → Reachable fuel t
  popped :
      {s t : State V} (x : Option (ℤ × V))
      → Reachable fuel s
      → pop fuel s ≡ some (x, t)
      → Reachable fuel t
  cleared : {s t : State V} → Reachable fuel s → clear fuel s ≡ some t → Reachable fuel t

pub same_result :
    {A : Type 0} (P : A → Type 0) (o : Option A) (a : A)
    → o ≡ some a
    → (b : A) × (o ≡ some b) × P b
    → P a
same_result P o a h (b, k, p) = subst P (some-injective b a (sym k ∙ h)) p

module _ {V : Type 0} where
  -- The values in the order of their priorities.
  abbrev pub SortedItems : List (ℤ × V) → Type 0
  SortedItems [] = Unit {0}
  SortedItems ((p, v) ∷ []) = Unit {0}
  SortedItems ((p, v) ∷ (k, w) ∷ q) = (leb_ℤ p k ≡ true) × SortedItems ((k, w) ∷ q)

  foreach_from-Holds :
      (fuel : ℕ) (m : Memory V) (es : List (Entry V)) (q : List (ℤ × V))
      → length es < fuel
      → Chain m es
      → Holds es q
      → foreach_from fuel (first_of es) m ≡ some q
  unfolding foreach_from
  foreach_from-Holds zero m es q enough chain holds = absurd (omega arith)
  foreach_from-Holds (suc fuel) m [] [] enough chain holds = refl
  foreach_from-Holds (suc fuel) m [] (x ∷ q) enough chain holds = absurd holds
  foreach_from-Holds (suc fuel) m (e ∷ es) [] enough chain holds = absurd holds
  foreach_from-Holds (suc fuel) m (e ∷ es) ((p, v) ∷ q) enough (here, chain) (cell, holds) =
      rw
        (
          here ∙ ap (λ c. some (record { cell = c; next = first_of es })) cell,
          foreach_from-Holds fuel m es q (omega arith) chain holds,
        )
        refl

  count_from-Chain :
      (fuel : ℕ) (m : Memory V) (es : List (Entry V))
      → length es < fuel
      → Chain m es
      → count_from fuel (first_of es) m ≡ some (length es)
  unfolding count_from
  count_from-Chain zero m es enough chain = absurd (omega arith)
  count_from-Chain (suc fuel) m [] enough chain = refl
  count_from-Chain (suc fuel) m (e ∷ es) enough (here, chain) =
      rw (here, count_from-Chain fuel m es (omega arith) chain) (ap some (omega arith))

  Sorted-Holds : (es : List (Entry V)) (q : List (ℤ × V)) → Sorted es → Holds es q → SortedItems q
  Sorted-Holds es [] sorted holds = tt
  Sorted-Holds es ((p, v) ∷ []) sorted holds = tt
  Sorted-Holds [] ((p, v) ∷ (k, w) ∷ q) sorted holds = absurd holds
  Sorted-Holds (e ∷ []) ((p, v) ∷ (k, w) ∷ q) sorted holds = absurd holds.1
  Sorted-Holds (e ∷ f ∷ es) ((p, v) ∷ (k, w) ∷ q) ((below, rest), sorted) (here, (there, holds)) = (
    rw⁻¹ (ap (λ c. c.priority) here, ap (λ c. c.priority) there) below,
    Sorted-Holds (f ∷ es) ((k, w) ∷ q) sorted (there, holds),
  )

  -- The loops of `foreach` and `free_capacity` over a sound state.
  pub foreach-IsSound :
      (fuel : ℕ) (s : State V) (q : List (ℤ × V))
      → preallocated_nodes < fuel
      → IsSound s q
      → foreach fuel s ≡ some q
  unfolding foreach
  foreach-IsSound fuel s q enough sound = rw sound.queue.first (
      foreach_from-Holds fuel s.memory sound.entries q (ground (arith, sound.total))
        sound.queue.chain sound.holds)

  pub free_capacity-IsSound :
      (fuel : ℕ) (s : State V) (q : List (ℤ × V))
      → preallocated_nodes < fuel
      → IsSound s q
      → free_capacity fuel s ≡ some (preallocated_nodes - length q)
  unfolding free_capacity
  free_capacity-IsSound fuel s q enough sound = rw sound.pool.first (
      count_from-Chain fuel s.memory sound.free (ground (arith, sound.total)) sound.pool.chain
      ∙ ap some (ground (arith, sound.total, Holds-length sound.entries q sound.holds)))

  -- `clear` pops every value.
  pub clear-IsSound :
      (fuel : ℕ) (s : State V) (q : List (ℤ × V))
      → length q < fuel
      → IsSound s q
      → (t : State V) × (clear fuel s ≡ some t) × IsSound t []
  unfolding clear
  clear-IsSound zero s q enough sound = absurd (omega arith)
  clear-IsSound (suc fuel) s [] enough sound =
      (s, rw (pop-IsSound_empty (suc fuel) s sound) refl, sound)
  clear-IsSound (suc fuel) s ((p, v) ∷ q) enough sound =
      let (t, made, sound') = pop-IsSound (suc fuel) s p v q sound in
      let (u, emptied, sound'') = clear-IsSound fuel t q (omega arith) sound' in
      (u, rw made emptied, sound'')

  IsSound-room :
      (s : State V) (es fs : List (Entry V))
      → IsPool s fs
      → is_null s.free_first ≡ false
      → length es + length fs ≡ preallocated_nodes
      → length es < preallocated_nodes
  IsSound-room s es [] pool free total = absurd (ground (arith, ap is_null pool.first, free))
  IsSound-room s es (f ∷ fs) pool free total = omega arith

  pop-IsSound_any :
      (fuel : ℕ) (s t : State V) (x : Option (ℤ × V)) (q : List (ℤ × V))
      → IsSound s q
      → pop fuel s ≡ some (x, t)
      → (q' : List (ℤ × V)) × IsSound t q'
  pop-IsSound_any fuel s t x [] sound made =
      same_result (λ (y, u). (q' : List (ℤ × V)) × IsSound u q') (pop fuel s) (x, t) made
        ((none, s), pop-IsSound_empty fuel s sound, ([], sound))
  pop-IsSound_any fuel s t x ((p, v) ∷ q) sound made =
      let (u, popped_u, sound') = pop-IsSound fuel s p v q sound in
      same_result (λ (y, u). (q' : List (ℤ × V)) × IsSound u q') (pop fuel s) (x, t) made
        ((some (p, v), u), popped_u, (q, sound'))

  -- Every state that calls of the operations lead to from the constructor, each push with a free node, is sound.
  pub Reachable-IsSound :
      (fuel : ℕ) (s : State V)
      → preallocated_nodes < fuel
      → Reachable fuel s
      → (q : List (ℤ × V)) × IsSound s q
  Reachable-IsSound fuel s enough created = ([], create-IsSound)
  Reachable-IsSound fuel t enough (pushed {s = s} p first v r free made) =
      let (q, sound) = Reachable-IsSound fuel s enough r in
      let room = IsSound-room s sound.entries sound.free sound.pool free sound.total in
      (
        enqueue first p v q,
        same_result (λ t. IsSound t (enqueue first p v q)) (push fuel p first v s) t made
            (push-IsSound fuel p first v s q (rw⁻¹ (Holds-length sound.entries q sound.holds) room)
              (omega arith) sound),
      )
  Reachable-IsSound fuel t enough (popped {s = s} x r made) =
      let (q, sound) = Reachable-IsSound fuel s enough r in pop-IsSound_any fuel s t x q sound made
  Reachable-IsSound fuel t enough (cleared {s = s} r made) =
      let (q, sound) = Reachable-IsSound fuel s enough r in
      (
        [],
        same_result (λ t. IsSound t []) (clear fuel s) t made
            (clear-IsSound fuel s q
              (ground (arith, sound.total, Holds-length sound.entries q sound.holds)) sound),
      )

  -- In every state that calls of the operations lead to from the constructor, each push with a free node, and on
  -- fuel for nine steps, `foreach` gives values in the order of their priorities, and `free_capacity` counts the
  -- preallocated nodes that are left.
  pub foreach-Reachable :
      (fuel : ℕ) (s : State V)
      → preallocated_nodes < fuel
      → Reachable fuel s
      → (q : List (ℤ × V)) × (foreach fuel s ≡ some q)
        × SortedItems q
        × (free_capacity fuel s ≡ some (preallocated_nodes - length q))
        × (length q ≤ preallocated_nodes)
  foreach-Reachable fuel s enough r =
      let (q, sound) = Reachable-IsSound fuel s enough r in
      (
        q,
        foreach-IsSound fuel s q enough sound,
        Sorted-Holds sound.entries q sound.sorted sound.holds,
        free_capacity-IsSound fuel s q enough sound,
        ground (arith, sound.total, Holds-length sound.entries q sound.holds),
      )
