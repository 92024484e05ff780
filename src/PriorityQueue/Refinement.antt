-- ===== src/PriorityQueue/Refinement.antt =====
-- The nodes, lists and pointers keep what a priority queue promises, as long as preallocated nodes are enough.
use libstappler_common.Common.{
  ℕ, zero, suc, ◌+◌, ◌<◌, ◌≤◌, ◌≡◌, refl, ap, arith, Bool, List, [], ◌∷◌, none, some, length, inl,
  inr, Bool-cases,
}
use libstappler_common.Common.Int.{ℤ, pos}
use libstappler_common.PriorityQueue.Nodes.{State, preallocated_nodes}
use libstappler_common.PriorityQueue.Chain.{Entry, NotIn, Distinct}
use libstappler_common.PriorityQueue.Order.{before}
use libstappler_common.PriorityQueue.Spec.{
  Operation, push_value, pop_value, enqueue, promised, delivered, Fits,
}
use libstappler_common.PriorityQueue.Sound.{IsSound}
use libstappler_common.PriorityQueue.Sound.Push.{push-IsSound}
use libstappler_common.PriorityQueue.Sound.Pop.{pop-IsSound, pop-IsSound_empty}
use libstappler_common.PriorityQueue.Nodes.{create, init_nodes}

module _ {V : Type 0} where
  -- Unused nodes from an address on.
  blank_entries : ℕ → ℕ → List (Entry V)
  blank_entries zero a = []
  blank_entries (suc n) a =
      record { at = a; cell = record { storage = none; block = none; priority = pos 0 } }
      ∷ blank_entries n (a + 1)

NotIn-blank_entries : (V : Type 0) (n a q : ℕ) → q < a → NotIn q (blank_entries {V = V} n a)
unfolding blank_entries
NotIn-blank_entries V zero a q h = tt
NotIn-blank_entries V (suc n) a q h = (omega arith, NotIn-blank_entries V n (a + 1) q (omega arith))

Distinct-blank_entries : (V : Type 0) (n a : ℕ) → Distinct (blank_entries {V = V} n a)
unfolding blank_entries
Distinct-blank_entries V zero a = tt
Distinct-blank_entries V (suc n) a =
    (NotIn-blank_entries V n (a + 1) a (omega arith), Distinct-blank_entries V n (a + 1))

module _ {V : Type 0} where
  -- The constructor leaves a sound state of an empty queue.
  pub create-IsSound : IsSound (create {V = V}) []
  unfolding create init_nodes blank_entries
  create-IsSound = record {
    entries = [];
    free = blank_entries preallocated_nodes 0;
    queue = record { first = refl; last = refl; chain = tt; distinct = tt };
    pool = record {
      first = refl;
      last = refl;
      chain = (refl, (refl, (refl, (refl, (refl, (refl, (refl, (refl, tt))))))));
      distinct = Distinct-blank_entries V preallocated_nodes 0;
      preallocated = (refl, (refl, (refl, (refl, (refl, (refl, (refl, (refl, tt))))))));
    };
    apart = tt;
    sorted = tt;
    holds = tt;
    total = refl;
  }

  length-enqueue :
      (first : Bool) (p : ℤ) (v : V) (q : List (ℤ × V))
      → length (enqueue first p v q) ≡ suc (length q)
  unfolding enqueue
  length-enqueue first p v [] = refl
  length-enqueue first p v ((k, w) ∷ q) = elim (Bool-cases (before first p k)) [
    | inl y ↦ rw (y, enqueue) (ap suc (length-enqueue first p v q))
    | inr n ↦ rw (n, enqueue) refl
  ]

  -- From a sound state.
  delivered-IsSound :
      (fuel : ℕ) (os : List (Operation V)) (s : State V) (q : List (ℤ × V))
      → preallocated_nodes ≤ fuel
      → IsSound s q
      → Fits os (length q)
      → delivered fuel os s ≡ some (promised os q)
  unfolding delivered promised
  delivered-IsSound fuel [] s q enough sound fits = refl
  delivered-IsSound fuel (push_value p first v ∷ os) s q enough sound (room, fits) =
      let (t, made, sound') = push-IsSound fuel p first v s q room enough sound in
      rw made (
        delivered-IsSound fuel os t (enqueue first p v q) enough sound'
          (rw (length-enqueue first p v q) fits))
  delivered-IsSound fuel (pop_value ∷ os) s [] enough sound fits =
      rw (pop-IsSound_empty fuel s sound, delivered-IsSound fuel os s [] enough sound fits) refl
  delivered-IsSound fuel (pop_value ∷ os) s ((p, v) ∷ q) enough sound fits =
      let (t, made, sound') = pop-IsSound fuel s p v q sound in
      rw (made, delivered-IsSound fuel os t q enough sound' fits) refl

  -- Every run of pushes and pops from the constructor, with at most eight values in the queue at a time, succeeds
  -- on fuel for eight nodes, and the callbacks are given what the list of values and priorities promises.
  pub delivered-promised :
      (fuel : ℕ) (os : List (Operation V))
      → preallocated_nodes ≤ fuel
      → Fits os 0
      → delivered fuel os create ≡ some (promised os [])
  delivered-promised fuel os enough fits =
      delivered-IsSound fuel os create [] enough create-IsSound fits
