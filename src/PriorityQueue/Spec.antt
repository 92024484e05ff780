-- ===== src/PriorityQueue/Spec.antt =====
-- What a priority queue promises, as a list of priorities and values, and runs of its operations.
use libstappler_common.Common.{
  ◌>>=◌, ℕ, zero, suc, ◌<◌, Bool, true, false, List, [], ◌∷◌, Option, none, some,
}
use libstappler_common.Common.Int.{ℤ}
use libstappler_common.PriorityQueue.Nodes.{State, preallocated_nodes}
use libstappler_common.PriorityQueue.Access.{push, pop}
use libstappler_common.PriorityQueue.Order.{before}

-- A call of `push`, or of `pop_prefix` or `pop_direct`.
pub data Operation (V : Type 0) : Type 0 where
  push_value : ℤ → Bool → V → Operation V
  pop_value : Operation V

module _ {V : Type 0} where
  unfoldable pub enqueue : Bool → ℤ → V → List (ℤ × V) → List (ℤ × V)
  enqueue first p v [] = (p, v) ∷ []
  enqueue first p v ((k, w) ∷ q) = elim (before first p k) [
    | true ↦ (k, w) ∷ enqueue first p v q
    | false ↦ (p, v) ∷ (k, w) ∷ q
  ]

  -- What the callbacks of the pops are given, in their order.
  unfoldable pub promised : List (Operation V) → List (ℤ × V) → List (Option (ℤ × V))
  unfolding enqueue
  promised [] q = []
  promised (push_value p first v ∷ os) q = promised os (enqueue first p v q)
  promised (pop_value ∷ os) [] = none ∷ promised os []
  promised (pop_value ∷ os) (x ∷ q) = some x ∷ promised os q

  unfoldable pub delivered : ℕ → List (Operation V) → State V → Option (List (Option (ℤ × V)))
  unfolding push pop
  delivered fuel [] s = some []
  delivered fuel (push_value p first v ∷ os) s = push fuel p first v s >>= delivered fuel os
  delivered fuel (pop_value ∷ os) s =
      pop fuel s >>= λ (x, t). delivered fuel os t >>= λ xs. some (x ∷ xs)

  -- Each push finds a preallocated node.
  abbrev pub Fits : List (Operation V) → ℕ → Type 0
  Fits [] n = Unit {0}
  Fits (push_value p first v ∷ os) n = (n < preallocated_nodes) × Fits os (suc n)
  Fits (pop_value ∷ os) zero = Fits os zero
  Fits (pop_value ∷ os) (suc n) = Fits os n
