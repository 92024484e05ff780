-- ===== src/PriorityQueue/Sound/Pop.antt =====
-- A pop leaves a sound state.
use libstappler_common.Common.{
  ◌>>=◌, ℕ, ◌+◌, ◌≡◌, refl, ◌∙◌, ap, arith, List, [], ◌∷◌, none, some, length,
}
use libstappler_common.Common.Int.{ℤ}
use libstappler_common.PriorityQueue.Nodes.{State, preallocated_nodes, update}
use libstappler_common.PriorityQueue.Access.{fill, pop}
use libstappler_common.PriorityQueue.Chain.{Entry, first_of, node_of, Agree-update, update-same}
use libstappler_common.PriorityQueue.Order.{Sorted}
use libstappler_common.PriorityQueue.Place.{IsQueue}
use libstappler_common.PriorityQueue.Pop.{pop_node-empty, pop_node-first}
use libstappler_common.PriorityQueue.Pool.{IsPool, free_node-front}
use libstappler_common.PriorityQueue.Apart.{Apart, Apart-cons, IsQueue-Agree, IsPool-Agree}
use libstappler_common.PriorityQueue.Sound.{IsSound, Holds}

module _ {V : Type 0} where
  abbrev pub empty_entry : ℕ → ℤ → Entry V
  empty_entry a p = record { at = a; cell = record { storage = none; block = none; priority = p } }

  -- A popped node gives its value and is free again.
  pop-parts :
      (fuel : ℕ) (s : State V) (p : ℤ) (v : V) (q : List (ℤ × V)) (es fs : List (Entry V))
      → IsQueue s es
      → IsPool s fs
      → Apart es fs
      → Sorted es
      → Holds es ((p, v) ∷ q)
      → length es + length fs ≡ preallocated_nodes
      → (t : State V) × (pop fuel s ≡ some (some (p, v), t)) × IsSound t q
  unfolding pop
  pop-parts fuel s p v q [] fs queue pool apart sorted holds total = absurd holds
  pop-parts fuel s p v q (e ∷ es) fs queue pool (out, apart) (below, sorted) (here, holds) total =
      let (t, popped, rest, memory, same) = pop_node-first s e es queue in
      let at_t =
        ap (λ m. m e.at) memory
        ∙ update-same s.memory e.at (node_of e none)
        ∙ ap (λ c. some (record { cell = c; next = none })) here in
      let freed = empty_entry e.at p in
      let n = node_of freed none in
      let u = record t { memory = update t.memory e.at n } in
      let pool' = IsPool-Agree t u fs refl refl (Agree-update t.memory e.at n fs out) (
        IsPool-Agree s t fs (ap (λ z. z.free_first) same) (ap (λ z. z.free_last) same)
          (rw memory (Agree-update s.memory e.at (node_of e none) fs out)) pool) in
      let (w, made, pool'', memory', same') =
        free_node-front fuel u freed none fs (update-same t.memory e.at n) refl out pool' in
      (
        w,
        rw (popped, at_t, fill) (ap (λ o. o >>= λ z. some (some (p, v), z)) made),
        record {
          entries = es;
          free = freed ∷ fs;
          queue =
              IsQueue-Agree u w es (ap (λ z. z.queue_first) same') (ap (λ z. z.queue_last) same')
                (rw memory'
                  (Agree-update u.memory e.at (node_of freed (first_of fs)) es queue.distinct.0))
                (IsQueue-Agree t u es refl refl (Agree-update t.memory e.at n es queue.distinct.0)
                  rest);
          pool = pool'';
          apart = Apart-cons freed es fs queue.distinct.0 apart;
          sorted = sorted;
          holds = holds;
          total = ground arith;
        },
      )

  -- A pop of a sound state succeeds, gives the first value and leaves a sound state of the others.
  pub pop-IsSound :
      (fuel : ℕ) (s : State V) (p : ℤ) (v : V) (q : List (ℤ × V))
      → IsSound s ((p, v) ∷ q)
      → (t : State V) × (pop fuel s ≡ some (some (p, v), t)) × IsSound t q
  pop-IsSound fuel s p v q sound =
      pop-parts fuel s p v q sound.entries sound.free sound.queue sound.pool sound.apart
        sound.sorted sound.holds sound.total

  pop-nothing :
      (fuel : ℕ) (s : State V) (es : List (Entry V))
      → IsQueue s es
      → Holds es []
      → pop fuel s ≡ some (none, s)
  unfolding pop
  pop-nothing fuel s [] queue holds = rw (pop_node-empty s queue) refl
  pop-nothing fuel s (e ∷ es) queue holds = absurd holds

  pub pop-IsSound_empty : (fuel : ℕ) (s : State V) → IsSound s [] → pop fuel s ≡ some (none, s)
  pop-IsSound_empty fuel s sound = pop-nothing fuel s sound.entries sound.queue sound.holds
