-- ===== src/PriorityQueue/Sound/Push.antt =====
-- A push leaves a sound state.
use libstappler_common.Common.{
  ℕ, ◌+◌, ◌<◌, ◌≤◌, ◌≡◌, refl, ◌∙◌, ap, arith, Bool, List, [], ◌∷◌, none, some, length,
}
use libstappler_common.Common.Int.{ℤ}
use libstappler_common.PriorityQueue.Nodes.{State, preallocated_nodes, update}
use libstappler_common.PriorityQueue.Allocate.{allocate_node}
use libstappler_common.PriorityQueue.Access.{fill, push}
use libstappler_common.PriorityQueue.Chain.{Entry, node_of, Agree-update, insert, update-same}
use libstappler_common.PriorityQueue.Order.{Sorted, before}
use libstappler_common.PriorityQueue.Place.{IsQueue}
use libstappler_common.PriorityQueue.Push.{push_node-insert}
use libstappler_common.PriorityQueue.Pool.{IsPool, allocate_node-first}
use libstappler_common.PriorityQueue.Spec.{enqueue}
use libstappler_common.PriorityQueue.Apart.{
  Apart, Apart-head, Apart-tail, Apart-sym, Apart-insert, Agree-Apart, IsQueue-Agree, IsPool-Agree,
}
use libstappler_common.PriorityQueue.Sound.{
  IsSound, Holds, Holds-length, Holds-insert, length-insert, item_entry, fill-update,
}

module _ {V : Type 0} where
  -- The first two statements of `push`: a free node holds the value.
  allocate-fill :
      (s : State V) (p : ℤ) (v : V) (f : Entry V) (es fs : List (Entry V))
      → IsQueue s es
      → IsPool s (f ∷ fs)
      → Apart es (f ∷ fs)
      → (t : State V) × (u : State V) × (allocate_node s ≡ some (f.at, t))
        × (fill f.at p (some v) t ≡ some u)
        × (u.memory f.at ≡ some (node_of (item_entry f.at p v) none))
        × IsQueue u es
        × IsPool u fs
  allocate-fill s p v f es fs queue pool apart =
      let (t, taken, left, memory, same) = allocate_node-first s f fs pool in
      let n = node_of (item_entry f.at p v) none in
      let outside = Apart-head f es fs apart in
      let u = record t { memory = update t.memory f.at n } in
      (
        t,
        u,
        taken,
        fill-update t f.at p (some v) (node_of f none)
              (ap (λ m. m f.at) memory ∙ update-same s.memory f.at (node_of f none))
            ∙ (ap
                (λ b. some (record t {
                  memory = update t.memory f.at (record {
                    cell = record { storage = some v; block = b; priority = p };
                    next = none;
                  });
                }))
                pool.preallocated.0),
        update-same t.memory f.at n,
        IsQueue-Agree t u es refl refl (Agree-update t.memory f.at n es outside) (
            IsQueue-Agree s t es (ap (λ z. z.queue_first) same) (ap (λ z. z.queue_last) same)
              (rw memory (Agree-update s.memory f.at (node_of f none) es outside)) queue),
        IsPool-Agree t u fs refl refl (Agree-update t.memory f.at n fs pool.distinct.0) left,
      )

  push-parts :
      (fuel : ℕ) (p : ℤ) (first : Bool) (v : V) (s : State V) (q : List (ℤ × V))
      (es fs : List (Entry V))
      → length q < preallocated_nodes
      → preallocated_nodes ≤ fuel
      → IsQueue s es
      → IsPool s fs
      → Apart es fs
      → Sorted es
      → Holds es q
      → length es + length fs ≡ preallocated_nodes
      → (t : State V) × (push fuel p first v s ≡ some t) × IsSound t (enqueue first p v q)
  unfolding push
  push-parts fuel p first v s q es [] room enough queue pool apart sorted holds total =
      absurd (ground (arith, Holds-length es q holds))
  push-parts fuel p first v s q es (f ∷ fs) room enough queue pool apart sorted holds total =
      let (t, u, taken, filled, node, queue', pool') =
        allocate-fill s p v f es fs queue pool apart in
      let e = item_entry f.at p v in
      let ((w, pushed, queue'', frame, same), sorted') =
        push_node-insert fuel first u e none es (ground (arith, Holds-length es q holds)) node
          (Apart-head f es fs apart) sorted queue' in
      (
        w,
        rw (taken, filled) pushed,
        record {
          entries = insert (before first p) e es;
          free = fs;
          queue = queue'';
          pool =
              IsPool-Agree u w fs (ap (λ z. z.free_first) same) (ap (λ z. z.free_last) same)
                (Agree-Apart u.memory w.memory fs (e ∷ es) frame
                  (Apart-sym (e ∷ es) fs (pool.distinct.0, Apart-tail f es fs apart)))
                pool';
          apart = Apart-insert (before first p) e es fs pool.distinct.0 (Apart-tail f es fs apart);
          sorted = sorted';
          holds = Holds-insert first p v e es q refl holds;
          total = ground (arith, length-insert (before first p) e es);
        },
      )

  -- A push into a sound queue of at most seven values succeeds, on fuel for eight nodes, and leaves a sound queue
  -- with the value in its place.
  pub push-IsSound :
      (fuel : ℕ) (p : ℤ) (first : Bool) (v : V) (s : State V) (q : List (ℤ × V))
      → length q < preallocated_nodes
      → preallocated_nodes ≤ fuel
      → IsSound s q
      → (t : State V) × (push fuel p first v s ≡ some t) × IsSound t (enqueue first p v q)
  push-IsSound fuel p first v s q room enough sound =
      push-parts fuel p first v s q sound.entries sound.free room enough sound.queue sound.pool
        sound.apart sound.sorted sound.holds sound.total
