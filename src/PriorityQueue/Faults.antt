-- ===== src/PriorityQueue/Faults.antt =====
-- Where the lists lose their nodes: the loop of the destructor, and the removal of a block.
use libstappler_common.Common.{
  ◌>>=◌, ℕ, zero, suc, ◌+◌, ◌-◌, ◌^◌, u32, ◌==◌, if◌then◌else◌, ◌<◌, ◌≡◌, refl, sym, ◌∙◌, ap, arith,
  true, false, List, [], ◌∷◌, Option, none, some,
}
use mathlib.Core.Option.{some-injective, none-ne-some}
use libstappler_common.Common.Int.{ℤ}
use libstappler_common.PriorityQueue.Nodes.{Memory, State, storage_nodes, address, set_next, update}
use libstappler_common.PriorityQueue.Allocate.{
  append_free, free_in_block, remove_block, set_target, skip_preallocated, skip_block, unlink_block,
  deallocate_block,
}
use libstappler_common.PriorityQueue.Access.{fill, destroy_node}
use libstappler_common.PriorityQueue.Chain.{
  Entry, first_of, node_of, Chain, NotIn, Agree-update, Chain-update, update-same,
}
use libstappler_common.PriorityQueue.Place.{IsQueue}
use libstappler_common.PriorityQueue.Pool.{IsPool, free_node-front}
use libstappler_common.PriorityQueue.Apart.{Apart, IsPool-Agree}
use libstappler_common.PriorityQueue.Sound.{IsSound, Holds}
use libstappler_common.PriorityQueue.Sound.Pop.{empty_entry}

bind_inv :
    {A B : Type 0} (o : Option A) (f : A → Option B) (b : B)
    → (o >>= f) ≡ some b
    → (a : A) × (o ≡ some a) × (f a ≡ some b)
bind_inv none f b h = absurd (none-ne-some b h)
bind_inv (some a) f b h = (a, refl, h)

module _ {V : Type 0} where
  destroy-parts :
      (fuel : ℕ) (s : State V) (p : ℤ) (v : V) (q : List (ℤ × V)) (e : Entry V)
      (es fs : List (Entry V))
      → IsQueue s (e ∷ es)
      → IsPool s fs
      → NotIn e.at fs
      → Holds (e ∷ es) ((p, v) ∷ q)
      → (t : State V) × (destroy_node fuel e.at s ≡ some (s.free_first, t))
        × Chain t.memory es
        × Holds es q
  unfolding destroy_node
  destroy-parts fuel s p v q e es fs queue pool out (here, holds) =
      let freed = empty_entry e.at p in
      let n = node_of freed (first_of es) in
      let u = record s { memory = update s.memory e.at n } in
      let at_s = queue.chain.0 ∙ ap (λ c. some (record { cell = c; next = first_of es })) here in
      let (w, made, pool', memory, same) =
        free_node-front fuel u freed (first_of es) fs (update-same s.memory e.at n) refl out
          (IsPool-Agree s u fs refl refl (Agree-update s.memory e.at n fs out) pool) in
      let at_w =
        ap (λ m. m e.at) memory ∙ update-same u.memory e.at (node_of freed (first_of fs)) in
      (
        w,
        rw (at_s, fill)
            (ap (λ o. o >>= λ z. z.memory e.at >>= λ after. some (after.next, z)) made
              ∙ ap (λ o. o >>= λ after. some (after.next, w)) at_w
              ∙ ap (λ o. some (o, w)) (sym pool.first)),
        rw memory (
            Chain-update u.memory e.at (node_of freed (first_of fs)) es queue.distinct.0
              (Chain-update s.memory e.at n es queue.distinct.0 queue.chain.1)),
        holds,
      )

  -- One iteration of the destructor's loop in a state: where it starts, what it leaves, and the values behind it.
  abbrev pub Iterated : ℕ → State V → List (ℤ × V) → Type 0
  Iterated fuel s q =
      (a : ℕ) × (t : State V) × (es : List (Entry V)) × (s.queue_first ≡ some a)
      × (destroy_node fuel a s ≡ some (s.free_first, t))
      × Chain t.memory es
      × Holds es q

  destroy_first :
      (fuel : ℕ) (s : State V) (p : ℤ) (v : V) (q : List (ℤ × V)) (es fs : List (Entry V))
      → IsQueue s es
      → IsPool s fs
      → Apart es fs
      → Holds es ((p, v) ∷ q)
      → Iterated fuel s q
  destroy_first fuel s p v q [] fs queue pool apart holds = absurd holds
  destroy_first fuel s p v q (e ∷ es) fs queue pool apart holds =
      let (t, made, chain, rest) = destroy-parts fuel s p v q e es fs queue pool apart.0 holds in
      (e.at, t, es, queue.first, made, chain, rest)

  -- An iteration of the destructor's loop in a sound state goes from the first node of the queue to the first node
  -- of the free list, while the other values are alive in their nodes.
  pub destroy_node-free_first :
      (fuel : ℕ) (s : State V) (p : ℤ) (v : V) (q : List (ℤ × V))
      → IsSound s ((p, v) ∷ q)
      → Iterated fuel s q
  destroy_node-free_first fuel s p v q sound =
      destroy_first fuel s p v q sound.entries sound.free sound.queue sound.pool sound.apart
        sound.holds

  -- The loops over the free list leave its end alone.
  set_target-free_last :
      (target n : Option ℕ) (s t : State V)
      → set_target target n s ≡ some t
      → t.free_last ≡ s.free_last
  unfolding set_target
  set_target-free_last none n s t h =
      ap (λ z. z.free_last) (some-injective t (record s { free_first = n }) (sym h))
  set_target-free_last (some a) n s t h =
      let (m, made, same) =
        bind_inv (set_next a n s.memory) (λ m. some (record s { memory = m })) t h in
      ap (λ z. z.free_last) (some-injective t (record s { memory = m }) (sym same))

  unlinked :
      (n : Option ℕ) (u t : State V) (rest : ℕ → Option ℕ → Option (State V))
      → ((a : ℕ) (m : Option ℕ) → rest a m ≡ some t → t.free_last ≡ u.free_last)
      → elim n [ none ↦ some u | some a ↦ u.memory a >>= λ node. rest a node.next ] ≡ some t
      → t.free_last ≡ u.free_last
  unlinked none u t rest keeps h = ap (λ z. z.free_last) (some-injective t u (sym h))
  unlinked (some a) u t rest keeps h =
      let (node, at_a, h') = bind_inv (u.memory a) _ t h in keeps a node.next h'

  unlink_block-free_last :
      (fuel b : ℕ) (target n : Option ℕ) (s t : State V)
      → unlink_block fuel b target n s ≡ some t
      → t.free_last ≡ s.free_last
  unfolding unlink_block
  unlink_block-free_last zero b target n s t h = absurd (none-ne-some t h)
  unlink_block-free_last (suc fuel) b target n s t h =
      let (n', skipped, h') = bind_inv (skip_block (suc fuel) b n s.memory) _ t h in
      let (u, made, h'') = bind_inv (set_target target n' s) _ t h' in
      unlinked n' u t (λ a m. unlink_block fuel b (some a) m u)
        (λ a m. unlink_block-free_last fuel b (some a) m u t) h''
      ∙ set_target-free_last target n' s u made

  deallocate_block-none :
      (b i : ℕ) (s : State V)
      → i < storage_nodes
      → (deallocate_block b s).memory (address b i) ≡ none
  unfolding deallocate_block
  deallocate_block-none b i s h = ground arith

  remove_block-free_last :
      (fuel b : ℕ) (s t : State V)
      → remove_block fuel b s ≡ some t
      → (t.free_last ≡ s.free_last) × ((i : ℕ) → i < storage_nodes → t.memory (address b i) ≡ none)
  unfolding remove_block deallocate_block
  remove_block-free_last fuel b s t h =
      let ((target, n), skipped, h') =
        bind_inv (skip_preallocated fuel none s.free_first s.memory) _ t h in
      let (u, unlinked, same) = bind_inv (unlink_block fuel b target n s) _ t h' in
      let t_eq = some-injective t (deallocate_block b u) (sym same) in
      (
        ap (λ z. z.free_last) t_eq ∙ unlink_block-free_last fuel b target n s u unlinked,
        λ i below. ap (λ z. z.memory (address b i)) t_eq ∙ deallocate_block-none b i u below,
      )

  appended :
      (a : ℕ) (m : Memory V) (l : Option ℕ) (s t : State V)
      → elim l [
        | some l ↦
            set_next l (some a) m >>= λ m'. some (record s { memory = m'; free_last = some a })
        | none ↦ some (record s { memory = m; free_first = some a; free_last = some a })
      ]
        ≡ some t
      → (t.free_last ≡ some a) × (t.used ≡ s.used)
  appended a m none s t h =
      let e =
        some-injective t (record s { memory = m; free_first = some a; free_last = some a })
          (sym h) in
      (ap (λ z. z.free_last) e, ap (λ z. z.used) e)
  appended a m (some l) s t h =
      let (m', made, h') = bind_inv (set_next l (some a) m) _ t h in
      let e = some-injective t (record s { memory = m'; free_last = some a }) (sym h') in
      (ap (λ z. z.free_last) e, ap (λ z. z.used) e)

  append_free-end :
      (a : ℕ) (s t : State V)
      → append_free a s ≡ some t
      → (t.free_last ≡ some a) × (t.used ≡ s.used)
  unfolding append_free
  append_free-end a s t h =
      let (m, detached, h') = bind_inv (set_next a none s.memory) _ t h in
      appended a m s.free_last s t h'

  -- `freeNode` of the last node in use of a block, if it returns, leaves the end of the free list pointing to that
  -- node, which is deleted with its block.
  pub free_in_block-dangling :
      (fuel b i : ℕ) (s t : State V)
      → i < storage_nodes
      → s.used b ≡ 1
      → free_in_block fuel (address b i) b s ≡ some t
      → (t.free_last ≡ some (address b i)) × (t.memory (address b i) ≡ none)
  unfolding free_in_block
  free_in_block-dangling fuel b i s t below used h =
      let (u, appended_u, h') = bind_inv (append_free (address b i) s) _ t h in
      let (last, same) = append_free-end (address b i) s u appended_u in
      let u' = record u { used = λ c. if c == b then u32 (u.used b + 2 ^ 32 - 1) else u.used c } in
      let removed =
        ap
          (λ n. elim (u32 (n + 2 ^ 32 - 1) == 0) [
            | true ↦ remove_block fuel b u'
            | false ↦ some u'
          ])
          (sym (ap (λ f. f b) same ∙ used))
        ∙ h' in
      let (kept, dead) = remove_block-free_last fuel b u' t removed in (kept ∙ last, dead i below)
