-- ===== src/PriorityQueue/Pool.antt =====
-- The free list while it holds preallocated nodes.
use libstappler_common.Common.{
  ℕ, ◌≡◌, refl, ◌∙◌, ap, Bool, true, false, List, [], ◌∷◌, Option, none, some, ◌==◌, if◌then◌else◌,
  u32, ◌+◌,
}
use libstappler_common.PriorityQueue.Nodes.{State, update, set_next, same_address}
use libstappler_common.PriorityQueue.Allocate.{
  take_node, allocate_node, free_preallocated, free_in_block, free_node,
}
use libstappler_common.PriorityQueue.Chain.{
  Entry, first_of, last_of, node_of, Chain, NotIn, Distinct, update-same, Chain-update,
}
use libstappler_common.PriorityQueue.Order.{last_of-last_entry}
use libstappler_common.PriorityQueue.Pop.{same_address_refl, same_address-last_of}

-- The nodes belong to no block.
abbrev pub Preallocated : {V : Type 0} → List (Entry V) → Type 0
Preallocated [] = Unit {0}
Preallocated (e ∷ es) = (e.cell.block ≡ none) × Preallocated es

-- The entries of the free list, from the first to the last.
pub record IsPool {V : Type 0} (s : State V) (es : List (Entry V)) : Type 0 where
  pub first : s.free_first ≡ first_of es
  pub last : s.free_last ≡ last_of es
  pub chain : Chain s.memory es
  pub distinct : Distinct es
  pub preallocated : Preallocated es

elim_none :
    {A B : Type 0} (o : Option A) (n : B) (f : A → B)
    → o ≡ none
    → elim o [ none ↦ n | some a ↦ f a ] ≡ n
elim_none o n f h = rw h refl

module _ {V : Type 0} where
  take_node-preallocated :
      (s : State V) (e : Entry V) (old : Option ℕ)
      → s.memory e.at ≡ some (node_of e old)
      → e.cell.block ≡ none
      → take_node e.at s ≡ some (e.at, record s { memory = update s.memory e.at (node_of e none) })
  unfolding take_node set_next
  take_node-preallocated s e old node block =
      rw (node, update-same s.memory e.at (node_of e none))
        (elim_none e.cell.block
          (some (e.at, record s { memory = update s.memory e.at (node_of e none) }))
          (λ b. some (
            e.at,
            record s {
              memory = update s.memory e.at (node_of e none);
              used = λ c. if c == b then u32 (s.used b + 1) else s.used c;
            },
          ))
          block)

  allocate_node-take :
      (s : State V) (e : Entry V) (next : Option ℕ) (last : Bool)
      → s.free_first ≡ some e.at
      → s.memory e.at ≡ some (node_of e next)
      → same_address (some e.at) s.free_last ≡ last
      → allocate_node s
        ≡ take_node e.at (
            if last
            then (record s { free_first = none; free_last = none })
            else (record s { free_first = next }))
  unfolding allocate_node
  allocate_node-take s e next last first node same =
      rw (first, node)
        (ap
          (λ b. take_node e.at (
            if b
            then (record s { free_first = none; free_last = none })
            else (record s { free_first = next })))
          same)

  -- `allocateNode` takes the first node of a free list of preallocated nodes, and leaves the others free; the
  -- other nodes are left alone, and of the state only the list's two ends change.
  pub allocate_node-first :
      (s : State V) (e : Entry V) (es : List (Entry V))
      → IsPool s (e ∷ es)
      → (t : State V) × (allocate_node s ≡ some (e.at, t))
        × IsPool t es
        × (t.memory ≡ update s.memory e.at (node_of e none))
        × (t ≡ record s { memory = t.memory; free_first = t.free_first; free_last = t.free_last })
  allocate_node-first s e [] pool = (
    record s {
      memory = update s.memory e.at (node_of e none);
      free_first = none;
      free_last = none;
    },
    allocate_node-take s e none true pool.first pool.chain.0 (rw pool.last (same_address_refl e.at))
        ∙ take_node-preallocated (record s { free_first = none; free_last = none }) e none
            pool.chain.0 pool.preallocated.0,
    record { first = refl; last = refl; chain = tt; distinct = tt; preallocated = tt },
    refl,
    refl,
  )
  allocate_node-first s e (x ∷ xs) pool =
      let n = node_of e none in
      (
        record s { memory = update s.memory e.at n; free_first = some x.at },
        allocate_node-take s e (some x.at) false pool.first pool.chain.0
              (rw pool.last (same_address-last_of e.at x xs pool.distinct.0))
            ∙ take_node-preallocated (record s { free_first = some x.at }) e (some x.at)
                pool.chain.0 pool.preallocated.0,
        record {
          first = refl;
          last = pool.last;
          chain = Chain-update s.memory e.at n (x ∷ xs) pool.distinct.0 pool.chain.1;
          distinct = pool.distinct.1;
          preallocated = pool.preallocated.1;
        },
        refl,
        refl,
      )

  free_preallocated-last :
      (s : State V) (e : Entry V) (old : Option ℕ) (es : List (Entry V))
      → s.memory e.at ≡ some (node_of e old)
      → s.free_first ≡ first_of es
      → s.free_last ≡ last_of es
      → free_preallocated e.at s
        ≡ some (record s {
          memory = update s.memory e.at (node_of e (first_of es));
          free_first = some e.at;
          free_last = last_of (e ∷ es);
        })
  unfolding free_preallocated set_next
  free_preallocated-last s e old [] node first last = rw (node, first, last) refl
  free_preallocated-last s e old (x ∷ xs) node first last =
      rw (node, first, last, last_of-last_entry x xs) refl

  -- `freeNode` of a preallocated node puts it in front of the free list, and changes nothing else.
  pub free_node-front :
      (fuel : ℕ) (s : State V) (e : Entry V) (old : Option ℕ) (es : List (Entry V))
      → s.memory e.at ≡ some (node_of e old)
      → e.cell.block ≡ none
      → NotIn e.at es
      → IsPool s es
      → (t : State V) × (free_node fuel e.at s ≡ some t)
        × IsPool t (e ∷ es)
        × (t.memory ≡ update s.memory e.at (node_of e (first_of es)))
        × (t ≡ record s { memory = t.memory; free_first = t.free_first; free_last = t.free_last })
  unfolding free_node
  free_node-front fuel s e old es node block fresh pool =
      let n = node_of e (first_of es) in
      (
        record s {
          memory = update s.memory e.at n;
          free_first = some e.at;
          free_last = last_of (e ∷ es);
        },
        rw node (
            elim_none e.cell.block (free_preallocated e.at s) (λ b. free_in_block fuel e.at b s)
              block
            ∙ free_preallocated-last s e old es node pool.first pool.last),
        record {
          first = refl;
          last = refl;
          chain = (update-same s.memory e.at n, Chain-update s.memory e.at n es fresh pool.chain);
          distinct = (fresh, pool.distinct);
          preallocated = (block, pool.preallocated);
        },
        refl,
        refl,
      )
