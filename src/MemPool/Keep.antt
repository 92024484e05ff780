-- ===== src/MemPool/Keep.antt =====
-- What a call of `Allocator::free` does to the free lists.
use libstappler_common.Common.{
  ℕ, zero, suc, ◌+◌, ◌≤◌, ◌<◌, ◌≡◌, refl, sym, ap, ◌∙◌, arith, ◌⊎◌, inl, inr, not, ◌&&◌, List, [],
  ◌∷◌, All, ltb, ◌==◌, Bool-cases, u32,
}
use native.Mathlib.Decide.{dec_le}
use libstappler_common.MemPool.Nodes.{MemNode, Allocator, max_index, set_bucket}
use libstappler_common.MemPool.Free.{Freeing, raise, keep_node, give_back, free_nodes, free}
use libstappler_common.MemPool.Stored.{stored, weigh, weigh_below, weigh_below-set_bucket}
use libstappler_common.MemPool.Sound.{
  IsNode, Belongs, IsSound, set_bucket-same, set_bucket-other, set_bucket-belong,
  set_bucket-IsSound_sink,
}
use libstappler_common.MemPool.Search.{cons-nil}

Belongs-own : (i : ℕ) (node : MemNode) → IsNode node → 1 ≤ i → node.index ≡ i → Belongs i node
Belongs-own zero node is_node positive e = absurd (omega arith)
Belongs-own (suc i) node is_node positive e = (is_node, e)

-- A node at the head of its own bucket.
put-IsSound :
    (buf : ℕ → List MemNode) (last grown : ℕ) (node : MemNode)
    → IsNode node
    → node.index < max_index
    → IsSound buf last
    → last ≤ grown
    → node.index ≤ grown
    → (grown ≡ last) ⊎ (grown ≡ node.index)
    → IsSound (set_bucket buf node.index (node ∷ buf node.index)) grown
put-IsSound buf last grown node is_node fits sound over_last over_index which =
    let i = node.index in
    let nodes = node ∷ buf i in
    record {
      last_fits = elim which [ inl e ↦ omega (arith, sound.last_fits) | inr e ↦ omega arith ];
      belong =
          set_bucket-belong buf i nodes
            (Belongs-own i node is_node is_node.at_least refl, sound.belong i fits) sound.belong;
      above = λ q over q_fits.
          set_bucket-other buf i nodes q (λ z. omega arith) ∙ sound.above q (omega arith) q_fits;
      top = elim (dec_le grown i) [
        | yes p ↦
            let same : grown ≡ i = omega arith in
            inr (λ z.
              cons-nil node (buf i)
                (sym (set_bucket-same buf i nodes) ∙ ap (set_bucket buf i nodes) (sym same) ∙ z))
        | no p ↦ elim which [
          | inl e ↦ elim sound.top [
            | inl bottom ↦ absurd (omega arith)
            | inr filled ↦ inr (λ z.
                filled (
                  ap buf (sym e) ∙ sym (set_bucket-other buf i nodes grown (λ y. omega arith)) ∙ z))
          ]
          | inr e ↦ absurd (omega arith)
        ]
      ];
    }

-- What one round or the whole loop keeps: the invariant, and each node in one of the two places.
pub record Keeps (given : (ℕ → ℕ → ℕ) → ℕ) (s t : Freeing) : Type 0 where
  pub sound : IsSound t.buf t.last
  pub weights :
      (f : ℕ → ℕ → ℕ)
      → weigh_below f max_index t.buf + weigh f t.freelist
        ≡ weigh_below f max_index s.buf + weigh f s.freelist + given f

pub raise_lem :
    (nodes : List MemNode) (index last : ℕ)
    → (last < index → nodes ≡ [])
    → (last ≤ raise nodes index last)
      × (index ≤ raise nodes index last)
      × ((raise nodes index last ≡ last) ⊎ (raise nodes index last ≡ index))
raise_lem [] index last h = elim (Bool-cases (ltb last index)) [
  | inl y ↦ rw y (ground arith, omega arith, inr refl)
  | inr n ↦ rw n (omega arith, ground arith, inl refl)
]
raise_lem (n ∷ ns) index last h = (
  omega arith,
  elim (dec_le index last) [ yes p ↦ p | no p ↦ absurd (cons-nil n ns (h (omega arith))) ],
  inl refl,
)

module _ (node : MemNode) (s : Freeing) where
  keep_node-Keeps :
      IsNode node → IsSound s.buf s.last → Keeps (λ f. f node.at node.index) s (keep_node node s)
  unfolding keep_node
  keep_node-Keeps is_node sound = elim (Bool-cases (ltb node.index max_index)) [
    | inl y ↦
        let (over_last, over_index, which) =
          raise_lem (s.buf node.index) node.index s.last
            (λ h. sound.above node.index h (ground arith)) in
        rw (y, keep_node)
          (record {
            sound =
                put-IsSound s.buf s.last (raise (s.buf node.index) node.index s.last) node is_node
                  (ground arith) sound over_last over_index which;
            weights = λ f. omega (
              arith,
              weigh_below-set_bucket f max_index node.index s.buf (node ∷ s.buf node.index)
                  (ground arith),
            );
          })
    | inr n ↦
        rw (n, keep_node)
          (record {
            sound =
                set_bucket-IsSound_sink s.buf s.last (node ∷ s.buf 0)
                  ((is_node, ground arith), sound.belong 0 (omega arith)) sound;
            weights = λ f.
                omega (
                  arith,
                  weigh_below-set_bucket f max_index 0 s.buf (node ∷ s.buf 0) (omega arith),
                );
          })
  ]

  give_back-Keeps :
      (max : ℕ)
      → IsNode node
      → IsSound s.buf s.last
      → Keeps (λ f. f node.at node.index) s (give_back max node s)
  unfolding give_back
  give_back-Keeps max is_node sound =
      elim (Bool-cases (not (max == 0) && ltb s.current (u32 (node.index + 1)))) [
        | inl y ↦ rw (y, give_back) (record { sound = sound; weights = λ f. omega arith })
        | inr n ↦ rw (n, give_back) (keep_node-Keeps is_node sound)
      ]

pub free_nodes-Keeps :
    (max : ℕ) (nodes : List MemNode) (s : Freeing)
    → All IsNode nodes
    → IsSound s.buf s.last
    → Keeps (λ f. weigh f nodes) s (free_nodes max nodes s)
unfolding free_nodes
free_nodes-Keeps max [] s all sound = record { sound = sound; weights = λ f. omega arith }
free_nodes-Keeps max (node ∷ nodes) s (one, others) sound =
    let first = give_back-Keeps node s max one sound in
    let rest = free_nodes-Keeps max nodes (give_back max node s) others first.sound in
    record { sound = rest.sound; weights = λ f. omega (arith, first.weights f, rest.weights f) }

-- `free` keeps the allocator sound, and each of the nodes it got is then in a free list or went to `::free`.
pub free-Keeps :
    (node : MemNode) (nodes : List MemNode) (a : Allocator)
    → All IsNode (node ∷ nodes)
    → IsSound a.buf a.last
    → IsSound (free node nodes a).0.buf (free node nodes a).0.last
      × ((f : ℕ → ℕ → ℕ)
          → stored f (free node nodes a).0 + weigh f (free node nodes a).1
            ≡ stored f a + weigh f (node ∷ nodes))
unfolding free
free-Keeps node nodes a all sound =
    let kept =
      free_nodes-Keeps a.max (node ∷ nodes)
        (record { buf = a.buf; last = a.last; current = a.current; freelist = [] }) all sound in
    (kept.sound, λ f. omega (arith, kept.weights f))
