-- ===== src/MemPool/Track.antt =====
-- Which nodes a pool has after a call of `Pool::palloc`.
use libstappler_common.Common.{
  ℕ, ◌+◌, ◌≡◌, refl, sym, ap, arith, inl, inr, List, [], ◌∷◌, Option, none, some, Option-cases, leb,
  ltb, Bool-cases, u32,
}
use mathlib.Core.Path.{subst}
use libstappler_common.MemPool.Nodes.{MemNode, Allocator, align}
use libstappler_common.MemPool.Alloc.{alloc}
use libstappler_common.MemPool.Stored.{weigh}
use libstappler_common.MemPool.Palloc.{
  Pool, free_space, place_node, space_index, activate, palloc_new, palloc_next, palloc,
}
use libstappler_common.MemPool.Blocks.{ring}

-- The pool has the nodes that it had and the ones of `extra`.
abbrev pub HasAlso : List MemNode → Pool → Pool → Type 0
HasAlso extra p q = (f : ℕ → ℕ → ℕ) → weigh f (ring q) ≡ weigh f extra + weigh f (ring p)

-- The allocator was not asked, or it gave null, or it gave a node that the pool has in addition.
pub data Tracks (malloc : ℕ → Option ℕ) (size : ℕ) (p q : Pool) : Type 0 where
  alone : HasAlso [] p q → q.allocator ≡ p.allocator → Tracks malloc size p q
  refused :
      HasAlso [] p q
      → alloc malloc (u32 size) p.allocator ≡ some (none, q.allocator)
      → Tracks malloc size p q
  extended :
      (node : MemNode)
      → HasAlso (node ∷ []) p q
      → alloc malloc (u32 size) p.allocator ≡ some (some node, q.allocator)
      → Tracks malloc size p q

-- What holds of the pool of a result, if there is one.
abbrev pub OnPool : (Pool → Type 0) → Option (Option ℕ × Pool) → Type 0
OnPool P none = Unit {0}
OnPool P (some (r, q)) = P q

weigh-place_node :
    (f : ℕ → ℕ → ℕ) (free_index : ℕ) (node : MemNode) (nodes : List MemNode)
    → weigh f (place_node free_index node nodes) ≡ f node.at node.index + weigh f nodes
unfolding place_node
weigh-place_node f free_index node [] = refl
weigh-place_node f free_index node (n ∷ nodes) = elim (Bool-cases (leb n.free_index free_index)) [
  | inl y ↦ rw y refl
  | inr m ↦ rw m (omega (arith, weigh-place_node f free_index node nodes))
]

module _ (malloc : ℕ → Option ℕ) (size : ℕ) where
  -- The pool of a call, which is the same pool.
  abbrev pub Follows : Pool → Pool → Type 0
  Follows p q = Tracks malloc size p q × (q.self ≡ p.self)

  activate-HasAlso :
      (node : MemNode) (others : List MemNode) (b : Allocator) (p : Pool) (f : ℕ → ℕ → ℕ)
      → weigh f (ring (activate size node others b p).1)
        ≡ f node.at node.index + (f p.active.at p.active.index + weigh f others)
  unfolding activate
  activate-HasAlso node others b p f = omega (
    arith,
    weigh-place_node f (space_index p.active)
        (record p.active { free_index = u32 (space_index p.active) }) others,
  )

  OnPool-same :
      (p : Pool) (a b : Option (Option ℕ × Pool))
      → a ≡ b
      → OnPool (Follows p) b
      → OnPool (Follows p) a
  OnPool-same p a b e h = subst (OnPool (Follows p)) (sym e) h

  answer-Follows :
      (p : Pool) (r : Option MemNode) (b : Allocator)
      → alloc malloc (u32 size) p.allocator ≡ some (r, b)
      → OnPool (Follows p) (palloc_new malloc size p)
  unfolding palloc_new activate
  answer-Follows p none b e =
      OnPool-same p (palloc_new malloc size p) (some (none, record p { allocator = b }))
        (rw (e, palloc_new) refl) (refused (λ f. omega arith) e, refl)
  answer-Follows p (some node) b e =
      OnPool-same p (palloc_new malloc size p) (some (activate size node p.others b p))
        (rw (e, palloc_new) refl)
        (extended node (λ f. omega (arith, activate-HasAlso node p.others b p f)) e, refl)

  palloc_new-Follows : (p : Pool) → OnPool (Follows p) (palloc_new malloc size p)
  unfolding palloc_new
  palloc_new-Follows p = elim (Option-cases (alloc malloc (u32 size) p.allocator)) [
    | inl missing ↦ OnPool-same p (palloc_new malloc size p) none (rw (missing, palloc_new) refl) tt
    | inr ((r, b), e) ↦ answer-Follows p r b e
  ]

  palloc_next-Follows :
      (p : Pool) (others : List MemNode)
      → p.others ≡ others
      → OnPool (Follows p) (palloc_next malloc size p)
  unfolding palloc_next palloc_new activate
  palloc_next-Follows p [] e =
      OnPool-same p (palloc_next malloc size p) (palloc_new malloc size p)
        (rw (e, palloc_next) refl) (palloc_new-Follows p)
  palloc_next-Follows p (node ∷ nodes) e = elim (Bool-cases (leb size (free_space node))) [
    | inl y ↦
        OnPool-same p (palloc_next malloc size p) (some (activate size node nodes p.allocator p))
          (rw (e, y, palloc_next) refl)
          (
            alone (λ f. omega (arith, activate-HasAlso node nodes p.allocator p f, ap (weigh f) e))
                refl,
            refl,
          )
    | inr n ↦
        OnPool-same p (palloc_next malloc size p) (palloc_new malloc size p)
          (rw (e, n, palloc_next) refl) (palloc_new-Follows p)
  ]

pub palloc-Follows :
    (malloc : ℕ → Option ℕ) (in_size : ℕ) (p : Pool)
    → OnPool (Follows malloc (align in_size 16) p) (palloc malloc in_size p)
unfolding palloc
palloc-Follows malloc in_size p =
    let size = align in_size 16 in
    let on = OnPool-same malloc size p (palloc malloc in_size p) in
    elim (Bool-cases (ltb size in_size)) [
      | inl y ↦ on (some (none, p)) (rw (y, palloc) refl) (alone (λ f. omega arith) refl, refl)
      | inr n ↦ elim (Bool-cases (leb size (free_space p.active))) [
        | inl y ↦
            on
              (some (
                some p.active.first_avail,
                record p { active = record p.active { first_avail = p.active.first_avail + size } },
              ))
              (rw (n, y, palloc) refl) (alone (λ f. omega arith) refl, refl)
        | inr m ↦
            on (palloc_next malloc size p) (rw (n, m, palloc) refl)
              (palloc_next-Follows malloc size p p.others refl)
      ]
    ]
