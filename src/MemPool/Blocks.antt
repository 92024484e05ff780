-- ===== src/MemPool/Blocks.antt =====
-- What a call of `Pool::palloc` gives.
use libstappler_common.Common.{
  ℕ, ◌+◌, ◌^◌, ◌≤◌, ◌<◌, ◌≡◌, refl, sym, ap, arith, inl, inr, false, List, [], ◌∷◌, Option, none,
  some, All, leb, ltb, Bool-cases, u32,
}
use mathlib.Core.Path.{subst}
use libstappler_common.MemPool.Nodes.{MemNode, Allocator, align}
use libstappler_common.MemPool.Alloc.{alloc}
use libstappler_common.MemPool.Sound.{IsSound}
use libstappler_common.MemPool.Serve.{Outcome, alloc-Serves}
use libstappler_common.MemPool.Palloc.{
  Pool, free_space, space_index, activate, palloc_new, palloc_next, palloc,
}
use libstappler_common.MemPool.Bytes.{
  inside, owned, used, total, IsFilled, total-place_node, All-place_node, free_space_lem,
  used-grown, used-new,
}
use libstappler_common.MemPool.RingOrder.{IsRing, IsRing-tail, place_node-IsRing}

abbrev pub ring : Pool → List MemNode
ring p = p.active ∷ p.others

-- The nodes are filled up to `first_avail`, no two of them share a byte, those behind the active one are in order,
-- and the allocator is sound.
pub record IsPool (p : Pool) : Type 0 where
  pub filled : All IsFilled (ring p)
  pub apart : (x : ℕ) → total (owned x) (ring p) ≤ 1
  pub ordered : IsRing p.others
  pub sound : IsSound p.allocator.buf p.allocator.last

-- A node that the allocator gives shares no byte with the ones that the pool has.
abbrev pub GivesApart : (ℕ → Option ℕ) → ℕ → Pool → Type 0
GivesApart malloc size p =
    (node : MemNode) (b : Allocator)
    → alloc malloc size p.allocator ≡ some (some node, b)
    → (x : ℕ) → owned x node + total (owned x) (ring p) ≤ 1

-- The block at the result is given out in addition to what was given out before.
abbrev pub Block : ℕ → Pool → Option ℕ → Pool → Type 0
Block size p none q = ring q ≡ ring p
Block size p (some mem) q =
    (x : ℕ) → total (used x) (ring q) ≡ total (used x) (ring p) + inside mem (mem + size) x

abbrev pub Gives : ℕ → Pool → Option (Option ℕ × Pool) → Type 0
Gives size p result =
    (r : Option ℕ) × (q : Pool) × (result ≡ some (r, q)) × IsPool q × Block size p r q

reindexed : (node : MemNode) (i : ℕ) → IsFilled node → IsFilled (record node { free_index = i })
reindexed node i filled = record {
  is_node = record {
    at_least = filled.is_node.at_least;
    index_fits = filled.is_node.index_fits;
    extent = filled.is_node.extent;
  };
  behind_head = filled.behind_head;
  in_front = filled.in_front;
}

-- A node with the block at its `first_avail`.
grown :
    (node : MemNode) (size i : ℕ)
    → IsFilled node
    → node.first_avail + size ≤ node.endp
    → IsFilled (record node { free_index = i; first_avail = node.first_avail + size })
grown node size i filled room = record {
  is_node = record {
    at_least = filled.is_node.at_least;
    index_fits = filled.is_node.index_fits;
    extent = filled.is_node.extent;
  };
  behind_head = omega (arith, filled.behind_head);
  in_front = room;
}

module _ (size : ℕ) (p : Pool) (pool : IsPool p) where
  from_active :
      p.active.first_avail + size ≤ p.active.endp
      → Gives size p (
          some (
            some p.active.first_avail,
            record p { active = record p.active { first_avail = p.active.first_avail + size } },
          ))
  from_active room = (
    _,
    _,
    refl,
    record {
      filled = (grown p.active size p.active.free_index pool.filled.0 room, pool.filled.1);
      apart = pool.apart;
      ordered = pool.ordered;
      sound = pool.sound;
    },
    λ x. omega (arith, used-grown x size p.active pool.filled.0.behind_head),
  )

  -- `node` and `others` are the ring behind the active node, or `node` is new.
  from_node :
      (node : MemNode) (others : List MemNode) (allocator : Allocator)
      → IsFilled node
      → All IsFilled others
      → IsRing others
      → node.first_avail + size ≤ node.endp
      → IsSound allocator.buf allocator.last
      → ((x : ℕ) → owned x node + (owned x p.active + total (owned x) others) ≤ 1)
      → ((x : ℕ) → used x node + total (used x) others ≡ total (used x) p.others)
      → Gives size p (some (activate size node others allocator p))
  unfolding activate
  from_node node others allocator filled all ordered room sound apart parts = (
    _,
    _,
    refl,
    record {
      filled = (
        grown node size 0 filled room,
        All-place_node (space_index p.active) _ others
            (reindexed p.active (u32 (space_index p.active)) pool.filled.0) all,
      );
      apart = λ x. omega (
        arith,
        apart x,
        total-place_node (owned x) (space_index p.active)
            (record p.active { free_index = u32 (space_index p.active) }) others,
      );
      ordered = place_node-IsRing p.active others pool.filled.0 ordered;
      sound = sound;
    },
    λ x. omega (
      arith,
      parts x,
      used-grown x size node filled.behind_head,
      total-place_node (used x) (space_index p.active)
          (record p.active { free_index = u32 (space_index p.active) }) others,
    ),
  )

  from_answer :
      (malloc : ℕ → Option ℕ) (r : Option MemNode) (b : Allocator)
      → size < 2 ^ 32
      → GivesApart malloc size p
      → alloc malloc size p.allocator ≡ some (r, b)
      → u32 size ≡ size
      → IsSound b.buf b.last
      → Outcome malloc size p.allocator r b
      → Gives size p (palloc_new malloc size p)
  unfolding palloc_new
  from_answer malloc none b fits apart e cut sound outcome = (
    none,
    record p { allocator = b },
    rw (cut, e, palloc_new) refl,
    record { filled = pool.filled; apart = pool.apart; ordered = pool.ordered; sound = sound },
    refl,
  )
  from_answer malloc (some node) b fits apart e cut sound (room, from) =
      let gives : palloc_new malloc size p ≡ some (activate size node p.others b p) =
        rw (cut, e, palloc_new) refl in
      subst (Gives size p) (sym gives) (
        from_node node p.others b
          (record {
            is_node = room.is_node;
            behind_head = omega (arith, room.first);
            in_front = omega (arith, room.room);
          })
          pool.filled.1 pool.ordered room.room sound (apart node b e)
          (λ x. omega (arith, used-new x node room.first)))

  from_allocator :
      (malloc : ℕ → Option ℕ)
      → size < 2 ^ 32
      → GivesApart malloc size p
      → Gives size p (palloc_new malloc size p)
  from_allocator malloc fits apart =
      let (r, b, e, sound, outcome) = alloc-Serves malloc size p.allocator pool.sound fits in
      from_answer malloc r b fits apart e (omega arith) sound outcome

module _ (size : ℕ) (malloc : ℕ → Option ℕ) where
  from_next :
      (p : Pool) (others : List MemNode)
      → p.others ≡ others
      → IsPool p
      → size < 2 ^ 32
      → GivesApart malloc size p
      → Gives size p (palloc_next malloc size p)
  unfolding palloc_next palloc_new activate
  from_next p [] e pool fits apart =
      let gives : palloc_next malloc size p ≡ palloc_new malloc size p = rw (e, palloc_next) refl in
      subst (Gives size p) (sym gives) (from_allocator size p pool malloc fits apart)
  from_next p (node ∷ nodes) e pool fits apart =
      let all : All IsFilled (node ∷ nodes) = subst (All IsFilled) e pool.filled.1 in
      elim (Bool-cases (leb size (free_space node))) [
        | inl y ↦
            let gives : palloc_next malloc size p ≡ some (activate size node nodes p.allocator p) =
              rw (e, y, palloc_next) refl in
            subst (Gives size p) (sym gives) (
              from_node size p pool node nodes p.allocator all.0 all.1
                (IsRing-tail node nodes (subst IsRing e pool.ordered))
                (ground (arith, free_space_lem node all.0)) pool.sound
                (λ x. omega (arith, pool.apart x, ap (total (owned x)) e))
                (λ x. omega (arith, ap (total (used x)) e)))
        | inr n ↦
            let gives : palloc_next malloc size p ≡ palloc_new malloc size p =
              rw (e, n, palloc_next) refl in
            subst (Gives size p) (sym gives) (from_allocator size p pool malloc fits apart)
      ]

pub align-covers :
    (in_size : ℕ)
    → in_size + 16 < 2 ^ 32
    → (in_size ≤ align in_size 16) × (align in_size 16 < 2 ^ 32)
unfolding align
align-covers in_size h = (omega arith, omega arith)

-- On a sound pool, for a request below 4 GiB less 16 bytes and with an allocator that gives memory apart from the
-- pool's, `palloc` keeps the pool sound and gives null and the same ring, or a block of at least that size inside
-- the pool's nodes: what was given out before, and only that, stays given out beside the block.
pub palloc-Gives :
    (malloc : ℕ → Option ℕ) (in_size : ℕ) (p : Pool)
    → IsPool p
    → in_size + 16 < 2 ^ 32
    → GivesApart malloc (align in_size 16) p
    → (in_size ≤ align in_size 16) × Gives (align in_size 16) p (palloc malloc in_size p)
unfolding palloc
palloc-Gives malloc in_size p pool fits apart =
    let size = align in_size 16 in
    let (covers, small) = align-covers in_size fits in
    let large : ltb size in_size ≡ false = ground arith in
    (
      covers,
      elim (Bool-cases (leb size (free_space p.active))) [
        | inl y ↦
            let gives : palloc malloc in_size p
                ≡ some (
                  some p.active.first_avail,
                  record p {
                    active = record p.active { first_avail = p.active.first_avail + size };
                  },
                ) =
              rw (large, y, palloc) refl in
            subst (Gives size p) (sym gives)
              (from_active size p pool (ground (arith, free_space_lem p.active pool.filled.0)))
        | inr n ↦
            let gives : palloc malloc in_size p ≡ palloc_next malloc size p =
              rw (large, n, palloc) refl in
            subst (Gives size p) (sym gives)
              (from_next size malloc p p.others refl pool small apart)
      ],
    )
