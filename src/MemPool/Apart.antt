-- ===== src/MemPool/Apart.antt =====
-- The blocks of `Pool::palloc` and the memory around them.
use libstappler_common.Common.{
  ℕ, ◌+◌, ◌^◌, ◌≤◌, ◌<◌, ◌≡◌, refl, sym, ap, ◌∙◌, arith, false, List, [], ◌∷◌, Option, none, some,
  All, leb, ltb, u32,
}
use mathlib.Core.Path.{subst}
use mathlib.Core.Option.{some-injective, none-ne-some}
use libstappler_common.MemPool.Nodes.{MemNode, Allocator, align}
use libstappler_common.MemPool.Alloc.{alloc}
use libstappler_common.MemPool.Serve.{HasRoom, Outcome, alloc-Serves}
use libstappler_common.MemPool.Palloc.{Pool, free_space, activate, palloc_new, palloc_next, palloc}
use libstappler_common.MemPool.Bytes.{
  inside, owned, used, total, IsFilled, used-owned, free_space_lem,
}
use libstappler_common.MemPool.Blocks.{ring, IsPool, GivesApart, Block, palloc-Gives}

inside-one : (start end x : ℕ) → start ≤ x → x < end → inside start end x ≡ 1
inside-one start end x low high = ground arith

-- No byte of a block was given out before, and each is in a node of the pool: on a sound pool, for a request below
-- 4 GiB less 16 bytes, with an allocator that gives memory apart from the pool's.
pub palloc-apart :
    (malloc : ℕ → Option ℕ) (in_size mem x : ℕ) (p q : Pool)
    → IsPool p
    → in_size + 16 < 2 ^ 32
    → GivesApart malloc (align in_size 16) p
    → palloc malloc in_size p ≡ some (some mem, q)
    → mem ≤ x
    → x < mem + in_size
    → (total (used x) (ring p) ≡ 0) × (total (used x) (ring q) ≡ 1) × (total (owned x) (ring q) ≡ 1)
palloc-apart malloc in_size mem x p q pool fits apart e low high =
    let (covers, (r, t, gives, is_pool, block)) = palloc-Gives malloc in_size p pool fits apart in
    let same = some-injective {A = Option ℕ × Pool} (r, t) (some mem, q) (sym gives ∙ e) in
    let (now, given) : IsPool q × Block (align in_size 16) p (some mem) q =
      subst (λ (y : Option ℕ × Pool). IsPool y.1 × Block (align in_size 16) p y.0 y.1) same
        (is_pool, block) in
    let one = inside-one mem (mem + align in_size 16) x low (omega arith) in
    let bound = used-owned x (ring q) now.filled in
    (
      omega (arith, given x, one, bound, now.apart x),
      omega (arith, given x, one, bound, now.apart x),
      omega (arith, given x, one, bound, now.apart x),
    )

align-covers : (in_size : ℕ) → in_size + 16 < 2 ^ 64 → in_size ≤ align in_size 16
unfolding align
align-covers in_size h = omega arith

small_space : (node : MemNode) → IsFilled node → free_space node < 2 ^ 32
small_space node filled = omega (
  arith,
  free_space_lem node filled,
  filled.is_node.extent,
  filled.is_node.index_fits,
  filled.behind_head,
)

-- A node is smaller than 4 GiB.
overrun :
    (size : ℕ) (node : MemNode) (others : List MemNode) (b : Allocator) (p : Pool)
    → 2 ^ 32 ≤ size
    → HasRoom (u32 size) node
    → (activate size node others b p).1.active.endp
      < (activate size node others b p).1.active.first_avail
unfolding activate
overrun size node others b p large room =
    omega (arith, room.is_node.extent, room.is_node.index_fits, room.first)

palloc_next-large :
    (malloc : ℕ → Option ℕ) (size : ℕ) (p : Pool) (others : List MemNode)
    → 2 ^ 32 ≤ size
    → p.others ≡ others
    → All IsFilled others
    → palloc_next malloc size p ≡ palloc_new malloc size p
unfolding palloc_next palloc_new activate
palloc_next-large malloc size p [] large e all = rw (e, palloc_next) refl
palloc_next-large malloc size p (node ∷ nodes) large e all =
    let full : leb size (free_space node) ≡ false = ground (arith, small_space node all.0) in
    rw (e, full, palloc_next) refl

module _ (malloc : ℕ → Option ℕ) (size : ℕ) (p : Pool) where
  palloc_new-overrun :
      (mem : ℕ) (q : Pool) (r : Option MemNode) (b : Allocator)
      → 2 ^ 32 ≤ size
      → alloc malloc (u32 size) p.allocator ≡ some (r, b)
      → Outcome malloc (u32 size) p.allocator r b
      → palloc_new malloc size p ≡ some (some mem, q)
      → q.active.endp < q.active.first_avail
  unfolding palloc_new activate
  palloc_new-overrun mem q none b large answer outcome e =
      let gives : palloc_new malloc size p ≡ some (none, record p { allocator = b }) =
        rw (answer, palloc_new) refl in
      let same : (none, record p { allocator = b }) ≡ (some mem, q) =
        some-injective _ _ (sym gives ∙ e) in
      absurd (none-ne-some mem (ap (λ (y : Option ℕ × Pool). y.0) same))
  palloc_new-overrun mem q (some node) b large answer (room, from) e =
      let gives : palloc_new malloc size p ≡ some (activate size node p.others b p) =
        rw (answer, palloc_new) refl in
      let same : activate size node p.others b p ≡ (some mem, q) =
        some-injective _ _ (sym gives ∙ e) in
      subst (λ (y : Option ℕ × Pool). y.1.active.endp < y.1.active.first_avail) same
        (overrun size node p.others b p large room)

-- On a sound pool, where `palloc` gives a block for a request of 4 GiB or more (and less than 2 ^ 64 - 16), the
-- block ends behind the node that it is in: `alloc` takes the size as a `uint32_t`.
pub palloc-large :
    (malloc : ℕ → Option ℕ) (in_size mem : ℕ) (p q : Pool)
    → IsPool p
    → 2 ^ 32 ≤ in_size
    → in_size + 16 < 2 ^ 64
    → palloc malloc in_size p ≡ some (some mem, q)
    → q.active.endp < q.active.first_avail
unfolding palloc
palloc-large malloc in_size mem p q pool large fits e =
    let size = align in_size 16 in
    let covers = align-covers in_size fits in
    let enough : ltb size in_size ≡ false = ground arith in
    let full : leb size (free_space p.active) ≡ false =
      ground (arith, small_space p.active pool.filled.0) in
    let gives : palloc malloc in_size p ≡ palloc_next malloc size p =
      rw (enough, full, palloc) refl in
    let next = palloc_next-large malloc size p p.others (omega arith) refl pool.filled.1 in
    let (r, b, answer, sound, outcome) =
      alloc-Serves malloc (u32 size) p.allocator pool.sound (omega arith) in
    palloc_new-overrun malloc size p mem q r b (omega arith) answer outcome
      (sym next ∙ sym gives ∙ e)
