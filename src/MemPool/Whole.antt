-- ===== src/MemPool/Whole.antt =====
-- A pool and its nodes, as the allocator sees them.
use libstappler_common.Common.{
  ℕ, ◌+◌, ◌-◌, ◌^◌, ◌≤◌, ◌<◌, ◌≡◌, refl, sym, ap, ◌∙◌, arith, List, [], ◌∷◌, Option, none, some,
  u32,
}
use mathlib.Core.Path.{subst}
use mathlib.Core.Option.{some-injective, none-ne-some}
use libstappler_common.MemPool.Nodes.{
  MemNode, Allocator, create_allocator, min_alloc, sizeof_memnode, align,
}
use libstappler_common.MemPool.Alloc.{alloc}
use libstappler_common.MemPool.Stored.{weigh}
use libstappler_common.MemPool.Sound.{IsSound, create_allocator-IsSound}
use libstappler_common.MemPool.Serve.{HasRoom, Outcome, alloc-Serves}
use libstappler_common.MemPool.Life.{
  at_address, at_address-here, GivesNew, Reachable, allocated, Reachable.refused,
}
use libstappler_common.MemPool.Palloc.{Pool, create_pool, sizeof_pool, palloc}
use libstappler_common.MemPool.Bytes.{inside}
use libstappler_common.MemPool.Blocks.{ring, IsPool, GivesApart, align-covers, palloc-Gives}
use libstappler_common.MemPool.Track.{
  Tracks, alone, Tracks.refused, extended, Follows, OnPool, palloc-Follows,
}

-- What a pool on an allocator of its own has: the allocator's callers hold just its nodes, one of which is its own.
pub record IsWhole (p : Pool) : Type 0 where
  pub pool : IsPool p
  pub held : List MemNode
  pub reachable : Reachable p.allocator held
  pub holds : (f : ℕ → ℕ → ℕ) → weigh f held ≡ weigh f (ring p)
  pub own : 1 ≤ weigh (at_address p.self) (ring p)

abbrev request : ℕ
request = min_alloc - sizeof_memnode

-- A pool in a new node.
abbrev made : MemNode → Allocator → Pool
made node b = record {
  active = record node { first_avail = node.first_avail + sizeof_pool };
  others = [];
  self = node.at;
  self_first_avail = node.first_avail + sizeof_pool;
  allocator = b;
}

inside-at_most : (start end x : ℕ) → inside start end x ≤ 1
inside-at_most start end x = ground arith

GivesNew-create_allocator : (malloc : ℕ → Option ℕ) → GivesNew malloc create_allocator []
unfolding create_allocator
GivesNew-create_allocator malloc size x got = omega arith

made-IsWhole :
    (malloc : ℕ → Option ℕ) (node : MemNode) (b : Allocator)
    → alloc malloc request create_allocator ≡ some (some node, b)
    → IsSound b.buf b.last
    → HasRoom request node
    → IsWhole (made node b)
made-IsWhole malloc node b e sound room = record {
  pool = record {
    filled = (
      record {
        is_node = record {
          at_least = room.is_node.at_least;
          index_fits = room.is_node.index_fits;
          extent = room.is_node.extent;
        };
        behind_head = omega (arith, room.first);
        in_front = omega (arith, room.room);
      },
      tt,
    );
    apart = λ x. omega (arith, inside-at_most node.at node.endp x);
    ordered = record { indexed = tt; descending = tt };
    sound = sound;
  };
  held = node ∷ [];
  reachable =
      allocated malloc request node Reachable.created (omega arith)
        (GivesNew-create_allocator malloc) e;
  holds = λ f. refl;
  own = omega (arith, at_address-here node.at node.at node.index (ground arith));
}

answer-IsWhole :
    (malloc : ℕ → Option ℕ) (p : Pool) (r : Option MemNode) (b : Allocator)
    → alloc malloc request create_allocator ≡ some (r, b)
    → IsSound b.buf b.last
    → Outcome malloc request create_allocator r b
    → create_pool malloc create_allocator ≡ some p
    → IsWhole p
unfolding create_pool
answer-IsWhole malloc p none b answer sound outcome e =
    let gives : create_pool malloc create_allocator ≡ none = rw (answer, create_pool) refl in
    absurd (none-ne-some p (sym gives ∙ e))
answer-IsWhole malloc p (some node) b answer sound (room, from) e =
    let gives : create_pool malloc create_allocator ≡ some (made node b) =
      rw (answer, create_pool) refl in
    subst IsWhole (some-injective (made node b) p (sym gives ∙ e))
      (made-IsWhole malloc node b answer sound room)

pub created-IsWhole :
    (malloc : ℕ → Option ℕ) (p : Pool) → create_pool malloc create_allocator ≡ some p → IsWhole p
created-IsWhole malloc p e =
    let (r, b, answer, sound, outcome) =
      alloc-Serves malloc request create_allocator create_allocator-IsSound (omega arith) in
    answer-IsWhole malloc p r b answer sound outcome e

requested-IsWhole :
    (malloc : ℕ → Option ℕ) (size : ℕ) (p q : Pool)
    → size < 2 ^ 32
    → GivesNew malloc p.allocator (ring p)
    → IsWhole p
    → IsPool q
    → Tracks malloc size p q
    → q.self ≡ p.self
    → IsWhole q
requested-IsWhole malloc size p q fits new whole pool (alone same e) own = record {
  pool = pool;
  held = whole.held;
  reachable = subst (λ (a : Allocator). Reachable a whole.held) (sym e) whole.reachable;
  holds = λ f. omega (arith, whole.holds f, same f);
  own = omega (
    arith,
    whole.own,
    same (at_address p.self),
    ap (λ (s : ℕ). weigh (at_address s) (ring q)) own,
  );
}
requested-IsWhole malloc size p q fits new whole pool (refused same e) own = record {
  pool = pool;
  held = whole.held;
  reachable = refused malloc (u32 size) whole.reachable (omega arith) e;
  holds = λ f. omega (arith, whole.holds f, same f);
  own = omega (
    arith,
    whole.own,
    same (at_address p.self),
    ap (λ (s : ℕ). weigh (at_address s) (ring q)) own,
  );
}
requested-IsWhole malloc size p q fits new whole pool (extended node same e) own = record {
  pool = pool;
  held = node ∷ whole.held;
  reachable =
      allocated malloc (u32 size) node whole.reachable (omega arith)
        (λ s x got. omega (arith, new s x got, whole.holds (at_address x))) e;
  holds = λ f. omega (arith, whole.holds f, same f);
  own = omega (
    arith,
    whole.own,
    same (at_address p.self),
    ap (λ (s : ℕ). weigh (at_address s) (ring q)) own,
  );
}

-- The pool after a call is sound, and `palloc` tells where its nodes come from.
pub palloc-IsWhole :
    (malloc : ℕ → Option ℕ) (in_size : ℕ) (p q : Pool) (r : Option ℕ)
    → IsWhole p
    → in_size + 16 < 2 ^ 32
    → GivesNew malloc p.allocator (ring p)
    → GivesApart malloc (align in_size 16) p
    → palloc malloc in_size p ≡ some (r, q)
    → IsWhole q
palloc-IsWhole malloc in_size p q r whole fits new apart e =
    let (covers, (got, t, gives, pool, block)) =
      palloc-Gives malloc in_size p whole.pool fits apart in
    let same : (got, t) ≡ (r, q) = some-injective (got, t) (r, q) (sym gives ∙ e) in
    let (tracks, own) =
      subst (OnPool (Follows malloc (align in_size 16) p)) e (palloc-Follows malloc in_size p) in
    requested-IsWhole malloc (align in_size 16) p q (align-covers in_size fits).1 new whole
      (subst (λ (y : Option ℕ × Pool). IsPool y.1) same pool) tracks own
