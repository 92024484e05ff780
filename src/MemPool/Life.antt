-- ===== src/MemPool/Life.antt =====
-- The states of an allocator together with the nodes that its callers hold.
use libstappler_common.Common.{
  ℕ, ◌+◌, ◌^◌, ◌≤◌, ◌<◌, ◌≡◌, refl, sym, ap, ◌∙◌, arith, inl, inr, true, false, List, [], ◌∷◌,
  Option, none, some, All, ◌==◌, ==_iff, if◌then◌else◌, Bool-cases, u64,
}
use mathlib.Core.Path.{subst}
use libstappler_common.MemPool.Nodes.{MemNode, Allocator, create_allocator}
use libstappler_common.MemPool.Alloc.{credit, set_max, alloc}
use libstappler_common.MemPool.Free.{Freeing, free_nodes, free, destroy_allocator}
use libstappler_common.MemPool.Stored.{stored, weigh}
use libstappler_common.MemPool.Sound.{IsNode, IsSound, create_allocator-IsSound}
use libstappler_common.MemPool.Serve.{Outcome, served}
use libstappler_common.MemPool.Keep.{free-Keeps}
use libstappler_common.MemPool.Account.{
  bytes, Belongs-All, release_lem, free_nodes-freelist, destroy_lem,
}

-- One for a node at the address.
abbrev pub at_address : ℕ → ℕ → ℕ → ℕ
at_address p at index = if at == p then 1 else 0

-- `malloc` gives no address of a node that the allocator or a caller has.
abbrev pub GivesNew : (ℕ → Option ℕ) → Allocator → List MemNode → Type 0
GivesNew malloc a held =
    (size p : ℕ) → malloc size ≡ some p → stored (at_address p) a + weigh (at_address p) held ≡ 0

-- `Reachable a held`: calls lead to the allocator `a` while its callers hold the nodes `held`.
pub data Reachable : Allocator → List MemNode → Type 0 where
  created : Reachable create_allocator []
  limited :
      {a : Allocator} {held : List MemNode} (size : ℕ)
      → Reachable a held
      → Reachable (set_max size a) held
  allocated :
      {a b : Allocator} {held : List MemNode} (malloc : ℕ → Option ℕ) (in_size : ℕ) (node : MemNode)
      → Reachable a held
      → in_size < 2 ^ 32
      → GivesNew malloc a held
      → alloc malloc in_size a ≡ some (some node, b)
      → Reachable b (node ∷ held)
  refused :
      {a b : Allocator} {held : List MemNode} (malloc : ℕ → Option ℕ) (in_size : ℕ)
      → Reachable a held
      → in_size < 2 ^ 32
      → alloc malloc in_size a ≡ some (none, b)
      → Reachable b held
  -- A chain of held nodes comes back, and `rest` are the others.
  freed :
      {a : Allocator} {held : List MemNode} (node : MemNode) (nodes rest : List MemNode)
      → Reachable a held
      → All IsNode (node ∷ nodes)
      → ((f : ℕ → ℕ → ℕ) → weigh f held ≡ weigh f (node ∷ nodes) + weigh f rest)
      → Reachable (free node nodes a).0 rest

pub record IsLive (a : Allocator) (held : List MemNode) : Type 0 where
  pub sound : IsSound a.buf a.last
  pub counted : a.allocated ≡ u64 (stored bytes a + weigh bytes held)
  pub distinct : (p : ℕ) → stored (at_address p) a + weigh (at_address p) held ≤ 1

pub at_address-here : (p at index : ℕ) → (at == p) ≡ true → at_address p at index ≡ 1
at_address-here p at index h = rw h refl

at_address-elsewhere : (p at index : ℕ) → (at == p) ≡ false → at_address p at index ≡ 0
at_address-elsewhere p at index h = rw h refl

set_max-IsLive :
    (size : ℕ) (a : Allocator) (held : List MemNode) → IsLive a held → IsLive (set_max size a) held
unfolding set_max
set_max-IsLive size a held live = record {
  sound = live.sound;
  counted = live.counted;
  distinct = live.distinct;
}

Outcome-IsLive :
    (malloc : ℕ → Option ℕ) (in_size : ℕ) (a b : Allocator) (held : List MemNode) (node : MemNode)
    → IsLive a held
    → GivesNew malloc a held
    → IsSound b.buf b.last
    → Outcome malloc in_size a (some node) b
    → IsLive b (node ∷ held)
unfolding credit
Outcome-IsLive malloc in_size a b held node live new sound (room, inl (weights, buf, last, e)) =
    record {
      sound = sound;
      counted = omega (arith, live.counted, weights bytes, ap (λ (x : Allocator). x.allocated) e);
      distinct = λ p. omega (arith, live.distinct p, weights (at_address p));
    }
Outcome-IsLive malloc in_size a b held node live new sound (room, inr (got, e)) = record {
  sound = sound;
  counted = omega (
    arith,
    live.counted,
    ap (λ (x : Allocator). x.allocated) e,
    ap (λ (x : Allocator). stored bytes x) e,
  );
  distinct = λ p.
      let kept : stored (at_address p) b ≡ stored (at_address p) a =
        ap (λ (x : Allocator). stored (at_address p) x) e in
      elim (Bool-cases (node.at == p)) [
        | inl y ↦
            let same : node.at ≡ p = (==_iff node.at p).0 y in
            omega
              (arith, kept, at_address-here p node.at node.index y, new _ p (got ∙ ap some same))
        | inr n ↦ omega (arith, kept, live.distinct p, at_address-elsewhere p node.at node.index n)
      ];
}

free-IsLive :
    (a : Allocator) (held : List MemNode) (node : MemNode) (nodes rest : List MemNode)
    → IsLive a held
    → All IsNode (node ∷ nodes)
    → ((f : ℕ → ℕ → ℕ) → weigh f held ≡ weigh f (node ∷ nodes) + weigh f rest)
    → IsLive (free node nodes a).0 rest
unfolding free
free-IsLive a held node nodes rest live all split =
    let start : Freeing = record {
      buf = a.buf;
      last = a.last;
      current = a.current;
      freelist = [];
    } in
    let (sound, weights) = free-Keeps node nodes a all live.sound in
    record {
      sound = sound;
      counted =
          release_lem (free_nodes a.max (node ∷ nodes) start).freelist a.allocated
            (stored bytes (free node nodes a).0 + weigh bytes rest)
            (free_nodes-freelist a.max (node ∷ nodes) start all tt)
            (omega (arith, live.counted, split bytes, weights bytes));
      distinct = λ p. omega (arith, live.distinct p, split (at_address p), weights (at_address p));
    }

pub Reachable-IsLive : (a : Allocator) (held : List MemNode) → Reachable a held → IsLive a held
unfolding create_allocator
Reachable-IsLive _ _ created = record {
  sound = create_allocator-IsSound;
  counted = omega arith;
  distinct = λ p. omega arith;
}
Reachable-IsLive _ _ (limited size r) = set_max-IsLive size _ _ (Reachable-IsLive _ _ r)
Reachable-IsLive b _ (allocated {a = a} {held = held} malloc in_size node r fits new e) =
    let live = Reachable-IsLive a held r in
    let (sound, outcome) = served malloc in_size a b (some node) live.sound fits e in
    Outcome-IsLive malloc in_size a b held node live new sound outcome
Reachable-IsLive b held (refused {a} malloc in_size r fits e) =
    let live = Reachable-IsLive a held r in
    let (sound, same) = served malloc in_size a b none live.sound fits e in
    subst (λ (x : Allocator). IsLive x held) (sym same) live
Reachable-IsLive _ _ (freed {a} {held} node nodes rest r all split) =
    free-IsLive a held node nodes rest (Reachable-IsLive a held r) all split

module _ (a b : Allocator) (held : List MemNode) where
  -- In every reachable state a node that `alloc` returns is none that a caller still holds and is no longer in a
  -- free list, provided that `malloc` gives no address that is in use.
  pub alloc-distinct :
      (malloc : ℕ → Option ℕ) (in_size : ℕ) (node : MemNode)
      → Reachable a held
      → in_size < 2 ^ 32
      → GivesNew malloc a held
      → alloc malloc in_size a ≡ some (some node, b)
      → stored (at_address node.at) b + weigh (at_address node.at) held ≡ 0
  alloc-distinct malloc in_size node reachable fits new e =
      let live =
        Reachable-IsLive b (node ∷ held) (allocated malloc in_size node reachable fits new e) in
      ground (arith, live.distinct node.at)

-- After any calls that leave no node with a caller, the destructor has given all memory back: `allocated` is 0
-- in the end.
pub destroy_allocator-Reachable : (a : Allocator) → Reachable a [] → destroy_allocator a ≡ 0
destroy_allocator-Reachable a reachable =
    let live = Reachable-IsLive a [] reachable in
    destroy_lem a (λ q h. Belongs-All q (a.buf q) (live.sound.belong q h))
      (omega (arith, live.counted))
