-- ===== src/MemPool/Limit.antt =====
-- Runs of `alloc` and `free` under a limit, and what `set_max` does to the limit.
use libstappler_common.Common.{
  ℕ, ◌^◌, ◌≤◌, ◌<◌, ◌≡◌, ◌≢◌, refl, sym, ◌∙◌, arith, List, ◌∷◌, Option, some, All,
}
use libstappler_common.MemPool.Nodes.{MemNode, Allocator, align}
use libstappler_common.MemPool.Alloc.{set_max, alloc}
use libstappler_common.MemPool.Free.{free}
use libstappler_common.MemPool.Stored.{stored}
use libstappler_common.MemPool.Sound.{IsNode, IsSound}
use libstappler_common.MemPool.Serve.{Outcome-max, served}
use libstappler_common.MemPool.Keep.{free-Keeps}
use libstappler_common.MemPool.Quota.{units, IsWithin, Outcome-IsWithin, free-IsWithin}

-- `Used a b`: calls of `alloc` and `free` lead from `a` to `b`.
pub data Used (a : Allocator) : Allocator → Type 0 where
  unused : Used a a
  allocated :
      {b c : Allocator} (malloc : ℕ → Option ℕ) (in_size : ℕ) (r : Option MemNode)
      → Used a b
      → in_size < 2 ^ 32
      → alloc malloc in_size b ≡ some (r, c)
      → Used a c
  freed :
      {b : Allocator} (node : MemNode) (nodes : List MemNode)
      → Used a b
      → All IsNode (node ∷ nodes)
      → Used a (free node nodes b).0

module _ (a : Allocator) (max : ℕ) where
  abbrev Limited : Allocator → Type 0
  Limited b = IsSound b.buf b.last × IsWithin b × (b.max ≡ max)

  Used-Limited : (b : Allocator) → Limited a → Used a b → Limited b
  unfolding free
  Used-Limited _ start unused = start
  Used-Limited c start (allocated {b} malloc in_size r used fits e) =
      let (sound, within, same) = Used-Limited b start used in
      let (still, outcome) = served malloc in_size b c r sound fits e in
      (
        still,
        Outcome-IsWithin malloc in_size b r c outcome within,
        Outcome-max malloc in_size b r c outcome ∙ same,
      )
  Used-Limited _ start (freed {b} node nodes used all) =
      let (sound, within, same) = Used-Limited b start used in
      ((free-Keeps node nodes b all sound).0, free-IsWithin node nodes b all within, same)

-- With a limit on an allocator that is sound and in balance, no run of `alloc` and `free` makes it keep more
-- memory than the limit.
pub stored-Used :
    (a b : Allocator)
    → IsSound a.buf a.last
    → IsWithin a
    → a.max ≢ 0
    → Used a b
    → stored units b ≤ a.max
stored-Used a b sound within limited used =
    let (still, kept, same) = Used-Limited a a.max b (sound, within, refl) used in
    omega (arith, kept.balance (λ z. limited (sym same ∙ z)))

-- On an allocator in balance with a limit, a new limit below what it keeps gives it the whole new limit once more:
-- `current` wraps below zero and is cut down to `max`.
pub set_max-below :
    (size : ℕ) (a : Allocator)
    → size < 2 ^ 32
    → IsWithin a
    → a.max ≢ 0
    → (set_max size a).max < stored units a
    → ((set_max size a).current ≡ (set_max size a).max)
      × (stored units (set_max size a) ≡ stored units a)
unfolding set_max align
set_max-below size a fits within limited below =
    (ground (arith, within.max_fits, within.balance limited), refl)
