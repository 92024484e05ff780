-- ===== src/MemPool/Serve.antt =====
-- What a call of `Allocator::alloc` gives.
use libstappler_common.Common.{
  ℕ, ◌+◌, ◌-◌, ◌*◌, ◌/◌, ◌^◌, ◌≤◌, ◌<◌, ◌≡◌, ◌≢◌, refl, sym, ap, ◌∙◌, arith, ◌⊎◌, inl, inr, false,
  List, [], ◌∷◌, Option, none, some, Option-cases, leb, ltb, Bool-cases, u64,
}
use mathlib.Core.Path.{subst}
use mathlib.Core.Option.{some-injective}
use libstappler_common.MemPool.Nodes.{
  MemNode, Allocator, max_index, set_bucket, boundary_size, sizeof_memnode,
}
use libstappler_common.MemPool.Alloc.{credit, reset_node, new_node, take_bucket, alloc_index, alloc}
use libstappler_common.MemPool.Stored.{stored, weigh, weigh_below, weigh_below-set_bucket}
use libstappler_common.MemPool.Size.{IsNodeSize, node_size-cases}
use libstappler_common.MemPool.Sound.{
  IsNode, Belongs-IsNode, Belongs-index, IsSound, set_bucket-IsSound_sink,
}
use libstappler_common.MemPool.Search.{find_bucket-IsFirst, bucket-in}
use libstappler_common.MemPool.Take.{taken-belong, take_bucket_lem, Split, split_sink_lem}

-- A kept node is used again: it is no longer stored, all other nodes are, and `current` grows by its size.
abbrev pub Reused : MemNode → Allocator → Allocator → Type 0
Reused node a b =
    ((f : ℕ → ℕ → ℕ) → stored f a ≡ f node.at node.index + stored f b)
    × (buf : ℕ → List MemNode) × (last : ℕ) × (b
        ≡ credit node.index (record a { buf = buf; last = last }))

-- The node comes from `malloc`, and the allocator counts its size.
abbrev pub Fresh : (ℕ → Option ℕ) → MemNode → Allocator → Allocator → Type 0
Fresh malloc node a b =
    (malloc ((node.index + 1) * boundary_size) ≡ some node.at)
    × (b ≡ record a { allocated = u64 (a.allocated + (node.index + 1) * boundary_size) })

-- The request fits between `first_avail`, which is behind the node's head, and the end.
pub record HasRoom (in_size : ℕ) (node : MemNode) : Type 0 where
  pub is_node : IsNode node
  pub first : node.first_avail ≡ node.at + sizeof_memnode
  pub room : node.first_avail + in_size ≤ node.endp

abbrev pub Outcome : (ℕ → Option ℕ) → ℕ → Allocator → Option MemNode → Allocator → Type 0
Outcome malloc in_size a none b = b ≡ a
Outcome malloc in_size a (some node) b =
    HasRoom in_size node × (Reused node a b ⊎ Fresh malloc node a b)

reset_node-HasRoom :
    (in_size index size : ℕ) (node : MemNode)
    → IsNodeSize in_size index size
    → IsNode node
    → index ≤ node.index
    → HasRoom in_size (reset_node node)
reset_node-HasRoom in_size index size node fits is_node large = record {
  is_node = record {
    at_least = is_node.at_least;
    index_fits = is_node.index_fits;
    extent = is_node.extent;
  };
  first = refl;
  room = omega (arith, fits.whole, fits.room, is_node.extent);
}

-- The sums without the node that was taken out of a bucket.
set_bucket-taken :
    (buf : ℕ → List MemNode) (i : ℕ) (node : MemNode) (rest : List MemNode)
    → i < max_index
    → ((f : ℕ → ℕ → ℕ) → weigh f (buf i) ≡ f node.at node.index + weigh f rest)
    → (f : ℕ → ℕ → ℕ)
    → weigh_below f max_index buf
      ≡ f node.at node.index + weigh_below f max_index (set_bucket buf i rest)
set_bucket-taken buf i node rest fits weights f =
    omega (arith, weigh_below-set_bucket f max_index i buf rest fits, weights f)

module _ (malloc : ℕ → Option ℕ) (in_size : ℕ) (a : Allocator) where
  abbrev pub Serves : Option (Option MemNode × Allocator) → Type 0
  Serves result =
      (r : Option MemNode) × (b : Allocator) × (result ≡ some (r, b))
      × IsSound b.buf b.last
      × Outcome malloc in_size a r b

  new_node_lem :
      (index size : ℕ)
      → IsNodeSize in_size index size
      → IsSound a.buf a.last
      → Serves (new_node malloc size index a)
  unfolding new_node
  new_node_lem index size fits sound = elim (Option-cases (malloc size)) [
    | inl missing ↦ (none, a, rw (missing, new_node) refl, sound, refl)
    | inr (at, e) ↦ (
      some (record {
        at = at;
        index = index;
        free_index = 0;
        first_avail = at + sizeof_memnode;
        endp = at + size;
      }),
      record a { allocated = u64 (a.allocated + size) },
      rw (e, new_node) refl,
      sound,
      (
        record {
          is_node = record {
            at_least = fits.at_least;
            index_fits = fits.index_fits;
            extent = omega (arith, fits.whole);
          };
          first = refl;
          room = omega (arith, fits.room);
        },
        inr (
          ap malloc (sym fits.whole) ∙ e,
          ap (λ (t : ℕ). record a { allocated = u64 (a.allocated + t) }) fits.whole,
        ),
      ),
    )
  ]

  from_bucket :
      (index size i : ℕ) (node : MemNode) (rest : List MemNode)
      → IsNodeSize in_size index size
      → IsSound a.buf a.last
      → index ≤ i
      → i ≤ a.last
      → a.buf i ≡ node ∷ rest
      → Serves (take_bucket i node rest a)
  unfolding credit
  from_bucket index size i node rest fits sound large below filled =
      let (last, e, still) =
        take_bucket_lem i node rest a sound (omega (arith, fits.at_least)) below filled in
      let belongs =
        taken-belong a.buf i node rest sound.belong (omega (arith, sound.last_fits)) filled in
      (
        some (reset_node node),
        credit node.index (record a { buf = set_bucket a.buf i rest; last = last }),
        e,
        still,
        (
          reset_node-HasRoom in_size index size node fits (Belongs-IsNode i node belongs)
              (Belongs-index i index node belongs large),
          inl (
            λ f.
                set_bucket-taken a.buf i node rest (omega (arith, sound.last_fits))
                  (λ g. ap (weigh g) filled) f,
            set_bucket a.buf i rest,
            last,
            refl,
          ),
        ),
      )

  from_sink :
      (index size : ℕ)
      → IsNodeSize in_size index size
      → IsSound a.buf a.last
      → leb index a.last ≡ false
      → Split index (a.buf 0)
      → Serves (alloc_index malloc size index a)
  unfolding alloc_index credit
  from_sink index size fits sound over (node, others, e, large, belongs, belong, weights) = (
    some (reset_node node),
    credit node.index (record a { buf = set_bucket a.buf 0 others }),
    rw (over, e) refl,
    set_bucket-IsSound_sink a.buf a.last others belong sound,
    (
      reset_node-HasRoom in_size index size node fits belongs.0 large,
      inl (
        λ f. set_bucket-taken a.buf 0 node others (omega arith) weights f,
        set_bucket a.buf 0 others,
        a.last,
        refl,
      ),
    ),
  )

  alloc_index_lem :
      (index size : ℕ)
      → IsNodeSize in_size index size
      → IsSound a.buf a.last
      → Serves (alloc_index malloc size index a)
  unfolding alloc_index
  alloc_index_lem index size fits sound = elim (Bool-cases (leb index a.last)) [
    | inl y ↦
        let top_filled : a.buf a.last ≢ [] = elim sound.top [
          | inl z ↦ absurd (ground (arith, fits.at_least))
          | inr top ↦ top
        ] in
        let e : index + (a.last - index) ≡ a.last = ground arith in
        let (i, node, rest, found, below, first) =
          find_bucket-IsFirst (a.last - index) index a.buf (omega (arith, sound.last_fits))
            (rw e top_filled) in
        rw (y, found, bucket-in a.buf i (omega (arith, sound.last_fits)), first.filled)
          (from_bucket index size i node rest fits sound first.from (omega arith) first.filled)
    | inr n ↦ elim (split_sink_lem index (a.buf 0) (sound.belong 0 (omega arith))) [
      | inl missing ↦ rw (n, missing, alloc_index) (new_node_lem index size fits sound)
      | inr split ↦ from_sink index size fits sound n split
    ]
  ]

  -- On a sound allocator `alloc` reads its table inside the bounds and leaves it sound. It gives null and
  -- changes nothing, or a node with room for the request, which a free list kept or `malloc` gave.
  pub alloc-Serves : IsSound a.buf a.last → in_size < 2 ^ 32 → Serves (alloc malloc in_size a)
  unfolding alloc
  alloc-Serves sound fits = elim (node_size-cases in_size fits) [
    | inl missing ↦ (none, a, rw (missing, alloc) refl, sound, refl)
    | inr (size, e, is_size) ↦
        let small : ltb (2 ^ 32 - 1) (size / boundary_size - 1) ≡ false =
          ground (arith, is_size.index_fits) in
        let (r, b, served, still, outcome) =
          alloc_index_lem (size / boundary_size - 1) size is_size sound in
        (r, b, rw (e, small, alloc) served, still, outcome)
  ]

-- What a call gives is what the theorem on it promises.
pub served :
    (malloc : ℕ → Option ℕ) (in_size : ℕ) (a b : Allocator) (r : Option MemNode)
    → IsSound a.buf a.last
    → in_size < 2 ^ 32
    → alloc malloc in_size a ≡ some (r, b)
    → IsSound b.buf b.last × Outcome malloc in_size a r b
served malloc in_size a b r sound fits e =
    let (got, c, gives, still, outcome) = alloc-Serves malloc in_size a sound fits in
    let same : (got, c) ≡ (r, b) = some-injective (got, c) (r, b) (sym gives ∙ e) in
    subst
      (λ (x : Option MemNode × Allocator).
        IsSound x.1.buf x.1.last × Outcome malloc in_size a x.0 x.1)
      same (still, outcome)

pub Outcome-max :
    (malloc : ℕ → Option ℕ) (in_size : ℕ) (a : Allocator) (r : Option MemNode) (b : Allocator)
    → Outcome malloc in_size a r b
    → b.max ≡ a.max
unfolding credit
Outcome-max malloc in_size a none b outcome = ap (λ (x : Allocator). x.max) outcome
Outcome-max malloc in_size a (some node) b (room, inl (weights, buf, last, e)) =
    ap (λ (x : Allocator). x.max) e
Outcome-max malloc in_size a (some node) b (room, inr (got, e)) = ap (λ (x : Allocator). x.max) e
