-- ===== src/MemPool/Again.antt =====
-- A node that comes back is the next one out.
use libstappler_common.Common.{
  ℕ, zero, suc, ◌+◌, ◌-◌, ◌*◌, ◌/◌, ◌^◌, ◌≤◌, ◌<◌, ◌≡◌, refl, sym, ap, ◌∙◌, arith, ◌⊎◌, inl, inr,
  true, false, not, ◌&&◌, List, [], ◌∷◌, Option, some, leb, ltb, ◌==◌, ==_iff, if◌then◌else◌,
  Bool-cases, u32,
}
use mathlib.Core.Path.{fun_ext}
use native.Mathlib.Decide.{dec_le}
use libstappler_common.MemPool.Nodes.{MemNode, Allocator, max_index, set_bucket, boundary_size}
use libstappler_common.MemPool.Alloc.{
  node_size, find_bucket, find_last, credit, reset_node, is_empty, take_bucket, alloc_index, alloc,
}
use libstappler_common.MemPool.Free.{debit, raise, keep_node, give_back, free_nodes, release, free}
use libstappler_common.MemPool.Sound.{IsNode, IsSound, set_bucket-same}
use libstappler_common.MemPool.Take.{is_empty-leb}
use libstappler_common.MemPool.Keep.{raise_lem}
use libstappler_common.MemPool.Search.{List-cases, bucket-in, find_last_lem}

find_bucket-here :
    (steps i : ℕ) (buf : ℕ → List MemNode) (node : MemNode) (rest : List MemNode)
    → i < max_index
    → buf i ≡ node ∷ rest
    → find_bucket steps buf i ≡ some i
unfolding find_bucket
find_bucket-here zero i buf node rest fits e = refl
find_bucket-here (suc steps) i buf node rest fits e = rw (bucket-in buf i fits, e) refl

set_bucket-back :
    (buf : ℕ → List MemNode) (i : ℕ) (nodes : List MemNode)
    → set_bucket (set_bucket buf i nodes) i (buf i) ≡ buf
set_bucket-back buf i nodes = fun_ext (λ q. elim (Bool-cases (q == i)) [
  | inl y ↦ rw y (ap buf (sym ((==_iff q i).0 y)))
  | inr n ↦ rw n refl
])

-- The walk down from an empty bucket ends at the old `last`.
find_last-back :
    (buf : ℕ → List MemNode) (last i : ℕ)
    → IsSound buf last
    → last < i
    → i < max_index
    → find_last i buf ≡ some last
find_last-back buf last i sound below fits =
    let (k, found, k_below, empty, top) = find_last_lem i buf (omega arith) fits in
    let same : k ≡ last = elim (dec_le k last) [
      | yes p ↦ elim (dec_le last k) [
        | yes m ↦ omega arith
        | no m ↦ elim sound.top [
          | inl z ↦ absurd (omega arith)
          | inr filled ↦ absurd (filled (empty last (omega arith) below))
        ]
      ]
      | no p ↦ elim top [
        | inl z ↦ absurd (omega arith)
        | inr filled ↦ absurd (filled (sound.above k (omega arith) (omega arith)))
      ]
    ] in
    found ∙ ap some same

-- The allocator keeps a node of this index.
abbrev pub MayKeep : Allocator → ℕ → Type 0
MayKeep a index = (a.max ≡ 0) ⊎ (index + 1 ≤ a.current)

MayKeep-test :
    (a : Allocator) (index : ℕ)
    → index + 1 < 2 ^ 20
    → MayKeep a index
    → (not (a.max == 0) && ltb a.current (u32 (index + 1))) ≡ false
MayKeep-test a index fits (inl unlimited) = ground arith
MayKeep-test a index fits (inr enough) = ground arith

current_back :
    (a : Allocator) (index : ℕ)
    → index + 1 < 2 ^ 20
    → a.current ≤ a.max
    → a.max < 2 ^ 32
    → MayKeep a index
    → (if ltb a.max (u32 (debit index a.current + u32 (index + 1)))
        then a.max
        else u32 (debit index a.current + u32 (index + 1)))
      ≡ a.current
current_back a index small bounded fits (inl unlimited) = ground arith
current_back a index small bounded fits (inr enough) = ground arith

module _ (a : Allocator) (node : MemNode) where
  -- The allocator with the node at the head of its bucket.
  abbrev Kept : Allocator
  Kept = record a {
    buf = set_bucket a.buf node.index (node ∷ a.buf node.index);
    last = raise (a.buf node.index) node.index a.last;
    current = debit node.index a.current;
  }

  free_kept :
      IsNode node → node.index < max_index → MayKeep a node.index → free node [] a ≡ (Kept, [])
  unfolding free free_nodes give_back keep_node release
  free_kept is_node fits keeps =
      let small : ltb node.index max_index ≡ true = ground arith in
      rw
        (
          MayKeep-test a node.index is_node.index_fits keeps,
          small,
          keep_node,
          give_back,
          free_nodes,
          free,
        )
        refl

  credit-kept :
      IsNode node
      → a.current ≤ a.max
      → a.max < 2 ^ 32
      → MayKeep a node.index
      → credit node.index (record Kept { buf = a.buf; last = a.last }) ≡ a
  unfolding credit
  credit-kept is_node bounded fits keeps =
      ap (λ (c : ℕ). record a { current = c })
        (current_back a node.index is_node.index_fits bounded fits keeps)

  raise-last :
      IsSound a.buf a.last
      → (is_empty (a.buf node.index) && leb (raise (a.buf node.index) node.index a.last) node.index)
        ≡ false
      → raise (a.buf node.index) node.index a.last ≡ a.last
  raise-last sound test = elim (List-cases (a.buf node.index)) [
    | inl e ↦ ground arith
    | inr (n, ns, e) ↦ rw e refl
  ]

  emptied-below :
      IsNode node
      → IsSound a.buf a.last
      → (is_empty (a.buf node.index) && leb (raise (a.buf node.index) node.index a.last) node.index)
        ≡ true
      → a.last < node.index
  emptied-below is_node sound test =
      let (empty, at_most) =
        is_empty-leb (a.buf node.index) (raise (a.buf node.index) node.index a.last) node.index
          test in
      let (over, covers, which) = raise_lem (a.buf node.index) node.index a.last (λ h. empty) in
      elim (dec_le node.index a.last) [
        | yes p ↦ elim sound.top [
          | inl z ↦ absurd (omega (arith, is_node.at_least))
          | inr filled ↦
              let same : node.index ≡ a.last = omega arith in
              absurd (filled (ap a.buf (sym same) ∙ empty))
        ]
        | no p ↦ omega arith
      ]

  take_kept :
      IsNode node
      → node.index < max_index
      → IsSound a.buf a.last
      → take_bucket node.index node (a.buf node.index) Kept
        ≡ some
            (some (reset_node node), credit node.index (record Kept { buf = a.buf; last = a.last }))
  unfolding take_bucket
  take_kept is_node fits sound =
      let back = set_bucket-back a.buf node.index (node ∷ a.buf node.index) in
      elim (Bool-cases (
        is_empty (a.buf node.index)
        && leb (raise (a.buf node.index) node.index a.last) node.index)) [
          | inl y ↦
              let below = emptied-below is_node sound y in
              rw (y, back, find_last-back a.buf a.last node.index sound below fits, take_bucket)
                refl
          | inr n ↦ rw (n, back, raise-last sound n, take_bucket) refl
        ]

  alloc_index-kept :
      (malloc : ℕ → Option ℕ) (size : ℕ)
      → IsNode node
      → node.index < max_index
      → IsSound a.buf a.last
      → alloc_index malloc size node.index Kept
        ≡ some
            (some (reset_node node), credit node.index (record Kept { buf = a.buf; last = a.last }))
  unfolding alloc_index
  alloc_index-kept malloc size is_node fits sound =
      let nodes = node ∷ a.buf node.index in
      let last = raise (a.buf node.index) node.index a.last in
      let (over, covers, which) =
        raise_lem (a.buf node.index) node.index a.last (λ h. sound.above node.index h fits) in
      let covered : leb node.index last ≡ true = ground arith in
      let filled = set_bucket-same a.buf node.index nodes in
      let here =
        find_bucket-here (last - node.index) node.index (set_bucket a.buf node.index nodes) node
          (a.buf node.index) fits filled in
      let read = bucket-in (set_bucket a.buf node.index nodes) node.index fits in
      rw (covered, here, read, filled, alloc_index) (take_kept is_node fits sound)

  alloc-kept :
      (malloc : ℕ → Option ℕ) (in_size : ℕ)
      → IsNode node
      → node.index < max_index
      → IsSound a.buf a.last
      → node_size in_size ≡ some ((node.index + 1) * boundary_size)
      → alloc malloc in_size Kept
        ≡ some
            (some (reset_node node), credit node.index (record Kept { buf = a.buf; last = a.last }))
  unfolding alloc
  alloc-kept malloc in_size is_node fits sound size =
      let index : (node.index + 1) * boundary_size / boundary_size - 1 ≡ node.index = omega arith in
      let small : ltb (2 ^ 32 - 1) node.index ≡ false = ground arith in
      rw (size, index, small, alloc)
        (alloc_index-kept malloc ((node.index + 1) * boundary_size) is_node fits sound)

-- In a sound allocator whose credit `current` is no more than its limit `max` of 32 bits, a node is given back that the
-- allocator keeps (there is no limit, or the credit is enough) and whose index is below `MAX_INDEX`, so that it goes
-- into a bucket of its own size and not into the sink. Then the next `alloc` of a request of that node's size returns
-- the node, and the allocator is what it was before.
pub alloc-free :
    (malloc : ℕ → Option ℕ) (in_size : ℕ) (a : Allocator) (node : MemNode)
    → IsSound a.buf a.last
    → a.current ≤ a.max
    → a.max < 2 ^ 32
    → IsNode node
    → node.index < max_index
    → MayKeep a node.index
    → node_size in_size ≡ some ((node.index + 1) * boundary_size)
    → alloc malloc in_size (free node [] a).0 ≡ some (some (reset_node node), a)
alloc-free malloc in_size a node sound bounded limit is_node fits keeps size =
    ap (λ x. alloc malloc in_size x.0) (free_kept a node is_node fits keeps)
    ∙ alloc-kept a node malloc in_size is_node fits sound size
    ∙ ap (λ b. some (some (reset_node node), b)) (credit-kept a node is_node bounded limit keeps)
