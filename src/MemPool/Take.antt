-- ===== src/MemPool/Take.antt =====
-- A node leaves its bucket.
use libstappler_common.Common.{
  ℕ, suc, ◌+◌, ◌≤◌, ◌<◌, ◌≡◌, ◌≢◌, refl, sym, ap, ◌∙◌, arith, ◌⊎◌, inl, inr, true, false, ◌&&◌,
  List, [], ◌∷◌, none, some, All, leb, ltb, Bool-cases,
}
use mathlib.Core.Path.{subst}
use native.Mathlib.Decide.{dec_le}
use libstappler_common.MemPool.Nodes.{MemNode, Allocator, max_index, set_bucket}
use libstappler_common.MemPool.Alloc.{credit, reset_node, is_empty, take_bucket, split_sink}
use libstappler_common.MemPool.Sound.{
  Belongs, IsSound, set_bucket-same, set_bucket-other, set_bucket-belong,
}
use libstappler_common.MemPool.Stored.{weigh}
use libstappler_common.MemPool.Search.{List-cases, cons-nil, find_last_lem}

-- The other nodes of the bucket belong there too.
rest-belong :
    (buf : ℕ → List MemNode) (i : ℕ) (node : MemNode) (rest : List MemNode)
    → ((q : ℕ) → q < max_index → All (Belongs q) (buf q))
    → i < max_index
    → buf i ≡ node ∷ rest
    → All (Belongs i) (node ∷ rest)
rest-belong buf i node rest belong fits filled = subst (All (Belongs i)) filled (belong i fits)

still_empty :
    (ns : List MemNode) (last i : ℕ) → ns ≡ [] → (is_empty ns && leb last i) ≡ false → last ≤ i → ⊥
still_empty [] last i alone test h = absurd (ground arith)
still_empty (n ∷ ns) last i alone test h = cons-nil n ns alone

pub is_empty-leb :
    (ns : List MemNode) (last i : ℕ) → (is_empty ns && leb last i) ≡ true → (ns ≡ []) × (last ≤ i)
is_empty-leb [] last i test = (refl, ground arith)
is_empty-leb (n ∷ ns) last i test = absurd (ground arith)

-- So does the one that is taken.
pub taken-belong :
    (buf : ℕ → List MemNode) (i : ℕ) (node : MemNode) (rest : List MemNode)
    → ((q : ℕ) → q < max_index → All (Belongs q) (buf q))
    → i < max_index
    → buf i ≡ node ∷ rest
    → Belongs i node
taken-belong buf i node rest belong fits filled = (rest-belong buf i node rest belong fits filled).0

module _ (i : ℕ) (node : MemNode) (rest : List MemNode) (a : Allocator) where
  abbrev pub Taken : Type 0
  Taken =
      (last : ℕ) × (take_bucket i node rest a
        ≡ some (
          some (reset_node node),
          credit node.index (record a { buf = set_bucket a.buf i rest; last = last }),
        ))
      × IsSound (set_bucket a.buf i rest) last

  take_bucket-emptied :
      IsSound a.buf a.last
      → 1 ≤ i
      → i ≡ a.last
      → a.buf i ≡ node ∷ rest
      → rest ≡ []
      → (is_empty rest && leb a.last i) ≡ true
      → Taken
  unfolding take_bucket
  take_bucket-emptied sound positive at_last filled alone test =
      let (k, found, below, empty, top) =
        find_last_lem i (set_bucket a.buf i rest) positive (omega (arith, sound.last_fits)) in
      (
        k,
        rw (test, found) refl,
        record {
          last_fits = omega (arith, sound.last_fits);
          belong =
              set_bucket-belong a.buf i rest
                (rest-belong a.buf i node rest sound.belong (omega (arith, sound.last_fits))
                  filled).1
                sound.belong;
          above = λ q over fits. elim (dec_le (suc q) i) [
            | yes p ↦ empty q over p
            | no p ↦ elim (dec_le q i) [
              | yes m ↦
                  let same : q ≡ i = omega arith in rw same (set_bucket-same a.buf i rest ∙ alone)
              | no m ↦
                  set_bucket-other a.buf i rest q (λ z. omega arith)
                  ∙ sound.above q (omega arith) fits
            ]
          ];
          top = top;
        },
      )

  filled_top :
      IsSound a.buf a.last
      → 1 ≤ i
      → i ≤ a.last
      → a.buf i ≡ node ∷ rest
      → (is_empty rest && leb a.last i) ≡ false
      → set_bucket a.buf i rest a.last ≢ []
  filled_top sound positive below filled test = elim (dec_le a.last i) [
    | yes p ↦ elim (List-cases rest) [
      | inl alone ↦ absurd (still_empty rest a.last i alone test p)
      | inr (n, ns, e) ↦
          let same : a.last ≡ i = omega arith in
          λ z. cons-nil n ns (
            sym e
            ∙ sym (set_bucket-same a.buf i rest)
            ∙ ap (λ (t : ℕ). set_bucket a.buf i rest t) (sym same)
            ∙ z)
    ]
    | no p ↦ elim sound.top [
      | inl zero_top ↦ absurd (omega arith)
      | inr top ↦ λ z. top (sym (set_bucket-other a.buf i rest a.last (λ e. omega arith)) ∙ z)
    ]
  ]

  take_bucket-more :
      IsSound a.buf a.last
      → 1 ≤ i
      → i ≤ a.last
      → a.buf i ≡ node ∷ rest
      → (is_empty rest && leb a.last i) ≡ false
      → Taken
  unfolding take_bucket
  take_bucket-more sound positive below filled test = (
    a.last,
    rw test refl,
    record {
      last_fits = sound.last_fits;
      belong =
          set_bucket-belong a.buf i rest
            (rest-belong a.buf i node rest sound.belong (omega (arith, sound.last_fits)) filled).1
            sound.belong;
      above = λ q over fits.
          set_bucket-other a.buf i rest q (λ z. omega arith) ∙ sound.above q over fits;
      top = inr (filled_top sound positive below filled test);
    },
  )

  -- The node leaves, and `last` follows.
  pub take_bucket_lem : IsSound a.buf a.last → 1 ≤ i → i ≤ a.last → a.buf i ≡ node ∷ rest → Taken
  take_bucket_lem sound positive below filled = elim (Bool-cases (is_empty rest && leb a.last i)) [
    | inl y ↦
        let (alone, at_most) = is_empty-leb rest a.last i y in
        take_bucket-emptied sound positive (omega arith) filled alone y
    | inr n ↦ take_bucket-more sound positive below filled n
  ]

-- What `split_sink` gives of nodes of the sink.
abbrev pub Split : ℕ → List MemNode → Type 0
Split index nodes =
    (node : MemNode) × (others : List MemNode) × (split_sink index nodes ≡ some (node, others))
    × (index ≤ node.index)
    × Belongs 0 node
    × All (Belongs 0) others
    × ((f : ℕ → ℕ → ℕ) → weigh f nodes ≡ f node.at node.index + weigh f others)

pub split_sink_lem :
    (index : ℕ) (nodes : List MemNode)
    → All (Belongs 0) nodes
    → (split_sink index nodes ≡ none) ⊎ Split index nodes
unfolding split_sink
split_sink_lem index [] belong = inl refl
split_sink_lem index (node ∷ nodes) (one, others) = elim (Bool-cases (ltb node.index index)) [
  | inl y ↦ elim (split_sink_lem index nodes others) [
    | inl missing ↦ inl (rw (y, missing) refl)
    | inr (found, left_over, e, large, fits, left_fits, weights) ↦ inr (
      found,
      node ∷ left_over,
      rw (y, e) refl,
      large,
      fits,
      (one, left_fits),
      λ f. omega (arith, weights f),
    )
  ]
  | inr n ↦ inr (node, nodes, rw n refl, ground arith, one, others, λ f. refl)
]
