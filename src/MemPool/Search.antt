-- ===== src/MemPool/Search.antt =====
-- The two loops that look for a bucket.
use libstappler_common.Common.{
  ℕ, zero, suc, ◌+◌, ◌≤◌, ◌<◌, ◌≡◌, ◌≢◌, refl, sym, ◌∙◌, arith, ◌⊎◌, inl, inr, List, [], ◌∷◌, some,
}
use native.Mathlib.Decide.{dec_le}
use libstappler_common.MemPool.Nodes.{MemNode, max_index, bucket}
use libstappler_common.MemPool.Alloc.{find_bucket, find_last}

pub List-cases :
    (nodes : List MemNode)
    → (nodes ≡ []) ⊎ ((node : MemNode) × (rest : List MemNode) × (nodes ≡ node ∷ rest))
List-cases [] = inl refl
List-cases (node ∷ rest) = inr (node, rest, refl)

pub cons-nil : (node : MemNode) (rest : List MemNode) → node ∷ rest ≢ []
cons-nil node rest e = absurd (ground arith)

pub bucket-in : (buf : ℕ → List MemNode) (i : ℕ) → i < max_index → bucket buf i ≡ some (buf i)
unfolding bucket
bucket-in buf i h = ground arith

-- The first bucket from `i` on that has a node.
pub record IsFirst (buf : ℕ → List MemNode) (i j : ℕ) (node : MemNode) (rest : List MemNode)
    : Type 0 where
  pub from : i ≤ j
  pub filled : buf j ≡ node ∷ rest
  pub empty_before : (q : ℕ) → i ≤ q → q < j → buf q ≡ []

pub find_bucket-IsFirst :
    (steps i : ℕ) (buf : ℕ → List MemNode)
    → i + steps < max_index
    → buf (i + steps) ≢ []
    → (j : ℕ) × (node : MemNode) × (rest : List MemNode) × (find_bucket steps buf i ≡ some j)
      × (j ≤ i + steps)
      × IsFirst buf i j node rest
unfolding find_bucket
find_bucket-IsFirst zero i buf fits top = elim (List-cases (buf i)) [
  | inl y ↦ let e : i + 0 ≡ i = omega arith in absurd (top (rw (e, y) refl))
  | inr (node, rest, e) ↦ (
    i,
    node,
    rest,
    refl,
    omega arith,
    record { from = omega arith; filled = e; empty_before = λ q h k. absurd (omega arith) },
  )
]
find_bucket-IsFirst (suc steps) i buf fits top = elim (List-cases (buf i)) [
  | inl y ↦
      let e : i + 1 + steps ≡ i + suc steps = omega arith in
      let (j, node, rest, found, below, first) =
        find_bucket-IsFirst steps (i + 1) buf (omega arith) (rw e top) in
      (
        j,
        node,
        rest,
        rw (bucket-in buf i (omega arith), y) found,
        omega arith,
        record {
          from = omega (arith, first.from);
          filled = first.filled;
          empty_before = λ q h k. elim (dec_le q i) [
            | yes p ↦ let same : q ≡ i = omega arith in rw (same, y) refl
            | no p ↦ first.empty_before q (omega arith) k
          ];
        },
      )
  | inr (node, rest, e) ↦ (
    i,
    node,
    rest,
    rw (bucket-in buf i (omega arith), e) refl,
    omega arith,
    record { from = omega arith; filled = e; empty_before = λ q h k. absurd (omega arith) },
  )
]

-- The last bucket below `i` that has a node, or the sink.
pub find_last_lem :
    (i : ℕ) (buf : ℕ → List MemNode)
    → 1 ≤ i
    → i < max_index
    → (k : ℕ) × (find_last i buf ≡ some k)
      × (k < i)
      × ((q : ℕ) → k < q → q < i → buf q ≡ [])
      × ((k ≡ 0) ⊎ (buf k ≢ []))
unfolding find_last
find_last_lem zero buf positive fits = absurd (omega arith)
find_last_lem (suc zero) buf positive fits =
    (0, refl, omega arith, λ q h k. absurd (omega arith), inl refl)
find_last_lem (suc (suc i)) buf positive fits = elim (List-cases (buf (suc i))) [
  | inl y ↦
      let (k, found, below, empty, top) = find_last_lem (suc i) buf (omega arith) (omega arith) in
      (
        k,
        rw (bucket-in buf (suc i) (omega arith), y) found,
        omega arith,
        λ q h m. elim (dec_le q i) [
          | yes p ↦ empty q h (omega arith)
          | no p ↦ let same : q ≡ suc i = omega arith in rw (same, y) refl
        ],
        top,
      )
  | inr (node, rest, e) ↦ (
    suc i,
    rw (bucket-in buf (suc i) (omega arith), e) refl,
    omega arith,
    λ q h m. absurd (omega arith),
    inr (λ z. cons-nil node rest (sym e ∙ z)),
  )
]
