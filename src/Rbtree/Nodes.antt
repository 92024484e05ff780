-- ===== src/Rbtree/Nodes.antt =====
-- `NodeBase` with `min`, `max`, `increment` and `decrement`.
use libstappler_common.Common.{
  ◌>>=◌, ℕ, zero, suc, Bool, false, Option, none, some, ◌==◌, if◌then◌else◌,
}

pub record NodeBase : Type 0 where
  pub parent : ℕ → Option ℕ
  pub left : ℕ → Option ℕ
  pub right : ℕ → Option ℕ
  pub red : ℕ → Bool

abbrev pub set {ℓ} : {A : Type ℓ} → (ℕ → A) → ℕ → A → ℕ → A
set f a v q = if q == a then v else f q

abbrev pub points_to : Option ℕ → ℕ → Bool
points_to none a = false
points_to (some b) a = b == a

-- The loops of `min` and `max`, for `next` being `left` or `right`; without fuel there is no result.
unfoldable pub descend : ℕ → (ℕ → Option ℕ) → ℕ → Option ℕ
descend zero next x = none
descend (suc fuel) next x = elim (next x) [ none ↦ some x | some y ↦ descend fuel next y ]

-- The loop over the parents while the node is the one that `side` of its parent points to.
unfoldable pub climb : ℕ → (ℕ → Option ℕ) → (ℕ → Option ℕ) → ℕ → Option ℕ
climb zero parent side c = none
climb (suc fuel) parent side c = elim (parent c) [
  | none ↦ some c
  | some p ↦ let up = climb fuel parent side p in if points_to (side p) c then up else some c
]

-- `increment` with `left` and `right` for `near` and `far`, and `decrement` with `right` and `left`. The result is
-- `some none` for a null pointer.
unfoldable pub advance :
    ℕ → (ℕ → Option ℕ) → (ℕ → Option ℕ) → (ℕ → Option ℕ) → ℕ → Option (Option ℕ)
advance fuel parent near far c = elim (far c) [
  | some y ↦ descend fuel near y >>= λ z. some (some z)
  | none ↦ elim (parent c) [
    | none ↦ some none
    | some p ↦
        if points_to (near p) c
        then some (some p)
        else (climb fuel parent far c >>= λ z. some (parent z))
  ]
]

unfoldable pub increment : ℕ → NodeBase → ℕ → Option (Option ℕ)
increment fuel s c = advance fuel s.parent s.left s.right c

unfoldable pub decrement : ℕ → NodeBase → ℕ → Option (Option ℕ)
decrement fuel s c = advance fuel s.parent s.right s.left c
