-- ===== src/Rbtree/Shape.antt =====
-- The trees that the pointers stand for.
use libstappler_common.Common.{
  ℕ, suc, ◌≡◌, Bool, true, List, [], ◌∷◌, ◌++◌, All, Option, none, some, if◌then◌else◌,
}
use Prim.Native.Nat.{max}
use libstappler_common.Rbtree.Nodes.{NodeBase}

-- A node has its address, whether it is red, and its two subtrees.
pub data Tree : Type 0 where
  leaf : Tree
  node : ℕ → Bool → Tree → Tree → Tree

-- `Shows s t ptr par`: the pointer `ptr`, kept in the node `par`, leads to the tree `t`.
abbrev pub Shows : NodeBase → Tree → Option ℕ → Option ℕ → Type 0
Shows s leaf ptr par = ptr ≡ none
Shows s (node a red l r) ptr par =
    (ptr ≡ some a)
    × (s.parent a ≡ par)
    × (s.red a ≡ red)
    × Shows s l (s.left a) (some a)
    × Shows s r (s.right a) (some a)

abbrev pub inorder : Tree → List ℕ
inorder leaf = []
inorder (node a red l r) = inorder l ++ a ∷ inorder r

abbrev pub height : Tree → ℕ
height leaf = 0
height (node a red l r) = suc (max (height l) (height r))

-- The keys are in order: those to the left of a node before its key, those to the right behind it.
module _ {K : Type 0} (lt : K → K → Bool) (key : ℕ → K) where
  abbrev pub Ordered : Tree → Type 0
  Ordered leaf = Unit {0}
  Ordered (node a red l r) =
      All (λ b. lt (key b) (key a) ≡ true) (inorder l)
      × All (λ b. lt (key a) (key b) ≡ true) (inorder r)
      × Ordered l
      × Ordered r

-- The first address that passes the test, or the given one.
abbrev pub first_that : (ℕ → Bool) → Option ℕ → List ℕ → Option ℕ
first_that test d [] = d
first_that test d (a ∷ others) = if test a then some a else first_that test d others
