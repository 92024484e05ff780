-- ===== src/Rbtree/Mended.antt =====
-- `NodeBase::insert` mends the tree.
use libstappler_common.Common.{
  ℕ, zero, suc, ◌<◌, ◌≡◌, refl, arith, true, false, List, [], ◌∷◌, some, length,
}
use libstappler_common.Rbtree.Nodes.{NodeBase, set}
use libstappler_common.Rbtree.Rotate.{insert, set_color}
use libstappler_common.Rbtree.Shape.{Tree, node, Shows, inorder}
use libstappler_common.Rbtree.Bounds.{true-false}
use libstappler_common.Rbtree.Place.{Frame, in_left, in_right, Stands}
use libstappler_common.Rbtree.Attach.{set-same, set-other}
use libstappler_common.Rbtree.Tint.{tint_root-Stands}
use libstappler_common.Rbtree.Balance.{Balanced, Needs, plug, IsRedBlack}
use libstappler_common.Rbtree.Focus.{left-IsChild, right-IsChild, leave_left, leave_right}
use libstappler_common.Rbtree.Loop.{Done, top-Ends, black_parent-Ends}
use libstappler_common.Rbtree.Rounds.{Hypothesis, left_left, left_right}
use libstappler_common.Rbtree.RoundsRight.{right_right, right_left}

insert_loop-Ends :
    (fuel head : ℕ) (path : List Frame) → length path < fuel → Hypothesis fuel head path
insert_loop-Ends zero head path enough s n a b k stands balanced needs = absurd (omega arith)
insert_loop-Ends (suc fuel) head [] enough s n a b k stands balanced needs =
    top-Ends fuel s head n k a b stands balanced
insert_loop-Ends (suc fuel) head (in_left p false r ∷ path) enough s n a b k stands balanced needs =
    black_parent-Ends fuel s head n p k (in_left p false r ∷ path) a b
      (left-IsChild s head n p false true a b r path (some p) (s.parent p)
        (leave_left s head path p false (node n true a b) r (some n) (s.parent n) stands))
      stands balanced needs refl
insert_loop-Ends (suc fuel) head (in_right p false l ∷ path) enough s n a b k stands balanced
      needs =
    black_parent-Ends fuel s head n p k (in_right p false l ∷ path) a b
      (right-IsChild s head n p false true a b l path (some p) (s.parent p)
        (leave_right s head path p false (node n true a b) l (some n) (s.parent n) stands))
      stands balanced needs refl
insert_loop-Ends (suc fuel) head (in_left p true r ∷ []) enough s n a b k stands balanced
      (br, both, needs) =
    absurd (true-false (both refl).1)
insert_loop-Ends (suc fuel) head (in_right p true l ∷ []) enough s n a b k stands balanced
      (bl, both, needs) =
    absurd (true-false (both refl).1)
insert_loop-Ends (suc fuel) head (in_left p true r ∷ in_left g true z ∷ path) enough s n a b k
      stands balanced (br, both, needs) =
    absurd (true-false (both refl).1)
insert_loop-Ends (suc fuel) head (in_left p true r ∷ in_right g true z ∷ path) enough s n a b k
      stands balanced (br, both, needs) =
    absurd (true-false (both refl).1)
insert_loop-Ends (suc fuel) head (in_right p true l ∷ in_left g true z ∷ path) enough s n a b k
      stands balanced (bl, both, needs) =
    absurd (true-false (both refl).1)
insert_loop-Ends (suc fuel) head (in_right p true l ∷ in_right g true z ∷ path) enough s n a b k
      stands balanced (bl, both, needs) =
    absurd (true-false (both refl).1)
insert_loop-Ends (suc zero) head (in_left p true r ∷ in_left g false z ∷ path) enough s n a b k
      stands balanced needs =
    absurd (omega arith)
insert_loop-Ends (suc zero) head (in_left p true r ∷ in_right g false z ∷ path) enough s n a b k
      stands balanced needs =
    absurd (omega arith)
insert_loop-Ends (suc zero) head (in_right p true l ∷ in_left g false z ∷ path) enough s n a b k
      stands balanced needs =
    absurd (omega arith)
insert_loop-Ends (suc zero) head (in_right p true l ∷ in_right g false z ∷ path) enough s n a b k
      stands balanced needs =
    absurd (omega arith)
insert_loop-Ends (suc (suc fuel)) head (in_left p true r ∷ in_left g false z ∷ path) enough s n a b
      k stands balanced needs =
    left_left fuel s head n p g k path a b r z (insert_loop-Ends (suc fuel) head path (omega arith))
      (stands, balanced, needs)
insert_loop-Ends (suc (suc fuel)) head (in_right p true l ∷ in_left g false z ∷ path) enough s n a b
      k stands balanced needs =
    left_right fuel s head n p g k path a b l z
      (insert_loop-Ends (suc fuel) head path (omega arith)) (stands, balanced, needs)
insert_loop-Ends (suc (suc fuel)) head (in_right p true l ∷ in_right g false z ∷ path) enough s n a
      b k stands balanced needs =
    right_right fuel s head n p g k path a b l z
      (insert_loop-Ends (suc fuel) head path (omega arith)) (stands, balanced, needs)
insert_loop-Ends (suc (suc fuel)) head (in_left p true r ∷ in_right g false z ∷ path) enough s n a b
      k stands balanced needs =
    right_left fuel s head n p g k path a b r z
      (insert_loop-Ends (suc fuel) head path (omega arith)) (stands, balanced, needs)

blacken :
    (t : NodeBase) (head : ℕ) (order : List ℕ)
    → Done t head order
    → (r : ℕ) × (t.left head ≡ some r)
      × (tree : Tree) × Shows (set_color r false t) tree (t.left head) (some head)
      × IsRedBlack tree
      × (inorder tree ≡ order)
blacken t head order (r, c, x, z, stands, same, k, balanced) =
    let tinted =
      tint_root-Stands t (set t.red r false) head [] (t.left head) (some head) r c false x z stands
        (set-same t.red r false) (λ q h. set-other t.red r false q h) in
    (r, stands.shows.0, node r false x z, tinted.shows, (refl, (k, balanced)), same)

-- A red node `n` stands at the end of a path in a tree that is red-black but for a red parent of `n`. With more fuel
-- than the path is long, `NodeBase::insert` ends, and the pointers stand for a red-black tree of the same nodes in
-- the same order.
pub insert-IsRedBlack :
    (fuel head : ℕ) (path : List Frame) (s : NodeBase) (n : ℕ) (a b : Tree) (k : ℕ)
    → length path < fuel
    → Stands s head path (node n true a b) (some n) (s.parent n)
    → Balanced (node n true a b) k
    → Needs path k
    → (t : NodeBase) × (tree : Tree) × (insert fuel head n s ≡ some t)
      × Shows t tree (t.left head) (some head)
      × IsRedBlack tree
      × (inorder tree ≡ inorder (plug path (node n true a b)))
unfolding insert
insert-IsRedBlack fuel head path s n a b k enough stands balanced needs =
    let (t, run, done) = insert_loop-Ends fuel head path enough s n a b k stands balanced needs in
    let (r, root, tree, shows, red_black, same) =
      blacken t head (inorder (plug path (node n true a b))) done in
    (set_color r false t, tree, rw (run, root, insert) refl, shows, red_black, same)
