-- ===== src/Rbtree/RoundsRight.antt =====
-- A round below the right child of the grandparent, with the recursive call as a hypothesis.
use libstappler_common.Common.{ℕ, suc, ◌≡◌, refl, sym, true, false, List, ◌∷◌, some}
use mathlib.Core.Path.{subst}
use mathlib.Core.List.{append_assoc}
use libstappler_common.Rbtree.Nodes.{NodeBase}
use libstappler_common.Rbtree.Shape.{Tree, leaf, node, inorder}
use libstappler_common.Rbtree.Bounds.{true-false}
use libstappler_common.Rbtree.Place.{Frame, in_left, in_right}
use libstappler_common.Rbtree.Balance.{color, Balanced, plug, inorder-plug}
use libstappler_common.Rbtree.Focus.{left-IsChild, right-IsChild, at_own, leave_left, leave_right}
use libstappler_common.Rbtree.Step.{mend-red_left}
use libstappler_common.Rbtree.Black.{mend-right_right, mend-right_left}
use libstappler_common.Rbtree.Loop.{Ends, black-Ends, red-Ends}
use libstappler_common.Rbtree.Rounds.{Hypothesis, Round, uncle-Balanced}

-- `p` is the right child of `g`, and `n` the right one of `p`.
module _ (fuel : ℕ) (s : NodeBase) (head n p g k : ℕ) (path : List Frame) (a b y : Tree) where
  right_right_black :
      (z : Tree)
      → color z ≡ false
      → Round s head path (node n true a b) k (in_right p true y) (in_right g false z)
      → Ends
          (suc (suc fuel))
          s
          head
          n
          (inorder (plug path (node g false z (node p true y (node n true a b)))))
  right_right_black z bz_black (stands, bal, (by, both, (bz, both_g, needs))) =
      let below =
        leave_right s head (in_right g false z ∷ path) p true (node n true a b) y (some n)
          (s.parent n) stands in
      let grand =
        leave_right s head path g false (node p true y (node n true a b)) z (some p) (s.parent p)
          below in
      let y_black = (both refl).0 in
      let (j, e, blacks, ba, bb) = bal in
      let same_a = subst (Balanced a) (sym e) ba in
      let same_b = subst (Balanced b) (sym e) bb in
      let (t, mended, turned) = mend-right_right s head n p g path a b y z bz_black grand in
      black-Ends fuel s head n p g n p (suc k) path (node g true z y) (node n true a b)
        (inorder (plug path (node g false z (node p true y (node n true a b)))))
        (right-IsChild s head n p true true a b y (in_right g false z ∷ path) (some p) (s.parent p)
          below)
        below.on_path.1 t mended turned
        (right-IsChild t head n p false true a b (node g true z y) path (some p) (t.parent p)
          turned)
        (
          k,
          refl,
          (λ h. absurd (true-false (sym h))),
          (k, refl, (λ h. (bz_black, y_black)), bz, by),
          bal,
        )
        needs
        (inorder-plug path (node p false (node g true z y) (node n true a b))
          (node g false z (node p true y (node n true a b))) (simp append_assoc refl))

  pub right_right :
      (z : Tree)
      → Hypothesis (suc fuel) head path
      → Round s head path (node n true a b) k (in_right p true y) (in_right g false z)
      → Ends
          (suc (suc fuel))
          s
          head
          n
          (inorder (plug path (node g false z (node p true y (node n true a b)))))
  right_right leaf ih round = right_right_black leaf refl round
  right_right (node u false v w) ih round = right_right_black (node u false v w) refl round
  right_right (node u true v w) ih (stands, bal, (by, both, (bz, both_g, needs))) =
      let z = node u true v w in
      let below =
        leave_right s head (in_right g false (node u true v w) ∷ path) p true (node n true a b) y
          (some n) (s.parent n) stands in
      let grand =
        leave_right s head path g false (node p true y (node n true a b)) (node u true v w) (some p)
          (s.parent p) below in
      let (t, mended, tinted) =
        mend-red_left s head n p g path (some g) (s.parent g) u y (node n true a b) v w grand in
      red-Ends (suc fuel) s t head n p g
        (inorder (plug path (node g true (node u false v w) (node p false y (node n true a b)))))
        (inorder (plug path (node g false (node u true v w) (node p true y (node n true a b)))))
        (right-IsChild s head n p true true a b y (in_right g false (node u true v w) ∷ path)
          (some p) (s.parent p) below)
        below.on_path.1 mended
        (ih t g (node u false v w) (node p false y (node n true a b)) (suc k)
          (at_own t head path g true (node u false v w) (node p false y (node n true a b)) (some g)
            (s.parent g) tinted)
          (
            suc k,
            refl,
            (λ h. (refl, refl)),
            uncle-Balanced u v w k bz,
            (k, refl, (λ h. absurd (true-false (sym h))), by, bal),
          )
          needs)
        (inorder-plug path (node g true (node u false v w) (node p false y (node n true a b)))
          (node g false (node u true v w) (node p true y (node n true a b))) refl)

-- `p` is the right child of `g`, and `n` the left one of `p`.
module _ (fuel : ℕ) (s : NodeBase) (head n p g k : ℕ) (path : List Frame) (a b y : Tree) where
  right_left_black :
      (z : Tree)
      → color z ≡ false
      → Round s head path (node n true a b) k (in_left p true y) (in_right g false z)
      → Ends
          (suc (suc fuel))
          s
          head
          n
          (inorder (plug path (node g false z (node p true (node n true a b) y))))
  right_left_black z bz_black (stands, bal, (by, both, (bz, both_g, needs))) =
      let below =
        leave_left s head (in_right g false z ∷ path) p true (node n true a b) y (some n)
          (s.parent n) stands in
      let grand =
        leave_right s head path g false (node p true (node n true a b) y) z (some p) (s.parent p)
          below in
      let y_black = (both refl).0 in
      let (j, e, blacks, ba, bb) = bal in
      let same_a = subst (Balanced a) (sym e) ba in
      let same_b = subst (Balanced b) (sym e) bb in
      let (t, mended, turned) = mend-right_left s head n p g path a b y z bz_black grand in
      black-Ends fuel s head n p g p n (suc k) path (node g true z a) (node p true b y)
        (inorder (plug path (node g false z (node p true (node n true a b) y))))
        (left-IsChild s head n p true true a b y (in_right g false z ∷ path) (some p) (s.parent p)
          below)
        below.on_path.1 t mended turned
        (right-IsChild t head p n false true b y (node g true z a) path (some n) (t.parent n)
          turned)
        (
          k,
          refl,
          (λ h. absurd (true-false (sym h))),
          (k, refl, (λ h. (bz_black, (blacks refl).0)), bz, same_a),
          (k, refl, (λ h. ((blacks refl).1, y_black)), same_b, by),
        )
        needs
        (inorder-plug path (node n false (node g true z a) (node p true b y))
          (node g false z (node p true (node n true a b) y)) (simp append_assoc refl))

  pub right_left :
      (z : Tree)
      → Hypothesis (suc fuel) head path
      → Round s head path (node n true a b) k (in_left p true y) (in_right g false z)
      → Ends
          (suc (suc fuel))
          s
          head
          n
          (inorder (plug path (node g false z (node p true (node n true a b) y))))
  right_left leaf ih round = right_left_black leaf refl round
  right_left (node u false v w) ih round = right_left_black (node u false v w) refl round
  right_left (node u true v w) ih (stands, bal, (by, both, (bz, both_g, needs))) =
      let z = node u true v w in
      let below =
        leave_left s head (in_right g false (node u true v w) ∷ path) p true (node n true a b) y
          (some n) (s.parent n) stands in
      let grand =
        leave_right s head path g false (node p true (node n true a b) y) (node u true v w) (some p)
          (s.parent p) below in
      let (t, mended, tinted) =
        mend-red_left s head n p g path (some g) (s.parent g) u (node n true a b) y v w grand in
      red-Ends (suc fuel) s t head n p g
        (inorder (plug path (node g true (node u false v w) (node p false (node n true a b) y))))
        (inorder (plug path (node g false (node u true v w) (node p true (node n true a b) y))))
        (left-IsChild s head n p true true a b y (in_right g false (node u true v w) ∷ path)
          (some p) (s.parent p) below)
        below.on_path.1 mended
        (ih t g (node u false v w) (node p false (node n true a b) y) (suc k)
          (at_own t head path g true (node u false v w) (node p false (node n true a b) y) (some g)
            (s.parent g) tinted)
          (
            suc k,
            refl,
            (λ h. (refl, refl)),
            uncle-Balanced u v w k bz,
            (k, refl, (λ h. absurd (true-false (sym h))), bal, by),
          )
          needs)
        (inorder-plug path (node g true (node u false v w) (node p false (node n true a b) y))
          (node g false (node u true v w) (node p true (node n true a b) y)) refl)
