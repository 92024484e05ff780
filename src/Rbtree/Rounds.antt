-- ===== src/Rbtree/Rounds.antt =====
-- A round below the left child of the grandparent, with the recursive call as a hypothesis.
use libstappler_common.Common.{ℕ, suc, ◌≡◌, refl, sym, ap, true, false, List, ◌∷◌, some}
use mathlib.Core.Path.{subst}
use mathlib.Core.List.{append_assoc}
use libstappler_common.Rbtree.Nodes.{NodeBase}
use libstappler_common.Rbtree.Shape.{Tree, leaf, node, inorder}
use libstappler_common.Rbtree.Bounds.{true-false}
use libstappler_common.Rbtree.Place.{Frame, in_left, in_right, Stands}
use libstappler_common.Rbtree.Balance.{color, Balanced, Needs, plug, inorder-plug}
use libstappler_common.Rbtree.Focus.{left-IsChild, right-IsChild, at_own, leave_left, leave_right}
use libstappler_common.Rbtree.Step.{mend-red_right}
use libstappler_common.Rbtree.Black.{mend-left_left, mend-left_right}
use libstappler_common.Rbtree.Loop.{Ends, black-Ends, red-Ends}

-- The loop ends from a red node below the path.
abbrev pub Hypothesis : ℕ → ℕ → List Frame → Type 0
Hypothesis fuel head path =
    (s : NodeBase) (n : ℕ) (a b : Tree) (k : ℕ)
    → Stands s head path (node n true a b) (some n) (s.parent n)
    → Balanced (node n true a b) k
    → Needs path k
    → Ends fuel s head n (inorder (plug path (node n true a b)))

-- A red node below its parent and its grandparent.
abbrev pub Round : NodeBase → ℕ → List Frame → Tree → ℕ → Frame → Frame → Type 0
Round s head path leaf k parent grandparent = ⊥
Round s head path (node n red a b) k parent grandparent =
    Stands s head (parent ∷ grandparent ∷ path) (node n red a b) (some n) (s.parent n)
    × Balanced (node n red a b) k
    × Needs (parent ∷ grandparent ∷ path) k

pub uncle-Balanced :
    (u : ℕ) (v w : Tree) (k : ℕ)
    → Balanced (node u true v w) k
    → Balanced (node u false v w) (suc k)
uncle-Balanced u v w k (j, e, black, bv, bw) =
    (j, ap (λ (x : ℕ). suc x) e, (λ h. absurd (true-false (sym h))), bv, bw)

-- `p` is the left child of `g`, and `n` the left one of `p`.
module _ (fuel : ℕ) (s : NodeBase) (head n p g k : ℕ) (path : List Frame) (a b y : Tree) where
  left_left_black :
      (z : Tree)
      → color z ≡ false
      → Round s head path (node n true a b) k (in_left p true y) (in_left g false z)
      → Ends
          (suc (suc fuel))
          s
          head
          n
          (inorder (plug path (node g false (node p true (node n true a b) y) z)))
  left_left_black z bz_black (stands, bal, (by, both, (bz, both_g, needs))) =
      let below =
        leave_left s head (in_left g false z ∷ path) p true (node n true a b) y (some n)
          (s.parent n) stands in
      let grand =
        leave_left s head path g false (node p true (node n true a b) y) z (some p) (s.parent p)
          below in
      let y_black = (both refl).0 in
      let (j, e, blacks, ba, bb) = bal in
      let same_a = subst (Balanced a) (sym e) ba in
      let same_b = subst (Balanced b) (sym e) bb in
      let (t, mended, turned) = mend-left_left s head n p g path a b y z bz_black grand in
      black-Ends fuel s head n p g n p (suc k) path (node n true a b) (node g true y z)
        (inorder (plug path (node g false (node p true (node n true a b) y) z)))
        (left-IsChild s head n p true true a b y (in_left g false z ∷ path) (some p) (s.parent p)
          below)
        below.on_path.1 t mended turned
        (left-IsChild t head n p false true a b (node g true y z) path (some p) (t.parent p) turned)
        (
          k,
          refl,
          (λ h. absurd (true-false (sym h))),
          bal,
          (k, refl, (λ h. (y_black, bz_black)), by, bz),
        )
        needs
        (inorder-plug path (node p false (node n true a b) (node g true y z))
          (node g false (node p true (node n true a b) y) z) (simp append_assoc refl))

  pub left_left :
      (z : Tree)
      → Hypothesis (suc fuel) head path
      → Round s head path (node n true a b) k (in_left p true y) (in_left g false z)
      → Ends
          (suc (suc fuel))
          s
          head
          n
          (inorder (plug path (node g false (node p true (node n true a b) y) z)))
  left_left leaf ih round = left_left_black leaf refl round
  left_left (node u false v w) ih round = left_left_black (node u false v w) refl round
  left_left (node u true v w) ih (stands, bal, (by, both, (bz, both_g, needs))) =
      let z = node u true v w in
      let below =
        leave_left s head (in_left g false (node u true v w) ∷ path) p true (node n true a b) y
          (some n) (s.parent n) stands in
      let grand =
        leave_left s head path g false (node p true (node n true a b) y) (node u true v w) (some p)
          (s.parent p) below in
      let (t, mended, tinted) =
        mend-red_right s head n p g path (some g) (s.parent g) u (node n true a b) y v w grand in
      red-Ends (suc fuel) s t head n p g
        (inorder (plug path (node g true (node p false (node n true a b) y) (node u false v w))))
        (inorder (plug path (node g false (node p true (node n true a b) y) (node u true v w))))
        (left-IsChild s head n p true true a b y (in_left g false (node u true v w) ∷ path) (some p)
          (s.parent p) below)
        below.on_path.1 mended
        (ih t g (node p false (node n true a b) y) (node u false v w) (suc k)
          (at_own t head path g true (node p false (node n true a b) y) (node u false v w) (some g)
            (s.parent g) tinted)
          (
            suc k,
            refl,
            (λ h. (refl, refl)),
            (k, refl, (λ h. absurd (true-false (sym h))), bal, by),
            uncle-Balanced u v w k bz,
          )
          needs)
        (inorder-plug path (node g true (node p false (node n true a b) y) (node u false v w))
          (node g false (node p true (node n true a b) y) (node u true v w)) refl)

-- `p` is the left child of `g`, and `n` the right one of `p`.
module _ (fuel : ℕ) (s : NodeBase) (head n p g k : ℕ) (path : List Frame) (a b y : Tree) where
  left_right_black :
      (z : Tree)
      → color z ≡ false
      → Round s head path (node n true a b) k (in_right p true y) (in_left g false z)
      → Ends
          (suc (suc fuel))
          s
          head
          n
          (inorder (plug path (node g false (node p true y (node n true a b)) z)))
  left_right_black z bz_black (stands, bal, (by, both, (bz, both_g, needs))) =
      let below =
        leave_right s head (in_left g false z ∷ path) p true (node n true a b) y (some n)
          (s.parent n) stands in
      let grand =
        leave_left s head path g false (node p true y (node n true a b)) z (some p) (s.parent p)
          below in
      let y_black = (both refl).0 in
      let (j, e, blacks, ba, bb) = bal in
      let same_a = subst (Balanced a) (sym e) ba in
      let same_b = subst (Balanced b) (sym e) bb in
      let (t, mended, turned) = mend-left_right s head n p g path a b y z bz_black grand in
      black-Ends fuel s head n p g p n (suc k) path (node p true y a) (node g true b z)
        (inorder (plug path (node g false (node p true y (node n true a b)) z)))
        (right-IsChild s head n p true true a b y (in_left g false z ∷ path) (some p) (s.parent p)
          below)
        below.on_path.1 t mended turned
        (left-IsChild t head p n false true y a (node g true b z) path (some n) (t.parent n) turned)
        (
          k,
          refl,
          (λ h. absurd (true-false (sym h))),
          (k, refl, (λ h. (y_black, (blacks refl).0)), by, same_a),
          (k, refl, (λ h. ((blacks refl).1, bz_black)), same_b, bz),
        )
        needs
        (inorder-plug path (node n false (node p true y a) (node g true b z))
          (node g false (node p true y (node n true a b)) z) (simp append_assoc refl))

  pub left_right :
      (z : Tree)
      → Hypothesis (suc fuel) head path
      → Round s head path (node n true a b) k (in_right p true y) (in_left g false z)
      → Ends
          (suc (suc fuel))
          s
          head
          n
          (inorder (plug path (node g false (node p true y (node n true a b)) z)))
  left_right leaf ih round = left_right_black leaf refl round
  left_right (node u false v w) ih round = left_right_black (node u false v w) refl round
  left_right (node u true v w) ih (stands, bal, (by, both, (bz, both_g, needs))) =
      let z = node u true v w in
      let below =
        leave_right s head (in_left g false (node u true v w) ∷ path) p true (node n true a b) y
          (some n) (s.parent n) stands in
      let grand =
        leave_left s head path g false (node p true y (node n true a b)) (node u true v w) (some p)
          (s.parent p) below in
      let (t, mended, tinted) =
        mend-red_right s head n p g path (some g) (s.parent g) u y (node n true a b) v w grand in
      red-Ends (suc fuel) s t head n p g
        (inorder (plug path (node g true (node p false y (node n true a b)) (node u false v w))))
        (inorder (plug path (node g false (node p true y (node n true a b)) (node u true v w))))
        (right-IsChild s head n p true true a b y (in_left g false (node u true v w) ∷ path)
          (some p) (s.parent p) below)
        below.on_path.1 mended
        (ih t g (node p false y (node n true a b)) (node u false v w) (suc k)
          (at_own t head path g true (node p false y (node n true a b)) (node u false v w) (some g)
            (s.parent g) tinted)
          (
            suc k,
            refl,
            (λ h. (refl, refl)),
            (k, refl, (λ h. absurd (true-false (sym h))), by, bal),
            uncle-Balanced u v w k bz,
          )
          needs)
        (inorder-plug path (node g true (node p false y (node n true a b)) (node u false v w))
          (node g false (node p true y (node n true a b)) (node u true v w)) refl)
