-- ===== src/Rbtree/Black.antt =====
-- A round with a black uncle.
use libstappler_common.Common.{ℕ, ◌≡◌, ap, ◌∙◌, arith, true, false, List, ◌∷◌, Option, some}
use libstappler_common.Rbtree.Nodes.{NodeBase, points_to}
use libstappler_common.Rbtree.Rotate.{mend}
use libstappler_common.Rbtree.Shape.{Tree, node}
use libstappler_common.Rbtree.Place.{Frame, in_left, in_right, one-same, Stands}
use libstappler_common.Rbtree.Attach.{points_to-same, points_to-apart}
use libstappler_common.Rbtree.TurnRight.{rotate_right-Stands}
use libstappler_common.Rbtree.TurnLeft.{rotate_left-Stands}
use libstappler_common.Rbtree.Balance.{color}
use libstappler_common.Rbtree.Focus.{at_own, enter_left, enter_right, leave_left, leave_right}
use libstappler_common.Rbtree.Step.{
  is_red-color, left_left, left_right, right_right, right_left, ready, ready-left, ready-right,
}

module _ (s : NodeBase) (head n p g : ℕ) (path : List Frame) (a b y z : Tree) where
  -- What a round gives: the next node, and the tree below the place of `g`.
  abbrev pub Turned : ℕ → ℕ → Tree → Type 0
  Turned next top tree =
      (t : NodeBase) × (mend head n p g s ≡ some (next, t))
      × Stands t head path tree (some top) (t.parent top)

  pub mend-left_left :
      color z ≡ false
      → Stands s head path (node g false (node p true (node n true a b) y) z) (some g) (s.parent g)
      → Turned n p (node p false (node n true a b) (node g true y z))
  mend-left_left black stands =
      let (eg, pg, rg, (ep, pp, rp, sx, sy), sz) = stands.shows in
      let (t, turns, turned, spared) =
        rotate_right-Stands (ready s head p g path (node n true a b) y z) head p g path true false
          (node n true a b) y z (ready-left s head p g path (node n true a b) y z stands) in
      (
        t,
        left_left s head n p g path (some g) (s.parent g) t t
            (ap (λ (x : Option ℕ). points_to x p) ep ∙ points_to-same p)
            (is_red-color s z (s.right g) (some g) sz ∙ black)
            (points_to-apart s y (s.right p) (some p) n sy
              (omega (arith, stands.distinct n, one-same n)))
            turns,
        at_own t head path p false (node n true a b) (node g true y z) (some p) (s.parent g) turned,
      )

  pub mend-right_right :
      color z ≡ false
      → Stands s head path (node g false z (node p true y (node n true a b))) (some g) (s.parent g)
      → Turned n p (node p false (node g true z y) (node n true a b))
  mend-right_right black stands =
      let (eg, pg, rg, sz, (ep, pp, rp, sy, sx)) = stands.shows in
      let (t, turns, turned) =
        rotate_left-Stands (ready s head p g path y (node n true a b) z) head p g path true false
          (node n true a b) y z (ready-right s head p g path y (node n true a b) z stands) in
      (
        t,
        right_right s head n p g path (some g) (s.parent g) t t
            (points_to-apart s z (s.left g) (some g) p sz
              (omega (arith, stands.distinct p, one-same p)))
            (is_red-color s z (s.left g) (some g) sz ∙ black)
            (points_to-apart s y (s.left p) (some p) n sy
              (omega (arith, stands.distinct n, one-same n)))
            turns,
        at_own t head path p false (node g true z y) (node n true a b) (some p) (s.parent g) turned,
      )

  pub mend-left_right :
      color z ≡ false
      → Stands s head path (node g false (node p true y (node n true a b)) z) (some g) (s.parent g)
      → Turned p n (node n false (node p true y a) (node g true b z))
  mend-left_right black stands =
      let (eg, pg, rg, (ep, pp, rp, sy, (en, pn, rn, sa, sb)), sz) = stands.shows in
      let below =
        at_own s head (in_left g false z ∷ path) p true y (node n true a b) (s.left g) (some g) (
          enter_left s head path g false (node p true y (node n true a b)) z (some g) (s.parent g)
            stands) in
      let (t, turns, half) =
        rotate_left-Stands s head n p (in_left g false z ∷ path) true true b a y below in
      let above =
        leave_left t head path g false (node n true (node p true y a) b) z (some n) (s.parent p)
          half in
      let (u, turns_again, turned, spared) =
        rotate_right-Stands (ready t head n g path (node p true y a) b z) head n g path true false
          (node p true y a) b z (ready-left t head n g path (node p true y a) b z above) in
      (
        u,
        left_right s head n p g path (some g) (s.parent g) t u
            (ap (λ (x : Option ℕ). points_to x p) ep ∙ points_to-same p)
            (is_red-color s z (s.right g) (some g) sz ∙ black)
            (ap (λ (x : Option ℕ). points_to x n) en ∙ points_to-same n) turns turns_again,
        at_own u head path n false (node p true y a) (node g true b z) (some n) (t.parent g) turned,
      )

  pub mend-right_left :
      color z ≡ false
      → Stands s head path (node g false z (node p true (node n true a b) y)) (some g) (s.parent g)
      → Turned p n (node n false (node g true z a) (node p true b y))
  mend-right_left black stands =
      let (eg, pg, rg, sz, (ep, pp, rp, (en, pn, rn, sa, sb), sy)) = stands.shows in
      let below =
        at_own s head (in_right g false z ∷ path) p true (node n true a b) y (s.right g) (some g) (
          enter_right s head path g false z (node p true (node n true a b) y) (some g) (s.parent g)
            stands) in
      let (t, turns, half, spared) =
        rotate_right-Stands s head n p (in_right g false z ∷ path) true true a b y below in
      let above =
        leave_right t head path g false (node n true a (node p true b y)) z (some n) (s.parent p)
          half in
      let (u, turns_again, turned) =
        rotate_left-Stands (ready t head n g path a (node p true b y) z) head n g path true false
          (node p true b y) a z (ready-right t head n g path a (node p true b y) z above) in
      (
        u,
        right_left s head n p g path (some g) (s.parent g) t u
            (points_to-apart s z (s.left g) (some g) p sz
              (omega (arith, stands.distinct p, one-same p)))
            (is_red-color s z (s.left g) (some g) sz ∙ black)
            (ap (λ (x : Option ℕ). points_to x n) en ∙ points_to-same n) turns turns_again,
        at_own u head path n false (node g true z a) (node p true b y) (some n) (t.parent g) turned,
      )
