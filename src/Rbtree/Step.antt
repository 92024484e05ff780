-- ===== src/Rbtree/Step.antt =====
-- One round of the loop behind an insertion.
use libstappler_common.Common.{ℕ, ◌+◌, ◌≡◌, refl, ◌∙◌, arith, Bool, true, false, List, Option, some}
use libstappler_common.Rbtree.Nodes.{NodeBase, set, points_to}
use libstappler_common.Rbtree.Rotate.{
  rotate_left, rotate_right, set_color, is_red, recolor, mend_left, mend_right, mend,
}
use libstappler_common.Rbtree.Shape.{Tree, leaf, node, Shows}
use libstappler_common.Rbtree.Place.{one, Frame, one-same, Stands}
use libstappler_common.Rbtree.Attach.{set-same, set-other, points_to-same, points_to-apart}
use libstappler_common.Rbtree.Tint.{tint_left-Stands, tint_right-Stands, tint_both-Stands}
use libstappler_common.Rbtree.Balance.{color}

pub is_red-color :
    (s : NodeBase) (t : Tree) (ptr par : Option ℕ) → Shows s t ptr par → is_red ptr s ≡ color t
is_red-color s leaf ptr par e = rw e refl
is_red-color s (node a red l r) ptr par (e, pe, ra, sl, sr) = rw e ra

-- Two and three fields are written.
two :
    (f : ℕ → Bool) (g p : ℕ) (x y : Bool) (q : ℕ)
    → one q g + one q p ≡ 0
    → set (set f p x) g y q ≡ f q
two f g p x y q h = set-other (set f p x) g y q (omega arith) ∙ set-other f p x q (omega arith)

three_set :
    (f : ℕ → Bool) (g u p : ℕ) (x y z : Bool) (q : ℕ)
    → one q g + (one q u + one q p) ≡ 0
    → set (set (set f p x) u y) g z q ≡ f q
three_set f g u p x y z q h =
    set-other (set (set f p x) u y) g z q (omega arith) ∙ two f u p x y q (omega arith)

module _ (s : NodeBase) (head n p g : ℕ) (path : List Frame) (ptr par : Option ℕ) where
  -- A red uncle on the right, and on the left.
  pub mend-red_right :
      (u : ℕ) (x y v w : Tree)
      → Stands s head path (node g false (node p true x y) (node u true v w)) ptr par
      → (t : NodeBase) × (mend head n p g s ≡ some (g, t))
        × Stands t head path (node g true (node p false x y) (node u false v w)) ptr par
  unfolding mend recolor
  mend-red_right u x y v w stands =
      let dist = stands.distinct in
      let (eg, pg, rg, (ep, pp, rp, sx, sy), (eu, pu, ru, sv, sw)) = stands.shows in
      let f : ℕ → Bool = set (set (set s.red p false) u false) g true in
      (
        record s { red = f },
        rw (ep, points_to-same p, eu, ru, mend) refl,
        tint_both-Stands s f head path ptr par g p false true x y leaf u true v w true false false
            stands (set-same (set (set s.red p false) u false) g true)
            (set-other (set (set s.red p false) u false) g true p
                (omega (arith, dist p, one-same p))
              ∙ set-other (set s.red p false) u false p (omega (arith, dist p, one-same p))
              ∙ set-same s.red p false)
            (set-other (set (set s.red p false) u false) g true u
                (omega (arith, dist u, one-same u))
              ∙ set-same (set s.red p false) u false)
            (λ q h. three_set s.red g u p false false true q (omega arith)),
      )

  pub mend-red_left :
      (u : ℕ) (x y v w : Tree)
      → Stands s head path (node g false (node u true v w) (node p true x y)) ptr par
      → (t : NodeBase) × (mend head n p g s ≡ some (g, t))
        × Stands t head path (node g true (node u false v w) (node p false x y)) ptr par
  unfolding mend recolor
  mend-red_left u x y v w stands =
      let dist = stands.distinct in
      let (eg, pg, rg, (eu, pu, ru, sv, sw), (ep, pp, rp, sx, sy)) = stands.shows in
      let f : ℕ → Bool = set (set (set s.red p false) u false) g true in
      let not_p : points_to (some u) p ≡ false =
        points_to-apart s (node u true v w) (some u) (some g) p (refl, pu, ru, sv, sw)
          (omega (arith, dist p, one-same p)) in
      (
        record s { red = f },
        rw (eu, not_p, ru, mend) refl,
        tint_both-Stands s f head path ptr par g u false true v w leaf p true x y true false false
            stands (set-same (set (set s.red p false) u false) g true)
            (set-other (set (set s.red p false) u false) g true u
                (omega (arith, dist u, one-same u))
              ∙ set-same (set s.red p false) u false)
            (set-other (set (set s.red p false) u false) g true p
                (omega (arith, dist p, one-same p))
              ∙ set-other (set s.red p false) u false p (omega (arith, dist p, one-same p))
              ∙ set-same s.red p false)
            (λ q h. three_set s.red g u p false false true q (omega arith)),
      )

  -- The four ways through a round with a black uncle.
  module _ (t u : NodeBase) where
    pub left_left :
        points_to (s.left g) p ≡ true
        → is_red (s.right g) s ≡ false
        → points_to (s.right p) n ≡ false
        → rotate_right head p g (set_color g true (set_color p false s)) ≡ some u
        → mend head n p g s ≡ some (n, u)
    unfolding mend mend_left
    left_left a b c d = rw (a, b, c, d, mend_left, mend) refl

    pub left_right :
        points_to (s.left g) p ≡ true
        → is_red (s.right g) s ≡ false
        → points_to (s.right p) n ≡ true
        → rotate_left head n p s ≡ some t
        → rotate_right head n g (set_color g true (set_color n false t)) ≡ some u
        → mend head n p g s ≡ some (p, u)
    unfolding mend mend_left
    left_right a b c d e = rw (a, b, c, d, e, mend_left, mend) refl

    pub right_right :
        points_to (s.left g) p ≡ false
        → is_red (s.left g) s ≡ false
        → points_to (s.left p) n ≡ false
        → rotate_left head p g (set_color g true (set_color p false s)) ≡ some u
        → mend head n p g s ≡ some (n, u)
    unfolding mend mend_right
    right_right a b c d = rw (a, b, c, d, mend_right, mend) refl

    pub right_left :
        points_to (s.left g) p ≡ false
        → is_red (s.left g) s ≡ false
        → points_to (s.left p) n ≡ true
        → rotate_right head n p s ≡ some t
        → rotate_left head n g (set_color g true (set_color n false t)) ≡ some u
        → mend head n p g s ≡ some (p, u)
    unfolding mend mend_right
    right_left a b c d e = rw (a, b, c, d, e, mend_right, mend) refl

-- The colours in front of the last rotation: `p` black and `g` red.
module _ (s : NodeBase) (head p g : ℕ) (path : List Frame) (x y z : Tree) where
  abbrev pub ready : NodeBase
  ready = set_color g true (set_color p false s)

  pub ready-left :
      Stands s head path (node g false (node p true x y) z) (some g) (s.parent g)
      → Stands ready head path (node g true (node p false x y) z) (some g) (s.parent g)
  ready-left stands =
      let dist = stands.distinct in
      tint_left-Stands s (set (set s.red p false) g true) head path (some g) (s.parent g) g p false
        true x y z true false stands (set-same (set s.red p false) g true)
        (set-other (set s.red p false) g true p (omega (arith, dist p, one-same p))
          ∙ set-same s.red p false)
        (λ q h. two s.red g p false true q h)

  pub ready-right :
      Stands s head path (node g false z (node p true x y)) (some g) (s.parent g)
      → Stands ready head path (node g true z (node p false x y)) (some g) (s.parent g)
  ready-right stands =
      let dist = stands.distinct in
      tint_right-Stands s (set (set s.red p false) g true) head path (some g) (s.parent g) g p false
        true x y z true false stands (set-same (set s.red p false) g true)
        (set-other (set s.red p false) g true p (omega (arith, dist p, one-same p))
          ∙ set-same s.red p false)
        (λ q h. two s.red g p false true q h)
