-- ===== src/Rbtree/Loop.antt =====
-- The loop behind an insertion ends with a balanced tree of the same nodes in the same order.
use libstappler_common.Common.{
  ℕ, suc, ◌≡◌, refl, sym, ap, ◌∙◌, Bool, true, false, List, [], ◌∷◌, Option, some,
}
use mathlib.Core.Path.{subst}
use libstappler_common.Rbtree.Nodes.{NodeBase}
use libstappler_common.Rbtree.Rotate.{mend, insert_loop}
use libstappler_common.Rbtree.Shape.{Tree, node, inorder}
use libstappler_common.Rbtree.Bounds.{true-false}
use libstappler_common.Rbtree.Place.{Frame, in_left, in_right, Stands}
use libstappler_common.Rbtree.Attach.{points_to-same}
use libstappler_common.Rbtree.Balance.{
  Balanced, color_above, Needs, plug, IsRedBlack, plug-IsRedBlack,
}
use libstappler_common.Rbtree.Focus.{IsChild, leave_all}

-- The tree below the header has the nodes in the given order, and is balanced once its root is black.
abbrev pub Done : NodeBase → ℕ → List ℕ → Type 0
Done s head order =
    (r : ℕ) × (c : Bool) × (x : Tree) × (z : Tree) × Stands s head [] (node r c x z) (s.left head)
      (some head)
    × (inorder (node r c x z) ≡ order)
    × (k : ℕ) × Balanced (node r false x z) k

plug-node :
    (path : List Frame) (a : ℕ) (c : Bool) (l r : Tree)
    → (b : ℕ) × (d : Bool) × (x : Tree) × (z : Tree) × (plug path (node a c l r) ≡ node b d x z)
plug-node [] a c l r = (a, c, l, r, refl)
plug-node (in_left b d other ∷ path) a c l r = plug-node path b d (node a c l r) other
plug-node (in_right b d other ∷ path) a c l r = plug-node path b d other (node a c l r)

whole-Done :
    (s : NodeBase) (head : ℕ) (path : List Frame) (a : ℕ) (c : Bool) (l r : Tree)
    (ptr par : Option ℕ)
    → Stands s head path (node a c l r) ptr par
    → IsRedBlack (plug path (node a c l r))
    → Done s head (inorder (plug path (node a c l r)))
whole-Done s head path a c l r ptr par stands red_black =
    let (b, d, x, z, e) = plug-node path a c l r in
    let whole = leave_all s head path (node a c l r) ptr par stands in
    let (black, (k, balanced)) : IsRedBlack (node b d x z) = subst IsRedBlack e red_black in
    (
      b,
      d,
      x,
      z,
      subst (λ (t : Tree). Stands s head [] t (s.left head) (some head)) e whole,
      sym (ap inorder e),
      k,
      subst (λ (y : Bool). Balanced (node b y x z) k) black balanced,
    )

module _ (fuel head n p : ℕ) (s : NodeBase) where
  loop_stops : IsChild s head n p false → insert_loop (suc fuel) head n s ≡ some s
  unfolding insert_loop
  loop_stops child = rw (child.not_top, child.parent, child.color, insert_loop) refl

  loop_goes_on :
      (g next : ℕ) (t : NodeBase)
      → IsChild s head n p true
      → s.parent p ≡ some g
      → mend head n p g s ≡ some (next, t)
      → insert_loop (suc fuel) head n s ≡ insert_loop fuel head next t
  unfolding insert_loop
  loop_goes_on g next t child grand mended =
      rw (child.not_top, child.parent, child.color, grand, mended, insert_loop) refl

abbrev pub Ends : ℕ → NodeBase → ℕ → ℕ → List ℕ → Type 0
Ends fuel s head n order = (t : NodeBase) × (insert_loop fuel head n s ≡ some t) × Done t head order

-- A round with a black uncle is the last but one.
pub black-Ends :
    (fuel : ℕ) (s : NodeBase) (head n p g next top k : ℕ) (path : List Frame) (l r : Tree)
    (order : List ℕ)
    → IsChild s head n p true
    → s.parent p ≡ some g
    → (t : NodeBase) → mend head n p g s ≡ some (next, t)
    → Stands t head path (node top false l r) (some top) (t.parent top)
    → IsChild t head next top false
    → Balanced (node top false l r) k
    → Needs path k
    → inorder (plug path (node top false l r)) ≡ order
    → Ends (suc (suc fuel)) s head n order
black-Ends fuel s head n p g next top k path l r order child grand t mended stands last balanced
      needs e =
    (
      t,
      loop_goes_on (suc fuel) head n p s g next t child grand mended
          ∙ loop_stops fuel head next top t last,
      subst (Done t head) e (
          whole-Done t head path top false l r (some top) (t.parent top) stands
            (plug-IsRedBlack path (node top false l r) k needs balanced (λ h. refl))),
    )

-- Where the parent is black, or there is none, the loop ends at once.
pub black_parent-Ends :
    (fuel : ℕ) (s : NodeBase) (head n p k : ℕ) (path : List Frame) (a b : Tree)
    → IsChild s head n p false
    → Stands s head path (node n true a b) (some n) (s.parent n)
    → Balanced (node n true a b) k
    → Needs path k
    → color_above path ≡ false
    → Ends (suc fuel) s head n (inorder (plug path (node n true a b)))
black_parent-Ends fuel s head n p k path a b child stands balanced needs above = (
  s,
  loop_stops fuel head n p s child,
  whole-Done s head path n true a b (some n) (s.parent n) stands (
      plug-IsRedBlack path (node n true a b) k needs balanced
        (λ h. absurd (true-false (sym h ∙ above)))),
)

pub top-Ends :
    (fuel : ℕ) (s : NodeBase) (head n k : ℕ) (a b : Tree)
    → Stands s head [] (node n true a b) (some n) (s.parent n)
    → Balanced (node n true a b) k
    → Ends (suc fuel) s head n (inorder (node n true a b))
unfolding insert_loop
top-Ends fuel s head n k a b stands (j, e, black, ba, bb) = (
  s,
  rw (stands.on_path.0, points_to-same n, insert_loop) refl,
  (
    n,
    true,
    a,
    b,
    leave_all s head [] (node n true a b) (some n) (s.parent n) stands,
    refl,
    suc j,
    (j, refl, (λ h. absurd (true-false (sym h))), ba, bb),
  ),
)

-- A round with a red uncle goes on at the grandparent.
pub red-Ends :
    (fuel : ℕ) (s t : NodeBase) (head n p g : ℕ) (before order : List ℕ)
    → IsChild s head n p true
    → s.parent p ≡ some g
    → mend head n p g s ≡ some (g, t)
    → Ends fuel t head g before
    → before ≡ order
    → Ends (suc fuel) s head n order
red-Ends fuel s t head n p g before order child grand mended (u, run, done) e =
    (u, loop_goes_on fuel head n p s g g t child grand mended ∙ run, subst (Done u head) e done)
