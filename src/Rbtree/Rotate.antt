-- ===== src/Rbtree/Rotate.antt =====
-- `RotateLeft`, `RotateRight` and `NodeBase::insert`, the loop that mends the tree behind a new node.
use libstappler_common.Common.{
  ◌>>=◌, ℕ, zero, suc, Bool, true, false, Option, none, some, if◌then◌else◌,
}
use libstappler_common.Rbtree.Nodes.{NodeBase, set, points_to}

-- `n` takes the place of `p` below the parent of `p`.
unfoldable pub attach : ℕ → ℕ → ℕ → NodeBase → Option NodeBase
attach head n p s =
    if points_to (s.left head) p
    then some (record s { left = set s.left head (some n) })
    else (s.parent p >>= λ q. some (
        if points_to (s.right q) p
        then (record s { right = set s.right q (some n) })
        else (record s { left = set s.left q (some n) })))

-- `if (tmp) tmp->parent = p`
abbrev pub set_parent : Option ℕ → ℕ → (ℕ → Option ℕ) → ℕ → Option ℕ
set_parent none p f = f
set_parent (some t) p f = set f t (some p)

unfoldable pub rotate_left : ℕ → ℕ → ℕ → NodeBase → Option NodeBase
rotate_left head n p s = attach head n p s >>= λ t. some (record t {
  parent = set_parent (s.left n) p (set (set t.parent n (t.parent p)) p (some n));
  left = set t.left n (some p);
  right = set t.right p (s.left n);
})

unfoldable pub rotate_right : ℕ → ℕ → ℕ → NodeBase → Option NodeBase
rotate_right head n p s = attach head n p s >>= λ t. some (record t {
  parent = set_parent (s.right n) p (set (set t.parent n (t.parent p)) p (some n));
  left = set t.left p (s.right n);
  right = set t.right n (some p);
})

abbrev pub set_color : ℕ → Bool → NodeBase → NodeBase
set_color a red s = record s { red = set s.red a red }

-- `u && u->getColor() == NodeColor::Red`
abbrev pub is_red : Option ℕ → NodeBase → Bool
is_red none s = false
is_red (some u) s = s.red u

-- The colours of a step with a red uncle.
unfoldable pub recolor : ℕ → Option ℕ → ℕ → NodeBase → NodeBase
recolor p none g s = set_color g true (set_color p false s)
recolor p (some u) g s = set_color g true (set_color u false (set_color p false s))

-- A step with a black uncle, where `p` is the left child of `g`, and where it is the right one; the first result is
-- the `n` of the next round.
unfoldable pub mend_left : ℕ → ℕ → ℕ → ℕ → NodeBase → Option (ℕ × NodeBase)
mend_left head n p g s =
    if points_to (s.right p) n
    then (rotate_left head n p s >>= λ t.
        rotate_right head n g (set_color g true (set_color n false t)) >>= λ u. some (p, u))
    else (rotate_right head p g (set_color g true (set_color p false s)) >>= λ u. some (n, u))

unfoldable pub mend_right : ℕ → ℕ → ℕ → ℕ → NodeBase → Option (ℕ × NodeBase)
mend_right head n p g s =
    if points_to (s.left p) n
    then (rotate_right head n p s >>= λ t.
        rotate_left head n g (set_color g true (set_color n false t)) >>= λ u. some (p, u))
    else (rotate_left head p g (set_color g true (set_color p false s)) >>= λ u. some (n, u))

-- One round below the grandparent `g`.
unfoldable pub mend : ℕ → ℕ → ℕ → ℕ → NodeBase → Option (ℕ × NodeBase)
mend head n p g s =
    if points_to (s.left g) p
    then (if is_red (s.right g) s
        then some (g, recolor p (s.right g) g s)
        else mend_left head n p g s)
    else (if is_red (s.left g) s
        then some (g, recolor p (s.left g) g s)
        else mend_right head n p g s)

unfoldable pub insert_loop : ℕ → ℕ → ℕ → NodeBase → Option NodeBase
insert_loop zero head n s = none
insert_loop (suc fuel) head n s =
    if points_to (s.left head) n
    then some s
    else (s.parent n >>= λ p.
        if s.red p
        then (s.parent p >>= λ g. mend head n p g s >>= λ (next, t). insert_loop fuel head next t)
        else some s)

unfoldable pub insert : ℕ → ℕ → ℕ → NodeBase → Option NodeBase
insert fuel head n s =
    insert_loop fuel head n s >>= λ t. t.left head >>= λ r. some (set_color r false t)
