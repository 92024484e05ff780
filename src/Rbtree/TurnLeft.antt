-- ===== src/Rbtree/TurnLeft.antt =====
-- `RotateLeft` turns the tree and leaves all else alone.
use libstappler_common.Common.{
  ℕ, ◌+◌, ◌≤◌, ◌≡◌, refl, sym, ap, ◌∙◌, arith, Bool, false, List, Option, some,
}
use mathlib.Core.Path.{subst}
use libstappler_common.Rbtree.Nodes.{NodeBase, set, points_to}
use libstappler_common.Rbtree.Rotate.{rotate_left}
use libstappler_common.Rbtree.Shape.{Tree, node, Shows}
use libstappler_common.Rbtree.Place.{
  one, tally, Frame, tally_path, Agrees, one-same, Shows-Agrees, OnPath-Agrees, Shows-moved, Stands,
}
use libstappler_common.Rbtree.Attach.{
  set-same, set-other, root-inside, points_to-apart, Attached, attach-Attached,
}
use libstappler_common.Rbtree.Turn.{
  points_to-apart_from, turned, turned-other, turned-upper, turned-lower, turned-middle,
}

-- The fields after the rotation.
abbrev turned_left : ℕ → ℕ → NodeBase → NodeBase → NodeBase
turned_left n p s u = record u {
  parent = turned (s.left n) n p u.parent;
  left = set u.left n (some p);
  right = set u.right p (s.left n);
}

module _ (s u : NodeBase) (head n p : ℕ) (path : List Frame) where
  left_agree :
      (par : Option ℕ)
      → Attached s u head path n par
      → (q : ℕ) → points_to (s.left n) q ≡ false
      → one q n ≡ 0
      → one q p ≡ 0
      → one q head + tally_path q path ≡ 0
      → Agrees s (turned_left n p s u) q
  left_agree par attached q apart not_n not_p off = record {
    parent =
        turned-other (s.left n) n p u.parent q apart not_n not_p
        ∙ ap (λ (f : ℕ → Option ℕ). f q) attached.parent;
    right = set-other u.right p (s.left n) q not_p ∙ attached.right q off;
    left = set-other u.left n (some p) q not_n ∙ attached.left q off;
    red = ap (λ (f : ℕ → Bool). f q) attached.red;
  }

  left_agree_path :
      (par : Option ℕ)
      → Attached s u head path n par
      → (q : ℕ) → points_to (s.left n) q ≡ false
      → one q n ≡ 0
      → one q p ≡ 0
      → Agrees u (turned_left n p s u) q
  left_agree_path par attached q apart not_n not_p = record {
    parent = turned-other (s.left n) n p u.parent q apart not_n not_p;
    right = set-other u.right p (s.left n) q not_p;
    left = set-other u.left n (some p) q not_n;
    red = refl;
  }

  -- The subtree that changes sides.
  turned_middle :
      (par : Option ℕ) (b : Tree)
      → ((x : ℕ) → tally x b ≤ 1)
      → Attached s u head path n par
      → ((q : ℕ)
          → 1 ≤ tally q b
          → (one q n ≡ 0) × (one q p ≡ 0) × (one q head + tally_path q path ≡ 0))
      → Shows s b (s.left n) (some n)
      → Shows (turned_left n p s u) b (s.left n) (some p)
  turned_middle par b distinct attached off sb =
      Shows-moved s (turned_left n p s u) b (s.left n) (some n) (some p) distinct
        (λ q h ne.
          let (not_n, not_p, away) = off q h in
          left_agree par attached q (points_to-apart_from (s.left n) q ne) not_n not_p away)
        (λ q e.
          let (not_n, not_p, away) = off q (root-inside s b (s.left n) (some n) q sb e) in
          (
            turned-middle (s.left n) n p u.parent q e,
            set-other u.left n (some p) q not_n ∙ attached.left q away,
            set-other u.right p (s.left n) q not_p ∙ attached.right q away,
            ap (λ (f : ℕ → Bool). f q) attached.red,
          ))
        sb

  -- `n` is the right child of `p`.
  turned_left-Stands :
      (cp cn : Bool) (a b c : Tree)
      → Stands s head path (node p cp c (node n cn b a)) (some p) (s.parent p)
      → Attached s u head path n (s.parent p)
      → Stands (turned_left n p s u) head path (node n cn (node p cp c b) a) (some n) (s.parent p)
  turned_left-Stands cp cn a b c stands attached =
      let w : NodeBase = turned_left n p s u in
      let dist = stands.distinct in
      let (ep, pp, red_p, sc, (en, pn, red_n, sb, sa)) = stands.shows in
      let same_n = one-same n in
      let same_p = one-same p in
      let apart : (q : ℕ) → tally q b ≡ 0 → points_to (s.left n) q ≡ false =
        λ q h. points_to-apart s b (s.left n) (some n) q sb h in
      let agree : (q : ℕ) → 1 ≤ tally q a + tally q c → Agrees s w q = λ q h.
        left_agree (s.parent p) attached q (apart q (omega (arith, dist q))) (omega (arith, dist q))
          (omega (arith, dist q)) (omega (arith, dist q)) in
      let right_n : w.right n ≡ s.right n =
        set-other u.right p (s.left n) n (omega (arith, dist n))
        ∙ attached.right n (omega (arith, dist n)) in
      let left_p : w.left p ≡ s.left p =
        set-other u.left n (some p) p (omega (arith, dist p))
        ∙ attached.left p (omega (arith, dist p)) in
      record {
        on_path =
            OnPath-Agrees u w head path (some n) (s.parent p)
              (λ q h.
                left_agree_path (s.parent p) attached q (apart q (omega (arith, dist q)))
                  (omega (arith, dist q)) (omega (arith, dist q)))
              (set-other u.left n (some p) head (omega (arith, dist head, one-same head)))
              attached.on_path;
        shows = (
          refl,
          turned-upper (s.left n) n p u.parent (apart n (omega (arith, dist n)))
                (omega (arith, dist n))
              ∙ ap (λ (f : ℕ → Option ℕ). f p) attached.parent,
          ap (λ (f : ℕ → Bool). f n) attached.red ∙ red_n,
          (
            set-same u.left n (some p),
            turned-lower (s.left n) n p u.parent (apart p (omega (arith, dist p))),
            ap (λ (f : ℕ → Bool). f p) attached.red ∙ red_p,
            subst (λ (x : Option ℕ). Shows w c x (some p)) (sym left_p)
                (Shows-Agrees s w c (s.left p) (some p) (λ q h. agree q (omega arith)) sc),
            subst (λ (x : Option ℕ). Shows w b x (some p)) (sym (set-same u.right p (s.left n)))
                (turned_middle (s.parent p) b (λ x. omega (arith, dist x)) attached
                  (λ q h. (omega (arith, dist q), omega (arith, dist q), omega (arith, dist q)))
                  sb),
          ),
          subst (λ (x : Option ℕ). Shows w a x (some n)) (sym right_n)
              (Shows-Agrees s w a (s.right n) (some n) (λ q h. agree q (omega arith)) sa),
        );
        distinct = λ x. omega (arith, dist x);
      }

-- On a tree in its place below a path, `RotateLeft` of a right child ends, and the pointers then stand for the turned
-- tree in that place, with the same colours below the same path, and no address twice.
pub rotate_left-Stands :
    (s : NodeBase) (head n p : ℕ) (path : List Frame) (cp cn : Bool) (a b c : Tree)
    → Stands s head path (node p cp c (node n cn b a)) (some p) (s.parent p)
    → (t : NodeBase) × (rotate_left head n p s ≡ some t)
      × Stands t head path (node n cn (node p cp c b) a) (some n) (s.parent p)
unfolding rotate_left
rotate_left-Stands s head n p path cp cn a b c stands =
    let dist = stands.distinct in
    let (u, attaches, attached) =
      attach-Attached head n p s path stands.on_path (omega (arith, dist p, one-same p))
        (λ x. omega (arith, dist x)) in
    (
      turned_left n p s u,
      rw (attaches, rotate_left) refl,
      turned_left-Stands s u head n p path cp cn a b c stands attached,
    )
