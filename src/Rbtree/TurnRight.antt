-- ===== src/Rbtree/TurnRight.antt =====
-- `RotateRight` turns the tree and leaves all else alone.
use libstappler_common.Common.{
  ℕ, ◌+◌, ◌≤◌, ◌≡◌, refl, sym, ap, ◌∙◌, arith, Bool, false, List, Option, some,
}
use mathlib.Core.Path.{subst}
use libstappler_common.Rbtree.Nodes.{NodeBase, set, points_to}
use libstappler_common.Rbtree.Rotate.{rotate_right}
use libstappler_common.Rbtree.Shape.{Tree, node, Shows}
use libstappler_common.Rbtree.Place.{
  one, tally, Frame, tally_path, Agrees, one-same, Shows-Agrees, OnPath-Agrees, Shows-moved, Stands,
  Spares,
}
use libstappler_common.Rbtree.Attach.{
  set-same, set-other, root-inside, points_to-apart, Attached, attach-Attached,
}
use libstappler_common.Rbtree.Turn.{
  points_to-apart_from, turned, turned-other, turned-upper, turned-lower, turned-middle,
}

-- The fields after the rotation.
abbrev turned_right : ℕ → ℕ → NodeBase → NodeBase → NodeBase
turned_right n p s u = record u {
  parent = turned (s.right n) n p u.parent;
  left = set u.left p (s.right n);
  right = set u.right n (some p);
}

module _ (s u : NodeBase) (head n p : ℕ) (path : List Frame) where
  right_agree :
      (par : Option ℕ)
      → Attached s u head path n par
      → (q : ℕ) → points_to (s.right n) q ≡ false
      → one q n ≡ 0
      → one q p ≡ 0
      → one q head + tally_path q path ≡ 0
      → Agrees s (turned_right n p s u) q
  right_agree par attached q apart not_n not_p off = record {
    parent =
        turned-other (s.right n) n p u.parent q apart not_n not_p
        ∙ ap (λ (f : ℕ → Option ℕ). f q) attached.parent;
    left = set-other u.left p (s.right n) q not_p ∙ attached.left q off;
    right = set-other u.right n (some p) q not_n ∙ attached.right q off;
    red = ap (λ (f : ℕ → Bool). f q) attached.red;
  }

  right_agree_path :
      (par : Option ℕ)
      → Attached s u head path n par
      → (q : ℕ) → points_to (s.right n) q ≡ false
      → one q n ≡ 0
      → one q p ≡ 0
      → Agrees u (turned_right n p s u) q
  right_agree_path par attached q apart not_n not_p = record {
    parent = turned-other (s.right n) n p u.parent q apart not_n not_p;
    left = set-other u.left p (s.right n) q not_p;
    right = set-other u.right n (some p) q not_n;
    red = refl;
  }

  -- The subtree that changes sides.
  turned_middle :
      (par : Option ℕ) (b : Tree)
      → ((x : ℕ) → tally x b ≤ 1)
      → Attached s u head path n par
      → ((q : ℕ)
          → 1 ≤ tally q b
          → (one q n ≡ 0) × (one q p ≡ 0) × (one q head + tally_path q path ≡ 0))
      → Shows s b (s.right n) (some n)
      → Shows (turned_right n p s u) b (s.right n) (some p)
  turned_middle par b distinct attached off sb =
      Shows-moved s (turned_right n p s u) b (s.right n) (some n) (some p) distinct
        (λ q h ne.
          let (not_n, not_p, away) = off q h in
          right_agree par attached q (points_to-apart_from (s.right n) q ne) not_n not_p away)
        (λ q e.
          let (not_n, not_p, away) = off q (root-inside s b (s.right n) (some n) q sb e) in
          (
            turned-middle (s.right n) n p u.parent q e,
            set-other u.left p (s.right n) q not_p ∙ attached.left q away,
            set-other u.right n (some p) q not_n ∙ attached.right q away,
            ap (λ (f : ℕ → Bool). f q) attached.red,
          ))
        sb

  -- `n` is the left child of `p`.
  turned_right-Stands :
      (cp cn : Bool) (a b c : Tree)
      → Stands s head path (node p cp (node n cn a b) c) (some p) (s.parent p)
      → Attached s u head path n (s.parent p)
      → Stands (turned_right n p s u) head path (node n cn a (node p cp b c)) (some n) (s.parent p)
  turned_right-Stands cp cn a b c stands attached =
      let w : NodeBase = turned_right n p s u in
      let dist = stands.distinct in
      let (ep, pp, red_p, (en, pn, red_n, sa, sb), sc) = stands.shows in
      let same_n = one-same n in
      let same_p = one-same p in
      let apart : (q : ℕ) → tally q b ≡ 0 → points_to (s.right n) q ≡ false =
        λ q h. points_to-apart s b (s.right n) (some n) q sb h in
      let agree : (q : ℕ) → 1 ≤ tally q a + tally q c → Agrees s w q = λ q h.
        right_agree (s.parent p) attached q (apart q (omega (arith, dist q)))
          (omega (arith, dist q)) (omega (arith, dist q)) (omega (arith, dist q)) in
      let left_n : w.left n ≡ s.left n =
        set-other u.left p (s.right n) n (omega (arith, dist n))
        ∙ attached.left n (omega (arith, dist n)) in
      let right_p : w.right p ≡ s.right p =
        set-other u.right n (some p) p (omega (arith, dist p))
        ∙ attached.right p (omega (arith, dist p)) in
      record {
        on_path =
            OnPath-Agrees u w head path (some n) (s.parent p)
              (λ q h.
                right_agree_path (s.parent p) attached q (apart q (omega (arith, dist q)))
                  (omega (arith, dist q)) (omega (arith, dist q)))
              (set-other u.left p (s.right n) head (omega (arith, dist head, one-same head)))
              attached.on_path;
        shows = (
          refl,
          turned-upper (s.right n) n p u.parent (apart n (omega (arith, dist n)))
                (omega (arith, dist n))
              ∙ ap (λ (f : ℕ → Option ℕ). f p) attached.parent,
          ap (λ (f : ℕ → Bool). f n) attached.red ∙ red_n,
          subst (λ (x : Option ℕ). Shows w a x (some n)) (sym left_n)
              (Shows-Agrees s w a (s.left n) (some n) (λ q h. agree q (omega arith)) sa),
          (
            set-same u.right n (some p),
            turned-lower (s.right n) n p u.parent (apart p (omega (arith, dist p))),
            ap (λ (f : ℕ → Bool). f p) attached.red ∙ red_p,
            subst (λ (x : Option ℕ). Shows w b x (some p)) (sym (set-same u.left p (s.right n)))
                (turned_middle (s.parent p) b (λ x. omega (arith, dist x)) attached
                  (λ q h. (omega (arith, dist q), omega (arith, dist q), omega (arith, dist q)))
                  sb),
            subst (λ (x : Option ℕ). Shows w c x (some p)) (sym right_p)
                (Shows-Agrees s w c (s.right p) (some p) (λ q h. agree q (omega arith)) sc),
          ),
        );
        distinct = λ x. omega (arith, dist x);
      }

  -- `n` is the left child of `p`.
  turned_right-Spares :
      (cp cn : Bool) (a b c : Tree)
      → Stands s head path (node p cp (node n cn a b) c) (some p) (s.parent p)
      → Attached s u head path n (s.parent p)
      → Spares s (turned_right n p s u) head path (node p cp (node n cn a b) c)
  turned_right-Spares cp cn a b c stands attached =
      let dist = stands.distinct in
      let (ep, pp, red_p, (en, pn, red_n, sa, sb), sc) = stands.shows in
      let apart : (q : ℕ) → tally q b ≡ 0 → points_to (s.right n) q ≡ false =
        λ q h. points_to-apart s b (s.right n) (some n) q sb h in
      record {
        red = attached.red;
        head_parent =
            turned-other (s.right n) n p u.parent head
              (apart head (omega (arith, dist head, one-same head)))
              (omega (arith, dist head, one-same head)) (omega (arith, dist head, one-same head))
            ∙ ap (λ (f : ℕ → Option ℕ). f head) attached.parent;
        head_right =
            set-other u.right n (some p) head (omega (arith, dist head, one-same head))
            ∙ attached.head_right;
        elsewhere = λ q h.
            right_agree (s.parent p) attached q (apart q (omega arith)) (omega arith) (omega arith)
              (omega arith);
      }

-- On a tree in its place below a path, `RotateRight` of a left child ends, and the pointers then stand for the turned
-- tree in that place, with the same colours below the same path, and no address twice. Every colour, the header's
-- parent and right pointers, and every node outside the tree and the path are what they were (`Spares`).
pub rotate_right-Stands :
    (s : NodeBase) (head n p : ℕ) (path : List Frame) (cp cn : Bool) (a b c : Tree)
    → Stands s head path (node p cp (node n cn a b) c) (some p) (s.parent p)
    → (t : NodeBase) × (rotate_right head n p s ≡ some t)
      × Stands t head path (node n cn a (node p cp b c)) (some n) (s.parent p)
      × Spares s t head path (node p cp (node n cn a b) c)
unfolding rotate_right
rotate_right-Stands s head n p path cp cn a b c stands =
    let dist = stands.distinct in
    let (u, attaches, attached) =
      attach-Attached head n p s path stands.on_path (omega (arith, dist p, one-same p))
        (λ x. omega (arith, dist x)) in
    (
      turned_right n p s u,
      rw (attaches, rotate_right) refl,
      turned_right-Stands s u head n p path cp cn a b c stands attached,
      turned_right-Spares s u head n p path cp cn a b c stands attached,
    )
