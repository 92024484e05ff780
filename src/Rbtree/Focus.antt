-- ===== src/Rbtree/Focus.antt =====
-- From a tree in its place to its subtrees and back.
use libstappler_common.Common.{ℕ, ◌≡◌, refl, sym, arith, Bool, false, List, [], ◌∷◌, Option, some}
use mathlib.Core.Path.{subst}
use libstappler_common.Rbtree.Nodes.{NodeBase, points_to}
use libstappler_common.Rbtree.Shape.{Tree, node, Shows}
use libstappler_common.Rbtree.Place.{Frame, in_left, in_right, OnPath, one-same, Stands}
use libstappler_common.Rbtree.Attach.{not_root}
use libstappler_common.Rbtree.Balance.{plug}

module _ (s : NodeBase) (head : ℕ) (path : List Frame) where
  module _ (a : ℕ) (red : Bool) (l r : Tree) (ptr par : Option ℕ) where
    own_place :
        Stands s head path (node a red l r) ptr par → OnPath s head path (some a) (s.parent a)
    own_place stands =
        let (e, pe, ra, sl, sr) = stands.shows in
        subst (λ (x : Option ℕ). OnPath s head path x (s.parent a)) e
          (subst (λ (x : Option ℕ). OnPath s head path ptr x) (sym pe) stands.on_path)

    pub at_own :
        Stands s head path (node a red l r) ptr par
        → Stands s head path (node a red l r) (some a) (s.parent a)
    at_own stands =
        let dist = stands.distinct in
        let (e, pe, ra, sl, sr) = stands.shows in
        record { on_path = own_place stands; shows = (refl, refl, ra, sl, sr); distinct = dist }

    pub enter_left :
        Stands s head path (node a red l r) ptr par
        → Stands s head (in_left a red r ∷ path) l (s.left a) (some a)
    enter_left stands =
        let dist = stands.distinct in
        let (e, pe, ra, sl, sr) = stands.shows in
        record {
          on_path = (refl, refl, ra, sr, own_place stands);
          shows = sl;
          distinct = λ x. omega (arith, dist x);
        }

    pub enter_right :
        Stands s head path (node a red l r) ptr par
        → Stands s head (in_right a red l ∷ path) r (s.right a) (some a)
    enter_right stands =
        let dist = stands.distinct in
        let (e, pe, ra, sl, sr) = stands.shows in
        record {
          on_path = (refl, refl, ra, sl, own_place stands);
          shows = sr;
          distinct = λ x. omega (arith, dist x);
        }

  module _ (a : ℕ) (red : Bool) (t other : Tree) (ptr par : Option ℕ) where
    pub leave_left :
        Stands s head (in_left a red other ∷ path) t ptr par
        → Stands s head path (node a red t other) (some a) (s.parent a)
    leave_left stands =
        let dist = stands.distinct in
        let (e, pe, ra, so, up) = stands.on_path in
        record {
          on_path = up;
          shows = (
            refl,
            refl,
            ra,
            subst (λ (x : Option ℕ). Shows s t x (some a)) (sym e)
                (subst (λ (x : Option ℕ). Shows s t ptr x) pe stands.shows),
            so,
          );
          distinct = λ x. omega (arith, dist x);
        }

    pub leave_right :
        Stands s head (in_right a red other ∷ path) t ptr par
        → Stands s head path (node a red other t) (some a) (s.parent a)
    leave_right stands =
        let dist = stands.distinct in
        let (e, pe, ra, so, up) = stands.on_path in
        record {
          on_path = up;
          shows = (
            refl,
            refl,
            ra,
            so,
            subst (λ (x : Option ℕ). Shows s t x (some a)) (sym e)
                (subst (λ (x : Option ℕ). Shows s t ptr x) pe stands.shows),
          );
          distinct = λ x. omega (arith, dist x);
        }

-- The whole tree below the header.
pub leave_all :
    (s : NodeBase) (head : ℕ) (path : List Frame) (t : Tree) (ptr par : Option ℕ)
    → Stands s head path t ptr par
    → Stands s head [] (plug path t) (s.left head) (some head)
leave_all s head [] t ptr par stands =
    let (e, pe) = stands.on_path in
    record {
      on_path = (refl, refl);
      shows =
          subst (λ (x : Option ℕ). Shows s t x (some head)) (sym e)
            (subst (λ (x : Option ℕ). Shows s t ptr x) pe stands.shows);
      distinct = stands.distinct;
    }
leave_all s head (in_left a red r ∷ path) t ptr par stands =
    leave_all s head path (node a red t r) (some a) (s.parent a)
      (leave_left s head path a red t r ptr par stands)
leave_all s head (in_right a red l ∷ path) t ptr par stands =
    leave_all s head path (node a red l t) (some a) (s.parent a)
      (leave_right s head path a red t l ptr par stands)

-- What the loop reads of the node `n` below `p`.
pub record IsChild (s : NodeBase) (head n p : ℕ) (red : Bool) : Type 0 where
  pub not_top : points_to (s.left head) n ≡ false
  pub parent : s.parent n ≡ some p
  pub color : s.red p ≡ red

module _ (s : NodeBase) (head n p : ℕ) (red c : Bool) (a b other : Tree) (path : List Frame)
    (ptr par : Option ℕ) where
  pub left-IsChild :
      Stands s head path (node p red (node n c a b) other) ptr par → IsChild s head n p red
  left-IsChild stands =
      let (e, pe, rp, (en, pn, rest, sa, sb), so) = stands.shows in
      let dist = stands.distinct n in
      record {
        not_top =
            not_root head n n s p path (s.parent p)
              (own_place s head path p red (node n c a b) other ptr par stands)
              (omega (arith, dist, one-same n));
        parent = pn;
        color = rp;
      }

  pub right-IsChild :
      Stands s head path (node p red other (node n c a b)) ptr par → IsChild s head n p red
  right-IsChild stands =
      let (e, pe, rp, so, (en, pn, rest, sa, sb)) = stands.shows in
      let dist = stands.distinct n in
      record {
        not_top =
            not_root head n n s p path (s.parent p)
              (own_place s head path p red other (node n c a b) ptr par stands)
              (omega (arith, dist, one-same n));
        parent = pn;
        color = rp;
      }
