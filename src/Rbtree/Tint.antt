-- ===== src/Rbtree/Tint.antt =====
-- New colours for some nodes of a tree in its place.
use libstappler_common.Common.{ℕ, ◌+◌, ◌≤◌, ◌≡◌, refl, arith, Bool, List, Option, some}
use libstappler_common.Rbtree.Nodes.{NodeBase}
use libstappler_common.Rbtree.Shape.{Tree, node, Shows}
use libstappler_common.Rbtree.Place.{
  one, tally, Frame, tally_path, OnPath, Shows-Agrees, OnPath-Agrees, Stands,
}

module _ (s : NodeBase) (f : ℕ → Bool) (head : ℕ) (path : List Frame) (ptr par : Option ℕ) where
  abbrev tinted : NodeBase
  tinted = record s { red = f }

  tinted-Shows :
      (tree : Tree) (p q : Option ℕ)
      → ((x : ℕ) → 1 ≤ tally x tree → f x ≡ s.red x)
      → Shows s tree p q
      → Shows tinted tree p q
  tinted-Shows tree p q same shows =
      Shows-Agrees s tinted tree p q
        (λ x h. record { parent = refl; left = refl; right = refl; red = same x h }) shows

  tinted-OnPath :
      ((x : ℕ) → 1 ≤ tally_path x path → f x ≡ s.red x)
      → OnPath s head path ptr par
      → OnPath tinted head path ptr par
  tinted-OnPath same on =
      OnPath-Agrees s tinted head path ptr par
        (λ x h. record { parent = refl; left = refl; right = refl; red = same x h }) refl on

  -- The node alone.
  pub tint_root-Stands :
      (g : ℕ) (cg ng : Bool) (x z : Tree)
      → Stands s head path (node g cg x z) ptr par
      → f g ≡ ng
      → ((q : ℕ) → one q g ≡ 0 → f q ≡ s.red q)
      → Stands tinted head path (node g ng x z) ptr par
  tint_root-Stands g cg ng x z stands is_g same =
      let dist = stands.distinct in
      let (eg, pg, rg, sx, sz) = stands.shows in
      record {
        on_path = tinted-OnPath (λ q h. same q (omega (arith, dist q))) stands.on_path;
        shows = (
          eg,
          pg,
          is_g,
          tinted-Shows x (s.left g) (some g) (λ q h. same q (omega (arith, dist q))) sx,
          tinted-Shows z (s.right g) (some g) (λ q h. same q (omega (arith, dist q))) sz,
        );
        distinct = λ q. omega (arith, dist q);
      }

  module _ (g p : ℕ) (cg cp : Bool) (x y z : Tree) where
    -- The node and its left child.
    pub tint_left-Stands :
        (ng np : Bool)
        → Stands s head path (node g cg (node p cp x y) z) ptr par
        → f g ≡ ng
        → f p ≡ np
        → ((q : ℕ) → one q g + one q p ≡ 0 → f q ≡ s.red q)
        → Stands tinted head path (node g ng (node p np x y) z) ptr par
    tint_left-Stands ng np stands is_g is_p same =
        let dist = stands.distinct in
        let (eg, pg, rg, (ep, pp, rp, sx, sy), sz) = stands.shows in
        record {
          on_path = tinted-OnPath (λ q h. same q (omega (arith, dist q))) stands.on_path;
          shows = (
            eg,
            pg,
            is_g,
            (
              ep,
              pp,
              is_p,
              tinted-Shows x (s.left p) (some p) (λ q h. same q (omega (arith, dist q))) sx,
              tinted-Shows y (s.right p) (some p) (λ q h. same q (omega (arith, dist q))) sy,
            ),
            tinted-Shows z (s.right g) (some g) (λ q h. same q (omega (arith, dist q))) sz,
          );
          distinct = λ q. omega (arith, dist q);
        }

    -- The node and its right child.
    pub tint_right-Stands :
        (ng np : Bool)
        → Stands s head path (node g cg z (node p cp x y)) ptr par
        → f g ≡ ng
        → f p ≡ np
        → ((q : ℕ) → one q g + one q p ≡ 0 → f q ≡ s.red q)
        → Stands tinted head path (node g ng z (node p np x y)) ptr par
    tint_right-Stands ng np stands is_g is_p same =
        let dist = stands.distinct in
        let (eg, pg, rg, sz, (ep, pp, rp, sx, sy)) = stands.shows in
        record {
          on_path = tinted-OnPath (λ q h. same q (omega (arith, dist q))) stands.on_path;
          shows = (
            eg,
            pg,
            is_g,
            tinted-Shows z (s.left g) (some g) (λ q h. same q (omega (arith, dist q))) sz,
            (
              ep,
              pp,
              is_p,
              tinted-Shows x (s.left p) (some p) (λ q h. same q (omega (arith, dist q))) sx,
              tinted-Shows y (s.right p) (some p) (λ q h. same q (omega (arith, dist q))) sy,
            ),
          );
          distinct = λ q. omega (arith, dist q);
        }

    -- The node and both children.
    pub tint_both-Stands :
        (u : ℕ) (cu : Bool) (v w : Tree) (ng np nu : Bool)
        → Stands s head path (node g cg (node p cp x y) (node u cu v w)) ptr par
        → f g ≡ ng
        → f p ≡ np
        → f u ≡ nu
        → ((q : ℕ) → one q g + (one q p + one q u) ≡ 0 → f q ≡ s.red q)
        → Stands tinted head path (node g ng (node p np x y) (node u nu v w)) ptr par
    tint_both-Stands u cu v w ng np nu stands is_g is_p is_u same =
        let dist = stands.distinct in
        let (eg, pg, rg, (ep, pp, rp, sx, sy), (eu, pu, ru, sv, sw)) = stands.shows in
        record {
          on_path = tinted-OnPath (λ q h. same q (omega (arith, dist q))) stands.on_path;
          shows = (
            eg,
            pg,
            is_g,
            (
              ep,
              pp,
              is_p,
              tinted-Shows x (s.left p) (some p) (λ q h. same q (omega (arith, dist q))) sx,
              tinted-Shows y (s.right p) (some p) (λ q h. same q (omega (arith, dist q))) sy,
            ),
            (
              eu,
              pu,
              is_u,
              tinted-Shows v (s.left u) (some u) (λ q h. same q (omega (arith, dist q))) sv,
              tinted-Shows w (s.right u) (some u) (λ q h. same q (omega (arith, dist q))) sw,
            ),
          );
          distinct = λ q. omega (arith, dist q);
        }
