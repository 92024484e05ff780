-- ===== src/Rbtree/Attach.antt =====
-- A node takes another one's place below its parent or the header.
use libstappler_common.Common.{
  ℕ, ◌+◌, ◌≤◌, ◌≡◌, refl, sym, ap, ◌∙◌, arith, inl, inr, true, false, List, [], ◌∷◌, Option, some,
  Bool-cases, ◌==◌, ==_iff,
}
use mathlib.Core.Option.{some-injective, none-ne-some}
use libstappler_common.Rbtree.Nodes.{NodeBase, set, points_to}
use libstappler_common.Rbtree.Rotate.{attach}
use libstappler_common.Rbtree.Shape.{Tree, leaf, node, Shows}
use libstappler_common.Rbtree.Place.{
  one, tally, Frame, in_left, in_right, tally_path, OnPath, Agrees, one-same, Shows-Agrees,
  OnPath-Agrees,
}

module _ {A : Type 0} (f : ℕ → A) (a : ℕ) (v : A) where
  pub set-same : set f a v a ≡ v
  set-same = ground arith

  pub set-other : (q : ℕ) → one q a ≡ 0 → set f a v q ≡ f q
  set-other q h = ground arith

pub points_to-other : (b p : ℕ) → one p b ≡ 0 → points_to (some b) p ≡ false
points_to-other b p h = ground arith

pub points_to-same : (p : ℕ) → points_to (some p) p ≡ true
points_to-same p = ground arith

-- The header leads to the uppermost node.
root_above :
    (s : NodeBase) (head a : ℕ) (path : List Frame) (par : Option ℕ)
    → OnPath s head path (some a) par
    → (b : ℕ) × (s.left head ≡ some b) × (1 ≤ one b a + tally_path b path)
root_above s head a [] par (e, pe) = (a, e, omega (arith, one-same a))
root_above s head a (in_left c red r ∷ path) par (e, pe, ce, sr, up) =
    let (b, root, inside) = root_above s head c path (s.parent c) up in (b, root, omega arith)
root_above s head a (in_right c red l ∷ path) par (e, pe, ce, sl, up) =
    let (b, root, inside) = root_above s head c path (s.parent c) up in (b, root, omega arith)

pub points_to-apart :
    (s : NodeBase) (tree : Tree) (ptr par : Option ℕ) (p : ℕ)
    → Shows s tree ptr par
    → tally p tree ≡ 0
    → points_to ptr p ≡ false
points_to-apart s leaf ptr par p e h = rw e refl
points_to-apart s (node a red l r) ptr par p (e, pe, ce, sl, sr) h =
    rw e (points_to-other a p (omega arith))

-- The pointer to a tree is the address of one of its nodes.
pub root-inside :
    (s : NodeBase) (tree : Tree) (ptr par : Option ℕ) (q : ℕ)
    → Shows s tree ptr par
    → ptr ≡ some q
    → 1 ≤ tally q tree
root-inside s leaf ptr par q e h = absurd (none-ne-some q (sym e ∙ h))
root-inside s (node a red l r) ptr par q (e, pe, ce, sl, sr) h =
    let same = some-injective a q (sym e ∙ h) in
    omega (arith, one-same q, ap (λ (x : ℕ). one q x) same)

-- What `attach` leaves alone: all but the one field.
pub record Attached (s u : NodeBase) (head : ℕ) (path : List Frame) (n : ℕ) (par : Option ℕ)
    : Type 0 where
  pub parent : u.parent ≡ s.parent
  pub red : u.red ≡ s.red
  pub on_path : OnPath u head path (some n) par
  pub left : (a : ℕ) → one a head + tally_path a path ≡ 0 → u.left a ≡ s.left a
  pub right : (a : ℕ) → one a head + tally_path a path ≡ 0 → u.right a ≡ s.right a
  pub head_right : u.right head ≡ s.right head

module _ (head n p : ℕ) (s : NodeBase) where
  pub not_root :
      (a : ℕ) (path : List Frame) (par : Option ℕ)
      → OnPath s head path (some a) par
      → one p a + tally_path p path ≡ 0
      → points_to (s.left head) p ≡ false
  not_root a path par on apart =
      let (b, root, inside) = root_above s head a path par on in
      rw root (elim (Bool-cases (b == p)) [
        | inl y ↦
            let same : b ≡ p = (==_iff b p).0 y in
            absurd (omega (arith, ap (λ (x : ℕ). one x a + tally_path x path) same))
        | inr m ↦ m
      ])

  pub attach-Attached :
      (path : List Frame)
      → OnPath s head path (some p) (s.parent p)
      → one p head + tally_path p path ≡ 0
      → ((x : ℕ) → one x head + tally_path x path ≤ 1)
      → (u : NodeBase) × (attach head n p s ≡ some u) × Attached s u head path n (s.parent p)
  unfolding attach
  attach-Attached [] (e, pe) apart distinct = (
    record s { left = set s.left head (some n) },
    rw (e, points_to-same p, attach) refl,
    record {
      parent = refl;
      red = refl;
      on_path = (set-same s.left head (some n), pe);
      left = λ a h. set-other s.left head (some n) a (omega arith);
      right = λ a h. refl;
      head_right = refl;
    },
  )
  attach-Attached (in_left a red r ∷ path) (e, pe, ce, sr, up) apart distinct =
      let u : NodeBase = record s { left = set s.left a (some n) } in
      let agree : (b : ℕ) → one b a ≡ 0 → Agrees s u b = λ b h. record {
        parent = refl;
        left = set-other s.left a (some n) b h;
        right = refl;
        red = refl;
      } in
      (
        u,
        rw
            (
              not_root a path (s.parent a) up (omega arith),
              pe,
              points_to-apart s r (s.right a) (some a) p sr (omega arith),
              attach,
            )
            refl,
        record {
          parent = refl;
          red = refl;
          on_path = (
            set-same s.left a (some n),
            pe,
            ce,
            Shows-Agrees s u r (s.right a) (some a) (λ b h. agree b (omega (arith, distinct b))) sr,
            OnPath-Agrees s u head path (some a) (s.parent a)
                (λ b h. agree b (omega (arith, distinct b)))
                (set-other s.left a (some n) head (omega (arith, distinct head, one-same head))) up,
          );
          left = λ b h. set-other s.left a (some n) b (omega arith);
          right = λ b h. refl;
          head_right = refl;
        },
      )
  attach-Attached (in_right a red l ∷ path) (e, pe, ce, sl, up) apart distinct =
      let u : NodeBase = record s { right = set s.right a (some n) } in
      let agree : (b : ℕ) → one b a ≡ 0 → Agrees s u b = λ b h. record {
        parent = refl;
        left = refl;
        right = set-other s.right a (some n) b h;
        red = refl;
      } in
      (
        u,
        rw (not_root a path (s.parent a) up (omega arith), pe, e, points_to-same p, attach) refl,
        record {
          parent = refl;
          red = refl;
          on_path = (
            set-same s.right a (some n),
            pe,
            ce,
            Shows-Agrees s u l (s.left a) (some a) (λ b h. agree b (omega (arith, distinct b))) sl,
            OnPath-Agrees s u head path (some a) (s.parent a)
                (λ b h. agree b (omega (arith, distinct b))) refl up,
          );
          left = λ b h. refl;
          right = λ b h. set-other s.right a (some n) b (omega arith);
          head_right =
              set-other s.right a (some n) head (omega (arith, distinct head, one-same head));
        },
      )
