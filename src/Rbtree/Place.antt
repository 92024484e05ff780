-- ===== src/Rbtree/Place.antt =====
-- A subtree and the path from it up to the header, and what changes elsewhere leave alone.
use libstappler_common.Common.{
  ℕ, ◌+◌, ◌≤◌, ◌≡◌, ◌≢◌, sym, ◌∙◌, arith, Bool, true, List, [], ◌∷◌, Option, some, if◌then◌else◌,
  ◌==◌,
}
use mathlib.Core.Path.{subst}
use mathlib.Core.Option.{some-injective}
use libstappler_common.Rbtree.Nodes.{NodeBase}
use libstappler_common.Rbtree.Shape.{Tree, leaf, node, Shows}

abbrev pub one : ℕ → ℕ → ℕ
one x a = if a == x then 1 else 0

-- How often an address occurs.
abbrev pub tally : ℕ → Tree → ℕ
tally x leaf = 0
tally x (node a red l r) = one x a + (tally x l + tally x r)

-- A node above the subtree: its address and colour, and its other subtree.
pub data Frame : Type 0 where
  in_left : ℕ → Bool → Tree → Frame
  in_right : ℕ → Bool → Tree → Frame

abbrev pub tally_path : ℕ → List Frame → ℕ
tally_path x [] = 0
tally_path x (in_left a red r ∷ path) = one x a + (tally x r + tally_path x path)
tally_path x (in_right a red l ∷ path) = one x a + (tally x l + tally_path x path)

-- `OnPath s head path ptr par`: the place below the path holds the pointer `ptr` and belongs to the node `par`.
abbrev pub OnPath : NodeBase → ℕ → List Frame → Option ℕ → Option ℕ → Type 0
OnPath s head [] ptr par = (s.left head ≡ ptr) × (par ≡ some head)
OnPath s head (in_left a red r ∷ path) ptr par =
    (s.left a ≡ ptr)
    × (par ≡ some a)
    × (s.red a ≡ red)
    × Shows s r (s.right a) (some a)
    × OnPath s head path (some a) (s.parent a)
OnPath s head (in_right a red l ∷ path) ptr par =
    (s.right a ≡ ptr)
    × (par ≡ some a)
    × (s.red a ≡ red)
    × Shows s l (s.left a) (some a)
    × OnPath s head path (some a) (s.parent a)

pub record Agrees (s t : NodeBase) (a : ℕ) : Type 0 where
  pub parent : t.parent a ≡ s.parent a
  pub left : t.left a ≡ s.left a
  pub right : t.right a ≡ s.right a
  pub red : t.red a ≡ s.red a

pub one-same : (a : ℕ) → one a a ≡ 1
one-same a = ground arith

pub one-other : (x a : ℕ) → x ≢ a → one x a ≡ 0
one-other x a h = ground arith

elsewhere :
    (a b : ℕ) (l r : Tree)
    → tally a (node a true l r) ≤ 1
    → 1 ≤ tally b l + tally b r
    → some a ≡ some b
    → ⊥
elsewhere a b l r distinct inside same =
    let e = some-injective a b same in
    let inside_a : 1 ≤ tally a l + tally a r =
      subst (λ (x : ℕ). 1 ≤ tally x l + tally x r) (sym e) inside in
    absurd (omega (arith, one-same a))

module _ (s t : NodeBase) where
  pub Shows-Agrees :
      (tree : Tree) (ptr par : Option ℕ)
      → ((a : ℕ) → 1 ≤ tally a tree → Agrees s t a)
      → Shows s tree ptr par
      → Shows t tree ptr par
  Shows-Agrees leaf ptr par agree shows = shows
  Shows-Agrees (node a red l r) ptr par agree (e, pe, ce, sl, sr) =
      let at = agree a (omega (arith, one-same a)) in
      (
        e,
        at.parent ∙ pe,
        at.red ∙ ce,
        subst (λ (x : Option ℕ). Shows t l x (some a)) (sym at.left)
            (Shows-Agrees l (s.left a) (some a) (λ b h. agree b (omega arith)) sl),
        subst (λ (x : Option ℕ). Shows t r x (some a)) (sym at.right)
            (Shows-Agrees r (s.right a) (some a) (λ b h. agree b (omega arith)) sr),
      )

  pub OnPath-Agrees :
      (head : ℕ) (path : List Frame) (ptr par : Option ℕ)
      → ((a : ℕ) → 1 ≤ tally_path a path → Agrees s t a)
      → t.left head ≡ s.left head
      → OnPath s head path ptr par
      → OnPath t head path ptr par
  OnPath-Agrees head [] ptr par agree root (e, pe) = (root ∙ e, pe)
  OnPath-Agrees head (in_left a red r ∷ path) ptr par agree root (e, pe, ce, sr, up) =
      let at = agree a (omega (arith, one-same a)) in
      (
        at.left ∙ e,
        pe,
        at.red ∙ ce,
        subst (λ (x : Option ℕ). Shows t r x (some a)) (sym at.right)
            (Shows-Agrees r (s.right a) (some a) (λ b h. agree b (omega arith)) sr),
        subst (λ (x : Option ℕ). OnPath t head path (some a) x) (sym at.parent)
            (OnPath-Agrees head path (some a) (s.parent a) (λ b h. agree b (omega arith)) root up),
      )
  OnPath-Agrees head (in_right a red l ∷ path) ptr par agree root (e, pe, ce, sl, up) =
      let at = agree a (omega (arith, one-same a)) in
      (
        at.right ∙ e,
        pe,
        at.red ∙ ce,
        subst (λ (x : Option ℕ). Shows t l x (some a)) (sym at.left)
            (Shows-Agrees l (s.left a) (some a) (λ b h. agree b (omega arith)) sl),
        subst (λ (x : Option ℕ). OnPath t head path (some a) x) (sym at.parent)
            (OnPath-Agrees head path (some a) (s.parent a) (λ b h. agree b (omega arith)) root up),
      )

  -- The root gets another parent.
  pub Shows-moved :
      (tree : Tree) (ptr par new : Option ℕ)
      → ((x : ℕ) → tally x tree ≤ 1)
      → ((a : ℕ) → 1 ≤ tally a tree → (ptr ≢ some a) → Agrees s t a)
      → ((a : ℕ)
          → ptr ≡ some a
          → (t.parent a ≡ new)
            × (t.left a ≡ s.left a)
            × (t.right a ≡ s.right a)
            × (t.red a ≡ s.red a))
      → Shows s tree ptr par
      → Shows t tree ptr new
  Shows-moved leaf ptr par new distinct agree moved shows = shows
  Shows-moved (node a red l r) ptr par new distinct agree moved (e, pe, ce, sl, sr) =
      let (mp, ml, mr, mc) = moved a e in
      let other : (b : ℕ) → 1 ≤ tally b l + tally b r → Agrees s t b =
        λ b h. agree b (omega arith) (λ z. elsewhere a b l r (distinct a) h (sym e ∙ z)) in
      (
        e,
        mp,
        mc ∙ ce,
        subst (λ (x : Option ℕ). Shows t l x (some a)) (sym ml)
            (Shows-Agrees l (s.left a) (some a) (λ b h. other b (omega arith)) sl),
        subst (λ (x : Option ℕ). Shows t r x (some a)) (sym mr)
            (Shows-Agrees r (s.right a) (some a) (λ b h. other b (omega arith)) sr),
      )

-- A tree in its place below a path, with no address twice.
pub record Stands (s : NodeBase) (head : ℕ) (path : List Frame) (tree : Tree) (ptr par : Option ℕ)
    : Type 0 where
  pub on_path : OnPath s head path ptr par
  pub shows : Shows s tree ptr par
  pub distinct : (x : ℕ) → one x head + (tally_path x path + tally x tree) ≤ 1

-- What `t` has as `s`: all the colours, the header but for its left pointer, and every node that is neither the
-- header nor on the path nor in the tree.
pub record Spares (s t : NodeBase) (head : ℕ) (path : List Frame) (tree : Tree) : Type 0 where
  pub red : t.red ≡ s.red
  pub head_parent : t.parent head ≡ s.parent head
  pub head_right : t.right head ≡ s.right head
  pub elsewhere : (q : ℕ) → one q head + (tally_path q path + tally q tree) ≡ 0 → Agrees s t q
