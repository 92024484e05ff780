-- ===== src/Rbtree/Bounds.antt =====
-- The searches give the first node, in order, that passes a test.
use libstappler_common.Common.{
  ℕ, zero, suc, ◌<◌, ◌≡◌, refl, sym, ap, ◌∙◌, arith, inl, inr, Bool, true, false, not, List, [],
  ◌∷◌, ◌++◌, All, Option, none, some, Bool-cases, if◌then◌else◌,
}
use libstappler_common.Rbtree.Nodes.{NodeBase}
use libstappler_common.Rbtree.Search.{lower_from, lower_bound, upper_from, upper_bound}
use libstappler_common.Rbtree.Shape.{Tree, leaf, node, Shows, inorder, height, Ordered, first_that}

module _ (test : ℕ → Bool) where
  first_that-append :
      (d : Option ℕ) (xs ys : List ℕ)
      → first_that test d (xs ++ ys) ≡ first_that test (first_that test d ys) xs
  first_that-append d [] ys = refl
  first_that-append d (x ∷ xs) ys =
      ap (λ r. if test x then some x else r) (first_that-append d xs ys)

  -- None passes.
  first_that-none :
      (d : Option ℕ) (xs : List ℕ) → All (λ a. test a ≡ false) xs → first_that test d xs ≡ d
  first_that-none d [] all = refl
  first_that-none d (x ∷ xs) (one, all) = rw one (first_that-none d xs all)

  -- Where a node fails, all in front of it fail.
  abbrev Cut : Tree → Type 0
  Cut leaf = Unit {0}
  Cut (node a red l r) = (test a ≡ false → All (λ b. test b ≡ false) (inorder l)) × Cut l × Cut r

  first_that-passes :
      (d : Option ℕ) (a : ℕ) (l r : Tree)
      → test a ≡ true
      → first_that test d (inorder l ++ a ∷ inorder r) ≡ first_that test (some a) (inorder l)
  first_that-passes d a l r h =
      first_that-append d (inorder l) (a ∷ inorder r)
      ∙ ap (λ (e : Option ℕ). first_that test e (inorder l)) (rw h refl)

  first_that-fails :
      (d : Option ℕ) (a : ℕ) (l r : Tree)
      → test a ≡ false
      → All (λ b. test b ≡ false) (inorder l)
      → first_that test d (inorder l ++ a ∷ inorder r) ≡ first_that test d (inorder r)
  first_that-fails d a l r h all =
      first_that-append d (inorder l) (a ∷ inorder r)
      ∙ first_that-none (first_that test d (a ∷ inorder r)) (inorder l) all
      ∙ rw h refl

All-imp : {P Q : ℕ → Type 0} → ((a : ℕ) → P a → Q a) → (xs : List ℕ) → All P xs → All Q xs
All-imp f [] all = tt
All-imp f (x ∷ xs) (one, all) = (f x one, All-imp f xs all)

pub true-false : true ≡ false → ⊥
true-false e = absurd (ground arith)

true_or_false : (b : Bool) → (b ≡ true → ⊥) → b ≡ false
true_or_false true h = absurd (h refl)
true_or_false false h = refl

module _ {K : Type 0} (lt : K → K → Bool) (key : ℕ → K) where
  abbrev pub IsTransitive : Type 0
  IsTransitive = (a b c : K) → lt a b ≡ true → lt b c ≡ true → lt a c ≡ true

  -- The tests of the two searches.
  abbrev pub not_before : K → ℕ → Bool
  not_before x a = not (lt (key a) x)

  abbrev pub after : K → ℕ → Bool
  after x a = lt x (key a)

  not-false : (b : Bool) → not b ≡ false → b ≡ true
  not-false true h = refl
  not-false false h = sym h

  not_before-Cut : IsTransitive → (x : K) (t : Tree) → Ordered lt key t → Cut (not_before x) t
  not_before-Cut trans x leaf ordered = tt
  not_before-Cut trans x (node a red l r) (low, high, ol, or) = (
    λ fails.
        All-imp (λ b h. ap not (trans (key b) (key a) x h (not-false (lt (key a) x) fails)))
          (inorder l) low,
    not_before-Cut trans x l ol,
    not_before-Cut trans x r or,
  )

  after-Cut : IsTransitive → (x : K) (t : Tree) → Ordered lt key t → Cut (after x) t
  after-Cut trans x leaf ordered = tt
  after-Cut trans x (node a red l r) (low, high, ol, or) = (
    λ fails.
        All-imp
          (λ b h.
            true_or_false (lt x (key b))
              (λ y. true-false (sym (trans x (key b) (key a) y h) ∙ fails)))
          (inorder l) low,
    after-Cut trans x l ol,
    after-Cut trans x r or,
  )

module _ {K : Type 0} (lt : K → K → Bool) (key : ℕ → K) (s : NodeBase) (x : K) where
  lower_from_lem :
      (fuel : ℕ) (saved ptr par : Option ℕ) (t : Tree)
      → height t < fuel
      → Shows s t ptr par
      → Cut (not_before lt key x) t
      → lower_from lt key s fuel x saved ptr
        ≡ some (first_that (not_before lt key x) saved (inorder t))
  unfolding lower_from
  lower_from_lem zero saved ptr par t enough shows cut = absurd (omega arith)
  lower_from_lem (suc fuel) saved ptr par leaf enough shows cut = rw shows refl
  lower_from_lem (suc fuel) saved ptr par (node a red l r) enough (e, pe, ce, sl, sr)
        (low, cl, cr) =
      elim (Bool-cases (lt (key a) x)) [
        | inl y ↦
            rw (e, y)
              (lower_from_lem fuel saved (s.right a) (some a) r (omega arith) sr cr
                ∙ ap some (
                    sym (
                      first_that-fails (not_before lt key x) saved a l r (ap not y)
                        (low (ap not y)))))
        | inr n ↦
            rw (e, n)
              (lower_from_lem fuel (some a) (s.left a) (some a) l (omega arith) sl cl
                ∙ ap some (sym (first_that-passes (not_before lt key x) saved a l r (ap not n))))
      ]

  upper_from_lem :
      (fuel : ℕ) (saved ptr par : Option ℕ) (t : Tree)
      → height t < fuel
      → Shows s t ptr par
      → Cut (after lt key x) t
      → upper_from lt key s fuel x saved ptr ≡ some (first_that (after lt key x) saved (inorder t))
  unfolding upper_from
  upper_from_lem zero saved ptr par t enough shows cut = absurd (omega arith)
  upper_from_lem (suc fuel) saved ptr par leaf enough shows cut = rw shows refl
  upper_from_lem (suc fuel) saved ptr par (node a red l r) enough (e, pe, ce, sl, sr)
        (low, cl, cr) =
      elim (Bool-cases (lt x (key a))) [
        | inl y ↦
            rw (e, y)
              (upper_from_lem fuel (some a) (s.left a) (some a) l (omega arith) sl cl
                ∙ ap some (sym (first_that-passes (after lt key x) saved a l r y)))
        | inr n ↦
            rw (e, n)
              (upper_from_lem fuel saved (s.right a) (some a) r (omega arith) sr cr
                ∙ ap some (sym (first_that-fails (after lt key x) saved a l r n (low n))))
      ]

module _ {K : Type 0} (lt : K → K → Bool) (key : ℕ → K) (s : NodeBase) (x : K) (fuel head : ℕ) where
  -- In an ordered tree `lower_bound` gives the first node, in order, whose key is not before the given one, or the
  -- end where there is none; more fuel than the tree is high is enough.
  pub lower_bound-first_that :
      (t : Tree)
      → IsTransitive lt key
      → height t < fuel
      → Shows s t (s.left head) (some head)
      → Ordered lt key t
      → lower_bound lt key s fuel x head ≡ some (first_that (not_before lt key x) none (inorder t))
  unfolding lower_bound
  lower_bound-first_that t trans enough shows ordered =
      lower_from_lem lt key s x fuel none (s.left head) (some head) t enough shows
        (not_before-Cut lt key trans x t ordered)

  -- In an ordered tree `upper_bound` gives the first node, in order, whose key is behind the given one, but the root
  -- where there is none; more fuel than the tree is high is enough.
  pub upper_bound-first_that :
      (t : Tree)
      → IsTransitive lt key
      → height t < fuel
      → Shows s t (s.left head) (some head)
      → Ordered lt key t
      → upper_bound lt key s fuel x head
        ≡ some (first_that (after lt key x) (s.left head) (inorder t))
  unfolding upper_bound
  upper_bound-first_that t trans enough shows ordered =
      upper_from_lem lt key s x fuel (s.left head) (s.left head) (some head) t enough shows
        (after-Cut lt key trans x t ordered)
