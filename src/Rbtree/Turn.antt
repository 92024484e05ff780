-- ===== src/Rbtree/Turn.antt =====
-- The parents after a rotation.
use libstappler_common.Common.{
  ℕ, ◌≡◌, ◌≢◌, refl, ap, ◌∙◌, arith, inl, inr, false, Option, none, some, Bool-cases, ◌==◌, ==_iff,
}
use libstappler_common.Rbtree.Nodes.{set, points_to}
use libstappler_common.Rbtree.Rotate.{set_parent}
use libstappler_common.Rbtree.Place.{one}
use libstappler_common.Rbtree.Attach.{set-same, set-other}

pub points_to-apart_from : (ptr : Option ℕ) (q : ℕ) → (ptr ≢ some q) → points_to ptr q ≡ false
points_to-apart_from none q h = refl
points_to-apart_from (some b) q h = elim (Bool-cases (b == q)) [
  | inl y ↦ absurd (h (ap some ((==_iff b q).0 y)))
  | inr n ↦ n
]

set_parent-other :
    (tmp : Option ℕ) (p q : ℕ) (f : ℕ → Option ℕ)
    → points_to tmp q ≡ false
    → set_parent tmp p f q ≡ f q
set_parent-other none p q f h = refl
set_parent-other (some t) p q f h = ground arith

set_parent-same :
    (tmp : Option ℕ) (p q : ℕ) (f : ℕ → Option ℕ) → tmp ≡ some q → set_parent tmp p f q ≡ some p
set_parent-same tmp p q f h = rw h (set-same f q (some p))

-- The parents that a rotation of `n` above `p` writes, `tmp` being the subtree that changes sides.
module _ (tmp : Option ℕ) (n p : ℕ) (f : ℕ → Option ℕ) where
  abbrev pub turned : ℕ → Option ℕ
  turned = set_parent tmp p (set (set f n (f p)) p (some n))

  pub turned-other : (q : ℕ) → points_to tmp q ≡ false → one q n ≡ 0 → one q p ≡ 0 → turned q ≡ f q
  turned-other q apart not_n not_p =
      set_parent-other tmp p q (set (set f n (f p)) p (some n)) apart
      ∙ set-other (set f n (f p)) p (some n) q not_p
      ∙ set-other f n (f p) q not_n

  pub turned-upper : points_to tmp n ≡ false → one n p ≡ 0 → turned n ≡ f p
  turned-upper apart not_p =
      set_parent-other tmp p n (set (set f n (f p)) p (some n)) apart
      ∙ set-other (set f n (f p)) p (some n) n not_p
      ∙ set-same f n (f p)

  pub turned-lower : points_to tmp p ≡ false → turned p ≡ some n
  turned-lower apart =
      set_parent-other tmp p p (set (set f n (f p)) p (some n)) apart
      ∙ set-same (set f n (f p)) p (some n)

  pub turned-middle : (q : ℕ) → tmp ≡ some q → turned q ≡ some p
  turned-middle q e = set_parent-same tmp p q (set (set f n (f p)) p (some n)) e
