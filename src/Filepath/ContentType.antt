-- ===== src/Filepath/ContentType.antt =====
-- `extensionForContentType`.
use libstappler_common.Common.{
  ℕ, ◌≡◌, refl, arith, true, false, List, [], ◌∷◌, ==_iff, Bool-cases, inl, inr, codes,
}
use libstappler_common.Text.View.{same}
use libstappler_common.Filepath.{extension_for_content_type}

same-eq : (s t : List ℕ) → same s t ≡ true → s ≡ t
unfolding same
same-eq [] [] h = refl
same-eq [] (y ∷ t) h = ground arith
same-eq (x ∷ s) [] h = ground arith
same-eq (x ∷ s) (y ∷ t) h = ground (arith, same-eq s t, ==_iff x y)

-- `extensionForContentType` gives ".pdf" for every content type: its tests hold where the content type is
-- another one.
pub extension_for_content_type_lem : (ct : List ℕ) → extension_for_content_type ct ≡ codes ".pdf"
unfolding extension_for_content_type
extension_for_content_type_lem ct = elim (Bool-cases (same ct (codes "application/pdf"))) [
  | inl y ↦ rw (y, other y) refl
  | inr n ↦ rw n refl
]
  where
    other : same ct (codes "application/pdf") ≡ true → same ct (codes "application/x-pdf") ≡ false
    other y = rw (same-eq ct (codes "application/pdf") y) (unfold same in refl)
