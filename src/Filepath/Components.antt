-- ===== src/Filepath/Components.antt =====
-- The components of a path, and the loop that reads them.
use mathlib.Core.List.{append-nil, append_assoc}
use libstappler_common.Common.{
  ℕ, ◌≡◌, ◌≢◌, refl, ◌∙◌, ap, arith, false, List, [], ◌∷◌, ◌++◌, ◌==◌, Bool-cases, inl, inr, All,
}
use libstappler_common.Text.View.{read_until, skip, same}
use libstappler_common.Text.View.Search.{Lacks}
use libstappler_common.Filepath.{slash, on_first, components, name, classify, join, join_rest}

ne→test : (x : ℕ) → x ≢ slash → (x == slash) ≡ false
ne→test x h = ground arith

components-inner :
    (c : ℕ) (rest : List ℕ)
    → (c == slash) ≡ false
    → components (c ∷ rest) ≡ on_first c (components rest)
unfolding components
components-inner c rest e = rw e

read_until-inner :
    (c : ℕ) (rest : List ℕ)
    → (c == slash) ≡ false
    → read_until slash (c ∷ rest) ≡ (c ∷ (read_until slash rest).0, (read_until slash rest).1)
unfolding read_until
read_until-inner c rest e = rw e

-- One round of the loops, for a view that is not empty: `readUntil<Chars<'/'>>` gives the component,
-- the '/' that stands there is skipped, and the other components are those of what is left.
pub components_round :
    (r : List ℕ)
    → r ≢ []
    → components r ≡ (read_until slash r).0 ∷ components (skip slash (read_until slash r).1)
components_round [] h = absurd (h refl)
components_round (c ∷ []) h = unfold components read_until skip on_first in ground arith
components_round (c ∷ d ∷ rest) h = elim (Bool-cases (c == slash)) [
  | inl e ↦ unfold components read_until skip in rw e (rw e)
  | inr e ↦
      rw
        (
          components-inner c (d ∷ rest) e,
          read_until-inner c (d ∷ rest) e,
          components_round (d ∷ rest) (λ e. cc),
        )
        (unfold on_first in refl)
]

components-nil : components [] ≡ []
unfolding components
components-nil = refl

-- A component in front of '/'.
pub components-slash :
    (w rest : List ℕ) → Lacks slash w → components (w ++ slash ∷ rest) ≡ w ∷ components rest
unfolding components on_first
components-slash [] rest h = refl
components-slash (c ∷ w) rest h = rw (ne→test c h.0, components-slash w rest h.1)

-- A component at the end.
pub components-end : (w : List ℕ) → Lacks slash w → w ≢ [] → components w ≡ w ∷ []
unfolding components on_first
components-end [] h ne = absurd (ne refl)
components-end (c ∷ []) h ne = rw (ne→test c h.0)
components-end (c ∷ d ∷ w) h ne = rw (ne→test c h.0, components-end (d ∷ w) h.1 (λ e. cc))

-- No component has a '/'.
on_first-Lacks :
    (c : ℕ) (ws : List (List ℕ))
    → c ≢ slash
    → All (Lacks slash) ws
    → All (Lacks slash) (on_first c ws)
unfolding on_first
on_first-Lacks c [] h hs = ((h, tt), tt)
on_first-Lacks c (w ∷ ws) h hs = ((h, hs.0), hs.1)

pub components-Lacks : (r : List ℕ) → All (Lacks slash) (components r)
unfolding components
components-Lacks [] = tt
components-Lacks (c ∷ rest) = elim (Bool-cases (c == slash)) [
  | inl e ↦ rw e (tt, components-Lacks rest)
  | inr e ↦ rw e (on_first-Lacks c (components rest) (ground arith) (components-Lacks rest))
]

-- What `reconstructPath` keeps: no "..", ".", empty component or '/'.
abbrev pub IsName : List ℕ → Type 0
IsName w = (classify w ≡ name) × Lacks slash w

pub IsName-ne_nil : (w : List ℕ) → IsName w → w ≢ []
unfolding classify same
IsName-ne_nil w h e = let k : classify [] ≡ name = rw e at (h.0) in cc

-- The components of names joined by '/', with or without a '/' at the end.
pub components-join :
    (w : List ℕ) (ws : List (List ℕ))
    → All IsName (w ∷ ws)
    → (components (join (w ∷ ws)) ≡ w ∷ ws) × (components (join (w ∷ ws) ++ slash ∷ []) ≡ w ∷ ws)
unfolding join join_rest
components-join w [] h = (
  rw append-nil (components-end w h.0.1 (IsName-ne_nil w h.0)),
  rw append-nil (components-slash w [] h.0.1 ∙ ap (λ t. w ∷ t) components-nil),
)
components-join w (v ∷ ws) h = (
  components-slash w _ h.0.1 ∙ ap (λ t. w ∷ t) (components-join v ws h.1).0,
  rw append_assoc (components-slash w _ h.0.1 ∙ ap (λ t. w ∷ t) (components-join v ws h.1).1),
)
