-- ===== src/Filepath/Reconstruct.antt =====
-- What `reconstructPath` makes of a path.
use mathlib.Core.List.{append-nil}
use libstappler_common.Common.{
  ℕ, ◌≡◌, ◌≢◌, refl, arith, Bool, true, false, List, [], ◌∷◌, ◌++◌, ◌==◌, inl, inr, All, All-append,
  some, ◌⊎◌, if◌then◌else◌,
}
use libstappler_common.Text.View.{skip, same}
use libstappler_common.Text.View.Search.{Lacks}
use libstappler_common.Filepath.{
  slash, components, Part, up, here, name, classify, all_names, join, join_rest, pop_back, reduce,
  last_of, validate_path, reconstruct_path,
}
use libstappler_common.Filepath.Components.{
  IsName, IsName-ne_nil, components-join, components-Lacks,
}

pop_back-names : (ws : List (List ℕ)) → All IsName ws → All IsName (pop_back ws)
unfolding pop_back
pop_back-names [] h = tt
pop_back-names (w ∷ []) h = tt
pop_back-names (w ∷ v ∷ ws) h = (h.0, pop_back-names (v ∷ ws) h.1)

Part-cases : (k : Part) → ((k ≡ up) ⊎ (k ≡ here)) ⊎ (k ≡ name)
Part-cases up = inl (inl refl)
Part-cases here = inl (inr refl)
Part-cases name = inr refl

-- The kept components are names.
reduce-names :
    (ret ws : List (List ℕ)) → All IsName ret → All (Lacks slash) ws → All IsName (reduce ret ws)
unfolding reduce
reduce-names ret [] h hs = h
reduce-names ret (w ∷ ws) h hs = elim (Part-cases (classify w)) [
  | inl (inl e) ↦ rw e (reduce-names (pop_back ret) ws (pop_back-names ret h) hs.1)
  | inl (inr e) ↦ rw e (reduce-names ret ws h hs.1)
  | inr e ↦
      rw e (reduce-names (ret ++ w ∷ []) ws (All-append IsName ret (w ∷ []) h ((e, hs.0), tt)) hs.1)
]

all_names-names : (ws : List (List ℕ)) → All IsName ws → all_names ws ≡ true
unfolding all_names
all_names-names [] h = refl
all_names-names (w ∷ ws) h = rw (h.0.0, all_names) (all_names-names ws h.1)

-- Names joined by '/' begin with another character.
join-first :
    (w : List ℕ) (ws : List (List ℕ)) (t : List ℕ)
    → IsName w
    → (c : ℕ) × (rest : List ℕ) × (join (w ∷ ws) ++ t ≡ c ∷ rest) × (c ≢ slash)
unfolding join
join-first [] ws t h = absurd (IsName-ne_nil [] h refl)
join-first (c ∷ w) ws t h = (c, (w ++ join_rest ws) ++ t, refl, h.1.0)

skip-join :
    (w : List ℕ) (ws : List (List ℕ)) (t : List ℕ)
    → IsName w
    → skip slash (join (w ∷ ws) ++ t) ≡ join (w ∷ ws) ++ t
unfolding skip
skip-join w ws t h = let (c, rest, e, ne) = join-first w ws t h in rw e (ground arith)

abbrev pub slash_if : Bool → List ℕ
slash_if b = if b then slash ∷ [] else []

-- Names between any of the two outer slashes.
valid_names :
    (w : List ℕ) (ws : List (List ℕ)) (start end : Bool)
    → All IsName (w ∷ ws)
    → (validate_path (slash_if start ++ (join (w ∷ ws) ++ slash_if end)) ≡ true)
unfolding validate_path
valid_names w ws true true h = rw (components-join w ws h).1 (all_names-names (w ∷ ws) h)
valid_names w ws true false h =
    rw (append-nil, (components-join w ws h).0) (all_names-names (w ∷ ws) h)
valid_names w ws false true h =
    rw (skip-join w ws (slash ∷ []) h.0, (components-join w ws h).1) (all_names-names (w ∷ ws) h)
valid_names w ws false false h =
    rw (skip-join w ws [] h.0, append-nil, (components-join w ws h).0) (all_names-names (w ∷ ws) h)

-- Nothing is left between the slashes.
valid_empty :
    (start end : Bool)
    → (validate_path (slash_if start ++ (join [] ++ slash_if end)) ≡ true)
      ⊎ (slash_if start ++ (join [] ++ slash_if end) ≡ slash ∷ slash ∷ [])
unfolding validate_path components all_names skip join
valid_empty true true = inr refl
valid_empty true false = inl refl
valid_empty false true = inl refl
valid_empty false false = inl refl

reconstruct-valid :
    (ws : List (List ℕ)) (start end : Bool)
    → All IsName ws
    → (validate_path (slash_if start ++ (join ws ++ slash_if end)) ≡ true)
      ⊎ (slash_if start ++ (join ws ++ slash_if end) ≡ slash ∷ slash ∷ [])
reconstruct-valid [] start end h = valid_empty start end
reconstruct-valid (w ∷ ws) start end h = inl (valid_names w ws start end h)

-- `reconstructPath` of a path that is not empty makes a path that `validatePath` accepts, or it makes
-- "//".
pub validate_path-reconstruct_path :
    (c : ℕ) (path : List ℕ)
    → (q : List ℕ) × (reconstruct_path (c ∷ path) ≡ some q)
      × ((validate_path q ≡ true) ⊎ (q ≡ slash ∷ slash ∷ []))
unfolding reconstruct_path
validate_path-reconstruct_path c path = (
  _,
  refl,
  reconstruct-valid (reduce [] (components (c ∷ path))) (c == slash) (last_of c path == slash)
      (reduce-names [] (components (c ∷ path)) tt (components-Lacks (c ∷ path))),
)

pub last_of-append : (c d : ℕ) (xs : List ℕ) → last_of c (xs ++ d ∷ []) ≡ d
unfolding last_of
last_of-append c d [] = refl
last_of-append c d (x ∷ xs) = last_of-append x d xs

-- A path between two slashes whose components cancel out, such as "/a/../", becomes "//", which
-- `validatePath` refuses.
pub reconstruct_path-slashes :
    (middle : List ℕ)
    → reduce [] (components (slash ∷ (middle ++ slash ∷ []))) ≡ []
    → (reconstruct_path (slash ∷ (middle ++ slash ∷ [])) ≡ some (slash ∷ slash ∷ []))
      × (validate_path (slash ∷ slash ∷ []) ≡ false)
unfolding reconstruct_path validate_path components all_names skip classify same join
reconstruct_path-slashes middle h = (rw (h, last_of-append slash slash middle), refl)
