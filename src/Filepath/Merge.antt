-- ===== src/Filepath/Merge.antt =====
-- What `merge` of two paths is, and `root` and `lastComponent` of it.
use mathlib.Core.List.{append-nil, append_assoc}
use libstappler_common.Common.{
  ℕ, ◌≡◌, ◌≢◌, refl, ap, arith, Bool, true, false, List, [], ◌∷◌, ◌++◌, ◌==◌, some,
}
use libstappler_common.Text.View.Search.{Lacks}
use libstappler_common.Filepath.{
  slash, dot, last_of, merge, root, last_component, is_above_root, above_root_from, components,
  classify,
}
use libstappler_common.Filepath.Reconstruct.{last_of-append, slash_if}
use libstappler_common.Filepath.Names.{root-last_component}

ne→test : (x : ℕ) → x ≢ slash → (x == slash) ≡ false
ne→test x h = ground arith

-- `merge` puts exactly one '/' between a directory and a path, whether or not the directory is given
-- with a '/' at its end and the path with one at its start. The directory is not empty, and the
-- character at its end and the one at the start of the path are others than '/'.
pub merge_seam :
    (d : ℕ) (dir : List ℕ) (c : ℕ) (path : List ℕ) (trail lead : Bool)
    → last_of d dir ≢ slash
    → c ≢ slash
    → merge ((d ∷ dir) ++ slash_if trail) (slash_if lead ++ c ∷ path)
      ≡ some ((d ∷ dir) ++ slash ∷ c ∷ path)
unfolding merge
merge_seam d dir c path true true hd hc = rw (last_of-append d slash dir, append_assoc)
merge_seam d dir c path true false hd hc =
    rw (last_of-append d slash dir, ne→test c hc)
      (ap (λ t. some (d ∷ t)) (append_assoc dir (slash ∷ []) (c ∷ path)))
merge_seam d dir c path false true hd hc = rw (append-nil, ne→test (last_of d dir) hd)
merge_seam d dir c path false false hd hc =
    rw (append-nil, ne→test (last_of d dir) hd, ne→test c hc)

-- `merge` of a directory that does not end in '/' and a file name is taken apart again by `root` and
-- `lastComponent`.
pub root-merge :
    (d : ℕ) (dir : List ℕ) (c : ℕ) (file : List ℕ)
    → last_of d dir ≢ slash
    → Lacks slash (c ∷ file)
    → (q : List ℕ) × (merge (d ∷ dir) (c ∷ file) ≡ some q)
      × (root q ≡ d ∷ dir)
      × (last_component q ≡ c ∷ file)
root-merge d dir c file hd hf =
    let parts = root-last_component (d ∷ dir) (c ∷ file) (λ e. cc) hf in
    (
      (d ∷ dir) ++ slash ∷ c ∷ file,
      rw append-nil at (merge_seam d dir c file false false hd hf.0),
      parts.0,
      parts.3,
    )

-- "../" in front of a path leads above its root, and `isAboveRoot` says so; but "./../" in front of
-- it, which names the same file, is taken for a path that stays below the root.
pub is_above_root-dot :
    (path : List ℕ)
    → (is_above_root (dot ∷ dot ∷ slash ∷ path) ≡ true)
      × (is_above_root (dot ∷ slash ∷ dot ∷ dot ∷ slash ∷ path) ≡ false)
unfolding is_above_root above_root_from components classify
is_above_root-dot path = (refl, refl)
