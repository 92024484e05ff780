-- ===== src/Filepath/Runs.antt =====
-- Concrete runs, and the theorems at concrete inputs.
use libstappler_common.Common.{
  ℕ, ◌≡◌, ◌⊎◌, refl, arith, true, false, List, [], ◌∷◌, ◌++◌, some, codes,
}
use libstappler_common.Text.View.{rfind, rfind_below, rfind_upto, find, starts_with}
use libstappler_common.Filepath.{
  slash, classify, components, above_root_from, is_above_root, validate_path, reduce, join, last_of,
  reconstruct_path, merge, replace, root, last_component, last_components, earlier, unless_first,
  full_extension, last_extension, base_name, extension_count,
}
use libstappler_common.Filepath.Names.{root-last_component, Extension, Extension-cases}
use libstappler_common.Filepath.Reconstruct.{validate_path-reconstruct_path}
use libstappler_common.Filepath.Merge.{merge_seam}
use libstappler_common.Filepath.Canonical.{Platform, absolute}

reconstruct_run : reconstruct_path (codes "/a/./b//../c/") ≡ some (codes "/a/c/")
unfolding reconstruct_path components reduce join last_of
reconstruct_run = refl

above_root_run : is_above_root (codes "a/../../b") ≡ true
unfolding is_above_root above_root_from components classify
above_root_run = refl

last_components_run : last_components (codes "/x/dir/file.tar") 2 ≡ codes "dir/file.tar"
unfolding last_components earlier unless_first rfind rfind_upto rfind_below
last_components_run = refl

-- "/file": the two overloads of `lastComponent` differ.
last_components_first : last_components (codes "/file") 1 ≡ codes "/file"
unfolding last_components earlier unless_first rfind rfind_below
last_components_first = refl

full_extension_run : full_extension (codes "/dir/file.tar.gz") ≡ codes "tar.gz"
unfolding full_extension last_component rfind rfind_below find
full_extension_run = refl

replace_run : replace (codes "/my/file") (codes "/my") (codes "/your") ≡ some (codes "/your/file")
unfolding replace merge last_of starts_with
replace_run = refl

root-last_component_example :
    (root (codes "/dir" ++ slash ∷ codes "f.x") ≡ codes "/dir")
    × (root (slash ∷ codes "f.x") ≡ slash ∷ [])
    × (root (codes "f.x") ≡ [])
    × (last_component (codes "/dir" ++ slash ∷ codes "f.x") ≡ codes "f.x")
    × (last_component (codes "f.x") ≡ codes "f.x")
root-last_component_example =
    root-last_component (codes "/dir") (codes "f.x") (λ e. cc) (omega arith)

Extension-cases_example :
    ((base_name (codes "/d/f.tar.gz") ≡ last_component (codes "/d/f.tar.gz"))
      × (full_extension (codes "/d/f.tar.gz") ≡ [])
      × (last_extension (codes "/d/f.tar.gz") ≡ [])
      × (extension_count (codes "/d/f.tar.gz") ≡ 0))
    ⊎ Extension (codes "/d/f.tar.gz")
Extension-cases_example = Extension-cases (codes "/d/f.tar.gz")

validate_path-reconstruct_path_example :
    (q : List ℕ) × (reconstruct_path (codes "/a/../b") ≡ some q)
    × ((validate_path q ≡ true) ⊎ (q ≡ slash ∷ slash ∷ []))
validate_path-reconstruct_path_example = validate_path-reconstruct_path slash (codes "a/../b")

merge_seam_example : merge (codes "/dir/") (codes "/file") ≡ some (codes "/dir/file")
unfolding last_of
merge_seam_example =
    merge_seam slash (codes "dir") b'f' (codes "ile") true true (omega arith) (omega arith)

abbrev os : Platform
os = record {
  exists = λ path. false;
  caches_path = λ path. codes "/c" ++ path;
  documents_path = λ path. codes "/d" ++ path;
  writable_path = λ path. codes "/w" ++ path;
  current_dir = λ path. codes "/r" ++ path;
}

absolute_run : absolute os (codes "%CACHE%/x") false ≡ some (codes "/c/x")
unfolding absolute starts_with
absolute_run = refl
