-- ===== src/Filepath/Canonical.antt =====
-- `absolute` and `canonical` of SPFilepath.cc, over the directories and the file test of the platform.
use libstappler_common.Common.{
  ℕ, ◌≡◌, arith, Bool, true, false, ◌&&◌, ◌||◌, not, List, [], ◌∷◌, ◌++◌, Option, none, some, ◌==◌,
  if◌then◌else◌, leb, length, drop, codes,
}
use libstappler_common.Text.View.{starts_with}
use libstappler_common.Filepath.{
  slash, is_absolute, is_bundled, is_above_root, validate_path, reconstruct_path, merge, sub,
}

infixl 5 ◌>>=◌
abbrev ◌>>=◌ : Option (List ℕ) → (List ℕ → Option (List ℕ)) → Option (List ℕ)
none >>= f = none
some a >>= f = f a

-- What the code asks of `filesystem` and `filesystem::platform`: the test whether a bundled file is
-- there, and the directories, with a relative path appended (the empty one gives the directory).
pub record Platform : Type 0 where
  pub exists : List ℕ → Bool
  pub caches_path : List ℕ → List ℕ
  pub documents_path : List ℕ → List ℕ
  pub writable_path : List ℕ → List ℕ
  pub current_dir : List ℕ → List ℕ

module _ (os : Platform) where
  open os use {exists, caches_path, documents_path, writable_path, current_dir}

  pub in_app_bundle : List ℕ → Bool
  in_app_bundle path =
      if is_absolute path
      then false
      else is_bundled path || (not (is_above_root path) && exists path)

  resolve_relative : List ℕ → Bool → Option (List ℕ)
  resolve_relative path writable =
      if not writable && not (is_above_root path)
      then (if validate_path path
          then some (if exists path then path else writable_path path)
          else reconstruct_path path >>= λ ret.
              some (if exists ret then ret else writable_path ret))
      else if validate_path path
      then some (writable_path path)
      else reconstruct_path (writable_path path)

  resolve_plain : List ℕ → Bool → Option (List ℕ)
  unfolding resolve_relative
  resolve_plain path writable =
      if is_absolute path
      then (if validate_path path then some path else reconstruct_path path)
      else resolve_relative path writable

  unfoldable pub absolute : List ℕ → Bool → Option (List ℕ)
  unfolding resolve_plain
  absolute [] writable = some []
  absolute (c ∷ rest) writable =
      let path = c ∷ rest in
      if c == b'%'
      then (if starts_with path (codes "%CACHE%")
          then some (caches_path (drop 7 path))
          else if starts_with path (codes "%DOCUMENTS%")
          then some (documents_path (drop 11 path))
          else if starts_with path (codes "%WRITEABLE%")
          then some (writable_path (drop 11 path))
          else if starts_with path (codes "%CURRENT%")
          then some (current_dir (drop 9 path))
          else if starts_with path (codes "%PLATFORM%:")
          then some path
          else resolve_plain path writable)
      else resolve_plain path writable

  -- `path.starts_with(…) == 0` holds where the path does not start with the directory.
  pub canonical : List ℕ → Option (List ℕ)
  unfolding in_app_bundle
  canonical [] = some []
  canonical (c ∷ rest) =
      let path = c ∷ rest in
      if c == b'%'
      then some path
      else if not (is_bundled path) && in_app_bundle path
      then some (codes "%PLATFORM%:" ++ path)
      else if is_bundled path
      then some path
      else if starts_with path (caches_path [])
      then sub (length (caches_path [])) path >>= merge (codes "%CACHE%")
      else if not (starts_with path (documents_path []))
      then sub (length (documents_path [])) path >>= merge (codes "%DOCUMENTS%")
      else if not (starts_with path (writable_path []))
      then sub (length (writable_path [])) path >>= merge (codes "%WRITEABLE%")
      else if not (starts_with path (current_dir []))
      then sub (length (current_dir [])) path >>= merge (codes "%CURRENT%")
      else some path

  not_bundled : (rest : List ℕ) → is_bundled (slash ∷ rest) ≡ false
  unfolding is_bundled starts_with
  not_bundled rest = ground arith

  -- An absolute path that lies neither in the caches nor in the documents, and is no shorter than the
  -- name of the documents directory, loses as many characters as that name has and is given the prefix
  -- "%DOCUMENTS%", although it is no document.
  pub canonical_foreign :
      (rest : List ℕ)
      → starts_with (slash ∷ rest) (caches_path []) ≡ false
      → starts_with (slash ∷ rest) (documents_path []) ≡ false
      → leb (length (documents_path [])) (length (slash ∷ rest)) ≡ true
      → canonical (slash ∷ rest)
        ≡ merge (codes "%DOCUMENTS%") (drop (length (documents_path [])) (slash ∷ rest))
  unfolding canonical is_absolute sub
  canonical_foreign rest no_cache no_document fits =
      rw (not_bundled rest, no_cache, no_document, fits)

  -- An absolute path in the documents that lies neither in the caches nor in the writable directory, and
  -- is no shorter than the latter's name, is given the prefix "%WRITEABLE%".
  pub canonical_document :
      (rest : List ℕ)
      → starts_with (slash ∷ rest) (caches_path []) ≡ false
      → starts_with (slash ∷ rest) (documents_path []) ≡ true
      → starts_with (slash ∷ rest) (writable_path []) ≡ false
      → leb (length (writable_path [])) (length (slash ∷ rest)) ≡ true
      → canonical (slash ∷ rest)
        ≡ merge (codes "%WRITEABLE%") (drop (length (writable_path [])) (slash ∷ rest))
  unfolding canonical is_absolute sub
  canonical_document rest no_cache document not_writable fits =
      rw (not_bundled rest, no_cache, document, not_writable, fits)
