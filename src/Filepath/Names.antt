-- ===== src/Filepath/Names.antt =====
-- What `root`, `lastComponent`, `name` and the extensions make of a path.
use libstappler_common.Common.{
  ℕ, suc, ◌+◌, ◌<◌, ◌≡◌, ◌≢◌, refl, sym, ◌∙◌, ap, arith, List, [], ◌∷◌, ◌++◌, some, length, drop,
  take-append, ◌⊎◌, inl, inr,
}
use mathlib.Core.Path.{subst}
use libstappler_common.Text.View.{rfind}
use libstappler_common.Text.View.Search.{
  Lacks, first_split, last_split, find-eq_none, find-first, rfind-eq_none, rfind-last,
}
use libstappler_common.Filepath.{
  slash, dot, root, last_component, last_components, earlier, unless_first, full_extension,
  last_extension, base_name, extension_count, count_of,
}

drop-behind : (c : ℕ) (front back : List ℕ) → drop (length front + 1) (front ++ c ∷ back) ≡ back
drop-behind c [] back = ground arith
drop-behind c (x ∷ front) back =
    let e : suc (length front) + 1 ≡ suc (length front + 1) = omega arith in
    rw e (drop-behind c front back)

pub last_component-no_slash : (path : List ℕ) → Lacks slash path → last_component path ≡ path
unfolding last_component
last_component-no_slash path h = rw (rfind-eq_none slash path h, last_component)

pub last_component-slash :
    (front back : List ℕ) → Lacks slash back → last_component (front ++ slash ∷ back) ≡ back
unfolding last_component
last_component-slash front back h =
    rw (rfind-last slash front back h, last_component) (drop-behind slash front back)

-- A directory that is not empty, '/' and a name without '/' are taken apart again by `root` and
-- `lastComponent`; `root` of "/" and a name is "/", and of a name alone empty.
pub root-last_component :
    (dir file : List ℕ)
    → dir ≢ []
    → Lacks slash file
    → (root (dir ++ slash ∷ file) ≡ dir)
      × (root (slash ∷ file) ≡ slash ∷ [])
      × (root file ≡ [])
      × (last_component (dir ++ slash ∷ file) ≡ file)
      × (last_component file ≡ file)
unfolding root
root-last_component [] file ne h = absurd (ne refl)
root-last_component (c ∷ dir) file ne h = (
  rw (rfind-last slash (c ∷ dir) file h, root) (take-append (c ∷ dir) (slash ∷ file)),
  rw (rfind-last slash [] file h, root),
  rw (rfind-eq_none slash file h, root),
  last_component-slash (c ∷ dir) file h,
  last_component-no_slash file h,
)

-- The last component of any path has no '/'.
pub last_component-Lacks : (path : List ℕ) → Lacks slash (last_component path)
last_component-Lacks path = elim (last_split slash path) [
  | inl h ↦ rw (last_component-no_slash path h) h
  | inr (front, back, p, h) ↦ rw (p, last_component-slash front back h) h
]

count_of-Lacks : (c : ℕ) (s : List ℕ) → Lacks c s → count_of c s ≡ 0
unfolding count_of
count_of-Lacks c [] h = refl
count_of-Lacks c (x ∷ xs) h = ground (arith, count_of-Lacks c xs h.1)

count_of-append : (c : ℕ) (xs ys : List ℕ) → count_of c (xs ++ ys) ≡ count_of c xs + count_of c ys
unfolding count_of
count_of-append c [] ys = omega arith
count_of-append c (x ∷ xs) ys = omega (arith, count_of-append c xs ys)

-- A dot is behind the name and in front of the full extension, if it is the first one.
module _ (path front back : List ℕ) (split : last_component path ≡ front ++ dot ∷ back)
    (first : Lacks dot front) where
  base_name_at : base_name path ≡ front
  unfolding base_name
  base_name_at =
      rw (split, find-first dot front back first, base_name, split) (take-append front (dot ∷ back))

  full_extension_at : full_extension path ≡ back
  unfolding full_extension
  full_extension_at =
      rw (split, find-first dot front back first, full_extension, split)
        (drop-behind dot front back)

  extension_count_at : extension_count path ≡ suc (count_of dot back)
  unfolding extension_count count_of
  extension_count_at =
      rw split
        (omega (arith, count_of-append dot front (dot ∷ back), count_of-Lacks dot front first))

Lacks-behind : (c : ℕ) (front back : List ℕ) → Lacks c (front ++ c ∷ back) → ⊥
Lacks-behind c [] back h = h.0 refl
Lacks-behind c (x ∷ front) back h = Lacks-behind c front back h.1

last_extension_at :
    (path front back : List ℕ)
    → last_component path ≡ front ++ dot ∷ back
    → Lacks dot back
    → last_extension path ≡ back
unfolding last_extension
last_extension_at path front back p h =
    rw (p, rfind-last dot front back h, last_extension, p, drop-behind dot front back) refl

-- Behind the last dot, if there is a dot.
last_extension_lem :
    (path front back : List ℕ)
    → last_component path ≡ front ++ dot ∷ back
    → (stem : List ℕ) × (last_component path ≡ stem ++ dot ∷ last_extension path)
      × Lacks dot (last_extension path)
last_extension_lem path front back split = elim (last_split dot (last_component path)) [
  | inl h ↦ absurd (Lacks-behind dot front back (subst (Lacks dot) split h))
  | inr (stem, last, p, h) ↦
      let e = last_extension_at path stem last p h in
      (stem, p ∙ ap (λ t. stem ++ dot ∷ t) (sym e), subst (Lacks dot) (sym e) h)
]

-- How a path's last component splits at its dots.
pub record Extension (path : List ℕ) : Type 0 where
  pub rebuilt : last_component path ≡ base_name path ++ dot ∷ full_extension path
  pub plain_name : Lacks dot (base_name path)
  pub stem : List ℕ
  pub last_rebuilt : last_component path ≡ stem ++ dot ∷ last_extension path
  pub last_plain : Lacks dot (last_extension path)
  pub count : extension_count path ≡ suc (count_of dot (full_extension path))

-- Either the last component has no dot: it is the name, there is no extension and `extensionCount` is
-- 0. Or it is the name, a dot and the full extension, where the name has no dot, and it is also some text,
-- a dot and the last extension, where the last extension has no dot; and `extensionCount` is one more than
-- the dots of the full extension.
pub Extension-cases :
    (path : List ℕ)
    → ((base_name path ≡ last_component path)
        × (full_extension path ≡ [])
        × (last_extension path ≡ [])
        × (extension_count path ≡ 0))
      ⊎ Extension path
unfolding base_name full_extension last_extension extension_count
Extension-cases path = elim (first_split dot (last_component path)) [
  | inl h ↦ inl (
    rw (find-eq_none dot (last_component path) h, base_name),
    rw (find-eq_none dot (last_component path) h, full_extension),
    rw (rfind-eq_none dot (last_component path) h, last_extension),
    count_of-Lacks dot (last_component path) h,
  )
  | inr (front, back, p, h) ↦ inr (record {
    rebuilt = p ∙ rw (base_name_at path front back p h, full_extension_at path front back p h);
    plain_name = rw (base_name_at path front back p h) h;
    stem = (last_extension_lem path front back p).0;
    last_rebuilt = (last_extension_lem path front back p).1;
    last_plain = (last_extension_lem path front back p).2;
    count =
        extension_count_at path front back p h
        ∙ ap (λ t. suc (count_of dot t)) (sym (full_extension_at path front back p h));
  })
]

-- `lastComponent(path, 1)` is `lastComponent(path)`, except for a path whose last '/' is its first
-- character: of "/file" it leaves the '/' in place.
pub last_components-one :
    (path : List ℕ)
    → ((pos : ℕ) → rfind slash path ≡ some pos → 0 < pos)
    → last_components path 1 ≡ last_component path
unfolding last_components last_component earlier unless_first
last_components-one path h = ground (arith, h 0)
