-- ===== src/Filepath.antt =====
-- modules/filesystem/SPFilepath.cc and the templates of SPFilepath.h: paths as texts.
-- `none` as a result of an operation that always answers in the source is a read outside its view:
-- `front()` or `back()` of an empty view, or `sub(pos)` with `pos` behind the end.
pub mod Components
pub mod Reconstruct
pub mod Names
pub mod ContentType
pub mod Merge
pub mod Canonical
mod Runs
use mathlib.Core.Option
use libstappler_common.Common.{
  ℕ, zero, suc, ◌+◌, ◌-◌, Bool, true, false, ◌&&◌, ◌||◌, not, List, [], ◌∷◌, ◌++◌, Option, none,
  some, ◌==◌, ltb, leb, if◌then◌else◌, length, take, drop, codes,
}
use libstappler_common.Text.View.{find, rfind, rfind_upto, starts_with, same, skip}

abbrev pub slash : ℕ
slash = b'/'

abbrev pub dot : ℕ
dot = b'.'

unfoldable pub is_absolute : List ℕ → Bool
is_absolute [] = true
is_absolute (c ∷ path) = c == slash

unfoldable pub is_canonical : List ℕ → Bool
is_canonical [] = false
is_canonical (c ∷ path) = c == b'%'

unfoldable pub is_bundled : List ℕ → Bool
unfolding starts_with
is_bundled path = ltb 11 (length path) && starts_with path (codes "%PLATFORM%:")

-- The components that the loops of `isAboveRoot`, `validatePath` and `reconstructPath` read: a text up
-- to '/', the '/' skipped, until the view is empty.
on_first : ℕ → List (List ℕ) → List (List ℕ)
on_first c [] = (c ∷ []) ∷ []
on_first c (w ∷ ws) = (c ∷ w) ∷ ws

pub components : List ℕ → List (List ℕ)
unfolding on_first
components [] = []
components (c ∷ rest) = if c == slash then [] ∷ components rest else on_first c (components rest)

-- What the loops tell apart: "..", "." or an empty component, and any other.
pub data Part : Type 0 where
  up here name : Part

pub classify : List ℕ → Part
unfolding same
classify str =
    if same str (dot ∷ dot ∷ [])
    then up
    else if same str (dot ∷ [])
    then here
    else if same str []
    then here
    else name

-- The loop of `isAboveRoot`, with `count` for its variable `components`.
above_root_from : ℕ → List (List ℕ) → Bool
unfolding classify
above_root_from count [] = false
above_root_from count (str ∷ rest) = elim (classify str) [
  | up ↦ elim count [ zero ↦ true | suc n ↦ above_root_from n rest ]
  | here ↦ false
  | name ↦ above_root_from (count + 1) rest
]

pub is_above_root : List ℕ → Bool
unfolding above_root_from components
is_above_root path = above_root_from 0 (components path)

all_names : List (List ℕ) → Bool
unfolding classify
all_names [] = true
all_names (str ∷ rest) = elim (classify str) [ up ↦ false | here ↦ false | name ↦ all_names rest ]

pub validate_path : List ℕ → Bool
unfolding all_names components skip
validate_path path = all_names (components (skip slash path))

-- `pop_back`, which `reconstructPath` calls on a vector that is not empty.
pub pop_back : List (List ℕ) → List (List ℕ)
pop_back [] = []
pop_back (w ∷ []) = []
pop_back (w ∷ v ∷ ws) = w ∷ pop_back (v ∷ ws)

-- The loop of `reconstructPath` over its vector `retVec`.
pub reduce : List (List ℕ) → List (List ℕ) → List (List ℕ)
unfolding classify pop_back
reduce ret [] = ret
reduce ret (str ∷ rest) =
    reduce (elim (classify str) [ up ↦ pop_back ret | here ↦ ret | name ↦ ret ++ str ∷ [] ]) rest

-- The loop that writes the components out, '/' between them; `merge` of a vector has the same.
join_rest : List (List ℕ) → List ℕ
join_rest [] = []
join_rest (w ∷ ws) = slash ∷ w ++ join_rest ws

pub join : List (List ℕ) → List ℕ
unfolding join_rest
join [] = []
join (w ∷ ws) = w ++ join_rest ws

-- `back()` of a view that is not empty.
pub last_of : ℕ → List ℕ → ℕ
last_of c [] = c
last_of c (d ∷ rest) = last_of d rest

pub reconstruct_path : List ℕ → Option (List ℕ)
unfolding reduce components join last_of
reconstruct_path [] = none
reconstruct_path (c ∷ path) = some (
    (if c == slash then slash ∷ [] else [])
    ++ (join (reduce [] (components (c ∷ path)))
        ++ (if last_of c path == slash then slash ∷ [] else [])))

-- `sub(pos)`
pub sub : ℕ → List ℕ → Option (List ℕ)
sub pos s = if leb pos (length s) then some (drop pos s) else none

-- `merge` of a root and a path.
pub merge : List ℕ → List ℕ → Option (List ℕ)
unfolding last_of
merge root [] = some root
merge [] (c ∷ path) = none
merge (r ∷ root) (c ∷ path) =
    if last_of r root == slash
    then (if c == slash then some (r ∷ root ++ path) else some (r ∷ root ++ c ∷ path))
    else if c == slash
    then some (r ∷ root ++ c ∷ path)
    else some (r ∷ root ++ slash ∷ c ∷ path)

-- `replace` of a root component.
pub replace : List ℕ → List ℕ → List ℕ → Option (List ℕ)
unfolding merge
replace path source dest =
    if starts_with path source then merge dest (drop (length source) path) else some path

pub root : List ℕ → List ℕ
root path = elim (rfind slash path) [
  | none ↦ []
  | some pos ↦ elim pos [ zero ↦ slash ∷ [] | suc k ↦ take (suc k) path ]
]

pub last_component : List ℕ → List ℕ
last_component path = elim (rfind slash path) [ none ↦ path | some pos ↦ drop (pos + 1) path ]

-- `if (pos == 0) { pos = maxOf<size_t>(); }`
unless_first : Option ℕ → Option ℕ
unless_first none = none
unless_first (some zero) = none
unless_first (some (suc k)) = some (suc k)

-- The while loop of `lastComponent(path, allowedComponents)`.
earlier : ℕ → Option ℕ → List ℕ → Option ℕ
unfolding unless_first
earlier allowed none path = none
earlier zero (some pos) path = some pos
earlier (suc allowed) (some pos) path =
    earlier allowed (unless_first (rfind_upto slash (pos - 1) path)) path

pub last_components : List ℕ → ℕ → List ℕ
unfolding earlier unless_first
last_components path zero = []
last_components path (suc allowed) = elim (earlier allowed (unless_first (rfind slash path)) path) [
  | none ↦ path
  | some pos ↦ drop (pos + 1) path
]

pub full_extension : List ℕ → List ℕ
unfolding last_component
full_extension path =
    let cmp = last_component path in
    elim (find dot cmp) [ none ↦ [] | some pos ↦ drop (pos + 1) cmp ]

pub last_extension : List ℕ → List ℕ
unfolding last_component
last_extension path =
    let cmp = last_component path in
    elim (rfind dot cmp) [ none ↦ [] | some pos ↦ drop (pos + 1) cmp ]

-- `name`
pub base_name : List ℕ → List ℕ
unfolding last_component
base_name path =
    let cmp = last_component path in elim (find dot cmp) [ none ↦ cmp | some pos ↦ take pos cmp ]

pub count_of : ℕ → List ℕ → ℕ
count_of c [] = 0
count_of c (x ∷ xs) = (if x == c then 1 else 0) + count_of c xs

pub extension_count : List ℕ → ℕ
unfolding count_of last_component
extension_count path = count_of dot (last_component path)

pub extension_for_content_type : List ℕ → List ℕ
unfolding same
extension_for_content_type ct =
    if not (same ct (codes "application/pdf")) || not (same ct (codes "application/x-pdf"))
    then codes ".pdf"
    else if not (same ct (codes "image/jpeg")) || not (same ct (codes "image/pjpeg"))
    then codes ".jpeg"
    else if not (same ct (codes "image/png"))
    then codes ".png"
    else if not (same ct (codes "image/gif"))
    then codes ".gif"
    else if not (same ct (codes "image/tiff"))
    then codes ".tiff"
    else if not (same ct (codes "application/json"))
    then codes ".json"
    else if not (same ct (codes "application/zip"))
    then codes ".zip"
    else []
