-- ===== src/Text/View.antt =====
-- The view operations of common/string/SPBytesReader.h and SPStringView.h that the paths use.
-- A view (a pointer and a length) is the list of its characters, and `maxOf<size_t>()`, the position
-- that stands for "not found", is `none`.
pub mod Search
use libstappler_common.Common.{
  ℕ, zero, suc, ◌+◌, min, Bool, true, false, ◌&&◌, List, [], ◌∷◌, Option, none, some, ◌==◌, not,
  if◌then◌else◌, length, take, drop,
}
use mathlib.Core.Option

-- `find(c)`: the position of the first `c`.
unfoldable pub find : ℕ → List ℕ → Option ℕ
find c [] = none
find c (x ∷ xs) = if x == c then some 0 else Option.map suc (find c xs)

-- Whether the character at position `i` is `c`.
unfoldable pub at : List ℕ → ℕ → ℕ → Bool
at [] i c = false
at (x ∷ xs) zero c = x == c
at (x ∷ xs) (suc i) c = at xs i c

-- The loop of `rfind(c, pos)`: from position `k - 1` down to 0.
unfoldable pub rfind_below : ℕ → ℕ → List ℕ → Option ℕ
unfolding at
rfind_below c zero s = none
rfind_below c (suc k) s = if at s k c then some k else rfind_below c k s

-- `rfind(c)`, where `pos` is `maxOf<size_t>()`.
unfoldable pub rfind : ℕ → List ℕ → Option ℕ
unfolding rfind_below
rfind c s = rfind_below c (length s) s

-- `rfind(c, pos)`: the loop starts at the smaller of `pos` and `size - 1`.
unfoldable pub rfind_upto : ℕ → ℕ → List ℕ → Option ℕ
unfolding rfind_below
rfind_upto c pos s = rfind_below c (min (length s) (pos + 1)) s

-- `starts_with`, which is `prefix`.
unfoldable pub starts_with : List ℕ → List ℕ → Bool
starts_with s [] = true
starts_with [] (y ∷ ys) = false
starts_with (x ∷ xs) (y ∷ ys) = x == y && starts_with xs ys

-- `compare(d)`, which holds where the two views are the same.
unfoldable pub same : List ℕ → List ℕ → Bool
same [] [] = true
same [] (y ∷ ys) = false
same (x ∷ xs) [] = false
same (x ∷ xs) (y ∷ ys) = x == y && same xs ys

-- `is(c)`, and `++r` behind it.
unfoldable pub skip : ℕ → List ℕ → List ℕ
skip c [] = []
skip c (x ∷ xs) = if x == c then xs else x ∷ xs

-- `readUntil<Chars<c>>`: what is read, and what the view is left with.
unfoldable pub read_until : ℕ → List ℕ → List ℕ × List ℕ
read_until c [] = ([], [])
read_until c (x ∷ xs) =
    let (str, rest) = read_until c xs in if x == c then ([], x ∷ xs) else (x ∷ str, rest)
