-- ===== src/Time/Mask.antt =====
-- `sp_date_checkmask`. A view is the list of its characters.
use libstappler_common.Common.{
  ℕ, Bool, true, false, ◌&&◌, ◌||◌, List, [], ◌∷◌, ◌==◌, leb, if◌then◌else◌,
}

-- `chars::isupper`, `islower`, `isdigit`, `isxdigit`, and the white space of a view of `char`.
unfoldable pub isupper : ℕ → Bool
isupper c = leb 0x41 c && leb c 0x5a

unfoldable pub islower : ℕ → Bool
islower c = leb 0x61 c && leb c 0x7a

unfoldable pub isdigit : ℕ → Bool
isdigit c = leb 0x30 c && leb c 0x39

unfoldable pub isxdigit : ℕ → Bool
unfolding isdigit
isxdigit c = isdigit c || (leb 0x41 c && leb c 0x46) || (leb 0x61 c && leb c 0x66)

unfoldable pub iswhite : ℕ → Bool
iswhite c = (leb 0x09 c && leb c 0x0d) || (c == 0x20)

-- The test of a character by a character of the mask other than '\0' and '*'.
unfoldable pub fits : ℕ → ℕ → Bool
unfolding isupper islower isdigit isxdigit
fits m d =
    if m == 0x40
    then isupper d
    else if m == 0x24
    then islower d
    else if m == 0x23
    then isdigit d
    else if m == 0x26
    then isxdigit d
    else if m == 0x7e
    then (d == 0x20) || isdigit d
    else m == d

-- `while (data.empty() && mask.is('*')) { ++ mask; }`, and whether the mask is empty then.
unfoldable pub only_stars : List ℕ → Bool
only_stars [] = true
only_stars (m ∷ mask) = (m == 0x2a) && only_stars mask

-- `sp_date_checkmask(data, mask)`
unfoldable pub checkmask : List ℕ → List ℕ → Bool
unfolding fits only_stars
checkmask text [] = elim text [ [] ↦ true | d ∷ rest ↦ false ]
checkmask [] (m ∷ mask) = only_stars (m ∷ mask)
checkmask (d ∷ text) (m ∷ mask) =
    let rest = checkmask text mask in
    if m == 0 then d == 0 else if m == 0x2a then true else if fits m d then rest else false
