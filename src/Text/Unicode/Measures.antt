-- ===== src/Text/Unicode/Measures.antt =====
-- Encoded texts: valid, and as long as the length functions say.
use libstappler_common.Common.{
  ℕ, suc, ◌^◌, ◌<◌, ◌≡◌, refl, ◌∙◌, ap, arith, true, List, [], ◌∷◌, ◌++◌, length, length-append,
  All,
}
use libstappler_common.Text.Unicode.{
  utf8_encode, valid_from, is_valid_utf8, units_from, get_utf16_length, get_utf8_length,
}
use libstappler_common.Text.Unicode.Codec.{shape, length-Shape, valid-Shape, units-Shape}

-- The encoding of a text of code units.
abbrev pub encode_all : List ℕ → List ℕ
encode_all [] = []
encode_all (c ∷ cs) = utf8_encode c ++ encode_all cs

-- A code unit of a text: no zero, and 16 bits.
abbrev pub IsUnit : ℕ → Type 0
IsUnit c = (0 < c) × (c < 2 ^ 16)

units_from-encode_all : (cs : List ℕ) → All IsUnit cs → units_from 0 (encode_all cs) ≡ length cs
unfolding units_from
units_from-encode_all [] h = refl
units_from-encode_all (c ∷ cs) ((pos, fits), h) =
    units-Shape c (utf8_encode c) (encode_all cs) (shape c pos fits)
    ∙ ap suc (units_from-encode_all cs h)

valid_from-encode_all : (cs : List ℕ) → All IsUnit cs → valid_from 0 (encode_all cs) ≡ true
unfolding valid_from
valid_from-encode_all [] h = refl
valid_from-encode_all (c ∷ cs) ((pos, fits), h) =
    valid-Shape c (utf8_encode c) (encode_all cs) (shape c pos fits) ∙ valid_from-encode_all cs h

length-encode_all : (cs : List ℕ) → All IsUnit cs → length (encode_all cs) ≡ get_utf8_length cs
unfolding get_utf8_length
length-encode_all [] hs = refl
length-encode_all (c ∷ ds) ((pos, fits), hs) = omega (
  arith,
  length-append (utf8_encode c) (encode_all ds),
  length-Shape c (utf8_encode c) (shape c pos fits),
  length-encode_all ds hs,
)

-- The encoding of a text of code units, none of them zero, is valid UTF-8; `getUtf16Length` counts its
-- units, and its length is what `getUtf8Length` foretells.
pub encode_all-measures :
    (cs : List ℕ)
    → All IsUnit cs
    → (is_valid_utf8 (encode_all cs) ≡ true)
      × (get_utf16_length (encode_all cs) ≡ length cs)
      × (length (encode_all cs) ≡ get_utf8_length cs)
unfolding is_valid_utf8 get_utf16_length
encode_all-measures cs h =
    (valid_from-encode_all cs h, units_from-encode_all cs h, length-encode_all cs h)
