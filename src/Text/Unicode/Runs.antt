-- ===== src/Text/Unicode/Runs.antt =====
-- Runs on concrete texts.
use libstappler_common.Common.{ℕ, ◌≡◌, refl, arith, true, List, [], ◌∷◌, ◌++◌, length}
use libstappler_common.Text.Unicode.{
  utf8_decode, utf8_encode, utf8_encode_length, utf8_next, is_valid_utf8, get_utf16_length,
  get_utf8_length, decode_tail,
}
use libstappler_common.Text.Unicode.Codec.{utf8_decode-encode}
use libstappler_common.Text.Unicode.Measures.{encode_all, encode_all-measures}

abbrev word : List ℕ
word = 0x68 ∷ 0x439 ∷ 0x20ac ∷ []

-- The zero unit, which the encoder writes as a byte, decodes with no length.
zero_unit : utf8_decode (utf8_encode 0) ≡ (0, 0)
unfolding utf8_decode utf8_encode decode_tail
zero_unit = refl

-- A symbol of four bytes is a space to the function that steps.
four_bytes : utf8_next (0xf0 ∷ 0x9f ∷ 0x98 ∷ 0x80 ∷ 0x21 ∷ []) ≡ (0x20, 0x21 ∷ [])
unfolding utf8_next utf8_decode
four_bytes = refl

utf8_decode-encode_example :
    utf8_decode (utf8_encode 0x20ac ++ (0x21 ∷ [])) ≡ (0x20ac, utf8_encode_length 0x20ac)
utf8_decode-encode_example = utf8_decode-encode 0x20ac (0x21 ∷ []) (omega arith) (omega arith)

encode_all-measures_example :
    (is_valid_utf8 (encode_all word) ≡ true)
    × (get_utf16_length (encode_all word) ≡ length word)
    × (length (encode_all word) ≡ get_utf8_length word)
encode_all-measures_example =
    encode_all-measures word
      ((omega arith, omega arith), ((omega arith, omega arith), ((omega arith, omega arith), tt)))
