-- ===== src/Coding/Base64/Runs.antt =====
-- Concrete runs, and the theorems at concrete inputs.
use libstappler_common.Common.{ℕ, ◌≡◌, ◌≤◌, refl, arith, List, [], ◌∷◌, codes, length, IsByte, All}
use libstappler_common.Coding.Base64.{
  decode_size, digit, value, high_six, two_four, four_two, low_six, emit, push_digit, decode_from,
  make_encode, url_encode, make_decode,
}
use libstappler_common.Coding.Base64.RoundTrip.{decode-encode, decode-url_encode}
use libstappler_common.Coding.Base64.Shape.{make_decode_shape}

abbrev bytes : List ℕ
bytes = 0x14 ∷ 0xfb ∷ 0x9c ∷ 0x03 ∷ []

make_encode_run : make_encode bytes ≡ codes "FPucAw=="
unfolding make_encode digit high_six two_four four_two low_six
make_encode_run = refl

url_encode_run : url_encode (0xff ∷ 0xfe ∷ []) ≡ codes "__4"
unfolding url_encode digit high_six two_four four_two low_six
url_encode_run = refl

make_decode_run : make_decode (codes "FP uc\nAw") ≡ bytes
unfolding make_decode decode_from value emit push_digit
make_decode_run = refl

decode-encode_example : make_decode (make_encode bytes) ≡ bytes
decode-encode_example = decode-encode bytes (omega arith)

decode-url_encode_example : make_decode (url_encode bytes) ≡ bytes
decode-url_encode_example = decode-url_encode bytes (omega arith)

make_decode_shape_example :
    All IsByte (make_decode (codes "FPuc!"))
    × (length (make_decode (codes "FPuc!")) ≤ decode_size 5)
make_decode_shape_example = make_decode_shape (codes "FPuc!") (omega arith)
