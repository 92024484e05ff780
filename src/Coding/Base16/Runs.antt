-- ===== src/Coding/Base16/Runs.antt =====
-- Concrete runs, and the theorems at concrete inputs.
use libstappler_common.Common.{ℕ, ◌≡◌, refl, arith, List, [], ◌∷◌, some, codes}
use libstappler_common.Coding.Base16.{entry, hex_digit, encode, encode_buffer, encode_from, decode}
use libstappler_common.Coding.Base16.RoundTrip.{decode-encode_hex}

abbrev bytes : List ℕ
bytes = 0x00 ∷ 0xa7 ∷ 0xff ∷ []

encode_run : encode bytes ≡ codes "00a7ff"
unfolding encode entry
encode_run = refl

decode_upper_run : decode (codes "00A7Ff") ≡ some bytes
unfolding decode hex_digit
decode_upper_run = refl

encode_buffer_run : encode_buffer 5 bytes ≡ (codes "00a7", 4)
unfolding encode_buffer encode_from entry
encode_buffer_run = refl

decode-encode_hex_example : decode (encode bytes) ≡ some bytes
decode-encode_hex_example = decode-encode_hex bytes (omega arith)
