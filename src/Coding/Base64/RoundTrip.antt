-- ===== src/Coding/Base64/RoundTrip.antt =====
-- Decoding an encoded buffer, for both alphabets.
use libstappler_common.Common.{
  ℕ, ◌+◌, ◌*◌, ◌/◌, ◌%◌, ◌<◌, ◌≡◌, refl, ◌∙◌, ap, arith, List, [], ◌∷◌, ◌++◌, bit_and, ◌<<<◌,
  IsByte, All,
}
use libstappler_common.Coding.Base64.{
  digit, value, encode_lookup, url_lookup, high_six, two_four, four_two, low_six, emit, push_digit,
  decode_from, make_encode, url_encode, make_decode,
}
use libstappler_common.Coding.Base64.Bits.{
  value-digit, value-url_digit, high_six-eq, two_four-eq, four_two-eq, low_six-eq, low_two-eq,
  low_four-eq, emit_two, emit_three, emit_four,
}

emit_one_byte : (a : ℕ) → IsByte a → emit (a / 4 ∷ a % 4 * 16 ∷ []) ≡ a ∷ []
emit_one_byte a ha = ground (arith, emit_two (a / 4) (a % 4 * 16))

emit_two_bytes :
    (a b : ℕ)
    → IsByte a
    → IsByte b
    → emit (a / 4 ∷ (a % 4 * 16 + b / 16) ∷ b % 16 * 4 ∷ []) ≡ a ∷ b ∷ []
emit_two_bytes a b ha hb = ground (arith, emit_three (a / 4) (a % 4 * 16 + b / 16) (b % 16 * 4))

emit_three_bytes :
    (a b c : ℕ)
    → IsByte a
    → IsByte b
    → IsByte c
    → emit (a / 4 ∷ (a % 4 * 16 + b / 16) ∷ (b % 16 * 4 + c / 64) ∷ c % 64 ∷ []) ≡ a ∷ b ∷ c ∷ []
emit_three_bytes a b c ha hb hc =
    ground (arith, emit_four (a / 4) (a % 4 * 16 + b / 16) (b % 16 * 4 + c / 64) (c % 64))

-- An alphabet whose digits the decoding table reads back.
module _ (lookup : List ℕ) (reads : (i : ℕ) → i < 64 → value (digit lookup i) ≡ i) where
  one_digit :
      (i : ℕ) (rest acc : List ℕ)
      → i < 64
      → decode_from (digit lookup i ∷ rest) acc ≡ push_digit (decode_from rest) acc i
  unfolding decode_from
  one_digit i rest acc h = rw (reads i h) (ground arith)

  two_digits :
      (a b : ℕ) (rest : List ℕ)
      → a < 64
      → b < 64
      → decode_from (digit lookup a ∷ digit lookup b ∷ rest) [] ≡ decode_from rest (a ∷ b ∷ [])
  unfolding push_digit
  two_digits a b rest ha hb = one_digit a _ [] ha ∙ one_digit b rest (a ∷ []) hb

  three_digits :
      (a b c : ℕ) (rest : List ℕ)
      → a < 64
      → b < 64
      → c < 64
      → decode_from (digit lookup a ∷ digit lookup b ∷ digit lookup c ∷ rest) []
        ≡ decode_from rest (a ∷ b ∷ c ∷ [])
  unfolding push_digit
  three_digits a b c rest ha hb hc = two_digits a b _ ha hb ∙ one_digit c rest (a ∷ b ∷ []) hc

  four_digits :
      (a b c d : ℕ) (rest : List ℕ)
      → a < 64
      → b < 64
      → c < 64
      → d < 64
      → decode_from (digit lookup a ∷ digit lookup b ∷ digit lookup c ∷ digit lookup d ∷ rest) []
        ≡ emit (a ∷ b ∷ c ∷ d ∷ []) ++ decode_from rest []
  unfolding push_digit
  four_digits a b c d rest ha hb hc hd =
      three_digits a b c _ ha hb hc ∙ one_digit d rest (a ∷ b ∷ c ∷ []) hd

  -- One byte, two bytes and three bytes, as the encoders write them.
  one_byte :
      (a : ℕ) (rest : List ℕ)
      → IsByte a
      → decode_from (digit lookup (high_six a) ∷ digit lookup (bit_and a 0x03 <<< 4) ∷ rest) []
        ≡ decode_from rest (a / 4 ∷ a % 4 * 16 ∷ [])
  one_byte a rest ha =
      rw (high_six-eq a ha, low_two-eq)
        (two_digits (a / 4) (a % 4 * 16) rest (omega arith) (omega arith))

  two_bytes :
      (a b : ℕ) (rest : List ℕ)
      → IsByte a
      → IsByte b
      → decode_from
          (digit lookup (high_six a)
            ∷ digit lookup (two_four a b)
            ∷ digit lookup (bit_and b 0x0f <<< 2)
            ∷ rest)
          []
        ≡ decode_from rest (a / 4 ∷ (a % 4 * 16 + b / 16) ∷ b % 16 * 4 ∷ [])
  two_bytes a b rest ha hb =
      rw (high_six-eq a ha, two_four-eq a b hb, low_four-eq)
        (three_digits (a / 4) (a % 4 * 16 + b / 16) (b % 16 * 4) rest (omega arith) (omega arith)
          (omega arith))

  three_bytes :
      (a b c : ℕ) (rest : List ℕ)
      → IsByte a
      → IsByte b
      → IsByte c
      → decode_from
          (digit lookup (high_six a)
            ∷ digit lookup (two_four a b)
            ∷ digit lookup (four_two b c)
            ∷ digit lookup (low_six c)
            ∷ rest)
          []
        ≡ a ∷ b ∷ c ∷ decode_from rest []
  three_bytes a b c rest ha hb hc =
      rw (high_six-eq a ha, two_four-eq a b hb, four_two-eq b c hc, low_six-eq)
        (four_digits (a / 4) (a % 4 * 16 + b / 16) (b % 16 * 4 + c / 64) (c % 64) rest (omega arith)
            (omega arith) (omega arith) (omega arith)
          ∙ ap (λ t. t ++ decode_from rest []) (emit_three_bytes a b c ha hb hc))

-- '=' is no digit.
skip_padding :
    (acc : List ℕ)
    → (decode_from (b'=' ∷ []) acc ≡ emit acc) × (decode_from (b'=' ∷ b'=' ∷ []) acc ≡ emit acc)
unfolding decode_from value
skip_padding acc = (refl, refl)

decode_from-nil : (acc : List ℕ) → decode_from [] acc ≡ emit acc
unfolding decode_from
decode_from-nil acc = refl

-- What `make_encode` writes of a byte buffer, padding included, `make_decode` reads back.
pub decode-encode : (s : List ℕ) → All IsByte s → make_decode (make_encode s) ≡ s
unfolding make_encode make_decode
decode-encode [] h = unfold decode_from emit in refl
decode-encode (a ∷ []) h =
    one_byte encode_lookup value-digit a _ h.0 ∙ (skip_padding _).1 ∙ emit_one_byte a h.0
decode-encode (a ∷ b ∷ []) h =
    two_bytes encode_lookup value-digit a b _ h.0 h.1.0
    ∙ (skip_padding _).0
    ∙ emit_two_bytes a b h.0 h.1.0
decode-encode (a ∷ b ∷ c ∷ rest) h =
    three_bytes encode_lookup value-digit a b c _ h.0 h.1.0 h.1.1.0
    ∙ ap (λ t. a ∷ b ∷ c ∷ t) (decode-encode rest h.1.1.1)

-- The shared decoder reads back what the unpadded base64url encoder writes of a byte buffer.
pub decode-url_encode : (s : List ℕ) → All IsByte s → make_decode (url_encode s) ≡ s
unfolding url_encode make_decode
decode-url_encode [] h = unfold decode_from emit in refl
decode-url_encode (a ∷ []) h =
    one_byte url_lookup value-url_digit a _ h.0 ∙ decode_from-nil _ ∙ emit_one_byte a h.0
decode-url_encode (a ∷ b ∷ []) h =
    two_bytes url_lookup value-url_digit a b _ h.0 h.1.0
    ∙ decode_from-nil _
    ∙ emit_two_bytes a b h.0 h.1.0
decode-url_encode (a ∷ b ∷ c ∷ rest) h =
    three_bytes url_lookup value-url_digit a b c _ h.0 h.1.0 h.1.1.0
    ∙ ap (λ t. a ∷ b ∷ c ∷ t) (decode-url_encode rest h.1.1.1)
