-- ===== src/Coding/Base16/RoundTrip.antt =====
-- Decoding an encoded buffer, and exactly when a text decodes.
use libstappler_common.Common.{
  ℕ, ◌%◌, ◌≡◌, refl, sym, ◌∙◌, ap, arith, bit_or, u8, ◌<<<◌, get_or, Bool, true, false, List, [],
  ◌∷◌, none, some, length, IsByte, All,
}
use mathlib.Core.Option
use mathlib.Core.Path.{ap₂}
use libstappler_common.Coding.Base16.{
  entry, char_to_hex, hex_digit, hex_to_char, encode, decode, decode_size,
}
use libstappler_common.Coding.Base16.Tables.{read_lower, read_upper}

-- `hexToChar` of the two characters that `charToHex` gives for a byte, in either case, is the byte.
pub hex_to_char-char_to_hex :
    (c : ℕ) (upper : Bool) (x y : ℕ)
    → IsByte c
    → char_to_hex c upper ≡ x ∷ y ∷ []
    → hex_to_char x y ≡ c
unfolding char_to_hex hex_to_char entry
hex_to_char-char_to_hex c true x y h e =
    ap₂ (λ x y. u8 (bit_or (hex_digit x <<< 4) (hex_digit y))) (sym (ap (λ l. get_or l 0 0) e))
      (sym (ap (λ l. get_or l 1 0) e))
    ∙ read_upper c h
hex_to_char-char_to_hex c false x y h e =
    ap₂ (λ x y. u8 (bit_or (hex_digit x <<< 4) (hex_digit y))) (sym (ap (λ l. get_or l 0 0) e))
      (sym (ap (λ l. get_or l 1 0) e))
    ∙ read_lower c h

-- `decode` reads back the bytes that `encode` wrote of a byte buffer.
pub decode-encode_hex : (s : List ℕ) → All IsByte s → decode (encode s) ≡ some s
unfolding decode encode entry
decode-encode_hex [] h = refl
decode-encode_hex (b ∷ rest) h = rw (decode-encode_hex rest h.1, read_lower b h.0)

-- One more pair of digits.
pub decode-cons :
    (c d : ℕ) (rest : List ℕ)
    → decode (c ∷ d ∷ rest) ≡ Option.map (λ out. hex_to_char c d ∷ out) (decode rest)
unfolding decode hex_to_char
decode-cons c d rest = refl

-- On a text of even length `decode` succeeds, and makes half as many bytes, as `decodeSize` says.
pub decode_even :
    (s : List ℕ)
    → length s % 2 ≡ 0
    → (out : List ℕ) × (decode s ≡ some out)
      × (length out ≡ decode_size (length s))
      × All IsByte out
unfolding decode_size hex_to_char
decode_even [] h = ([], unfold decode in refl, refl, tt)
decode_even (c ∷ []) h = absurd (omega arith)
decode_even (c ∷ d ∷ rest) h =
    let (out, e, len, bytes) = decode_even rest (omega arith) in
    (hex_to_char c d ∷ out, rw (decode-cons c d rest, e), omega (arith, len), (omega arith, bytes))

-- On a text of odd length `decode` reads behind the end of its source.
pub decode_odd : (s : List ℕ) → length s % 2 ≡ 1 → decode s ≡ none
decode_odd [] h = absurd (omega arith)
decode_odd (c ∷ []) h = unfold decode in refl
decode_odd (c ∷ d ∷ rest) h = rw (decode-cons c d rest, decode_odd rest (omega arith))
