-- ===== src/Coding/Base16/Buffers.antt =====
-- The encoder and the decoder that write into a caller's buffer.
use mathlib.Core.Option
use native.Mathlib.Nat.{sub-zero}
use libstappler_common.Common.{
  take-nil, ℕ, suc, ◌+◌, ◌-◌, ◌*◌, ◌/◌, ◌≡◌, ◌∙◌, ap, arith, true, false, List, [], ◌∷◌, min,
  Option, some, length, take, leb, Bool-cases, Option-cases, inl, inr,
}
use libstappler_common.Coding.Base16.{
  hex_to_char, encode, encode_from, encode_buffer, decode, decode_from, decode_buffer,
}
use libstappler_common.Coding.Base16.RoundTrip.{decode-cons}

take_pairs :
    (room bytes : ℕ)
    → leb (bytes + 2) room ≡ true
    → (room - bytes) / 2 ≡ suc ((room - (bytes + 2)) / 2)
take_pairs room bytes h = ground arith

no_pairs : (room bytes : ℕ) → leb (bytes + 2) room ≡ false → (room - bytes) / 2 ≡ 0
no_pairs room bytes h = ground arith

with_count : (out : List ℕ) (n m : ℕ) → n ≡ m → ◌≡◌ {A = List ℕ × ℕ} (out, n) (out, m)
with_count out n m e = ap (λ (k : ℕ). (out, k)) e

encode_from_lem :
    (room bytes : ℕ) (s : List ℕ)
    → encode_from room bytes s
      ≡ (encode (take ((room - bytes) / 2) s), bytes + 2 * min ((room - bytes) / 2) (length s))
unfolding encode_from encode
encode_from_lem room bytes [] = rw (take-nil ((room - bytes) / 2)) (with_count [] _ _ (omega arith))
encode_from_lem room bytes (b ∷ rest) = elim (Bool-cases (leb (bytes + 2) room)) [
  | inl e ↦
      rw (e, take_pairs room bytes e, encode_from_lem room (bytes + 2) rest)
        (with_count _ _ _ (omega arith))
  | inr e ↦ rw (e, no_pairs room bytes e) (with_count _ _ _ (omega arith))
]

-- `encode` into a buffer writes the encoding of as many whole bytes as two characters each leave room
-- for, and returns the count of characters written.
pub encode_buffer_lem :
    (room : ℕ) (s : List ℕ)
    → encode_buffer room s ≡ (encode (take (room / 2) s), 2 * min (room / 2) (length s))
unfolding encode_buffer
encode_buffer_lem room s = encode_from_lem room 0 s ∙ (rw sub-zero (with_count _ _ _ (omega arith)))

decode-cons_inv :
    (c d : ℕ) (rest out : List ℕ)
    → decode (c ∷ d ∷ rest) ≡ some out
    → (more : List ℕ) × (decode rest ≡ some more) × (out ≡ hex_to_char c d ∷ more)
decode-cons_inv c d rest out e = elim (Option-cases (decode rest)) [
  | inl n ↦ cc (decode-cons c d rest, ap (Option.map (λ out. hex_to_char c d ∷ out)) n)
  | inr (more, m) ↦
      (more, m, cc (decode-cons c d rest, ap (Option.map (λ out. hex_to_char c d ∷ out)) m))
]

take_byte : (room bytes : ℕ) → leb (bytes + 1) room ≡ true → room - bytes ≡ suc (room - (bytes + 1))
take_byte room bytes h = ground arith

no_byte : (room bytes : ℕ) → leb (bytes + 1) room ≡ false → room - bytes ≡ 0
no_byte room bytes h = ground arith

found_count :
    (out : List ℕ) (n m : ℕ) → n ≡ m → ◌≡◌ {A = Option (List ℕ × ℕ)} (some (out, n)) (some (out, m))
found_count out n m e = ap (λ (k : ℕ). some (out, k)) e

decode_from_lem :
    (room bytes : ℕ) (s out : List ℕ)
    → decode s ≡ some out
    → decode_from room bytes s
      ≡ some (take (room - bytes) out, bytes + min (room - bytes) (length out))
unfolding decode_from hex_to_char
decode_from_lem room bytes [] out e =
    let z : out ≡ [] = unfold decode in cc in
    rw (z, take-nil (room - bytes)) (found_count [] _ _ (omega arith))
decode_from_lem room bytes (c ∷ []) out e = unfold decode in cc
decode_from_lem room bytes (c ∷ d ∷ rest) out e =
    let (more, m, shape) = decode-cons_inv c d rest out e in
    elim (Bool-cases (leb (bytes + 1) room)) [
      | inl y ↦
          rw (shape, y, take_byte room bytes y, decode_from_lem room (bytes + 1) rest more m)
            (found_count _ _ _ (omega arith))
      | inr n ↦ rw (shape, n, no_byte room bytes n) (found_count _ _ _ (omega arith))
    ]

-- Where `decode` of a text succeeds, `decode` into a buffer writes as many of the decoded bytes as fit,
-- and returns their count.
pub decode_buffer_lem :
    (room : ℕ) (s out : List ℕ)
    → decode s ≡ some out
    → decode_buffer room s ≡ some (take room out, min room (length out))
unfolding decode_buffer
decode_buffer_lem room s out e =
    decode_from_lem room 0 s out e ∙ (rw sub-zero (found_count _ _ _ (omega arith)))
