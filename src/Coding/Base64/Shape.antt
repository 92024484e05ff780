-- ===== src/Coding/Base64/Shape.antt =====
-- How long the encoders' and the decoder's results are, and that they are bytes.
use libstappler_common.Common.{
  ℕ, ◌+◌, ◌*◌, ◌/◌, ◌^◌, ◌≤◌, ◌<◌, ◌≡◌, refl, arith, List, [], ◌∷◌, ◌==◌, Bool-cases, inl, inr,
  IsByte, All, length, All-append,
}
use libstappler_common.Coding.Base64.{
  encode_size, decode_size, emit, push_digit, value, xx, decode_from, make_encode, url_encode,
  make_decode,
}

-- The length that the encoder produces, before `size_t` cuts it off.
length_units : (s : List ℕ) → length (make_encode s) ≡ (length s + 2) / 3 * 4
unfolding make_encode
length_units [] = refl
length_units (a ∷ []) = refl
length_units (a ∷ b ∷ []) = refl
length_units (a ∷ b ∷ c ∷ rest) = omega (arith, length_units rest)

-- `encodeSize` is the length of what `make_encode` writes, for a buffer whose encoding `size_t` can
-- measure.
pub encode_size-length :
    (s : List ℕ) → length s < 2 ^ 62 → encode_size (length s) ≡ length (make_encode s)
unfolding encode_size
encode_size-length s h = ground (arith, length_units s)

-- base64url writes four characters for each three bytes, and n + 1 for the last n, with no padding.
pub length-url_encode : (s : List ℕ) → length (url_encode s) ≡ (4 * length s + 2) / 3
unfolding url_encode
length-url_encode [] = refl
length-url_encode (a ∷ []) = refl
length-url_encode (a ∷ b ∷ []) = refl
length-url_encode (a ∷ b ∷ c ∷ rest) = omega (arith, length-url_encode rest)

emit-bytes : (acc : List ℕ) → All IsByte (emit acc)
unfolding emit
emit-bytes [] = tt
emit-bytes (a ∷ []) = tt
emit-bytes (a ∷ b ∷ []) = omega arith
emit-bytes (a ∷ b ∷ c ∷ []) = omega arith
emit-bytes (a ∷ b ∷ c ∷ d ∷ r) = omega arith

push_digit-bytes :
    (next : List ℕ → List ℕ)
    → ((acc : List ℕ) → All IsByte (next acc))
    → (acc : List ℕ) (d : ℕ) → All IsByte (push_digit next acc d)
unfolding push_digit
push_digit-bytes next h [] d = h _
push_digit-bytes next h (a ∷ []) d = h _
push_digit-bytes next h (a ∷ b ∷ []) d = h _
push_digit-bytes next h (a ∷ b ∷ c ∷ []) d =
    All-append IsByte (emit (a ∷ b ∷ c ∷ d ∷ [])) _ (emit-bytes (a ∷ b ∷ c ∷ d ∷ [])) (h [])
push_digit-bytes next h (a ∷ b ∷ c ∷ e ∷ r) d = h _

decode_from-bytes : (s acc : List ℕ) → All IsByte (decode_from s acc)
unfolding decode_from
decode_from-bytes [] acc = emit-bytes acc
decode_from-bytes (c ∷ rest) acc = elim (Bool-cases (value c == xx)) [
  | inl e ↦ rw e (decode_from-bytes rest acc)
  | inr e ↦ rw e (push_digit-bytes (decode_from rest) (decode_from-bytes rest) acc (value c))
]

length-emit : (acc : List ℕ) → length acc ≤ 3 → 4 * length (emit acc) ≤ 3 * length acc
unfolding emit
length-emit [] h = omega arith
length-emit (a ∷ []) h = omega arith
length-emit (a ∷ b ∷ []) h = omega arith
length-emit (a ∷ b ∷ c ∷ []) h = omega arith
length-emit (a ∷ b ∷ c ∷ d ∷ r) h = absurd (omega arith)

length-push_digit :
    (next : List ℕ → List ℕ) (n : ℕ)
    → ((acc : List ℕ) → length acc ≤ 3 → 4 * length (next acc) ≤ 3 * (n + length acc))
    → (acc : List ℕ) (d : ℕ) → length acc ≤ 3
    → 4 * length (push_digit next acc d) ≤ 3 * (n + 1 + length acc)
unfolding push_digit emit
length-push_digit next n h [] d le = omega (arith, h (d ∷ []) (omega arith))
length-push_digit next n h (a ∷ []) d le = omega (arith, h (a ∷ d ∷ []) (omega arith))
length-push_digit next n h (a ∷ b ∷ []) d le = omega (arith, h (a ∷ b ∷ d ∷ []) (omega arith))
length-push_digit next n h (a ∷ b ∷ c ∷ []) d le = omega (arith, h [] (omega arith))
length-push_digit next n h (a ∷ b ∷ c ∷ e ∷ r) d le = absurd (omega arith)

length-decode_from :
    (s acc : List ℕ) → length acc ≤ 3 → 4 * length (decode_from s acc) ≤ 3 * (length s + length acc)
unfolding decode_from
length-decode_from [] acc h = omega (arith, length-emit acc h)
length-decode_from (c ∷ rest) acc h = elim (Bool-cases (value c == xx)) [
  | inl e ↦ rw e (omega (arith, length-decode_from rest acc h))
  | inr e ↦ rw e (
      omega (
        arith,
        length-push_digit (decode_from rest) (length rest) (length-decode_from rest) acc (value c)
            h,
      ))
]

-- On any text the decoder writes bytes only, and no more of them than `decodeSize` announces (where
-- `size_t` can hold the text's length and three more).
pub make_decode_shape :
    (s : List ℕ)
    → length s + 3 < 2 ^ 64
    → All IsByte (make_decode s) × (length (make_decode s) ≤ decode_size (length s))
unfolding make_decode decode_size
make_decode_shape s h =
    (decode_from-bytes s [], omega (arith, length-decode_from s [] (omega arith)))
