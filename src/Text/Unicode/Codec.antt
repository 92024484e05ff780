-- ===== src/Text/Unicode/Codec.antt =====
-- The UTF-8 encoder of code units against the decoder, the validator and the counters.
use libstappler_common.Common.{
  ℕ, suc, ◌+◌, ◌-◌, ◌*◌, ◌/◌, ◌%◌, ◌^◌, ◌≤◌, ◌<◌, ◌≡◌, inl, inr, refl, ◌∙◌, ap, arith, true, false,
  List, [], ◌∷◌, ◌++◌, bit_and, bit_or, ltb, ◌==◌, ◌<<<◌, length, u8, u16, u32, Bool-cases,
}
use libstappler_common.Common.Bits.{or_field, and_mask}
use libstappler_common.Common.Tables.{all_below, all_below_sound, table_eq}
use libstappler_common.Text.Unicode.{
  data_at, mask_at, valid_at, is_utf8_surrogate, decode_tail, utf8_decode, utf8_encode_length,
  utf8_encode, valid_from, units_from,
}

-- The bytes of a symbol, as arithmetic.
low : ℕ → ℕ
low c = 128 + c % 64

or_low : (c : ℕ) → u8 (bit_or 0x80 (bit_and c 0x3f)) ≡ 128 + c % 64
or_low c = ground (arith, and_mask 6 c, or_field 7 1 (c % 64))

or_two : (q : ℕ) → q < 32 → u8 (bit_or 0xc0 q) ≡ 192 + q
or_two q h = ground (arith, or_field 6 3 q)

or_three : (q : ℕ) → q < 16 → u8 (bit_or 0xe0 q) ≡ 224 + q
or_three q h = ground (arith, or_field 5 7 q)

pub utf8_encode-one : (c : ℕ) → c < 0x80 → utf8_encode c ≡ c ∷ []
unfolding utf8_encode
utf8_encode-one c h = ground arith

pub utf8_encode-two :
    (c : ℕ) → 0x80 ≤ c → c < 0x800 → utf8_encode c ≡ (192 + c / 64) ∷ (128 + c % 64) ∷ []
unfolding utf8_encode
utf8_encode-two c h h' = ground (arith, or_two (c / 64), or_low c)

pub utf8_encode-three :
    (c : ℕ)
    → 0x800 ≤ c
    → c < 2 ^ 16
    → utf8_encode c ≡ (224 + c / 4096) ∷ (128 + c / 64 % 64) ∷ (128 + c % 64) ∷ []
unfolding utf8_encode
utf8_encode-three c h h' = ground (arith, or_three (c / 4096), or_low (c / 64), or_low c)

surrogate : (i : ℕ) → i < 64 → is_utf8_surrogate (128 + i) ≡ true
unfolding all_below is_utf8_surrogate
surrogate i h = all_below_sound 64 (λ i. bit_and (128 + i) 0xc0 == 0x80) i refl h

-- What the tables say of the first byte of an encoded unit.
data_one : (i : ℕ) → i < 127 → data_at (1 + i) ≡ 1
unfolding all_below data_at
data_one = table_eq 127 (λ i. data_at (1 + i)) (λ i. 1) refl

data_two : (i : ℕ) → i < 32 → data_at (192 + i) ≡ 2
unfolding all_below data_at
data_two = table_eq 32 (λ i. data_at (192 + i)) (λ i. 2) refl

data_three : (i : ℕ) → i < 16 → data_at (224 + i) ≡ 3
unfolding all_below data_at
data_three = table_eq 16 (λ i. data_at (224 + i)) (λ i. 3) refl

valid_one : (i : ℕ) → i < 127 → valid_at (1 + i) ≡ 1
unfolding all_below valid_at
valid_one = table_eq 127 (λ i. valid_at (1 + i)) (λ i. 1) refl

valid_two : (i : ℕ) → i < 32 → valid_at (192 + i) ≡ 2
unfolding all_below valid_at
valid_two = table_eq 32 (λ i. valid_at (192 + i)) (λ i. 2) refl

valid_three : (i : ℕ) → i < 16 → valid_at (224 + i) ≡ 3
unfolding all_below valid_at
valid_three = table_eq 16 (λ i. valid_at (224 + i)) (λ i. 3) refl

masked_one : (i : ℕ) → i < 127 → bit_and (1 + i) (mask_at (1 + i)) ≡ 1 + i
unfolding all_below mask_at
masked_one = table_eq 127 (λ i. bit_and (1 + i) (mask_at (1 + i))) (λ i. 1 + i) refl

masked_two : (i : ℕ) → i < 32 → bit_and (192 + i) (mask_at (192 + i)) ≡ i
unfolding all_below mask_at
masked_two = table_eq 32 (λ i. bit_and (192 + i) (mask_at (192 + i))) (λ i. i) refl

masked_three : (i : ℕ) → i < 16 → bit_and (224 + i) (mask_at (224 + i)) ≡ i
unfolding all_below mask_at
masked_three = table_eq 16 (λ i. bit_and (224 + i) (mask_at (224 + i))) (λ i. i) refl

-- A byte that continues a symbol brings six bits.
tail_step :
    (n ret i : ℕ) (r : List ℕ)
    → ret < 2 ^ 26
    → i < 64
    → decode_tail (suc n) ret ((128 + i) ∷ r) ≡ decode_tail n (ret * 64 + i) r
unfolding decode_tail
tail_step n ret i r small h = rw (decode_tail, surrogate i h) (ap (λ t. decode_tail n t r) joined)
  where
    joined : u32 (bit_or (u32 (ret <<< 6)) (bit_and (128 + i) 0x3f)) ≡ ret * 64 + i
    joined = ground (arith, and_mask 6 (128 + i), or_field 6 ret i)

valid_step : (n i : ℕ) (r : List ℕ) → i < 64 → valid_from (suc n) ((128 + i) ∷ r) ≡ valid_from n r
unfolding valid_from
valid_step n i r h = rw (valid_from, surrogate i h) refl

-- The three shapes of an encoded unit other than zero.
pub data Shape (c : ℕ) (bytes : List ℕ) : Type 0 where
  one :
      (i : ℕ)
      → i < 127
      → c ≡ 1 + i
      → bytes ≡ (1 + i) ∷ []
      → utf8_encode_length c ≡ 1
      → Shape c bytes
  two :
      (q i : ℕ)
      → q < 32
      → i < 64
      → c ≡ q * 64 + i
      → bytes ≡ (192 + q) ∷ (128 + i) ∷ []
      → utf8_encode_length c ≡ 2
      → Shape c bytes
  three :
      (q j i : ℕ)
      → q < 16
      → j < 64
      → i < 64
      → c ≡ (q * 64 + j) * 64 + i
      → bytes ≡ (224 + q) ∷ (128 + j) ∷ (128 + i) ∷ []
      → utf8_encode_length c ≡ 3
      → Shape c bytes

pub shape : (c : ℕ) → 0 < c → c < 2 ^ 16 → Shape c (utf8_encode c)
unfolding utf8_encode_length
shape c pos fits = elim (Bool-cases (ltb c 0x80)) [
  | inl y ↦
      one (c - 1) (ground arith) (omega arith)
        (utf8_encode-one c (ground arith) ∙ ap (λ t. t ∷ []) (omega arith)) (rw y refl)
  | inr n ↦ elim (Bool-cases (ltb c 0x800)) [
    | inl y ↦
        two (c / 64) (c % 64) (ground arith) (omega arith) (omega arith)
          (utf8_encode-two c (ground arith) (ground arith)) (rw (n, y) refl)
    | inr m ↦
        three (c / 4096) (c / 64 % 64) (c % 64) (ground arith) (omega arith) (omega arith)
          (omega arith) (utf8_encode-three c (ground arith) fits) (rw (n, m) refl)
  ]
]

tail_done :
    (c d n : ℕ) (r : List ℕ)
    → c < 2 ^ 16
    → c ≡ d
    → ◌≡◌ {A = ℕ × ℕ} (u16 (decode_tail 0 d r), n) (c, n)
unfolding decode_tail
tail_done c d n r h e = ap (λ t. (t, n)) (omega arith)

decode-Shape :
    (c : ℕ) (bytes r : List ℕ)
    → c < 2 ^ 16
    → Shape c bytes
    → utf8_decode (bytes ++ r) ≡ (c, utf8_encode_length c)
unfolding utf8_decode
decode-Shape c bytes r fits (Shape.one i h e b len) =
    rw (b, len, data_one i h, masked_one i h) (tail_done c (1 + i) 1 r fits e)
decode-Shape c bytes r fits (Shape.two q i hq hi e b len) =
    rw (b, len, data_two q hq, masked_two q hq)
      (ap (λ t. (u16 t, 2)) (tail_step 0 q i r (omega arith) hi)
        ∙ tail_done c (q * 64 + i) 2 r fits e)
decode-Shape c bytes r fits (Shape.three q j i hq hj hi e b len) =
    rw (b, len, data_three q hq, masked_three q hq)
      (ap (λ t. (u16 t, 3)) (tail_step 1 q j ((128 + i) ∷ r) (omega arith) hj)
        ∙ ap (λ t. (u16 t, 3)) (tail_step 0 (q * 64 + j) i r (omega arith) hi)
        ∙ tail_done c ((q * 64 + j) * 64 + i) 3 r fits e)

-- Decoding gives back an encoded code unit other than zero, and the length of its encoding, whatever stands
-- behind it.
pub utf8_decode-encode :
    (c : ℕ) (r : List ℕ)
    → 0 < c
    → c < 2 ^ 16
    → utf8_decode (utf8_encode c ++ r) ≡ (c, utf8_encode_length c)
utf8_decode-encode c r pos fits = decode-Shape c (utf8_encode c) r fits (shape c pos fits)

pub length-Shape : (c : ℕ) (bytes : List ℕ) → Shape c bytes → length bytes ≡ utf8_encode_length c
length-Shape c bytes (Shape.one i h e b len) = rw (b, len) refl
length-Shape c bytes (Shape.two q i hq hi e b len) = rw (b, len) refl
length-Shape c bytes (Shape.three q j i hq hj hi e b len) = rw (b, len) refl

nonzero : (b : ℕ) → 0 < b → (b == 0) ≡ false
nonzero b h = ground arith

pub valid-Shape :
    (c : ℕ) (bytes r : List ℕ) → Shape c bytes → valid_from 0 (bytes ++ r) ≡ valid_from 0 r
unfolding valid_from
valid-Shape c bytes r (Shape.one i h e b len) =
    rw (b, valid_from, valid_one i h, nonzero (1 + i) (omega arith)) refl
valid-Shape c bytes r (Shape.two q i hq hi e b len) =
    rw (b, valid_from, valid_two q hq, nonzero (192 + q) (omega arith)) (valid_step 0 i r hi)
valid-Shape c bytes r (Shape.three q j i hq hj hi e b len) =
    rw (b, valid_from, valid_three q hq, nonzero (224 + q) (omega arith))
      (valid_step 1 j ((128 + i) ∷ r) hj ∙ valid_step 0 i r hi)

pub units-Shape :
    (c : ℕ) (bytes r : List ℕ) → Shape c bytes → units_from 0 (bytes ++ r) ≡ suc (units_from 0 r)
unfolding units_from
units-Shape c bytes r (Shape.one i h e b len) =
    rw (b, units_from, data_one i h, nonzero (1 + i) (omega arith)) refl
units-Shape c bytes r (Shape.two q i hq hi e b len) =
    rw (b, units_from, data_two q hq, nonzero (192 + q) (omega arith)) refl
units-Shape c bytes r (Shape.three q j i hq hj hi e b len) =
    rw (b, units_from, data_three q hq, nonzero (224 + q) (omega arith)) refl
