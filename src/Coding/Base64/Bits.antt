-- ===== src/Coding/Base64/Bits.antt =====
-- The indices and bytes that the loops compute, as arithmetic.
use libstappler_common.Common.{
  ℕ, ◌+◌, ◌*◌, ◌/◌, ◌%◌, ◌<◌, ◌≡◌, refl, arith, [], ◌∷◌, bit_and, ◌>>>◌, IsByte,
}
use libstappler_common.Common.Bits.{or_field, and_mask}
use libstappler_common.Common.Tables.{all_below, table_eq}
use libstappler_common.Coding.Base64.{
  digit, value, encode_lookup, url_lookup, high_six, two_four, four_two, low_six, emit,
}

pub value-digit : (i : ℕ) → i < 64 → value (digit encode_lookup i) ≡ i
unfolding all_below value digit
value-digit = table_eq 64 (λ i. value (digit encode_lookup i)) (λ i. i) refl

pub value-url_digit : (i : ℕ) → i < 64 → value (digit url_lookup i) ≡ i
unfolding all_below value digit
value-url_digit = table_eq 64 (λ i. value (digit url_lookup i)) (λ i. i) refl

pub high_six-eq : (a : ℕ) → IsByte a → high_six a ≡ a / 4
unfolding all_below high_six
high_six-eq = table_eq 256 (λ a. bit_and a 0xfc >>> 2) (λ a. a / 4) refl

high_four : (b : ℕ) → IsByte b → bit_and b 0xf0 >>> 4 ≡ b / 16
unfolding all_below
high_four = table_eq 256 (λ b. bit_and b 0xf0 >>> 4) (λ b. b / 16) refl

high_two : (c : ℕ) → IsByte c → bit_and c 0xc0 >>> 6 ≡ c / 64
unfolding all_below
high_two = table_eq 256 (λ c. bit_and c 0xc0 >>> 6) (λ c. c / 64) refl

pub low_two-eq : (a : ℕ) → bit_and a 0x03 ≡ a % 4
low_two-eq a = and_mask 2 a

pub low_four-eq : (b : ℕ) → bit_and b 0x0f ≡ b % 16
low_four-eq b = and_mask 4 b

pub low_six-eq : (c : ℕ) → low_six c ≡ c % 64
unfolding low_six
low_six-eq c = and_mask 6 c

pub two_four-eq : (a b : ℕ) → IsByte b → two_four a b ≡ a % 4 * 16 + b / 16
unfolding two_four
two_four-eq a b h = ground (arith, low_two-eq a, high_four b h, or_field 4 (a % 4) (b / 16))

pub four_two-eq : (b c : ℕ) → IsByte c → four_two b c ≡ b % 16 * 4 + c / 64
unfolding four_two
four_two-eq b c h = ground (arith, low_four-eq b, high_two c h, or_field 2 (b % 16) (c / 64))

-- The bytes that two, three and four digits make.
pub emit_two : (a b : ℕ) → a < 64 → b < 64 → emit (a ∷ b ∷ []) ≡ (a * 4 + b / 16) ∷ []
unfolding emit
emit_two a b ha hb = ground (arith, or_field 2 a (b / 16))

pub emit_three :
    (a b c : ℕ)
    → a < 64
    → b < 64
    → c < 64
    → emit (a ∷ b ∷ c ∷ []) ≡ (a * 4 + b / 16) ∷ (b % 16 * 16 + c / 4) ∷ []
unfolding emit
emit_three a b c ha hb hc = ground (arith, or_field 2 a (b / 16), or_field 4 b (c / 4))

pub emit_four :
    (a b c d : ℕ)
    → a < 64
    → b < 64
    → c < 64
    → d < 64
    → emit (a ∷ b ∷ c ∷ d ∷ []) ≡ (a * 4 + b / 16) ∷ (b % 16 * 16 + c / 4) ∷ (c % 4 * 64 + d) ∷ []
unfolding emit
emit_four a b c d ha hb hc hd =
    ground (arith, or_field 2 a (b / 16), or_field 4 b (c / 4), or_field 6 c d)
