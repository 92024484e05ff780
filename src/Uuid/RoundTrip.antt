-- ===== src/Uuid/RoundTrip.antt =====
-- `parse` gives back what `format` wrote.
use libstappler_common.Common.{ℕ, ◌/◌, ◌%◌, ◌<◌, ◌≡◌, refl, arith, true, some, IsByte}
use libstappler_common.Common.Tables.{all_below, table_eq}
use libstappler_common.Coding.Base16.{hex_to_char, hex_digit}
use libstappler_common.Uuid.{
  Bytes16, hex_char, format, isxdigit, pair_digit, parse_hexpair, valid_from, parse,
}

isxdigit-hex_char : (n : ℕ) → n < 16 → isxdigit (hex_char n) ≡ true
unfolding isxdigit hex_char
isxdigit-hex_char n h = ground arith

high_digit : (b : ℕ) → IsByte b → isxdigit (hex_char (b / 16)) ≡ true
high_digit b h = isxdigit-hex_char (b / 16) (omega arith)

low_digit : (b : ℕ) → IsByte b → isxdigit (hex_char (b % 16)) ≡ true
low_digit b h = isxdigit-hex_char (b % 16) (omega arith)

hex_to_char-hex_chars : (b : ℕ) → IsByte b → hex_to_char (hex_char (b / 16)) (hex_char (b % 16)) ≡ b
unfolding hex_to_char hex_digit hex_char all_below
hex_to_char-hex_chars b h =
    table_eq 256 (λ b. hex_to_char (hex_char (b / 16)) (hex_char (b % 16))) (λ b. b) refl b h

parse_hexpair-hex_chars :
    (b : ℕ) → IsByte b → parse_hexpair (hex_char (b / 16)) (hex_char (b % 16)) ≡ b
unfolding parse_hexpair pair_digit hex_char all_below
parse_hexpair-hex_chars b h =
    table_eq 256 (λ b. parse_hexpair (hex_char (b / 16)) (hex_char (b % 16))) (λ b. b) refl b h

abbrev pub IsUuid : Bytes16 → Type 0
IsUuid d =
    IsByte d.d0
    × IsByte d.d1
    × IsByte d.d2
    × IsByte d.d3
    × IsByte d.d4
    × IsByte d.d5
    × IsByte d.d6
    × IsByte d.d7
    × IsByte d.d8
    × IsByte d.d9
    × IsByte d.d10
    × IsByte d.d11
    × IsByte d.d12
    × IsByte d.d13
    × IsByte d.d14
    × IsByte d.d15

-- The characters of a formatted UUID are digits, but for the four dashes.
valid_from-format : (d : Bytes16) → IsUuid d → valid_from 36 0 (format d) ≡ true
unfolding valid_from format
valid_from-format d (b0, b1, b2, b3, b4, b5, b6, b7, b8, b9, b10, b11, b12, b13, b14, b15) =
    rw
      (
        high_digit d.d0 b0,
        low_digit d.d0 b0,
        high_digit d.d1 b1,
        low_digit d.d1 b1,
        high_digit d.d2 b2,
        low_digit d.d2 b2,
        high_digit d.d3 b3,
        low_digit d.d3 b3,
        high_digit d.d4 b4,
        low_digit d.d4 b4,
        high_digit d.d5 b5,
        low_digit d.d5 b5,
        high_digit d.d6 b6,
        low_digit d.d6 b6,
        high_digit d.d7 b7,
        low_digit d.d7 b7,
        high_digit d.d8 b8,
        low_digit d.d8 b8,
        high_digit d.d9 b9,
        low_digit d.d9 b9,
        high_digit d.d10 b10,
        low_digit d.d10 b10,
        high_digit d.d11 b11,
        low_digit d.d11 b11,
        high_digit d.d12 b12,
        low_digit d.d12 b12,
        high_digit d.d13 b13,
        low_digit d.d13 b13,
        high_digit d.d14 b14,
        low_digit d.d14 b14,
        high_digit d.d15 b15,
        low_digit d.d15 b15,
      )
      refl

-- `parse` gives back the sixteen bytes that `format` wrote.
pub parse-format : (d : Bytes16) → IsUuid d → parse (format d) ≡ some d
unfolding parse format
parse-format d (b0, b1, b2, b3, b4, b5, b6, b7, b8, b9, b10, b11, b12, b13, b14, b15) =
    rw
      (
        valid_from-format d (b0, b1, b2, b3, b4, b5, b6, b7, b8, b9, b10, b11, b12, b13, b14, b15),
        hex_to_char-hex_chars d.d0 b0,
        hex_to_char-hex_chars d.d1 b1,
        hex_to_char-hex_chars d.d2 b2,
        hex_to_char-hex_chars d.d3 b3,
        hex_to_char-hex_chars d.d4 b4,
        hex_to_char-hex_chars d.d5 b5,
        hex_to_char-hex_chars d.d6 b6,
        hex_to_char-hex_chars d.d7 b7,
        hex_to_char-hex_chars d.d8 b8,
        hex_to_char-hex_chars d.d9 b9,
        parse_hexpair-hex_chars d.d10 b10,
        parse_hexpair-hex_chars d.d11 b11,
        parse_hexpair-hex_chars d.d12 b12,
        parse_hexpair-hex_chars d.d13 b13,
        parse_hexpair-hex_chars d.d14 b14,
        parse_hexpair-hex_chars d.d15 b15,
      )
      refl
