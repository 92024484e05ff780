-- ===== src/Text/Unicode.antt =====
-- UTF-8 and UCS-2 of common/string/SPUnicode.h and SPUnicode.cc. A `const char *` is the list of the bytes up
-- to the terminating zero, which a read at the end of the list gives; a `char16_t` is a number below 2 ^ 16.
pub mod Tables
pub mod Codec
pub mod Measures
pub mod Letters
mod Runs
use libstappler_common.Common.{
  ℕ, zero, suc, ◌+◌, ◌-◌, ◌%◌, ◌^◌, Bool, true, false, ◌&&◌, not, List, [], ◌∷◌, ◌++◌, bit_and,
  bit_or, leb, ltb, ◌==◌, ◌<<<◌, ◌>>>◌, if◌then◌else◌, get_or, drop, u8, u16, u32,
}
use libstappler_common.Text.Unicode.Tables.{
  utf8_length_data, utf8_length_mask, utf8_valid_data, koi8r_small, koi8r_cases, sp_uppercase_set,
  sp_lowercase_set,
}

unfoldable pub data_at : ℕ → ℕ
unfolding utf8_length_data
data_at b = get_or utf8_length_data b 0

unfoldable pub mask_at : ℕ → ℕ
unfolding utf8_length_mask
mask_at b = get_or utf8_length_mask b 0

unfoldable pub valid_at : ℕ → ℕ
unfolding utf8_valid_data
valid_at b = get_or utf8_valid_data b 0

-- `isUtf8Surrogate`, the test of a byte that continues a symbol.
unfoldable pub is_utf8_surrogate : ℕ → Bool
is_utf8_surrogate c = bit_and c 0xc0 == 0x80

-- The loop of `utf8Decode`, with `n` bytes to come.
unfoldable pub decode_tail : ℕ → ℕ → List ℕ → ℕ
decode_tail zero ret r = ret
decode_tail (suc n) ret [] = 0
decode_tail (suc n) ret (b ∷ r) =
    let rest = decode_tail n (u32 (bit_or (u32 (ret <<< 6)) (bit_and b 0x3f))) r in
    if is_utf8_surrogate b then rest else 0

-- `utf8Decode` with its offset, which `string::read` repeats.
unfoldable pub utf8_decode : List ℕ → ℕ × ℕ
unfolding mask_at data_at
utf8_decode [] = (bit_and 0 (mask_at 0), data_at 0)
utf8_decode (b ∷ r) = (u16 (decode_tail (data_at b - 1) (bit_and b (mask_at b)) r), data_at b)

-- `string::utf8Decode`, which steps the pointer.
unfoldable pub utf8_next : List ℕ → ℕ × List ℕ
utf8_next r = let (ret, len) = utf8_decode r in (if ltb 3 len then 0x20 else ret, drop len r)

unfoldable pub utf8_encode_length : ℕ → ℕ
utf8_encode_length c = if ltb c 0x80 then 1 else if ltb c 0x800 then 2 else 3

-- What `utf8EncodeBuf` and the three `utf8Encode` write.
unfoldable pub utf8_encode : ℕ → List ℕ
utf8_encode c =
    if ltb c 0x80
    then u8 c ∷ []
    else if ltb c 0x800
    then u8 (bit_or 0xc0 (c >>> 6)) ∷ u8 (bit_or 0x80 (bit_and c 0x3f)) ∷ []
    else u8 (bit_or 0xe0 (c >>> 12))
      ∷ u8 (bit_or 0x80 (bit_and (c >>> 6) 0x3f))
      ∷ u8 (bit_or 0x80 (bit_and c 0x3f))
      ∷ []

-- The loop of `isValidUtf8`, with `n` bytes of a symbol to come.
unfoldable pub valid_from : ℕ → List ℕ → Bool
unfolding valid_at
valid_from zero [] = true
valid_from zero (b ∷ r) =
    let rest = valid_from (valid_at b - 1) r in
    if b == 0 then true else if valid_at b == 0 then false else rest
valid_from (suc n) [] = false
valid_from (suc n) (b ∷ r) =
    let rest = valid_from n r in if is_utf8_surrogate b then rest else false

unfoldable pub is_valid_utf8 : List ℕ → Bool
is_valid_utf8 r = valid_from 0 r

-- The loop of `getUtf16Length`, with `n` bytes of a symbol to pass.
unfoldable pub units_from : ℕ → List ℕ → ℕ
unfolding data_at
units_from n [] = 0
units_from zero (b ∷ r) = let rest = units_from (data_at b - 1) r in if b == 0 then 0 else suc rest
units_from (suc n) (b ∷ r) = units_from n r

unfoldable pub get_utf16_length : List ℕ → ℕ
get_utf16_length r = units_from 0 r

unfoldable pub get_utf8_length : List ℕ → ℕ
get_utf8_length [] = 0
get_utf8_length (c ∷ r) = utf8_encode_length c + get_utf8_length r

-- The loops of `toupper` and `tolower`: the letter of `to` that stands where `c` stands in `from`.
unfoldable pub letter : List ℕ → List ℕ → ℕ → ℕ
letter [] to c = c
letter (x ∷ from) [] c = c
letter (x ∷ from) (y ∷ to) c = let rest = letter from to c in if x == c then y else rest

-- `ascii` is the C library's function for a character below 128.
unfoldable pub toupper : (ℕ → ℕ) → ℕ → ℕ
unfolding sp_lowercase_set sp_uppercase_set
toupper ascii c = if ltb c 128 then u16 (ascii c) else letter sp_lowercase_set sp_uppercase_set c

unfoldable pub tolower : (ℕ → ℕ) → ℕ → ℕ
unfolding sp_lowercase_set sp_uppercase_set
tolower ascii c = if ltb c 128 then u16 (ascii c) else letter sp_uppercase_set sp_lowercase_set c

unfoldable pub case_of : List (ℕ × ℕ) → ℕ → ℕ
case_of [] c = 0x20
case_of ((k, v) ∷ cases) c = let rest = case_of cases c in if c == k then v else rest

-- `charToKoi8r`: U+0430 and U+0410 are the Cyrillic letters of its tests, and 0x41 is the Latin letter
-- that it subtracts from a capital.
unfoldable pub char_to_koi8r : ℕ → ℕ
unfolding koi8r_small koi8r_cases
char_to_koi8r c =
    if leb c 0x7f
    then bit_and c 0xff
    else if leb 0x430 c && leb c 0x44f
    then get_or koi8r_small (c - 0x430 + 32) 0
    else if leb 0x410 c && leb c 0x42f
    then get_or koi8r_small ((c - 0x41) % 64) 0
    else case_of koi8r_cases c
