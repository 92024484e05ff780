-- ===== src/Coding/Base16.antt =====
-- base16 of common/string/SPBase64.cc: the hexadecimal tables, encoders and decoders.
-- The tables hold a two-character text for each byte; here they are one text, read two at a time.
mod Tables
pub mod RoundTrip
pub mod Buffers
mod Runs
use libstappler_common.Common.{
  ℕ, ◌+◌, ◌*◌, ◌/◌, ◌%◌, ◌^◌, Bool, List, [], ◌∷◌, ◌++◌, Option, none, some, bit_or, if◌then◌else◌,
  leb, u8, u64, ◌<<<◌, get_or, codes, length,
}
use mathlib.Core.Option

abbrev pub hex_lower : List ℕ
hex_lower =
    codes "000102030405060708090a0b0c0d0e0f101112131415161718191a1b1c1d1e1f"
    ++ codes "202122232425262728292a2b2c2d2e2f303132333435363738393a3b3c3d3e3f"
    ++ codes "404142434445464748494a4b4c4d4e4f505152535455565758595a5b5c5d5e5f"
    ++ codes "606162636465666768696a6b6c6d6e6f707172737475767778797a7b7c7d7e7f"
    ++ codes "808182838485868788898a8b8c8d8e8f909192939495969798999a9b9c9d9e9f"
    ++ codes "a0a1a2a3a4a5a6a7a8a9aaabacadaeafb0b1b2b3b4b5b6b7b8b9babbbcbdbebf"
    ++ codes "c0c1c2c3c4c5c6c7c8c9cacbcccdcecfd0d1d2d3d4d5d6d7d8d9dadbdcdddedf"
    ++ codes "e0e1e2e3e4e5e6e7e8e9eaebecedeeeff0f1f2f3f4f5f6f7f8f9fafbfcfdfeff"

abbrev pub hex_upper : List ℕ
hex_upper =
    codes "000102030405060708090A0B0C0D0E0F101112131415161718191A1B1C1D1E1F"
    ++ codes "202122232425262728292A2B2C2D2E2F303132333435363738393A3B3C3D3E3F"
    ++ codes "404142434445464748494A4B4C4D4E4F505152535455565758595A5B5C5D5E5F"
    ++ codes "606162636465666768696A6B6C6D6E6F707172737475767778797A7B7C7D7E7F"
    ++ codes "808182838485868788898A8B8C8D8E8F909192939495969798999A9B9C9D9E9F"
    ++ codes "A0A1A2A3A4A5A6A7A8A9AAABACADAEAFB0B1B2B3B4B5B6B7B8B9BABBBCBDBEBF"
    ++ codes "C0C1C2C3C4C5C6C7C8C9CACBCCCDCECFD0D1D2D3D4D5D6D7D8D9DADBDCDDDEDF"
    ++ codes "E0E1E2E3E4E5E6E7E8E9EAEBECEDEEEFF0F1F2F3F4F5F6F7F8F9FAFBFCFDFEFF"

abbrev dec_table : List ℕ
dec_table =
    0 ∷ 0 ∷ 0 ∷ 0 ∷ 0 ∷ 0 ∷ 0 ∷ 0 ∷ 0 ∷ 0 ∷ 0 ∷ 0 ∷ 0 ∷ 0 ∷ 0 ∷ 0 ∷ 0 ∷ 0 ∷ 0 ∷ 0 ∷ 0 ∷ 0 ∷ 0 ∷ 0
    ∷ 0 ∷ 0 ∷ 0 ∷ 0 ∷ 0 ∷ 0 ∷ 0 ∷ 0 ∷ 0 ∷ 0 ∷ 0 ∷ 0 ∷ 0 ∷ 0 ∷ 0 ∷ 0 ∷ 0 ∷ 0 ∷ 0 ∷ 0 ∷ 0 ∷ 0 ∷ 0 ∷ 0
    ∷ 0 ∷ 1 ∷ 2 ∷ 3 ∷ 4 ∷ 5 ∷ 6 ∷ 7 ∷ 8 ∷ 9 ∷ 0 ∷ 0 ∷ 0 ∷ 0 ∷ 0 ∷ 0 ∷ 0 ∷ 10 ∷ 11 ∷ 12 ∷ 13 ∷ 14
    ∷ 15 ∷ 0 ∷ 0 ∷ 0 ∷ 0 ∷ 0 ∷ 0 ∷ 0 ∷ 0 ∷ 0 ∷ 0 ∷ 0 ∷ 0 ∷ 0 ∷ 0 ∷ 0 ∷ 0 ∷ 0 ∷ 0 ∷ 0 ∷ 0 ∷ 0 ∷ 0 ∷ 0
    ∷ 0 ∷ 0 ∷ 0 ∷ 10 ∷ 11 ∷ 12 ∷ 13 ∷ 14 ∷ 15 ∷ 0 ∷ 0 ∷ 0 ∷ 0 ∷ 0 ∷ 0 ∷ 0 ∷ 0 ∷ 0 ∷ 0 ∷ 0 ∷ 0 ∷ 0
    ∷ 0 ∷ 0 ∷ 0 ∷ 0 ∷ 0 ∷ 0 ∷ 0 ∷ 0 ∷ 0 ∷ 0 ∷ 0 ∷ 0 ∷ 0 ∷ 0 ∷ 0 ∷ 0 ∷ 0 ∷ 0 ∷ 0 ∷ 0 ∷ 0 ∷ 0 ∷ 0 ∷ 0
    ∷ 0 ∷ 0 ∷ 0 ∷ 0 ∷ 0 ∷ 0 ∷ 0 ∷ 0 ∷ 0 ∷ 0 ∷ 0 ∷ 0 ∷ 0 ∷ 0 ∷ 0 ∷ 0 ∷ 0 ∷ 0 ∷ 0 ∷ 0 ∷ 0 ∷ 0 ∷ 0 ∷ 0
    ∷ 0 ∷ 0 ∷ 0 ∷ 0 ∷ 0 ∷ 0 ∷ 0 ∷ 0 ∷ 0 ∷ 0 ∷ 0 ∷ 0 ∷ 0 ∷ 0 ∷ 0 ∷ 0 ∷ 0 ∷ 0 ∷ 0 ∷ 0 ∷ 0 ∷ 0 ∷ 0 ∷ 0
    ∷ 0 ∷ 0 ∷ 0 ∷ 0 ∷ 0 ∷ 0 ∷ 0 ∷ 0 ∷ 0 ∷ 0 ∷ 0 ∷ 0 ∷ 0 ∷ 0 ∷ 0 ∷ 0 ∷ 0 ∷ 0 ∷ 0 ∷ 0 ∷ 0 ∷ 0 ∷ 0 ∷ 0
    ∷ 0 ∷ 0 ∷ 0 ∷ 0 ∷ 0 ∷ 0 ∷ 0 ∷ 0 ∷ 0 ∷ 0 ∷ 0 ∷ 0 ∷ 0 ∷ 0 ∷ 0 ∷ 0 ∷ 0 ∷ 0 ∷ 0 ∷ 0 ∷ 0 ∷ 0 ∷ 0 ∷ 0
    ∷ 0 ∷ 0 ∷ 0 ∷ 0 ∷ 0 ∷ 0 ∷ 0 ∷ 0 ∷ 0 ∷ 0 ∷ 0 ∷ 0 ∷ 0 ∷ 0 ∷ 0 ∷ 0 ∷ 0 ∷ 0 ∷ 0 ∷ 0 ∷ []

-- The entry for a byte.
pub entry : List ℕ → ℕ → List ℕ
entry table b = get_or table (2 * b) 0 ∷ get_or table (2 * b + 1) 0 ∷ []

-- `encodeSize` and `decodeSize`, in `size_t`.
pub encode_size : ℕ → ℕ
encode_size n = u64 (n * 2)

pub decode_size : ℕ → ℕ
decode_size n = n / 2

pub char_to_hex : ℕ → Bool → List ℕ
char_to_hex c upper = if upper then entry hex_upper c else entry hex_lower c

-- `hexToChar` of one digit and of two.
unfoldable pub hex_digit : ℕ → ℕ
hex_digit c = get_or dec_table c 0

unfoldable pub hex_to_char : ℕ → ℕ → ℕ
hex_to_char c d = u8 (bit_or (hex_digit c <<< 4) (hex_digit d))

-- `encode` into a string.
pub encode : List ℕ → List ℕ
encode [] = []
encode (b ∷ rest) = entry hex_lower b ++ encode rest

-- `encode` into a buffer of `room` bytes, of which `bytes` are taken: what is written, and how many
-- bytes that makes. The loop breaks at the first byte that does not fit.
encode_from : ℕ → ℕ → List ℕ → List ℕ × ℕ
encode_from room bytes [] = ([], bytes)
encode_from room bytes (b ∷ rest) =
    let (out, n) = encode_from room (bytes + 2) rest in
    if leb (bytes + 2) room then (entry hex_lower b ++ out, n) else ([], bytes)

pub encode_buffer : ℕ → List ℕ → List ℕ × ℕ
unfolding encode_from
encode_buffer room s = encode_from room 0 s

-- `decode` into a vector. `none` is a read of `source[length]`, behind the end of the source, which
-- an odd length leads to.
pub decode : List ℕ → Option (List ℕ)
decode [] = some []
decode (c ∷ []) = none
decode (c ∷ d ∷ rest) =
    Option.map (λ out. u8 (bit_or (hex_digit c <<< 4) (hex_digit d)) ∷ out) (decode rest)

-- `decode` into a buffer of `room` bytes; the digits behind a full buffer are not read.
decode_from : ℕ → ℕ → List ℕ → Option (List ℕ × ℕ)
decode_from room bytes [] = some ([], bytes)
decode_from room bytes (c ∷ []) = if leb (bytes + 1) room then none else some ([], bytes)
decode_from room bytes (c ∷ d ∷ rest) =
    let more = decode_from room (bytes + 1) rest in
    if leb (bytes + 1) room
    then Option.map (λ r. (u8 (bit_or (hex_digit c <<< 4) (hex_digit d)) ∷ r.0, r.1)) more
    else some ([], bytes)

pub decode_buffer : ℕ → List ℕ → Option (List ℕ × ℕ)
unfolding decode_from
decode_buffer room s = decode_from room 0 s
