-- ===== src/Coding/Base64.antt =====
-- base64 and base64url of common/string/SPBase64.cc: sizes, encoders and the shared decoder.
-- A buffer is a list of bytes, and a callback is the list of the characters that it was given.
mod Bits
pub mod RoundTrip
pub mod Shape
pub mod Noise
mod Runs
use libstappler_common.Common.{
  ℕ, ◌+◌, ◌-◌, ◌*◌, ◌/◌, ◌%◌, ◌^◌, List, [], ◌∷◌, ◌++◌, bit_and, bit_or, ◌==◌, if◌then◌else◌, u8,
  u64, ◌<<<◌, ◌>>>◌, get_or, codes,
}

-- `base64::base64EncodeLookup`
abbrev pub encode_lookup : List ℕ
encode_lookup = codes "ABCDEFGHIJKLMNOPQRSTUVWXYZabcdefghijklmnopqrstuvwxyz0123456789+/"

-- `base64url::base64EncodeLookup`
abbrev pub url_lookup : List ℕ
url_lookup = codes "ABCDEFGHIJKLMNOPQRSTUVWXYZabcdefghijklmnopqrstuvwxyz0123456789-_"

-- The entry of `base64DecodeLookup` for a character that is no digit.
abbrev pub xx : ℕ
xx = 65

abbrev pub decode_lookup : List ℕ
decode_lookup =
    65 ∷ 65 ∷ 65 ∷ 65 ∷ 65 ∷ 65 ∷ 65 ∷ 65 ∷ 65 ∷ 65 ∷ 65 ∷ 65 ∷ 65 ∷ 65 ∷ 65 ∷ 65 ∷ 65 ∷ 65 ∷ 65
    ∷ 65 ∷ 65 ∷ 65 ∷ 65 ∷ 65 ∷ 65 ∷ 65 ∷ 65 ∷ 65 ∷ 65 ∷ 65 ∷ 65 ∷ 65 ∷ 65 ∷ 65 ∷ 65 ∷ 65 ∷ 65 ∷ 65
    ∷ 65 ∷ 65 ∷ 65 ∷ 65 ∷ 65 ∷ 62 ∷ 65 ∷ 62 ∷ 65 ∷ 63 ∷ 52 ∷ 53 ∷ 54 ∷ 55 ∷ 56 ∷ 57 ∷ 58 ∷ 59 ∷ 60
    ∷ 61 ∷ 65 ∷ 65 ∷ 65 ∷ 65 ∷ 65 ∷ 65 ∷ 65 ∷ 0 ∷ 1 ∷ 2 ∷ 3 ∷ 4 ∷ 5 ∷ 6 ∷ 7 ∷ 8 ∷ 9 ∷ 10 ∷ 11 ∷ 12
    ∷ 13 ∷ 14 ∷ 15 ∷ 16 ∷ 17 ∷ 18 ∷ 19 ∷ 20 ∷ 21 ∷ 22 ∷ 23 ∷ 24 ∷ 25 ∷ 65 ∷ 65 ∷ 65 ∷ 65 ∷ 63 ∷ 65
    ∷ 26 ∷ 27 ∷ 28 ∷ 29 ∷ 30 ∷ 31 ∷ 32 ∷ 33 ∷ 34 ∷ 35 ∷ 36 ∷ 37 ∷ 38 ∷ 39 ∷ 40 ∷ 41 ∷ 42 ∷ 43 ∷ 44
    ∷ 45 ∷ 46 ∷ 47 ∷ 48 ∷ 49 ∷ 50 ∷ 51 ∷ 65 ∷ 65 ∷ 65 ∷ 65 ∷ 65 ∷ 65 ∷ 65 ∷ 65 ∷ 65 ∷ 65 ∷ 65 ∷ 65
    ∷ 65 ∷ 65 ∷ 65 ∷ 65 ∷ 65 ∷ 65 ∷ 65 ∷ 65 ∷ 65 ∷ 65 ∷ 65 ∷ 65 ∷ 65 ∷ 65 ∷ 65 ∷ 65 ∷ 65 ∷ 65 ∷ 65
    ∷ 65 ∷ 65 ∷ 65 ∷ 65 ∷ 65 ∷ 65 ∷ 65 ∷ 65 ∷ 65 ∷ 65 ∷ 65 ∷ 65 ∷ 65 ∷ 65 ∷ 65 ∷ 65 ∷ 65 ∷ 65 ∷ 65
    ∷ 65 ∷ 65 ∷ 65 ∷ 65 ∷ 65 ∷ 65 ∷ 65 ∷ 65 ∷ 65 ∷ 65 ∷ 65 ∷ 65 ∷ 65 ∷ 65 ∷ 65 ∷ 65 ∷ 65 ∷ 65 ∷ 65
    ∷ 65 ∷ 65 ∷ 65 ∷ 65 ∷ 65 ∷ 65 ∷ 65 ∷ 65 ∷ 65 ∷ 65 ∷ 65 ∷ 65 ∷ 65 ∷ 65 ∷ 65 ∷ 65 ∷ 65 ∷ 65 ∷ 65
    ∷ 65 ∷ 65 ∷ 65 ∷ 65 ∷ 65 ∷ 65 ∷ 65 ∷ 65 ∷ 65 ∷ 65 ∷ 65 ∷ 65 ∷ 65 ∷ 65 ∷ 65 ∷ 65 ∷ 65 ∷ 65 ∷ 65
    ∷ 65 ∷ 65 ∷ 65 ∷ 65 ∷ 65 ∷ 65 ∷ 65 ∷ 65 ∷ 65 ∷ 65 ∷ 65 ∷ 65 ∷ 65 ∷ 65 ∷ 65 ∷ 65 ∷ 65 ∷ 65 ∷ 65
    ∷ 65 ∷ 65 ∷ 65 ∷ 65 ∷ 65 ∷ 65 ∷ 65 ∷ []

-- An index of the 64-entry tables is below 64, so the default is never read.
pub digit : List ℕ → ℕ → ℕ
digit lookup i = get_or lookup i 0

pub value : ℕ → ℕ
value c = get_or decode_lookup c xx

-- `encodeSize` and `decodeSize`, in `size_t`.
pub encode_size : ℕ → ℕ
encode_size l = u64 ((l / 3 + (if l % 3 == 0 then 0 else 1)) * 4)

pub decode_size : ℕ → ℕ
decode_size l = u64 (u64 (l + 4 - 1) / 4 * 3)

-- The four indices that the loop body computes from its bytes.
pub high_six : ℕ → ℕ
high_six a = bit_and a 0xfc >>> 2

pub two_four : ℕ → ℕ → ℕ
two_four a b = bit_or (bit_and a 0x03 <<< 4) (bit_and b 0xf0 >>> 4)

pub four_two : ℕ → ℕ → ℕ
four_two b c = bit_or (bit_and b 0x0f <<< 2) (bit_and c 0xc0 >>> 6)

pub low_six : ℕ → ℕ
low_six c = bit_and c 0x3f

-- `base64::make_encode`
pub make_encode : List ℕ → List ℕ
make_encode [] = []
make_encode (a ∷ []) =
    digit encode_lookup (high_six a) ∷ digit encode_lookup (bit_and a 0x03 <<< 4) ∷ b'=' ∷ b'=' ∷ []
make_encode (a ∷ b ∷ []) =
    digit encode_lookup (high_six a)
    ∷ digit encode_lookup (two_four a b)
    ∷ digit encode_lookup (bit_and b 0x0f <<< 2)
    ∷ b'='
    ∷ []
make_encode (a ∷ b ∷ c ∷ rest) =
    digit encode_lookup (high_six a)
    ∷ digit encode_lookup (two_four a b)
    ∷ digit encode_lookup (four_two b c)
    ∷ digit encode_lookup (low_six c)
    ∷ make_encode rest

-- `base64url::make_encode`: another alphabet, and no padding.
pub url_encode : List ℕ → List ℕ
url_encode [] = []
url_encode (a ∷ []) = digit url_lookup (high_six a) ∷ digit url_lookup (bit_and a 0x03 <<< 4) ∷ []
url_encode (a ∷ b ∷ []) =
    digit url_lookup (high_six a)
    ∷ digit url_lookup (two_four a b)
    ∷ digit url_lookup (bit_and b 0x0f <<< 2)
    ∷ []
url_encode (a ∷ b ∷ c ∷ rest) =
    digit url_lookup (high_six a)
    ∷ digit url_lookup (two_four a b)
    ∷ digit url_lookup (four_two b c)
    ∷ digit url_lookup (low_six c)
    ∷ url_encode rest

-- What the three tests on `accumulateIndex` write from `accumulated`; `cb` takes a `uint8_t`.
pub emit : List ℕ → List ℕ
emit (a ∷ b ∷ []) = u8 (bit_or (a <<< 2) (b >>> 4)) ∷ []
emit (a ∷ b ∷ c ∷ []) = u8 (bit_or (a <<< 2) (b >>> 4)) ∷ u8 (bit_or (b <<< 4) (c >>> 2)) ∷ []
emit (a ∷ b ∷ c ∷ d ∷ rest) =
    u8 (bit_or (a <<< 2) (b >>> 4)) ∷ u8 (bit_or (b <<< 4) (c >>> 2)) ∷ u8 (bit_or (c <<< 6) d) ∷ []
emit _ = []

-- What follows a digit: the fourth one ends the inner loop.
push_digit : (List ℕ → List ℕ) → List ℕ → ℕ → List ℕ
push_digit next (a ∷ b ∷ c ∷ []) d = emit (a ∷ b ∷ c ∷ d ∷ []) ++ next []
push_digit next acc d = next (acc ++ d ∷ [])

-- The two nested loops of `make_decode` share the index `i`, so they are one recursion on the
-- input, with the digits that the inner loop has accumulated.
pub decode_from : List ℕ → List ℕ → List ℕ
decode_from [] acc = emit acc
decode_from (c ∷ rest) acc =
    if value c == xx then decode_from rest acc else push_digit (decode_from rest) acc (value c)

-- `base64::make_decode`, which base64url shares.
pub make_decode : List ℕ → List ℕ
make_decode s = decode_from s []
