-- ===== src/Text/Unicode/Tables.antt =====
-- The tables of common/string/SPUnicode.h and SPUnicode.cc.
use libstappler_common.Common.{ℕ, List, [], ◌∷◌}

unfoldable pub utf8_length_data : List ℕ
utf8_length_data =
    0 ∷ 1 ∷ 1 ∷ 1 ∷ 1 ∷ 1 ∷ 1 ∷ 1 ∷ 1 ∷ 1 ∷ 1 ∷ 1 ∷ 1 ∷ 1 ∷ 1 ∷ 1 ∷ 1 ∷ 1 ∷ 1 ∷ 1 ∷ 1 ∷ 1 ∷ 1 ∷ 1
    ∷ 1 ∷ 1 ∷ 1 ∷ 1 ∷ 1 ∷ 1 ∷ 1 ∷ 1 ∷ 1 ∷ 1 ∷ 1 ∷ 1 ∷ 1 ∷ 1 ∷ 1 ∷ 1 ∷ 1 ∷ 1 ∷ 1 ∷ 1 ∷ 1 ∷ 1 ∷ 1 ∷ 1
    ∷ 1 ∷ 1 ∷ 1 ∷ 1 ∷ 1 ∷ 1 ∷ 1 ∷ 1 ∷ 1 ∷ 1 ∷ 1 ∷ 1 ∷ 1 ∷ 1 ∷ 1 ∷ 1 ∷ 1 ∷ 1 ∷ 1 ∷ 1 ∷ 1 ∷ 1 ∷ 1 ∷ 1
    ∷ 1 ∷ 1 ∷ 1 ∷ 1 ∷ 1 ∷ 1 ∷ 1 ∷ 1 ∷ 1 ∷ 1 ∷ 1 ∷ 1 ∷ 1 ∷ 1 ∷ 1 ∷ 1 ∷ 1 ∷ 1 ∷ 1 ∷ 1 ∷ 1 ∷ 1 ∷ 1 ∷ 1
    ∷ 1 ∷ 1 ∷ 1 ∷ 1 ∷ 1 ∷ 1 ∷ 1 ∷ 1 ∷ 1 ∷ 1 ∷ 1 ∷ 1 ∷ 1 ∷ 1 ∷ 1 ∷ 1 ∷ 1 ∷ 1 ∷ 1 ∷ 1 ∷ 1 ∷ 1 ∷ 1 ∷ 1
    ∷ 1 ∷ 1 ∷ 1 ∷ 1 ∷ 1 ∷ 1 ∷ 1 ∷ 1 ∷ 1 ∷ 1 ∷ 1 ∷ 1 ∷ 1 ∷ 1 ∷ 1 ∷ 1 ∷ 1 ∷ 1 ∷ 1 ∷ 1 ∷ 1 ∷ 1 ∷ 1 ∷ 1
    ∷ 1 ∷ 1 ∷ 1 ∷ 1 ∷ 1 ∷ 1 ∷ 1 ∷ 1 ∷ 1 ∷ 1 ∷ 1 ∷ 1 ∷ 1 ∷ 1 ∷ 1 ∷ 1 ∷ 1 ∷ 1 ∷ 1 ∷ 1 ∷ 1 ∷ 1 ∷ 1 ∷ 1
    ∷ 1 ∷ 1 ∷ 1 ∷ 1 ∷ 1 ∷ 1 ∷ 1 ∷ 1 ∷ 1 ∷ 1 ∷ 1 ∷ 1 ∷ 1 ∷ 1 ∷ 1 ∷ 1 ∷ 1 ∷ 1 ∷ 1 ∷ 1 ∷ 1 ∷ 1 ∷ 1 ∷ 1
    ∷ 2 ∷ 2 ∷ 2 ∷ 2 ∷ 2 ∷ 2 ∷ 2 ∷ 2 ∷ 2 ∷ 2 ∷ 2 ∷ 2 ∷ 2 ∷ 2 ∷ 2 ∷ 2 ∷ 2 ∷ 2 ∷ 2 ∷ 2 ∷ 2 ∷ 2 ∷ 2 ∷ 2
    ∷ 2 ∷ 2 ∷ 2 ∷ 2 ∷ 2 ∷ 2 ∷ 2 ∷ 2 ∷ 3 ∷ 3 ∷ 3 ∷ 3 ∷ 3 ∷ 3 ∷ 3 ∷ 3 ∷ 3 ∷ 3 ∷ 3 ∷ 3 ∷ 3 ∷ 3 ∷ 3 ∷ 3
    ∷ 4 ∷ 4 ∷ 4 ∷ 4 ∷ 4 ∷ 4 ∷ 4 ∷ 4 ∷ 5 ∷ 5 ∷ 5 ∷ 5 ∷ 6 ∷ 6 ∷ 1 ∷ 1 ∷ []

unfoldable pub utf8_length_mask : List ℕ
utf8_length_mask =
    0x00 ∷ 0x7f ∷ 0x7f ∷ 0x7f ∷ 0x7f ∷ 0x7f ∷ 0x7f ∷ 0x7f ∷ 0x7f ∷ 0x7f ∷ 0x7f ∷ 0x7f ∷ 0x7f ∷ 0x7f
    ∷ 0x7f ∷ 0x7f ∷ 0x7f ∷ 0x7f ∷ 0x7f ∷ 0x7f ∷ 0x7f ∷ 0x7f ∷ 0x7f ∷ 0x7f ∷ 0x7f ∷ 0x7f ∷ 0x7f
    ∷ 0x7f ∷ 0x7f ∷ 0x7f ∷ 0x7f ∷ 0x7f ∷ 0x7f ∷ 0x7f ∷ 0x7f ∷ 0x7f ∷ 0x7f ∷ 0x7f ∷ 0x7f ∷ 0x7f
    ∷ 0x7f ∷ 0x7f ∷ 0x7f ∷ 0x7f ∷ 0x7f ∷ 0x7f ∷ 0x7f ∷ 0x7f ∷ 0x7f ∷ 0x7f ∷ 0x7f ∷ 0x7f ∷ 0x7f
    ∷ 0x7f ∷ 0x7f ∷ 0x7f ∷ 0x7f ∷ 0x7f ∷ 0x7f ∷ 0x7f ∷ 0x7f ∷ 0x7f ∷ 0x7f ∷ 0x7f ∷ 0x7f ∷ 0x7f
    ∷ 0x7f ∷ 0x7f ∷ 0x7f ∷ 0x7f ∷ 0x7f ∷ 0x7f ∷ 0x7f ∷ 0x7f ∷ 0x7f ∷ 0x7f ∷ 0x7f ∷ 0x7f ∷ 0x7f
    ∷ 0x7f ∷ 0x7f ∷ 0x7f ∷ 0x7f ∷ 0x7f ∷ 0x7f ∷ 0x7f ∷ 0x7f ∷ 0x7f ∷ 0x7f ∷ 0x7f ∷ 0x7f ∷ 0x7f
    ∷ 0x7f ∷ 0x7f ∷ 0x7f ∷ 0x7f ∷ 0x7f ∷ 0x7f ∷ 0x7f ∷ 0x7f ∷ 0x7f ∷ 0x7f ∷ 0x7f ∷ 0x7f ∷ 0x7f
    ∷ 0x7f ∷ 0x7f ∷ 0x7f ∷ 0x7f ∷ 0x7f ∷ 0x7f ∷ 0x7f ∷ 0x7f ∷ 0x7f ∷ 0x7f ∷ 0x7f ∷ 0x7f ∷ 0x7f
    ∷ 0x7f ∷ 0x7f ∷ 0x7f ∷ 0x7f ∷ 0x7f ∷ 0x7f ∷ 0x7f ∷ 0x7f ∷ 0x7f ∷ 0x7f ∷ 0x7f ∷ 0x7f ∷ 0x7f
    ∷ 0x7f ∷ 0x7f ∷ 0x7f ∷ 0x7f ∷ 0x7f ∷ 0x7f ∷ 0x7f ∷ 0x7f ∷ 0x7f ∷ 0x7f ∷ 0x7f ∷ 0x7f ∷ 0x7f
    ∷ 0x7f ∷ 0x7f ∷ 0x7f ∷ 0x7f ∷ 0x7f ∷ 0x7f ∷ 0x7f ∷ 0x7f ∷ 0x7f ∷ 0x7f ∷ 0x7f ∷ 0x7f ∷ 0x7f
    ∷ 0x7f ∷ 0x7f ∷ 0x7f ∷ 0x7f ∷ 0x7f ∷ 0x7f ∷ 0x7f ∷ 0x7f ∷ 0x7f ∷ 0x7f ∷ 0x7f ∷ 0x7f ∷ 0x7f
    ∷ 0x7f ∷ 0x7f ∷ 0x7f ∷ 0x7f ∷ 0x7f ∷ 0x7f ∷ 0x7f ∷ 0x7f ∷ 0x7f ∷ 0x7f ∷ 0x7f ∷ 0x7f ∷ 0x7f
    ∷ 0x7f ∷ 0x7f ∷ 0x7f ∷ 0x7f ∷ 0x7f ∷ 0x7f ∷ 0x7f ∷ 0x7f ∷ 0x7f ∷ 0x1f ∷ 0x1f ∷ 0x1f ∷ 0x1f
    ∷ 0x1f ∷ 0x1f ∷ 0x1f ∷ 0x1f ∷ 0x1f ∷ 0x1f ∷ 0x1f ∷ 0x1f ∷ 0x1f ∷ 0x1f ∷ 0x1f ∷ 0x1f ∷ 0x1f
    ∷ 0x1f ∷ 0x1f ∷ 0x1f ∷ 0x1f ∷ 0x1f ∷ 0x1f ∷ 0x1f ∷ 0x1f ∷ 0x1f ∷ 0x1f ∷ 0x1f ∷ 0x1f ∷ 0x1f
    ∷ 0x1f ∷ 0x1f ∷ 0x0f ∷ 0x0f ∷ 0x0f ∷ 0x0f ∷ 0x0f ∷ 0x0f ∷ 0x0f ∷ 0x0f ∷ 0x0f ∷ 0x0f ∷ 0x0f
    ∷ 0x0f ∷ 0x0f ∷ 0x0f ∷ 0x0f ∷ 0x0f ∷ 0x07 ∷ 0x07 ∷ 0x07 ∷ 0x07 ∷ 0x07 ∷ 0x07 ∷ 0x07 ∷ 0x07
    ∷ 0x03 ∷ 0x03 ∷ 0x03 ∷ 0x03 ∷ 0x01 ∷ 0x01 ∷ 0x7f ∷ 0x7f ∷ []

unfoldable pub utf8_valid_data : List ℕ
utf8_valid_data =
    0 ∷ 1 ∷ 1 ∷ 1 ∷ 1 ∷ 1 ∷ 1 ∷ 1 ∷ 1 ∷ 1 ∷ 1 ∷ 1 ∷ 1 ∷ 1 ∷ 1 ∷ 1 ∷ 1 ∷ 1 ∷ 1 ∷ 1 ∷ 1 ∷ 1 ∷ 1 ∷ 1
    ∷ 1 ∷ 1 ∷ 1 ∷ 1 ∷ 1 ∷ 1 ∷ 1 ∷ 1 ∷ 1 ∷ 1 ∷ 1 ∷ 1 ∷ 1 ∷ 1 ∷ 1 ∷ 1 ∷ 1 ∷ 1 ∷ 1 ∷ 1 ∷ 1 ∷ 1 ∷ 1 ∷ 1
    ∷ 1 ∷ 1 ∷ 1 ∷ 1 ∷ 1 ∷ 1 ∷ 1 ∷ 1 ∷ 1 ∷ 1 ∷ 1 ∷ 1 ∷ 1 ∷ 1 ∷ 1 ∷ 1 ∷ 1 ∷ 1 ∷ 1 ∷ 1 ∷ 1 ∷ 1 ∷ 1 ∷ 1
    ∷ 1 ∷ 1 ∷ 1 ∷ 1 ∷ 1 ∷ 1 ∷ 1 ∷ 1 ∷ 1 ∷ 1 ∷ 1 ∷ 1 ∷ 1 ∷ 1 ∷ 1 ∷ 1 ∷ 1 ∷ 1 ∷ 1 ∷ 1 ∷ 1 ∷ 1 ∷ 1 ∷ 1
    ∷ 1 ∷ 1 ∷ 1 ∷ 1 ∷ 1 ∷ 1 ∷ 1 ∷ 1 ∷ 1 ∷ 1 ∷ 1 ∷ 1 ∷ 1 ∷ 1 ∷ 1 ∷ 1 ∷ 1 ∷ 1 ∷ 1 ∷ 1 ∷ 1 ∷ 1 ∷ 1 ∷ 1
    ∷ 1 ∷ 1 ∷ 1 ∷ 1 ∷ 1 ∷ 1 ∷ 1 ∷ 1 ∷ 0 ∷ 0 ∷ 0 ∷ 0 ∷ 0 ∷ 0 ∷ 0 ∷ 0 ∷ 0 ∷ 0 ∷ 0 ∷ 0 ∷ 0 ∷ 0 ∷ 0 ∷ 0
    ∷ 0 ∷ 0 ∷ 0 ∷ 0 ∷ 0 ∷ 0 ∷ 0 ∷ 0 ∷ 0 ∷ 0 ∷ 0 ∷ 0 ∷ 0 ∷ 0 ∷ 0 ∷ 0 ∷ 0 ∷ 0 ∷ 0 ∷ 0 ∷ 0 ∷ 0 ∷ 0 ∷ 0
    ∷ 0 ∷ 0 ∷ 0 ∷ 0 ∷ 0 ∷ 0 ∷ 0 ∷ 0 ∷ 0 ∷ 0 ∷ 0 ∷ 0 ∷ 0 ∷ 0 ∷ 0 ∷ 0 ∷ 0 ∷ 0 ∷ 0 ∷ 0 ∷ 0 ∷ 0 ∷ 0 ∷ 0
    ∷ 2 ∷ 2 ∷ 2 ∷ 2 ∷ 2 ∷ 2 ∷ 2 ∷ 2 ∷ 2 ∷ 2 ∷ 2 ∷ 2 ∷ 2 ∷ 2 ∷ 2 ∷ 2 ∷ 2 ∷ 2 ∷ 2 ∷ 2 ∷ 2 ∷ 2 ∷ 2 ∷ 2
    ∷ 2 ∷ 2 ∷ 2 ∷ 2 ∷ 2 ∷ 2 ∷ 2 ∷ 2 ∷ 3 ∷ 3 ∷ 3 ∷ 3 ∷ 3 ∷ 3 ∷ 3 ∷ 3 ∷ 3 ∷ 3 ∷ 3 ∷ 3 ∷ 3 ∷ 3 ∷ 3 ∷ 3
    ∷ 4 ∷ 4 ∷ 4 ∷ 4 ∷ 4 ∷ 4 ∷ 4 ∷ 4 ∷ 5 ∷ 5 ∷ 5 ∷ 5 ∷ 6 ∷ 6 ∷ 0 ∷ 0 ∷ []

unfoldable pub koi8r_small : List ℕ
koi8r_small =
    0xE1 ∷ 0xE2 ∷ 0xF7 ∷ 0xE7 ∷ 0xE4 ∷ 0xE5 ∷ 0xF6 ∷ 0xFA ∷ 0xE9 ∷ 0xEA ∷ 0xEB ∷ 0xEC ∷ 0xED ∷ 0xEE
    ∷ 0xEF ∷ 0xF0 ∷ 0xF2 ∷ 0xF3 ∷ 0xF4 ∷ 0xF5 ∷ 0xE6 ∷ 0xE8 ∷ 0xE3 ∷ 0xFE ∷ 0xFB ∷ 0xFD ∷ 0xFF
    ∷ 0xF9 ∷ 0xF8 ∷ 0xFC ∷ 0xE0 ∷ 0xF1 ∷ 0xC1 ∷ 0xC2 ∷ 0xD7 ∷ 0xC7 ∷ 0xC4 ∷ 0xC5 ∷ 0xD6 ∷ 0xDA
    ∷ 0xC9 ∷ 0xCA ∷ 0xCB ∷ 0xCC ∷ 0xCD ∷ 0xCE ∷ 0xCF ∷ 0xD0 ∷ 0xD2 ∷ 0xD3 ∷ 0xD4 ∷ 0xD5 ∷ 0xC6
    ∷ 0xC8 ∷ 0xC3 ∷ 0xDE ∷ 0xDB ∷ 0xDD ∷ 0xDF ∷ 0xD9 ∷ 0xD8 ∷ 0xDC ∷ 0xC0 ∷ 0xD1 ∷ []

-- The switch of `charToKoi8r`: a code unit and its byte.
unfoldable pub koi8r_cases : List (ℕ × ℕ)
koi8r_cases =
    (0x2500, 0x80)
    ∷ (0x2502, 0x81)
    ∷ (0x250C, 0x82)
    ∷ (0x2510, 0x83)
    ∷ (0x2514, 0x84)
    ∷ (0x2518, 0x85)
    ∷ (0x251C, 0x86)
    ∷ (0x2524, 0x87)
    ∷ (0x252C, 0x88)
    ∷ (0x2534, 0x89)
    ∷ (0x253C, 0x8A)
    ∷ (0x2580, 0x8B)
    ∷ (0x2584, 0x8C)
    ∷ (0x2588, 0x8D)
    ∷ (0x258C, 0x8E)
    ∷ (0x2590, 0x8F)
    ∷ (0x2591, 0x90)
    ∷ (0x2592, 0x91)
    ∷ (0x2593, 0x92)
    ∷ (0x2320, 0x93)
    ∷ (0x25A0, 0x94)
    ∷ (0x2219, 0x95)
    ∷ (0x221A, 0x96)
    ∷ (0x2248, 0x97)
    ∷ (0x2264, 0x98)
    ∷ (0x2265, 0x99)
    ∷ (0x00A0, 0x9A)
    ∷ (0x2321, 0x9B)
    ∷ (0x00B0, 0x9C)
    ∷ (0x00B2, 0x9D)
    ∷ (0x00B7, 0x9E)
    ∷ (0x00F7, 0x9F)
    ∷ (0x2550, 0xA0)
    ∷ (0x2551, 0xA1)
    ∷ (0x2552, 0xA2)
    ∷ (0x0451, 0xA3)
    ∷ (0x2553, 0xA4)
    ∷ (0x2554, 0xA5)
    ∷ (0x2555, 0xA6)
    ∷ (0x2556, 0xA7)
    ∷ (0x2557, 0xA8)
    ∷ (0x2558, 0xA9)
    ∷ (0x2559, 0xAA)
    ∷ (0x255A, 0xAB)
    ∷ (0x255B, 0xAC)
    ∷ (0x255C, 0xAD)
    ∷ (0x255D, 0xAE)
    ∷ (0x255E, 0xAF)
    ∷ (0x255F, 0xB0)
    ∷ (0x2560, 0xB1)
    ∷ (0x2561, 0xB2)
    ∷ (0x0401, 0xB3)
    ∷ (0x2562, 0xB4)
    ∷ (0x2563, 0xB5)
    ∷ (0x2564, 0xB6)
    ∷ (0x2565, 0xB7)
    ∷ (0x2566, 0xB8)
    ∷ (0x2567, 0xB9)
    ∷ (0x2568, 0xBA)
    ∷ (0x2569, 0xBB)
    ∷ (0x256A, 0xBC)
    ∷ (0x256B, 0xBD)
    ∷ (0x256C, 0xBE)
    ∷ (0x00A9, 0xBF)
    ∷ []

-- `sp_uppercase_set_16` and `sp_lowercase_set_16`
unfoldable pub sp_uppercase_set : List ℕ
sp_uppercase_set =
    0x410 ∷ 0x411 ∷ 0x412 ∷ 0x413 ∷ 0x414 ∷ 0x415 ∷ 0x401 ∷ 0x416 ∷ 0x417 ∷ 0x418 ∷ 0x419 ∷ 0x41a
    ∷ 0x41b ∷ 0x41c ∷ 0x41d ∷ 0x41e ∷ 0x41f ∷ 0x420 ∷ 0x421 ∷ 0x422 ∷ 0x423 ∷ 0x424 ∷ 0x425 ∷ 0x426
    ∷ 0x427 ∷ 0x428 ∷ 0x429 ∷ 0x42a ∷ 0x42b ∷ 0x42c ∷ 0x42d ∷ 0x42e ∷ 0x42f ∷ []

unfoldable pub sp_lowercase_set : List ℕ
sp_lowercase_set =
    0x430 ∷ 0x431 ∷ 0x432 ∷ 0x433 ∷ 0x434 ∷ 0x435 ∷ 0x451 ∷ 0x436 ∷ 0x437 ∷ 0x438 ∷ 0x439 ∷ 0x43a
    ∷ 0x43b ∷ 0x43c ∷ 0x43d ∷ 0x43e ∷ 0x43f ∷ 0x440 ∷ 0x441 ∷ 0x442 ∷ 0x443 ∷ 0x444 ∷ 0x445 ∷ 0x446
    ∷ 0x447 ∷ 0x448 ∷ 0x449 ∷ 0x44a ∷ 0x44b ∷ 0x44c ∷ 0x44d ∷ 0x44e ∷ 0x44f ∷ []
