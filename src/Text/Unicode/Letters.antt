-- ===== src/Text/Unicode/Letters.antt =====
-- The Cyrillic letters: their case and their KOI8-R bytes.
use libstappler_common.Common.{ℕ, ◌+◌, ◌<◌, ◌≡◌, refl, arith, false, ◌==◌, get_or, not}
use libstappler_common.Common.Tables.{all_below, all_below_sound, table_eq}
use libstappler_common.Text.Unicode.Tables.{koi8r_small, sp_uppercase_set, sp_lowercase_set}
use libstappler_common.Text.Unicode.{toupper, tolower, letter, char_to_koi8r}

-- The capital and the small letter of the Russian alphabet's `i`-th place.
abbrev pub capital : ℕ → ℕ
capital i = get_or sp_uppercase_set i 0

abbrev pub small : ℕ → ℕ
small i = get_or sp_lowercase_set i 0

-- `toupper` and `tolower` of a code unit exchange the 33 capital and small letters of the Russian alphabet,
-- at the same place, and each keeps the letters that have its case, whatever the C library does with ASCII.
pub toupper-tolower :
    (ascii : ℕ → ℕ) (i : ℕ)
    → i < 33
    → (toupper ascii (small i) ≡ capital i)
      × (tolower ascii (capital i) ≡ small i)
      × (toupper ascii (capital i) ≡ capital i)
      × (tolower ascii (small i) ≡ small i)
unfolding all_below toupper tolower letter
toupper-tolower ascii i h = (
  table_eq 33 (λ i. toupper ascii (small i)) capital refl i h,
  table_eq 33 (λ i. tolower ascii (capital i)) small refl i h,
  table_eq 33 (λ i. toupper ascii (capital i)) capital refl i h,
  table_eq 33 (λ i. tolower ascii (small i)) small refl i h,
)

-- `charToKoi8r` gives each of the 32 small letters from U+0430 its own place in the second half of the
-- table, and none of the 32 capital letters from U+0410 the byte at its place in the first half.
pub char_to_koi8r-letters :
    (i : ℕ)
    → i < 32
    → (char_to_koi8r (0x430 + i) ≡ get_or koi8r_small (32 + i) 0)
      × ((char_to_koi8r (0x410 + i) == get_or koi8r_small i 0) ≡ false)
unfolding all_below char_to_koi8r koi8r_small
char_to_koi8r-letters i h = (
  table_eq 32 (λ i. char_to_koi8r (0x430 + i)) (λ i. get_or koi8r_small (32 + i) 0) refl i h,
  ground (
    arith,
    all_below_sound 32 (λ i. not (char_to_koi8r (0x410 + i) == get_or koi8r_small i 0)) i refl h,
  ),
)
