-- ===== src/Coding/Base16/Tables.antt =====
-- The tables against one another, by evaluation.
use libstappler_common.Common.{ℕ, ◌+◌, ◌*◌, ◌≡◌, refl, List, bit_or, ◌<<<◌, u8, get_or, IsByte}
use libstappler_common.Common.Tables.{all_below, table_eq}
use libstappler_common.Coding.Base16.{hex_lower, hex_upper, hex_digit}

-- The byte that the two characters of a table's entry stand for.
abbrev pub read_entry : List ℕ → ℕ → ℕ
read_entry table b =
    u8 (bit_or (hex_digit (get_or table (2 * b) 0) <<< 4) (hex_digit (get_or table (2 * b + 1) 0)))

pub read_lower : (b : ℕ) → IsByte b → read_entry hex_lower b ≡ b
unfolding all_below hex_digit
read_lower = table_eq 256 (λ b. read_entry hex_lower b) (λ b. b) refl

pub read_upper : (b : ℕ) → IsByte b → read_entry hex_upper b ≡ b
unfolding all_below hex_digit
read_upper = table_eq 256 (λ b. read_entry hex_upper b) (λ b. b) refl
