-- ===== src/Text/Decimal/Runs.antt =====
-- Runs on concrete numbers.
use libstappler_common.Common.{◌≤◌, ◌≡◌, refl, arith, All, length, codes}
use libstappler_common.Common.Int.{negsuc}
use libstappler_common.Text.Decimal.{to_decimal, unsigned_to_decimal, digits_from, reverse}
use libstappler_common.Text.Decimal.Print.{value_from, IsDigit, unsigned_to_decimal_lem}

negative_run : to_decimal (negsuc 1233) ≡ codes "-1234"
unfolding to_decimal unsigned_to_decimal digits_from reverse
negative_run = refl

unsigned_to_decimal_lem_example :
    (value_from 0 (unsigned_to_decimal 1900) ≡ 1900)
    × All IsDigit (unsigned_to_decimal 1900)
    × (length (unsigned_to_decimal 1900) ≤ 20)
unsigned_to_decimal_lem_example = unsigned_to_decimal_lem 1900 (omega arith)
