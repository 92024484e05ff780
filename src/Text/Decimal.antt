-- ===== src/Text/Decimal.antt =====
-- `_to_decimal` of common/string/SPString.cc: the characters that it writes to its buffer, whose count it
-- returns. A 64-bit number has 20 digits at most, which is the fuel of the loop.
pub mod Print
mod Runs
use libstappler_common.Common.{
  ℕ, zero, suc, ◌+◌, ◌/◌, ◌%◌, List, [], ◌∷◌, ◌++◌, ◌==◌, if◌then◌else◌,
}
use libstappler_common.Common.Int.{ℤ, pos, negsuc}

-- The loop over the digits, lowest first.
unfoldable pub digits_from : ℕ → ℕ → List ℕ
digits_from zero number = []
digits_from (suc fuel) number =
    let rest = digits_from fuel (number / 10) in
    if number == 0 then [] else (b'0' + number % 10) ∷ rest

-- `std::reverse`
unfoldable pub reverse : List ℕ → List ℕ
reverse [] = []
reverse (c ∷ cs) = reverse cs ++ c ∷ []

unfoldable pub unsigned_to_decimal : ℕ → List ℕ
unsigned_to_decimal number = if number == 0 then b'0' ∷ [] else reverse (digits_from 20 number)

-- `_to_decimal` of an `int64_t`; the negation of the least one overflows, which is undefined.
unfoldable pub to_decimal : ℤ → List ℕ
to_decimal (pos number) = unsigned_to_decimal number
to_decimal (negsuc number) = b'-' ∷ unsigned_to_decimal (number + 1)
