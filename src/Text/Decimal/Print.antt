-- ===== src/Text/Decimal/Print.antt =====
-- The decimal text of a number stands for the number.
use native.Mathlib.Nat.{pow-suc}
use libstappler_common.Common.{
  ℕ, zero, suc, ◌+◌, ◌-◌, ◌*◌, ◌/◌, ◌^◌, ◌≤◌, ◌<◌, ◌≡◌, refl, ◌∙◌, arith, List, [], ◌∷◌, ◌++◌, ◌==◌,
  Bool-cases, inl, inr, length, All, All-append, length-append,
}
use libstappler_common.Text.Decimal.{digits_from, reverse, unsigned_to_decimal}

-- The number that decimal digits stand for, highest first.
abbrev pub value_from : ℕ → List ℕ → ℕ
value_from acc [] = acc
value_from acc (c ∷ cs) = value_from (acc * 10 + (c - 48)) cs

abbrev pub IsDigit : ℕ → Type 0
IsDigit c = (48 ≤ c) × (c < 58)

-- The same of digits that stand lowest first.
low_value : List ℕ → ℕ
low_value [] = 0
low_value (c ∷ cs) = (c - 48) + 10 * low_value cs

value-last :
    (cs : List ℕ) (acc c : ℕ) → value_from acc (cs ++ c ∷ []) ≡ value_from acc cs * 10 + (c - 48)
value-last [] acc c = refl
value-last (d ∷ cs) acc c = value-last cs (acc * 10 + (d - 48)) c

value-reverse : (cs : List ℕ) → value_from 0 (reverse cs) ≡ low_value cs
unfolding reverse low_value
value-reverse [] = refl
value-reverse (c ∷ cs) = omega (arith, value-last (reverse cs) 0 c, value-reverse cs)

low_value-digits : (fuel n : ℕ) → n < 10 ^ fuel → low_value (digits_from fuel n) ≡ n
unfolding low_value digits_from
low_value-digits zero n h = omega arith
low_value-digits (suc fuel) n h = ground (arith, pow-suc 10 fuel, low_value-digits fuel (n / 10))

digits_from-IsDigit : (fuel n : ℕ) → All IsDigit (digits_from fuel n)
unfolding digits_from
digits_from-IsDigit zero n = tt
digits_from-IsDigit (suc fuel) n = elim (Bool-cases (n == 0)) [
  | inl y ↦ rw y tt
  | inr m ↦ rw m ((omega arith, omega arith), digits_from-IsDigit fuel (n / 10))
]

reverse-IsDigit : (cs : List ℕ) → All IsDigit cs → All IsDigit (reverse cs)
unfolding reverse
reverse-IsDigit [] h = tt
reverse-IsDigit (c ∷ cs) h =
    All-append IsDigit (reverse cs) (c ∷ []) (reverse-IsDigit cs h.1) (h.0, tt)

length-digits : (fuel n : ℕ) → length (digits_from fuel n) ≤ fuel
unfolding digits_from
length-digits zero n = omega arith
length-digits (suc fuel) n = ground (arith, length-digits fuel (n / 10))

length-reverse : (cs : List ℕ) → length (reverse cs) ≡ length cs
unfolding reverse
length-reverse [] = refl
length-reverse (c ∷ cs) = omega (arith, length-append (reverse cs) (c ∷ []), length-reverse cs)

-- The decimal text of a 64-bit number consists of digits, 20 at most, and stands for the number.
pub unsigned_to_decimal_lem :
    (n : ℕ)
    → n < 2 ^ 64
    → (value_from 0 (unsigned_to_decimal n) ≡ n)
      × All IsDigit (unsigned_to_decimal n)
      × (length (unsigned_to_decimal n) ≤ 20)
unfolding unsigned_to_decimal
unsigned_to_decimal_lem n h = elim (Bool-cases (n == 0)) [
  | inl y ↦ rw y (ground arith, ((omega arith, omega arith), tt), omega arith)
  | inr m ↦ rw m (
    value-reverse (digits_from 20 n) ∙ low_value-digits 20 n (omega arith),
    reverse-IsDigit (digits_from 20 n) (digits_from-IsDigit 20 n),
    omega (arith, length-reverse (digits_from 20 n), length-digits 20 n),
  )
]
