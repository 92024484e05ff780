-- ===== src/Common/Bits.antt =====
-- `|` of disjoint fields and `&` with a mask of low ones, at every width.
use Prim.Native.Nat.{
  ℕ, zero, suc, ◌+◌, ◌-◌, ◌*◌, ◌/◌, ◌%◌, ◌^◌, ◌≤◌, ◌<◌, min, max, bit_and, bit_or,
}
use Prim.Native.Nat.{digits, bitwise, bit_and-bitwise, bit_or-bitwise}
use mathlib.Core.Path.{◌≡◌, refl, sym, ap, ◌∙◌}
use native.Mathlib.Decide.{dec_le}
use native.Mathlib.Nat.{pow-suc, one-le-pow, div-div-eq-div-mul}
use native.Mathlib.Omega.{arith}

-- The count of rounds does not matter once it covers the left operand.
module _ (z : ℕ → ℕ) (f : ℕ → ℕ → ℕ) where
  digits_round : (n a b : ℕ) → a ≤ n → digits z f (suc n) a b ≡ digits z f n a b
  digits_round zero zero b h = refl
  digits_round zero (suc a) b h = absurd (omega arith)
  digits_round (suc n) zero b h = refl
  digits_round (suc n) (suc a) b h =
      ap (λ (t : ℕ). t * 2 + f (suc a % 2) (b % 2))
        (digits_round n (suc a / 2) (b / 2) (omega arith))

  digits_settle : (n a b : ℕ) → a ≤ n → digits z f n a b ≡ bitwise z f a b
  digits_settle zero zero b h = refl
  digits_settle zero (suc a) b h = absurd (omega arith)
  digits_settle (suc n) a b h = elim (dec_le a n) [
    | yes p ↦ digits_round n a b p ∙ digits_settle n a b p
    | no p ↦ let e : a ≡ suc n = omega arith in rw e
  ]

  lowest_digit :
      (a b : ℕ)
      → bitwise z f (suc a) b ≡ f (suc a % 2) (b % 2) + 2 * bitwise z f (suc a / 2) (b / 2)
  lowest_digit a b = omega (arith, digits_settle a (suc a / 2) (b / 2) (omega arith))

or_digit : (a b : ℕ) → bit_or a b ≡ max (a % 2) (b % 2) + 2 * bit_or (a / 2) (b / 2)
or_digit zero b = simp bit_or-bitwise (omega arith)
or_digit (suc a) b = simp bit_or-bitwise (lowest_digit (λ y. y) max a b)

and_digit : (a b : ℕ) → bit_and a b ≡ min (a % 2) (b % 2) + 2 * bit_and (a / 2) (b / 2)
and_digit zero b = simp bit_and-bitwise (omega arith)
and_digit (suc a) b = simp bit_and-bitwise (lowest_digit (λ y. 0) min a b)

double_pow : (q k : ℕ) → q * 2 ^ suc k ≡ 2 * (q * 2 ^ k)
double_pow q k = omega (arith, ap (λ (t : ℕ). q * t) (pow-suc 2 k))

or-zero_below : (n a : ℕ) → a ≤ n → bit_or a 0 ≡ a
or-zero_below n zero h = refl
or-zero_below zero (suc a) h = absurd (omega arith)
or-zero_below (suc n) (suc a) h =
    omega (arith, or_digit (suc a) 0, or-zero_below n (suc a / 2) (omega arith))

and-zero_below : (n a : ℕ) → a ≤ n → bit_and a 0 ≡ 0
and-zero_below n zero h = refl
and-zero_below zero (suc a) h = absurd (omega arith)
and-zero_below (suc n) (suc a) h =
    omega (arith, and_digit (suc a) 0, and-zero_below n (suc a / 2) (omega arith))

-- `(q << k) | r` is a sum where `r` fits `k` bits.
pub or_field : (k q r : ℕ) → r < 2 ^ k → bit_or (q * 2 ^ k) r ≡ q * 2 ^ k + r
or_field zero q r h = ground (arith, or-zero_below q q)
or_field (suc k) q r h =
    ground (arith, or_digit (q * 2 ^ suc k) r, double_pow q k, pow-suc 2 k, or_field k q (r / 2))

-- Halving takes the remainder by `2 p` to the remainder by `p`.
mod_double : (p a : ℕ) → 0 < p → a % (2 * p) ≡ 2 * (a / 2 % p) + a % 2
mod_double p a h = grind arith

-- A mask of `k` ones keeps the remainder by `2 ^ k`.
pub and_mask : (k a : ℕ) → bit_and a (2 ^ k - 1) ≡ a % 2 ^ k
and_mask zero a = omega (arith, and-zero_below a a (omega arith))
and_mask (suc k) a = ground (
  arith,
  and_digit a (2 ^ suc k - 1),
  pow-suc 2 k,
  one-le-pow k 2,
  mod_double (2 ^ k) a,
  and_mask k (a / 2),
)

and_double : (a c : ℕ) → bit_and a (2 * c) ≡ 2 * bit_and (a / 2) c
and_double a c = omega (arith, and_digit a (2 * c), ap (bit_and (a / 2)) halved)
  where
    halved : 2 * c / 2 ≡ c
    halved = omega arith

-- The low bits of a mask that has none of them drop out.
pub and_high : (k a b : ℕ) → bit_and a (b * 2 ^ k) ≡ bit_and (a / 2 ^ k) b * 2 ^ k
and_high zero a b =
    let whole : a / 1 ≡ a = omega arith in
    let same : b * 1 ≡ b = omega arith in rw (whole, same) (omega arith)
and_high (suc k) a b =
    let twice : 2 ^ suc k ≡ 2 * 2 ^ k = omega (arith, pow-suc 2 k) in
    let e : a / 2 ^ suc k ≡ a / 2 / 2 ^ k =
      ap (λ (t : ℕ). a / t) twice ∙ sym (div-div-eq-div-mul a 2 (2 ^ k)) in
    rw (double_pow b k, e)
      (omega (
        arith,
        and_double a (b * 2 ^ k),
        and_high k (a / 2) b,
        double_pow (bit_and (a / 2 / 2 ^ k) b) k,
      ))
