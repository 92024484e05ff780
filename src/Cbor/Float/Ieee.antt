-- ===== src/Cbor/Float/Ieee.antt =====
-- `halffloat::decode` of common/utils/SPHalfFloat.h by the sign, the exponent and the mantissa of a half.
use libstappler_common.Common.{
  ℕ, zero, suc, ◌+◌, ◌-◌, ◌*◌, ◌/◌, ◌%◌, ◌^◌, ◌≤◌, ◌<◌, ◌≡◌, arith, ap, ◌∙◌, bit_and, not, ◌==◌,
  ◌>>>◌, if◌then◌else◌,
}
use libstappler_common.Common.Bits.{and_mask, and_high}
use libstappler_common.Cbor.Float.{Host, infinity, negative_infinity, negate, half_decode}

-- What IEEE 754 and `ldexp` say of the host: numbers that a float can hold are narrowed exactly, and a change of
-- sign is a change of sign in both widths.
pub record IsIeee (host : Host) : Type 0 where
  pub float_fits : (d : ℕ) → host.narrow d < 2 ^ 32
  pub flips : (d : ℕ) → d ≤ infinity → host.narrow (d + 2 ^ 63) ≡ host.narrow d + 2 ^ 31
  pub scaled_zero : (host.scaled 0 1 ≤ infinity) × (host.narrow (host.scaled 0 1) ≡ 0)
  -- `m * 2 ^ -24` of the `k + 1` digits `1r`
  pub scaled_small :
      (k r : ℕ)
      → k < 10
      → r < 2 ^ k
      → (host.scaled (2 ^ k + r) 1 ≤ infinity)
        × (host.narrow (host.scaled (2 ^ k + r) 1) ≡ (k + 103) * 2 ^ 23 + r * 2 ^ (23 - k))
  -- `(m + 1024) * 2 ^ (e - 25)`
  pub scaled_normal :
      (m e : ℕ)
      → m < 1024
      → 1 ≤ e
      → e ≤ 30
      → (host.scaled (m + 1024) e ≤ infinity)
        × (host.narrow (host.scaled (m + 1024) e) ≡ (e + 112) * 2 ^ 23 + m * 2 ^ 13)
  pub narrow_infinity : host.narrow infinity ≡ 0x7f80_0000
  pub widen_infinity : host.widen 0x7f80_0000 ≡ infinity
  pub widen_negative : host.widen 0xff80_0000 ≡ negative_infinity

-- The number without its sign.
abbrev pub magnitude : Host → ℕ → ℕ → ℕ
magnitude host e m =
    if e == 0
    then host.scaled m 1
    else if not (e == 31)
    then host.scaled (m + 1024) e
    else if m == 0
    then infinity
    else host.quiet_nan

half_parts :
    (s e m : ℕ)
    → s < 2
    → e < 32
    → m < 1024
    → (bit_and ((s * 2 ^ 15 + e * 2 ^ 10 + m) >>> 10) 0x1f ≡ e)
      × (bit_and (s * 2 ^ 15 + e * 2 ^ 10 + m) 0x3ff ≡ m)
      × (bit_and (s * 2 ^ 15 + e * 2 ^ 10 + m) 0x8000 ≡ s * 2 ^ 15)
half_parts s e m hs he hm = (
  omega (arith, and_mask 5 ((s * 2 ^ 15 + e * 2 ^ 10 + m) / 2 ^ 10)),
  omega (arith, and_mask 10 (s * 2 ^ 15 + e * 2 ^ 10 + m)),
  omega (
    arith,
    and_high 15 (s * 2 ^ 15 + e * 2 ^ 10 + m) 1,
    and_mask 1 ((s * 2 ^ 15 + e * 2 ^ 10 + m) / 2 ^ 15),
  ),
)

module _ (host : Host) (ieee : IsIeee host) where
  signed :
      (s v : ℕ)
      → s < 2
      → v ≤ infinity
      → host.narrow (if s * 2 ^ 15 == 0 then v else negate v) ≡ s * 2 ^ 31 + host.narrow v
  unfolding negate
  signed zero v hs h = omega arith
  signed (suc zero) v hs h =
      let e : (v + 2 ^ 63) % 2 ^ 64 ≡ v + 2 ^ 63 = omega arith in
      rw e (omega (arith, ieee.flips v h))
  signed (suc (suc s)) v hs h = absurd (omega arith)

  pub half_decode_parts :
      (s e m x : ℕ)
      → s < 2
      → e < 32
      → m < 1024
      → (magnitude host e m ≤ infinity) × (host.narrow (magnitude host e m) ≡ x)
      → half_decode host (s * 2 ^ 15 + e * 2 ^ 10 + m) ≡ s * 2 ^ 31 + x
  unfolding half_decode
  half_decode_parts s e m x hs he hm (fits, is_x) =
      let (pe, pm, ps) = half_parts s e m hs he hm in
      rw (pe, pm, ps, half_decode)
        (signed s (magnitude host e m) hs fits ∙ ap (λ (t : ℕ). s * 2 ^ 31 + t) is_x)
