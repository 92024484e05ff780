-- ===== src/Cbor/Float/Half.antt =====
-- `halffloat::decode` of common/utils/SPHalfFloat.h on the halves that stand for floats.
use libstappler_common.Common.{
  ℕ, zero, suc, ◌+◌, ◌-◌, ◌*◌, ◌/◌, ◌%◌, ◌^◌, ◌≤◌, ◌<◌, ◌≡◌, arith, ap, ◌∙◌, false, ◌==◌, ◌>>>◌,
  ◌<<<◌,
}
use libstappler_common.Cbor.Float.{Host, infinity, half_decode}
use libstappler_common.Cbor.Float.Ieee.{IsIeee, magnitude, half_decode_parts}

-- A subnormal half holds `2 ^ k + r` for the float with the exponent `k + 103` and the mantissa `m`.
Subnormal : ℕ → ℕ → Type 0
Subnormal k m =
    (r : ℕ) × (r < 2 ^ k)
    × (2 ^ k + r < 1024)
    × ((m + 0x800000) / 2 ^ (23 - k) ≡ 2 ^ k + r)
    × ((k + 103) * 2 ^ 23 + r * 2 ^ (23 - k) ≡ (k + 103) * 2 ^ 23 + m)

subnormal : (k m : ℕ) → k < 10 → m < 2 ^ 23 → m % 2 ^ (23 - k) ≡ 0 → Subnormal k m
unfolding Subnormal
subnormal zero m hk hm h = (m / 2 ^ 23, omega arith, omega arith, omega arith, omega arith)
subnormal (suc zero) m hk hm h = (m / 2 ^ 22, omega arith, omega arith, omega arith, omega arith)
subnormal (suc (suc zero)) m hk hm h =
    (m / 2 ^ 21, omega arith, omega arith, omega arith, omega arith)
subnormal (suc (suc (suc zero))) m hk hm h =
    (m / 2 ^ 20, omega arith, omega arith, omega arith, omega arith)
subnormal (suc (suc (suc (suc zero)))) m hk hm h =
    (m / 2 ^ 19, omega arith, omega arith, omega arith, omega arith)
subnormal (suc (suc (suc (suc (suc zero))))) m hk hm h =
    (m / 2 ^ 18, omega arith, omega arith, omega arith, omega arith)
subnormal (suc (suc (suc (suc (suc (suc zero)))))) m hk hm h =
    (m / 2 ^ 17, omega arith, omega arith, omega arith, omega arith)
subnormal (suc (suc (suc (suc (suc (suc (suc zero))))))) m hk hm h =
    (m / 2 ^ 16, omega arith, omega arith, omega arith, omega arith)
subnormal (suc (suc (suc (suc (suc (suc (suc (suc zero)))))))) m hk hm h =
    (m / 2 ^ 15, omega arith, omega arith, omega arith, omega arith)
subnormal (suc (suc (suc (suc (suc (suc (suc (suc (suc zero))))))))) m hk hm h =
    (m / 2 ^ 14, omega arith, omega arith, omega arith, omega arith)
subnormal (suc (suc (suc (suc (suc (suc (suc (suc (suc (suc k)))))))))) m hk hm h =
    absurd (omega arith)

module _ (host : Host) (ieee : IsIeee host) where
  pub half_zero :
      (s e m : ℕ)
      → s < 2
      → e ≡ 0
      → m ≡ 0
      → half_decode host (s * 2 ^ 15) ≡ s * 2 ^ 31 + e * 2 ^ 23 + m
  half_zero s e m hs he hm =
      ap (half_decode host) (omega arith)
      ∙ half_decode_parts host ieee s 0 0 0 hs (omega arith) (omega arith) ieee.scaled_zero
      ∙ omega arith

  pub half_normal :
      (s e m : ℕ)
      → s < 2
      → 113 ≤ e
      → e ≤ 142
      → m < 2 ^ 23
      → m % 2 ^ 13 ≡ 0
      → half_decode host (s * 2 ^ 15 + (((e - 112) <<< 10) + (m >>> 13)))
        ≡ s * 2 ^ 31 + e * 2 ^ 23 + m
  half_normal s e m hs low high hm even =
      let is_normal : (magnitude host (e - 112) (m / 2 ^ 13) ≤ infinity)
          × (host.narrow (magnitude host (e - 112) (m / 2 ^ 13))
              ≡ (e - 112 + 112) * 2 ^ 23 + m / 2 ^ 13 * 2 ^ 13) =
        rw (positive, not_top)
          (ieee.scaled_normal (m / 2 ^ 13) (e - 112) (omega arith) (omega arith) (omega arith)) in
      ap (half_decode host) (omega arith)
      ∙ half_decode_parts host ieee s (e - 112) (m / 2 ^ 13) _ hs (omega arith) (omega arith)
          is_normal
      ∙ omega arith
    where
      positive : (e - 112 == 0) ≡ false
      positive = ground arith

      not_top : (e - 112 == 31) ≡ false
      not_top = ground arith

  pub half_small :
      (s k m : ℕ)
      → s < 2
      → k < 10
      → m < 2 ^ 23
      → m % 2 ^ (23 - k) ≡ 0
      → (s * 2 ^ 15 + ((m + 0x800000) >>> (23 - k)) < 2 ^ 16)
        × (half_decode host (s * 2 ^ 15 + ((m + 0x800000) >>> (23 - k)))
            ≡ s * 2 ^ 31 + (k + 103) * 2 ^ 23 + m)
  unfolding Subnormal
  half_small s k m hs hk hm even =
      let (r, small, fits, is_half, same) = subnormal k m hk hm even in
      (
        omega (arith, is_half),
        ap (λ (t : ℕ). half_decode host (s * 2 ^ 15 + t)) is_half
            ∙ ap (half_decode host) (omega arith)
            ∙ half_decode_parts host ieee s 0 (2 ^ k + r) _ hs (omega arith) fits
                (ieee.scaled_small k r hk small)
            ∙ omega (arith, same),
      )

  pub half_infinite :
      (s e m : ℕ)
      → s < 2
      → e ≡ 255
      → m ≡ 0
      → half_decode host (s * 2 ^ 15 + 0x7c00) ≡ s * 2 ^ 31 + e * 2 ^ 23 + m
  half_infinite s e m hs he hm =
      ap (half_decode host) (omega arith)
      ∙ half_decode_parts host ieee s 31 0 _ hs (omega arith) (omega arith)
          (omega arith, ieee.narrow_infinity)
      ∙ omega arith
