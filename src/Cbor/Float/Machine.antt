-- ===== src/Cbor/Float/Machine.antt =====
-- A host that meets `IsIeee`. It makes zero of the numbers below the normal floats and cuts the mantissa off.
use libstappler_common.Common.{
  ℕ, zero, suc, ◌+◌, ◌-◌, ◌*◌, ◌/◌, ◌%◌, ◌^◌, ◌≤◌, ◌<◌, ◌≡◌, refl, arith, [], ◌∷◌, leb, ◌==◌,
  if◌then◌else◌,
}
use libstappler_common.Cbor.Float.{Host, infinity}
use libstappler_common.Cbor.Float.Ieee.{IsIeee}

unfoldable pub narrow_parts : ℕ → ℕ → ℕ
narrow_parts e m =
    if e == 2047
    then (if m == 0 then 0x7f80_0000 else 0x7fc0_0000)
    else if leb e 896
    then 0
    else if leb 1151 e
    then 0x7f80_0000
    else (e - 896) * 2 ^ 23 + m / 2 ^ 29

unfoldable pub narrow_double : ℕ → ℕ
narrow_double d = d / 2 ^ 63 % 2 * 2 ^ 31 + narrow_parts (d / 2 ^ 52 % 2048) (d % 2 ^ 52)

unfoldable pub widen_float : ℕ → ℕ
widen_float f =
    let e = f / 2 ^ 23 % 256 in
    let m = f % 2 ^ 23 in
    f / 2 ^ 31 * 2 ^ 63
    + (if e == 0
        then 0
        else if e == 255
        then 2047 * 2 ^ 52 + m * 2 ^ 29
        else (e + 896) * 2 ^ 52 + m * 2 ^ 29)

-- `m` is doubled until it has eleven digits.
unfoldable pub shifted : ℕ → ℕ → ℕ → ℕ
shifted zero m e = e * 2 ^ 52 + (m - 1024) * 2 ^ 42
shifted (suc n) m e =
    let further = shifted n (2 * m) (e - 1) in
    if leb 1024 m then e * 2 ^ 52 + (m - 1024) * 2 ^ 42 else further

unfoldable pub scaled_double : ℕ → ℕ → ℕ
scaled_double m e = if m == 0 then 0 else shifted 10 m (e + 1008)

abbrev pub machine : Host
machine = record {
  narrow = narrow_double;
  widen = widen_float;
  scaled = scaled_double;
  quiet_nan = 0x7ff8_0000_0000_0000;
  print_int = λ i. 0x30 ∷ [];
}

narrow-fits : (d : ℕ) → narrow_double d < 2 ^ 32
unfolding narrow_double narrow_parts
narrow-fits d = ground arith

narrow-flips : (d : ℕ) → d ≤ infinity → narrow_double (d + 2 ^ 63) ≡ narrow_double d + 2 ^ 31
unfolding narrow_double
narrow-flips d h =
    let high : (d + 2 ^ 63) / 2 ^ 63 % 2 ≡ 1 = omega arith in
    let low : d / 2 ^ 63 % 2 ≡ 0 = omega arith in
    let exp : (d + 2 ^ 63) / 2 ^ 52 % 2048 ≡ d / 2 ^ 52 % 2048 = omega arith in
    let mant : (d + 2 ^ 63) % 2 ^ 52 ≡ d % 2 ^ 52 = omega arith in
    rw (high, low, exp, mant) (omega arith)

-- A double of this exponent and these digits.
narrow-normal :
    (e m : ℕ)
    → 897 ≤ e
    → e ≤ 1150
    → m < 2 ^ 52
    → (e * 2 ^ 52 + m ≤ infinity)
      × (narrow_double (e * 2 ^ 52 + m) ≡ (e - 896) * 2 ^ 23 + m / 2 ^ 29)
unfolding narrow_double narrow_parts
narrow-normal e m low high hm =
    let sign : (e * 2 ^ 52 + m) / 2 ^ 63 % 2 ≡ 0 = omega arith in
    let exp : (e * 2 ^ 52 + m) / 2 ^ 52 % 2048 ≡ e = omega arith in
    let mant : (e * 2 ^ 52 + m) % 2 ^ 52 ≡ m = omega arith in
    (omega arith, rw (sign, exp, mant) (ground arith))

scaled-normal :
    (m e : ℕ)
    → m < 1024
    → 1 ≤ e
    → e ≤ 30
    → (scaled_double (m + 1024) e ≤ infinity)
      × (narrow_double (scaled_double (m + 1024) e) ≡ (e + 112) * 2 ^ 23 + m * 2 ^ 13)
scaled-normal m e hm low high =
    let placed : scaled_double (m + 1024) e ≡ (e + 1008) * 2 ^ 52 + m * 2 ^ 42 =
      unfold scaled_double shifted in ground arith in
    let (fits, is_float) =
      narrow-normal (e + 1008) (m * 2 ^ 42) (omega arith) (omega arith) (omega arith) in
    rw placed (fits, omega (arith, is_float))

-- `10 - k` doublings.
scaled-digits :
    (k r : ℕ)
    → k < 10
    → r < 2 ^ k
    → (scaled_double (2 ^ k + r) 1 ≡ (k + 999) * 2 ^ 52 + r * 2 ^ (52 - k))
      × (r * 2 ^ (52 - k) < 2 ^ 52)
      × (r * 2 ^ (52 - k) / 2 ^ 29 ≡ r * 2 ^ (23 - k))
unfolding scaled_double shifted
scaled-digits zero r hk h = (ground arith, omega arith, omega arith)
scaled-digits (suc zero) r hk h = (ground arith, omega arith, omega arith)
scaled-digits (suc (suc zero)) r hk h = (ground arith, omega arith, omega arith)
scaled-digits (suc (suc (suc zero))) r hk h = (ground arith, omega arith, omega arith)
scaled-digits (suc (suc (suc (suc zero)))) r hk h = (ground arith, omega arith, omega arith)
scaled-digits (suc (suc (suc (suc (suc zero))))) r hk h = (ground arith, omega arith, omega arith)
scaled-digits (suc (suc (suc (suc (suc (suc zero)))))) r hk h =
    (ground arith, omega arith, omega arith)
scaled-digits (suc (suc (suc (suc (suc (suc (suc zero))))))) r hk h =
    (ground arith, omega arith, omega arith)
scaled-digits (suc (suc (suc (suc (suc (suc (suc (suc zero)))))))) r hk h =
    (ground arith, omega arith, omega arith)
scaled-digits (suc (suc (suc (suc (suc (suc (suc (suc (suc zero))))))))) r hk h =
    (ground arith, omega arith, omega arith)
scaled-digits (suc (suc (suc (suc (suc (suc (suc (suc (suc (suc k)))))))))) r hk h =
    absurd (omega arith)

scaled-small :
    (k r : ℕ)
    → k < 10
    → r < 2 ^ k
    → (scaled_double (2 ^ k + r) 1 ≤ infinity)
      × (narrow_double (scaled_double (2 ^ k + r) 1) ≡ (k + 103) * 2 ^ 23 + r * 2 ^ (23 - k))
scaled-small k r hk h =
    let (placed, small, cut) = scaled-digits k r hk h in
    let (fits, is_float) =
      narrow-normal (k + 999) (r * 2 ^ (52 - k)) (omega arith) (omega arith) small in
    rw placed (fits, omega (arith, is_float, cut))

pub machine-IsIeee : IsIeee machine
unfolding widen_float
machine-IsIeee = record {
  float_fits = narrow-fits;
  flips = narrow-flips;
  scaled_zero = unfold scaled_double narrow_double narrow_parts in (omega arith, refl);
  scaled_small = scaled-small;
  scaled_normal = scaled-normal;
  narrow_infinity = unfold narrow_double narrow_parts in refl;
  widen_infinity = refl;
  widen_negative = refl;
}
